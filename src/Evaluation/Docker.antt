-- ===== src/Evaluation/Docker.antt =====
-- se_support/evaluation/swebench_eval.py: one patch in the SWE-bench harness.
use coding_agent_support.Base.{
  ℕ, Bool, true, false, Option, none, some, List, [], ◌∷◌, ◌++◌, Text, codes, starts_with, after,
  decimal, if◌then◌else◌,
}
use coding_agent_support.Effects.{Eff, runtime_error, pure, raise, ◌>>=◌, ◌>>◌}
use coding_agent_support.Task.{TaskSpec}
use coding_agent_support.Json.{Json}
use coding_agent_support.Workspace.{CompletedProcess, int_text}
use coding_agent_support.Run.{EvalResult}
use coding_agent_support.Evaluation.Report.{eval_from_report}

abbrev pub model_tag : Text
model_tag = codes "se_support"

unfoldable pub instance_id_from_task : TaskSpec → Text
unfolding codes starts_with
instance_id_from_task task =
    let prefix = task.dataset ++ codes "__" in
    if starts_with task.task_id prefix then after prefix task.task_id else task.task_id

pub record Prediction : Type 0 where
  pub instance_id : Text
  pub model_name_or_path : Text
  pub model_patch : Text

-- The files, `json` and the harness; the environment variables are part of the call of the harness.
pub record Host (W : Type 0) : Type 0 where
  pub resolve : Text → Eff W Text
  pub mkdir : Text → Eff W (Unit {0})
  pub dumps : Prediction → Text
  pub loads : Text → Eff W Json
  pub write_text : Text → Text → Eff W (Unit {0})
  pub exists : Text → Eff W Bool
  pub read_text : Text → Eff W Text
  pub subprocess : Text → List Text → Eff W CompletedProcess

-- the keyword arguments
pub record HarnessOptions : Type 0 where
  pub dataset_name : Text
  pub split : Text
  pub namespace : Text
  pub timeout : ℕ
  pub python_exe : Option Text

abbrev pub path_join : Text → Text → Text
path_join dir name = dir ++ codes "/" ++ name

unfoldable pub python_of : Option Text → Text
python_of none = codes "python"
python_of (some []) = codes "python"
python_of (some (c ∷ s)) = c ∷ s

unfoldable pub harness_command : HarnessOptions → Text → Text → Text → List Text
unfolding python_of
harness_command options instance_id preds run_id =
    python_of options.python_exe
    ∷ codes "-m"
    ∷ codes "swebench.harness.run_evaluation"
    ∷ codes "--dataset_name"
    ∷ options.dataset_name
    ∷ codes "--split"
    ∷ options.split
    ∷ codes "-i"
    ∷ instance_id
    ∷ codes "-p"
    ∷ preds
    ∷ codes "--run_id"
    ∷ run_id
    ∷ codes "--max_workers"
    ∷ codes "1"
    ∷ codes "--cache_level"
    ∷ codes "env"
    ∷ codes "--namespace"
    ∷ options.namespace
    ∷ codes "--timeout"
    ∷ decimal options.timeout
    ∷ []

unfoldable pub report_paths : Text → Text → Text → List Text
report_paths work_dir run_id instance_id =
    path_join work_dir (
      codes "logs/run_evaluation/"
      ++ run_id
      ++ codes "/"
      ++ model_tag
      ++ codes "/"
      ++ instance_id
      ++ codes "/report.json")
    ∷ path_join work_dir (model_tag ++ codes "." ++ run_id ++ codes ".json")
    ∷ []

module _ {W : Type 0} (host : Host W) where
  unfoldable pub write_predictions : TaskSpec → Text → Text → Eff W Text
  unfolding instance_id_from_task
  write_predictions task patch_text path = do
    host.write_text path (
        host.dumps (record {
          instance_id = instance_id_from_task task;
          model_name_or_path = model_tag;
          model_patch = patch_text;
        })
        ++ codes "\n")
    pure (instance_id_from_task task)

  read_report : Text → Eff W (Option Json)
  read_report path = do text ← host.read_text path; report ← host.loads text; pure (some report)

  -- the first of the files that exists
  unfoldable pub find_report : List Text → Eff W (Option Json)
  unfolding read_report
  find_report [] = pure none
  find_report (c ∷ rest) = do
    found ← host.exists c
    elim found [ true ↦ read_report c | false ↦ find_report rest ]

  unfoldable pub result_or_raise :
      Option Json → CompletedProcess → Text → Text → Text → Eff W EvalResult
  unfolding eval_from_report int_text
  result_or_raise none proc log instance_id run_id = raise (
      runtime_error (
        codes "swebench harness produced no report (exit "
        ++ int_text proc.returncode
        ++ codes "); see "
        ++ log))
  result_or_raise (some report) proc log instance_id run_id = do
    result ← eval_from_report report instance_id run_id
    pure (record result { eval_log_path = some log })

  unfoldable pub evaluate_with_docker :
      HarnessOptions → TaskSpec → Text → Text → Text → Eff W EvalResult
  unfolding write_predictions harness_command report_paths find_report result_or_raise
  evaluate_with_docker options task patch_text work run_id = do
    work_dir ← host.resolve work
    host.mkdir work_dir
    let preds = path_join work_dir (codes "predictions.jsonl")
    let log = path_join work_dir (codes "harness.log")
    instance_id ← write_predictions task patch_text preds
    proc ← host.subprocess work_dir (harness_command options instance_id preds run_id)
    host.write_text log (proc.stdout ++ codes "\n---STDERR---\n" ++ proc.stderr)
    report ← find_report (report_paths work_dir run_id instance_id)
    result_or_raise report proc log instance_id run_id
