-- ===== src/Evaluation.antt =====
-- se_support/evaluation/local_eval.py: the verdict on a patch by the tests of a task, on a clean
-- copy of its base. The Docker evaluation is the child Docker.
pub mod Docker
pub mod Report
pub mod Total
pub mod Verdict
mod Tests
use coding_agent_support.Base.{
  ℕ, Bool, true, false, not, ◌&&◌, ◌||◌, ltb, Option, none, some, List, [], ◌∷◌, ◌++◌, Text, codes,
  starts_with, is_empty, if◌then◌else◌, ◌==◌, nat_eq,
}
use coding_agent_support.Effects.{Eff, value_error, pure, raise, ◌>>=◌, ◌>>◌}
use coding_agent_support.Task.{TaskSpec}
use coding_agent_support.Workspace.{
  CompletedProcess, Machine, succeeded, run_command, from_template, apply_patch, run_pytest,
}
use coding_agent_support.Run.{EvalResult}

-- `repo_root() / path` if the path is relative
unfoldable pub template_path : Text → Text → Text
template_path root path = if starts_with path (codes "/") then path else root ++ codes "/" ++ path

unfoldable pub run_id_of : Option Text → TaskSpec → Text
run_id_of none task = task.task_id
run_id_of (some name) task = name

-- the result, from what the patch and the runs of the tests gave
unfoldable pub verdict : Text → Bool → Bool → ℕ × ℕ → ℕ × ℕ → EvalResult
verdict run_id patch_applies build_ok (f2p_passed, f2p_total) (p2p_passed, p2p_total) =
    let resolved =
      patch_applies
      && build_ok
      && ltb 0 f2p_total
      && f2p_passed == f2p_total
      && p2p_passed == p2p_total in
    record {
      run_id = run_id;
      patch_applies = patch_applies;
      build_success = build_ok;
      fail_to_pass_passed = f2p_passed;
      fail_to_pass_total = f2p_total;
      pass_to_pass_passed = p2p_passed;
      pass_to_pass_total = p2p_total;
      resolved = resolved;
      full_tests_status =
          if patch_applies
          then some (
              if resolved
              then codes "pass"
              else if ltb 0 f2p_passed
              then codes "partial"
              else codes "fail")
          else none;
      gate_results_path = none;
      eval_log_path = none;
    }

abbrev pub compile_all : List Text
compile_all = codes "python" ∷ codes "-m" ∷ codes "compileall" ∷ codes "-q" ∷ codes "." ∷ []

module _ {W : Type 0} (sys : Machine W) where
  -- no test is run if the patch does not apply
  unfoldable pub count_tests : Bool → List Text → Eff W (ℕ × ℕ)
  unfolding run_pytest
  count_tests true ids = run_pytest sys ids none
  count_tests false ids = pure (0, 0)

  -- from the patch, applied or not, and the build to the result
  unfoldable pub score : TaskSpec → Text → Bool → CompletedProcess → Eff W EvalResult
  unfolding count_tests verdict
  score task run_id patch_applies build = do
    f2p ← count_tests patch_applies task.fail_to_pass_tests
    p2p ← count_tests patch_applies task.pass_to_pass_tests
    pure (verdict run_id patch_applies (succeeded build) f2p p2p)

  -- from the workspace to the result
  unfoldable pub judge_patch : TaskSpec → Text → Text → Eff W EvalResult
  unfolding apply_patch run_command score
  judge_patch task run_id final_diff = do
    patch_applies ← apply_patch sys final_diff false
    build ← run_command sys compile_all none false
    score task run_id patch_applies build

  unfoldable pub evaluate_at : Text → Option Text → TaskSpec → Text → Text → Eff W EvalResult
  unfolding judge_patch from_template template_path run_id_of
  evaluate_at root run_dir task final_diff path = do
    from_template sys (template_path root path)
    judge_patch task (run_id_of run_dir task) final_diff

  -- `run_dir` is the name of the run directory, if there is one.
  unfoldable pub evaluate_patch : Text → Option Text → TaskSpec → Text → Eff W EvalResult
  unfolding evaluate_at
  evaluate_patch root run_dir task final_diff = elim task.local_repo_path [
    | none ↦ raise value_error
    | some path ↦
        if is_empty path then raise value_error else evaluate_at root run_dir task final_diff path
  ]
