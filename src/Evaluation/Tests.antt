-- ===== src/Evaluation/Tests.antt =====
-- A machine on which every command succeeds, a host whose harness writes a report, and the theorems
-- at them.
use coding_agent_support.Base.{
  list_beq, list_eq, nat_eq, false, ◌≡◌, refl, true, none, some, [], codes,
}
use coding_agent_support.Base.Integers.{pos}
use coding_agent_support.Effects.{err, value_error, pure, OnOk}
use coding_agent_support.Effects.Total.{Returns, pure-Answers}
use coding_agent_support.Json.{obj, end}
use coding_agent_support.Task.Samples.{sample}
use coding_agent_support.Workspace.{CompletedProcess, Machine}
use coding_agent_support.Evaluation.{evaluate_patch}
use coding_agent_support.Evaluation.Verdict.{IsVerdict, evaluate_patch-IsVerdict}
use coding_agent_support.Evaluation.Total.{IsReliable, evaluate_patch-Returns}
use coding_agent_support.Evaluation.Docker.{Host, HarnessOptions, evaluate_with_docker}

abbrev good : CompletedProcess
good = record { returncode = pos 0; stdout = []; stderr = [] }

abbrev machine : Machine (Unit {0})
machine = record {
  subprocess = λ cmd. pure good;
  append_command = none;
  copy_template = λ template. pure tt;
  write_patch_file = λ text. pure tt;
  unlink_patch_file = pure tt;
}

reliable : IsReliable machine
reliable = record {
  runs = λ cmd. pure-Answers good;
  logs = λ r. pure-Answers tt;
  copies = λ template. pure-Answers tt;
  writes = λ text. pure-Answers tt;
  unlinks = pure-Answers tt;
  sets_up = (λ w. refl, (λ w. refl, (λ w. refl, (λ w. refl, (λ w. refl, tt)))));
}

evaluate_patch-IsVerdict_example :
    OnOk (IsVerdict sample) (evaluate_patch machine (codes "/root") none sample (codes "+") tt).0
evaluate_patch-IsVerdict_example =
    evaluate_patch-IsVerdict machine (codes "/root") none sample (codes "+") tt

evaluate_patch-Returns_example :
    Returns
      (IsVerdict sample)
      (evaluate_patch machine
        (codes "/root")
        none
        (record sample { local_repo_path = some (codes "/r") })
        (codes "+")
        tt).0
    × (evaluate_patch machine
          (codes "/root")
          none
          (record sample { local_repo_path = none })
          (codes "+")
          tt
        ≡ (err value_error, tt))
unfolding codes
evaluate_patch-Returns_example =
    evaluate_patch-Returns machine reliable (codes "/root") none sample (codes "+") (codes "/r") tt
      refl

abbrev host : Host (Unit {0})
host = record {
  resolve = λ path. pure path;
  mkdir = λ path. pure tt;
  dumps = λ p. p.instance_id;
  loads = λ text. pure (obj end);
  write_text = λ path text. pure tt;
  exists = λ path. pure true;
  read_text = λ path. pure (codes "{}");
  subprocess = λ dir argv. pure good;
}

abbrev options : HarnessOptions
options = record {
  dataset_name = codes "d";
  split = codes "test";
  namespace = codes "swebench";
  timeout = 1800;
  python_exe = none;
}

docker_log :
    OnOk
      (λ r. (r.eval_log_path ≡ some (codes "/w/harness.log")) × (r.resolved ≡ false))
      (evaluate_with_docker host options sample (codes "+") (codes "/w") (codes "run") tt).0
unfolding evaluate_with_docker codes list_beq
docker_log = (refl, refl)
