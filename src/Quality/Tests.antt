-- ===== src/Quality/Tests.antt =====
-- The theorems on cards, at a small patch.
use coding_agent_support.Base.{ℕ, none, some, [], ◌∷◌, codes}
use coding_agent_support.Base.Integers.{pos}
use coding_agent_support.Effects.{OnOk, pure}
use coding_agent_support.Task.Samples.{sample}
use coding_agent_support.Workspace.{Machine}
use coding_agent_support.Evaluation.{evaluate_patch}
use coding_agent_support.Quality.{locality_of, Locality}
use coding_agent_support.Quality.Level.{IsGraded, evaluate_patch-IsGraded}
use coding_agent_support.Quality.Overlap.{IsLocal, locality_of-IsLocal}

abbrev machine : Machine (Unit {0})
machine = record {
  subprocess = λ cmd. pure (record { returncode = pos 0; stdout = []; stderr = [] });
  append_command = none;
  copy_template = λ template. pure tt;
  write_patch_file = λ text. pure tt;
  unlink_patch_file = pure tt;
}

evaluate_patch-IsGraded_example :
    OnOk IsGraded
      (evaluate_patch machine
        (codes "/root")
        none
        (record sample { local_repo_path = some (codes "/r") })
        (codes "+")
        tt).0
evaluate_patch-IsGraded_example =
    evaluate_patch-IsGraded machine (codes "/root") none
      (record sample { local_repo_path = some (codes "/r") }) (codes "+") tt

abbrev local : Locality (ℕ × ℕ)
local = locality_of (0, 1) (λ a b. (a, b)) (codes "f.py" ∷ []) (codes "+++ b/f.py")

locality_of-IsLocal_example :
    IsLocal
      (0, 1)
      (λ a b. (a, b))
      (codes "f.py" ∷ [])
      local.files_touched
      local.gold_file_overlap
      local.unrelated_file_change_suspected
locality_of-IsLocal_example =
    locality_of-IsLocal (0, 1) (λ a b. (a, b)) (codes "f.py" ∷ []) (codes "+++ b/f.py")
