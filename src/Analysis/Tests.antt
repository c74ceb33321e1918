-- ===== src/Analysis/Tests.antt =====
-- A small experiment, and the theorems at it.
use coding_agent_support.Base.{
  ◌≡◌, refl, Bool, true, false, none, some, List, [], ◌∷◌, Text, codes, list_beq, list_eq, nat_eq,
}
use coding_agent_support.Effects.{ok, err, value_error}
use coding_agent_support.Analysis.{
  RunRow, Spec, Evaluated, RunFiles, load_runs, counted, paired_contrast, RunEval,
}
use coding_agent_support.Analysis.Loading.{
  Version, protocol, model, condition_version, version_of, load_runs-SameVersions,
}
use coding_agent_support.Analysis.Pairs.{IsTable, paired_contrast-IsTable}

abbrev spec : Text → Spec
spec m = record {
  task_id = some (codes "t");
  condition = some (codes "C0_minimal");
  seed = none;
  protocol_version = some (codes "0.4");
  model = some m;
  condition_version = none;
}

abbrev evaluated : Evaluated
evaluated = record { resolved = true; patch_applies = true }

abbrev run_of : Text → RunFiles
run_of m = record {
  card = some none;
  eval_result = some evaluated;
  spec = some (spec m);
  status = none;
  manipulation_passed = none;
}

abbrev row : RunRow
row = record {
  task_id = codes "t";
  condition = codes "C0_minimal";
  seed = 0;
  resolved = true;
  patch_applies = true;
  quality = codes "Q0_invalid";
  manipulation_passed = none;
}

abbrev never : Version → Bool
never v = false

refused :
    load_runs false false false (run_of (codes "a") ∷ run_of (codes "b") ∷ []) ≡ err value_error
unfolding load_runs codes list_beq
refused = refl

loaded :
    load_runs
      (never protocol)
      (never model)
      (never condition_version)
      (run_of (codes "a") ∷ run_of (codes "a") ∷ [])
    ≡ ok (row ∷ row ∷ [])
unfolding load_runs codes list_beq
loaded = refl

counted_run : counted (run_of (codes "a")) ≡ some (spec (codes "a"), evaluated, none)
unfolding counted codes
counted_run = refl

load_runs-SameVersions_example :
    version_of model (spec (codes "a")) ≡ version_of model (spec (codes "a"))
load_runs-SameVersions_example =
    load_runs-SameVersions never (run_of (codes "a") ∷ run_of (codes "a") ∷ []) (row ∷ row ∷ [])
      model 0 1 (run_of (codes "a")) (run_of (codes "a")) (spec (codes "a"), evaluated, none)
      (spec (codes "a"), evaluated, none) loaded refl refl counted_run refl counted_run

abbrev rows : List RunRow
rows = row ∷ record row { condition = codes "C1_context"; resolved = false } ∷ []

contrast_base : (paired_contrast rows (codes "C1_context") (codes "C0_minimal")).only_base ≡ 1
unfolding paired_contrast codes list_beq
contrast_base = refl

paired_contrast-IsTable_example :
    (ks : List Text) × IsTable rows
      (codes "C1_context")
      (codes "C0_minimal")
      ks
      (paired_contrast rows (codes "C1_context") (codes "C0_minimal"))
paired_contrast-IsTable_example =
    paired_contrast-IsTable rows (codes "C1_context") (codes "C0_minimal")

abbrev evals : List RunEval
evals =
    record { patch_applies = true; pass_to_pass_passed = 1; pass_to_pass_total = 2 }
    ∷ record { patch_applies = true; pass_to_pass_passed = 0; pass_to_pass_total = 0 }
    ∷ []
