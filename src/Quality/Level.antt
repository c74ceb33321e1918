-- ===== src/Quality/Level.antt =====
-- The level that the evaluators' results get.
use coding_agent_support.Base.{◌≡◌, ◌⊎◌, true, false, Option, Text, arith}
use coding_agent_support.Effects.{OnOk, OnOk-map}
use coding_agent_support.Task.{TaskSpec}
use coding_agent_support.Workspace.{Machine}
use coding_agent_support.Run.{EvalResult}
use coding_agent_support.Evaluation.{evaluate_patch}
use coding_agent_support.Evaluation.Verdict.{IsVerdict, evaluate_patch-IsVerdict}
use coding_agent_support.Quality.{
  q0_invalid, q1_plausible_failing, q2_functionally_correct, quality_level,
}

-- the level is read off the result: invalid without an applied patch that builds, failing without
-- a resolution, and else functionally correct
abbrev pub IsGraded : EvalResult → Type 0
IsGraded r =
    (quality_level r ≡ q2_functionally_correct) × (r.resolved ≡ true)
    ⊎ (quality_level r ≡ q1_plausible_failing)
      × (r.resolved ≡ false)
      × (r.patch_applies ≡ true)
      × (r.build_success ≡ true)
    ⊎ (quality_level r ≡ q0_invalid)
      × (r.resolved ≡ false)
      × ((r.patch_applies ≡ false) ⊎ (r.build_success ≡ false))

IsVerdict-IsGraded : (task : TaskSpec) (r : EvalResult) → IsVerdict task r → IsGraded r
unfolding quality_level
IsVerdict-IsGraded task r v = ground arith

-- A result of the local evaluator is graded functionally correct exactly if it is resolved, failing
-- exactly if the patch applies and builds and nothing is resolved, and invalid if the patch does not
-- apply or build, in which case it is not resolved either.
pub evaluate_patch-IsGraded :
    {W : Type 0} (sys : Machine W) (root : Text) (run_dir : Option Text) (task : TaskSpec)
    (diff : Text) (w : W)
    → OnOk IsGraded (evaluate_patch sys root run_dir task diff w).0
evaluate_patch-IsGraded sys root run_dir task diff w =
    OnOk-map (IsVerdict task) IsGraded _ (IsVerdict-IsGraded task)
      (evaluate_patch-IsVerdict sys root run_dir task diff w)
