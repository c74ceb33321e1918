-- ===== src/Evaluation/Verdict.antt =====
-- What a verdict says, and when there is one.
use coding_agent_support.Base.{
  ℕ, ◌<◌, ◌≡◌, ◌≢◌, ◌⊎◌, refl, Bool, true, false, Option, none, some, List, [], ◌∷◌, Text, codes,
  length, is_empty, arith, inl, inr, Option-cases, Bool-cases, nat_eq,
}
use coding_agent_support.Effects.{Eff, pure, ◌>>=◌, OnOk, OnOk-bind, OnOk-then}
use coding_agent_support.Task.{TaskSpec}
use coding_agent_support.Workspace.{
  CompletedProcess, pytest_argv, Machine, succeeded, run_command, from_template, apply_patch,
  run_pytest, pytest_counts,
}
use coding_agent_support.Run.{EvalResult}
use coding_agent_support.Evaluation.{
  template_path, run_id_of, verdict, compile_all, count_tests, score, judge_patch, evaluate_at,
  evaluate_patch,
}

-- the patch did not apply: no test was run
abbrev pub IsUnapplied : EvalResult → Type 0
IsUnapplied r =
    (r.patch_applies ≡ false)
    × (r.resolved ≡ false)
    × (r.fail_to_pass_passed ≡ 0)
    × (r.fail_to_pass_total ≡ 0)
    × (r.pass_to_pass_passed ≡ 0)
    × (r.pass_to_pass_total ≡ 0)
    × (r.full_tests_status ≡ none)

-- the patch applied, and the totals are those of the task
abbrev pub IsCounted : TaskSpec → EvalResult → Type 0
IsCounted task r =
    (r.patch_applies ≡ true)
    × (r.fail_to_pass_total ≡ length task.fail_to_pass_tests)
    × (r.pass_to_pass_total ≡ length task.pass_to_pass_tests)

abbrev pub IsPass : TaskSpec → EvalResult → Type 0
IsPass task r =
    (r.resolved ≡ true)
    × (r.build_success ≡ true)
    × (0 < length task.fail_to_pass_tests)
    × (r.fail_to_pass_passed ≡ length task.fail_to_pass_tests)
    × (r.pass_to_pass_passed ≡ length task.pass_to_pass_tests)
    × (r.full_tests_status ≡ some (codes "pass"))

-- why an applied patch resolves nothing
abbrev pub HasReason : TaskSpec → EvalResult → Type 0
HasReason task r =
    (r.build_success ≡ false)
    ⊎ (length task.fail_to_pass_tests ≡ 0)
    ⊎ (r.fail_to_pass_passed ≢ length task.fail_to_pass_tests)
    ⊎ (r.pass_to_pass_passed ≢ length task.pass_to_pass_tests)

abbrev pub IsFail : TaskSpec → EvalResult → Type 0
IsFail task r =
    (r.resolved ≡ false)
    × HasReason task r
    × ((r.full_tests_status ≡ some (codes "partial")) × (0 < r.fail_to_pass_passed)
        ⊎ (r.full_tests_status ≡ some (codes "fail")) × (r.fail_to_pass_passed ≡ 0))

abbrev pub IsVerdict : TaskSpec → EvalResult → Type 0
IsVerdict task r = IsUnapplied r ⊎ IsCounted task r × (IsPass task r ⊎ IsFail task r)

abbrev HasTotal : Bool → List Text → ℕ × ℕ → Type 0
HasTotal true ids p = p.1 ≡ length ids
HasTotal false ids p = (p.0 ≡ 0) × (p.1 ≡ 0)

verdict-IsVerdict :
    (task : TaskSpec) (run_id : Text) (applies build : Bool) (f2p p2p : ℕ × ℕ)
    → HasTotal applies task.fail_to_pass_tests f2p
    → HasTotal applies task.pass_to_pass_tests p2p
    → IsVerdict task (verdict run_id applies build f2p p2p)
unfolding verdict
verdict-IsVerdict task run_id false build f2p p2p h k = inl (ground arith)
verdict-IsVerdict task run_id true build f2p p2p h k = inr (ground arith)

pytest_counts-total :
    (ids : List Text) (proc : CompletedProcess) → (pytest_counts ids proc).1 ≡ length ids
unfolding pytest_counts
pytest_counts-total ids proc = ground arith

module _ {W : Type 0} (sys : Machine W) where
  run_pytest-HasTotal :
      (ids : List Text) (step : Option ℕ) (w : W)
      → OnOk (λ p. p.1 ≡ length ids) (run_pytest sys ids step w).0
  unfolding run_pytest
  run_pytest-HasTotal [] step w = refl
  run_pytest-HasTotal (id ∷ ids) step w =
      OnOk-then (λ p. p.1 ≡ length (id ∷ ids)) (run_command sys (pytest_argv (id ∷ ids)) step false)
        (λ proc. pure (pytest_counts (id ∷ ids) proc)) w
        (λ proc v. pytest_counts-total (id ∷ ids) proc)

  count_tests-HasTotal :
      (applies : Bool) (ids : List Text) (w : W)
      → OnOk (HasTotal applies ids) (count_tests sys applies ids w).0
  unfolding count_tests
  count_tests-HasTotal true ids w = run_pytest-HasTotal ids none w
  count_tests-HasTotal false ids w = (refl, refl)

  score-IsVerdict :
      (task : TaskSpec) (run_id : Text) (applies : Bool) (build : CompletedProcess) (w : W)
      → OnOk (IsVerdict task) (score sys task run_id applies build w).0
  unfolding score
  score-IsVerdict task run_id applies build w =
      OnOk-bind (HasTotal applies f2p_tests) (IsVerdict task) (count_tests sys applies f2p_tests)
        (λ f2p. count_tests sys applies p2p_tests >>= result f2p) w
        (count_tests-HasTotal applies f2p_tests w)
        λ f2p v h.
          OnOk-bind (HasTotal applies p2p_tests) (IsVerdict task)
            (count_tests sys applies p2p_tests) (result f2p) v
            (count_tests-HasTotal applies p2p_tests v)
            λ p2p u k. verdict-IsVerdict task run_id applies (succeeded build) f2p p2p h k
    where
      f2p_tests : List Text
      f2p_tests = task.fail_to_pass_tests

      p2p_tests : List Text
      p2p_tests = task.pass_to_pass_tests

      result : ℕ × ℕ → ℕ × ℕ → Eff W EvalResult
      result f2p p2p = pure (verdict run_id applies (succeeded build) f2p p2p)

  judge_patch-IsVerdict :
      (task : TaskSpec) (run_id diff : Text) (w : W)
      → OnOk (IsVerdict task) (judge_patch sys task run_id diff w).0
  unfolding judge_patch
  judge_patch-IsVerdict task run_id diff w =
      OnOk-then (IsVerdict task) (apply_patch sys diff false)
        (λ applies. run_command sys compile_all none false >>= score sys task run_id applies) w
        λ applies v.
          OnOk-then (IsVerdict task) (run_command sys compile_all none false)
            (score sys task run_id applies) v (score-IsVerdict task run_id applies)

  pub evaluate_at-IsVerdict :
      (root : Text) (run_dir : Option Text) (task : TaskSpec) (diff path : Text) (w : W)
      → OnOk (IsVerdict task) (evaluate_at sys root run_dir task diff path w).0
  unfolding evaluate_at
  evaluate_at-IsVerdict root run_dir task diff path w =
      OnOk-then (IsVerdict task) (from_template sys (template_path root path))
        (λ _. judge_patch sys task (run_id_of run_dir task) diff) w
        (λ _ v. judge_patch-IsVerdict task (run_id_of run_dir task) diff v)

  -- A verdict of the local evaluator says one of three things. The patch did not apply: then
  -- nothing is counted or resolved, and there is no status. Or it applied, the totals are the
  -- numbers of the task's tests, and it is resolved with the status pass, built, with some test to
  -- mend and every test counted as passed. Or it applied with these totals and is not resolved, for
  -- one of these reasons, with the status partial or fail by whether some test to mend passed.
  pub evaluate_patch-IsVerdict :
      (root : Text) (run_dir : Option Text) (task : TaskSpec) (diff : Text) (w : W)
      → OnOk (IsVerdict task) (evaluate_patch sys root run_dir task diff w).0
  unfolding evaluate_patch
  evaluate_patch-IsVerdict root run_dir task diff w = elim (Option-cases task.local_repo_path) [
    | inl e ↦ rw (e, evaluate_patch) tt
    | inr (path, e) ↦ elim (Bool-cases (is_empty path)) [
      | inl empty ↦ rw (e, empty, evaluate_patch) tt
      | inr given ↦
          rw (e, given, evaluate_patch) (evaluate_at-IsVerdict root run_dir task diff path w)
    ]
  ]
