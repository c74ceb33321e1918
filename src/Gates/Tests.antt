-- ===== src/Gates/Tests.antt =====
-- Policy runs over a small tree, and the theorems at them.
use coding_agent_support.Base.{
  ◌≡◌, ◌≢◌, ◌⊎◌, inl, inr, refl, Text, codes, List, ◌∷◌, [], map, Option, none, some, list_beq,
  lower, has_text, starts_with, All, if◌then◌else◌, ◌==◌, list_eq, nat_eq, arith,
}
use coding_agent_support.Base.Integers.{ℤ, pos, ◌-ℤ◌}
use coding_agent_support.Effects.{Eff, ok, ◌>>=◌, OnOk}
use coding_agent_support.Effects.Stateless.{IsStateless}
use coding_agent_support.Json.{Json, json_len, arr, nil, cons, null}
use coding_agent_support.Gates.Policy.{gate_policy, gate_policy_v2, GateResult, blocking, advisory}
use coding_agent_support.Gates.Runners.{
  runner, is_missing_tool, gate_compileall, gate_ruff, gate_bandit,
}
use coding_agent_support.Gates.Run.{
  new_warnings, compute_baseline, run_policy, run_policy_v2, result_loop, baseline_loop, result_of,
}
use coding_agent_support.Gates.Outcomes.{StandsFor, StandsForV2, run_policies-StandsFor}
use coding_agent_support.Gates.Delta.{AreDistinct, NoneNew, run_policy-NoneNew}

-- every command but `bandit` is there; `ruff` prints two findings, compilation fails
abbrev exec : List Text → Eff Unit (ℤ × Text)
exec [] w = (ok (pos 0, []), w)
exec (program ∷ args) w = (
  ok (
      if program == codes "ruff"
      then (pos 1, codes "[1,2]")
      else if program == codes "bandit"
      then (pos 127, codes "not found")
      else (pos 1, codes "error: bad")),
  w,
)

abbrev loads : Text → Option Json
loads text = some (arr (cons null (cons null nil)))

exec-IsStateless : (argv : List Text) → IsStateless (exec argv)
exec-IsStateless [] = record { answer = ok (pos 0, []); same = λ w. refl }
exec-IsStateless (program ∷ args) = record {
  answer = (exec (program ∷ args) tt).0;
  same = λ w. refl;
}

run_policies-StandsFor_example :
    OnOk (StandsFor (runner loads exec) gate_policy.gates tt) (run_policy loads exec none none tt).0
    × OnOk
        (StandsForV2 loads exec (codes "a.py" ∷ []) gate_policy_v2.gates tt)
        (run_policy_v2 loads exec (codes "a.py" ∷ []) none none tt).0
run_policies-StandsFor_example = run_policies-StandsFor loads exec (codes "a.py" ∷ []) none none tt

gate_policy-AreDistinct : AreDistinct gate_policy.gates
unfolding gate_policy
gate_policy-AreDistinct =
    ((λ e. differ.0 e, (λ e. differ.1 e, tt)), ((λ e. differ.2 e, tt), (tt, tt)))
  where
    differ :
        (codes "ruff" ≢ codes "compileall")
        × (codes "bandit" ≢ codes "compileall")
        × (codes "bandit" ≢ codes "ruff")
    differ = unfold codes list_beq in (λ e. ground arith, λ e. ground arith, λ e. ground arith)

gate_policy-kinds : All (λ g. (g.kind ≡ blocking) ⊎ (g.kind ≡ advisory)) gate_policy.gates
unfolding gate_policy
gate_policy-kinds = (inl refl, (inr refl, (inr refl, tt)))

run_policy-NoneNew_example :
    OnOk
      (All NoneNew)
      ((compute_baseline loads exec (some gate_policy) >>= λ b.
          run_policy loads exec (some b) (some gate_policy))
        tt).0
run_policy-NoneNew_example =
    run_policy-NoneNew loads exec exec-IsStateless gate_policy tt gate_policy-AreDistinct
      gate_policy-kinds

-- the failed compilation blocks, the linters report nothing new
same_tree :
    OnOk
      (λ results.
        map (λ (r : GateResult). r.new_warnings) results ≡ none ∷ some (pos 0) ∷ none ∷ [])
      ((compute_baseline loads exec (some gate_policy) >>= λ b.
          run_policy loads exec (some b) (some gate_policy))
        tt).0
unfolding compute_baseline run_policy gate_policy runner gate_compileall gate_ruff gate_bandit
    result_loop baseline_loop result_of new_warnings is_missing_tool list_beq codes lower has_text
    starts_with blocking advisory json_len ◌-ℤ◌
same_tree = refl
