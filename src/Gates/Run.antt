-- ===== src/Gates/Run.antt =====
-- se_support/support/gate_policy.py: the baseline on the base tree, and the run on the patched
-- tree.
use coding_agent_support.Base.{
  true, false, Option, none, some, List, [], ◌∷◌, Text, codes, Dict, lookup, insert, if◌then◌else◌,
  ◌==◌, list_eq, nat_eq,
}
use coding_agent_support.Base.Integers.{ℤ, pos, ltb_ℤ, max_ℤ, ◌-ℤ◌}
use coding_agent_support.Effects.{Eff, pure, ◌>>=◌}
use coding_agent_support.Json.{Json}
use coding_agent_support.Gates.Policy.{
  GateSpec, GatePolicy, gate_policy, gate_policy_v2, GateResult, blocking, advisory,
}
use coding_agent_support.Gates.Files.{detect_configured_tools}
use coding_agent_support.Gates.Runners.{GateOutcome, GateContext, runner, runner_v2}

abbrev pub or_value {ℓ} : {A : Type ℓ} → Option A → A → A
or_value none d = d
or_value (some a) _ = a

-- `new = None if count < 0 else max(0, count - max(0, base))`
unfoldable pub new_warnings : ℤ → ℤ → Option ℤ
new_warnings count base =
    if ltb_ℤ count (pos 0) then none else some (max_ℤ (pos 0) (count -ℤ max_ℤ (pos 0) base))

-- the result that the loops of `run_policy` and `run_policy_v2` append
unfoldable pub result_of : Dict Text ℤ → GateSpec → GateOutcome → GateResult
result_of baseline g o =
    if g.kind == blocking
    then record {
      name = g.name;
      kind = g.kind;
      passed = o.passed;
      warning_count = o.count;
      new_warnings = none;
      status = if o.passed then codes "pass" else codes "fail";
      preview = o.preview;
    }
    else record {
      name = g.name;
      kind = g.kind;
      passed = true;
      warning_count = o.count;
      new_warnings = new_warnings o.count (or_value (lookup g.name baseline) (pos 0));
      status = advisory;
      preview = o.preview;
    }

-- The loops, over the function that runs a gate.
module _ {W : Type 0} (run : Text → Eff W GateOutcome) where
  unfoldable pub baseline_loop : List GateSpec → Dict Text ℤ → Eff W (Dict Text ℤ)
  baseline_loop [] baseline = pure baseline
  baseline_loop (g ∷ gs) baseline = elim (g.kind == advisory) [
    | true ↦ run g.runner >>= λ o. baseline_loop gs (insert g.name o.count baseline)
    | false ↦ baseline_loop gs baseline
  ]

  unfoldable pub result_loop : Dict Text ℤ → List GateSpec → Eff W (List GateResult)
  result_loop baseline [] = pure []
  result_loop baseline (g ∷ gs) = run g.runner >>= λ o.
      result_loop baseline gs >>= λ results. pure (result_of baseline g o ∷ results)

module _ {W : Type 0} (loads : Text → Option Json) (exec : List Text → Eff W (ℤ × Text)) where
  unfoldable pub compute_baseline : Option GatePolicy → Eff W (Dict Text ℤ)
  compute_baseline policy = baseline_loop (runner loads exec) (or_value policy gate_policy).gates []

  unfoldable pub run_policy : Option (Dict Text ℤ) → Option GatePolicy → Eff W (List GateResult)
  run_policy baseline policy =
      result_loop (runner loads exec) (or_value baseline []) (or_value policy gate_policy).gates

  -- A `ctx` argument may give either entry; the tools are detected even where it gives them.
  unfoldable pub compute_baseline_v2 :
      Option GatePolicy → Option (List Text) → Option (List Text) → Eff W (Dict Text ℤ)
  compute_baseline_v2 policy changed_files configured = do
    found ← detect_configured_tools exec
    let ctx : GateContext = record {
      changed_files = or_value changed_files [];
      configured = or_value configured found;
    }
    baseline_loop (λ name. runner_v2 loads exec name ctx) (or_value policy gate_policy_v2).gates []

  unfoldable pub run_policy_v2 :
      List Text → Option (Dict Text ℤ) → Option GatePolicy → Eff W (List GateResult)
  run_policy_v2 changed_files baseline policy = do
    found ← detect_configured_tools exec
    let ctx : GateContext = record { changed_files = changed_files; configured = found }
    result_loop (λ name. runner_v2 loads exec name ctx) (or_value baseline [])
        (or_value policy gate_policy_v2).gates
