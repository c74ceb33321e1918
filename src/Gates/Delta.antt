-- ===== src/Gates/Delta.antt =====
-- Advisory gates report what the patch adds: warnings that the base tree has already are not
-- attributed to it.
use coding_agent_support.Base.{
  ℕ, ◌-◌, ◌≡◌, ◌∙◌, ap, lookup-insert_ne, lookup-insert_self, ◌≢◌, ◌⊎◌, inl, inr, sym, refl, true,
  false, Bool-cases, Option, none, some, List, [], ◌∷◌, Text, Dict, lookup, insert, All, ◌==◌,
  ==_iff, list_eq, nat_eq, arith,
}
use mathlib.Core.Bool.{false≢true}
use coding_agent_support.Base.Integers.{ℤ, pos, negsuc, ◌-ℤ◌}
use coding_agent_support.Effects.{
  Eff, ok, pure, ◌>>=◌, OnOk, OnOk-bind, OnOk-then, OnOk-map, OnOk-both, OnOk-self, ok-injective,
}
use coding_agent_support.Effects.Stateless.{IsStateless, stateless_rules}
use coding_agent_support.Json.{Json}
use coding_agent_support.Gates.Policy.{GateSpec, GatePolicy, GateResult, blocking, advisory}
use coding_agent_support.Gates.Runners.{
  GateOutcome, runner, gate_compileall, gate_ruff, gate_bandit,
}
use coding_agent_support.Gates.Run.{
  new_warnings, result_of, result_loop, baseline_loop, compute_baseline, run_policy,
}

-- The number of new warnings is what the count has beyond the baseline, where both are known; no
-- number is reported for a tool that is not available, and an unknown baseline counts as zero.
pub new_warnings_exact :
    (count base : ℕ)
    → (new_warnings (pos count) (pos base) ≡ some (pos (count - base)))
      × (new_warnings (pos count) (negsuc base) ≡ some (pos count))
      × ((n : ℕ) (b : ℤ) → new_warnings (negsuc n) b ≡ none)
unfolding new_warnings ◌-ℤ◌
new_warnings_exact count base = (ground arith, ground arith, λ n b. ground arith)

-- no warning is new
abbrev pub NoneNew : GateResult → Type 0
NoneNew r = (r.new_warnings ≡ none) ⊎ (r.new_warnings ≡ some (pos 0))

new_warnings_same : (c : ℤ) → (new_warnings c c ≡ none) ⊎ (new_warnings c c ≡ some (pos 0))
unfolding new_warnings ◌-ℤ◌
new_warnings_same (pos n) = inr (ground arith)
new_warnings_same (negsuc n) = inl (ground arith)

-- no two gates have one name
abbrev pub AreDistinct : List GateSpec → Type 0
AreDistinct [] = Unit
AreDistinct (g ∷ gs) = All (λ h. h.name ≢ g.name) gs × AreDistinct gs

module _ {W : Type 0} (run : Text → Eff W GateOutcome)
    (stateless : (name : Text) → IsStateless (run name)) where
  -- the baseline has the count of the gate, if the gate is advisory and answers
  abbrev Covers : Dict Text ℤ → GateSpec → Type 0
  Covers b g =
      g.kind ≡ advisory
      → (o : GateOutcome) → (stateless g.runner).answer ≡ ok o
      → lookup g.name b ≡ some o.count

  record_gate : GateSpec → List GateSpec → Dict Text ℤ → GateOutcome → Eff W (Dict Text ℤ)
  record_gate g gs b o = baseline_loop run gs (insert g.name o.count b)

  baseline_loop-advisory :
      (g : GateSpec) (gs : List GateSpec) (b : Dict Text ℤ)
      → g.kind == advisory ≡ true
      → baseline_loop run (g ∷ gs) b ≡ (run g.runner >>= record_gate g gs b)
  unfolding baseline_loop record_gate
  baseline_loop-advisory g gs b e = rw (e, baseline_loop)

  baseline_loop-other :
      (g : GateSpec) (gs : List GateSpec) (b : Dict Text ℤ)
      → g.kind == advisory ≡ false
      → baseline_loop run (g ∷ gs) b ≡ baseline_loop run gs b
  unfolding baseline_loop
  baseline_loop-other g gs b e = rw (e, baseline_loop)

  baseline_loop-keeps :
      (name : Text) (gs : List GateSpec) (b : Dict Text ℤ) (w : W)
      → All (λ h. h.name ≢ name) gs
      → OnOk (λ b'. lookup name b' ≡ lookup name b) (baseline_loop run gs b w).0
  baseline_loop-keeps name [] b w h = unfold baseline_loop in refl
  baseline_loop-keeps name (g ∷ gs) b w h = elim (Bool-cases (g.kind == advisory)) [
    | inl e ↦ rw (baseline_loop-advisory g gs b e) (
        OnOk-then (λ b'. lookup name b' ≡ lookup name b) (run g.runner) (record_gate g gs b) w
          λ o w'. one_more o w' (baseline_loop-keeps name gs (insert g.name o.count b) w' h.1))
    | inr e ↦ rw (baseline_loop-other g gs b e) (baseline_loop-keeps name gs b w h.1)
  ]
    where
      one_more :
          (o : GateOutcome) (w' : W)
          → OnOk
              (λ b'. lookup name b' ≡ lookup name (insert g.name o.count b))
              (baseline_loop run gs (insert g.name o.count b) w').0
          → OnOk (λ b'. lookup name b' ≡ lookup name b) (record_gate g gs b o w').0
      one_more o w' ih =
          unfold record_gate in
          OnOk-map (λ b'. lookup name b' ≡ lookup name (insert g.name o.count b)) _ _
            (λ b' e. e ∙ lookup-insert_ne g.name name o.count b h.0) ih

  answered : (name : Text) (w : W) → OnOk (λ o. (stateless name).answer ≡ ok o) (run name w).0
  answered name w = rw ((stateless name).same w) (OnOk-self (stateless name).answer)

  baseline_loop-Covers :
      (gs : List GateSpec) (b : Dict Text ℤ) (w : W)
      → AreDistinct gs
      → OnOk (λ b'. All (Covers b') gs) (baseline_loop run gs b w).0
  baseline_loop-Covers [] b w d = unfold baseline_loop in tt
  baseline_loop-Covers (g ∷ gs) b w d = elim (Bool-cases (g.kind == advisory)) [
    | inl e ↦ rw (baseline_loop-advisory g gs b e) (
        OnOk-bind (λ o. (stateless g.runner).answer ≡ ok o) (λ b'. All (Covers b') (g ∷ gs))
          (run g.runner) (record_gate g gs b) w (answered g.runner w)
          λ o w' said.
            one_more o w' said (baseline_loop-Covers gs (insert g.name o.count b) w' d.1))
    | inr e ↦ rw (baseline_loop-other g gs b e) (
        OnOk-map (λ b'. All (Covers b') gs) _ _
          (λ b' h. (λ same. absurd (false≢true (sym e ∙ (==_iff g.kind advisory).1 same)), h))
          (baseline_loop-Covers gs b w d.1))
  ]
    where
      one_more :
          (o : GateOutcome) (w' : W)
          → (stateless g.runner).answer ≡ ok o
          → OnOk (λ b'. All (Covers b') gs) (baseline_loop run gs (insert g.name o.count b) w').0
          → OnOk (λ b'. All (Covers b') (g ∷ gs)) (record_gate g gs b o w').0
      one_more o w' said ih =
          unfold record_gate in
          OnOk-map
            (λ b'.
              (lookup g.name b' ≡ lookup g.name (insert g.name o.count b)) × All (Covers b') gs)
            (λ b'. All (Covers b') (g ∷ gs)) _
            (λ b' h. (
              λ _ o' said'.
                  h.0
                  ∙ lookup-insert_self g.name o.count b
                  ∙ ap (λ (x : GateOutcome). some x.count) (ok-injective (sym said ∙ said')),
              h.1,
            ))
            (OnOk-both _ _ _ (baseline_loop-keeps g.name gs (insert g.name o.count b) w' d.0) ih)

  result-NoneNew :
      (b : Dict Text ℤ) (g : GateSpec) (o : GateOutcome)
      → (g.kind ≡ blocking) ⊎ (g.kind ≡ advisory)
      → Covers b g
      → (stateless g.runner).answer ≡ ok o
      → NoneNew (result_of b g o)
  unfolding result_of
  result-NoneNew b g o (inl same) covers said = inl (rw ((==_iff g.kind blocking).1 same))
  result-NoneNew b g o (inr same) covers said = elim (Bool-cases (g.kind == blocking)) [
    | inl e ↦ inl (rw e)
    | inr e ↦ rw (e, covers same o said) (new_warnings_same o.count)
  ]

  result_loop-NoneNew :
      (b : Dict Text ℤ) (gs : List GateSpec) (w : W)
      → All (λ g. (g.kind ≡ blocking) ⊎ (g.kind ≡ advisory)) gs
      → All (Covers b) gs
      → OnOk (All NoneNew) (result_loop run b gs w).0
  unfolding result_loop
  result_loop-NoneNew b [] w k h = tt
  result_loop-NoneNew b (g ∷ gs) w k h =
      OnOk-bind (λ o. (stateless g.runner).answer ≡ ok o) (All NoneNew) (run g.runner)
        (λ o. result_loop run b gs >>= λ rs. pure (result_of b g o ∷ rs)) w (answered g.runner w)
        λ o w' said.
          OnOk-bind (All NoneNew) (All NoneNew) (result_loop run b gs)
            (λ rs. pure (result_of b g o ∷ rs)) w' (result_loop-NoneNew b gs w' k.1 h.1)
            λ rs _ quiet. (result-NoneNew b g o k.0 h.0 said, quiet)

-- the gates of version 1 over an executor that answers by the command alone
module _ {W : Type 0} (loads : Text → Option Json) (exec : List Text → Eff W (ℤ × Text))
    (deterministic : (argv : List Text) → IsStateless (exec argv)) where
  runner-IsStateless : (name : Text) → IsStateless (runner loads exec name)
  unfolding runner gate_compileall gate_ruff gate_bandit
  runner-IsStateless name = search (stateless_rules, deterministic) depth 9

  -- On one tree no advisory gate reports a new warning: where the commands answer alike before and
  -- after, and no two gates of the policy have one name, a run over the baseline computed before
  -- reports no new warning, or none where the tool is not available.
  pub run_policy-NoneNew :
      (policy : GatePolicy) (w : W)
      → AreDistinct policy.gates
      → All (λ g. (g.kind ≡ blocking) ⊎ (g.kind ≡ advisory)) policy.gates
      → OnOk
          (All NoneNew)
          ((compute_baseline loads exec (some policy) >>= λ b.
              run_policy loads exec (some b) (some policy))
            w).0
  unfolding compute_baseline run_policy
  run_policy-NoneNew policy w distinct known =
      OnOk-bind _ (All NoneNew) (baseline_loop (runner loads exec) policy.gates [])
        (λ b. result_loop (runner loads exec) b policy.gates) w
        (baseline_loop-Covers (runner loads exec) runner-IsStateless policy.gates [] w distinct)
        λ b w' covers.
          result_loop-NoneNew (runner loads exec) runner-IsStateless b policy.gates w' known covers
