-- ===== src/Gates/Outcomes.antt =====
-- The results of a policy run, beside the outcomes of its gates.
use coding_agent_support.Base.{
  ◌≡◌, refl, ap₂, ◌∙◌, Bool-cases, inl, inr, Bool, not, ◌&&◌, Option, List, [], ◌∷◌, map, Text,
  Dict, filter, if◌then◌else◌, ◌==◌, list_eq, nat_eq,
}
use coding_agent_support.Base.Integers.{ℤ}
use coding_agent_support.Effects.{Eff, ok, OnOk, OnOk-ran, OnOk-bind, OnOk-map}
use coding_agent_support.Json.{Json}
use coding_agent_support.Gates.Policy.{
  GateSpec, GatePolicy, gate_policy, gate_policy_v2, GateResult, blocking, blocking_failures,
  is_blocking_failure,
}
use coding_agent_support.Gates.Files.{detect_configured_tools}
use coding_agent_support.Gates.Runners.{GateOutcome, runner, runner_v2}
use coding_agent_support.Gates.Run.{or_value, result_of, result_loop, run_policy, run_policy_v2}

-- the outcomes of the gates, each of which is run in the world that the last one left
abbrev pub Ran :
    {W : Type 0} → (Text → Eff W GateOutcome) → List GateSpec → W → List GateOutcome → Type 0
Ran run [] w [] = Unit
Ran run [] w (o ∷ os) = ⊥
Ran run (g ∷ gs) w [] = ⊥
Ran run (g ∷ gs) w (o ∷ os) = ((run g.runner w).0 ≡ ok o) × Ran run gs (run g.runner w).1 os

-- the names and the previews of the blocking gates whose run did not pass
abbrev pub failed_gates : List GateSpec → List GateOutcome → List (Text × Text)
failed_gates [] os = []
failed_gates (g ∷ gs) [] = []
failed_gates (g ∷ gs) (o ∷ os) =
    let rest = failed_gates gs os in
    if g.kind == blocking && not o.passed then (g.name, o.preview) ∷ rest else rest

abbrev pub shown : GateResult → Text × Text
shown r = (r.name, r.preview)

-- what the results say of the outcomes
pub record Report (gs : List GateSpec) (os : List GateOutcome) (rs : List GateResult) : Type 0 where
  pub names : map (λ (r : GateResult). r.name) rs ≡ map (λ (g : GateSpec). g.name) gs
  pub counts : map (λ (r : GateResult). r.warning_count) rs ≡ map (λ (o : GateOutcome). o.count) os
  pub failures : map shown (blocking_failures rs) ≡ failed_gates gs os

abbrev pub StandsFor :
    {W : Type 0} → (Text → Eff W GateOutcome) → List GateSpec → W → List GateResult → Type 0
StandsFor run gs w rs = (os : List GateOutcome) × (Ran run gs w os × Report gs os rs)

-- a result has its gate's name and its outcome's preview and count, and blocks as these two say
result_of-fields :
    (baseline : Dict Text ℤ) (g : GateSpec) (o : GateOutcome)
    → let r = result_of baseline g o in
      (r.name ≡ g.name)
      × (r.warning_count ≡ o.count)
      × (r.preview ≡ o.preview)
      × (is_blocking_failure r ≡ (g.kind == blocking && not o.passed))
unfolding is_blocking_failure result_of
result_of-fields baseline g o = elim (Bool-cases (g.kind == blocking)) [
  | inl e ↦ rw (e, result_of, is_blocking_failure) (refl, refl, refl, rw e refl)
  | inr e ↦ rw (e, result_of, is_blocking_failure) (refl, refl, refl, rw e refl)
]

shown-filter :
    (p : GateResult → Bool) (r : GateResult) (rs : List GateResult)
    → map shown (filter p (r ∷ rs))
      ≡ (if p r then shown r ∷ map shown (filter p rs) else map shown (filter p rs))
shown-filter p r rs = elim (Bool-cases (p r)) [ inl e ↦ rw e refl | inr e ↦ rw e refl ]

Report-cons :
    (baseline : Dict Text ℤ) (g : GateSpec) (o : GateOutcome) (gs : List GateSpec)
    (os : List GateOutcome) (rs : List GateResult)
    → Report gs os rs
    → Report (g ∷ gs) (o ∷ os) (result_of baseline g o ∷ rs)
unfolding blocking_failures
Report-cons baseline g o gs os rs h =
    let (name, count, preview, blocks) = result_of-fields baseline g o in
    record {
      names = ap₂ (λ x xs. x ∷ xs) name h.names;
      counts = ap₂ (λ x xs. x ∷ xs) count h.counts;
      failures =
          shown-filter is_blocking_failure (result_of baseline g o) rs
          ∙ rw (blocks, name, preview, h.failures) refl;
    }

module _ {W : Type 0} (run : Text → Eff W GateOutcome) (baseline : Dict Text ℤ) where
  result_loop-StandsFor :
      (gs : List GateSpec) (w : W) → OnOk (StandsFor run gs w) (result_loop run baseline gs w).0
  unfolding result_loop blocking_failures
  result_loop-StandsFor [] w = ([], (tt, record { names = refl; counts = refl; failures = refl }))
  result_loop-StandsFor (g ∷ gs) w = OnOk-ran (StandsFor run (g ∷ gs) w) (run g.runner) _ w λ o ran.
      OnOk-bind (StandsFor run gs (run g.runner w).1) (StandsFor run (g ∷ gs) w)
        (result_loop run baseline gs) _ (run g.runner w).1
        (result_loop-StandsFor gs (run g.runner w).1)
        λ rs v h.
          let (os, (rest, report)) = h in
          (o ∷ os, ((ran, rest), Report-cons baseline g o gs os rs report))

module _ {W : Type 0} (loads : Text → Option Json) (exec : List Text → Eff W (ℤ × Text)) where
  -- the results of version 2 follow a detection of the configured tools
  abbrev pub StandsForV2 : List Text → List GateSpec → W → List GateResult → Type 0
  StandsForV2 changed_files gs w rs =
      (found : List Text) × (((detect_configured_tools exec w).0 ≡ ok found)
        × StandsFor
            (λ name.
              runner_v2 loads exec name
                (record { changed_files = changed_files; configured = found }))
            gs (detect_configured_tools exec w).1 rs)

  -- The results of a policy run that returns stand for the outcomes of its gates, each run in the
  -- world that the last one left, in version 2 behind a detection of the tools and over what it found:
  -- they have, in order, the gates' names and the outcomes' counts; and those that block a submission
  -- are, with their previews, exactly those of the blocking gates whose outcome is no pass.
  pub run_policies-StandsFor :
      (changed_files : List Text) (baseline : Option (Dict Text ℤ)) (policy : Option GatePolicy)
      (w : W)
      → OnOk
          (StandsFor (runner loads exec) (or_value policy gate_policy).gates w)
          (run_policy loads exec baseline policy w).0
        × OnOk
            (StandsForV2 changed_files (or_value policy gate_policy_v2).gates w)
            (run_policy_v2 loads exec changed_files baseline policy w).0
  unfolding run_policy run_policy_v2
  run_policies-StandsFor changed_files baseline policy w = (
    result_loop-StandsFor (runner loads exec) (or_value baseline [])
        (or_value policy gate_policy).gates w,
    OnOk-ran (StandsForV2 changed_files (or_value policy gate_policy_v2).gates w)
        (detect_configured_tools exec) _ w
        λ found ran.
          OnOk-map
            (StandsFor
              (λ name.
                runner_v2 loads exec name
                  (record { changed_files = changed_files; configured = found }))
              (or_value policy gate_policy_v2).gates (detect_configured_tools exec w).1)
            (StandsForV2 changed_files (or_value policy gate_policy_v2).gates w) _
            (λ rs h. (found, (ran, h)))
            (result_loop-StandsFor _ (or_value baseline []) (or_value policy gate_policy_v2).gates
              (detect_configured_tools exec w).1),
  )
