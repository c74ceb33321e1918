-- ===== src/Helper/Classes.antt =====
-- The class of a helper test says exactly what its runs and its audit have shown.
use coding_agent_support.Base.{
  ℕ, Bool, true, false, not, ◌&&◌, ◌≡◌, ◌≢◌, ◌↔◌, refl, sym, ◌∙◌, subst, Option, none, some, List,
  Text, is_empty, arith, ==_refl, list_eq, nat_eq,
}
use coding_agent_support.Effects.{ok, OnOk, OnOk-ran, OnOk-map, >>=-eq-ok, ok-injective}
use coding_agent_support.Helper.{
  Lab, TestRunOutcome, HelperTestArtifact, ReproTestClass, decoupled_valid, is_confirmatory,
  classify, freeze, verify_frozen, run_test_in_workspace, new_artifact,
}
use coding_agent_support.Helper.Provenance.{suspicious_literals, contains_forbidden_literal}
use coding_agent_support.Helper.Candidates.{generate_candidates, prompt_hash}
use coding_agent_support.Helper.Build.{
  build_helper_test, select_candidate, selected_artifact, validated, with_outcomes, pass_after,
  audited, if_selected, helper_name,
}

pub classify_confirmatory :
    (collected fails : Bool) (after : Option Bool)
    → (is_confirmatory (classify collected fails after) ≡ true)
      ↔ ((collected ≡ true) × (fails ≡ true) × (after ≢ some false))
unfolding classify is_confirmatory
classify_confirmatory false fails after = ground arith
classify_confirmatory true false after = ground arith
classify_confirmatory true true none = ground arith
classify_confirmatory true true (some true) = ground arith
classify_confirmatory true true (some false) = ground arith

classify-ne-decoupled :
    (collected fails : Bool) (after : Option Bool)
    → classify collected fails after ≢ decoupled_valid
unfolding classify
classify-ne-decoupled false fails after h = cc
classify-ne-decoupled true false after h = cc
classify-ne-decoupled true true none h = cc
classify-ne-decoupled true true (some true) h = cc
classify-ne-decoupled true true (some false) h = cc

audited_confirmatory :
    (cls : ReproTestClass) (sound : Bool)
    → is_confirmatory (audited cls sound) ≡ is_confirmatory cls
unfolding audited is_confirmatory
audited_confirmatory cls sound = ground arith

audited_decoupled :
    (cls : ReproTestClass) (sound : Bool)
    → cls ≢ decoupled_valid
    → (audited cls sound ≡ decoupled_valid) ↔ ((is_confirmatory cls ≡ true) × (sound ≡ true))
unfolding audited is_confirmatory
audited_decoupled cls sound h = ground arith

-- `cls` says exactly what the outcome on the base, the run on the gold workspace (`passes`) and the
-- two audits of the source have shown.
pub record IsShown (cls : ReproTestClass) (o : TestRunOutcome) (passes unsuspicious clean : Bool)
    : Type 0 where
  pub confirmatory :
      (is_confirmatory cls ≡ true) ↔ ((o.collected ≡ true) × (o.passed ≡ false) × (passes ≡ true))
  pub decoupled : (cls ≡ decoupled_valid) ↔ (
      ((o.collected ≡ true) × (o.passed ≡ false) × (passes ≡ true))
      × (unsuspicious ≡ true)
      × (clean ≡ true))

classify-IsShown :
    (o : TestRunOutcome) (after : Option Bool) (passes unsuspicious clean : Bool)
    → (after ≢ some false) ↔ (passes ≡ true)
    → IsShown
        (audited (classify o.collected (o.collected && not o.passed) after) (unsuspicious && clean))
        o
        passes
        unsuspicious
        clean
classify-IsShown o after passes unsuspicious clean h = record {
  confirmatory = ground (
    arith,
    audited_confirmatory (classify o.collected (o.collected && not o.passed) after)
        (unsuspicious && clean),
    classify_confirmatory o.collected (o.collected && not o.passed) after,
    h,
  );
  decoupled = ground (
    arith,
    audited_decoupled (classify o.collected (o.collected && not o.passed) after)
        (unsuspicious && clean)
        (classify-ne-decoupled o.collected (o.collected && not o.passed) after),
    classify_confirmatory o.collected (o.collected && not o.passed) after,
    h,
  );
}

module _ {W : Type 0} (lab : Lab W) where
  -- `passes` is whether the run on the gold workspace in the world `w` passed; without one it is true
  abbrev pub GoldPasses : Option Text → Text → W → Bool → Type 0
  GoldPasses none source w passes = passes ≡ true
  GoldPasses (some gold) source w passes =
      (o : TestRunOutcome) × ((run_test_in_workspace lab gold source helper_name w).0 ≡ ok o)
      × (passes ≡ (o.collected && o.passed))

  -- the class of an artifact, beside the runs of its source from the world `w` on
  pub record IsJudged (problem : Text) (forbidden : List Text) (base : Text) (gold : Option Text)
      (source : Text) (w : W) (a : HelperTestArtifact) : Type 0 where
    pub outcome : TestRunOutcome
    pub passes : Bool
    pub ran : (run_test_in_workspace lab base source helper_name w).0 ≡ ok outcome
    pub gold_ran :
        GoldPasses gold source (run_test_in_workspace lab base source helper_name w).1 passes
    pub is_source : a.test_source ≡ source
    pub collected : a.collected ≡ some outcome.collected
    pub frozen : verify_frozen lab a ≡ true
    pub shown :
        IsShown a.classification outcome passes
          (is_empty (suspicious_literals (lab.literals_in_asserts source) problem))
          (is_empty (contains_forbidden_literal source forbidden))

  -- what a build gives for the source that was selected, if one was
  abbrev pub IsWorth :
      Text → List Text → Text → Option Text → Option Text → W → HelperTestArtifact → Type 0
  IsWorth problem forbidden base gold none w a =
      (a.collected ≡ none) × (is_confirmatory a.classification ≡ false)
  IsWorth problem forbidden base gold (some source) w a =
      IsJudged problem forbidden base gold source w a

  -- a build selects a source among the candidates that it generates, and judges it afterwards
  abbrev pub IsBuilt :
      Text → Text → Text → Option Text → List Text → ℕ → W → HelperTestArtifact → Type 0
  IsBuilt problem context base gold forbidden k w a =
      let generated = generate_candidates lab problem context k w in
      (candidates : List Text) × (generated.0 ≡ ok candidates)
      × (let chosen = select_candidate lab candidates base problem forbidden generated.1 in
          (selected : Option Text) × (chosen.0 ≡ ok selected)
          × IsWorth problem forbidden base gold selected chosen.1 a)

  verify-freeze : (a : HelperTestArtifact) → verify_frozen lab (freeze lab a) ≡ true
  unfolding verify_frozen freeze
  verify-freeze a = ==_refl (lab.hash_text a.test_source)

  verify-with_outcomes :
      (problem : Text) (forbidden : List Text) (o : TestRunOutcome) (after : Option Bool)
      (a : HelperTestArtifact)
      → verify_frozen lab (with_outcomes lab problem forbidden o after a) ≡ verify_frozen lab a
  unfolding verify_frozen with_outcomes
  verify-with_outcomes problem forbidden o after a = refl

  none_iff : (after : Option Bool) → after ≡ none → (after ≢ some false) ↔ (true ≡ true)
  none_iff after e = (λ h. refl, λ h k. cc)

  passed_iff : (b c : Bool) → (some (b && c) ≢ some false) ↔ ((b && c) ≡ true)
  passed_iff b c = ground arith

  pass_after-passes :
      (gold : Option Text) (source : Text) (w : W) (after : Option Bool)
      → (pass_after lab gold source w).0 ≡ ok after
      → (passes : Bool) × GoldPasses gold source w passes × ((after ≢ some false) ↔ (passes ≡ true))
  unfolding pass_after
  pass_after-passes none source w after e = (true, refl, none_iff after (sym (ok-injective e)))
  pass_after-passes (some g) source w after e =
      let (o, ran, kept) = >>=-eq-ok (run_test_in_workspace lab g source helper_name) _ w e in
      (
        o.collected && o.passed,
        (o, ran, refl),
        subst (λ x. (x ≢ some false) ↔ ((o.collected && o.passed) ≡ true)) (ok-injective kept)
            (passed_iff o.collected o.passed),
      )

  validated-IsJudged :
      (problem : Text) (forbidden : List Text) (base : Text) (gold : Option Text)
      (a : HelperTestArtifact) (w : W)
      → verify_frozen lab a ≡ true
      → OnOk
          (IsJudged problem forbidden base gold a.test_source w)
          (validated lab problem forbidden base gold a w).0
  unfolding validated with_outcomes
  validated-IsJudged problem forbidden base gold a w frozen =
      let P = IsJudged problem forbidden base gold a.test_source w in
      OnOk-ran P (run_test_in_workspace lab base a.test_source helper_name) _ w λ o ran.
        OnOk-ran P (pass_after lab gold a.test_source) _
          (run_test_in_workspace lab base a.test_source helper_name w).1
          λ after gold_after.
            let (passes, gold_ran, iff) = pass_after-passes gold a.test_source _ after gold_after in
            record {
              outcome = o;
              passes = passes;
              ran = ran;
              gold_ran = gold_ran;
              is_source = refl;
              collected = refl;
              frozen = verify-with_outcomes problem forbidden o after a ∙ frozen;
              shown = classify-IsShown o after passes _ _ iff;
            }

  none-IsWorth :
      (task problem context base : Text) (gold : Option Text) (forbidden : List Text)
      (model : Option Text) (w : W)
      → IsWorth problem forbidden base gold none w
          (selected_artifact lab task problem context model none)
  unfolding selected_artifact new_artifact is_confirmatory
  none-IsWorth task problem context base gold forbidden model w = (refl, refl)

  if_selected-IsWorth :
      (task problem context base : Text) (gold : Option Text) (forbidden : List Text)
      (model selected : Option Text) (w : W)
      → OnOk
          (IsWorth problem forbidden base gold selected w)
          (if_selected selected
            (validated lab problem forbidden base gold
              (selected_artifact lab task problem context model selected))
            (selected_artifact lab task problem context model selected)
            w).0
  unfolding selected_artifact freeze new_artifact
  if_selected-IsWorth task problem context base gold forbidden model none w =
      none-IsWorth task problem context base gold forbidden model w
  if_selected-IsWorth task problem context base gold forbidden model (some source) w =
      validated-IsJudged problem forbidden base gold
        (selected_artifact lab task problem context model (some source)) w
        (verify-freeze (new_artifact task source model (some (prompt_hash lab problem context))))

  -- A build that returns has selected a source among the candidates that it generated, or none. The
  -- helper test of a selected source is judged in the world that the selection left: with the outcome
  -- of its run on the base, and then of its run on the gold workspace, if there is one, its class is
  -- confirmatory exactly if the first was collected and failed and the second was collected and passed;
  -- it is T4 exactly if the source has, besides, no suspicious and no forbidden literal; and it carries
  -- the hash of that source. Without a selected source it was never run and is not confirmatory.
  pub build_helper_test-IsBuilt :
      (task problem context base : Text) (gold : Option Text) (forbidden : List Text)
      (model : Option Text) (k : ℕ) (w : W)
      → OnOk
          (IsBuilt problem context base gold forbidden k w)
          (build_helper_test lab task problem context base gold forbidden model k w).0
  unfolding build_helper_test
  build_helper_test-IsBuilt task problem context base gold forbidden model k w =
      let P = IsBuilt problem context base gold forbidden k w in
      OnOk-ran P (generate_candidates lab problem context k) _ w λ candidates generated.
        OnOk-ran P (select_candidate lab candidates base problem forbidden) _
          (generate_candidates lab problem context k w).1
          λ selected chosen.
            OnOk-map
              (IsWorth problem forbidden base gold selected
                (select_candidate lab candidates base problem forbidden
                  (generate_candidates lab problem context k w).1).1)
              P _ (λ a h. (candidates, generated, (selected, chosen, h)))
              (if_selected-IsWorth task problem context base gold forbidden model selected _)
