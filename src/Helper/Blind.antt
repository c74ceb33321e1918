-- ===== src/Helper/Blind.antt =====
-- The choice of a helper test does not depend on the gold patch.
use coding_agent_support.Base.{ℕ, ◌≡◌, refl, Option, none, some, List, Text, list_eq, nat_eq}
use coding_agent_support.Effects.{Eff, Agree, Agree-bind, Agree-both}
use coding_agent_support.Helper.{Lab, HelperTestArtifact, invalid, run_test_in_workspace}
use coding_agent_support.Helper.Candidates.{generate_candidates}
use coding_agent_support.Helper.Build.{
  build_helper_test, select_candidate, selected_artifact, validated, with_outcomes, pass_after,
  if_selected, helper_name,
}

-- what is left of an artifact without the outcome on the gold workspace and the class
unfoldable pub blind_part : HelperTestArtifact → HelperTestArtifact
blind_part a = record a { pass_after_gold = none; classification = invalid }

module _ {W : Type 0} (lab : Lab W) where
  validated-Agree :
      (problem : Text) (forbidden : List Text) (base : Text) (gold gold' : Option Text)
      (a : HelperTestArtifact) (w : W)
      → Agree
          (λ a b. blind_part a ≡ blind_part b)
          (validated lab problem forbidden base gold a w).0
          (validated lab problem forbidden base gold' a w).0
  unfolding validated blind_part with_outcomes
  validated-Agree problem forbidden base gold gold' a w =
      Agree-bind (λ a b. blind_part a ≡ blind_part b)
        (run_test_in_workspace lab base a.test_source helper_name) _ _ w
        λ o w'.
          Agree-both (λ a b. blind_part a ≡ blind_part b) (pass_after lab gold a.test_source)
            (pass_after lab gold' a.test_source) _ _ w' w' λ p q u v. refl

  if_selected-Agree :
      (selected : Option Text) (m n : Eff W HelperTestArtifact) (a : HelperTestArtifact) (w : W)
      → Agree (λ a b. blind_part a ≡ blind_part b) (m w).0 (n w).0
      → Agree
          (λ a b. blind_part a ≡ blind_part b)
          (if_selected selected m a w).0
          (if_selected selected n a w).0
  if_selected-Agree none m n a w h = refl
  if_selected-Agree (some source) m n a w h = h

  -- Two builds of a helper test that start in the same state of the world and differ in the gold
  -- workspace alone, if both return, agree in everything but the outcome on the gold workspace and
  -- the class: the choice of the source, its hash and its audit do not depend on the gold patch.
  pub build_helper_test-IsGoldBlind :
      (task problem context base : Text) (gold gold' : Option Text) (forbidden : List Text)
      (model : Option Text) (k : ℕ) (w : W)
      → Agree
          (λ a b. blind_part a ≡ blind_part b)
          (build_helper_test lab task problem context base gold forbidden model k w).0
          (build_helper_test lab task problem context base gold' forbidden model k w).0
  unfolding build_helper_test
  build_helper_test-IsGoldBlind task problem context base gold gold' forbidden model k w =
      Agree-bind (λ a b. blind_part a ≡ blind_part b) (generate_candidates lab problem context k) _
        _ w
        λ candidates w'.
          Agree-bind (λ a b. blind_part a ≡ blind_part b)
            (select_candidate lab candidates base problem forbidden) _ _ w'
            λ selected v.
              let a = selected_artifact lab task problem context model selected in
              if_selected-Agree selected _ _ a v
                (validated-Agree problem forbidden base gold gold' a v)
