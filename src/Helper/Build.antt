-- ===== src/Helper/Build.antt =====
-- se_support/support/repro_tests/__init__.py: one helper test of a task, chosen blindly, frozen,
-- then classified.
use coding_agent_support.Base.{
  ℕ, Bool, true, false, not, ◌&&◌, Option, none, some, List, [], ◌∷◌, Text, codes, is_empty,
  if◌then◌else◌,
}
use coding_agent_support.Effects.{Eff, pure, ◌>>=◌}
use coding_agent_support.Helper.{
  Lab, TestRunOutcome, HelperTestArtifact, new_artifact, ReproTestClass, decoupled_valid,
  is_confirmatory, classify, run_test_in_workspace, freeze,
}
use coding_agent_support.Helper.Provenance.{
  suspicious_literals, has_issue_provenance, contains_forbidden_literal,
}
use coding_agent_support.Helper.Candidates.{generate_candidates, prompt_hash}

abbrev pub first_of : Option Text → Text → Option Text
first_of none cand = some cand
first_of (some f) cand = some f

unfoldable pub audited : ReproTestClass → Bool → ReproTestClass
unfolding is_confirmatory
audited cls provenance_ok = if is_confirmatory cls && provenance_ok then decoupled_valid else cls

abbrev pub helper_name : Text
helper_name = codes "_c2_helper_test.py"

abbrev pub if_selected :
    {W : Type 0}
    → Option Text
    → Eff W HelperTestArtifact
    → HelperTestArtifact
    → Eff W HelperTestArtifact
if_selected none m a = pure a
if_selected (some source) m a = m

module _ {W : Type 0} (lab : Lab W) where
  -- the condition on which a candidate that ran is taken at once
  unfoldable pub is_selected : Text → List Text → Text → TestRunOutcome → Bool
  unfolding has_issue_provenance contains_forbidden_literal
  is_selected problem forbidden cand outcome =
      not outcome.passed
      && has_issue_provenance (lab.literals_in_asserts cand) problem
      && is_empty (contains_forbidden_literal cand forbidden)

  unfoldable pub select_loop :
      Text → Text → List Text → Option Text → List Text → Eff W (Option Text)
  unfolding is_selected run_test_in_workspace
  select_loop base problem forbidden fallback [] = pure fallback
  select_loop base problem forbidden fallback (cand ∷ rest) =
      run_test_in_workspace lab base cand helper_name >>= λ outcome. elim outcome.collected [
        | false ↦ select_loop base problem forbidden fallback rest
        | true ↦ elim (is_selected problem forbidden cand outcome) [
          | true ↦ pure (some cand)
          | false ↦ select_loop base problem forbidden (first_of fallback cand) rest
        ]
      ]

  -- The second component of the source's answer, which its callers drop, is left out.
  unfoldable pub select_candidate : List Text → Text → Text → List Text → Eff W (Option Text)
  unfolding select_loop
  select_candidate candidates base problem forbidden =
      select_loop base problem forbidden none candidates

  -- the run on the workspace with the gold patch, if there is one
  unfoldable pub pass_after : Option Text → Text → Eff W (Option Bool)
  unfolding run_test_in_workspace
  pass_after none source = pure none
  pass_after (some gold) source = run_test_in_workspace lab gold source helper_name >>= λ outcome.
      pure (some (outcome.collected && outcome.passed))

  -- the fields that the outcomes on the base and on the gold workspace settle
  unfoldable pub with_outcomes :
      Text → List Text → TestRunOutcome → Option Bool → HelperTestArtifact → HelperTestArtifact
  unfolding audited classify suspicious_literals contains_forbidden_literal
  with_outcomes problem forbidden base_outcome after a =
      let fails = base_outcome.collected && not base_outcome.passed in
      let flagged = suspicious_literals (lab.literals_in_asserts a.test_source) problem in
      let hits = contains_forbidden_literal a.test_source forbidden in
      let provenance_ok = is_empty flagged && is_empty hits in
      record a {
        collected = some base_outcome.collected;
        fail_before = some fails;
        pass_after_gold = after;
        suspicious_literals = flagged;
        issue_provenance_ok = some provenance_ok;
        classification = audited (classify base_outcome.collected fails after) provenance_ok;
      }

  unfoldable pub validated :
      Text → List Text → Text → Option Text → HelperTestArtifact → Eff W HelperTestArtifact
  unfolding run_test_in_workspace pass_after with_outcomes
  validated problem forbidden base gold a =
      run_test_in_workspace lab base a.test_source helper_name >>= λ base_outcome.
      pass_after gold a.test_source >>= λ after.
      pure (with_outcomes problem forbidden base_outcome after a)

  -- the artifact before the runs that classify it: nothing, or the selected source, frozen
  unfoldable pub selected_artifact :
      Text → Text → Text → Option Text → Option Text → HelperTestArtifact
  unfolding freeze new_artifact prompt_hash
  selected_artifact task problem context model none =
      record (new_artifact task [] model (some (prompt_hash lab problem context))) {
        notes = codes "no runnable candidate";
      }
  selected_artifact task problem context model (some source) =
      freeze lab (new_artifact task source model (some (prompt_hash lab problem context)))

  unfoldable pub build_helper_test :
      Text
      → Text
      → Text
      → Text
      → Option Text
      → List Text
      → Option Text
      → ℕ
      → Eff W HelperTestArtifact
  unfolding generate_candidates select_candidate selected_artifact validated
  build_helper_test task problem context base gold forbidden model k =
      generate_candidates lab problem context k >>= λ candidates.
      select_candidate candidates base problem forbidden >>= λ selected.
      let a = selected_artifact task problem context model selected in
      if_selected selected (validated problem forbidden base gold a) a
