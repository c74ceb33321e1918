-- ===== src/Helper/Container.antt =====
-- se_support/support/repro_tests/pregen_container.py: the pipeline of a helper test inside of
-- containers, which does over again what `build_helper_test` does in workspaces.
use coding_agent_support.Base.{
  ℕ, Bool, true, false, not, ◌&&◌, ◌||◌, Option, none, some, List, [], ◌∷◌, Text, is_empty, ◌==◌,
  list_eq, nat_eq, if◌then◌else◌,
}
use coding_agent_support.Effects.{Eff, pure, finally, ◌>>=◌, ◌>>◌}
use coding_agent_support.Helper.{
  Lab, HelperTestArtifact, ReproTestClass, invalid, non_reproducing, incompatible_oracle,
  valid_reproduction,
}
use coding_agent_support.Helper.Provenance.{
  has_issue_provenance, contains_forbidden_literal, suspicious_literals,
}
use coding_agent_support.Helper.Candidates.{generate_candidates}
use coding_agent_support.Helper.Build.{first_of, audited, selected_artifact}

-- the instance containers, of which one is open at a time, and the context pack made in one
pub record Zones (W : Type 0) : Type 0 where
  pub start : Eff W (Unit {0})
  pub close : Eff W (Unit {0})
  pub inject : Text → Eff W (Unit {0})
  pub pytest : Eff W ℕ
  pub remove : Eff W (Unit {0})
  pub context_pack : Eff W Text
  pub inject_patch : Text → Eff W (Unit {0})
  -- whether the output of `git apply` says APPLIED
  pub applied : Eff W Bool

-- the chain of tests at the end of `generate_helper_in_container`
unfoldable pub classify_in_container : Bool → Bool → Option Bool → ReproTestClass
classify_in_container collected fails after =
    if not collected then invalid else if not fails then non_reproducing else elim after [
      | none ↦ valid_reproduction
      | some passes ↦ if passes then valid_reproduction else incompatible_oracle
    ]

-- `selected or fallback`
abbrev pub either : Option Text → Option Text → Option Text
either none fallback = fallback
either (some []) fallback = fallback
either (some (c ∷ s)) fallback = some (c ∷ s)

-- what follows on a candidate: it is taken, or it ran, or it did not run
abbrev pub take_or_go : {A : Type 0} → Bool → Bool → A → A → A → A
take_or_go true true taken ran stuck = taken
take_or_go true false taken ran stuck = ran
take_or_go false t taken ran stuck = stuck

module _ {W : Type 0} (lab : Lab W) (zones : Zones W) where
  -- collected and passed
  unfoldable pub run_candidate_in_container : Text → Eff W (Bool × Bool)
  run_candidate_in_container source = do
    zones.inject source
    code ← zones.pytest
    zones.remove
    pure (code == 0 || code == 1, code == 0)

  unfoldable pub is_taken : Text → List Text → Text → Bool → Bool
  unfolding has_issue_provenance contains_forbidden_literal
  is_taken problem forbidden cand passed =
      not passed
      && has_issue_provenance (lab.literals_in_asserts cand) problem
      && is_empty (contains_forbidden_literal cand forbidden)

  -- the selected candidate and the fallback
  unfoldable pub container_loop :
      Text → List Text → Option Text → List Text → Eff W (Option Text × Option Text)
  unfolding run_candidate_in_container is_taken
  container_loop problem forbidden fallback [] = pure (none, fallback)
  container_loop problem forbidden fallback (cand ∷ rest) =
      run_candidate_in_container cand >>= λ run.
      take_or_go run.0 (is_taken problem forbidden cand run.1)
        (pure (some cand, first_of fallback cand))
        (container_loop problem forbidden (first_of fallback cand) rest)
        (container_loop problem forbidden fallback rest)

  unfoldable pub choose_in_container : Text → List Text → List Text → Eff W (Option Text)
  unfolding container_loop
  choose_in_container problem forbidden candidates =
      container_loop problem forbidden none candidates >>= λ found. pure (either found.0 found.1)

  -- the run of the chosen candidate in the base container
  unfoldable pub base_outcome : Option Text → HelperTestArtifact → Eff W HelperTestArtifact
  unfolding run_candidate_in_container
  base_outcome none a = pure a
  base_outcome (some chosen) a = run_candidate_in_container chosen >>= λ run.
      pure (record a { collected = some run.0; fail_before = some (run.0 && not run.1) })

  -- what is done in the base container
  unfoldable pub in_base :
      Text → Text → List Text → Option Text → ℕ → Eff W (Option Text × HelperTestArtifact)
  unfolding generate_candidates choose_in_container selected_artifact base_outcome
  in_base task problem forbidden model k = do
    context ← zones.context_pack
    candidates ← generate_candidates lab problem context k
    chosen ← choose_in_container problem forbidden candidates
    a ← base_outcome chosen (selected_artifact lab task problem context model chosen)
    pure (chosen, a)

  unfoldable pub gold_run : Text → Bool → Eff W (Option Bool)
  unfolding run_candidate_in_container
  gold_run chosen false = pure none
  gold_run chosen true = run_candidate_in_container chosen >>= λ run. pure (some (run.0 && run.1))

  -- the gold patch of the task, if it is there and not empty, in a container of its own
  unfoldable pub in_gold : Option Text → Text → Eff W (Option Bool)
  unfolding gold_run
  in_gold none chosen = pure none
  in_gold (some []) chosen = pure none
  in_gold (some (c ∷ patch)) chosen = do
    zones.start
    finally (zones.inject_patch (c ∷ patch) >> zones.applied >>= gold_run chosen) zones.close

  abbrev pub is_true : Option Bool → Bool
  is_true none = false
  is_true (some b) = b

  unfoldable pub container_classified :
      Text → List Text → Option Bool → HelperTestArtifact → HelperTestArtifact
  unfolding audited classify_in_container suspicious_literals contains_forbidden_literal
  container_classified problem forbidden after a =
      let flagged = suspicious_literals (lab.literals_in_asserts a.test_source) problem in
      let hits = contains_forbidden_literal a.test_source forbidden in
      let sound = is_empty flagged && is_empty hits in
      record a {
        pass_after_gold = after;
        suspicious_literals = flagged;
        issue_provenance_ok = some sound;
        classification =
            audited (classify_in_container (is_true a.collected) (is_true a.fail_before) after)
              sound;
      }

  unfoldable pub finish_in_gold :
      Text → List Text → Option Text → Option Text × HelperTestArtifact → Eff W HelperTestArtifact
  unfolding in_gold container_classified
  finish_in_gold problem forbidden gold (none, a) = pure a
  finish_in_gold problem forbidden gold (some chosen, a) =
      in_gold gold chosen >>= λ after. pure (container_classified problem forbidden after a)

  unfoldable pub generate_helper_in_container :
      Text → Text → List Text → Option Text → ℕ → Option Text → Eff W HelperTestArtifact
  unfolding in_base finish_in_gold
  generate_helper_in_container task problem forbidden model k gold = do
    zones.start
    found ← finally (in_base task problem forbidden model k) zones.close
    finish_in_gold problem forbidden gold found
