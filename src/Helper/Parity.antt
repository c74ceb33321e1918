-- ===== src/Helper/Parity.antt =====
-- The container pipeline chooses and classifies as the pipeline of workspaces does.
use coding_agent_support.Base.{
  Bool, true, false, ◌&&◌, ◌≡◌, refl, ◌∙◌, sym, ap, Option, none, some, List, [], ◌∷◌, Text,
  is_empty, find, or_else, All, if◌then◌else◌,
}
use coding_agent_support.Effects.{Eff, ok, pure, ◌>>=◌}
use coding_agent_support.Helper.{Lab, TestRunOutcome, classify, run_test_in_workspace}
use coding_agent_support.Helper.Build.{first_of, is_selected, select_candidate, helper_name}
use coding_agent_support.Helper.Select.{is_good, or_else-first_of, select_candidate-choice}
use coding_agent_support.Helper.Container.{
  Zones, run_candidate_in_container, container_loop, choose_in_container, either,
  classify_in_container, is_taken, take_or_go,
}

-- The chain of tests of the container pipeline gives the class that `classify` gives.
pub classify_in_container-classify :
    (collected fails : Bool) (after : Option Bool)
    → classify_in_container collected fails after ≡ classify collected fails after
unfolding classify_in_container classify
classify_in_container-classify false fails after = refl
classify_in_container-classify true false after = refl
classify_in_container-classify true true none = refl
classify_in_container-classify true true (some true) = refl
classify_in_container-classify true true (some false) = refl

either-some :
    (s : Text) (fallback : Option Text) → is_empty s ≡ false → either (some s) fallback ≡ some s
either-some [] fallback h = cc
either-some (c ∷ s) fallback h = refl

abbrev pub chosen : {W : Type 0} → Eff W (Option Text × Option Text) → Eff W (Option Text)
chosen m = m >>= λ found. pure (either found.0 found.1)

combine :
    {W : Type 0} (c t : Bool) (s : Text) (fallback : Option Text)
    (ran stuck : Eff W (Option Text × Option Text)) (good first : Option Text) (w : W)
    → chosen ran w ≡ (ok (or_else good (or_else (first_of fallback s) first)), w)
    → chosen stuck w ≡ (ok (or_else good (or_else fallback first)), w)
    → is_empty s ≡ false
    → chosen (take_or_go c t (pure (some s, first_of fallback s)) ran stuck) w ≡ (
      ok (
          or_else
            (if c && t then some s else good)
            (or_else fallback (if c then some s else first))),
      w,
    )
combine true true s fallback ran stuck good first w h k full =
    rw (either-some s (first_of fallback s) full) refl
combine true false s fallback ran stuck good first w h k full =
    h ∙ ap (λ o. (ok (or_else good o), w)) (or_else-first_of fallback s first)
combine false t s fallback ran stuck good first w h k full = k

module _ {W : Type 0} (lab : Lab W) (zones : Zones W) (base problem : Text) (forbidden : List Text)
    (outcome : Text → TestRunOutcome)
    (answers : (s : Text) (w : W)
      → run_test_in_workspace lab base s helper_name w ≡ (ok (outcome s), w))
    (agrees : (s : Text) (w : W)
      → run_candidate_in_container lab zones s w
        ≡ (ok ((outcome s).collected, (outcome s).passed), w)) where
  abbrev runs : Text → Bool
  runs s = (outcome s).collected

  container_loop-choice :
      (fallback : Option Text) (cands : List Text) (w : W)
      → All (λ s. is_empty s ≡ false) cands
      → (container_loop lab zones problem forbidden fallback cands >>= λ found.
            pure (either found.0 found.1))
          w
        ≡ (
          ok (
              or_else
                (find (is_good lab problem forbidden outcome) cands)
                (or_else fallback (find runs cands))),
          w,
        )
  unfolding container_loop is_taken is_selected
  container_loop-choice none [] w full = refl
  container_loop-choice (some f) [] w full = refl
  container_loop-choice fallback (s ∷ rest) w full = rw (agrees s w) (
      combine (outcome s).collected (is_taken lab zones problem forbidden s (outcome s).passed) s
        fallback _ _ (find (is_good lab problem forbidden outcome) rest) (find runs rest) w
        (container_loop-choice (first_of fallback s) rest w full.1)
        (container_loop-choice fallback rest w full.1) full.0)

  -- If a candidate has the same outcome in the base container as on the base workspace, whatever the
  -- state of the world, and no candidate is empty, then the choice in the container is the selection
  -- on the workspace.
  pub choose_in_container-select :
      (cands : List Text) (w : W)
      → All (λ s. is_empty s ≡ false) cands
      → choose_in_container lab zones problem forbidden cands w
        ≡ select_candidate lab cands base problem forbidden w
  unfolding choose_in_container
  choose_in_container-select cands w full =
      container_loop-choice none cands w full
      ∙ sym (select_candidate-choice lab base problem forbidden outcome answers cands w)
