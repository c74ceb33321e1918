-- ===== src/Helper/Select.antt =====
-- The selection of a candidate: the first good one, else the first that runs.
use coding_agent_support.Base.{
  Bool, ◌&&◌, ◌≡◌, refl, Bool-cases, inl, inr, Option, none, some, List, [], ◌∷◌, Text, find,
  or_else,
}
use coding_agent_support.Effects.{ok}
use coding_agent_support.Helper.{Lab, TestRunOutcome, run_test_in_workspace}
use coding_agent_support.Helper.Build.{
  select_candidate, select_loop, is_selected, first_of, helper_name,
}

pub or_else-first_of :
    (fallback : Option Text) (s : Text) (o : Option Text)
    → or_else (first_of fallback s) o ≡ or_else fallback (some s)
or_else-first_of none s o = refl
or_else-first_of (some f) s o = refl

-- the candidate runs on the base, where its run is `outcome`, and is taken at once
abbrev pub is_good : {W : Type 0} → Lab W → Text → List Text → (Text → TestRunOutcome) → Text → Bool
is_good lab problem forbidden outcome s =
    (outcome s).collected && is_selected lab problem forbidden s (outcome s)

module _ {W : Type 0} (lab : Lab W) (base problem : Text) (forbidden : List Text)
    (outcome : Text → TestRunOutcome)
    (answers : (s : Text) (w : W)
      → run_test_in_workspace lab base s helper_name w ≡ (ok (outcome s), w)) where
  select_loop-choice :
      (fallback : Option Text) (cands : List Text) (w : W)
      → select_loop lab base problem forbidden fallback cands w ≡ (
        ok (
            or_else
              (find (is_good lab problem forbidden outcome) cands)
              (or_else fallback (find (λ s. (outcome s).collected) cands))),
        w,
      )
  unfolding select_loop
  select_loop-choice none [] w = refl
  select_loop-choice (some f) [] w = refl
  select_loop-choice fallback (s ∷ rest) w =
      rw (answers s w) (elim (Bool-cases (outcome s).collected) [
        | inl ran ↦ elim (Bool-cases (is_selected lab problem forbidden s (outcome s))) [
          | inl good ↦ rw (ran, good) refl
          | inr bad ↦
              rw
                (
                  ran,
                  bad,
                  select_loop-choice (first_of fallback s) rest w,
                  or_else-first_of fallback s (find (λ x. (outcome x).collected) rest),
                )
                refl
        ]
        | inr stuck ↦ rw stuck (select_loop-choice fallback rest w)
      ])

  -- If the tests of the candidates on the base answer by the candidate alone, the selection is the
  -- first candidate that runs, fails, has issue provenance and holds no forbidden literal, if there
  -- is one, else the first that runs, else none.
  pub select_candidate-choice :
      (cands : List Text) (w : W)
      → select_candidate lab cands base problem forbidden w ≡ (
        ok (
            or_else
              (find (is_good lab problem forbidden outcome) cands)
              (find (λ s. (outcome s).collected) cands)),
        w,
      )
  unfolding select_candidate
  select_candidate-choice cands w = select_loop-choice none cands w
