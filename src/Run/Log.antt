-- ===== src/Run/Log.antt =====
-- The entries of a run directory, and reasoning about runs step by step.
use coding_agent_support.Base.{
  Bool, true, false, not, ◌&&◌, ◌||◌, ◌⊎◌, ◌≡◌, refl, Option, none, some, List, ◌∷◌, Text, any,
  is_empty, arith, list_eq, nat_eq, if◌then◌else◌,
}
use coding_agent_support.Effects.{Eff, Result, ok, err, continue, ◌>>=◌}
use coding_agent_support.Run.{
  Stage, s0, s1, s2, Event, wrote_state, agent_started, wrote_manifest, wrote_helper_hash,
  wrote_patch, RunOutcome, finished, infrastructure_failure, helper_integrity_violation, same_sha,
}
use coding_agent_support.Run.Body.{Logged, call, call_if}

-- `P` holds of what a call returned and of the directory, and `E` of the directory if it raised
abbrev pub Post :
    {W Card A : Type 0}
    → (A → List (Event Card) → Type 0)
    → (List (Event Card) → Type 0)
    → Result A × Logged W Card
    → Type 0
Post P E (ok a, (w, log)) = P a log
Post P E (err e, (w, log)) = E log

abbrev pub same_stage : Stage → Stage → Bool
same_stage s0 s0 = true
same_stage s1 s1 = true
same_stage s2 s2 = true
same_stage _ _ = false

module _ {Card : Type 0} where
  abbrev pub is_start : Event Card → Bool
  is_start agent_started = true
  is_start _ = false

  -- the snapshot of the stage was clean
  abbrev pub is_clean : Stage → Event Card → Bool
  is_clean stage (wrote_state t state) = same_stage t stage && state.clean
  is_clean stage _ = false

  abbrev pub is_sealed : Event Card → Bool
  is_sealed (wrote_manifest manifest) = not manifest.helper_leak
  is_sealed _ = false

  -- a patch that is not empty
  abbrev pub is_patch : Event Card → Bool
  is_patch (wrote_patch patch) = not (is_empty patch)
  is_patch _ = false

  abbrev pub keeps_helper : Text → Event Card → Bool
  keeps_helper host (wrote_helper_hash h) =
      same_sha h.container_sha256_before (some host)
      && same_sha h.container_sha256_after h.container_sha256_before
  keeps_helper host _ = false

  -- the agent is started on a clean tree alone
  abbrev pub IsGuarded : List (Event Card) → Type 0
  IsGuarded log =
      (any is_start log ≡ false) ⊎ ((any (is_clean s0) log ≡ true) × (any (is_clean s1) log ≡ true))

  abbrev pub HelperKept : Option Text → List (Event Card) → Type 0
  HelperKept none log = Unit
  HelperKept (some host) log = any (keeps_helper host) log ≡ true

  -- what a run that counts has written
  pub record IsTrusted (host : Option Text) (log : List (Event Card)) : Type 0 where
    pub clean_start : any (is_clean s0) log ≡ true
    pub clean_setup : any (is_clean s1) log ≡ true
    pub sealed : any is_sealed log ≡ true
    pub helper : HelperKept host log

  abbrev pub Verdict : Option Text → RunOutcome Card → List (Event Card) → Type 0
  Verdict host o log = elim o.status [
    | finished ↦ IsTrusted host log
    | infrastructure_failure ↦
        (o.eval_result.resolved ≡ false)
        × (o.eval_result.patch_applies ≡ false)
        × (any is_patch log ≡ false)
  ]

  abbrev pub Ends : Option Text → RunOutcome Card → List (Event Card) → Type 0
  Ends host o log = IsGuarded log × Verdict host o log

pub or_right : (a b : Bool) → b ≡ true → (a || b) ≡ true
or_right a b h = ground arith

-- a helper without a violation is unchanged
pub kept-of_violation :
    (host : Text) (before after : Option Text)
    → helper_integrity_violation host before after ≡ none
    → (same_sha before (some host) && same_sha after before) ≡ true
unfolding helper_integrity_violation
kept-of_violation host before after h = ground arith

module _ {Card : Type 0} where
  pub HelperKept-cons :
      (host : Option Text) (e : Event Card) (log : List (Event Card))
      → HelperKept host log
      → HelperKept host (e ∷ log)
  HelperKept-cons none e log h = tt
  HelperKept-cons (some sha) e log h = or_right (keeps_helper sha e) _ h

  pub IsTrusted-cons :
      (host : Option Text) (e : Event Card) (log : List (Event Card))
      → IsTrusted host log
      → IsTrusted host (e ∷ log)
  IsTrusted-cons host e log t = record {
    clean_start = or_right (is_clean s0 e) _ t.clean_start;
    clean_setup = or_right (is_clean s1 e) _ t.clean_setup;
    sealed = or_right (is_sealed e) _ t.sealed;
    helper = HelperKept-cons host e log t.helper;
  }

module _ {W Card A B : Type 0} where
  pub continue-call :
      (P : B → List (Event Card) → Type 0) (E : List (Event Card) → Type 0) (r : Result A)
      (f : A → Eff (Logged W Card) B) (w : W) (log : List (Event Card))
      → E log
      → ((a : A) → Post P E (f a (w, log)))
      → Post P E (continue r f (w, log))
  continue-call P E (ok a) f w log e h = h a
  continue-call P E (err d) f w log e h = e

  pub call-bind :
      (P : B → List (Event Card) → Type 0) (E : List (Event Card) → Type 0) (m : Eff W A)
      (f : A → Eff (Logged W Card) B) (w : W) (log : List (Event Card))
      → E log
      → ((a : A) (w' : W) → Post P E (f a (w', log)))
      → Post P E ((call m >>= f) (w, log))
  call-bind P E m f w log e h = let (r, w') = m w in continue-call P E r f w' log e (λ a. h a w')

module _ {W Card B : Type 0} where
  pub Post-if :
      (P : B → List (Event Card) → Type 0) (E : List (Event Card) → Type 0) (b : Bool)
      (m n : Eff (Logged W Card) B) (x : Logged W Card)
      → (b ≡ true → Post P E (m x))
      → (b ≡ false → Post P E (n x))
      → Post P E ((if b then m else n) x)
  Post-if P E true m n x h k = h refl
  Post-if P E false m n x h k = k refl

  pub call_if-bind :
      (P : B → List (Event Card) → Type 0) (E : List (Event Card) → Type 0) (b : Bool)
      (m : Eff W (Unit {0})) (f : Unit {0} → Eff (Logged W Card) B) (w : W)
      (log : List (Event Card))
      → E log
      → ((w' : W) → Post P E (f tt (w', log)))
      → Post P E ((call_if b m >>= f) (w, log))
  call_if-bind P E true m f w log e h = call-bind P E m f w log e (λ a w'. h w')
  call_if-bind P E false m f w log e h = h w
