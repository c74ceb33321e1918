-- ===== src/Effects/Total.antt =====
-- Calls that return: the postcondition of a call that does not raise, and its rules.
use coding_agent_support.Base.{Bool, true, false, if◌then◌else◌}
use coding_agent_support.Effects.{Result, ok, err, Eff, pure, continue, ◌>>=◌, OnOk}

-- the call returned, and `P` holds of its value
abbrev pub Returns : {A : Type 0} → (A → Type 0) → Result A → Type 0
Returns P (ok a) = P a
Returns P (err e) = ⊥

pub Returns-continue :
    {W A B : Type 0} (Q : A → Type 0) (P : B → Type 0) (r : Result A) (f : A → Eff W B) (w : W)
    → Returns Q r
    → ((a : A) → Q a → Returns P (f a w).0)
    → Returns P (continue r f w).0
Returns-continue Q P (ok a) f w q h = h a q
Returns-continue Q P (err e) f w q h = absurd q

pub Returns-bind :
    {W A B : Type 0} (Q : A → Type 0) (P : B → Type 0) (m : Eff W A) (f : A → Eff W B) (w : W)
    → Returns Q (m w).0
    → ((a : A) (w' : W) → Q a → Returns P (f a w').0)
    → Returns P ((m >>= f) w).0
Returns-bind Q P m f w q h = let (r, w') = m w in Returns-continue Q P r f w' q (λ a. h a w')

pub Returns-of_ok :
    {A : Type 0} (P : A → Type 0) (r : Result A)
    → Returns (λ _. Unit {0}) r
    → OnOk P r
    → Returns P r
Returns-of_ok P (ok a) h p = p
Returns-of_ok P (err e) h p = h

-- the action returns, whatever the world
pub record Answers {W A : Type 0} (m : Eff W A) : Type 0 where
  pub returns : (w : W) → Returns (λ _. Unit {0}) (m w).0

module _ {W A : Type 0} where
  pub pure-Answers : (a : A) → Answers {W = W} (pure a)
  pure-Answers a = record { returns = λ w. tt }

  pub if-Answers :
      (b : Bool) (m n : Eff W A) → Answers m → Answers n → Answers {W = W} (if b then m else n)
  if-Answers true m n hm hn = hm
  if-Answers false m n hm hn = hn

pub bind-Answers :
    {W A B : Type 0} (m : Eff W A) (f : A → Eff W B)
    → Answers m
    → ((a : A) → Answers (f a))
    → Answers (m >>= f)
bind-Answers m f hm hf = record {
  returns = λ w.
      Returns-bind (λ _. Unit {0}) (λ _. Unit {0}) m f w (hm.returns w)
        (λ a w' _. (hf a).returns w');
}

-- where what follows needs a property of the first call's value
pub bind-Answers_of :
    {W A B : Type 0} (Q : A → Type 0) (m : Eff W A) (f : A → Eff W B)
    → ((w : W) → Returns Q (m w).0)
    → ((a : A) → Q a → Answers (f a))
    → Answers (m >>= f)
bind-Answers_of Q m f hm hf = record {
  returns = λ w. Returns-bind Q (λ _. Unit {0}) m f w (hm w) (λ a w' q. (hf a q).returns w');
}

pub ruleset answer_rules = (pure-Answers, if-Answers, bind-Answers)
