-- ===== src/Effects/Partial.antt =====
-- Postconditions of actions: what holds of the value if a call returns, with the rules by which an
-- action is built.
use coding_agent_support.Base.{Bool, true, false, ◌≡◌, refl, if◌then◌else◌}
use coding_agent_support.Effects.{
  Error, Eff, pure, raise, ◌>>=◌, OnOk, OnOk-then, OnOk-bind, OnOk-map,
}

pub record Ensures {W A : Type 0} (P : A → Type 0) (m : Eff W A) : Type 0 where
  pub holds : (w : W) → OnOk P (m w).0

module _ {W A : Type 0} where
  pub pure-Ensures : (P : A → Type 0) (a : A) → P a → Ensures {W = W} P (pure a)
  pure-Ensures P a p = record { holds = λ w. p }

  pub raise-Ensures : (P : A → Type 0) (e : Error) → Ensures {W = W} P (raise e)
  raise-Ensures P e = record { holds = λ w. tt }

  pub if-Ensures :
      (P : A → Type 0) (b : Bool) (m n : Eff W A)
      → (b ≡ true → Ensures P m)
      → (b ≡ false → Ensures P n)
      → Ensures {W = W} P (if b then m else n)
  if-Ensures P true m n h k = h refl
  if-Ensures P false m n h k = k refl

  pub map-Ensures :
      (P Q : A → Type 0) (m : Eff W A) → ((a : A) → P a → Q a) → Ensures P m → Ensures Q m
  map-Ensures P Q m f h = record { holds = λ w. OnOk-map P Q (m w).0 f (h.holds w) }

module _ {W A B : Type 0} where
  -- nothing is used of the first call's value
  pub then-Ensures :
      (P : B → Type 0) (m : Eff W A) (f : A → Eff W B)
      → ((a : A) → Ensures P (f a))
      → Ensures P (m >>= f)
  then-Ensures P m f h = record { holds = λ w. OnOk-then P m f w (λ a v. (h a).holds v) }

  pub bind-Ensures :
      (Q : A → Type 0) (P : B → Type 0) (m : Eff W A) (f : A → Eff W B)
      → Ensures Q m
      → ((a : A) → Q a → Ensures P (f a))
      → Ensures P (m >>= f)
  bind-Ensures Q P m f q h = record {
    holds = λ w. OnOk-bind Q P m f w (q.holds w) (λ a v k. (h a k).holds v);
  }
