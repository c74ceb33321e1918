-- ===== src/Base/Equality.antt =====
-- Python's `==` as an interface, with its instances for numbers and lists (so for texts).
use Prim.Native.Nat.{ℕ, compare, Ordering}
use mathlib.Core.Path.{◌≡◌, refl}
use mathlib.Core.Logic.{◌≢◌, ◌↔◌}
use mathlib.Core.Bool.{Bool, true, false, ◌&&◌}
use mathlib.Core.List.{List, [], ◌∷◌}
use native.Mathlib.Omega.{arith}

-- A test that holds of every value and itself, and of no two that differ.
pub record Eq {ℓ} (A : Type ℓ) : Type ℓ where
  pub same : A → A → Bool
  pub same_refl : (a : A) → same a a ≡ true
  pub eq_of_same : (a b : A) → same a b ≡ true → a ≡ b

module _ {ℓ} {A : Type ℓ} ⦃e : Eq A⦄ where
  infix 50 ◌==◌
  abbrev pub ◌==◌ : A → A → Bool
  a == b = e.same a b

  pub ==_refl : (a : A) → a == a ≡ true
  ==_refl a = e.same_refl a

  pub ==_iff : (a b : A) → (a == b ≡ true) ↔ (a ≡ b)
  ==_iff a b = (e.eq_of_same a b, λ p. rw p (e.same_refl b))

  pub ==-of_ne : (a b : A) → a ≢ b → a == b ≡ false
  ==-of_ne a b h = ground (arith, ==_iff a b)

abbrev pub same_nat : ℕ → ℕ → Bool
same_nat a b = elim (compare a b) [ Ordering.eq ↦ true | _ ↦ false ]

pub same_nat_refl : (a : ℕ) → same_nat a a ≡ true
same_nat_refl a = ground arith

pub eq_of_same_nat : (a b : ℕ) → same_nat a b ≡ true → a ≡ b
eq_of_same_nat a b h = ground arith

instance abbrev pub nat_eq : Eq ℕ
nat_eq = record { same = same_nat; same_refl = same_nat_refl; eq_of_same = eq_of_same_nat }

module _ {ℓ} {A : Type ℓ} ⦃e : Eq A⦄ where
  unfoldable pub list_beq : List A → List A → Bool
  list_beq [] [] = true
  list_beq [] (y ∷ ys) = false
  list_beq (x ∷ xs) [] = false
  list_beq (x ∷ xs) (y ∷ ys) = x == y && list_beq xs ys

  pub list_beq_refl : (xs : List A) → list_beq xs xs ≡ true
  unfolding list_beq
  list_beq_refl [] = refl
  list_beq_refl (x ∷ xs) = rw (e.same_refl x, list_beq_refl xs)

  pub eq_of_list_beq : (xs ys : List A) → list_beq xs ys ≡ true → xs ≡ ys
  unfolding list_beq
  eq_of_list_beq [] [] h = refl
  eq_of_list_beq [] (y ∷ ys) h = cc
  eq_of_list_beq (x ∷ xs) [] h = cc
  eq_of_list_beq (x ∷ xs) (y ∷ ys) h = ground (arith, ==_iff x y, eq_of_list_beq xs ys)

  instance abbrev pub list_eq : Eq (List A)
  list_eq = record { same = list_beq; same_refl = list_beq_refl; eq_of_same = eq_of_list_beq }
