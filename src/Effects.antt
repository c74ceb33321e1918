-- ===== src/Effects.antt =====
-- Calls into the world outside the program (commands, files, services) as state passing over an
-- abstract world; an exception leaves the world as the calls before it made it.
pub mod Partial
pub mod Stateless
pub mod Total
use coding_agent_support.Base.{Bool, true, false, if◌then◌else◌, Text, ◌≡◌, refl}

-- the exceptions that the modelled code raises or lets through
pub data Error : Type 0 where
  type_error attribute_error key_error value_error index_error : Error
  runtime_error assertion_error : Text → Error
  other_error : Text → Error

pub data Result {ℓ} (A : Type ℓ) : Type ℓ where
  ok : A → Result A
  err : Error → Result A

abbrev pub Eff : Type 0 → Type 0 → Type 0
Eff W A = W → Result A × W

module _ {W A : Type 0} where
  abbrev pub pure : A → Eff W A
  pure a w = (ok a, w)

  abbrev pub raise : Error → Eff W A
  raise e w = (err e, w)

  abbrev pub lift : Result A → Eff W A
  lift r w = (r, w)

module _ {A B : Type 0} where
  abbrev pub instead : Result B → Result A → Result A
  instead (ok b) r = r
  instead (err e) r = err e

module _ {W A B : Type 0} where
  abbrev pub continue : Result A → (A → Eff W B) → Eff W B
  continue (ok a) f w = f a w
  continue (err e) f w = (err e, w)

  infixl 10 ◌>>=◌ ◌>>◌
  abbrev pub ◌>>=◌ : Eff W A → (A → Eff W B) → Eff W B
  ◌>>=◌ m f w = let (r, w') = m w in continue r f w'

  abbrev pub ◌>>◌ : Eff W A → Eff W B → Eff W B
  m >> n = m >>= λ _. n

  -- `try: m finally: n`
  abbrev pub finally : Eff W A → Eff W B → Eff W A
  finally m n w = let (r, w') = m w in let (s, w'') = n w' in (instead s r, w'')

-- the parts of a call that returned
pub continue-eq-ok :
    {W A B : Type 0} (r : Result A) (f : A → Eff W B) (w : W) {b : B}
    → (continue r f w).0 ≡ ok b
    → (a : A) × (r ≡ ok a) × ((f a w).0 ≡ ok b)
continue-eq-ok (ok a) f w h = (a, refl, h)
continue-eq-ok (err e) f w h = cc

pub >>=-eq-ok :
    {W A B : Type 0} (m : Eff W A) (f : A → Eff W B) (w : W) {b : B}
    → ((m >>= f) w).0 ≡ ok b
    → (a : A) × ((m w).0 ≡ ok a) × ((f a (m w).1).0 ≡ ok b)
>>=-eq-ok m f w h = let (r, w') = m w in continue-eq-ok r f w' h

pub ok-injective {ℓ} : {A : Type ℓ} {a b : A} → ok a ≡ ok b → a ≡ b
ok-injective h = cc

-- `P` holds of the value that a call returned, if it did
abbrev pub OnOk {ℓ κ} : {A : Type ℓ} → (A → Type κ) → Result A → Type κ
OnOk P (ok a) = P a
OnOk P (err e) = Unit

pub OnOk-continue {ℓ κ} :
    {W A B : Type 0} (Q : A → Type ℓ) (P : B → Type κ) (r : Result A) (f : A → Eff W B) (w : W)
    → OnOk Q r
    → ((a : A) → Q a → OnOk P (f a w).0)
    → OnOk P (continue r f w).0
OnOk-continue Q P (ok a) f w q h = h a q
OnOk-continue Q P (err e) f w q h = tt

-- what holds of the first call's value may be used for the rest
pub OnOk-bind {ℓ κ} :
    {W A B : Type 0} (Q : A → Type ℓ) (P : B → Type κ) (m : Eff W A) (f : A → Eff W B) (w : W)
    → OnOk Q (m w).0
    → ((a : A) (w' : W) → Q a → OnOk P (f a w').0)
    → OnOk P ((m >>= f) w).0
OnOk-bind Q P m f w q h = let (r, w') = m w in OnOk-continue Q P r f w' q (λ a. h a w')

OnOk-continue_ran {κ} :
    {W A B : Type 0} (P : B → Type κ) (r : Result A) (f : A → Eff W B) (w : W)
    → ((a : A) → r ≡ ok a → OnOk P (f a w).0)
    → OnOk P (continue r f w).0
OnOk-continue_ran P (ok a) f w h = h a refl
OnOk-continue_ran P (err e) f w h = tt

-- the rest may be known to run behind the first call, in the world that it left
pub OnOk-ran {κ} :
    {W A B : Type 0} (P : B → Type κ) (m : Eff W A) (f : A → Eff W B) (w : W)
    → ((a : A) → (m w).0 ≡ ok a → OnOk P (f a (m w).1).0)
    → OnOk P ((m >>= f) w).0
OnOk-ran P m f w h = OnOk-continue_ran P (m w).0 f (m w).1 h

pub OnOk-trivial {ℓ} : {A : Type ℓ} (r : Result A) → OnOk (λ _. Unit {0}) r
OnOk-trivial (ok a) = tt
OnOk-trivial (err e) = tt

-- The same where nothing is known of the first call's value.
pub OnOk-then {κ} :
    {W A B : Type 0} (P : B → Type κ) (m : Eff W A) (f : A → Eff W B) (w : W)
    → ((a : A) (w' : W) → OnOk P (f a w').0)
    → OnOk P ((m >>= f) w).0
OnOk-then P m f w h = OnOk-bind (λ _. Unit {0}) P m f w (OnOk-trivial (m w).0) (λ a w' _. h a w')

pub OnOk-map {ℓ κ μ} :
    {A : Type ℓ} (P : A → Type κ) (Q : A → Type μ) (r : Result A)
    → ((a : A) → P a → Q a)
    → OnOk P r
    → OnOk Q r
OnOk-map P Q (ok a) f h = f a h
OnOk-map P Q (err e) f h = tt

pub OnOk-both {ℓ κ μ} :
    {A : Type ℓ} (P : A → Type κ) (Q : A → Type μ) (r : Result A)
    → OnOk P r
    → OnOk Q r
    → OnOk (λ a. P a × Q a) r
OnOk-both P Q (ok a) h k = (h, k)
OnOk-both P Q (err e) h k = tt

-- `P` of the branch that a test takes
pub OnOk-if {κ} :
    {W A : Type 0} (P : A → Type κ) (b : Bool) (m n : Eff W A) (w : W)
    → (b ≡ true → OnOk P (m w).0)
    → (b ≡ false → OnOk P (n w).0)
    → OnOk P ((if b then m else n) w).0
OnOk-if P true m n w h k = h refl
OnOk-if P false m n w h k = k refl

pub OnOk-self {ℓ} : {A : Type ℓ} (r : Result A) → OnOk (λ a. r ≡ ok a) r
OnOk-self (ok a) = refl
OnOk-self (err e) = tt

continue-cong {ℓ} :
    {W A B : Type 0} (Q : A → Type ℓ) (r : Result A) (f g : A → Eff W B) (w : W)
    → OnOk Q r
    → ((a : A) → Q a → f a w ≡ g a w)
    → continue r f w ≡ continue r g w
continue-cong Q (ok a) f g w q h = h a q
continue-cong Q (err e) f g w q h = refl

-- two calls that go on alike for every value of the first one's run
pub bind-cong {ℓ} :
    {W A B : Type 0} (Q : A → Type ℓ) (m : Eff W A) (f g : A → Eff W B) (w : W)
    → OnOk Q (m w).0
    → ((a : A) (w' : W) → Q a → f a w' ≡ g a w')
    → (m >>= f) w ≡ (m >>= g) w
bind-cong Q m f g w q h = let (r, w') = m w in continue-cong Q r f g w' q (λ a. h a w')

-- `P` holds of two calls' values, if both returned
abbrev pub Agree {ℓ κ} : {A : Type ℓ} → (A → A → Type κ) → Result A → Result A → Type κ
Agree P (ok a) (ok b) = P a b
Agree P (ok a) (err e) = Unit
Agree P (err e) s = Unit

pub Agree-refl {ℓ κ} :
    {A : Type ℓ} (P : A → A → Type κ) (r : Result A) → ((a : A) → P a a) → Agree P r r
Agree-refl P (ok a) h = h a
Agree-refl P (err e) h = tt

Agree-err {ℓ κ} : {A : Type ℓ} (P : A → A → Type κ) (r : Result A) (e : Error) → Agree P r (err e)
Agree-err P (ok a) e = tt
Agree-err P (err d) e = tt

Agree-continue {κ} :
    {W A B : Type 0} (P : B → B → Type κ) (r : Result A) (f g : A → Eff W B) (w : W)
    → ((a : A) → Agree P (f a w).0 (g a w).0)
    → Agree P (continue r f w).0 (continue r g w).0
Agree-continue P (ok a) f g w h = h a
Agree-continue P (err e) f g w h = tt

-- two runs that begin with the same call
pub Agree-bind {κ} :
    {W A B : Type 0} (P : B → B → Type κ) (m : Eff W A) (f g : A → Eff W B) (w : W)
    → ((a : A) (w' : W) → Agree P (f a w').0 (g a w').0)
    → Agree P ((m >>= f) w).0 ((m >>= g) w).0
Agree-bind P m f g w h = let (r, w') = m w in Agree-continue P r f g w' (λ a. h a w')

Agree-apart {κ} :
    {W A C B : Type 0} (P : B → B → Type κ) (r : Result A) (s : Result C) (f : A → Eff W B)
    (g : C → Eff W B) (w v : W)
    → ((a : A) (c : C) → Agree P (f a w).0 (g c v).0)
    → Agree P (continue r f w).0 (continue s g v).0
Agree-apart P (ok a) (ok c) f g w v h = h a c
Agree-apart P (ok a) (err e) f g w v h = Agree-err P (f a w).0 e
Agree-apart P (err e) s f g w v h = tt

-- two runs that begin with different calls
pub Agree-both {κ} :
    {W A C B : Type 0} (P : B → B → Type κ) (m : Eff W A) (n : Eff W C) (f : A → Eff W B)
    (g : C → Eff W B) (w v : W)
    → ((a : A) (c : C) (w' v' : W) → Agree P (f a w').0 (g c v').0)
    → Agree P ((m >>= f) w).0 ((n >>= g) v).0
Agree-both P m n f g w v h =
    let (r, w') = m w in let (s, v') = n v in Agree-apart P r s f g w' v' (λ a c. h a c w' v')
