-- ===== src/Base/Sorting.antt =====
-- Sorting texts: the order by code points, and that a sorted list forgets the order it came in.
use mathlib.Core.Path.{◌≡◌, refl, sym, ap₂, ◌∙◌}
use mathlib.Core.Logic.{∥∥₁_elim, inl, inr}
use mathlib.Core.Bool.{true, false}
use native.Mathlib.Omega.{arith}
use mathlib.Core.List.{List, [], ◌∷◌, Perm, Permᴰ}
use mathlib.Core.List.Permᴰ
use coding_agent_support.Base.Tests.{Bool-cases}
use coding_agent_support.Base.Lists.{All}
use coding_agent_support.Base.Texts.{Text, text_ltb, insert_in_order, sort_texts}

pub text_ltb_trichotomy : (a b : Text) → text_ltb a b ≡ false → text_ltb b a ≡ false → a ≡ b
unfolding text_ltb
text_ltb_trichotomy [] [] h k = refl
text_ltb_trichotomy [] (d ∷ b) h k = cc
text_ltb_trichotomy (c ∷ a) [] h k = cc
text_ltb_trichotomy (c ∷ a) (d ∷ b) h k = ground (arith, text_ltb_trichotomy a b)

text_ltb_asymm : (a b : Text) → text_ltb a b ≡ true → text_ltb b a ≡ false
unfolding text_ltb
text_ltb_asymm [] [] h = refl
text_ltb_asymm [] (d ∷ b) h = refl
text_ltb_asymm (c ∷ a) [] h = cc
text_ltb_asymm (c ∷ a) (d ∷ b) h = ground (arith, text_ltb_asymm a b)

text_ltb_trans : (a b c : Text) → text_ltb a b ≡ true → text_ltb b c ≡ true → text_ltb a c ≡ true
unfolding text_ltb
text_ltb_trans a b [] h k = cc
text_ltb_trans a [] (z ∷ c) h k = cc
text_ltb_trans [] (y ∷ b) (z ∷ c) h k = refl
text_ltb_trans (x ∷ a) (y ∷ b) (z ∷ c) h k = ground (arith, text_ltb_trans a b c)

insert_in_order_comm :
    (a b : Text) (s : List Text)
    → insert_in_order a (insert_in_order b s) ≡ insert_in_order b (insert_in_order a s)
unfolding insert_in_order
insert_in_order_comm a b [] =
    ground (arith, text_ltb_trichotomy a b, text_ltb_asymm a b, text_ltb_asymm b a)
insert_in_order_comm a b (c ∷ s) = ground (
  arith,
  insert_in_order_comm a b s,
  text_ltb_trichotomy a b,
  text_ltb_asymm a b,
  text_ltb_asymm b a,
  text_ltb_trans c a b,
  text_ltb_trans c b a,
)

-- equal multisets of texts are sorted alike
Permᴰ-sort_texts : {s t : List Text} → Permᴰ s t → sort_texts s ≡ sort_texts t
unfolding sort_texts
Permᴰ-sort_texts Permᴰ.nil = refl
Permᴰ-sort_texts (Permᴰ.cons e p) = ap₂ insert_in_order e (Permᴰ-sort_texts p)
Permᴰ-sort_texts (Permᴰ.swap {a} {b} {l = l} e f) =
    rw (sym e, sym f) (insert_in_order_comm a b (sort_texts l))
Permᴰ-sort_texts (Permᴰ.trans p q) = Permᴰ-sort_texts p ∙ Permᴰ-sort_texts q

texts_set : IsSet (List Text)
texts_set = hlevel

Permᴰ-insert_in_order : (a : Text) (s : List Text) → Permᴰ (insert_in_order a s) (a ∷ s)
unfolding insert_in_order
Permᴰ-insert_in_order a [] = Permᴰ.refl _
Permᴰ-insert_in_order a (b ∷ s) = elim (Bool-cases (text_ltb b a)) [
  | inl e ↦
      rw (insert_in_order, e)
        (Permᴰ.trans (Permᴰ.cons refl (Permᴰ-insert_in_order a s)) (Permᴰ.swap refl refl))
  | inr e ↦ rw (insert_in_order, e) (Permᴰ.refl _)
]

Permᴰ-sorted : (s : List Text) → Permᴰ (sort_texts s) s
unfolding sort_texts
Permᴰ-sorted [] = Permᴰ.nil
Permᴰ-sorted (a ∷ s) =
    Permᴰ.trans (Permᴰ-insert_in_order a (sort_texts s)) (Permᴰ.cons refl (Permᴰ-sorted s))

pub perm-sort_texts : (s : List Text) → Perm (sort_texts s) s
perm-sort_texts s = ∣ Permᴰ-sorted s ∣₁

All-insert_in_order :
    (P : Text → Type 0) (a : Text) (s : List Text) → P a → All P s → All P (insert_in_order a s)
unfolding insert_in_order
All-insert_in_order P a [] p h = (p, tt)
All-insert_in_order P a (b ∷ s) p h = elim (Bool-cases (text_ltb b a)) [
  | inl e ↦ rw (All, e) (h.0, All-insert_in_order P a s p h.1)
  | inr e ↦ rw (All, e) (p, h)
]

pub All-sort_texts : (P : Text → Type 0) (s : List Text) → All P s → All P (sort_texts s)
unfolding sort_texts
All-sort_texts P [] h = tt
All-sort_texts P (a ∷ s) h = All-insert_in_order P a (sort_texts s) h.0 (All-sort_texts P s h.1)

pub sort_texts-perm : {s t : List Text} → Perm s t → sort_texts s ≡ sort_texts t
sort_texts-perm p = ∥∥₁_elim p (texts_set _ _) Permᴰ-sort_texts
