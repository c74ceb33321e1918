-- ===== src/Analysis/Keys.antt =====
-- The sorted tasks that two conditions have in common.
use coding_agent_support.Base.{
  ◌≡◌, Bool-cases, inl, inr, refl, Bool, true, ◌&&◌, ◌||◌, List, [], ◌∷◌, Text, Dict, filter,
  contains, insert_sorted, text_ltb, text_ltb_trichotomy, arith, ◌==◌, ==_iff, list_eq, nat_eq,
}
use coding_agent_support.Analysis.{common, keys, has_key, sorted_keys}

contains-insert_sorted :
    (a : Text) (s : List Text) (k : Text)
    → contains (insert_sorted a s) k ≡ (a == k || contains s k)
unfolding insert_sorted
contains-insert_sorted a [] k = refl
contains-insert_sorted a (b ∷ s) k =
    ground (arith, contains-insert_sorted a s k, text_ltb_trichotomy a b, ==_iff a k, ==_iff b k)

contains-sorted_keys : (ks : List Text) (k : Text) → contains (sorted_keys ks) k ≡ contains ks k
unfolding sorted_keys
contains-sorted_keys [] k = refl
contains-sorted_keys (j ∷ ks) k =
    ground (arith, contains-insert_sorted j (sorted_keys ks) k, contains-sorted_keys ks k)

contains-filter :
    (p : Text → Bool) (ks : List Text) (k : Text)
    → contains (filter p ks) k ≡ (contains ks k && p k)
contains-filter p [] k = refl
contains-filter p (j ∷ ks) k = ground (arith, contains-filter p ks k, ==_iff j k)

contains-keys : (d : Dict Text Bool) (k : Text) → contains (keys d) k ≡ has_key d k
contains-keys [] k = refl
contains-keys ((j, v) ∷ d) k = ground (arith, contains-keys d k)

pub contains-common :
    (t b : Dict Text Bool) (k : Text) → contains (common t b) k ≡ (has_key t k && has_key b k)
unfolding common
contains-common t b k = ground (
  arith,
  contains-sorted_keys (filter (has_key b) (keys t)) k,
  contains-filter (has_key b) (keys t) k,
  contains-keys t k,
)

-- each text is before the next one
abbrev pub Increasing : List Text → Type 0
Increasing [] = Unit
Increasing (a ∷ []) = Unit
Increasing (a ∷ b ∷ s) = (text_ltb a b ≡ true) × Increasing (b ∷ s)

abbrev IsBefore : Text → List Text → Type 0
IsBefore a [] = Unit
IsBefore a (b ∷ s) = text_ltb a b ≡ true

Increasing-cons : (a : Text) (s : List Text) → IsBefore a s → Increasing s → Increasing (a ∷ s)
Increasing-cons a [] h k = tt
Increasing-cons a (b ∷ s) h k = (h, k)

Increasing-uncons : (a : Text) (s : List Text) → Increasing (a ∷ s) → IsBefore a s × Increasing s
Increasing-uncons a [] h = (tt, tt)
Increasing-uncons a (b ∷ s) h = h

IsBefore-insert_sorted :
    (b a : Text) (s : List Text)
    → text_ltb b a ≡ true
    → IsBefore b s
    → IsBefore b (insert_sorted a s)
unfolding insert_sorted
IsBefore-insert_sorted b a [] e h = e
IsBefore-insert_sorted b a (c ∷ s) e h = elim (Bool-cases (text_ltb a c)) [
  | inl f ↦ rw (f, insert_sorted) e
  | inr f ↦ rw (f, insert_sorted) h
]

Increasing-insert_sorted :
    (a : Text) (s : List Text) → Increasing s → Increasing (insert_sorted a s)
unfolding insert_sorted
Increasing-insert_sorted a [] h = tt
Increasing-insert_sorted a (b ∷ s) h = elim (Bool-cases (text_ltb a b)) [
  | inl e ↦ rw (e, insert_sorted) (e, h)
  | inr e ↦ elim (Bool-cases (text_ltb b a)) [
    | inl f ↦
        let (before, tail) = Increasing-uncons b s h in
        rw (e, f, insert_sorted)
          (Increasing-cons b (insert_sorted a s) (IsBefore-insert_sorted b a s f before)
            (Increasing-insert_sorted a s tail))
    | inr f ↦ rw (e, f, insert_sorted) h
  ]
]

pub Increasing-sorted_keys : (ks : List Text) → Increasing (sorted_keys ks)
unfolding sorted_keys
Increasing-sorted_keys [] = tt
Increasing-sorted_keys (k ∷ ks) =
    Increasing-insert_sorted k (sorted_keys ks) (Increasing-sorted_keys ks)
