-- ===== src/Audit/Parts.antt =====
-- The parts that a patch is cut into at its headers, and what they are put together.
use coding_agent_support.Base.{
  ℕ, ◌≡◌, refl, sym, ap, ◌∙◌, Bool, true, false, ◌&&◌, List, [], ◌∷◌, ◌++◌, All, Text, codes, strip,
  is_empty, starts_with, arith, if◌then◌else◌, ◌==◌, nat_eq, list_eq, inl, inr, Bool-cases, reverse,
  lstrip, is_space, subst,
}
use mathlib.Core.List.{reverse-cons}
use coding_agent_support.Audit.{push_char, split_parts, is_blank_part}

unfoldable pub concat : List Text → Text
concat [] = []
concat (p ∷ ps) = p ++ concat ps

-- only the parts that are not blank
unfoldable pub solid : List Text → Text
solid [] = []
solid (p ∷ ps) = let rest = solid ps in if is_blank_part p then rest else p ++ rest

concat-push_char : (c : ℕ) (ps : List Text) → concat (push_char c ps) ≡ c ∷ concat ps
unfolding concat push_char
concat-push_char c [] = refl
concat-push_char c (p ∷ ps) = refl

concat-if : (b : Bool) (ps : List Text) → concat (if b then [] ∷ ps else ps) ≡ concat ps
unfolding concat
concat-if true ps = refl
concat-if false ps = refl

-- the parts are the text, cut
pub concat-split_parts : (at_start : Bool) (s : Text) → concat (split_parts at_start s) ≡ s
unfolding concat split_parts
concat-split_parts at_start [] = refl
concat-split_parts at_start (c ∷ s) =
    concat-if (at_start && starts_with (c ∷ s) (codes "diff --git ")) _
    ∙ concat-push_char c (split_parts (c == 10) s)
    ∙ ap (λ t. c ∷ t) (concat-split_parts (c == 10) s)

is_empty-snoc : (xs : Text) (d : ℕ) → is_empty (xs ++ d ∷ []) ≡ false
is_empty-snoc [] d = refl
is_empty-snoc (x ∷ xs) d = refl

is_empty-reverse : (xs : Text) → is_empty xs ≡ false → is_empty (reverse xs) ≡ false
is_empty-reverse [] h = cc
is_empty-reverse (x ∷ xs) h = rw (reverse-cons x xs) (is_empty-snoc (reverse xs) x)

is_empty-lstrip-snoc :
    (xs : Text) (d : ℕ) → is_space d ≡ false → is_empty (lstrip (xs ++ d ∷ [])) ≡ false
unfolding lstrip
is_empty-lstrip-snoc [] d h = rw (h, lstrip) refl
is_empty-lstrip-snoc (x ∷ xs) d h = elim (Bool-cases (is_space x)) [
  | inl e ↦ rw (e, lstrip) (is_empty-lstrip-snoc xs d h)
  | inr e ↦ rw (e, lstrip) refl
]

lstrip-cons : (d : ℕ) (s : Text) → is_space d ≡ false → lstrip (d ∷ s) ≡ d ∷ s
unfolding lstrip
lstrip-cons d s h = rw (h, lstrip) refl

-- a text that begins with no space is not blank
not_blank : (d : ℕ) (s : Text) → is_space d ≡ false → is_blank_part (d ∷ s) ≡ false
unfolding strip
not_blank d s h = is_empty-reverse (lstrip (reverse (lstrip (d ∷ s)))) (
    subst (λ t. is_empty (lstrip (reverse t)) ≡ false) (sym (lstrip-cons d s h))
      (subst (λ t. is_empty (lstrip t) ≡ false) (sym (reverse-cons d s))
        (is_empty-lstrip-snoc (reverse s) d h)))

first-eq : (c d : ℕ) (s p : Text) → starts_with (c ∷ s) (d ∷ p) ≡ true → c ≡ d
unfolding starts_with
first-eq c d s p h = ground (arith, h)

abbrev pub IsHeaded : Text → Type 0
IsHeaded s = starts_with s (codes "diff --git ") ≡ true

headed_not_blank : (s : Text) → IsHeaded s → is_blank_part s ≡ false
unfolding codes is_space starts_with
headed_not_blank [] h = cc
headed_not_blank (c ∷ s) h =
    subst (λ x. is_blank_part (x ∷ s) ≡ false) (sym (first-eq c b'd' s (codes "iff --git ") h))
      (not_blank b'd' s refl)

-- all parts but the first begin with a header
abbrev pub BeginWell : List Text → Type 0
BeginWell [] = Unit
BeginWell (p ∷ ps) = All IsHeaded ps

abbrev head_of : List Text → Text
head_of [] = []
head_of (p ∷ ps) = p

BeginWell-push_char : (c : ℕ) (ps : List Text) → BeginWell ps → BeginWell (push_char c ps)
unfolding push_char
BeginWell-push_char c [] h = tt
BeginWell-push_char c (p ∷ ps) h = h

abbrev tail_of : List Text → List Text
tail_of [] = []
tail_of (p ∷ ps) = ps

head_of-push_char : (c : ℕ) (ps : List Text) → head_of (push_char c ps) ≡ c ∷ head_of ps
unfolding push_char
head_of-push_char c [] = refl
head_of-push_char c (p ∷ ps) = refl

All-IsHeaded : (ps : List Text) → IsHeaded (head_of ps) → BeginWell ps → All IsHeaded ps
All-IsHeaded [] h w = tt
All-IsHeaded (p ∷ ps) h w = (h, w)

and_parts : (x y : Bool) → x && y ≡ true → (x ≡ true) × (y ≡ true)
and_parts true y h = (refl, h)
and_parts false y h = cc

and_intro : (x y : Bool) → x ≡ true → y ≡ true → x && y ≡ true
and_intro x y h k = rw (h, k) refl

-- the first part begins as the text does, as long as the line goes on
head_of-split_parts :
    (s pre : Text)
    → All (λ c. (c == 10) ≡ false) pre
    → starts_with s pre ≡ true
    → starts_with (head_of (split_parts false s)) pre ≡ true
unfolding split_parts starts_with
head_of-split_parts s [] n h = refl
head_of-split_parts [] (d ∷ pre) n h = cc
head_of-split_parts (c ∷ s) (d ∷ pre) n h =
    subst (λ t. starts_with t (d ∷ pre) ≡ true)
      (sym (head_of-push_char c (split_parts (c == 10) s)))
      (and_intro (c == d) _ (and_parts (c == d) _ h).0 (
        subst (λ b. starts_with (head_of (split_parts b s)) pre ≡ true)
          (sym (subst (λ x. (x == 10) ≡ false) (sym (first-eq c d s pre h)) n.0))
          (head_of-split_parts s pre n.1 (and_parts (c == d) _ h).1)))

one_line : All (λ c. (c == 10) ≡ false) (codes "diff --git ")
unfolding codes
one_line =
    (refl, (refl, (refl, (refl, (refl, (refl, (refl, (refl, (refl, (refl, (refl, tt)))))))))))

pub BeginWell-split_parts : (b : Bool) (s : Text) → BeginWell (split_parts b s)
unfolding split_parts
BeginWell-split_parts b [] = tt
BeginWell-split_parts b (c ∷ s) =
    let rest = BeginWell-push_char c _ (BeginWell-split_parts (c == 10) s) in
    elim (Bool-cases (b && starts_with (c ∷ s) (codes "diff --git "))) [
      | inl e ↦
          rw (e, split_parts)
            (All-IsHeaded _
              (head_of-split_parts (c ∷ s) (codes "diff --git ") one_line (and_parts b _ e).1) rest)
      | inr e ↦ rw (e, split_parts) rest
    ]

pub none_of : {s : Text} → is_empty s ≡ true → s ≡ []
none_of {s = []} h = refl
none_of {s = c ∷ s} h = cc

-- behind a text that is blank, the parts that are not blank are the text
solid-IsHeaded : (ps : List Text) → All IsHeaded ps → solid ps ≡ concat ps
unfolding solid concat
solid-IsHeaded [] h = refl
solid-IsHeaded (p ∷ ps) h =
    rw (headed_not_blank p h.0, solid) (ap (λ t. p ++ t) (solid-IsHeaded ps h.1))

pub solid-concat :
    (ps : List Text)
    → BeginWell ps
    → (lead : Text) × ((strip lead ≡ []) × (concat ps ≡ lead ++ solid ps))
unfolding solid concat strip lstrip
solid-concat [] w = ([], (refl, refl))
solid-concat (p ∷ ps) w = elim (Bool-cases (is_blank_part p)) [
  | inl e ↦ rw (e, solid) (p, (none_of e, ap (λ t. p ++ t) (sym (solid-IsHeaded ps w))))
  | inr e ↦ rw (e, solid) ([], (refl, ap (λ t. p ++ t) (sym (solid-IsHeaded ps w))))
]
