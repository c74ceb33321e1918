-- ===== src/Base/Joining.antt =====
-- Texts of one line each, joined by line feeds, and taken apart again.
use Prim.Native.Nat.{ℕ}
use mathlib.Core.Path.{◌≡◌, refl, sym, ap, ◌∙◌}
use mathlib.Core.Bool.{false, ◌||◌}
use mathlib.Core.List.{List, [], ◌∷◌, ◌++◌, append_assoc}
use native.Mathlib.Omega.{arith}
use coding_agent_support.Base.Tests.{if◌then◌else◌}
use coding_agent_support.Base.Equality.{◌==◌, nat_eq}
use coding_agent_support.Base.Lists.{contains, is_empty, All}
use coding_agent_support.Base.Texts.{Text, codes, join}

pub contains-append : (s t : Text) (c : ℕ) → contains (s ++ t) c ≡ (contains s c || contains t c)
contains-append [] t c = refl
contains-append (d ∷ s) t c = ground (arith, contains-append s t c)

-- a text that stands on one line, and is not the empty one
abbrev pub IsLine : Text → Type 0
IsLine t = (contains t 10 ≡ false) × (is_empty t ≡ false)

-- the lines of a text
cons_head : ℕ → List Text → List Text
cons_head c [] = (c ∷ []) ∷ []
cons_head c (l ∷ ls) = (c ∷ l) ∷ ls

unfoldable lines_of : Text → List Text
unfolding cons_head
lines_of [] = [] ∷ []
lines_of (c ∷ s) = if c == 10 then [] ∷ lines_of s else cons_head c (lines_of s)

lines_of-one : (p : Text) → contains p 10 ≡ false → lines_of p ≡ p ∷ []
unfolding lines_of cons_head
lines_of-one [] h = refl
lines_of-one (c ∷ p) h = ground (arith, lines_of-one p)

lines_of-piece : (p t : Text) → contains p 10 ≡ false → lines_of (p ++ 10 ∷ t) ≡ p ∷ lines_of t
unfolding lines_of cons_head
lines_of-piece [] t h = refl
lines_of-piece (c ∷ p) t h = ground (arith, lines_of-piece p t)

lines_of-join :
    (p : Text) (ps : List Text)
    → All IsLine (p ∷ ps)
    → lines_of (join (codes "\n") (p ∷ ps)) ≡ p ∷ ps
unfolding join codes
lines_of-join p [] h = lines_of-one p h.0.0
lines_of-join p (q ∷ ps) h =
    ap lines_of (append_assoc p (codes "\n") (join (codes "\n") (q ∷ ps)))
    ∙ lines_of-piece p (join (codes "\n") (q ∷ ps)) h.0.0
    ∙ ap (λ ls. p ∷ ls) (lines_of-join q ps h.1)

is_empty-join :
    (p : Text) (ps : List Text) → is_empty p ≡ false → is_empty (join (codes "\n") (p ∷ ps)) ≡ false
unfolding join codes
is_empty-join [] ps h = cc
is_empty-join (c ∷ p) [] h = refl
is_empty-join (c ∷ p) (q ∷ ps) h = refl

pub join-injective :
    (ps qs : List Text)
    → All IsLine ps
    → All IsLine qs
    → join (codes "\n") ps ≡ join (codes "\n") qs
    → ps ≡ qs
unfolding join
join-injective [] [] h k e = refl
join-injective [] (q ∷ qs) h k e = absurd (cc (is_empty-join q qs k.0.1))
join-injective (p ∷ ps) [] h k e = absurd (cc (is_empty-join p ps h.0.1))
join-injective (p ∷ ps) (q ∷ qs) h k e =
    sym (lines_of-join p ps h) ∙ ap lines_of e ∙ lines_of-join q qs k
