-- ===== src/Base/Containing.antt =====
-- What is contained in a text that is put together of others.
use mathlib.Core.Path.{◌≡◌, refl}
use mathlib.Core.Bool.{true}
use mathlib.Core.List.{List, [], ◌∷◌, ◌++◌}
use native.Mathlib.Omega.{arith}
use coding_agent_support.Base.Equality.{nat_eq}
use coding_agent_support.Base.Texts.{Text, starts_with, has_text, join}

has_text-of-starts_with : (s p : Text) → starts_with s p ≡ true → has_text s p ≡ true
unfolding has_text
has_text-of-starts_with [] p h = h
has_text-of-starts_with (c ∷ s) p h = ground (arith, h)

pub has_text-append-right : (a s p : Text) → has_text s p ≡ true → has_text (a ++ s) p ≡ true
unfolding has_text
has_text-append-right [] s p h = h
has_text-append-right (c ∷ a) s p h = ground (arith, has_text-append-right a s p h)

starts_with-append : (s b p : Text) → starts_with s p ≡ true → starts_with (s ++ b) p ≡ true
unfolding starts_with
starts_with-append s b [] h = refl
starts_with-append [] b (d ∷ p) h = cc
starts_with-append (c ∷ s) b (d ∷ p) h = ground (arith, starts_with-append s b p)

pub has_text-append-left : (s b p : Text) → has_text s p ≡ true → has_text (s ++ b) p ≡ true
unfolding has_text
has_text-append-left [] b p h = has_text-of-starts_with b p (starts_with-append [] b p h)
has_text-append-left (c ∷ s) b p h =
    ground (arith, h, starts_with-append (c ∷ s) b p, has_text-append-left s b p)

pub has_text-join :
    (sep s : Text) (rest : List Text) (p : Text)
    → has_text s p ≡ true
    → has_text (join sep (s ∷ rest)) p ≡ true
unfolding join
has_text-join sep s [] p h = h
has_text-join sep s (t ∷ rest) p h =
    has_text-append-left (s ++ sep) (join sep (t ∷ rest)) p (has_text-append-left s sep p h)
