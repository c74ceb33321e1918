-- ===== src/Base/Distinct.antt =====
-- Lists of texts without repetitions.
use mathlib.Core.Path.{◌≡◌, refl}
use mathlib.Core.Bool.{false, ◌||◌}
use mathlib.Core.List.{List, [], ◌∷◌, ◌++◌}
use native.Mathlib.Omega.{arith}
use coding_agent_support.Base.Equality.{◌==◌, ==_iff, list_eq, nat_eq}
use coding_agent_support.Base.Lists.{contains}
use coding_agent_support.Base.Texts.{Text}

-- no text stands twice
abbrev pub IsDistinct : List Text → Type 0
IsDistinct [] = Unit
IsDistinct (p ∷ ps) = (contains ps p ≡ false) × IsDistinct ps

pub contains-snoc :
    (ps : List Text) (p q : Text) → contains (ps ++ p ∷ []) q ≡ (contains ps q || p == q)
contains-snoc [] p q = ground arith
contains-snoc (x ∷ ps) p q = ground (arith, contains-snoc ps p q)

pub IsDistinct-snoc :
    (ps : List Text) (p : Text) → IsDistinct ps → contains ps p ≡ false → IsDistinct (ps ++ p ∷ [])
IsDistinct-snoc [] p d h = (refl, tt)
IsDistinct-snoc (x ∷ ps) p d h = (
  rw contains-snoc (ground (arith, ==_iff p x, ==_iff x p)),
  IsDistinct-snoc ps p d.1 (ground arith),
)
