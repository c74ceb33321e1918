-- ===== src/Base/Numerals.antt =====
-- `int(text)` for decimal ASCII text: an optional sign, digits with single underscores between
-- them, and white space around. `none` stands for ValueError.
use Prim.Native.Nat.{ℕ, ◌+◌, ◌-◌, ◌*◌}
use mathlib.Core.Bool.{Bool, true, false, ◌&&◌}
use mathlib.Core.Option.{Option, none, some}
use mathlib.Core.List.{[], ◌∷◌}
use coding_agent_support.Base.Tests.{leb, if◌then◌else◌}
use coding_agent_support.Base.Equality.{◌==◌, nat_eq}
use coding_agent_support.Base.Texts.{Text, strip}
use coding_agent_support.Base.Integers.{ℤ, pos, negsuc}

unfoldable pub is_digit : ℕ → Bool
is_digit c = leb b'0' c && leb c b'9'

-- the value of the digits read and of those to come; `after_digit` tells whether the last character
-- was a digit
digits_from : ℕ → Bool → Text → Option ℕ
unfolding is_digit
digits_from n after_digit [] = if after_digit then some n else none
digits_from n after_digit (c ∷ s) = elim (is_digit c) [
  | true ↦ digits_from (n * 10 + (c - b'0')) true s
  | false ↦ elim (c == b'_' && after_digit) [ true ↦ digits_from n false s | false ↦ none ]
]

negated : Option ℕ → Option ℤ
negated none = none
negated (some n) = some (elim n [ ℕ.zero ↦ pos 0 | ℕ.suc k ↦ negsuc k ])

positive : Option ℕ → Option ℤ
positive none = none
positive (some n) = some (pos n)

signed : Text → Option ℤ
unfolding digits_from negated positive
signed [] = none
signed (c ∷ s) =
    if c == b'-'
    then negated (digits_from 0 false s)
    else if c == b'+'
    then positive (digits_from 0 false s)
    else positive (digits_from 0 false (c ∷ s))

unfoldable pub parse_int : Text → Option ℤ
unfolding signed
parse_int text = signed (strip text)
