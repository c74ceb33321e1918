-- ===== src/Base/Texts.antt =====
-- Python's `str` as the list of its code points, with the methods that the program calls. Case
-- mapping is that of ASCII letters.
use Prim.Native.Nat.{ℕ, zero, suc, ◌+◌, ◌-◌, ◌/◌, ◌%◌}
use Prim.Native.Char.{code}
use Prim.Native.String.{String}
use mathlib.Core.Path.{◌≡◌, refl}
use mathlib.Core.Logic.{◌≢◌}
use native.Mathlib.Omega.{arith}
use mathlib.Core.Bool.{Bool, true, false, ◌&&◌, ◌||◌}
use mathlib.Core.List.{List, [], ◌∷◌, ◌++◌, map, reverse}
use coding_agent_support.Base.Tests.{leb, ltb, if◌then◌else◌}
use coding_agent_support.Base.Equality.{◌==◌, nat_eq}
use coding_agent_support.Base.Lists.{length, take, drop, is_empty}

abbrev pub Text : Type 0
Text = List ℕ

-- A literal of the source.
unfoldable pub codes : String → Text
codes String.[] = []
codes (String.◌∷◌ c s) = code c ∷ codes s

-- `str.isspace` of one character
unfoldable pub is_space : ℕ → Bool
is_space c =
    (leb 9 c && leb c 13)
    || (leb 28 c && leb c 32)
    || c == 0x85
    || c == 0xa0
    || c == 0x1680
    || (leb 0x2000 c && leb c 0x200a)
    || c == 0x2028
    || c == 0x2029
    || c == 0x202f
    || c == 0x205f
    || c == 0x3000

unfoldable pub lstrip : Text → Text
unfolding is_space
lstrip [] = []
lstrip (c ∷ s) = let rest = lstrip s in if is_space c then rest else c ∷ s

-- `s.strip()`
unfoldable pub strip : Text → Text
unfolding lstrip
strip s = reverse (lstrip (reverse (lstrip s)))

-- `s.startswith(p)`
unfoldable pub starts_with : Text → Text → Bool
starts_with s [] = true
starts_with [] (p ∷ ps) = false
starts_with (c ∷ s) (p ∷ ps) = c == p && starts_with s ps

-- `s.endswith(p)`
unfoldable pub ends_with : Text → Text → Bool
unfolding starts_with
ends_with s p = starts_with (reverse s) (reverse p)

-- `p in s`
unfoldable pub has_text : Text → Text → Bool
unfolding starts_with
has_text [] p = starts_with [] p
has_text (c ∷ s) p = starts_with (c ∷ s) p || has_text s p

-- the line boundaries of `str.splitlines`
unfoldable pub is_break : ℕ → Bool
is_break c =
    (leb 10 c && leb c 13) || (leb 28 c && leb c 30) || c == 0x85 || c == 0x2028 || c == 0x2029

-- the lines of what is left, where the reversed `cur` was read of the first one; `cr` tells whether
-- the last character was a carriage return, behind which a line feed ends no further line
unfoldable pub lines_from : Bool → Text → Text → List Text
unfolding is_break
lines_from cr cur [] = if is_empty cur then [] else reverse cur ∷ []
lines_from cr cur (c ∷ s) = elim (cr && c == 10) [
  | true ↦ lines_from false cur s
  | false ↦ elim (is_break c) [
    | true ↦ reverse cur ∷ lines_from (c == 13) [] s
    | false ↦ lines_from false (c ∷ cur) s
  ]
]

-- `s.splitlines()`
unfoldable pub split_lines : Text → List Text
unfolding lines_from
split_lines s = lines_from false [] s

unfoldable pub upper_char : ℕ → ℕ
upper_char c = if leb b'a' c && leb c b'z' then c - 32 else c

unfoldable pub lower_char : ℕ → ℕ
lower_char c = if leb b'A' c && leb c b'Z' then c + 32 else c

-- `s.upper()`
unfoldable pub upper : Text → Text
unfolding upper_char
upper = map upper_char

-- `s.lower()`
unfoldable pub lower : Text → Text
unfolding lower_char
lower = map lower_char

-- what is left of `s` behind the prefix `p`, `s[len(p):]`
abbrev pub after : Text → Text → Text
after p s = drop (length p) s

-- `s[-n:]` for a positive `n`
abbrev pub take_last : ℕ → Text → Text
take_last n s = drop (length s - n) s

-- `s[:-n]`
abbrev pub drop_last : ℕ → Text → Text
drop_last n s = take (length s - n) s

-- `sep.join(parts)`
unfoldable pub join : Text → List Text → Text
join sep [] = []
join sep (s ∷ []) = s
join sep (s ∷ t ∷ rest) = s ++ sep ++ join sep (t ∷ rest)

-- `s.replace(a, b)` for single characters
unfoldable pub replace_char : ℕ → ℕ → Text → Text
replace_char a b = map (λ c. if c == a then b else c)

-- `s.split(sep)` for a single character; `cur` is the reversed piece so far
unfoldable pub split_from : ℕ → Text → Text → List Text
split_from sep cur [] = reverse cur ∷ []
split_from sep cur (c ∷ s) = elim (c == sep) [
  | true ↦ reverse cur ∷ split_from sep [] s
  | false ↦ split_from sep (c ∷ cur) s
]

unfoldable pub split_char : ℕ → Text → List Text
unfolding split_from
split_char sep s = split_from sep [] s

-- `s.rsplit(sep, 1)[-1]` for a single character
last_from : ℕ → Text → Text → Text
last_from sep cur [] = reverse cur
last_from sep cur (c ∷ s) = last_from sep (if c == sep then [] else c ∷ cur) s

unfoldable pub last_part : ℕ → Text → Text
unfolding last_from
last_part sep s = last_from sep [] s

-- `s.count(p)` for a `p` that is not empty; `skip` characters belong to the last match
count_from : Text → ℕ → Text → ℕ
unfolding starts_with
count_from p skip [] = 0
count_from p (suc skip) (c ∷ s) = count_from p skip s
count_from p zero (c ∷ s) = elim (starts_with (c ∷ s) p) [
  | true ↦ suc (count_from p (length p - 1) s)
  | false ↦ count_from p zero s
]

unfoldable pub count_text : Text → Text → ℕ
unfolding count_from
count_text p s = count_from p 0 s

-- the order of texts by code points
unfoldable pub text_ltb : Text → Text → Bool
text_ltb s [] = false
text_ltb [] (d ∷ t) = true
text_ltb (c ∷ s) (d ∷ t) = if c == d then text_ltb s t else ltb c d

-- a set of texts in increasing order, as `sorted(set)` lists it
unfoldable pub insert_sorted : Text → List Text → List Text
unfolding text_ltb
insert_sorted a [] = a ∷ []
insert_sorted a (b ∷ s) = elim (text_ltb a b) [
  | true ↦ a ∷ b ∷ s
  | false ↦ b ∷ (elim (text_ltb b a) [ true ↦ insert_sorted a s | false ↦ s ])
]

-- the decimal digits of a number; `fuel` bounds their number
unfoldable pub decimal_from : ℕ → ℕ → Text → Text
decimal_from zero n rest = rest
decimal_from (suc fuel) n rest =
    let digits = (b'0' + n % 10) ∷ rest in
    let more = decimal_from fuel (n / 10) digits in if leb 10 n then more else digits

-- `str(n)` of a number that is not negative
unfoldable pub decimal : ℕ → Text
unfolding decimal_from
decimal n = decimal_from (suc n) n []

-- Texts with prefixes that begin differently are told apart by them.
pub starts_with-other :
    (c d : ℕ) (p q s : Text) → c ≢ d → starts_with s (c ∷ p) ≡ true → starts_with s (d ∷ q) ≡ false
unfolding starts_with
starts_with-other c d p q [] ne h = cc
starts_with-other c d p q (x ∷ s) ne h = ground arith

pub starts_with_trans :
    (s p q : Text) → starts_with s p ≡ true → starts_with p q ≡ true → starts_with s q ≡ true
unfolding starts_with
starts_with_trans s p [] h k = refl
starts_with_trans s [] (c ∷ q) h k = cc
starts_with_trans [] (b ∷ p) (c ∷ q) h k = cc
starts_with_trans (a ∷ s) (b ∷ p) (c ∷ q) h k = ground (arith, starts_with_trans s p q)

unfoldable pub insert_in_order : Text → List Text → List Text
insert_in_order a [] = a ∷ []
insert_in_order a (b ∷ s) = elim (text_ltb b a) [
  | true ↦ b ∷ insert_in_order a s
  | false ↦ a ∷ b ∷ s
]

-- `sorted(texts)` of a list
unfoldable pub sort_texts : List Text → List Text
unfolding insert_in_order text_ltb
sort_texts [] = []
sort_texts (a ∷ s) = insert_in_order a (sort_texts s)
