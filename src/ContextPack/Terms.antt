-- ===== src/ContextPack/Terms.antt =====
-- se_support/support/context_pack.py: the query terms of an issue. The word characters of the
-- patterns are the ASCII ones.
use coding_agent_support.Base.{
  ℕ, zero, suc, ◌+◌, ◌-◌, Bool, true, false, not, ◌&&◌, ◌||◌, leb, ltb, Option, none, some, List,
  [], ◌∷◌, ◌++◌, map, reverse, Text, codes, strip, lower, text_ltb, take, drop, length, is_empty,
  contains, Dict, lookup, insert, if◌then◌else◌, ◌==◌, list_eq, nat_eq, is_digit,
}
use coding_agent_support.Task.{TaskSpec}

unfoldable pub stopwords : List Text
stopwords = map codes (
    "the" ∷ "and" ∷ "for" ∷ "that" ∷ "this" ∷ "with" ∷ "from" ∷ "have" ∷ "not" ∷ "but" ∷ "you"
    ∷ "are" ∷ "was" ∷ "were" ∷ "when" ∷ "then" ∷ "would" ∷ "should" ∷ "could" ∷ "which" ∷ "into"
    ∷ "your" ∷ "will" ∷ "there" ∷ "their" ∷ "what" ∷ "about" ∷ "here" ∷ "code" ∷ "issue" ∷ "bug"
    ∷ "error" ∷ "test" ∷ "tests" ∷ "python" ∷ "def" ∷ "class" ∷ "self" ∷ "return" ∷ "true" ∷ "false"
    ∷ "none" ∷ "value" ∷ "values" ∷ "using" ∷ "use" ∷ [])

unfoldable pub starts_ident : ℕ → Bool
starts_ident c = (leb b'A' c && leb c b'Z') || (leb b'a' c && leb c b'z') || c == b'_'

unfoldable pub is_word : ℕ → Bool
unfolding starts_ident is_digit
is_word c = starts_ident c || is_digit c

-- a run of three characters or more
abbrev pub keep_ident : Text → List Text → List Text
keep_ident cur rest = if leb 3 (length cur) then reverse cur ∷ rest else rest

-- `cur` is the reversed identifier that has begun, if it is not empty.
unfoldable pub idents_from : Text → Text → List Text
unfolding starts_ident is_word
idents_from cur [] = keep_ident cur []
idents_from [] (c ∷ s) = idents_from (if starts_ident c then c ∷ [] else []) s
idents_from (d ∷ cur) (c ∷ s) = elim (is_word c) [
  | true ↦ idents_from (c ∷ d ∷ cur) s
  | false ↦ keep_ident (d ∷ cur) (idents_from [] s)
]

-- `_IDENT.findall(text)`
unfoldable pub idents : Text → List Text
unfolding idents_from
idents text = idents_from [] text

take_while : (ℕ → Bool) → Text → Text
take_while p [] = []
take_while p (c ∷ s) = let rest = take_while p s in if p c then c ∷ rest else []

drop_dots : Text → Text
drop_dots [] = []
drop_dots (c ∷ s) = let rest = drop_dots s in if c == b'.' then rest else c ∷ s

-- the text before the next backtick, if there is one
before_tick : Text → Text → Option Text
before_tick cur [] = none
before_tick cur (c ∷ s) = elim (c == b'`') [
  | true ↦ some (reverse cur)
  | false ↦ before_tick (c ∷ cur) s
]

quoted_span : Option Text → Option (Text × ℕ)
quoted_span none = none
quoted_span (some []) = none
quoted_span (some (c ∷ s)) = some (c ∷ s, length s + 3)

dotted_tail : Text → Text → Option (Text × ℕ)
unfolding starts_ident is_word take_while drop_dots
dotted_tail head [] = none
dotted_tail head (c ∷ s) =
    if starts_ident c
    then (let tail =
          reverse (drop_dots (reverse (take_while (λ d. is_word d || d == b'.') (c ∷ s)))) in
        let span = head ++ codes "." ++ tail in some (span, length span))
    else none

-- behind the first identifier `head` of a dotted symbol
dotted_rest : Text → Text → Option (Text × ℕ)
unfolding dotted_tail
dotted_rest head [] = none
dotted_rest head (c ∷ s) = if c == b'.' then dotted_tail head s else none

-- the match of `_SYMBOL` at the head of the text, with its group and length; `after_word` tells
-- whether a word character stands before
unfoldable pub symbol_at : Bool → Text → Option (Text × ℕ)
unfolding before_tick quoted_span dotted_rest take_while starts_ident is_word
symbol_at after_word [] = none
symbol_at after_word (c ∷ s) =
    if c == b'`'
    then quoted_span (before_tick [] s)
    else if not after_word && starts_ident c
    then (let head = take_while is_word (c ∷ s) in dotted_rest head (drop (length head) (c ∷ s)))
    else none

-- the groups of `_SYMBOL.finditer(text)`; `skip` characters belong to the last match
unfoldable pub symbols_from : Bool → ℕ → Text → List Text
unfolding symbol_at is_word
symbols_from after_word skip [] = []
symbols_from after_word (suc skip) (c ∷ s) = symbols_from (is_word c) skip s
symbols_from after_word zero (c ∷ s) = elim (symbol_at after_word (c ∷ s)) [
  | none ↦ symbols_from (is_word c) 0 s
  | some (span, n) ↦ span ∷ symbols_from (is_word c) (n - 1) s
]

-- the identifiers in the stripped spans
unfoldable pub boosted_from : List Text → List Text
unfolding idents strip
boosted_from [] = []
boosted_from (span ∷ spans) = idents (strip span) ++ boosted_from spans

abbrev pub count_of : Text → Dict Text ℕ → ℕ
count_of tok counts = elim (lookup tok counts) [ none ↦ 0 | some n ↦ n ]

-- the loops that count the identifiers and boost those of symbols
unfoldable pub add_counts : ℕ → List Text → Dict Text ℕ → Dict Text ℕ
add_counts n [] counts = counts
add_counts n (tok ∷ toks) counts = add_counts n toks (insert tok (count_of tok counts + n) counts)

unfoldable pub not_stopwords : List Text → List Text
unfolding stopwords lower
not_stopwords [] = []
not_stopwords (tok ∷ toks) =
    let rest = not_stopwords toks in if contains stopwords (lower tok) then rest else tok ∷ rest

-- the order of `(-counts[t], t.lower())`
unfoldable pub ranks_before : Text × ℕ → Text × ℕ → Bool
unfolding text_ltb lower
ranks_before (s, m) (t, n) = ltb n m || (m == n && text_ltb (lower s) (lower t))

insert_term : Text × ℕ → Dict Text ℕ → Dict Text ℕ
insert_term a [] = a ∷ []
insert_term a (b ∷ rest) = elim (ranks_before b a) [
  | true ↦ b ∷ insert_term a rest
  | false ↦ a ∷ b ∷ rest
]

unfoldable pub sort_terms : Dict Text ℕ → Dict Text ℕ
unfolding insert_term ranks_before
sort_terms [] = []
sort_terms (a ∷ rest) = insert_term a (sort_terms rest)

-- `" ".join(filter(None, [title, body]))`
unfoldable pub issue_text : TaskSpec → Text
issue_text task =
    if is_empty task.issue_title
    then task.issue_body
    else if is_empty task.issue_body
    then task.issue_title
    else task.issue_title ++ codes " " ++ task.issue_body

unfoldable pub issue_query_terms : TaskSpec → ℕ → List Text
unfolding issue_text symbols_from boosted_from idents not_stopwords add_counts sort_terms
issue_query_terms task limit =
    let text = issue_text task in
    let counts =
      add_counts 5 (boosted_from (symbols_from false 0 text))
        (add_counts 1 (not_stopwords (idents text)) []) in
    take limit (map (λ p. p.0) (sort_terms counts))
