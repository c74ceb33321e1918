-- ===== src/Helper/Provenance.antt =====
-- se_support/support/repro_tests/provenance.py: literals that the issue does not account for.
use coding_agent_support.Base.{
  ℕ, suc, Bool, true, false, not, ◌&&◌, ◌||◌, List, [], ◌∷◌, Text, lower, is_space, has_text,
  filter, length, is_empty, leb, ltb, if◌then◌else◌,
}

-- `re.sub(r"\s+", " ", text)`; `inside` tells whether the character before was white space
unfoldable pub collapse : Bool → Text → Text
unfolding is_space
collapse inside [] = []
collapse inside (c ∷ s) = elim (is_space c) [
  | true ↦ if inside then collapse true s else b' ' ∷ collapse true s
  | false ↦ c ∷ collapse false s
]

unfoldable pub normalize : Text → Text
unfolding collapse lower
normalize s = collapse false (lower s)

-- `len(s.split())`; `inside` tells whether the character before belonged to a word
unfoldable pub word_count : Bool → Text → ℕ
unfolding is_space
word_count inside [] = 0
word_count inside (c ∷ s) = elim (is_space c) [
  | true ↦ word_count false s
  | false ↦ if inside then word_count true s else suc (word_count true s)
]

-- the tests of one literal against the normalized issue
unfoldable pub is_suspicious : ℕ → Text → Text → Bool
unfolding normalize word_count has_text
is_suspicious min_len issue lit =
    not (ltb (length lit) min_len)
    && not (has_text issue (normalize lit))
    && (leb 3 (word_count false lit) || leb 25 (length lit))

-- `literals` are those of the assert statements
unfoldable pub suspicious_literals : List Text → Text → List Text
unfolding is_suspicious normalize
suspicious_literals literals issue = filter (is_suspicious 4 (normalize issue)) literals

unfoldable pub has_issue_provenance : List Text → Text → Bool
unfolding suspicious_literals
has_issue_provenance literals issue = is_empty (suspicious_literals literals issue)

unfoldable pub contains_forbidden_literal : Text → List Text → List Text
unfolding has_text
contains_forbidden_literal source forbidden =
    filter (λ f. not (is_empty f) && has_text source f) forbidden
