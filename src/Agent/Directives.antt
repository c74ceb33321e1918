-- ===== src/Agent/Directives.antt =====
-- What a reply of the model asks for.
use coding_agent_support.Base.{
  ℕ, zero, suc, ◌+◌, ◌-◌, Bool, true, false, not, ◌&&◌, ◌||◌, Option, none, some, List, [], ◌∷◌,
  ◌++◌, filter, Text, codes, is_space, starts_with, ends_with, after, length, strip, upper,
  is_empty, leb, ◌==◌, list_eq, nat_eq, if◌then◌else◌, has_text,
}
use coding_agent_support.Harness.{
  HarnessStateMachine, Transition, record_text, request_transition, value,
}
use coding_agent_support.Helper.Candidates.{fenced_body, before_fence}

unfoldable pub skip_space : Text → Text
unfolding is_space
skip_space [] = []
skip_space (c ∷ s) = let rest = skip_space s in if is_space c then rest else c ∷ s

-- the rest of a line
unfoldable pub line_of : Text → Text
line_of [] = []
line_of (c ∷ s) = let rest = line_of s in if c == 10 then [] else c ∷ rest

-- the first place at the start of a line where `match` finds something
unfoldable pub search_lines : (Text → Option Text) → Bool → Text → Option Text
search_lines match at_start [] = none
search_lines match at_start (c ∷ s) =
    let later = search_lines match (c == 10) s in
    elim (if at_start then match (c ∷ s) else none) [ some found ↦ some found | none ↦ later ]

-- A record of nothing but white space, which the machine does not take, is none here.
unfoldable pub record_at : Text → Text → Option Text
unfolding starts_with skip_space line_of
record_at prefix s =
    if starts_with s prefix
    then elim (skip_space (after prefix s)) [ [] ↦ none | c ∷ rest ↦ some (line_of (c ∷ rest)) ]
    else none

unfoldable pub letters_of : Text → Text
letters_of [] = []
letters_of (c ∷ s) = let rest = letters_of s in if leb b'A' c && leb c b'Z' then c ∷ rest else []

-- nothing but white space up to the end of the line
unfoldable pub ends_line : Text → Bool
unfolding is_space
ends_line [] = true
ends_line (c ∷ s) = c == 10 || (is_space c && ends_line s)

-- `_NEXT_STATE_RE` at the start of a line
unfoldable pub next_state_at : Text → Option Text
unfolding starts_with skip_space letters_of ends_line codes
next_state_at s =
    if starts_with s (codes "NEXT_STATE:")
    then (let rest = skip_space (after (codes "NEXT_STATE:") s) in
        let letters = letters_of rest in
        if not (is_empty letters) && ends_line (after letters rest) then some letters else none)
    else none

-- the record of one kind in the reply, if it has one
unfoldable pub record_kind : Text → Text → Text → HarnessStateMachine → HarnessStateMachine
unfolding search_lines record_at
record_kind kind prefix reply m = elim (search_lines (record_at prefix) true reply) [
  | none ↦ m
  | some text ↦ record_text kind text m
]

unfoldable pub record_all : Text → HarnessStateMachine → HarnessStateMachine
unfolding record_kind
record_all reply m = record_kind (codes "validation") (codes "VALIDATION:") reply (
    record_kind (codes "diagnosis") (codes "DIAGNOSIS:") reply
      (record_kind (codes "localization") (codes "LOCALIZATION:") reply m))

-- what stands before and behind the first place of `p`; all and nothing, if there is none
unfoldable pub before_text : Text → Text → Text
unfolding starts_with
before_text p [] = []
before_text p (c ∷ s) = let rest = before_text p s in if starts_with (c ∷ s) p then [] else c ∷ rest

unfoldable pub behind_text : Text → Text → Text
unfolding starts_with
behind_text p [] = []
behind_text p (c ∷ s) =
    let rest = behind_text p s in if starts_with (c ∷ s) p then after p (c ∷ s) else rest

unfoldable pub hint_of : Transition → Text
unfolding before_text behind_text has_text codes upper
hint_of t =
    if has_text t.reason (codes "missing required")
    then (let need = before_text (codes " record") (
          before_text (codes "missing required ")
            (behind_text (codes "missing required ") t.reason)) in
        codes " Output a line `"
        ++ upper need
        ++ codes ": <...>` and then NEXT_STATE: "
        ++ t.to
        ++ codes ".")
    else []

unfoldable pub transition_feedback : Transition → HarnessStateMachine → Text
unfolding hint_of value codes
transition_feedback t m =
    if t.ok
    then codes "[HARNESS] Now in " ++ value m.state ++ codes "."
    else codes "[HARNESS] Transition "
      ++ t.frm
      ++ codes "->"
      ++ t.to
      ++ codes " rejected: "
      ++ t.reason
      ++ codes "."
      ++ hint_of t

-- `_apply_harness_directives`: the feedback, and the machine after the reply's records and request
unfoldable pub apply_harness_directives :
    Text → HarnessStateMachine → Option Text × HarnessStateMachine
unfolding record_all search_lines next_state_at transition_feedback
apply_harness_directives reply m =
    let recorded = record_all reply m in
    elim (search_lines next_state_at true reply) [
      | none ↦ (none, recorded)
      | some target ↦
          let (t, moved) = request_transition target recorded in
          (some (transition_feedback t moved), moved)
    ]

-- `_BASH_RE` at the start of a text: the stripped block, and how many characters follow the first one
-- in the match
unfoldable pub bash_at : Text → Option (Text × ℕ)
unfolding starts_with fenced_body before_fence strip codes
bash_at s =
    if starts_with s (codes "```bash")
    then elim (fenced_body false (after (codes "```bash") s)) [
      | none ↦ none
      | some body ↦ elim (before_fence [] body) [
        | none ↦ none
        | some block ↦ some (strip block, (length s - length body) + length block + 2)
      ]
    ]
    else none

-- the blocks of a text whose first `skip` characters belong to the last match
unfoldable pub blocks_from : ℕ → Text → List Text
unfolding bash_at
blocks_from skip [] = []
blocks_from (suc skip) (c ∷ s) = blocks_from skip s
blocks_from zero (c ∷ s) = elim (bash_at (c ∷ s)) [
  | none ↦ blocks_from zero s
  | some (block, skip) ↦ block ∷ blocks_from skip s
]

-- `_extract_bash_blocks`
unfoldable pub extract_bash_blocks : Text → List Text
unfolding blocks_from
extract_bash_blocks reply = filter (λ b. not (is_empty b)) (blocks_from 0 reply)

-- `_is_submit`
unfoldable pub is_submit : Text → Bool
unfolding strip upper ends_with codes
is_submit reply =
    upper (strip reply) == codes "SUBMIT" || ends_with (upper (strip reply)) (codes "\nSUBMIT")
