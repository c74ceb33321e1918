-- ===== src/Helper/Candidates.antt =====
-- se_support/support/repro_tests/generator.py: the candidates that a chat model offers.
use coding_agent_support.Base.{
  ℕ, zero, suc, Bool, true, false, ◌||◌, Option, none, some, List, [], ◌∷◌, ◌++◌, reverse, Text,
  codes, has_text, starts_with, is_space, strip, after, contains, is_empty, ◌==◌, list_eq, nat_eq,
  if◌then◌else◌,
}
use coding_agent_support.Effects.{Eff, pure, ◌>>=◌}
use coding_agent_support.Helper.{Lab}

unfoldable pub system_prompt : Text
system_prompt =
    codes
      "You write a single pytest reproduction test for a bug described in an issue.\n\nSTRICT RULES:\n- The expected behavior asserted MUST be traceable to the issue text. Do not\n  invent an exact error-message string or output format the issue did not state.\n- Prefer behavioral assertions (an exception is raised; the message mentions the\n  affected name) over brittle exact-string equality.\n- Use only public APIs/imports visible in the provided repository context.\n- Output ONLY one fenced python code block containing the test. No prose."

unfoldable pub user_prompt : Text → Text → Text
user_prompt problem context =
    codes "## Issue\n"
    ++ problem
    ++ codes "\n\n## Repository context (imports/fixtures/style; do not copy solutions)\n"
    ++ context
    ++ codes
        "\n\nWrite one pytest test that FAILS on the current (buggy) code and would PASS once the issue is fixed. Assert only issue-level behavior."

-- the text before the first closing fence
unfoldable pub before_fence : Text → Text → Option Text
unfolding starts_with codes
before_fence cur [] = none
before_fence cur (c ∷ s) = elim (starts_with (c ∷ s) (codes "```")) [
  | true ↦ some (reverse cur)
  | false ↦ before_fence (c ∷ cur) s
]

-- what stands behind the white space of a fence's first line, if that has a line feed
unfoldable pub fenced_body : Bool → Text → Option Text
unfolding is_space
fenced_body seen [] = if seen then some [] else none
fenced_body seen (c ∷ s) = elim (is_space c) [
  | true ↦ if c == 10 then fenced_body true s else fenced_body seen s
  | false ↦ if seen then some (c ∷ s) else none
]

unfoldable pub without_language : Text → Text
unfolding starts_with codes
without_language s = if starts_with s (codes "python") then after (codes "python") s else s

-- `_CODE_RE` at the start of a text: the group up to white space around it
unfoldable pub code_at : Text → Option Text
unfolding starts_with codes without_language fenced_body before_fence
code_at s = elim (starts_with s (codes "```")) [
  | false ↦ none
  | true ↦ elim (fenced_body false (without_language (after (codes "```") s))) [
    | none ↦ none
    | some body ↦ before_fence [] body
  ]
]

-- the first match of `_CODE_RE`
unfoldable pub find_code : Text → Option Text
unfolding code_at
find_code [] = none
find_code (c ∷ s) = elim (code_at (c ∷ s)) [ some body ↦ some body | none ↦ find_code s ]

unfoldable pub extract_code : Text → Option Text
unfolding find_code has_text strip codes
extract_code reply = elim (find_code reply) [
  | some body ↦ some (strip body)
  | none ↦ if has_text reply (codes "def test") then some (strip reply) else none
]

-- one reply, after which `seen` are the hashes and the list the candidates
unfoldable pub take_reply : (Text → Text) → Text → List Text × List Text → List Text × List Text
unfolding extract_code
take_reply hash_text reply (seen, candidates) = elim (extract_code reply) [
  | none ↦ (seen, candidates)
  | some code ↦
      if is_empty code || contains seen (hash_text code)
      then (seen, candidates)
      else (hash_text code ∷ seen, candidates ++ code ∷ [])
]

module _ {W : Type 0} (lab : Lab W) where
  unfoldable pub candidate_loop :
      Text → Text → ℕ → List Text × List Text → Eff W (List Text × List Text)
  unfolding take_reply
  candidate_loop system user zero s = pure s
  candidate_loop system user (suc k) s = lab.complete system user >>= λ reply.
      candidate_loop system user k (take_reply lab.hash_text reply s)

  unfoldable pub generate_candidates : Text → Text → ℕ → Eff W (List Text)
  unfolding candidate_loop system_prompt user_prompt
  generate_candidates problem context k =
      candidate_loop system_prompt (user_prompt problem context) k ([], []) >>= λ s. pure s.1

  unfoldable pub prompt_hash : Text → Text → Text
  unfolding system_prompt user_prompt
  prompt_hash problem context =
      lab.hash_text (system_prompt ++ codes "\n" ++ user_prompt problem context)
