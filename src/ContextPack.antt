-- ===== src/ContextPack.antt =====
-- se_support/support/context_pack.py: the context packs, over a reader of the repository. The walk
-- over the disk, which serves where there is no reader, is a reader too.
pub mod Terms
pub mod Budget
pub mod Control
mod Tests
use coding_agent_support.Base.{
  ℕ, zero, suc, ◌+◌, ◌-◌, ◌*◌, ◌/◌, Bool, true, false, not, ◌&&◌, ◌||◌, leb, ltb, Option, none,
  some, List, [], ◌∷◌, ◌++◌, map, Text, codes, lower, text_ltb, take, drop, length, is_empty,
  filter, has_text, starts_with, ends_with, split_lines, count_text, decimal, join, if◌then◌else◌,
  ◌==◌, nat_eq,
}
use coding_agent_support.Effects.{Eff, pure, ◌>>=◌}
use coding_agent_support.Task.{TaskSpec}
use coding_agent_support.ContextPack.Terms.{issue_query_terms}

pub record Reader (W : Type 0) : Type 0 where
  pub list_repo_files : ℕ → Eff W (List Text)
  pub grep_files : List Text → Eff W (List Text)
  pub read_file : Text → ℕ → Eff W Text

abbrev pub max_files : ℕ
max_files = 60

unfoldable pub hint_lines : Option Text → List Text
hint_lines none = []
hint_lines (some []) = []
hint_lines (some (c ∷ s)) = (codes "Test command hint: `" ++ (c ∷ s) ++ codes "`") ∷ []

-- the lines of the first pack
unfoldable pub map_lines : TaskSpec → List Text → List Text
unfolding hint_lines
map_lines task files =
    (codes "## Repository context (auto-generated)" ∷ [] ∷ (codes "Repository: " ++ task.repo) ∷ [])
    ++ (hint_lines task.test_command
        ++ (([] ∷ codes "Files:" ∷ [])
            ++ (map (λ f. codes "- " ++ f) files
                ++ (if leb max_files (length files)
                    then codes "- ... (truncated at 60 files)" ∷ []
                    else []))))

unfoldable pub is_test_path : Text → Bool
is_test_path path = has_text path (codes "/test") || starts_with path (codes "test")

-- `sum(text.count(t) for t in terms)`
unfoldable pub count_terms : Text → List Text → ℕ
unfolding count_text
count_terms text [] = 0
count_terms text (t ∷ terms) = count_text t text + count_terms text terms

unfoldable pub score_file : Text → Text → List Text → ℕ
unfolding is_test_path count_terms lower
score_file path body terms =
    let score = count_terms (lower body) (map lower terms) in
    if is_test_path path then score / 2 else score

-- the index of the first line with the most hits, where `best` of `best_hits` is that of the lines
-- before; none stands for the -1 at the start
unfoldable pub best_line : List Text → List Text → ℕ → Option ℕ → ℕ → ℕ
unfolding count_terms lower
best_line low_terms [] i best_hits best = best
best_line low_terms (ln ∷ lines) i none best =
    best_line low_terms lines (i + 1) (some (count_terms (lower ln) low_terms)) i
best_line low_terms (ln ∷ lines) i (some most) best =
    let hits = count_terms (lower ln) low_terms in
    best_line low_terms lines (i + 1) (some (if ltb most hits then hits else most))
      (if ltb most hits then i else best)

-- a line with its number
abbrev pub Numbered : Type 0
Numbered = ℕ × Text

unfoldable pub numbered : ℕ → List Text → List Numbered
numbered n [] = []
numbered n (ln ∷ lines) = (n, ln) ∷ numbered (n + 1) lines

-- with the span 6 and 14 lines at most
unfoldable pub best_snippet : Text → List Text → List Numbered
unfolding split_lines best_line numbered
best_snippet body terms =
    let lines = split_lines body in
    let start = best_line (map lower terms) lines 0 none 0 - 3 in
    numbered (start + 1) (take 14 (drop start lines))

-- `f"{n:>5}  {txt}"`
unfoldable pub pad5 : Text → Text
pad5 s = take (5 - length s) (codes "     ") ++ s

unfoldable pub snippet_lines : List Numbered → List Text
unfolding pad5 decimal
snippet_lines [] = []
snippet_lines ((n, txt) ∷ rest) = (pad5 (decimal n) ++ codes "  " ++ txt) ∷ snippet_lines rest

unfoldable pub last_number : ℕ → List Numbered → ℕ
last_number n [] = n
last_number n ((m, txt) ∷ rest) = last_number m rest

-- a block of a snippet that is not empty
unfoldable pub block_text : Text → ℕ → List Numbered → Text
unfolding snippet_lines last_number decimal join
block_text rel first snippet = join (codes "\n") (
    ((codes "### "
        ++ rel
        ++ codes " (lines "
        ++ decimal first
        ++ codes "-"
        ++ decimal (last_number first snippet)
        ++ codes ")")
      ∷ codes "```python"
      ∷ [])
    ++ (snippet_lines snippet ++ codes "```" ∷ []))

-- the lines of a pack and the number of characters that are used of the budget
pub record Pack : Type 0 where
  pub lines : List Text
  pub used : ℕ

-- none if the text does not fit any more
unfoldable pub add_block : ℕ → Text → Pack → Option Pack
add_block budget text p =
    if ltb budget (p.used + length text)
    then none
    else some (record { lines = p.lines ++ (text ∷ [] ∷ []); used = p.used + length text + 1 })

-- `_emit_block`, none where it returns False
unfoldable pub emit_block : List Text → ℕ → Text × Text → Pack → Option Pack
unfolding best_snippet block_text add_block
emit_block terms budget (rel, body) p = elim (best_snippet body terms) [
  | [] ↦ some p
  | (n, txt) ∷ rest ↦ add_block budget (block_text rel n ((n, txt) ∷ rest)) p
]

-- the loop over files, which a block that does not fit ends
unfoldable pub emit_blocks : List Text → ℕ → List (Text × Text) → Pack → Pack
unfolding emit_block
emit_blocks terms budget [] p = p
emit_blocks terms budget (file ∷ files) p = elim (emit_block terms budget file p) [
  | none ↦ p
  | some q ↦ emit_blocks terms budget files q
]

-- a file with its score
pub record Scored : Type 0 where
  pub score : ℕ
  pub rel : Text
  pub body : Text

unfoldable pub scored_before : Scored → Scored → Bool
unfolding text_ltb
scored_before a b = ltb b.score a.score || (a.score == b.score && text_ltb a.rel b.rel)

insert_scored : Scored → List Scored → List Scored
insert_scored a [] = a ∷ []
insert_scored a (b ∷ rest) = elim (scored_before b a) [
  | true ↦ b ∷ insert_scored a rest
  | false ↦ a ∷ b ∷ rest
]

unfoldable pub sort_scored : List Scored → List Scored
unfolding insert_scored scored_before
sort_scored [] = []
sort_scored (a ∷ rest) = insert_scored a (sort_scored rest)

abbrev pub file_of : Scored → Text × Text
file_of s = (s.rel, s.body)

unfoldable pub v2_header : TaskSpec → List Text → List Text
unfolding hint_lines join
v2_header task terms =
    (codes "## Issue-relevant repository context (retrieved, C1 v2)"
      ∷ []
      ∷ (codes "Repository: " ++ task.repo)
      ∷ [])
    ++ (hint_lines task.test_command
        ++ ((codes "Query terms: " ++ join (codes ", ") terms) ∷ [] ∷ []))

abbrev pub with_line : Text → Pack → Pack
with_line text p = record p { lines = p.lines ++ text ∷ [] }

unfoldable pub tests_section : List Text → ℕ → List Scored → Pack → Pack
unfolding emit_blocks
tests_section terms budget [] p = p
tests_section terms budget (s ∷ rest) p =
    emit_blocks terms budget (map file_of (take 2 (s ∷ rest)))
      (with_line (codes "## Related existing tests") p)

-- from the scored files to the pack
unfoldable pub v2_pack : TaskSpec → List Text → ℕ → ℕ → List Scored → Pack
unfolding v2_header emit_blocks tests_section is_test_path
v2_pack task terms budget top_k scored =
    let header = v2_header task terms in
    let start : Pack = record { lines = header; used = length (join (codes "\n") header) } in
    tests_section terms budget (filter (λ s. is_test_path s.rel) scored) (
      emit_blocks terms budget
        (map file_of (take top_k (filter (λ s. not (is_test_path s.rel)) scored)))
        (with_line (codes "## Top relevant source") start))

unfoldable pub pack_text : List Text → Text
unfolding join
pack_text lines = join (codes "\n") lines ++ codes "\n"

module _ {W : Type 0} (reader : Reader W) where
  unfoldable pub build_context_pack : TaskSpec → Eff W Text
  unfolding map_lines pack_text
  build_context_pack task = do
    files ← reader.list_repo_files max_files
    pure (pack_text (map_lines task files))

  -- the files that are not empty, with their scores
  unfoldable pub score_files : List Text → List Text → Eff W (List Scored)
  unfolding score_file
  score_files terms [] = pure []
  score_files terms (rel ∷ rest) = do
    body ← reader.read_file rel 20000
    scored ← score_files terms rest
    pure (
        if is_empty body
        then scored
        else record { score = score_file rel body terms; rel = rel; body = body } ∷ scored)

  -- the pack for the query terms of the issue
  unfoldable pub pack_for : TaskSpec → ℕ → ℕ → List Text → Eff W Text
  unfolding build_context_pack score_files sort_scored v2_pack pack_text
  pack_for task token_budget top_k [] = build_context_pack task
  pack_for task token_budget top_k (t ∷ terms) = do
    candidates ← reader.grep_files (t ∷ terms)
    scored ← score_files (t ∷ terms) candidates
    pure (pack_text (v2_pack task (t ∷ terms) (token_budget * 4) top_k (sort_scored scored)).lines)

  unfoldable pub build_context_pack_v2 : TaskSpec → ℕ → ℕ → Eff W Text
  unfolding issue_query_terms pack_for
  build_context_pack_v2 task token_budget top_k =
      pack_for task token_budget top_k (issue_query_terms task 12)
