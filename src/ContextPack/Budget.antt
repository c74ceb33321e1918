-- ===== src/ContextPack/Budget.antt =====
-- The size of a retrieved pack.
use coding_agent_support.Base.{
  ℕ, zero, suc, ◌+◌, ◌*◌, ◌≤◌, ◌<◌, ◌≡◌, ◌⊎◌, inl, inr, refl, ap, sym, ◌∙◌, not, ltb, Option, none,
  some, List, [], ◌∷◌, ◌++◌, map, Text, codes, join, length, length-append, take, filter,
  append_assoc, arith, Bool-cases,
}
use coding_agent_support.Effects.Partial.{Ensures, pure-Ensures, then-Ensures}
use coding_agent_support.Task.{TaskSpec}
use coding_agent_support.ContextPack.Terms.{issue_query_terms}
use coding_agent_support.ContextPack.{
  Reader, Pack, Scored, add_block, emit_block, emit_blocks, best_snippet, with_line, tests_section,
  v2_header, v2_pack, pack_text, file_of, is_test_path, pack_for, build_context_pack_v2,
  sort_scored, score_files, block_text, Numbered,
}

abbrev size : List Text → ℕ
size lines = length (join (codes "\n") lines)

size-snoc :
    (lines : List Text) (t : Text)
    → 0 < length lines
    → size (lines ++ t ∷ []) ≡ size lines + 1 + length t
unfolding join codes
size-snoc [] t h = absurd (omega arith)
size-snoc (x ∷ []) t h =
    omega (arith, length-append x (codes "\n"), length-append (x ++ codes "\n") t)
size-snoc (x ∷ y ∷ lines) t h = omega (
  arith,
  size-snoc (y ∷ lines) t (omega arith),
  length-append (x ++ codes "\n") (join (codes "\n") (y ∷ lines)),
  length-append (x ++ codes "\n") (join (codes "\n") (y ∷ (lines ++ t ∷ []))),
)

-- the lines take no more than what is counted and `k`, and what is counted is what was at the start
-- or fits the budget, but for the end of a line
record Fits (budget start k : ℕ) (p : Pack) : Type 0 where
  some_line : 0 < length p.lines
  counted : size p.lines ≤ p.used + k
  within : (p.used ≡ start) ⊎ (p.used ≤ budget + 1)

abbrev OnSome : {A : Type 0} → (A → Type 0) → Option A → Type 0
OnSome P none = Unit
OnSome P (some a) = P a

module _ (budget start : ℕ) where
  with_line-Fits :
      (k : ℕ) (text : Text) (p : Pack)
      → Fits budget start k p
      → Fits budget start (k + 1 + length text) (with_line text p)
  with_line-Fits k text p f = record {
    some_line = omega (arith, length-append p.lines (text ∷ []), f.some_line);
    counted = omega (arith, size-snoc p.lines text f.some_line, f.counted);
    within = f.within;
  }

  size-block :
      (lines : List Text) (text : Text)
      → 0 < length lines
      → size (lines ++ (text ∷ [] ∷ [])) ≡ size lines + length text + 2
  size-block lines text h =
      ap size (sym (append_assoc lines (text ∷ []) ([] ∷ [])))
      ∙ omega (
        arith,
        size-snoc (lines ++ text ∷ []) [] (omega (arith, length-append lines (text ∷ []))),
        size-snoc lines text h,
      )

  add_block-Fits :
      (k : ℕ) (text : Text) (p : Pack)
      → Fits budget start k p
      → OnSome (Fits budget start (k + 1)) (add_block budget text p)
  unfolding add_block
  add_block-Fits k text p f = elim (Bool-cases (ltb budget (p.used + length text))) [
    | inl over ↦ rw (over, add_block) tt
    | inr fits ↦
        rw (fits, add_block)
          (record {
            some_line = omega (arith, length-append p.lines (text ∷ [] ∷ []));
            counted = omega (arith, size-block p.lines text f.some_line, f.counted);
            within = inr (ground arith);
          })
  ]

  weaken : (k m : ℕ) (p : Pack) → k ≤ m → Fits budget start k p → Fits budget start m p
  weaken k m p h f = record {
    some_line = f.some_line;
    counted = omega (arith, f.counted);
    within = f.within;
  }

  emit_block-Fits :
      (terms : List Text) (k : ℕ) (file : Text × Text) (p : Pack)
      → Fits budget start k p
      → OnSome (Fits budget start (k + 1)) (emit_block terms budget file p)
  unfolding emit_block
  emit_block-Fits terms k (rel, body) p f = snippet-Fits (best_snippet body terms)
    where
      snippet-Fits :
          (snippet : List Numbered)
          → OnSome (Fits budget start (k + 1)) (elim snippet [
            | [] ↦ some p
            | (n, txt) ∷ rest ↦ add_block budget (block_text rel n ((n, txt) ∷ rest)) p
          ])
      snippet-Fits [] = weaken k (k + 1) p (omega arith) f
      snippet-Fits ((n, txt) ∷ rest) = add_block-Fits k (block_text rel n ((n, txt) ∷ rest)) p f

  emit_blocks-Fits :
      (terms : List Text) (files : List (Text × Text)) (k : ℕ) (p : Pack)
      → Fits budget start k p
      → Fits budget start (k + length files) (emit_blocks terms budget files p)
  unfolding emit_blocks
  emit_blocks-Fits terms [] k p f = weaken k (k + 0) p (omega arith) f
  emit_blocks-Fits terms (file ∷ files) k p f =
      after-Fits (emit_block terms budget file p) (emit_block-Fits terms k file p f)
        (emit_blocks-Fits terms files (k + 1))
    where
      after-Fits :
          (o : Option Pack)
          → OnSome (Fits budget start (k + 1)) o
          → ((q : Pack)
              → Fits budget start (k + 1) q
              → Fits budget start (k + 1 + length files) (emit_blocks terms budget files q))
          → Fits budget start
              (k + length (file ∷ files))
              (elim o [ none ↦ p | some q ↦ emit_blocks terms budget files q ])
      after-Fits none h rest = weaken k (k + length (file ∷ files)) p (omega arith) f
      after-Fits (some q) h rest =
          weaken (k + 1 + length files) (k + length (file ∷ files)) _ (omega arith) (rest q h)

  length-take-map : (n : ℕ) (scored : List Scored) → length (map file_of (take n scored)) ≤ n
  length-take-map zero scored = omega arith
  length-take-map (suc n) [] = omega arith
  length-take-map (suc n) (s ∷ scored) = omega (arith, length-take-map n scored)

  tests_section-Fits :
      (terms : List Text) (scored : List Scored) (k : ℕ) (p : Pack)
      → Fits budget start k p
      → Fits budget start (k + 28) (tests_section terms budget scored p)
  unfolding tests_section codes
  tests_section-Fits terms [] k p f = weaken k (k + 28) p (omega arith) f
  tests_section-Fits terms (s ∷ rest) k p f =
      let files = map file_of (take 2 (s ∷ rest)) in
      let title = codes "## Related existing tests" in
      weaken (k + 1 + length title + length files) (k + 28) _
        (omega (arith, length-take-map 2 (s ∷ rest)))
        (emit_blocks-Fits terms files (k + 1 + length title) _ (with_line-Fits k title p f))

header-some_line : (task : TaskSpec) (terms : List Text) → 0 < length (v2_header task terms)
unfolding v2_header
header-some_line task terms = omega arith

v2_pack-Fits :
    (task : TaskSpec) (terms : List Text) (budget top_k : ℕ) (scored : List Scored)
    → Fits budget
        (size (v2_header task terms))
        (top_k + 51)
        (v2_pack task terms budget top_k scored)
unfolding v2_pack codes
v2_pack-Fits task terms budget top_k scored =
    let header = v2_header task terms in
    let start = size header in
    let title = codes "## Top relevant source" in
    let files = map file_of (take top_k (filter (λ s. not (is_test_path s.rel)) scored)) in
    let first : Pack = record { lines = header; used = start } in
    let begins : Fits budget start 0 first = record {
      some_line = header-some_line task terms;
      counted = omega arith;
      within = inl refl;
    } in
    weaken budget start (1 + length title + length files + 28) (top_k + 51) _
      (omega
        (arith, length-take-map budget start top_k (filter (λ s. not (is_test_path s.rel)) scored)))
      (tests_section-Fits budget start terms (filter (λ s. is_test_path s.rel) scored)
        (1 + length title + length files) _
        (emit_blocks-Fits budget start terms files (1 + length title) _
          (with_line-Fits budget start 0 title first begins)))

-- the size of a pack, by the budget and by the size of its header
abbrev pub IsBounded : ℕ → ℕ → ℕ → Text → Type 0
IsBounded budget header top_k pack =
    (length pack ≤ budget + top_k + 53) ⊎ (length pack ≤ header + top_k + 52)

Fits-IsBounded :
    (budget start top_k : ℕ) (p : Pack)
    → Fits budget start (top_k + 51) p
    → IsBounded budget start top_k (pack_text p.lines)
unfolding pack_text codes
Fits-IsBounded budget start top_k p f = elim f.within [
  | inl e ↦
      inr (omega (arith, f.counted, e, length-append (join (codes "\n") p.lines) (codes "\n")))
  | inr h ↦
      inl (omega (arith, f.counted, h, length-append (join (codes "\n") p.lines) (codes "\n")))
]

abbrev pub FitsBudget : TaskSpec → ℕ → ℕ → List Text → Text → Type 0
FitsBudget task token_budget top_k terms pack =
    (terms ≡ [])
    ⊎ IsBounded (token_budget * 4) (length (join (codes "\n") (v2_header task terms))) top_k pack

pack_for-FitsBudget :
    {W : Type 0} (reader : Reader W) (task : TaskSpec) (token_budget top_k : ℕ) (terms : List Text)
    → Ensures
        (FitsBudget task token_budget top_k terms)
        (pack_for reader task token_budget top_k terms)
unfolding pack_for
pack_for-FitsBudget reader task token_budget top_k [] =
    then-Ensures _ _ _ λ files. pure-Ensures _ _ (inl refl)
pack_for-FitsBudget reader task token_budget top_k (t ∷ terms) =
    then-Ensures _ (reader.grep_files (t ∷ terms)) _ λ candidates.
      then-Ensures _ (score_files reader (t ∷ terms) candidates) _ λ scored. pure-Ensures _ _ (
        inr (
          Fits-IsBounded (token_budget * 4) (size (v2_header task (t ∷ terms))) top_k
            (v2_pack task (t ∷ terms) (token_budget * 4) top_k (sort_scored scored))
            (v2_pack-Fits task (t ∷ terms) (token_budget * 4) top_k (sort_scored scored))))

-- Whatever the repository and the issue: a pack with query terms has at most four characters for
-- each token of the budget, and 53 and one for each of the `top_k` files more; or at most the
-- characters of its header, and 52 and one for each of these files more.
pub build_context_pack_v2-FitsBudget :
    {W : Type 0} (reader : Reader W) (task : TaskSpec) (token_budget top_k : ℕ)
    → Ensures
        (FitsBudget task token_budget top_k (issue_query_terms task 12))
        (build_context_pack_v2 reader task token_budget top_k)
unfolding build_context_pack_v2
build_context_pack_v2-FitsBudget reader task token_budget top_k =
    pack_for-FitsBudget reader task token_budget top_k (issue_query_terms task 12)
