-- ===== src/Workspace/Counts.antt =====
-- The number of passed tests that is read from the summary of a test run.
use coding_agent_support.Base.{
  ℕ, zero, suc, ◌+◌, ◌/◌, ◌%◌, ◌<◌, ◌≡◌, refl, true, false, Option, none, some, List, [], ◌∷◌, ◌++◌,
  Text, codes, decimal, decimal_from, is_digit, length, ap, ◌∙◌, arith, leb, Bool, Bool-cases, inl,
  inr, starts_with, has_text, All, ◌==◌, nat_eq, ◌&&◌, ◌||◌,
}
use coding_agent_support.Workspace.{
  CompletedProcess, succeeded, push_digit, digits_end, passed_from, parse_passed, pytest_counts,
}

is_digit-digit : (d : ℕ) → d < 10 → is_digit (b'0' + d) ≡ true
unfolding is_digit
is_digit-digit d h = ground arith

passed_from-digit :
    (seen : Option ℕ) (d n : ℕ) (s : Text)
    → d < 10
    → push_digit seen (b'0' + d) ≡ n
    → passed_from seen ((b'0' + d) ∷ s) ≡ passed_from (some n) s
unfolding passed_from
passed_from-digit seen d n s h e = rw (is_digit-digit d h, e, passed_from) refl

passed_from-decimal_from :
    (fuel n : ℕ) (rest : Text)
    → n < fuel
    → passed_from none (decimal_from fuel n rest) ≡ passed_from (some n) rest
unfolding decimal_from
passed_from-decimal_from zero n rest h = elim h [ ]
passed_from-decimal_from (suc fuel) n rest h = elim (Bool-cases (leb 10 n)) [
  | inl more ↦ rw more (
      passed_from-decimal_from fuel (n / 10) _ (ground arith)
      ∙ passed_from-digit (some (n / 10)) (n % 10) n rest (omega arith) (omega arith))
  | inr last ↦ rw last (passed_from-digit none (n % 10) n rest (omega arith) (ground arith))
]

decimal_from-append :
    (fuel n : ℕ) (s t : Text) → decimal_from fuel n s ++ t ≡ decimal_from fuel n (s ++ t)
unfolding decimal_from
decimal_from-append zero n s t = refl
decimal_from-append (suc fuel) n s t =
    ground (arith, decimal_from-append fuel (n / 10) ((b'0' + n % 10) ∷ s) t)

passed_from-decimal :
    (n : ℕ) (rest : Text) → passed_from none (decimal n ++ rest) ≡ passed_from (some n) rest
unfolding decimal
passed_from-decimal n rest =
    ap (passed_from none) (decimal_from-append (suc n) n [] rest)
    ∙ passed_from-decimal_from (suc n) n rest (omega arith)

-- what a failing run prints, `f failed, n passed` and more
abbrev pub summary : ℕ → ℕ → Text → Text
summary f n more = decimal f ++ (codes " failed, " ++ (decimal n ++ (codes " passed" ++ more)))

parse_passed-summary : (f n : ℕ) (more : Text) → parse_passed (summary f n more) ≡ n
unfolding parse_passed
parse_passed-summary f n more = passed_from-decimal f _ ∙ skip ∙ passed_from-decimal n _ ∙ found
  where
    skip :
        passed_from (some f) (codes " failed, " ++ (decimal n ++ (codes " passed" ++ more)))
        ≡ passed_from none (decimal n ++ (codes " passed" ++ more))
    skip = unfold passed_from codes starts_with digits_end is_digit in refl

    found : passed_from (some n) (codes " passed" ++ more) ≡ n
    found = unfold passed_from codes starts_with digits_end is_digit in refl

-- a line feed begins no match of a text without one
starts_with-line :
    (s t p : Text) → All (λ c. (10 == c) ≡ false) p → starts_with (s ++ 10 ∷ t) p ≡ starts_with s p
unfolding starts_with
starts_with-line s t [] h = refl
starts_with-line [] t (d ∷ p) h = ground (arith, h.0)
starts_with-line (c ∷ s) t (d ∷ p) h = ap (λ b. c == d && b) (starts_with-line s t p h.1)

no_line_feed : All (λ c. (10 == c) ≡ false) (codes " passed")
unfolding codes
no_line_feed = (refl, (refl, (refl, (refl, (refl, (refl, (refl, tt)))))))

digits_end-other :
    (seen : Option ℕ) (s : Text)
    → starts_with s (codes " passed") ≡ false
    → digits_end seen s ≡ none
unfolding digits_end
digits_end-other none s h = refl
digits_end-other (some n) s h = rw h refl

passed_from-other :
    (seen : Option ℕ) (c : ℕ) (s : Text)
    → is_digit c ≡ false
    → starts_with (c ∷ s) (codes " passed") ≡ false
    → passed_from seen (c ∷ s) ≡ passed_from none s
unfolding passed_from
passed_from-other seen c s d h = rw (d, passed_from, digits_end-other seen (c ∷ s) h) refl

neither_of : (x y : Bool) → x || y ≡ false → (x ≡ false) × (y ≡ false)
neither_of false y h = (refl, h)
neither_of true y h = cc

line_feed : (is_digit 10 ≡ false) × ((s : Text) → starts_with (10 ∷ s) (codes " passed") ≡ false)
unfolding is_digit starts_with codes
line_feed = (refl, λ s. refl)

-- lines that hold no ` passed` are passed over
passed_from-lines :
    (seen : Option ℕ) (before rest : Text)
    → has_text before (codes " passed") ≡ false
    → passed_from seen (before ++ 10 ∷ rest) ≡ passed_from none rest
unfolding passed_from has_text
passed_from-lines seen [] rest h = passed_from-other seen 10 rest line_feed.0 (line_feed.1 rest)
passed_from-lines seen (c ∷ before) rest h =
    let (here, behind) =
      neither_of (starts_with (c ∷ before) (codes " passed")) (has_text before (codes " passed"))
        h in
    elim (Bool-cases (is_digit c)) [
      | inl e ↦
          rw (e, passed_from) (passed_from-lines (some (push_digit seen c)) before rest behind)
      | inr e ↦
          passed_from-other seen c (before ++ 10 ∷ rest) e
            (starts_with-line (c ∷ before) rest (codes " passed") no_line_feed ∙ here)
          ∙ passed_from-lines none before rest behind
    ]

-- If the output of a failing run has the summary `f failed, n passed` at the beginning of a line, and
-- no ` passed` stands before it, then the counts are `n` and the number of node ids, whatever the
-- lines before the summary are and whatever follows it: `n` is read back in full.
pub pytest_counts-summary :
    (node_ids : List Text) (proc : CompletedProcess) (before : Text) (f n : ℕ) (more : Text)
    → succeeded proc ≡ false
    → has_text before (codes " passed") ≡ false
    → proc.stdout ≡ before ++ 10 ∷ summary f n more
    → pytest_counts node_ids proc ≡ (n, length node_ids)
unfolding pytest_counts parse_passed
pytest_counts-summary node_ids proc before f n more failed quiet out =
    rw
      (
        failed,
        out,
        passed_from-lines none before (summary f n more) quiet,
        parse_passed-summary f n more,
      )
      refl
