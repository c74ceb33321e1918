-- ===== src/Integrity/Trees.antt =====
-- When a tree is clean, line by line of its porcelain.
use coding_agent_support.Base.{
  ◌≡◌, refl, ◌∙◌, ap, Bool, true, false, not, ◌&&◌, ◌||◌, List, [], ◌∷◌, ◌++◌, Text, split_lines,
  all, contains, is_empty, Bool-cases, inl, inr, arith, list_eq, nat_eq, if◌then◌else◌, ==_refl,
}
use coding_agent_support.Integrity.{
  classify_git_state, sort_lines, bad_tracked, bad_untracked, is_allowed, is_blank, is_untracked,
  path_of,
}

-- what a line must be for a clean tree: blank, of an allowed path, or of an untracked file that is
-- known, or that nobody looks at
unfoldable pub is_explained : Bool → List Text → Text → Bool
is_explained strict baseline line =
    is_blank line
    || is_allowed (path_of line)
    || (is_untracked line && (not strict || contains baseline (path_of line)))

is_empty-append : (xs ys : List Text) → is_empty (xs ++ ys) ≡ (is_empty xs && is_empty ys)
is_empty-append [] ys = ground arith
is_empty-append (x ∷ xs) ys = refl

unexplained : Bool → List Text → List Text → Bool
unexplained strict baseline lines =
    is_empty (bad_tracked (sort_lines lines).0)
    && is_empty (bad_untracked strict baseline (sort_lines lines).1)

tracked-clean :
    (p : Text) (ps : List Text)
    → is_empty (bad_tracked (p ∷ ps)) ≡ (is_allowed p && is_empty (bad_tracked ps))
unfolding bad_tracked
tracked-clean p ps = ground arith

untracked-clean :
    (strict : Bool) (baseline : List Text) (p : Text) (ps : List Text)
    → is_empty (bad_untracked strict baseline (p ∷ ps)) ≡ (
        (is_allowed p || (not strict || contains baseline p))
        && is_empty (bad_untracked strict baseline ps))
unfolding bad_untracked
untracked-clean true baseline p ps = ground arith
untracked-clean false baseline p ps = ground arith

-- the lists with the path of one more line
add_line : Text → List Text → List Text → List Text × List Text
add_line line tracked untracked =
    if is_blank line
    then (tracked, untracked)
    else if is_untracked line
    then (tracked, path_of line ∷ untracked)
    else (path_of line ∷ tracked, untracked)

are_clean : Bool → List Text → List Text × List Text → Bool
are_clean strict baseline (tracked, untracked) =
    is_empty (bad_tracked tracked) && is_empty (bad_untracked strict baseline untracked)

add_line-clean :
    (strict : Bool) (baseline : List Text) (line : Text) (tracked untracked : List Text)
    → are_clean strict baseline (add_line line tracked untracked)
      ≡ (is_explained strict baseline line && are_clean strict baseline (tracked, untracked))
unfolding add_line is_explained are_clean
add_line-clean strict baseline line tracked untracked = elim (Bool-cases (is_blank line)) [
  | inl blank ↦ rw blank refl
  | inr full ↦ elim (Bool-cases (is_untracked line)) [
    | inl new ↦
        rw (full, new, untracked-clean strict baseline (path_of line) untracked) (ground arith)
    | inr old ↦ rw (full, old, tracked-clean (path_of line) tracked) (ground arith)
  ]
]

lines-clean :
    (strict : Bool) (baseline lines : List Text)
    → unexplained strict baseline lines ≡ all (is_explained strict baseline) lines
unfolding unexplained sort_lines bad_tracked bad_untracked is_explained are_clean add_line
lines-clean true baseline [] = refl
lines-clean false baseline [] = refl
lines-clean strict baseline (line ∷ lines) =
    add_line-clean strict baseline line (sort_lines lines).0 (sort_lines lines).1
    ∙ ap (λ b. is_explained strict baseline line && b) (lines-clean strict baseline lines)

-- A tree is clean exactly if every line of its porcelain is blank, of an allowed path, or of an
-- untracked file, which must be in the baseline if the check is strict.
pub classify_git_state-clean :
    (hash : Text → Text) (porcelain head : Text) (baseline : List Text) (strict : Bool)
    → (classify_git_state hash porcelain head baseline strict).clean
      ≡ all (is_explained strict baseline) (split_lines porcelain)
unfolding classify_git_state unexplained
classify_git_state-clean hash porcelain head baseline strict =
    is_empty-append _ _ ∙ lines-clean strict baseline (split_lines porcelain)

known-empty :
    (xs ys : List Text)
    → ((p : Text) → contains xs p ≡ true → contains ys p ≡ true)
    → is_empty (bad_untracked true ys xs) ≡ true
unfolding bad_untracked
known-empty [] ys h = refl
known-empty (x ∷ xs) ys h =
    ground
      (arith, h x (ground (arith, ==_refl x)), known-empty xs ys (λ p e. h p (ground (arith, e))))

-- A tree that is clean when the container starts, and whose porcelain is the same later on, is clean
-- then by the strict check against the untracked files of the first snapshot.
pub classify_git_state-unchanged :
    (hash : Text → Text) (porcelain head head' : Text) (baseline : List Text)
    → (classify_git_state hash porcelain head baseline false).clean ≡ true
    → (classify_git_state hash porcelain head'
        (classify_git_state hash porcelain head baseline false).untracked_files
        true).clean
      ≡ true
unfolding classify_git_state
classify_git_state-unchanged hash porcelain head head' baseline h =
    let (tracked, untracked) = sort_lines (split_lines porcelain) in
    is_empty-append (bad_tracked tracked) (bad_untracked true untracked untracked)
    ∙ ground (
      arith,
      is_empty-append (bad_tracked tracked) (bad_untracked false baseline untracked),
      h,
      known-empty untracked untracked (λ p e. e),
    )
