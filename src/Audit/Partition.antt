-- ===== src/Audit/Partition.antt =====
-- What the sanitised patch has kept.
use coding_agent_support.Base.{
  ◌≡◌, refl, sym, ap, ◌∙◌, Bool, true, List, [], ◌∷◌, ◌++◌, append-nil, Text, strip, nat_eq,
  list_eq, inl, inr, Bool-cases, map, filter, not,
}
use coding_agent_support.Audit.{
  split_parts, with_paths, split_diff_blocks, is_blank_part, is_removed, Sanitized, sanitize_blocks,
  sanitize_patch,
}
use coding_agent_support.Audit.Parts.{
  solid, concat, concat-split_parts, BeginWell-split_parts, solid-concat, none_of,
}

abbrev is_kept : Text × Text → Bool
is_kept (path, block) = not (is_removed path)

abbrev is_cut : Text × Text → Bool
is_cut (path, block) = is_removed path

abbrev paths_of : List (Text × Text) → List Text
paths_of blocks = map (λ b. b.0) blocks

-- the blocks, put together
abbrev texts_of : List (Text × Text) → Text
texts_of blocks = concat (map (λ b. b.1) blocks)

-- The blocks of the patch whose path is no contaminant, in order, make up the sanitised patch, and
-- all blocks together the patch, behind white space.
pub record IsSanitized (patch : Text) (s : Sanitized) : Type 0 where
  pub removed : s.removed_paths ≡ paths_of (filter is_cut (split_diff_blocks patch))
  pub kept : s.kept_paths ≡ paths_of (filter is_kept (split_diff_blocks patch))
  pub sanitized : s.sanitized_patch ≡ texts_of (filter is_kept (split_diff_blocks patch))
  pub whole :
      (lead : Text) × ((strip lead ≡ []) × (patch ≡ lead ++ texts_of (split_diff_blocks patch)))

removed_lem :
    (blocks : List (Text × Text))
    → (sanitize_blocks blocks).removed_paths ≡ paths_of (filter is_cut blocks)
unfolding sanitize_blocks
removed_lem [] = refl
removed_lem ((path, block) ∷ blocks) = elim (Bool-cases (is_removed path)) [
  | inl e ↦ rw (e, sanitize_blocks) (ap (λ t. path ∷ t) (removed_lem blocks))
  | inr e ↦ rw (e, sanitize_blocks) (removed_lem blocks)
]

kept_lem :
    (blocks : List (Text × Text))
    → (sanitize_blocks blocks).kept_paths ≡ paths_of (filter is_kept blocks)
unfolding sanitize_blocks
kept_lem [] = refl
kept_lem ((path, block) ∷ blocks) = elim (Bool-cases (is_removed path)) [
  | inl e ↦ rw (e, sanitize_blocks) (kept_lem blocks)
  | inr e ↦ rw (e, sanitize_blocks) (ap (λ t. path ∷ t) (kept_lem blocks))
]

sanitized_lem :
    (blocks : List (Text × Text))
    → (sanitize_blocks blocks).sanitized_patch ≡ texts_of (filter is_kept blocks)
unfolding sanitize_blocks concat
sanitized_lem [] = refl
sanitized_lem ((path, block) ∷ blocks) = elim (Bool-cases (is_removed path)) [
  | inl e ↦ rw (e, sanitize_blocks) (sanitized_lem blocks)
  | inr e ↦ rw (e, sanitize_blocks) (ap (λ t. block ++ t) (sanitized_lem blocks))
]

-- the parts that are not blank are the blocks
solid-with_paths : (parts : List Text) → solid parts ≡ texts_of (with_paths parts)
unfolding solid with_paths concat
solid-with_paths [] = refl
solid-with_paths (p ∷ parts) = elim (Bool-cases (is_blank_part p)) [
  | inl e ↦ rw (e, solid, with_paths) (solid-with_paths parts)
  | inr e ↦ rw (e, solid, with_paths) (ap (λ t. p ++ t) (solid-with_paths parts))
]

parts-whole :
    (patch : Text)
    → (lead : Text) × ((strip lead ≡ [])
        × (patch ≡ lead ++ texts_of (with_paths (split_parts true patch))))
parts-whole patch =
    let (lead, (blank, whole)) =
      solid-concat (split_parts true patch) (BeginWell-split_parts true patch) in
    (
      lead,
      (
        blank,
        sym (concat-split_parts true patch)
            ∙ whole
            ∙ ap (λ t. lead ++ t) (solid-with_paths (split_parts true patch)),
      ),
    )

-- The blocks of any patch are the patch, behind white space, cut into pieces; the sanitised patch is
-- exactly the blocks whose path is empty or no contaminant, put together in their order; and the kept
-- and the removed paths are, in order, those of these blocks and of the others.
pub sanitize_patch-IsSanitized : (patch : Text) → IsSanitized patch (sanitize_patch patch)
unfolding sanitize_patch split_diff_blocks concat
sanitize_patch-IsSanitized patch = record {
  removed = removed_lem (split_diff_blocks patch);
  kept = kept_lem (split_diff_blocks patch);
  sanitized = sanitized_lem (split_diff_blocks patch);
  whole = elim (Bool-cases (is_blank_part patch)) [
    | inl e ↦ rw (e, split_diff_blocks) (patch, (none_of e, sym (append-nil patch)))
    | inr e ↦ rw (e, split_diff_blocks) (parts-whole patch)
  ];
}
