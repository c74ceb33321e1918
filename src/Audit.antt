-- ===== src/Audit.antt =====
-- scripts/audit_support_contamination.py: which blocks of a historical patch are support inputs, build
-- output or caches, and the patch without them. The report and the rewritten results are left out.
pub mod Parts
pub mod Partition
mod Tests
use coding_agent_support.Base.{
  ℕ, ◌+◌, Bool, true, false, not, ◌&&◌, ◌||◌, Option, none, some, List, [], ◌∷◌, ◌++◌, any, Text,
  codes, strip, starts_with, ends_with, has_text, split_char, split_lines, drop, length, count_if,
  is_empty, if◌then◌else◌, ◌==◌, nat_eq, list_eq,
}

-- whether `_CONTAMINANT_RE` matches a path
unfoldable pub is_contaminant : Text → Bool
unfolding starts_with ends_with has_text codes
is_contaminant path =
    starts_with path (codes "se_support_helper_test.py")
    || starts_with path (codes ".se_support/")
    || starts_with path (codes "build/lib/")
    || has_text path (codes "/__pycache__/")
    || ends_with path (codes ".pyc")
    || starts_with path (codes ".pytest_cache/")
    || starts_with path (codes ".mypy_cache/")
    || starts_with path (codes ".ruff_cache/")

-- a character in front of the first part
unfoldable pub push_char : ℕ → List Text → List Text
push_char c [] = (c ∷ []) ∷ []
push_char c (p ∷ parts) = (c ∷ p) ∷ parts

-- `re.split(r"(?m)^(?=diff --git )", s)`, where `at_start` tells whether a line begins
unfoldable pub split_parts : Bool → Text → List Text
unfolding push_char starts_with codes
split_parts at_start [] = [] ∷ []
split_parts at_start (c ∷ s) =
    let rest = push_char c (split_parts (c == 10) s) in
    if at_start && starts_with (c ∷ s) (codes "diff --git ") then [] ∷ rest else rest

-- what stands behind the last ` b/` of the text, which has a character before and behind it
unfoldable pub behind_last : Text → Option Text
unfolding starts_with codes
behind_last [] = none
behind_last (c ∷ s) = elim (behind_last s) [
  | some path ↦ some path
  | none ↦
      if starts_with s (codes " b/") && not (is_empty (drop 3 s)) then some (drop 3 s) else none
]

-- the path of the first line that `^diff --git a/.+ b/(.+)$` matches, stripped
unfoldable pub path_of_lines : List Text → Text
unfolding behind_last starts_with codes strip
path_of_lines [] = []
path_of_lines (line ∷ lines) =
    let rest = path_of_lines lines in
    if starts_with line (codes "diff --git a/")
    then elim (behind_last (drop 13 line)) [ none ↦ rest | some path ↦ strip path ]
    else rest

abbrev pub is_blank_part : Text → Bool
is_blank_part part = is_empty (strip part)

-- the parts that are not blank, with their paths
unfoldable pub with_paths : List Text → List (Text × Text)
unfolding path_of_lines split_char
with_paths [] = []
with_paths (part ∷ parts) =
    let rest = with_paths parts in
    if is_blank_part part then rest else (path_of_lines (split_char 10 part), part) ∷ rest

unfoldable pub split_diff_blocks : Text → List (Text × Text)
unfolding with_paths split_parts
split_diff_blocks patch = if is_blank_part patch then [] else with_paths (split_parts true patch)

pub record Sanitized : Type 0 where
  pub sanitized_patch : Text
  pub kept_paths : List Text
  pub removed_paths : List Text

unfoldable pub is_removed : Text → Bool
unfolding is_contaminant
is_removed path = not (is_empty path) && is_contaminant path

-- the loop over the blocks
unfoldable pub sanitize_blocks : List (Text × Text) → Sanitized
unfolding is_removed
sanitize_blocks [] = record { sanitized_patch = []; kept_paths = []; removed_paths = [] }
sanitize_blocks ((path, block) ∷ blocks) =
    let s = sanitize_blocks blocks in
    if is_removed path
    then record s { removed_paths = path ∷ s.removed_paths }
    else record s { sanitized_patch = block ++ s.sanitized_patch; kept_paths = path ∷ s.kept_paths }

unfoldable pub sanitize_patch : Text → Sanitized
unfolding sanitize_blocks split_diff_blocks
sanitize_patch patch = sanitize_blocks (split_diff_blocks patch)

abbrev pub is_added_line : Text → Bool
is_added_line ln = starts_with ln (codes "+") && not (starts_with ln (codes "+++"))

abbrev pub is_deleted_line : Text → Bool
is_deleted_line ln = starts_with ln (codes "-") && not (starts_with ln (codes "---"))

-- the added and the deleted lines
unfoldable pub patch_loc : Text → ℕ × ℕ
unfolding starts_with codes split_lines
patch_loc patch =
    (count_if is_added_line (split_lines patch), count_if is_deleted_line (split_lines patch))

-- the computed part of an audited run's row
pub record AuditRow : Type 0 where
  pub files_before : ℕ
  pub files_after : ℕ
  pub removed_paths : List Text
  pub helper_contaminated : Bool
  pub build_artifact_contaminated : Bool
  pub loc_before : ℕ × ℕ
  pub loc_after : ℕ × ℕ
  pub contaminated : Bool

unfoldable pub is_helper_path : Text → Bool
unfolding starts_with codes
is_helper_path p = p == codes "se_support_helper_test.py" || starts_with p (codes ".se_support/")

-- for the text of a run's final.patch
unfoldable pub audit_run : Text → AuditRow
unfolding sanitize_patch patch_loc is_helper_path starts_with codes
audit_run patch =
    let s = sanitize_patch patch in
    record {
      files_before = length s.kept_paths + length s.removed_paths;
      files_after = length s.kept_paths;
      removed_paths = s.removed_paths;
      helper_contaminated = any is_helper_path s.removed_paths;
      build_artifact_contaminated = any (λ p. starts_with p (codes "build/lib/")) s.removed_paths;
      loc_before = patch_loc patch;
      loc_after = patch_loc s.sanitized_patch;
      contaminated = not (is_empty s.removed_paths);
    }
