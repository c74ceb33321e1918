-- ===== src/Patch.antt =====
-- se_support/runner/patch_utils.py: the metrics of a unified diff.
pub mod Files
pub mod Counts
mod Tests
use coding_agent_support.Base.{
  ℕ, zero, suc, ◌+◌, Bool, true, false, Option, none, some, List, [], ◌∷◌, ◌++◌, Text, codes, strip,
  starts_with, after, split_lines, drop, length, is_empty, contains, if◌then◌else◌, ◌==◌, nat_eq,
  list_eq,
}

pub record DiffMetrics : Type 0 where
  pub files_touched : ℕ
  pub loc_added : ℕ
  pub loc_deleted : ℕ
  pub files : List Text

-- `p[len(prefix):]` if `p` begins with the prefix
unfoldable pub without_prefix : Text → Text → Text
without_prefix prefix p = if starts_with p prefix then after prefix p else p

-- the path in a header line, from its fifth character on
unfoldable pub header_path : Text → Option Text
unfolding without_prefix
header_path line =
    let p = strip (drop 4 line) in
    if p == codes "/dev/null"
    then none
    else let q = without_prefix (codes "b/") (without_prefix (codes "a/") p) in
      if is_empty q then none else some q

unfoldable pub changed_path : Text → Option Text
unfolding header_path
changed_path line =
    if starts_with line (codes "+++ ")
    then header_path line
    else if starts_with line (codes "--- ")
    then header_path line
    else none

-- `if path and path not in files: files.append(path)`
unfoldable pub add_file : Option Text → List Text → List Text
add_file none files = files
add_file (some path) files = if contains files path then files else files ++ path ∷ []

-- the variables of the loop of `diff_metrics`
pub record Tally : Type 0 where
  pub files : List Text
  pub added : ℕ
  pub deleted : ℕ

-- one round of the loop
unfoldable pub tally_line : Text → Tally → Tally
tally_line line t =
    if starts_with line (codes "diff --git")
    then t
    else if starts_with line (codes "+++ ")
    then record t { files = add_file (changed_path line) t.files }
    else if starts_with line (codes "--- ")
    then t
    else if starts_with line (codes "@@")
    then t
    else if starts_with line (codes "+")
    then record t { added = t.added + 1 }
    else if starts_with line (codes "-")
    then record t { deleted = t.deleted + 1 }
    else t

unfoldable pub tally_lines : List Text → Tally → Tally
tally_lines [] t = t
tally_lines (line ∷ rest) t = tally_lines rest (tally_line line t)

unfoldable pub diff_metrics : Text → DiffMetrics
diff_metrics diff_text =
    let t = tally_lines (split_lines diff_text) (record { files = []; added = 0; deleted = 0 }) in
    record {
      files_touched = length t.files;
      loc_added = t.added;
      loc_deleted = t.deleted;
      files = t.files;
    }

unfoldable pub changed_files : Text → List Text
unfolding diff_metrics
changed_files diff_text = (diff_metrics diff_text).files
