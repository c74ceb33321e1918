-- ===== src/Patch/Tests.antt =====
-- A diff of two files, and the theorems at it.
use coding_agent_support.Base.{
  IsDistinct, ◌≡◌, refl, Text, codes, ◌++◌, ◌∷◌, [], split_lines, strip, starts_with, list_beq,
  count_if, any, contains, length, list_eq, nat_eq,
}
use coding_agent_support.Patch.{
  diff_metrics, tally_lines, tally_line, changed_path, header_path, add_file, without_prefix,
}
use coding_agent_support.Patch.Counts.{is_added, is_deleted, diff_metrics_counts}
use coding_agent_support.Patch.Files.{names, diff_metrics_files}

abbrev diff : Text
diff =
    codes "diff --git a/x.py b/x.py\n--- a/x.py\n+++ b/x.py\n@@ -1 +1 @@\n-a\n+b\n+c\n"
    ++ codes "--- /dev/null\n+++ b/y.sql\n@@ -0,0 +1 @@\n+d\n--- an old comment\n"

-- The last line deletes `-- an old comment`, and is taken for a header.
diff_metrics-diff :
    let m = diff_metrics diff in
    (m.files_touched ≡ 2)
    × (m.loc_added ≡ 3)
    × (m.loc_deleted ≡ 1)
    × (m.files ≡ codes "x.py" ∷ codes "y.sql" ∷ [])
unfolding diff_metrics tally_lines tally_line changed_path header_path add_file without_prefix
    split_lines strip starts_with list_beq codes
diff_metrics-diff = (refl, refl, refl, refl)

diff_metrics_counts_example :
    let lines = split_lines diff in
    let m = diff_metrics diff in
    (m.loc_added ≡ count_if is_added lines) × (m.loc_deleted ≡ count_if is_deleted lines)
diff_metrics_counts_example = diff_metrics_counts diff

diff_metrics_files_example :
    let m = diff_metrics diff in
    IsDistinct m.files
    × (m.files_touched ≡ length m.files)
    × ((path : Text) → contains m.files path ≡ any (names path) (split_lines diff))
diff_metrics_files_example = diff_metrics_files diff
