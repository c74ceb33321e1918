-- ===== src/Patch/Counts.antt =====
-- The line counts against an independent description of the lines that are counted.
use coding_agent_support.Base.{
  ◌+◌, ◌≡◌, Bool, true, false, not, ◌&&◌, List, [], ◌∷◌, Text, codes, starts_with, split_lines,
  count_if, arith, if◌then◌else◌, nat_eq, starts_with-other,
}
use coding_agent_support.Patch.{Tally, tally_line, tally_lines, diff_metrics}

abbrev start : Tally
start = record { files = []; added = 0; deleted = 0 }

-- an added line: it begins with a plus sign and is no header of the new file
unfoldable pub is_added : Text → Bool
is_added line = starts_with line (codes "+") && not (starts_with line (codes "+++ "))

-- a deleted line: it begins with a minus sign and is no header of the old file
unfoldable pub is_deleted : Text → Bool
is_deleted line = starts_with line (codes "-") && not (starts_with line (codes "--- "))

-- a line that begins with one sign has none of the prefixes that begin otherwise
plus_excludes :
    (line : Text)
    → starts_with line (codes "+") ≡ true
    → (starts_with line (codes "diff --git") ≡ false)
      × (starts_with line (codes "--- ") ≡ false)
      × (starts_with line (codes "@@") ≡ false)
unfolding codes
plus_excludes line h = (
  starts_with-other b'+' b'd' _ _ line (omega arith) h,
  starts_with-other b'+' b'-' _ _ line (omega arith) h,
  starts_with-other b'+' b'@' _ _ line (omega arith) h,
)

minus_excludes :
    (line : Text)
    → starts_with line (codes "-") ≡ true
    → (starts_with line (codes "diff --git") ≡ false)
      × (starts_with line (codes "+++ ") ≡ false)
      × (starts_with line (codes "@@") ≡ false)
      × (starts_with line (codes "+") ≡ false)
unfolding codes
minus_excludes line h = (
  starts_with-other b'-' b'd' _ _ line (omega arith) h,
  starts_with-other b'-' b'+' _ _ line (omega arith) h,
  starts_with-other b'-' b'@' _ _ line (omega arith) h,
  starts_with-other b'-' b'+' _ _ line (omega arith) h,
)

added-tally_line :
    (line : Text) (t : Tally)
    → (tally_line line t).added ≡ t.added + (if is_added line then 1 else 0)
unfolding tally_line is_added
added-tally_line line t = ground (arith, plus_excludes line)

deleted-tally_line :
    (line : Text) (t : Tally)
    → (tally_line line t).deleted ≡ t.deleted + (if is_deleted line then 1 else 0)
unfolding tally_line is_deleted
deleted-tally_line line t = ground (arith, minus_excludes line)

counts-tally_lines :
    (lines : List Text) (t : Tally)
    → ((tally_lines lines t).added ≡ t.added + count_if is_added lines)
      × ((tally_lines lines t).deleted ≡ t.deleted + count_if is_deleted lines)
unfolding tally_lines
counts-tally_lines [] t = (omega arith, omega arith)
counts-tally_lines (line ∷ rest) t =
    let (a, d) = counts-tally_lines rest (tally_line line t) in
    (omega (arith, a, added-tally_line line t), omega (arith, d, deleted-tally_line line t))

-- The metrics count exactly the lines that begin with one plus (minus) sign and are no file header
-- `+++ ` (`--- `): the tests on the other line kinds that stand before take none of them away.
pub diff_metrics_counts :
    (diff_text : Text)
    → let lines = split_lines diff_text in
      let m = diff_metrics diff_text in
      (m.loc_added ≡ count_if is_added lines) × (m.loc_deleted ≡ count_if is_deleted lines)
unfolding diff_metrics
diff_metrics_counts diff_text =
    let (a, d) = counts-tally_lines (split_lines diff_text) start in
    (omega (arith, a), omega (arith, d))
