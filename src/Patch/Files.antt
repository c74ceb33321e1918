-- ===== src/Patch/Files.antt =====
-- The list of touched files.
use coding_agent_support.Base.{
  ◌≡◌, refl, Bool, true, false, ◌&&◌, ◌||◌, Option, none, some, List, [], ◌∷◌, Text, codes,
  starts_with, starts_with-other, split_lines, any, contains, contains-snoc, IsDistinct,
  IsDistinct-snoc, length, arith, ◌==◌, nat_eq, list_eq, Bool-cases, ==_iff, inl, inr,
}
use coding_agent_support.Patch.{
  Tally, header_path, changed_path, add_file, tally_line, tally_lines, diff_metrics,
}

-- `line` is the header of the new version of the file `path`
unfoldable pub names : Text → Text → Bool
names path line =
    starts_with line (codes "+++ ")
    && (elim (header_path line) [ none ↦ false | some p ↦ p == path ])

add_file-IsDistinct :
    (o : Option Text) (ps : List Text) → IsDistinct ps → IsDistinct (add_file o ps)
unfolding add_file
add_file-IsDistinct none ps d = d
add_file-IsDistinct (some p) ps d = elim (Bool-cases (contains ps p)) [
  | inl old ↦ rw old d
  | inr new ↦ rw new (IsDistinct-snoc ps p d new)
]

tally_line-IsDistinct :
    (line : Text) (t : Tally) → IsDistinct t.files → IsDistinct (tally_line line t).files
unfolding tally_line
tally_line-IsDistinct line t d = ground (arith, add_file-IsDistinct (changed_path line) t.files d)

tally_lines-IsDistinct :
    (lines : List Text) (t : Tally) → IsDistinct t.files → IsDistinct (tally_lines lines t).files
unfolding tally_lines
tally_lines-IsDistinct [] t d = d
tally_lines-IsDistinct (line ∷ rest) t d =
    tally_lines-IsDistinct rest _ (tally_line-IsDistinct line t d)

contains-add_file :
    (o : Option Text) (ps : List Text) (q : Text)
    → contains (add_file o ps) q ≡ (contains ps q || elim o [ none ↦ false | some p ↦ p == q ])
unfolding add_file
contains-add_file none ps q = ground arith
contains-add_file (some p) ps q = ground (arith, contains-snoc ps p q, ==_iff p q)

header_excludes :
    (line : Text)
    → starts_with line (codes "+++ ") ≡ true
    → starts_with line (codes "diff --git") ≡ false
unfolding codes
header_excludes line h = starts_with-other b'+' b'd' _ _ line (omega arith) h

contains-tally_line :
    (line : Text) (t : Tally) (q : Text)
    → contains (tally_line line t).files q ≡ (contains t.files q || names q line)
unfolding tally_line names changed_path
contains-tally_line line t q =
    ground (arith, header_excludes line, contains-add_file (header_path line) t.files q)

contains-tally_lines :
    (lines : List Text) (t : Tally) (q : Text)
    → contains (tally_lines lines t).files q ≡ (contains t.files q || any (names q) lines)
unfolding tally_lines
contains-tally_lines [] t q = ground arith
contains-tally_lines (line ∷ rest) t q =
    ground (arith, contains-tally_lines rest (tally_line line t) q, contains-tally_line line t q)

abbrev start : Tally
start = record { files = []; added = 0; deleted = 0 }

-- No file is listed twice, the number of files is that of the listed ones, and a path is listed
-- exactly if some header line `+++ ` of the diff names it.
pub diff_metrics_files :
    (diff_text : Text)
    → let m = diff_metrics diff_text in
      IsDistinct m.files
      × (m.files_touched ≡ length m.files)
      × ((path : Text) → contains m.files path ≡ any (names path) (split_lines diff_text))
unfolding diff_metrics
diff_metrics_files diff_text = (
  tally_lines-IsDistinct (split_lines diff_text) start tt,
  refl,
  λ path. contains-tally_lines (split_lines diff_text) start path,
)
