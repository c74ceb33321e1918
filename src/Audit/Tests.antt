-- ===== src/Audit/Tests.antt =====
-- A patch with a helper test in front of a change.
use coding_agent_support.Base.{
  ◌≡◌, refl, true, false, [], ◌∷◌, ◌++◌, Text, codes, list_beq, list_eq, nat_eq, strip,
}
use coding_agent_support.Audit.{sanitize_patch, audit_run}
use coding_agent_support.Audit.Partition.{IsSanitized, sanitize_patch-IsSanitized}

abbrev helper_block : Text
helper_block = codes "diff --git a/build/lib/x.py b/build/lib/x.py\n+++ b/build/lib/x.py\n+a\n"

abbrev source_block : Text
source_block = codes "diff --git a/f.py b/g b/f.py\n--- a/f.py\n-old\n+new\n"

helper_removed : sanitize_patch (helper_block ++ source_block) ≡ record {
  sanitized_patch = source_block;
  kept_paths = codes "f.py" ∷ [];
  removed_paths = codes "build/lib/x.py" ∷ [];
}
unfolding sanitize_patch codes list_beq strip
helper_removed = refl

counts : audit_run (helper_block ++ source_block) ≡ record {
  files_before = 2;
  files_after = 1;
  removed_paths = codes "build/lib/x.py" ∷ [];
  helper_contaminated = false;
  build_artifact_contaminated = true;
  loc_before = (2, 1);
  loc_after = (1, 1);
  contaminated = true;
}
unfolding audit_run codes list_beq strip
counts = refl

sanitize_patch-IsSanitized_example :
    IsSanitized (codes "\n" ++ source_block) (sanitize_patch (codes "\n" ++ source_block))
sanitize_patch-IsSanitized_example = sanitize_patch-IsSanitized (codes "\n" ++ source_block)
