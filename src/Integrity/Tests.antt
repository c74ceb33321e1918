-- ===== src/Integrity/Tests.antt =====
-- Small trees, and the theorem at one.
use coding_agent_support.Base.{
  ◌≡◌, refl, [], ◌∷◌, Text, codes, true, false, list_beq, strip, list_eq, nat_eq, all, split_lines,
}
use coding_agent_support.Integrity.{classify_git_state, instance_image_name, build_patch_manifest}
use coding_agent_support.Integrity.Trees.{classify_git_state-clean, is_explained}

abbrev porcelain : Text
porcelain = codes "?? build/lib/a.py\n?? x/__pycache__/a.pyc\n"

image :
    instance_image_name (codes "a__b-1") (codes "swebench") (codes "x86_64")
    ≡ codes "swebench/sweb.eval.x86_64.a_1776_b-1:latest"
unfolding instance_image_name codes
image = refl

leak :
    (build_patch_manifest
      (λ t. t)
      []
      (codes "a.py" ∷ codes ".se_support/helper_test.py" ∷ [])
      []).helper_leak
    ≡ true
unfolding build_patch_manifest codes list_beq
leak = refl

clean_at_start : (classify_git_state (λ t. t) porcelain [] [] false).clean ≡ true
unfolding classify_git_state codes list_beq strip
clean_at_start = refl

modified : (classify_git_state (λ t. t) (codes " M a.py") [] [] false).clean ≡ false
unfolding classify_git_state codes list_beq strip
modified = refl

classify_git_state-clean_example :
    (classify_git_state (λ t. t) porcelain [] [] false).clean
    ≡ all (is_explained false []) (split_lines porcelain)
classify_git_state-clean_example = classify_git_state-clean (λ t. t) porcelain [] [] false
