-- ===== src/Integrity.antt =====
-- se_support/runner/container_workspace.py: what the working tree's state and the final patch say of
-- the integrity of a run.
pub mod Trees
mod Tests
use coding_agent_support.Base.{
  ℕ, Bool, true, false, not, ◌&&◌, ◌||◌, Option, none, some, List, [], ◌∷◌, ◌++◌, Text, codes,
  split_lines, strip, take, drop, filter, any, contains, is_empty, insert_sorted, starts_with,
  has_text, after, ◌==◌, list_eq, nat_eq, if◌then◌else◌,
}

-- the prefixes of support paths
unfoldable pub support_prefix : Text
support_prefix = codes ".se_support/"

unfoldable pub legacy_helper : Text
legacy_helper = codes "se_support_helper_test.py"

abbrev ephemeral : List Text
ephemeral =
    codes "__pycache__"
    ∷ codes ".pyc"
    ∷ codes ".pytest_cache"
    ∷ codes ".mypy_cache"
    ∷ codes ".ruff_cache"
    ∷ codes ".coverage"
    ∷ codes "htmlcov"
    ∷ []

unfoldable pub is_allowed : Text → Bool
unfolding starts_with has_text support_prefix legacy_helper
is_allowed path =
    starts_with path support_prefix
    || starts_with path legacy_helper
    || any (λ e. has_text path e) ephemeral

pub record GitState : Type 0 where
  pub head : Text
  pub porcelain_sha256 : Text
  pub tracked_changes : List Text
  pub untracked_files : List Text
  pub base_untracked : List Text
  pub unexplained_changes : List Text
  pub clean : Bool

-- a line of `git status --porcelain=v1`
abbrev pub is_untracked : Text → Bool
is_untracked line = take 2 line == codes "??"

abbrev pub path_of : Text → Text
path_of line = strip (drop 3 line)

unfoldable pub is_blank : Text → Bool
is_blank line = is_empty (strip line)

-- the tracked and the untracked paths of the lines
unfoldable pub sort_lines : List Text → List Text × List Text
unfolding is_blank
sort_lines [] = ([], [])
sort_lines (line ∷ rest) =
    let (tracked, untracked) = sort_lines rest in
    if is_blank line
    then (tracked, untracked)
    else if is_untracked line
    then (tracked, path_of line ∷ untracked)
    else (path_of line ∷ tracked, untracked)

-- `sorted(set(paths))`
unfoldable pub sorted_set : List Text → List Text
unfolding insert_sorted
sorted_set [] = []
sorted_set (p ∷ ps) = insert_sorted p (sorted_set ps)

unfoldable pub bad_tracked : List Text → List Text
unfolding is_allowed
bad_tracked = filter (λ p. not (is_allowed p))

unfoldable pub bad_untracked : Bool → List Text → List Text → List Text
unfolding is_allowed
bad_untracked strict baseline untracked =
    if strict then filter (λ p. not (is_allowed p) && not (contains baseline p)) untracked else []

-- `hash` is SHA-256 in hexadecimal digits
unfoldable pub classify_git_state : (Text → Text) → Text → Text → List Text → Bool → GitState
unfolding sort_lines sorted_set split_lines bad_tracked bad_untracked
classify_git_state hash porcelain head baseline strict =
    let (tracked, untracked) = sort_lines (split_lines porcelain) in
    let unexplained = bad_tracked tracked ++ bad_untracked strict baseline untracked in
    record {
      head = head;
      porcelain_sha256 = hash porcelain;
      tracked_changes = tracked;
      untracked_files = untracked;
      base_untracked = sorted_set baseline;
      unexplained_changes = unexplained;
      clean = is_empty unexplained;
    }

pub record PatchManifest : Type 0 where
  pub extractor_version : Text
  pub included_paths : List Text
  pub excluded_globs : List Text
  pub patch_sha256 : Text
  pub helper_leak : Bool

unfoldable pub is_leak : Text → Bool
unfolding starts_with legacy_helper support_prefix
is_leak path = path == legacy_helper || starts_with path support_prefix

unfoldable pub build_patch_manifest : (Text → Text) → Text → List Text → List Text → PatchManifest
unfolding is_leak
build_patch_manifest hash patch included globs = record {
  extractor_version = codes "2";
  included_paths = included;
  excluded_globs = globs;
  patch_sha256 = hash patch;
  helper_leak = any is_leak included;
}

-- `s.replace("__", "_1776_")`; `open_` tells whether an underscore waits for a second one
unfoldable pub encode_from : Bool → Text → Text
unfolding codes
encode_from false [] = []
encode_from true [] = b'_' ∷ []
encode_from false (c ∷ s) = elim (c == b'_') [
  | true ↦ encode_from true s
  | false ↦ c ∷ encode_from false s
]
encode_from true (c ∷ s) = elim (c == b'_') [
  | true ↦ codes "_1776_" ++ encode_from false s
  | false ↦ b'_' ∷ c ∷ encode_from false s
]

unfoldable pub instance_image_name : Text → Text → Text → Text
unfolding encode_from
instance_image_name instance_id namespace arch =
    namespace
    ++ codes "/sweb.eval."
    ++ arch
    ++ codes "."
    ++ encode_from false instance_id
    ++ codes ":latest"
