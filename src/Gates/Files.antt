-- ===== src/Gates/Files.antt =====
-- se_support/support/gate_policy.py: the files that a diff changes, and the tools that the
-- repository configures.
use coding_agent_support.Base.{
  Bool, not, ◌&&◌, ◌||◌, List, [], ◌∷◌, ◌++◌, Text, codes, strip, starts_with, ends_with, has_text,
  lower, split_lines, split_char, last_part, drop, drop_last, insert_sorted, is_empty, contains,
  if◌then◌else◌, ◌==◌, list_eq, nat_eq,
}
use coding_agent_support.Base.Integers.{ℤ, is_zero}
use coding_agent_support.Effects.{Eff, pure, ◌>>=◌}

-- what one line of the diff adds
unfoldable pub changed_in_line : Text → List Text
changed_in_line ln =
    if starts_with ln (codes "+++ b/")
    then (let p = strip (drop 6 ln) in
        if not (is_empty p) && not (p == codes "/dev/null") then p ∷ [] else [])
    else []

changed_in_lines : List Text → List Text
unfolding changed_in_line
changed_in_lines [] = []
changed_in_lines (ln ∷ rest) = changed_in_line ln ++ changed_in_lines rest

unfoldable pub changed_files_from_diff : Text → List Text
unfolding changed_in_lines
changed_files_from_diff diff = changed_in_lines (split_lines diff)

-- `_CONFIG_FILES`
unfoldable pub config_files : List Text
config_files =
    codes "pyproject.toml"
    ∷ codes "setup.cfg"
    ∷ codes "tox.ini"
    ∷ codes ".flake8"
    ∷ codes "ruff.toml"
    ∷ codes ".ruff.toml"
    ∷ codes "mypy.ini"
    ∷ []

-- the tools that a configuration file stands for by its name
unfoldable pub tool_of_file : Text → List Text
tool_of_file f =
    if f == codes ".flake8"
    then codes "flake8" ∷ []
    else if f == codes "ruff.toml" || f == codes ".ruff.toml"
    then codes "ruff" ∷ []
    else if f == codes "mypy.ini"
    then codes "mypy" ∷ []
    else []

unfoldable pub is_configured_in : Text → Text → Bool
is_configured_in low tool =
    has_text low (codes "[" ++ tool ++ codes "]")
    || has_text low (codes "tool." ++ tool)
    || has_text low (codes "[tool." ++ tool ++ codes "]")
    || has_text low (codes "\n" ++ tool)

unfoldable pub known_tools : List Text
known_tools = codes "ruff" ∷ codes "flake8" ∷ codes "mypy" ∷ codes "black" ∷ codes "isort" ∷ []

-- `found.add(tool)` for a set in the order of insertion
abbrev pub add_tool : Text → List Text → List Text
add_tool tool found = if contains found tool then found else found ++ tool ∷ []

abbrev add_tools : List Text → List Text → List Text
add_tools [] found = found
add_tools (t ∷ ts) found = add_tools ts (add_tool t found)

find_tools : Text → List Text → List Text → List Text
find_tools low [] found = found
find_tools low (tool ∷ rest) found =
    find_tools low rest (if is_configured_in low tool then add_tool tool found else found)

module _ {W : Type 0} (exec : List Text → Eff W (ℤ × Text)) where
  -- the loop over the configuration files: the texts read and the tools found
  read_configs : List Text → Text → List Text → Eff W (Text × List Text)
  read_configs [] blob found = pure (blob, found)
  read_configs (f ∷ rest) blob found = exec (codes "cat" ∷ f ∷ []) >>= λ (code, out).
      let there = is_zero code && not (is_empty out) in
      read_configs rest (if there then blob ++ codes "\n" ++ out else blob)
        (if there then add_tools (tool_of_file f) found else found)

  unfoldable pub detect_configured_tools : Eff W (List Text)
  unfolding read_configs find_tools
  detect_configured_tools = do
    (blob, found) ← read_configs config_files [] []
    pure (find_tools (lower blob) known_tools found)

in_package : List Text → Text → List Text
in_package [] stem = []
in_package (pkg ∷ rest) stem =
    if is_empty pkg then [] else (pkg ++ codes "/tests/test_" ++ stem ++ codes ".py") ∷ []

-- the test files that one changed file stands for
unfoldable pub targets_of : Text → List Text
unfolding in_package
targets_of f =
    let base = last_part b'/' f in
    let stem = drop_last 3 base in
    if not (ends_with f (codes ".py"))
    then []
    else if starts_with base (codes "test_") || ends_with base (codes "_test.py")
    then f ∷ []
    else (codes "tests/test_" ++ stem ++ codes ".py") ∷ in_package (split_char b'/' f) stem

insert_all : List Text → List Text → List Text
insert_all [] targets = targets
insert_all (t ∷ ts) targets = insert_all ts (insert_sorted t targets)

collect_targets : List Text → List Text → List Text
unfolding insert_all
collect_targets [] targets = targets
collect_targets (f ∷ rest) targets = collect_targets rest (insert_all (targets_of f) targets)

-- `_changed_test_targets`
unfoldable pub changed_test_targets : List Text → List Text
unfolding collect_targets
changed_test_targets files = collect_targets files []
