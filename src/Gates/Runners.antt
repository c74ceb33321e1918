-- ===== src/Gates/Runners.antt =====
-- se_support/support/gate_policy.py: the gates. Each runs its commands through `exec` and returns
-- whether it passed, the number of warnings and a preview. `loads` is `json.loads`, `none` where it
-- raises JSONDecodeError.
use coding_agent_support.Base.{
  Bool, true, not, ◌&&◌, ◌||◌, Option, none, some, List, [], ◌∷◌, ◌++◌, map, Text, codes, strip,
  ends_with, has_text, lower, split_lines, last_part, take, take_last, drop_last, replace_char,
  count_text, join, filter, is_empty, contains, if◌then◌else◌, ◌==◌, list_eq, nat_eq, parse_int,
}
use coding_agent_support.Base.Integers.{ℤ, pos, negsuc, is_zero}
use coding_agent_support.Effects.{Eff, Result, ok, err, key_error, pure, raise, lift, ◌>>=◌}
use coding_agent_support.Json.{Json, arr, nil, json_len, json_get}
use coding_agent_support.Gates.Files.{changed_test_targets}

pub record GateOutcome : Type 0 where
  pub passed : Bool
  pub count : ℤ
  pub preview : Text

-- the context dict of the runners of version 2
pub record GateContext : Type 0 where
  pub changed_files : List Text
  pub configured : List Text

abbrev unavailable : Text → GateOutcome
unavailable why = record { passed = true; count = negsuc 0; preview = why }

-- the outcome of a gate that passes if its command exits with 0
abbrev by_exit_code : ℤ → Text → GateOutcome
by_exit_code code preview = record {
  passed = is_zero code;
  count = if is_zero code then pos 0 else pos 1;
  preview = preview;
}

abbrev or_text : Text → Text → Text
or_text out d = if is_empty out then d else out

unfoldable pub is_missing_tool : Text → Bool
is_missing_tool out =
    has_text (lower out) (codes "not found") || has_text (lower out) (codes "no such file")

module _ {W : Type 0} (loads : Text → Option Json) (exec : List Text → Eff W (ℤ × Text)) where
  unfoldable pub gate_compileall : Eff W GateOutcome
  gate_compileall = do
    (code, out) ← exec (map codes ("python" ∷ "-m" ∷ "compileall" ∷ "-q" ∷ "." ∷ []))
    pure (by_exit_code code (take 500 out))

  -- the number of entries, -1 if the text does not parse
  json_count : Option Json → Result ℤ
  json_count none = ok (negsuc 0)
  json_count (some v) = elim (json_len v) [ ok n ↦ ok (pos n) | err e ↦ err e ]

  results_count : Option Json → Result ℤ
  unfolding json_count
  results_count none = ok (negsuc 0)
  results_count (some v) = elim (json_get (codes "results") (arr nil) v) [
    | ok r ↦ json_count (some r)
    | err e ↦ err e
  ]

  unfoldable pub gate_ruff : Eff W GateOutcome
  unfolding json_count
  gate_ruff = do
    (code, out) ← exec (map codes ("ruff" ∷ "check" ∷ "--output-format=json" ∷ "." ∷ []))
    if is_missing_tool out then pure (unavailable (codes "ruff unavailable")) else do
      n ← lift (json_count (loads (or_text out (codes "[]"))))
      pure (record { passed = true; count = n; preview = take 500 out })

  unfoldable pub gate_bandit : Eff W GateOutcome
  unfolding results_count
  gate_bandit = do
    (code, out) ← exec (map codes ("bandit" ∷ "-q" ∷ "-r" ∷ "-f" ∷ "json" ∷ "." ∷ []))
    if is_missing_tool out then pure (unavailable (codes "bandit unavailable")) else do
      n ← lift (results_count (loads (or_text out (codes "{}"))))
      pure (record { passed = true; count = n; preview = [] })

  -- a changed module that is no test
  is_source : Text → Bool
  is_source f = ends_with f (codes ".py") && not (has_text (last_part b'/' f) (codes "test"))

  import_of : Text → Text
  import_of f = codes "__import__('" ++ replace_char b'/' b'.' (drop_last 3 f) ++ codes "')"

  run_import : List Text → Eff W GateOutcome
  unfolding import_of
  run_import [] =
      pure (record { passed = true; count = pos 0; preview = codes "no changed modules" })
  run_import (f ∷ rest) = do
    let expr = join (codes "; ") (map import_of (take 20 (f ∷ rest)))
    (code, out) ← exec (codes "python" ∷ codes "-c" ∷ expr ∷ [])
    pure (by_exit_code code (take 500 out))

  unfoldable pub gate_import : GateContext → Eff W GateOutcome
  unfolding run_import is_source
  gate_import ctx = run_import (filter is_source ctx.changed_files)

  -- the targets that `test -f` finds
  unfoldable pub existing_targets : List Text → Eff W (List Text)
  existing_targets [] = pure []
  existing_targets (t ∷ rest) = exec (codes "test" ∷ codes "-f" ∷ t ∷ []) >>= λ (code, _).
      existing_targets rest >>= λ found. pure (if is_zero code then t ∷ found else found)

  abbrev pub pytest_command : List Text
  pytest_command =
      map codes ("python" ∷ "-m" ∷ "pytest" ∷ "-q" ∷ "--no-header" ∷ "-p" ∷ "no:cacheprovider" ∷ [])

  unfoldable pub run_targets : List Text → Eff W GateOutcome
  run_targets [] = pure (record {
    passed = true;
    count = pos 0;
    preview = codes "no repo-native tests map to the change";
  })
  run_targets (t ∷ rest) = do
    (code, out) ← exec (pytest_command ++ t ∷ rest)
    pure (by_exit_code code (take_last 600 out))

  unfoldable pub gate_targeted_tests : GateContext → Eff W GateOutcome
  unfolding existing_targets run_targets
  gate_targeted_tests ctx =
      existing_targets (changed_test_targets ctx.changed_files) >>= run_targets

  unfoldable pub gate_ruff_configured : GateContext → Eff W GateOutcome
  unfolding gate_ruff
  gate_ruff_configured ctx =
      if contains ctx.configured (codes "ruff")
      then gate_ruff
      else pure (unavailable (codes "ruff not configured by repo"))

  last_line : List Text → Text
  last_line [] = codes "0"
  last_line (l ∷ []) = l
  last_line (l ∷ m ∷ rest) = last_line (m ∷ rest)

  or_minus_one : Option ℤ → ℤ
  or_minus_one none = negsuc 0
  or_minus_one (some n) = n

  unfoldable pub gate_flake8_configured : GateContext → Eff W GateOutcome
  unfolding last_line or_minus_one
  gate_flake8_configured ctx =
      if contains ctx.configured (codes "flake8")
      then (do
        (code, out) ← exec (map codes ("flake8" ∷ "--count" ∷ "." ∷ []))
        if has_text (lower out) (codes "not found")
            then pure (unavailable (codes "flake8 unavailable"))
            else (let n = or_minus_one (parse_int (strip (last_line (split_lines (strip out))))) in
                pure (record { passed = true; count = n; preview = take 400 out })))
      else pure (unavailable (codes "flake8 not configured by repo"))

  unfoldable pub gate_mypy_configured : GateContext → Eff W GateOutcome
  gate_mypy_configured ctx =
      if contains ctx.configured (codes "mypy")
      then (do
        (code, out) ← exec (map codes ("mypy" ∷ "." ∷ []))
        if has_text (lower out) (codes "not found")
            then pure (unavailable (codes "mypy unavailable"))
            else pure (record {
              passed = true;
              count = pos (count_text (codes "error:") (lower out));
              preview = take_last 400 out;
            }))
      else pure (unavailable (codes "mypy not configured by repo"))

  -- `_RUNNERS[name](exec_fn)`
  unfoldable pub runner : Text → Eff W GateOutcome
  runner name =
      if name == codes "compileall"
      then gate_compileall
      else if name == codes "ruff"
      then gate_ruff
      else if name == codes "bandit"
      then gate_bandit
      else raise key_error

  -- `_RUNNERS_V2[name](exec_fn, ctx)`
  unfoldable pub runner_v2 : Text → GateContext → Eff W GateOutcome
  runner_v2 name ctx =
      if name == codes "compileall"
      then gate_compileall
      else if name == codes "import"
      then gate_import ctx
      else if name == codes "targeted_tests"
      then gate_targeted_tests ctx
      else if name == codes "ruff"
      then gate_ruff_configured ctx
      else if name == codes "flake8"
      then gate_flake8_configured ctx
      else if name == codes "mypy"
      then gate_mypy_configured ctx
      else raise key_error
