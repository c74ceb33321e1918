-- ===== src/Workspace.antt =====
-- se_support/runner/workspace.py: the workspace of one run, a git repository that commands are run
-- in, and the counts of its test runs.
pub mod Counts
pub mod Clones
mod Tests
use coding_agent_support.Base.{
  ℕ, ◌+◌, ◌*◌, ◌-◌, Bool, true, false, not, ◌&&◌, Option, none, some, List, [], ◌∷◌, ◌++◌, Text,
  codes, strip, starts_with, take, length, is_empty, join, decimal, is_digit, if◌then◌else◌,
}
use coding_agent_support.Base.Integers.{ℤ, pos, negsuc, is_zero}
use coding_agent_support.Effects.{Eff, runtime_error, pure, raise, ◌>>=◌, ◌>>◌}

-- what `subprocess.run` returns
pub record CompletedProcess : Type 0 where
  pub returncode : ℤ
  pub stdout : Text
  pub stderr : Text

-- The time that the command took is left out. A meta entry `sandbox` that is missing is none.
pub record CommandRecord : Type 0 where
  pub step : Option ℕ
  pub command : Text
  pub exit_code : ℤ
  pub stdout_preview : Text
  pub stderr_preview : Text
  pub sandbox : Option Text

-- The machine that the commands run on, and the command log of the run directory, if there is one.
pub record Machine (W : Type 0) : Type 0 where
  pub subprocess : List Text → Eff W CompletedProcess
  pub append_command : Option (CommandRecord → Eff W (Unit {0}))
  -- `rmtree` of the workspace if it exists, and `copytree` of the template
  pub copy_template : Text → Eff W (Unit {0})
  pub write_patch_file : Text → Eff W (Unit {0})
  pub unlink_patch_file : Eff W (Unit {0})

abbrev pub succeeded : CompletedProcess → Bool
succeeded proc = is_zero proc.returncode

unfoldable pub int_text : ℤ → Text
unfolding decimal
int_text (pos n) = decimal n
int_text (negsuc n) = b'-' ∷ decimal (n + 1)

unfoldable pub failure_text : List Text → CompletedProcess → Text
unfolding codes join int_text
failure_text cmd proc =
    codes "command failed ("
    ++ int_text proc.returncode
    ++ codes "): "
    ++ join (codes " ") cmd
    ++ codes "\n"
    ++ proc.stderr

-- the value of the run of digits that ends with `c`, where `seen` is that of the digits before it
abbrev pub push_digit : Option ℕ → ℕ → ℕ
push_digit none c = c - b'0'
push_digit (some n) c = n * 10 + (c - b'0')

-- what a run of digits gives that ends before `s`
unfoldable pub digits_end : Option ℕ → Text → Option ℕ
digits_end none s = none
digits_end (some n) s = if starts_with s (codes " passed") then some n else none

-- the first match of `(\d+) passed` at or behind the run of digits read; `\d` reads ASCII digits
unfoldable pub passed_from : Option ℕ → Text → ℕ
unfolding is_digit digits_end
passed_from seen [] = 0
passed_from seen (c ∷ s) = elim (is_digit c) [
  | true ↦ passed_from (some (push_digit seen c)) s
  | false ↦ elim (digits_end seen (c ∷ s)) [ none ↦ passed_from none s | some n ↦ n ]
]

unfoldable pub parse_passed : Text → ℕ
unfolding passed_from
parse_passed pytest_stdout = passed_from none pytest_stdout

-- the number of passed and of all node ids, read off a test run's end
unfoldable pub pytest_counts : List Text → CompletedProcess → ℕ × ℕ
pytest_counts node_ids proc =
    if succeeded proc
    then (length node_ids, length node_ids)
    else (parse_passed proc.stdout, length node_ids)

abbrev pub log_command :
    {W : Type 0} → Option (CommandRecord → Eff W (Unit {0})) → CommandRecord → Eff W (Unit {0})
log_command none r = pure tt
log_command (some append) r = append r

abbrev pub pytest_argv : List Text → List Text
pytest_argv node_ids =
    codes "python"
    ∷ codes "-m"
    ∷ codes "pytest"
    ∷ codes "-q"
    ∷ codes "--no-header"
    ∷ codes "-p"
    ∷ codes "no:cacheprovider"
    ∷ node_ids

-- `if b: raise RuntimeError(message)`
abbrev pub raise_if : {W : Type 0} → Bool → Text → Eff W (Unit {0})
raise_if true message = raise (runtime_error message)
raise_if false message = pure tt

module _ {W : Type 0} (sys : Machine W) where
  -- `_run`
  unfoldable pub run_command : List Text → Option ℕ → Bool → Eff W CompletedProcess
  unfolding failure_text
  run_command cmd step check = do
    proc ← sys.subprocess cmd
    log_command sys.append_command (record {
      step = step;
      command = join (codes " ") cmd;
      exit_code = proc.returncode;
      stdout_preview = take 2000 proc.stdout;
      stderr_preview = take 2000 proc.stderr;
      sandbox = none;
    })
    raise_if (check && not (succeeded proc)) (failure_text cmd proc)
    pure proc

  unfoldable pub git : List Text → Bool → Eff W CompletedProcess
  unfolding run_command
  git words check = run_command (codes "git" ∷ words) none check

  unfoldable pub from_template : Text → Eff W (Unit {0})
  unfolding git
  from_template template = do
    sys.copy_template template
    git (codes "init" ∷ codes "-q" ∷ []) true
    git (codes "config" ∷ codes "user.email" ∷ codes "runner@se-support.local" ∷ []) true
    git (codes "config" ∷ codes "user.name" ∷ codes "se-support-runner" ∷ []) true
    git (codes "add" ∷ codes "-A" ∷ []) true
    git (codes "commit" ∷ codes "-qm" ∷ codes "base" ∷ []) true
    pure tt

  unfoldable pub is_dirty : Eff W Bool
  unfolding git
  is_dirty = do
    proc ← git (codes "status" ∷ codes "--porcelain" ∷ []) false
    pure (not (is_empty (strip proc.stdout)))

  unfoldable pub revert_all : Eff W (Unit {0})
  unfolding git
  revert_all = do
    git (codes "checkout" ∷ codes "--" ∷ codes "." ∷ []) false
    git (codes "clean" ∷ codes "-fdq" ∷ []) false
    pure tt

  unfoldable pub apply_patch : Text → Bool → Eff W Bool
  unfolding git
  apply_patch diff_text check = if is_empty (strip diff_text) then pure true else (do
    sys.write_patch_file diff_text
    proc ←
        git (codes "apply" ∷ codes "--whitespace=nowarn" ∷ codes ".se_support_apply.patch" ∷ [])
          false
    sys.unlink_patch_file
    raise_if (check && not (succeeded proc)) (codes "patch did not apply:\n" ++ proc.stderr)
    pure (succeeded proc))

  unfoldable pub final_diff : Eff W Text
  unfolding git
  final_diff = do
    git
        (codes "add"
          ∷ codes "-A"
          ∷ codes "--"
          ∷ codes "."
          ∷ codes ":(exclude)**/__pycache__/**"
          ∷ codes ":(exclude)**/*.pyc"
          ∷ [])
        true
    proc ← git (codes "diff" ∷ codes "--cached" ∷ codes "HEAD" ∷ []) true
    pure proc.stdout

  unfoldable pub run_pytest : List Text → Option ℕ → Eff W (ℕ × ℕ)
  unfolding run_command pytest_counts
  run_pytest node_ids step = if is_empty node_ids then pure (0, 0) else (do
    proc ← run_command (pytest_argv node_ids) step false
    pure (pytest_counts node_ids proc))
