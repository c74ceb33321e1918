-- ===== src/Workspace/Clones.antt =====
-- Workspaces of real repositories, of se_support/runner/workspace.py, and the agent's commands in
-- them; and scrub_git_history of se_support/isolation/scrub.py.
use coding_agent_support.Base.{
  Bool, true, false, Option, none, some, List, [], ◌∷◌, ◌++◌, Text, codes, take, if◌then◌else◌, ℕ,
}
use coding_agent_support.Effects.{Eff, pure, ◌>>=◌, ◌>>◌}
use coding_agent_support.Workspace.{Machine, CompletedProcess, succeeded, log_command, git}
use coding_agent_support.Isolation.Sandbox.{
  SandboxPolicy, Backend, bwrap, unshare, none_found, backend_text, build_sandbox_argv,
}

-- the directory that a command starts in: none is that of the process
abbrev pub cwd_of : Backend → Text → Option Text
cwd_of bwrap path = none
cwd_of unshare path = some path
cwd_of none_found path = some path

module _ {W : Type 0} (sys : Machine W) where
  identify : Eff W (Unit {0})
  unfolding git
  identify = do
    git sys (codes "config" ∷ codes "user.email" ∷ codes "runner@se-support.local" ∷ []) true
    git sys (codes "config" ∷ codes "user.name" ∷ codes "se-support-runner" ∷ []) true
    pure tt

  -- a shallow fetch of the commit, or a full one where it fails
  unfoldable pub fetch_commit : Text → Eff W (Unit {0})
  unfolding git
  fetch_commit base_commit = do
    fetched ←
        git sys (codes "fetch" ∷ codes "--depth" ∷ codes "1" ∷ codes "origin" ∷ base_commit ∷ [])
          false
    if succeeded fetched
        then pure tt
        else (git sys (codes "fetch" ∷ codes "origin" ∷ base_commit ∷ []) true >>= λ proc. pure tt)

  -- `renew` removes the directory if it exists, and makes it.
  unfoldable pub from_git : Eff W (Unit {0}) → Text → Text → Text → Eff W (Unit {0})
  unfolding git identify fetch_commit
  from_git renew remote_base repo base_commit = do
    renew
    git sys (codes "init" ∷ codes "-q" ∷ []) true
    identify
    git sys
        (codes "remote"
          ∷ codes "add"
          ∷ codes "origin"
          ∷ (remote_base ++ codes "/" ++ repo ++ codes ".git")
          ∷ [])
        true
    fetch_commit base_commit
    git sys (codes "checkout" ∷ codes "-q" ∷ base_commit ∷ []) true
    git sys (codes "checkout" ∷ codes "-q" ∷ codes "-B" ∷ codes "se_support_base" ∷ []) true
    pure tt

  -- The policy's programs and paths are looked up on the host; `subprocess` runs a command in a
  -- directory.
  unfoldable pub run_sandboxed :
      Bool
      → Bool
      → (Text → Bool)
      → (Option Text → List Text → Eff W CompletedProcess)
      → Text
      → Text
      → SandboxPolicy
      → Option ℕ
      → Eff W (CompletedProcess × Backend)
  unfolding build_sandbox_argv backend_text codes
  run_sandboxed has_bwrap has_unshare exists subprocess path bash_command policy step =
      let (argv, backend) =
        build_sandbox_argv has_bwrap has_unshare exists
          (codes "bash" ∷ codes "-lc" ∷ bash_command ∷ []) path policy in
      subprocess (cwd_of backend path) argv >>= λ proc.
      log_command sys.append_command (record {
        step = step;
        command = bash_command;
        exit_code = proc.returncode;
        stdout_preview = take 2000 proc.stdout;
        stderr_preview = take 2000 proc.stderr;
        sandbox = some (backend_text backend);
      })
      >>= λ logged. pure (proc, backend)

-- `remove_gitdir` removes the directory `.git` if it exists; `checked_git` raises where a command fails.
unfoldable pub scrub_git_history :
    {W : Type 0} → Eff W (Unit {0}) → (List Text → Eff W (Unit {0})) → Eff W (Unit {0})
unfolding codes
scrub_git_history remove_gitdir checked_git = do
  remove_gitdir
  checked_git (codes "init" ∷ codes "-q" ∷ [])
  checked_git (codes "config" ∷ codes "user.email" ∷ codes "runner@se-support.local" ∷ [])
  checked_git (codes "config" ∷ codes "user.name" ∷ codes "se-support-runner" ∷ [])
  checked_git (codes "add" ∷ codes "-A" ∷ [])
  checked_git (codes "commit" ∷ codes "-qm" ∷ codes "base" ∷ [])
  checked_git (codes "reflog" ∷ codes "expire" ∷ codes "--expire=now" ∷ codes "--all" ∷ [])
  checked_git (codes "gc" ∷ codes "--prune=now" ∷ codes "-q" ∷ [])
