-- ===== src/Isolation/Blind.antt =====
-- What isolation keeps from the agent.
use coding_agent_support.Base.{
  ◌≡◌, ◌⊎◌, inl, inr, refl, Bool, true, false, not, Option, List, [], ◌∷◌, ◌++◌, Text, codes,
  contains, if◌then◌else◌, list_beq, list_eq, nat_eq, ==_refl, arith,
}
use coding_agent_support.Effects.{ok}
use coding_agent_support.Task.{TaskSpec, TaskMetadata}
use coding_agent_support.Isolation.{Surface, apply_isolation}
use coding_agent_support.Isolation.Scrub.{scrubbed_task_dict, assert_no_forbidden_fields}
use coding_agent_support.Isolation.Sandbox.{
  SandboxPolicy, Backend, bwrap, unshare, none_found, build_sandbox_argv, sandboxed, bwrap_words,
  mount_words, unshare_words, word_if, ro_bind_words, setenv_words, sandbox_available,
}

-- the task with other values in the fields that the agent may not see
abbrev pub with_hidden :
    Option Text
    → Option Text
    → Option Text
    → Option Text
    → Option Text
    → Option Text
    → List Text
    → List Text
    → TaskMetadata
    → TaskSpec
    → TaskSpec
with_hidden docker local gold test setup version f2p p2p metadata t = record t {
  docker_image = docker;
  local_repo_path = local;
  gold_patch_path = gold;
  test_patch_path = test;
  environment_setup_commit = setup;
  version = version;
  fail_to_pass_tests = f2p;
  pass_to_pass_tests = p2p;
  metadata = metadata;
}

module _ (docker local gold test setup version : Option Text) (f2p p2p : List Text)
    (metadata : TaskMetadata) (t : TaskSpec) where
  abbrev hidden : TaskSpec
  hidden = with_hidden docker local gold test setup version f2p p2p metadata t

  scrubbed-hidden : scrubbed_task_dict hidden ≡ scrubbed_task_dict t
  unfolding scrubbed_task_dict codes list_beq
  scrubbed-hidden = refl

  scrubbed-ok : assert_no_forbidden_fields (scrubbed_task_dict t) ≡ ok tt
  unfolding scrubbed_task_dict assert_no_forbidden_fields codes list_beq
  scrubbed-ok = refl

  -- What a run writes and hashes as the agent's view of its task, and every call it makes for it, is
  -- the same whatever the task's gold patch, tests, environment set-up commit, image, paths, version
  -- and metadata are; and the check for forbidden fields refuses no scrubbed task.
  pub apply_isolation-hidden :
      {W : Type 0} (s : Surface W) (use_container : Bool) (policy : SandboxPolicy)
      (run_id condition : Text) (w : W)
      → (apply_isolation s use_container policy run_id condition hidden w
          ≡ apply_isolation s use_container policy run_id condition t w)
        × (assert_no_forbidden_fields (scrubbed_task_dict hidden) ≡ ok tt)
  unfolding apply_isolation scrubbed_task_dict assert_no_forbidden_fields codes list_beq
  apply_isolation-hidden s use_container policy run_id condition w = (refl, refl)

contains-append :
    (xs ys : List Text) (a : Text) → contains ys a ≡ true → contains (xs ++ ys) a ≡ true
contains-append [] ys a h = h
contains-append (x ∷ xs) ys a h = ground (arith, contains-append xs ys a)

-- a command that the sandbox confines: behind `--` it is the agent's own, and a network that the
-- policy denies is cut off by a word before
abbrev pub IsWrapped : SandboxPolicy → List Text → List Text → Text → Type 0
IsWrapped policy inner argv word =
    (words : List Text) × (argv ≡ words ++ codes "--" ∷ inner)
    × ((policy.allow_network ≡ true) ⊎ (contains words word ≡ true))

abbrev pub IsConfined : Bool → Bool → SandboxPolicy → List Text → List Text × Backend → Type 0
IsConfined has_bwrap has_unshare policy inner r =
    (r.1 ≡ bwrap)
      × (policy.enable_sandbox ≡ true)
      × IsWrapped policy inner r.0 (codes "--unshare-net")
    ⊎ (r.1 ≡ unshare) × (policy.enable_sandbox ≡ true) × IsWrapped policy inner r.0 (codes "--net")
    ⊎ (r.1 ≡ none_found)
      × (r.0 ≡ inner)
      × ((policy.enable_sandbox ≡ false) ⊎ (has_bwrap ≡ false) × (has_unshare ≡ false))

word_if-contains :
    (allowed : Bool) (word : Text) (rest : List Text)
    → (allowed ≡ true) ⊎ (contains (word_if (not allowed) word ++ rest) word ≡ true)
word_if-contains true word rest = inl refl
word_if-contains false word rest = inr (rw (==_refl word) refl)

bwrap_words-cut :
    (exists : Text → Bool) (workspace : Text) (policy : SandboxPolicy)
    → (policy.allow_network ≡ true)
      ⊎ (contains (bwrap_words exists workspace policy) (codes "--unshare-net") ≡ true)
unfolding bwrap_words
bwrap_words-cut exists workspace policy =
    elim (word_if-contains policy.allow_network (codes "--unshare-net")
      (word_if policy.die_with_parent (codes "--die-with-parent") ++ setenv_words policy.env)) [
        | inl e ↦ inl e
        | inr h ↦ inr (
            contains-append (codes "bwrap" ∷ ro_bind_words exists policy.ro_binds) _ _
              (contains-append (mount_words workspace) _ _ h))
      ]

unshare_words-cut :
    (policy : SandboxPolicy)
    → (policy.allow_network ≡ true) ⊎ (contains (unshare_words policy) (codes "--net") ≡ true)
unfolding unshare_words
unshare_words-cut policy = elim (word_if-contains policy.allow_network (codes "--net") []) [
  | inl e ↦ inl e
  | inr h ↦
      inr (contains-append (codes "unshare" ∷ codes "--user" ∷ codes "--map-root-user" ∷ []) _ _ h)
]

module _ (exists : Text → Bool) (inner : List Text) (workspace : Text)
    (policy : SandboxPolicy) where
  -- the command line by whether the sandbox is on and by the backend
  argv_for : Bool → Backend → List Text × Backend
  argv_for on backend =
      if on then (sandboxed exists inner workspace policy backend, backend) else (inner, none_found)

  argv_for-IsConfined :
      (on has_bwrap has_unshare : Bool)
      → policy.enable_sandbox ≡ on
      → IsConfined has_bwrap has_unshare policy inner
          (argv_for on (sandbox_available has_bwrap has_unshare))
  unfolding argv_for sandbox_available sandboxed
  argv_for-IsConfined true true has_unshare e = inl (
    refl,
    e,
    (bwrap_words exists workspace policy, refl, bwrap_words-cut exists workspace policy),
  )
  argv_for-IsConfined true false true e =
      inr (inl (refl, e, (unshare_words policy, refl, unshare_words-cut policy)))
  argv_for-IsConfined true false false e = inr (inr (refl, refl, inr (refl, refl)))
  argv_for-IsConfined false has_bwrap has_unshare e = inr (inr (refl, refl, inl e))

  -- Whatever the policy, the host and the command: the command of a sandbox that was found is the
  -- agent's own behind `--`, and if the policy denies the network, a word before it cuts the network
  -- off. Without a sandbox the command is the agent's own, and the policy is off or neither program
  -- was found.
  pub build_sandbox_argv-IsConfined :
      (has_bwrap has_unshare : Bool)
      → IsConfined has_bwrap has_unshare policy inner
          (build_sandbox_argv has_bwrap has_unshare exists inner workspace policy)
  unfolding build_sandbox_argv argv_for
  build_sandbox_argv-IsConfined has_bwrap has_unshare =
      argv_for-IsConfined policy.enable_sandbox has_bwrap has_unshare refl
