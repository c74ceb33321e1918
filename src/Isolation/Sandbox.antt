-- ===== src/Isolation/Sandbox.antt =====
-- se_support/isolation/sandbox.py and policy.py: the command line of a sandboxed command. `exists`
-- tells which paths of the host exist.
use coding_agent_support.Base.{
  Bool, true, false, not, List, [], ◌∷◌, ◌++◌, Text, codes, Dict, if◌then◌else◌,
}

pub record SandboxPolicy : Type 0 where
  pub enable_sandbox : Bool
  pub allow_network : Bool
  pub ro_binds : List Text
  pub env : Dict Text Text
  pub die_with_parent : Bool

unfoldable pub default_ro_binds : List Text
default_ro_binds =
    codes "/usr"
    ∷ codes "/bin"
    ∷ codes "/lib"
    ∷ codes "/lib64"
    ∷ codes "/sbin"
    ∷ codes "/etc/alternatives"
    ∷ codes "/etc/ssl"
    ∷ codes "/opt/conda"
    ∷ codes "/home/jgu7/miniconda3"
    ∷ []

unfoldable pub default_env : Dict Text Text
default_env =
    (codes "PATH", codes "/usr/bin:/bin:/usr/local/bin:/home/jgu7/miniconda3/bin")
    ∷ (codes "HOME", codes "/work")
    ∷ (codes "LANG", codes "C.UTF-8")
    ∷ []

-- `SandboxPolicy.confirmatory()`
unfoldable pub confirmatory : SandboxPolicy
unfolding default_ro_binds default_env
confirmatory = record {
  enable_sandbox = true;
  allow_network = false;
  ro_binds = default_ro_binds;
  env = default_env;
  die_with_parent = true;
}

-- `SandboxPolicy.open()`
unfoldable pub open_policy : SandboxPolicy
unfolding confirmatory
open_policy = record confirmatory { enable_sandbox = false; allow_network = true }

pub data Backend : Type 0 where
  bwrap unshare none_found : Backend

-- `backend or "none"`
unfoldable pub backend_text : Backend → Text
backend_text bwrap = codes "bwrap"
backend_text unshare = codes "unshare"
backend_text none_found = codes "none"

-- by whether `which` finds each of the two programs
unfoldable pub sandbox_available : Bool → Bool → Backend
sandbox_available has_bwrap has_unshare =
    if has_bwrap then bwrap else if has_unshare then unshare else none_found

unfoldable pub ro_bind_words : (Text → Bool) → List Text → List Text
ro_bind_words exists [] = []
ro_bind_words exists (ro ∷ rest) =
    let more = ro_bind_words exists rest in
    if exists ro then codes "--ro-bind" ∷ ro ∷ ro ∷ more else more

unfoldable pub setenv_words : Dict Text Text → List Text
setenv_words [] = []
setenv_words ((k, v) ∷ env) = codes "--setenv" ∷ k ∷ v ∷ setenv_words env

abbrev pub word_if : Bool → Text → List Text
word_if true word = word ∷ []
word_if false word = []

unfoldable pub mount_words : Text → List Text
mount_words workspace =
    codes "--bind"
    ∷ workspace
    ∷ codes "/work"
    ∷ codes "--chdir"
    ∷ codes "/work"
    ∷ codes "--proc"
    ∷ codes "/proc"
    ∷ codes "--dev"
    ∷ codes "/dev"
    ∷ codes "--tmpfs"
    ∷ codes "/tmp"
    ∷ []

abbrev pub network_words : SandboxPolicy → Text → List Text
network_words policy word = word_if (not policy.allow_network) word

unfoldable pub bwrap_words : (Text → Bool) → Text → SandboxPolicy → List Text
unfolding ro_bind_words setenv_words mount_words
bwrap_words exists workspace policy =
    (codes "bwrap" ∷ ro_bind_words exists policy.ro_binds)
    ++ (mount_words workspace
        ++ (network_words policy (codes "--unshare-net")
            ++ (word_if policy.die_with_parent (codes "--die-with-parent")
                ++ setenv_words policy.env)))

unfoldable pub unshare_words : SandboxPolicy → List Text
unshare_words policy =
    (codes "unshare" ∷ codes "--user" ∷ codes "--map-root-user" ∷ [])
    ++ (network_words policy (codes "--net") ++ [])

unfoldable pub sandboxed : (Text → Bool) → List Text → Text → SandboxPolicy → Backend → List Text
unfolding bwrap_words unshare_words
sandboxed exists inner_cmd workspace policy bwrap =
    bwrap_words exists workspace policy ++ codes "--" ∷ inner_cmd
sandboxed exists inner_cmd workspace policy unshare = unshare_words policy ++ codes "--" ∷ inner_cmd
sandboxed exists inner_cmd workspace policy none_found = inner_cmd

-- `workspace` is the resolved path.
unfoldable pub build_sandbox_argv :
    Bool → Bool → (Text → Bool) → List Text → Text → SandboxPolicy → List Text × Backend
unfolding sandboxed sandbox_available
build_sandbox_argv has_bwrap has_unshare exists inner_cmd workspace policy =
    if policy.enable_sandbox
    then (let backend = sandbox_available has_bwrap has_unshare in
        (sandboxed exists inner_cmd workspace policy backend, backend))
    else (inner_cmd, none_found)
