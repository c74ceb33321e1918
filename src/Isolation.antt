-- ===== src/Isolation.antt =====
-- se_support/isolation/: the scrubbed task, the sandbox of a command, and what the run manager
-- records of both.
pub mod Scrub
pub mod Sandbox
pub mod Blind
mod Tests
use coding_agent_support.Base.{
  Bool, true, false, not, ◌&&◌, ◌||◌, Option, none, some, List, [], ◌∷◌, ◌++◌, Text, codes,
  if◌then◌else◌,
}
use coding_agent_support.Effects.{Eff, pure, lift, ◌>>=◌, ◌>>◌}
use coding_agent_support.Task.{TaskSpec}
use coding_agent_support.Json.{Json}
use coding_agent_support.Isolation.Scrub.{
  ScrubbedDict, scrubbed_task_dict, assert_no_forbidden_fields,
}
use coding_agent_support.Isolation.Sandbox.{
  SandboxPolicy, Backend, none_found, backend_text, sandbox_available,
}

pub record VisibleInputManifest : Type 0 where
  pub run_id : Text
  pub condition : Text
  pub base_commit : Text
  pub scrubbed_task_hash : Text
  pub sandbox_backend : Text
  pub network_allowed : Bool

-- The workspace, the run directory and hashing; `blob` is `json.dumps` with sorted keys.
pub record Surface (W : Type 0) : Type 0 where
  pub scrub : Eff W (Unit {0})
  pub write_scrubbed : ScrubbedDict → Eff W (Unit {0})
  pub write_manifest : VisibleInputManifest → Eff W (Unit {0})
  pub blob : ScrubbedDict → Text
  pub sha256 : Text → Text
  pub has_bwrap : Bool
  pub has_unshare : Bool

unfoldable pub hash_text : (Text → Text) → Text → Text
hash_text sha256 text = codes "sha256:" ++ sha256 text

unfoldable pub recorded_backend : Bool → SandboxPolicy → Bool → Bool → Text
unfolding sandbox_available backend_text
recorded_backend use_container policy has_bwrap has_unshare =
    if use_container
    then codes "container"
    else if policy.enable_sandbox
    then backend_text (sandbox_available has_bwrap has_unshare)
    else codes "none"

unfoldable pub recorded_network : Bool → SandboxPolicy → Bool
recorded_network use_container policy = if use_container then false else policy.allow_network

unfoldable pub visible_manifest :
    {W : Type 0} → Surface W → Bool → SandboxPolicy → Text → Text → TaskSpec → VisibleInputManifest
unfolding hash_text recorded_backend recorded_network scrubbed_task_dict
visible_manifest s use_container policy run_id condition task = record {
  run_id = run_id;
  condition = condition;
  base_commit = task.base_commit;
  scrubbed_task_hash = hash_text s.sha256 (s.blob (scrubbed_task_dict task));
  sandbox_backend = recorded_backend use_container policy s.has_bwrap s.has_unshare;
  network_allowed = recorded_network use_container policy;
}

-- `_apply_isolation`, but for the attribute that hands the policy to the agent
unfoldable pub apply_isolation :
    {W : Type 0} → Surface W → Bool → SandboxPolicy → Text → Text → TaskSpec → Eff W (Unit {0})
unfolding visible_manifest scrubbed_task_dict assert_no_forbidden_fields
apply_isolation s use_container policy run_id condition task =
    (if use_container || policy.enable_sandbox then s.scrub else pure tt)
    >> lift (assert_no_forbidden_fields (scrubbed_task_dict task))
    >> s.write_scrubbed (scrubbed_task_dict task)
    >> s.write_manifest (visible_manifest s use_container policy run_id condition task)
