-- ===== src/Run.antt =====
-- se_support/runner/run_manager.py: one run of an agent, from the first snapshot of its tree to the
-- quality card, as a sequence of calls and of entries of the run directory.
pub mod Body
pub mod Log
pub mod Treatment
pub mod Trust
mod Tests
use coding_agent_support.Base.{
  ℕ, Bool, true, false, not, ◌&&◌, ◌||◌, Option, none, some, List, [], ◌∷◌, ◌++◌, Text, codes, take,
  is_empty, ◌==◌, list_eq, nat_eq, if◌then◌else◌,
}
use coding_agent_support.Effects.{Eff, Result, ok, err, pure}
use coding_agent_support.Condition.{SupportCondition}
use coding_agent_support.Bundle.{
  Layer, SupportArtifact, SupportBundle, artifact, is_present, context, tests, gates, harness,
  memory,
}
use coding_agent_support.Integrity.{GitState, PatchManifest}

pub record EvalResult : Type 0 where
  pub run_id : Text
  pub patch_applies : Bool
  pub build_success : Bool
  pub fail_to_pass_passed : ℕ
  pub fail_to_pass_total : ℕ
  pub pass_to_pass_passed : ℕ
  pub pass_to_pass_total : ℕ
  pub resolved : Bool
  pub full_tests_status : Option Text
  pub gate_results_path : Option Text
  pub eval_log_path : Option Text

-- `EvalResult(run_id=run_id, resolved=False, patch_applies=False)`
unfoldable pub empty_eval : Text → EvalResult
empty_eval run_id = record {
  run_id = run_id;
  patch_applies = false;
  build_success = false;
  fail_to_pass_passed = 0;
  fail_to_pass_total = 0;
  pass_to_pass_passed = 0;
  pass_to_pass_total = 0;
  resolved = false;
  full_tests_status = none;
  gate_results_path = none;
  eval_log_path = none;
}

pub record ManipulationCheck : Type 0 where
  pub run_id : Text
  pub condition : Text
  pub context_present : Bool
  pub tests_present : Bool
  pub gates_present : Bool
  pub harness_present : Bool
  pub memory_present : Bool
  pub no_gold_in_visible_inputs : Option Bool
  pub network_disabled : Option Bool
  pub support_manifest_hash : Text
  pub passed : Bool
  pub notes : Text

pub record HelperHash : Type 0 where
  pub host_sha256 : Text
  pub container_sha256_before : Option Text
  pub container_sha256_after : Option Text
  pub helper_unchanged : Bool

-- the snapshots
pub data Stage : Type 0 where
  s0 s1 s2 : Stage

-- what a run does to its directory, and the start of the agent
pub data Event (Card : Type 0) : Type 0 where
  wrote_state : Stage → GitState → Event Card
  wrote_bundle : SupportBundle → Event Card
  wrote_manipulation : ManipulationCheck → Event Card
  agent_started : Event Card
  wrote_manifest : PatchManifest → Event Card
  wrote_helper_hash : HelperHash → Event Card
  wrote_status : Text → List Text → Event Card
  wrote_patch : Text → Event Card
  wrote_eval : EvalResult → Event Card
  wrote_card : Card → Event Card

pub data OutcomeStatus : Type 0 where
  finished infrastructure_failure : OutcomeStatus

-- The path of the run directory is left out.
pub record RunOutcome (Card : Type 0) : Type 0 where
  pub run_id : Text
  pub eval_result : EvalResult
  pub quality_card : Card
  pub status : OutcomeStatus

abbrev pub same_sha : Option Text → Option Text → Bool
same_sha none none = true
same_sha none (some b) = false
same_sha (some a) none = false
same_sha (some a) (some b) = a == b

-- `str(sha)[:12]`
unfoldable pub short_sha : Option Text → Text
short_sha none = codes "None"
short_sha (some a) = take 12 a

-- `_helper_integrity_violation` of a host hash that is not None
unfoldable pub helper_integrity_violation : Text → Option Text → Option Text → Option Text
unfolding short_sha
helper_integrity_violation host before after =
    if is_empty host
    then some (codes "helper_host_sha_missing")
    else if not (same_sha before (some host))
    then some (
        codes "helper_before_mismatch(host="
        ++ take 12 host
        ++ codes ",before="
        ++ short_sha before
        ++ codes ")")
    else if not (same_sha after before)
    then some (
        codes "helper_after_mismatch(before="
        ++ short_sha before
        ++ codes ",after="
        ++ short_sha after
        ++ codes ")")
    else none

unfoldable pub helper_hash : Text → Option Text → Option Text → HelperHash
helper_hash host before after = record {
  host_sha256 = host;
  container_sha256_before = before;
  container_sha256_after = after;
  helper_unchanged = same_sha before after && not (same_sha after none);
}

unfoldable pub has_layer : SupportBundle → Layer → Bool
unfolding artifact
has_layer b layer = elim (artifact layer b) [ none ↦ false | some a ↦ is_present a.status ]

abbrev pub same_bool : Bool → Bool → Bool
same_bool true b = b
same_bool false b = not b

-- `network` is the sandbox policy's permission, if there is a policy.
unfoldable pub manipulation_check :
    Text → Text → SupportCondition → SupportBundle → Text → Option Bool → Bool → ManipulationCheck
unfolding has_layer
manipulation_check run_id condition c b bundle_hash network use_container = record {
  run_id = run_id;
  condition = condition;
  context_present = has_layer b context;
  tests_present = has_layer b tests;
  gates_present = has_layer b gates;
  harness_present = has_layer b harness;
  memory_present = has_layer b memory;
  no_gold_in_visible_inputs =
      if use_container then some true else elim network [ none ↦ none | some allowed ↦ some true ];
  network_disabled =
      if use_container
      then some true
      else elim network [ none ↦ none | some allowed ↦ some (not allowed) ];
  support_manifest_hash = bundle_hash;
  passed =
      same_bool (has_layer b context) c.context
      && same_bool (has_layer b gates) c.gates
      && same_bool (has_layer b harness) c.harness
      && same_bool (has_layer b memory) c.memory;
  notes = [];
}

pub data Mode : Type 0 where
  fixture real : Mode

-- `local_repo` is the task's `local_repo_path`.
unfoldable pub resolve_mode : Option Text → Text → Mode
unfolding codes
resolve_mode local_repo evaluator =
    if evaluator == codes "local"
    then fixture
    else if evaluator == codes "docker"
    then real
    else elim local_repo [ none ↦ real | some path ↦ if is_empty path then real else fixture ]
