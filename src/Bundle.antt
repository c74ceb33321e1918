-- ===== src/Bundle.antt =====
-- se_support/support/bundle.py: the frozen support artifacts of one task under one condition.
pub mod Search
pub mod Layers
pub mod Union
pub mod Hash
mod Tests
use coding_agent_support.Base.{
  ℕ, Bool, true, false, not, ◌&&◌, Option, none, some, List, [], ◌∷◌, ◌++◌, map, Text, codes, join,
  sort_texts, Dict, insert, is_empty, if◌then◌else◌, ◌==◌, list_eq, nat_eq, Eq,
}
use coding_agent_support.Effects.{Eff, Result, ok, err, assertion_error, pure, lift, ◌>>=◌, ◌>>◌}
use coding_agent_support.Condition.{SupportCondition, get_condition}
use coding_agent_support.Gates.Policy.{condition_version}
use coding_agent_support.Helper.{HelperTestArtifact, is_confirmatory}

-- the layers, `LAYERS`
pub data Layer : Type 0 where
  context tests gates harness memory : Layer

pub data Status : Type 0 where
  present absent declared_unimplemented : Status

unfoldable pub layer_text : Layer → Text
layer_text context = codes "context"
layer_text tests = codes "tests"
layer_text gates = codes "gates"
layer_text harness = codes "harness"
layer_text memory = codes "memory"

unfoldable pub status_text : Status → Text
status_text present = codes "present"
status_text absent = codes "absent"
status_text declared_unimplemented = codes "declared_unimplemented"

abbrev pub same_layer : Layer → Layer → Bool
same_layer context context = true
same_layer tests tests = true
same_layer gates gates = true
same_layer harness harness = true
same_layer memory memory = true
same_layer _ _ = false

abbrev pub is_absent : Status → Bool
is_absent absent = true
is_absent _ = false

abbrev pub is_present : Status → Bool
is_present present = true
is_present _ = false

pub record SupportArtifact : Type 0 where
  pub layer : Layer
  pub filename : Text
  pub status : Status
  pub hash : Option Text
  pub content : Text

pub record SupportBundle : Type 0 where
  pub task_id : Text
  pub condition : Text
  pub artifacts : List SupportArtifact

pub record SupportBundleManifest : Type 0 where
  pub task_id : Text
  pub condition : Text
  pub condition_version : Text
  pub bundle_hash : Text
  pub artifacts : List SupportArtifact

unfoldable pub find_artifact : Layer → List SupportArtifact → Option SupportArtifact
find_artifact layer [] = none
find_artifact layer (a ∷ rest) = elim (same_layer a.layer layer) [
  | true ↦ some a
  | false ↦ find_artifact layer rest
]

-- `SupportBundle.artifact`
unfoldable pub artifact : Layer → SupportBundle → Option SupportArtifact
unfolding find_artifact
artifact layer b = find_artifact layer b.artifacts

abbrev pub or_empty : Option Text → Text
or_empty none = []
or_empty (some t) = t

-- what the bundle's hash says of one artifact
unfoldable pub hash_part : SupportArtifact → Text
hash_part a =
    layer_text a.layer ++ codes ":" ++ status_text a.status ++ codes ":" ++ or_empty a.hash

-- Hashing, and the writers of the context packs and of the memory, which are other modules.
pub record Writers (W : Type 0) : Type 0 where
  pub hash_text : Text → Text
  pub context_pack_v2 : Eff W Text
  pub random_context_pack : Eff W Text
  pub repo_memory : Eff W Text

-- the files of the artifacts that are there and not empty
unfoldable pub write_artifacts : List SupportArtifact → Dict Text Text → Dict Text Text
write_artifacts [] files = files
write_artifacts (a ∷ rest) files = write_artifacts rest (
    if is_present a.status && not (is_empty a.content)
    then insert a.filename a.content files
    else files)

-- `json.dumps(GatePolicy().to_dict(), indent=2, sort_keys=True)`
unfoldable pub gate_policy_json : Text
gate_policy_json =
    codes "{\n  \"gates\": [\n    {\n      \"kind\": \"blocking\",\n"
    ++ codes "      \"name\": \"compileall\"\n    },\n    {\n      \"kind\": \"advisory\",\n"
    ++ codes "      \"name\": \"ruff\"\n    },\n    {\n      \"kind\": \"advisory\",\n"
    ++ codes "      \"name\": \"bandit\"\n    }\n  ],\n"
    ++ codes "  \"helper_test_in_gate_sequence\": false,\n"
    ++ codes "  \"official_tests_are_gates\": false,\n  \"revision_budget\": 3,\n"
    ++ codes "  \"version\": \"c3/0.2.0\"\n}"

-- `json.dumps(policy, indent=2, sort_keys=True)`
unfoldable pub harness_policy_json : Text
harness_policy_json =
    codes "{\n  \"edits_allowed_in\": [\n    \"PATCH\",\n    \"VALIDATE\"\n  ],\n"
    ++ codes "  \"enforced\": false,\n"
    ++ codes "  \"note\": \"prompt-level in v0.1; state-machine enforcement is EP-04.\",\n"
    ++ codes "  \"states\": [\n    \"DISCOVER\",\n    \"DIAGNOSE\",\n    \"PATCH\",\n"
    ++ codes "    \"VALIDATE\",\n    \"SUBMIT\"\n  ],\n"
    ++ codes "  \"submit_requires_validation_record\": true\n}"

-- the assertions about what was found of one layer
unfoldable pub check_found : Bool → Option SupportArtifact → Result (Unit {0})
check_found true none = err (assertion_error (codes "missing enabled layer"))
check_found true (some a) =
    if is_absent a.status then err (assertion_error (codes "absent")) else ok tt
check_found false none = ok tt
check_found false (some a) = err (assertion_error (codes "unexpected artifact for disabled"))

unfoldable pub check_layer : SupportBundle → Layer → Bool → Result (Unit {0})
unfolding artifact check_found
check_layer b layer enabled = check_found enabled (artifact layer b)

module _ {W : Type 0} (writers : Writers W) where
  open writers use {hash_text, context_pack_v2, random_context_pack, repo_memory}

  unfoldable pub bundle_hash : List SupportArtifact → Text
  unfolding hash_part
  bundle_hash artifacts = hash_text (join (codes "\n") (sort_texts (map hash_part artifacts)))

  -- an artifact that is there, with the hash of its text
  abbrev present_artifact : Layer → Text → Text → SupportArtifact
  present_artifact layer filename content = record {
    layer = layer;
    filename = filename;
    status = present;
    hash = some (hash_text content);
    content = content;
  }

  unfoldable pub gate_policy_artifact : SupportArtifact
  gate_policy_artifact = present_artifact gates (codes "gate_policy.json") gate_policy_json

  unfoldable pub harness_policy_artifact : SupportArtifact
  harness_policy_artifact =
      present_artifact harness (codes "harness_policy.json") harness_policy_json

  -- `random` tells whether the variant is the random one; `build_bundle` asks for no other than
  -- that and version 2.
  unfoldable pub context_artifact : Bool → Eff W SupportArtifact
  context_artifact random = (if random then random_context_pack else context_pack_v2) >>= λ content.
      pure (present_artifact context (codes "context_pack.md") content)

  unfoldable pub memory_artifact : Eff W SupportArtifact
  memory_artifact = do
    content ← repo_memory
    pure (present_artifact memory (codes "repo_memory.md") content)

  or_hash : Option Text → Text → Text
  or_hash none source = hash_text source
  or_hash (some []) source = hash_text source
  or_hash (some (c ∷ h)) source = c ∷ h

  unfoldable pub tests_artifact : Option HelperTestArtifact → SupportArtifact
  unfolding or_hash
  tests_artifact none = record {
    layer = tests;
    filename = codes "helper_test.py";
    status = declared_unimplemented;
    hash = none;
    content = [];
  }
  tests_artifact (some helper) =
      if is_confirmatory helper.classification
      then record {
        layer = tests;
        filename = codes "helper_test.py";
        status = present;
        hash = some (or_hash helper.frozen_hash helper.test_source);
        content = helper.test_source;
      }
      else record {
        layer = tests;
        filename = codes "helper_test.py";
        status = declared_unimplemented;
        hash = none;
        content = [];
      }

  unfoldable pub manifest : SupportBundle → SupportBundleManifest
  unfolding bundle_hash
  manifest b = record {
    task_id = b.task_id;
    condition = b.condition;
    condition_version = condition_version;
    bundle_hash = bundle_hash b.artifacts;
    artifacts = map (λ (a : SupportArtifact). record a { content = [] }) b.artifacts;
  }

  -- `SupportBundle.write` into the files of the support directory; `dump` prints the manifest.
  unfoldable pub write_bundle :
      (SupportBundleManifest → Text) → SupportBundle → Dict Text Text → Dict Text Text
  unfolding manifest write_artifacts
  write_bundle dump b files =
      insert (codes "manifest.json") (dump (manifest b)) (write_artifacts b.artifacts files)

  -- `validate_against_condition`: the assertions in the order of the flags
  unfoldable pub validate_against_condition : SupportCondition → SupportBundle → Eff W (Unit {0})
  unfolding check_layer
  validate_against_condition c b = do
    lift (check_layer b context c.context)
    lift (check_layer b tests c.tests)
    lift (check_layer b gates c.gates)
    lift (check_layer b harness c.harness)
    lift (check_layer b memory c.memory)

  -- the artifact of an enabled layer, which is made only then
  abbrev when : Bool → Eff W SupportArtifact → Eff W (List SupportArtifact)
  when enabled make = if enabled then (make >>= λ a. pure (a ∷ [])) else pure []

  -- the artifacts of a condition, layer by layer
  unfoldable pub layer_artifacts :
      Bool → SupportCondition → Option HelperTestArtifact → Eff W (List SupportArtifact)
  unfolding tests_artifact gate_policy_artifact harness_policy_artifact
  layer_artifacts random c helper = do
    one ← when c.context (context_artifact random)
    two ← when c.tests (pure (tests_artifact helper))
    three ← when c.gates (pure gate_policy_artifact)
    four ← when c.harness (pure harness_policy_artifact)
    five ← when c.memory memory_artifact
    pure (one ++ (two ++ (three ++ (four ++ (five ++ [])))))

  unfoldable pub build_bundle : Text → Text → Option HelperTestArtifact → Eff W SupportBundle
  unfolding layer_artifacts
  build_bundle task_id condition_id helper = do
    c ← lift (get_condition condition_id)
    artifacts ← layer_artifacts (condition_id == codes "C1_random") c helper
    let bundle : SupportBundle = record {
      task_id = task_id;
      condition = condition_id;
      artifacts = artifacts;
    }
    validate_against_condition c bundle
    pure bundle
