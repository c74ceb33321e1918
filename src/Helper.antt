-- ===== src/Helper.antt =====
-- se_support/support/repro_tests/{schema,validator,injector}.py: helper tests, their classes and
-- their frozen form.
pub mod Provenance
pub mod Candidates
pub mod Build
pub mod Select
pub mod Blind
pub mod Classes
pub mod Offers
pub mod Container
pub mod Parity
mod Tests
use coding_agent_support.Base.{
  ℕ, Bool, true, false, not, ◌&&◌, ◌||◌, ◌++◌, Option, none, some, List, [], ◌∷◌, Text, codes, ◌==◌,
  list_eq, nat_eq, if◌then◌else◌,
}
use coding_agent_support.Effects.{
  Eff, Result, ok, err, value_error, pure, raise, finally, ◌>>=◌, ◌>>◌,
}

-- the members of `ReproTestClass`
pub data ReproTestClass : Type 0 where
  invalid non_reproducing incompatible_oracle valid_reproduction decoupled_valid : ReproTestClass

-- membership in `CONFIRMATORY_CLASSES`
unfoldable pub is_confirmatory : ReproTestClass → Bool
is_confirmatory valid_reproduction = true
is_confirmatory decoupled_valid = true
is_confirmatory _ = false

pub record HelperTestArtifact : Type 0 where
  pub task_id : Text
  pub test_source : Text
  pub run_command : Text
  pub generator_model : Option Text
  pub prompt_hash : Option Text
  pub candidate_index : ℕ
  pub frozen_hash : Option Text
  pub collected : Option Bool
  pub fail_before : Option Bool
  pub pass_after_gold : Option Bool
  pub classification : ReproTestClass
  pub issue_provenance_ok : Option Bool
  pub suspicious_literals : List Text
  pub audit_passed : Option Bool
  pub notes : Text

-- the artifact that the constructor makes of its first four arguments, with the defaults
unfoldable pub new_artifact : Text → Text → Option Text → Option Text → HelperTestArtifact
new_artifact task source model prompt = record {
  task_id = task;
  test_source = source;
  run_command = codes "python -m pytest helper_test.py";
  generator_model = model;
  prompt_hash = prompt;
  candidate_index = 0;
  frozen_hash = none;
  collected = none;
  fail_before = none;
  pass_after_gold = none;
  classification = invalid;
  issue_provenance_ok = none;
  suspicious_literals = [];
  audit_passed = none;
  notes = [];
}

unfoldable pub classify : Bool → Bool → Option Bool → ReproTestClass
classify false fail_before pass_after = invalid
classify true false pass_after = non_reproducing
classify true true none = valid_reproduction
classify true true (some true) = valid_reproduction
classify true true (some false) = incompatible_oracle

pub record TestRunOutcome : Type 0 where
  pub collected : Bool
  pub passed : Bool
  pub output : Text

-- a finished process
pub record Completed : Type 0 where
  pub returncode : ℕ
  pub stdout : Text
  pub stderr : Text

-- The file system, the processes and the chat service, which stand outside of the repository. A
-- directory is its path, and writing a file makes its directory.
pub record Lab (W : Type 0) : Type 0 where
  pub write_text : Text → Text → Text → Eff W (Unit {0})
  pub unlink : Text → Text → Eff W (Unit {0})
  pub pytest : Text → Text → Eff W Completed
  pub complete : Text → Text → Eff W Text
  pub hash_text : Text → Text
  pub literals_in_asserts : Text → List Text

unfoldable pub outcome_of : Completed → TestRunOutcome
outcome_of proc = record {
  collected = proc.returncode == 0 || proc.returncode == 1;
  passed = proc.returncode == 0;
  output = proc.stdout ++ proc.stderr;
}

module _ {W : Type 0} (lab : Lab W) where
  unfoldable pub run_test_in_workspace : Text → Text → Text → Eff W TestRunOutcome
  unfolding outcome_of
  run_test_in_workspace workspace source filename = do
    lab.write_text workspace filename source
    proc ← finally (lab.pytest workspace filename) (lab.unlink workspace filename)
    pure (outcome_of proc)

  unfoldable pub run_semantic_audit : Text → Text → Eff W Bool
  unfolding run_test_in_workspace
  run_semantic_audit workspace source = do
    outcome ← run_test_in_workspace workspace source (codes "_c2_semantic_audit.py")
    pure (outcome.collected && outcome.passed)

  unfoldable pub freeze : HelperTestArtifact → HelperTestArtifact
  freeze a = record a { frozen_hash = some (lab.hash_text a.test_source) }

  unfoldable pub verify_frozen : HelperTestArtifact → Bool
  verify_frozen a = elim a.frozen_hash [
    | none ↦ false
    | some hash ↦ lab.hash_text a.test_source == hash
  ]

  unfoldable pub is_frozen : HelperTestArtifact → Bool
  is_frozen a = elim a.frozen_hash [ none ↦ false | some hash ↦ true ]

  unfoldable pub materialize : HelperTestArtifact → Text → Text → Eff W (Unit {0})
  unfolding verify_frozen is_frozen
  materialize a dest filename =
      if is_frozen a && not (verify_frozen a)
      then raise value_error
      else lab.write_text dest filename a.test_source
