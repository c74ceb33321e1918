-- ===== src/Task.antt =====
-- se_support/schemas/task_spec.py: one task, as every run is given it.
pub mod Samples
use coding_agent_support.Base.{ℕ, Option, List, Text}

pub record TaskMetadata : Type 0 where
  pub language : Text
  pub gold_files_touched : Option ℕ
  pub gold_loc_changed : Option ℕ
  pub repo_group : Option Text

pub record TaskSpec : Type 0 where
  pub task_id : Text
  pub dataset : Text
  pub repo : Text
  pub base_commit : Text
  pub issue_title : Text
  pub issue_body : Text
  pub test_command : Option Text
  pub setup_command : Option Text
  pub docker_image : Option Text
  pub local_repo_path : Option Text
  pub gold_patch_path : Option Text
  pub test_patch_path : Option Text
  pub environment_setup_commit : Option Text
  pub version : Option Text
  pub fail_to_pass_tests : List Text
  pub pass_to_pass_tests : List Text
  pub metadata : TaskMetadata
