-- ===== src/Task/Samples.antt =====
-- A task for the tests.
use coding_agent_support.Base.{none, some, [], ◌∷◌, codes}
use coding_agent_support.Task.{TaskSpec}

abbrev pub sample : TaskSpec
sample = record {
  task_id = codes "d__a-1";
  dataset = codes "d";
  repo = codes "a/b";
  base_commit = codes "0";
  issue_title = codes "title";
  issue_body = codes "title";
  test_command = none;
  setup_command = none;
  docker_image = none;
  local_repo_path = some (codes "/r");
  gold_patch_path = none;
  test_patch_path = none;
  environment_setup_commit = none;
  version = none;
  fail_to_pass_tests = codes "t.py::f" ∷ [];
  pass_to_pass_tests = codes "t.py::g" ∷ [];
  metadata = record {
    language = codes "python";
    gold_files_touched = none;
    gold_loc_changed = none;
    repo_group = some (codes "a");
  };
}
