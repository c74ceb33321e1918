-- ===== src/Datasets.antt =====
-- se_support/datasets/swebench_importer.py: a record of SWE-bench as a task. Sampling of tasks is the
-- child Sampler.
pub mod Import
pub mod Sampler
mod Tests
use coding_agent_support.Base.{
  Bool, true, false, Option, none, some, List, [], ◌∷◌, ◌++◌, Text, codes, strip, split_lines, take,
  is_empty, split_char, map, if◌then◌else◌, nat_eq,
}
use coding_agent_support.Effects.{Eff, pure, ◌>>=◌, ◌>>◌}
use coding_agent_support.Json.{Json, null, str, arr, bool, num, obj, Items, nil, cons}
use coding_agent_support.Task.{TaskSpec}

-- `[str(v) for v in vs]`, where `text_of` is `str`
unfoldable pub item_texts : (Json → Text) → Items → List Text
item_texts text_of nil = []
item_texts text_of (cons v vs) = text_of v ∷ item_texts text_of vs

-- the list in a text; `parsed` is what `json.loads` makes of the stripped text, none on
-- JSONDecodeError
unfoldable pub list_of_text : (Json → Text) → Option Json → Text → List Text
unfolding item_texts
list_of_text text_of (some (arr vs)) value = item_texts text_of vs
list_of_text text_of parsed value = value ∷ []

-- `_as_list` of the value of a key, none if the key is missing
unfoldable pub as_list : (Json → Text) → (Text → Option Json) → Option Json → List Text
unfolding item_texts list_of_text strip
as_list text_of loads none = []
as_list text_of loads (some null) = []
as_list text_of loads (some (arr vs)) = item_texts text_of vs
as_list text_of loads (some (str s)) =
    let value = strip s in if is_empty value then [] else list_of_text text_of (loads value) value
as_list text_of loads (some v) = text_of v ∷ []

unfoldable pub first_line : List Text → Text
unfolding strip
first_line [] = []
first_line (line ∷ rest) =
    let later = first_line rest in if is_empty (strip line) then later else take 200 (strip line)

unfoldable pub title_from_problem : Text → Text
unfolding split_lines first_line
title_from_problem problem = first_line (split_lines problem)

-- The keys of a record that hold texts are read as texts, with `or ""` taken for the missing ones.
pub record SweRecord : Type 0 where
  pub instance_id : Text
  pub repo : Text
  pub base_commit : Text
  pub patch : Text
  pub test_patch : Text
  pub problem_statement : Text
  pub environment_setup_commit : Option Text
  pub version : Option Text
  pub fail_to_pass : Option Json
  pub pass_to_pass : Option Json

-- the directories of the gold and the test patches, as `mkdir` and `write_text` see them
pub record Dirs (W : Type 0) : Type 0 where
  pub gold_dir : Text
  pub test_dir : Text
  pub mkdir : Text → Eff W (Unit {0})
  pub write_text : Text → Text → Eff W (Unit {0})

-- `repo.split("/")[0]`
unfoldable pub group_of : List Text → Text
group_of [] = []
group_of (g ∷ rest) = g

unfoldable pub test_path_of : Text → SweRecord → Option Text
test_path_of dir r =
    if is_empty r.test_patch
    then none
    else some (dir ++ codes "/" ++ r.instance_id ++ codes ".test.patch")

unfoldable pub gold_path_of : Text → SweRecord → Text
gold_path_of dir r = dir ++ codes "/" ++ r.instance_id ++ codes ".patch"

unfoldable pub task_of :
    (Json → Text) → (Text → Option Json) → Text → Text → Text → SweRecord → TaskSpec
unfolding as_list title_from_problem group_of test_path_of gold_path_of codes
task_of text_of loads gold_dir test_dir dataset r = record {
  task_id = dataset ++ codes "__" ++ r.instance_id;
  dataset = dataset;
  repo = r.repo;
  base_commit = r.base_commit;
  issue_title = title_from_problem r.problem_statement;
  issue_body = r.problem_statement;
  test_command = none;
  setup_command = none;
  docker_image = none;
  local_repo_path = none;
  gold_patch_path = some (gold_path_of gold_dir r);
  test_patch_path = test_path_of test_dir r;
  environment_setup_commit = r.environment_setup_commit;
  version = r.version;
  fail_to_pass_tests = as_list text_of loads r.fail_to_pass;
  pass_to_pass_tests = as_list text_of loads r.pass_to_pass;
  metadata = record {
    language = codes "python";
    gold_files_touched = none;
    gold_loc_changed = none;
    repo_group = some (group_of (split_char b'/' r.repo));
  };
}

write_if : {W : Type 0} → (Text → Text → Eff W (Unit {0})) → Option Text → Text → Eff W (Unit {0})
write_if write none text = pure tt
write_if write (some path) text = write path text

unfoldable pub record_to_taskspec :
    {W : Type 0} → (Json → Text) → (Text → Option Json) → Dirs W → Text → SweRecord → Eff W TaskSpec
unfolding task_of write_if test_path_of gold_path_of
record_to_taskspec text_of loads dirs dataset r = do
  dirs.mkdir dirs.gold_dir
  dirs.mkdir dirs.test_dir
  dirs.write_text (gold_path_of dirs.gold_dir r) r.patch
  write_if dirs.write_text (test_path_of dirs.test_dir r) r.test_patch
  pure (task_of text_of loads dirs.gold_dir dirs.test_dir dataset r)
