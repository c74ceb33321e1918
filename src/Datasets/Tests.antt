-- ===== src/Datasets/Tests.antt =====
-- An import and samples of two tasks.
use coding_agent_support.Base.{
  ℕ, ◌≡◌, refl, inr, none, some, List, [], ◌∷◌, Text, codes, list_beq, list_eq, nat_eq,
}
use coding_agent_support.Effects.{ok, err, value_error, pure}
use coding_agent_support.Effects.Partial.{Ensures}
use coding_agent_support.Json.{Json, str}
use coding_agent_support.Task.{TaskSpec}
use coding_agent_support.Task.Samples.{sample}
use coding_agent_support.Datasets.{SweRecord, Dirs, as_list, title_from_problem, record_to_taskspec}
use coding_agent_support.Datasets.Import.{IsImported, record_to_taskspec-IsImported}
use coding_agent_support.Datasets.Sampler.{sample_tasks}
use coding_agent_support.Datasets.Sampler.Sample.{IsSample, sample_tasks-IsSample}

abbrev entry : SweRecord
entry = record {
  instance_id = codes "astropy__astropy-1";
  repo = codes "astropy/astropy";
  base_commit = codes "0";
  patch = codes "+";
  test_patch = [];
  problem_statement = codes "\n  A title\nmore";
  environment_setup_commit = none;
  version = some (codes "4.3");
  fail_to_pass = some (str (codes " t.py::f "));
  pass_to_pass = none;
}

abbrev dirs : Dirs (Unit {0})
dirs = record {
  gold_dir = codes "g";
  test_dir = codes "t";
  mkdir = λ path. pure tt;
  write_text = λ path text. pure tt;
}

abbrev text_of : Json → Text
text_of (str s) = s
text_of _ = []

lists : as_list text_of (λ s. none) entry.fail_to_pass ≡ codes "t.py::f" ∷ []
unfolding as_list codes
lists = refl

title : title_from_problem entry.problem_statement ≡ codes "A title"
unfolding title_from_problem codes
title = refl

record_to_taskspec-IsImported_example :
    Ensures
      (IsImported entry)
      (record_to_taskspec text_of (λ s. none) dirs (codes "swebench__v") entry)
record_to_taskspec-IsImported_example =
    record_to_taskspec-IsImported text_of (λ s. none) dirs (codes "swebench__v") entry

abbrev other : TaskSpec
other = record sample {
  task_id = codes "d__b-1";
  metadata = record sample.metadata { repo_group = none };
}

abbrev keep : ℕ → List TaskSpec → List TaskSpec × ℕ
keep rng ts = (ts, rng)

abbrev tasks : List TaskSpec
tasks = sample ∷ sample ∷ other ∷ []

takes_turns :
    sample_tasks keep 0 (codes "repo_group") (codes "stratified") 2 tasks
    ≡ ok (some (sample ∷ other ∷ []))
unfolding sample_tasks codes list_beq
takes_turns = refl

refuses : sample_tasks keep 0 (codes "repo_group") (codes "random") 2 tasks ≡ err value_error
unfolding sample_tasks codes list_beq
refuses = refl

sample_tasks-IsSample_example :
    (l : List TaskSpec) × (sample_tasks keep 0 (codes "repo_group") (codes "stratified") 2 tasks
      ≡ ok (some l))
    × IsSample 2 tasks l
sample_tasks-IsSample_example =
    sample_tasks-IsSample keep (λ rng ts p. refl) 0 (codes "repo_group") (codes "stratified") 2
      tasks (inr refl)
