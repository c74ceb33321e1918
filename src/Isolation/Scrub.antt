-- ===== src/Isolation/Scrub.antt =====
-- se_support/isolation/scrub.py: the fields of a task that the agent may see.
use coding_agent_support.Base.{
  Bool, false, Option, none, some, List, [], ◌∷◌, ◌++◌, Text, codes, Dict, lookup, join, map,
  is_empty, if◌then◌else◌, list_eq, nat_eq,
}
use coding_agent_support.Base.Integers.{pos}
use coding_agent_support.Effects.{Result, ok, err, assertion_error}
use coding_agent_support.Json.{Json, null, num, str, arr, obj, Items, nil, cons, end, field, truthy}
use coding_agent_support.Task.{TaskSpec, TaskMetadata}

abbrev pub ScrubbedDict : Type 0
ScrubbedDict = Dict Text Json

opt_text : Option Text → Json
opt_text none = null
opt_text (some s) = str s

texts : List Text → Items
texts [] = nil
texts (s ∷ rest) = cons (str s) (texts rest)

dump_metadata : TaskMetadata → Json
unfolding opt_text codes
dump_metadata m = obj (
    field (codes "language") (str m.language) (
      field (codes "gold_files_touched")
        (elim m.gold_files_touched [ none ↦ null | some n ↦ num (pos n) ])
        (field (codes "gold_loc_changed")
          (elim m.gold_loc_changed [ none ↦ null | some n ↦ num (pos n) ])
          (field (codes "repo_group") (opt_text m.repo_group) end))))

-- `task.model_dump()`
unfoldable pub model_dump : TaskSpec → Dict Text Json
unfolding opt_text texts dump_metadata codes
model_dump t =
    (codes "task_id", str t.task_id)
    ∷ (codes "dataset", str t.dataset)
    ∷ (codes "repo", str t.repo)
    ∷ (codes "base_commit", str t.base_commit)
    ∷ (codes "issue_title", str t.issue_title)
    ∷ (codes "issue_body", str t.issue_body)
    ∷ (codes "test_command", opt_text t.test_command)
    ∷ (codes "setup_command", opt_text t.setup_command)
    ∷ (codes "docker_image", opt_text t.docker_image)
    ∷ (codes "local_repo_path", opt_text t.local_repo_path)
    ∷ (codes "gold_patch_path", opt_text t.gold_patch_path)
    ∷ (codes "test_patch_path", opt_text t.test_patch_path)
    ∷ (codes "environment_setup_commit", opt_text t.environment_setup_commit)
    ∷ (codes "version", opt_text t.version)
    ∷ (codes "fail_to_pass_tests", arr (texts t.fail_to_pass_tests))
    ∷ (codes "pass_to_pass_tests", arr (texts t.pass_to_pass_tests))
    ∷ (codes "metadata", dump_metadata t.metadata)
    ∷ []

unfoldable pub agent_visible_fields : List Text
agent_visible_fields =
    codes "task_id"
    ∷ codes "dataset"
    ∷ codes "repo"
    ∷ codes "base_commit"
    ∷ codes "issue_title"
    ∷ codes "issue_body"
    ∷ codes "test_command"
    ∷ codes "setup_command"
    ∷ []

unfoldable pub forbidden_fields : List Text
forbidden_fields =
    codes "gold_patch_path"
    ∷ codes "test_patch_path"
    ∷ codes "fail_to_pass_tests"
    ∷ codes "pass_to_pass_tests"
    ∷ codes "environment_setup_commit"
    ∷ []

-- `{k: full[k] for k in keys if k in full}`
unfoldable pub pick : List Text → Dict Text Json → Dict Text Json
pick [] full = []
pick (k ∷ keys) full = elim (lookup k full) [
  | none ↦ pick keys full
  | some v ↦ (k, v) ∷ pick keys full
]

unfoldable pub scrubbed_task_dict : TaskSpec → ScrubbedDict
unfolding model_dump agent_visible_fields pick
scrubbed_task_dict task = pick agent_visible_fields (model_dump task)

-- `bool(data.get(f))`
unfoldable pub is_leaked : Dict Text Json → Text → Bool
unfolding truthy
is_leaked d f = elim (lookup f d) [ none ↦ false | some v ↦ truthy v ]

unfoldable pub leaked : Dict Text Json → List Text → List Text
unfolding is_leaked
leaked d [] = []
leaked d (f ∷ fields) = let rest = leaked d fields in if is_leaked d f then f ∷ rest else rest

quoted : Text → Text
quoted f = codes "'" ++ f ++ codes "'"

unfoldable pub assert_no_forbidden_fields : Dict Text Json → Result (Unit {0})
unfolding leaked forbidden_fields quoted join
assert_no_forbidden_fields d =
    let found = leaked d forbidden_fields in
    if is_empty found
    then ok tt
    else err (
        assertion_error (
          codes "agent-visible input leaks forbidden fields: ["
          ++ join (codes ", ") (map quoted found)
          ++ codes "]"))
