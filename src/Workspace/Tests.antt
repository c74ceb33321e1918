-- ===== src/Workspace/Tests.antt =====
-- A test run of one node id that stands for two tests, of which one fails.
use coding_agent_support.Base.{
  ◌≡◌, refl, true, false, Text, Option, none, some, List, [], ◌∷◌, map, contains, has_text, ◌++◌,
  codes, starts_with, list_beq, list_eq, nat_eq, if◌then◌else◌,
}
use coding_agent_support.Effects.{ok, pure}
use coding_agent_support.Isolation.Sandbox.{confirmatory}
use coding_agent_support.Workspace.Clones.{fetch_commit, run_sandboxed}
use coding_agent_support.Base.Integers.{pos}
use coding_agent_support.Workspace.{
  CompletedProcess, CommandRecord, Machine, parse_passed, pytest_counts,
}
use coding_agent_support.Workspace.Counts.{summary, pytest_counts-summary}

abbrev failing : CompletedProcess
failing = record {
  returncode = pos 1;
  stdout = codes "F.    [100%]\n3 failures" ++ 10 ∷ summary 1 1 (codes " in 0.02s");
  stderr = [];
}

parses : parse_passed (codes "2 failed, 13 passed in 1.20s") ≡ 13
unfolding parse_passed codes starts_with
parses = refl

parses_nothing : parse_passed (codes "no tests ran in 0.01s") ≡ 0
unfolding parse_passed codes starts_with
parses_nothing = refl

pytest_counts-summary_example : pytest_counts (codes "t.py::f" ∷ []) failing ≡ (1, 1)
unfolding has_text codes starts_with
pytest_counts-summary_example =
    pytest_counts-summary (codes "t.py::f" ∷ []) failing (codes "F.    [100%]\n3 failures") 1 1
      (codes " in 0.02s") refl refl refl

-- The world is the list of the logged commands, the last one first; a shallow fetch fails.
abbrev logging : Machine (List CommandRecord)
logging = record {
  subprocess = λ cmd. pure (record {
    returncode = if contains cmd (codes "--depth") then pos 128 else pos 0;
    stdout = [];
    stderr = [];
  });
  append_command = some (λ r log. (ok tt, r ∷ log));
  copy_template = λ template. pure tt;
  write_patch_file = λ text. pure tt;
  unlink_patch_file = pure tt;
}

fetched_in_full :
    map (λ r. r.command) ((fetch_commit logging (codes "c0ffee") []).1)
    ≡ codes "git fetch origin c0ffee" ∷ codes "git fetch --depth 1 origin c0ffee" ∷ []
unfolding fetch_commit codes list_beq
fetched_in_full = refl

sandboxed_log :
    map {B = Text × Option Text}
      (λ r. (r.command, r.sandbox))
      ((run_sandboxed logging false true
        (λ path. true)
        (λ cwd argv. pure failing)
        (codes "/w")
        (codes "ls")
        confirmatory
        none
        []).1)
    ≡ (codes "ls", some (codes "unshare")) ∷ []
unfolding run_sandboxed confirmatory codes
sandboxed_log = refl
