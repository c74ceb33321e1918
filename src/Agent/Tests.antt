-- ===== src/Agent/Tests.antt =====
-- Replies and their directives, and an agent that submits at once.
use coding_agent_support.Base.{
  Text, Bool, not, ◌≡◌, refl, true, false, not, none, some, [], ◌∷◌, codes, list_beq, list_eq,
  nat_eq,
}
use coding_agent_support.Base.Integers.{pos}
use coding_agent_support.Effects.{ok, err, value_error, pure, OnOk}
use coding_agent_support.Task.Samples.{sample}
use coding_agent_support.Agent.Mock.{MockStage, gold, mock_agent, mock_run}
use coding_agent_support.Condition.{condition, full_stack, minimal}
use coding_agent_support.Gates.Policy.{gate_policy_v2}
use coding_agent_support.Agent.Directives.{
  extract_bash_blocks, is_submit, search_lines, next_state_at, record_at,
}
use coding_agent_support.Agent.Loop.{
  Turns, LlmAgent, Surroundings, run_loop, first_turns, run, completed,
}
use coding_agent_support.Harness.{HarnessStateMachine, submit}
use coding_agent_support.Agent.Submission.{IsFair, run_loop-IsFair_first}

two_blocks :
    extract_bash_blocks (codes "a ```bash\nls\n``` b ```bash \n\n cd x\n```")
    ≡ codes "ls" ∷ codes "cd x" ∷ []
unfolding extract_bash_blocks codes
two_blocks = refl

submits : is_submit (codes " done\nsubmit ") ≡ true
unfolding is_submit codes list_beq
submits = refl

next_state_found :
    search_lines next_state_at true (codes "x\nNEXT_STATE: PATCH \nmore") ≡ some (codes "PATCH")
unfolding search_lines next_state_at codes list_beq
next_state_found = refl

next_state_missed : search_lines next_state_at true (codes "NEXT_STATE: PATCH now") ≡ none
unfolding search_lines next_state_at codes list_beq
next_state_missed = refl

record_found :
    search_lines (record_at (codes "DIAGNOSIS:")) true (codes "DIAGNOSIS: off by one\nb")
    ≡ some (codes "off by one")
unfolding search_lines record_at codes list_beq
record_found = refl

-- The model submits at once and every command passes.
abbrev around : Surroundings Unit
around = record {
  over_time = λ w. (ok false, w);
  complete = λ messages w. (ok (codes "SUBMIT"), w);
  run_command = λ command w. (ok (pos 0, []), w);
  is_dirty = λ w. (ok false, w);
  revert_all = λ w. (ok tt, w);
  final_diff = λ w. (ok [], w);
  exec = λ argv w. (ok (pos 0, []), w);
  loads = λ text. none;
}

abbrev agent : LlmAgent
agent = record {
  max_turns = 3;
  history_window = 16;
  gate_policy = gate_policy_v2;
  gate_baseline = [];
  cond = condition full_stack;
}

abbrev bare_agent : LlmAgent
bare_agent = record agent { cond = condition minimal }

submitted_at_once : run around bare_agent [] tt ≡ (ok (completed, true), tt)
unfolding run condition codes list_beq extract_bash_blocks is_submit
submitted_at_once = refl

run_loop-IsFair_first_example :
    OnOk (IsFair agent) (run_loop around agent 3 (first_turns around agent (codes "prompt")) tt).0
run_loop-IsFair_first_example = run_loop-IsFair_first agent around (codes "prompt") tt

-- The world is whether the workspace is clean; every command changes a file.
abbrev editing : Surroundings Bool
editing = record {
  over_time = λ w. (ok false, w);
  complete = λ messages w. (ok (codes "SUBMIT"), w);
  run_command = λ command w. (ok (pos 0, []), false);
  is_dirty = λ w. (ok (not w), w);
  revert_all = λ w. (ok tt, true);
  final_diff = λ w. (ok [], w);
  exec = λ argv w. (ok (pos 0, []), w);
  loads = λ text. none;
}

abbrev at_submit : HarnessStateMachine
at_submit = record { state = submit; records = []; transitions = []; rejections = [] }

abbrev submitting : Turns
submitting = record {
  messages = [];
  machine = some at_submit;
  gate_revisions = 0;
  gate_results = none;
}

-- The world is the final message; no patch applies.
abbrev stage : MockStage Text
stage = record {
  apply_patch = λ diff. pure false;
  write_marker = λ text. pure tt;
  read_gold = λ path. pure (codes "diff");
  append_transcript = λ event. pure tt;
  write_final_message = λ text w. (ok tt, text);
}

mock_applies_nothing :
    (mock_run stage gold none sample (codes "C0") []).1
    ≡ codes "# Mock agent (gold)\n\napplied gold patch. patch_applied=False.\n"
unfolding mock_run codes
mock_applies_nothing = refl

mode_refused : mock_agent (codes "golden") ≡ err value_error
unfolding mock_agent codes list_beq
mode_refused = refl
