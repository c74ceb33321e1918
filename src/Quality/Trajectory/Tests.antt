-- ===== src/Quality/Trajectory/Tests.antt =====
-- The metrics of an agent that submits at once, beside a command log.
use coding_agent_support.Base.{
  ◌≡◌, refl, false, Option, none, some, List, [], ◌∷◌, Text, codes, list_beq, list_eq, nat_eq,
}
use coding_agent_support.Base.Integers.{pos}
use coding_agent_support.Effects.{OnOk, pure}
use coding_agent_support.Condition.{condition, full_stack}
use coding_agent_support.Gates.Policy.{gate_policy_v2}
use coding_agent_support.RunDir.{TranscriptEvent}
use coding_agent_support.Agent.Loop.{LlmAgent, Surroundings, RunStatus, run_loop, first_turns}
use coding_agent_support.Agent.Records.{transcript, state_rows, final_message}
use coding_agent_support.Quality.{no_metrics}
use coding_agent_support.Quality.Trajectory.{LoggedCommand, process_metrics}
use coding_agent_support.Quality.Trajectory.Metrics.{AreOf, run_loop-metrics}

abbrev around : Surroundings (Unit {0})
around = record {
  over_time = pure false;
  complete = λ messages. pure (codes "SUBMIT");
  run_command = λ command. pure (pos 0, []);
  is_dirty = pure false;
  revert_all = pure tt;
  final_diff = pure [];
  exec = λ argv. pure (pos 0, []);
  loads = λ text. none;
}

abbrev agent : LlmAgent
agent = record {
  max_turns = 3;
  history_window = 16;
  gate_policy = gate_policy_v2;
  gate_baseline = [];
  cond = condition full_stack;
}

abbrev format : RunStatus → Text
format status = codes "completed"

abbrev first_backend : List Text → Option Text
first_backend [] = none
first_backend (b ∷ backends) = some b

abbrev log : List LoggedCommand
log =
    record { command = codes "git status"; exit_code = some (pos 1); sandbox = none }
    ∷ record { command = codes "ls"; exit_code = some (pos 2); sandbox = some (codes "bwrap") }
    ∷ record { command = codes "pytest"; exit_code = none; sandbox = some [] }
    ∷ []

abbrev events : List TranscriptEvent
events =
    record { role = codes "assistant"; content = codes "gate revision" }
    ∷ record { role = codes "tool"; content = codes "x\n[gate revision 1/2]" }
    ∷ []

metrics_of_log :
    process_metrics first_backend events log [] (some (codes "Timeout")) ≡ record no_metrics {
      turns = 1;
      commands_run = 2;
      failed_commands = 1;
      gate_revisions = 1;
      sandbox_backend = some (codes "bwrap");
      stop_reason = some (codes "timeout");
    }
unfolding process_metrics codes list_beq no_metrics
metrics_of_log = refl

run_loop-metrics_example :
    OnOk
      (λ e. AreOf 3 e (
        process_metrics first_backend
          (transcript e.turns)
          log
          (state_rows e.turns)
          (some (final_message format (codes "m") (codes "full") e.status 1 e.submitted))))
      (run_loop around agent 3 (first_turns around agent (codes "prompt")) tt).0
run_loop-metrics_example =
    run_loop-metrics around agent first_backend log format (codes "m") (codes "full")
      (codes "prompt") 1 tt
