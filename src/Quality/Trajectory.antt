-- ===== src/Quality/Trajectory.antt =====
-- se_support/quality/trajectory.py: the process metrics that are computed again from the files of a
-- run directory. The lines of a stream are those that a parser gives, a parameter.
pub mod Signals
pub mod Kept
pub mod Metrics
mod Tests
use coding_agent_support.Base.{
  ℕ, Bool, true, false, not, ◌&&◌, Option, none, some, List, [], ◌∷◌, Text, codes, filter, count_if,
  length, starts_with, has_text, lower, is_empty, ◌==◌, list_eq, nat_eq, if◌then◌else◌,
}
use coding_agent_support.Base.Integers.{ℤ, is_zero}
use coding_agent_support.Effects.{Result, ok, err}
use coding_agent_support.RunDir.{TranscriptEvent, read_jsonl}
use coding_agent_support.Agent.Records.{StateRow, transition_row, rejection_row}
use coding_agent_support.Quality.{ProcessMetrics}

-- a line of the command log; a key that is missing is none, and a command none is the empty one
pub record LoggedCommand : Type 0 where
  pub command : Text
  pub exit_code : Option ℤ
  pub sandbox : Option Text

pub record MetricFiles : Type 0 where
  pub transcript : Option Text
  pub commands : Option Text
  pub state_transitions : Option Text
  pub final_message : Option Text

unfoldable pub is_agent_command : LoggedCommand → Bool
is_agent_command c = not (starts_with c.command (codes "git "))

-- `(c.get("exit_code") or 0) != 0`
abbrev pub is_failing : Option ℤ → Bool
is_failing none = false
is_failing (some z) = not (is_zero z)

unfoldable pub is_assistant : TranscriptEvent → Bool
unfolding codes
is_assistant e = e.role == codes "assistant"

-- whether an event is a tool's, with the signal in its text
unfoldable pub is_signal : Text → TranscriptEvent → Bool
unfolding has_text codes
is_signal signal e = e.role == codes "tool" && has_text e.content signal

abbrev pub is_rejection : StateRow → Bool
is_rejection (transition_row t) = false
is_rejection (rejection_row r) = true

abbrev pub backend_of : Option Text → List Text → List Text
backend_of none backends = backends
backend_of (some []) backends = backends
backend_of (some (c ∷ s)) backends = (c ∷ s) ∷ backends

-- the backends of the commands, those that are not empty
unfoldable pub sandbox_backends : List LoggedCommand → List Text
sandbox_backends [] = []
sandbox_backends (c ∷ commands) = backend_of c.sandbox (sandbox_backends commands)

unfoldable pub stop_reason : Option Text → Option Text
unfolding has_text codes lower
stop_reason none = none
stop_reason (some text) =
    if has_text text (codes "submitted=True")
    then some (codes "submitted")
    else if has_text (lower text) (codes "timeout")
    then some (codes "timeout")
    else if has_text (lower text) (codes "error")
    then some (codes "error")
    else none

-- `next_of` is `next(iter(set(backends))) if backends else None`.
module _ (next_of : List Text → Option Text) where
  unfoldable pub process_metrics :
      List TranscriptEvent → List LoggedCommand → List StateRow → Option Text → ProcessMetrics
  unfolding is_agent_command is_assistant is_signal sandbox_backends stop_reason
  process_metrics transcript commands st final_message =
      let agent_cmds = filter is_agent_command commands in
      record {
        turns = count_if is_assistant transcript;
        commands_run = length agent_cmds;
        failed_commands = count_if (λ c. is_failing c.exit_code) agent_cmds;
        edits_made = none;
        gate_failures = count_if (is_signal (codes "gate(s) failed")) transcript;
        gate_revisions = count_if (is_signal (codes "gate revision")) transcript;
        harness_rejections = count_if is_rejection st;
        localized_before_edit = none;
        sandbox_backend = next_of (sandbox_backends commands);
        stop_reason = stop_reason final_message;
      }

  abbrev pub then_with : {A B : Type 0} → Result A → (A → Result B) → Result B
  then_with (ok a) f = f a
  then_with (err e) f = err e

  abbrev pub read_rows : (Text → Result (List StateRow)) → Option Text → Result (List StateRow)
  read_rows loads none = ok []
  read_rows loads (some text) = loads text

  unfoldable pub extract_process_metrics :
      (Text → Result TranscriptEvent)
      → (Text → Result LoggedCommand)
      → (Text → Result (List StateRow))
      → MetricFiles
      → Result ProcessMetrics
  unfolding read_jsonl process_metrics
  extract_process_metrics load_event load_command load_rows files =
      then_with (read_jsonl load_event files.transcript) λ transcript.
        then_with (read_jsonl load_command files.commands) λ commands.
          then_with (read_rows load_rows files.state_transitions)
            λ st. ok (process_metrics transcript commands st files.final_message)
