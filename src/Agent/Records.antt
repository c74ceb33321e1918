-- ===== src/Agent/Records.antt =====
-- What the agent of se_support/agents/llm_agent.py leaves in its run directory: the transcript, the
-- rows of the state machine and the final message. The transcript gets each message of the loop when
-- it is said, with the role `tool` for the user's.
use coding_agent_support.Base.{
  ℕ, Bool, true, false, Option, none, some, List, [], ◌++◌, map, Text, codes, decimal,
}
use coding_agent_support.Harness.{HarnessStateMachine, Transition, Rejection}
use coding_agent_support.RunDir.{TranscriptEvent}
use coding_agent_support.Agent.Loop.{Role, system, assistant, user, Message, Turns, RunStatus}

unfoldable pub event_role : Role → Text
unfolding codes
event_role system = codes "system"
event_role assistant = codes "assistant"
event_role user = codes "tool"

abbrev pub event_of : Message → TranscriptEvent
event_of m = record { role = event_role m.role; content = m.content }

unfoldable pub transcript : Turns → List TranscriptEvent
transcript t = map event_of t.messages

-- a row of state_transitions.json, of the type `transition` or `rejection`
pub data StateRow : Type 0 where
  transition_row : Transition → StateRow
  rejection_row : Rejection → StateRow

abbrev pub rows_of : Option HarnessStateMachine → List StateRow
rows_of none = []
rows_of (some m) = map transition_row m.transitions ++ map rejection_row m.rejections

-- `_write_state_transitions`; without a machine there is no file, which is read as no rows.
unfoldable pub state_rows : Turns → List StateRow
state_rows t = rows_of t.machine

abbrev pub bool_text : Bool → Text
bool_text true = codes "True"
bool_text false = codes "False"

-- the text of final_message.md; `format` prints the member of the enumeration, in the way of the
-- Python version
unfoldable pub final_message : (RunStatus → Text) → Text → Text → RunStatus → ℕ → Bool → Text
unfolding codes
final_message format name condition status turns submitted =
    codes "# LLM agent ("
    ++ name
    ++ codes ")\ncondition="
    ++ condition
    ++ codes " status="
    ++ format status
    ++ codes " turns="
    ++ decimal turns
    ++ codes " submitted="
    ++ bool_text submitted
    ++ codes "\n"
