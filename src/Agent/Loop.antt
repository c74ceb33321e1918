-- ===== src/Agent/Loop.antt =====
-- The loop of `LLMAgent.run`, turn by turn.
use coding_agent_support.Base.{
  ℕ, zero, suc, ◌+◌, ◌-◌, Bool, true, false, not, ◌&&◌, Option, none, some, List, [], ◌∷◌, ◌++◌,
  Text, codes, decimal, join, take, drop, length, is_empty, leb, ltb, Dict, ◌==◌, list_eq, nat_eq,
  if◌then◌else◌,
}
use coding_agent_support.Base.Integers.{ℤ, pos, negsuc}
use coding_agent_support.Effects.{Eff, Result, ok, err, pure, ◌>>=◌}
use coding_agent_support.Json.{Json}
use coding_agent_support.Condition.{SupportCondition}
use coding_agent_support.Harness.{HarnessStateMachine, fresh, can_edit, can_submit, reject, value}
use coding_agent_support.Gates.Policy.{GatePolicy, GateResult, blocking_failures, format_feedback}
use coding_agent_support.Gates.Files.{changed_files_from_diff}
use coding_agent_support.Gates.Run.{run_policy_v2}
use coding_agent_support.Agent.Directives.{apply_harness_directives, extract_bash_blocks, is_submit}

pub data Role : Type 0 where
  system assistant user : Role

pub record Message : Type 0 where
  pub role : Role
  pub content : Text

-- the agent's attributes and the condition of its run
pub record LlmAgent : Type 0 where
  pub max_turns : ℕ
  pub history_window : ℕ
  pub gate_policy : GatePolicy
  pub gate_baseline : Dict Text ℤ
  pub cond : SupportCondition

-- The clock, the chat service, the workspace and the JSON reader. A command gives its exit code and
-- its output, and `over_time` tells whether the run's time is over.
pub record Surroundings (W : Type 0) : Type 0 where
  pub over_time : Eff W Bool
  pub complete : List Message → Eff W Text
  pub run_command : Text → Eff W (ℤ × Text)
  pub is_dirty : Eff W Bool
  pub revert_all : Eff W (Unit {0})
  pub final_diff : Eff W Text
  pub exec : List Text → Eff W (ℤ × Text)
  pub loads : Text → Option Json

-- the variables of the loop, and the last gate results that it wrote
pub record Turns : Type 0 where
  pub messages : List Message
  pub machine : Option HarnessStateMachine
  pub gate_revisions : ℕ
  pub gate_results : Option (List GateResult)

pub data RunStatus : Type 0 where
  completed failed timeout error : RunStatus

pub record Exit : Type 0 where
  pub status : RunStatus
  pub submitted : Bool
  pub turns : Turns

-- what a turn comes to: a further one, or the end of the loop
pub data Next : Type 0 where
  go_on : Turns → Next
  stop : Exit → Next

-- `messages[-window:]`, which is all of them for 0
abbrev pub last_messages : ℕ → List Message → List Message
last_messages window messages =
    if window == 0 then messages else drop (length messages - window) messages

abbrev pub first_message : List Message → List Message
first_message [] = []
first_message (x ∷ messages) = x ∷ []

unfoldable pub trim_history : ℕ → List Message → List Message
trim_history window messages =
    if leb (length messages) (window + 1)
    then messages
    else first_message messages ++ last_messages window messages

abbrev pub say : Role → Text → Turns → Turns
say role content t = record t {
  messages = t.messages ++ record { role = role; content = content } ∷ [];
}

unfoldable pub exit_text : ℤ → Text
exit_text (pos n) = decimal n
exit_text (negsuc n) = codes "-" ++ decimal (suc n)

abbrev pub say_feedback : Option Text → Turns → Turns
say_feedback none t = t
say_feedback (some []) t = t
say_feedback (some (c ∷ text)) t = say user (c ∷ text) t

-- the directives of a reply
unfoldable pub direct : Text → Turns → Turns
direct reply t = elim t.machine [
  | none ↦ t
  | some m ↦
      let (feedback, moved) = apply_harness_directives reply m in
      say_feedback feedback (record t { machine = some moved })
]

unfoldable pub too_many : ℕ → Text
too_many n =
    if ltb 5 n
    then codes "\n[note] you sent "
      ++ decimal n
      ++ codes
          " commands; only the first 5 ran. Send fewer per turn and iterate on the output before editing."
    else []

unfoldable pub reverted_text : HarnessStateMachine → Text
reverted_text m =
    codes "\n[HARNESS] Edits are not allowed in "
    ++ value m.state
    ++ codes "; your changes were reverted. Localize/diagnose first, then NEXT_STATE: PATCH."

unfoldable pub cannot_submit_text : HarnessStateMachine → Text
cannot_submit_text m =
    codes "[HARNESS] Cannot SUBMIT from "
    ++ value m.state
    ++ codes
        ". Complete DISCOVER→DIAGNOSE→PATCH→VALIDATE with the required records (LOCALIZATION/DIAGNOSIS/VALIDATION) and NEXT_STATE directives first."

unfoldable pub nudge_text : Text
nudge_text =
    codes
      "Reply with exactly one ```bash``` block to run a command, or the single word SUBMIT when done."

module _ {W : Type 0} (around : Surroundings W) (agent : LlmAgent) where
  unfoldable pub run_blocks : List Text → Eff W (List Text)
  unfolding exit_text
  run_blocks [] = pure []
  run_blocks (b ∷ bs) = do
    (code, out) ← around.run_command b
    parts ← run_blocks bs
    pure ((codes "$ " ++ b ++ codes "\n[exit=" ++ exit_text code ++ codes "]\n" ++ out) ∷ parts)

  -- edits outside of their states are taken back
  unfoldable pub guard_edits : Text → Turns → Option HarnessStateMachine → Eff W Next
  unfolding reverted_text
  guard_edits observed t none = pure (go_on (say user observed t))
  guard_edits observed t (some m) =
      if can_edit m
      then pure (go_on (say user observed t))
      else around.is_dirty >>= λ dirty.
          if dirty
          then (around.revert_all >>= λ done. pure (
              go_on (
                say user (observed ++ reverted_text m) (record t {
                  machine = some (
                      (reject (codes "edit") (codes "edits not allowed in " ++ value m.state) m).1);
                }))))
          else pure (go_on (say user observed t))

  -- a reply with commands
  unfoldable pub observe : List Text → Turns → Eff W Next
  unfolding run_blocks guard_edits too_many
  observe blocks t = do
    parts ← run_blocks (take 5 blocks)
    guard_edits (take 4000 (join (codes "\n\n") parts) ++ too_many (length blocks)) t t.machine

  abbrev pub exit_submitted : Turns → Exit
  exit_submitted t = record { status = completed; submitted = true; turns = t }

  unfoldable pub revision_text : List GateResult → ℕ → Text
  revision_text failures revisions =
      format_feedback failures
      ++ codes "\n[gate revision "
      ++ decimal revisions
      ++ codes "/"
      ++ decimal agent.gate_policy.revision_budget
      ++ codes "]"

  -- after the gates have run: `t` holds their results
  unfoldable pub judge : List GateResult → Turns → Next
  unfolding revision_text
  judge results t =
      if not (is_empty (blocking_failures results))
        && ltb t.gate_revisions agent.gate_policy.revision_budget
      then go_on (
          say user (revision_text (blocking_failures results) (suc t.gate_revisions))
            (record t { gate_revisions = suc t.gate_revisions }))
      else stop (exit_submitted t)

  unfoldable pub pass_gates : Turns → Eff W Next
  unfolding judge
  pass_gates t =
      if agent.cond.gates
      then (around.final_diff >>= λ diff.
          run_policy_v2 around.loads around.exec (changed_files_from_diff diff)
            (some agent.gate_baseline) (some agent.gate_policy)
          >>= λ results. pure (judge results (record t { gate_results = some results })))
      else pure (stop (exit_submitted t))

  -- a reply that submits
  unfoldable pub submit : Turns → Option HarnessStateMachine → Eff W Next
  unfolding pass_gates cannot_submit_text
  submit t none = pass_gates t
  submit t (some m) =
      if can_submit m
      then pass_gates t
      else pure (
          go_on (
            say user (cannot_submit_text m) (record t {
              machine =
                  some
                    ((reject (codes "submit") (codes "cannot submit from " ++ value m.state) m).1);
            })))

  abbrev pub nudge : Turns → Option HarnessStateMachine → Turns
  nudge t none = say user nudge_text t
  nudge t (some m) = t

  -- a reply, once its directives are followed
  unfoldable pub answer : Text → List Text → Turns → Eff W Next
  unfolding observe submit
  answer reply [] t =
      if is_submit reply then submit t t.machine else pure (go_on (nudge t t.machine))
  answer reply (b ∷ bs) t = observe (b ∷ bs) t

  unfoldable pub turn : Turns → Eff W Next
  unfolding answer trim_history direct
  turn t = around.complete (trim_history agent.history_window t.messages) >>= λ reply.
      answer reply (extract_bash_blocks reply) (direct reply (say assistant reply t))

  abbrev pub out_of_time : Turns → Exit
  out_of_time t = record { status = timeout; submitted = false; turns = t }

  abbrev pub go_next : (Turns → Eff W Exit) → Next → Eff W Exit
  go_next loop (go_on t) = loop t
  go_next loop (stop e) = pure e

  -- the loop with `n` turns left
  unfoldable pub run_loop : ℕ → Turns → Eff W Exit
  unfolding turn
  run_loop zero t = pure (out_of_time t)
  run_loop (suc n) t = around.over_time >>= λ over.
      if over then pure (out_of_time t) else (turn t >>= go_next (run_loop n))

  -- the variables before the first turn
  unfoldable pub first_turns : Text → Turns
  first_turns prompt = record {
    messages = record { role = system; content = prompt } ∷ [];
    machine = if agent.cond.harness then some fresh else none;
    gate_revisions = 0;
    gate_results = none;
  }

  abbrev caught : Result Exit → RunStatus × Bool
  caught (ok e) = (e.status, e.submitted)
  caught (err e) = (error, false)

  -- the status of the run and whether it submitted; an exception of the loop is caught
  unfoldable pub run : Text → Eff W (RunStatus × Bool)
  unfolding run_loop first_turns
  run prompt w =
      let (r, w') = run_loop agent.max_turns (first_turns prompt) w in (ok (caught r), w')
