-- ===== src/Harness.antt =====
-- se_support/support/harness.py: the enforced workflow of the harness condition. A method that changes the
-- machine returns the new machine beside its result.
pub mod Requests
pub mod Invariant
pub mod Walk
mod Tests
use coding_agent_support.Base.{
  ℕ, zero, suc, ◌+◌, ◌-◌, Bool, true, false, not, ◌&&◌, Option, none, some, List, [], ◌∷◌, ◌++◌,
  Text, codes, strip, upper, Dict, lookup, insert, get_elem?, length, is_empty, leb, ltb,
  if◌then◌else◌, ◌==◌, list_eq, nat_eq,
}

pub data HarnessState : Type 0 where
  discover diagnose patch validate submit : HarnessState

-- `state.value`
unfoldable pub value : HarnessState → Text
value discover = codes "DISCOVER"
value diagnose = codes "DIAGNOSE"
value patch = codes "PATCH"
value validate = codes "VALIDATE"
value submit = codes "SUBMIT"

-- `ORDER`
abbrev pub order : List HarnessState
order = discover ∷ diagnose ∷ patch ∷ validate ∷ submit ∷ []

-- `ORDER.index(state)`
abbrev pub index : HarnessState → ℕ
index discover = 0
index diagnose = 1
index patch = 2
index validate = 3
index submit = 4

-- `state in EDIT_STATES`
abbrev pub in_edit_states : HarnessState → Bool
in_edit_states patch = true
in_edit_states validate = true
in_edit_states _ = false

-- `_REQUIRED_RECORD_TO_LEAVE.get(state)`
abbrev pub required_record_to_leave : HarnessState → Option Text
required_record_to_leave discover = some (codes "localization")
required_record_to_leave diagnose = some (codes "diagnosis")
required_record_to_leave validate = some (codes "validation")
required_record_to_leave _ = none

pub record Transition : Type 0 where
  pub frm : Text
  pub to : Text
  pub ok : Bool
  pub reason : Text

pub record Rejection : Type 0 where
  pub state : Text
  pub action : Text
  pub reason : Text

pub record HarnessStateMachine : Type 0 where
  pub state : HarnessState
  pub records : Dict Text Text
  pub transitions : List Transition
  pub rejections : List Rejection

-- `HarnessStateMachine()`
unfoldable pub fresh : HarnessStateMachine
fresh = record { state = discover; records = []; transitions = []; rejections = [] }

-- `HarnessStateMachine.record`
unfoldable pub record_text : Text → Text → HarnessStateMachine → HarnessStateMachine
record_text kind text m =
    if not (is_empty text) && not (is_empty (strip text))
    then record m { records = insert kind (strip text) m.records }
    else m

is_filled : Option Text → Bool
is_filled none = false
is_filled (some text) = not (is_empty text)

unfoldable pub has_record : Text → HarnessStateMachine → Bool
unfolding is_filled
has_record kind m = is_filled (lookup kind m.records)

unfoldable pub can_edit : HarnessStateMachine → Bool
can_edit m = in_edit_states m.state

unfoldable pub reject : Text → Text → HarnessStateMachine → Rejection × HarnessStateMachine
reject action reason m =
    let r : Rejection = record { state = value m.state; action = action; reason = reason } in
    (r, record m { rejections = m.rejections ++ r ∷ [] })

-- `_next_state`
unfoldable pub next_state : HarnessState → Option HarnessState
next_state s =
    let i = index s in if ltb (i + 1) (length order) then get_elem? order (i + 1) else none

-- `HarnessState(text)`; `none` stands for ValueError.
unfoldable pub parse_state : Text → Option HarnessState
unfolding value
parse_state text =
    if text == value discover
    then some discover
    else if text == value diagnose
    then some diagnose
    else if text == value patch
    then some patch
    else if text == value validate
    then some validate
    else if text == value submit
    then some submit
    else none

-- the record that one round of the loop finds missing
pub missing_at : HarnessStateMachine → Option HarnessState → Option Text
missing_at m none = none
missing_at m (some s) = elim (required_record_to_leave s) [
  | none ↦ none
  | some required ↦ if not (has_record required m) then some required else none
]

-- `for i in range(i, i + n)`: the first missing record
pub missing_from : HarnessStateMachine → ℕ → ℕ → Option Text
unfolding missing_at
missing_from m zero i = none
missing_from m (suc n) i = elim (missing_at m (get_elem? order i)) [
  | some required ↦ some required
  | none ↦ missing_from m n (suc i)
]

pub log_transition :
    HarnessStateMachine → HarnessState → Transition → Transition × HarnessStateMachine
log_transition m state t = (t, record m { state = state; transitions = m.transitions ++ t ∷ [] })

-- `request_transition` once `target` is a state
unfoldable pub request_state : HarnessState → HarnessStateMachine → Transition × HarnessStateMachine
unfolding log_transition
request_state target m =
    let frm = value m.state in
    if leb (index target) (index m.state)
    then log_transition m m.state (record {
      frm = frm;
      to = value target;
      ok = false;
      reason = codes "not a forward transition";
    })
    else elim (missing_from m (index target - index m.state) (index m.state)) [
      | some required ↦ log_transition m m.state (record {
        frm = frm;
        to = value target;
        ok = false;
        reason = codes "missing required " ++ required ++ codes " record";
      })
      | none ↦
          log_transition m target (record { frm = frm; to = value target; ok = true; reason = [] })
    ]

-- A `HarnessState` is a `str`, so the source parses the text of every target.
unfoldable pub request_transition : Text → HarnessStateMachine → Transition × HarnessStateMachine
unfolding request_state
request_transition target m = elim (parse_state (upper target)) [
  | none ↦ log_transition m m.state (record {
    frm = value m.state;
    to = target;
    ok = false;
    reason = codes "unknown target state";
  })
  | some state ↦ request_state state m
]

unfoldable pub can_submit : HarnessStateMachine → Bool
can_submit m = elim m.state [ submit ↦ true | _ ↦ false ]
