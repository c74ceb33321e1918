-- ===== src/Harness/Requests.antt =====
-- What one request does to the machine, on every branch.
use coding_agent_support.Base.{
  Option-cases, ◌≡◌, refl, Bool, true, Option, some, Text, codes, upper, list_beq, arith, [], ◌∷◌,
  ◌++◌, inl, inr,
}
use coding_agent_support.Harness.{
  HarnessState, discover, diagnose, patch, validate, submit, value, HarnessStateMachine, Transition,
  parse_state, request_state, request_transition, log_transition,
}

-- `t` was logged, no record and no rejection changed, and the machine stands at `s`.
abbrev pub Logged : HarnessStateMachine → HarnessState → Transition × HarnessStateMachine → Type 0
Logged m s (t, m') =
    (m'.state ≡ s)
    × (m'.transitions ≡ m.transitions ++ t ∷ [])
    × (m'.records ≡ m.records)
    × (m'.rejections ≡ m.rejections)
    × (t.frm ≡ value m.state)

-- where a request for `target` leaves the machine, given whether it succeeded
abbrev pub landing : HarnessStateMachine → Option HarnessState → Bool → HarnessState
landing m (some s) true = s
landing m _ _ = m.state

request_state-Logged :
    (s : HarnessState) (m : HarnessStateMachine)
    → let result = request_state s m in Logged m (landing m (some s) result.0.ok) result
unfolding request_state
request_state-Logged s m = ground arith

-- A request moves the machine to its target if it succeeds and leaves the state alone if not; it
-- logs the transition that it returns, and touches neither records nor rejections.
pub request_transition-Logged :
    (target : Text) (m : HarnessStateMachine)
    → let result = request_transition target m in
      Logged m (landing m (parse_state (upper target)) result.0.ok) result
unfolding request_transition
request_transition-Logged target m = elim (Option-cases (parse_state (upper target))) [
  | inl e ↦ rw (e, request_transition) (unfold log_transition in (refl, refl, refl, refl, refl))
  | inr (s, e) ↦ rw (e, request_transition) (request_state-Logged s m)
]

parse_state-value : (s : HarnessState) → parse_state (upper (value s)) ≡ some s
unfolding parse_state upper list_beq codes
parse_state-value discover = refl
parse_state-value diagnose = refl
parse_state-value patch = refl
parse_state-value validate = refl
parse_state-value submit = refl
