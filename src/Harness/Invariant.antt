-- ===== src/Harness/Invariant.antt =====
-- What every machine satisfies that a run of the agent can reach.
use coding_agent_support.Base.{
  ◌⊎◌, inl, inr, ◌≤◌, ◌≡◌, refl, sym, subst, upper, Bool, true, false, Option, none, some, Text,
  codes, strip, arith, lookup-insert, ==_iff, list_eq, nat_eq,
}
use coding_agent_support.Harness.{
  HarnessState, discover, diagnose, patch, validate, submit, index, HarnessStateMachine,
  parse_state, request_transition, fresh, next_state, record_text, reject, has_record, can_edit,
  can_submit,
}
use coding_agent_support.Harness.Requests.{landing, request_transition-Logged}
use coding_agent_support.Harness.Walk.{
  Walk, one, more, CanLeave, request_state-ok-iff_Walk, next-index,
}

-- the machines that the agent loop can make: it records, requests transitions and logs rejections
pub data Reachable : HarnessStateMachine → Type 0 where
  start : Reachable fresh
  recorded :
      {m : HarnessStateMachine} (kind text : Text)
      → Reachable m
      → Reachable (record_text kind text m)
  requested :
      {m : HarnessStateMachine} (target : Text)
      → Reachable m
      → Reachable (request_transition target m).1
  rejected :
      {m : HarnessStateMachine} (action reason : Text)
      → Reachable m
      → Reachable (reject action reason m).1

-- the states that lie behind `s` were left with their records in place
pub record IsGuardedAt (m : HarnessStateMachine) (s : HarnessState) : Type 0 where
  pub localized : 1 ≤ index s → has_record (codes "localization") m ≡ true
  pub diagnosed : 2 ≤ index s → has_record (codes "diagnosis") m ≡ true
  pub validated : 4 ≤ index s → has_record (codes "validation") m ≡ true

abbrev pub IsGuarded : HarnessStateMachine → Type 0
IsGuarded m = IsGuardedAt m m.state

-- A record that is in place stays in place.
pub has_record-record_text :
    (k kind text : Text) (m : HarnessStateMachine)
    → has_record k m ≡ true
    → has_record k (record_text kind text m) ≡ true
unfolding has_record record_text
has_record-record_text k kind text m h =
    ground (arith, ==_iff kind k, lookup-insert kind k (strip text) m.records)

state-record_text :
    (kind text : Text) (m : HarnessStateMachine) → (record_text kind text m).state ≡ m.state
unfolding record_text
state-record_text kind text m = ground arith

IsGuardedAt-mono :
    {m n : HarnessStateMachine} {s : HarnessState}
    → ((k : Text) → has_record k m ≡ true → has_record k n ≡ true)
    → IsGuardedAt m s
    → IsGuardedAt n s
IsGuardedAt-mono keep g = record {
  localized = λ h. keep _ (g.localized h);
  diagnosed = λ h. keep _ (g.diagnosed h);
  validated = λ h. keep _ (g.validated h);
}

no_next_of_submit : (t : HarnessState) → next_state submit ≡ some t → ⊥
unfolding next_state
no_next_of_submit t e = cc

leave-IsGuardedAt :
    {m : HarnessStateMachine} (s t : HarnessState)
    → next_state s ≡ some t
    → CanLeave m s
    → IsGuardedAt m s
    → IsGuardedAt m t
leave-IsGuardedAt {m} discover t e c g = record {
  localized = λ _. c _ refl;
  diagnosed = λ h. absurd (omega (arith, next-index m discover t e));
  validated = λ h. absurd (omega (arith, next-index m discover t e));
}
leave-IsGuardedAt {m} diagnose t e c g = record {
  localized = λ _. g.localized (omega arith);
  diagnosed = λ _. c _ refl;
  validated = λ h. absurd (omega (arith, next-index m diagnose t e));
}
leave-IsGuardedAt {m} patch t e c g = record {
  localized = λ _. g.localized (omega arith);
  diagnosed = λ _. g.diagnosed (omega arith);
  validated = λ h. absurd (omega (arith, next-index m patch t e));
}
leave-IsGuardedAt {m} validate t e c g = record {
  localized = λ _. g.localized (omega arith);
  diagnosed = λ _. g.diagnosed (omega arith);
  validated = λ _. c _ refl;
}
leave-IsGuardedAt {m} submit t e c g = absurd (no_next_of_submit t e)

Walk-IsGuardedAt :
    {m : HarnessStateMachine} {s t : HarnessState} → Walk m s t → IsGuardedAt m s → IsGuardedAt m t
Walk-IsGuardedAt (one e c) g = leave-IsGuardedAt _ _ e c g
Walk-IsGuardedAt (more e c w) g = Walk-IsGuardedAt w (leave-IsGuardedAt _ _ e c g)

landing-IsGuardedAt :
    (m : HarnessStateMachine) (target : Option HarnessState) (b : Bool)
    → ((s : HarnessState) → target ≡ some s → b ≡ true → Walk m m.state s)
    → IsGuarded m
    → IsGuardedAt m (landing m target b)
landing-IsGuardedAt m none true h g = g
landing-IsGuardedAt m none false h g = g
landing-IsGuardedAt m (some s) true h g = Walk-IsGuardedAt (h s refl refl) g
landing-IsGuardedAt m (some s) false h g = g

ok-Walk :
    (m : HarnessStateMachine) (target : Text) (s : HarnessState)
    → parse_state (upper target) ≡ some s
    → (request_transition target m).0.ok ≡ true
    → Walk m m.state s
unfolding request_transition
ok-Walk m target s e h = (request_state-ok-iff_Walk m s).0 (rw (e, request_transition) at h)

request-IsGuarded :
    (target : Text) (m : HarnessStateMachine)
    → IsGuarded m
    → IsGuarded (request_transition target m).1
unfolding has_record
request-IsGuarded target m g =
    let logged = request_transition-Logged target m in
    rw logged.0
      (IsGuardedAt-mono (λ k h. rw logged.2 h) (landing-IsGuardedAt m _ _ (ok-Walk m target) g))

reject-IsGuarded :
    (action reason : Text) (m : HarnessStateMachine)
    → IsGuarded m
    → IsGuarded (reject action reason m).1
unfolding reject has_record
reject-IsGuarded action reason m g = IsGuardedAt-mono (λ k h. h) g

-- Whatever the agent sends, each state that it has left behind was left with its record: it has
-- localized before DIAGNOSE, diagnosed before PATCH and validated before SUBMIT.
pub Reachable-IsGuarded : {m : HarnessStateMachine} → Reachable m → IsGuarded m
Reachable-IsGuarded start =
    unfold fresh in
    record {
      localized = λ h. absurd (omega arith);
      diagnosed = λ h. absurd (omega arith);
      validated = λ h. absurd (omega arith);
    }
Reachable-IsGuarded (recorded {m = m} kind text r) =
    subst (IsGuardedAt (record_text kind text m)) (sym (state-record_text kind text m))
      (IsGuardedAt-mono (λ k. has_record-record_text k kind text m) (Reachable-IsGuarded r))
Reachable-IsGuarded (requested {m = m} target r) =
    request-IsGuarded target m (Reachable-IsGuarded r)
Reachable-IsGuarded (rejected action reason r) =
    reject-IsGuarded action reason _ (Reachable-IsGuarded r)

pub Reachable-allows :
    {m : HarnessStateMachine}
    → Reachable m
    → (can_edit m ≡ true
        → (has_record (codes "localization") m ≡ true) × (has_record (codes "diagnosis") m ≡ true))
      × (can_submit m ≡ true
          → (has_record (codes "localization") m ≡ true)
            × (has_record (codes "diagnosis") m ≡ true)
            × (has_record (codes "validation") m ≡ true))
unfolding can_edit can_submit
Reachable-allows {m} r = let g = Reachable-IsGuarded r in (λ h. ground arith, λ h. ground arith)

either_way : {P : Type 0} (b : Bool) → (b ≡ true → P) → (b ≡ false) ⊎ P
either_way true h = inr (h refl)
either_way false h = inl refl

-- On a machine that records, requests and rejections can make from a fresh one, edits are not allowed
-- or a localization and a diagnosis are recorded; and submission is not allowed or these and a
-- validation are recorded.
pub Reachable-permissions :
    {m : HarnessStateMachine}
    → Reachable m
    → ((can_edit m ≡ false)
        ⊎ ((has_record (codes "localization") m ≡ true)
            × (has_record (codes "diagnosis") m ≡ true)))
      × ((can_submit m ≡ false)
          ⊎ ((has_record (codes "localization") m ≡ true)
              × (has_record (codes "diagnosis") m ≡ true)
              × (has_record (codes "validation") m ≡ true)))
Reachable-permissions {m} r =
    let (edits, submits) = Reachable-allows r in
    (either_way (can_edit m) edits, either_way (can_submit m) submits)
