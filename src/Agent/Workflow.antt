-- ===== src/Agent/Workflow.antt =====
-- The directives of a reply keep the machine reachable.
use coding_agent_support.Base.{
  ◌≡◌, inl, inr, refl, Bool, true, false, Option, none, some, Text, codes, Option-cases, list_eq,
  nat_eq, if◌then◌else◌,
}
use coding_agent_support.Harness.{HarnessStateMachine, fresh}
use coding_agent_support.Harness.Invariant.{Reachable, start, recorded, requested}
use coding_agent_support.Agent.Directives.{
  apply_harness_directives, record_all, record_kind, search_lines, record_at, next_state_at,
}

-- The machine of the loop is one that requests, records and rejections make, or there is none.
abbrev pub IsMachine : Bool → Option HarnessStateMachine → Type 0
IsMachine harness none = harness ≡ false
IsMachine harness (some m) = (harness ≡ true) × Reachable m

pub IsMachine-fresh : (harness : Bool) → IsMachine harness (if harness then some fresh else none)
IsMachine-fresh true = (refl, start)
IsMachine-fresh false = refl

pub record_kind-Reachable :
    (kind prefix reply : Text) (m : HarnessStateMachine)
    → Reachable m
    → Reachable (record_kind kind prefix reply m)
unfolding record_kind
record_kind-Reachable kind prefix reply m h =
    elim (Option-cases (search_lines (record_at prefix) true reply)) [
      | inl e ↦ rw (e, record_kind) h
      | inr (text, e) ↦ rw (e, record_kind) (recorded kind text h)
    ]

pub directives-Reachable :
    (reply : Text) (m : HarnessStateMachine)
    → Reachable m
    → Reachable (apply_harness_directives reply m).1
unfolding apply_harness_directives record_all
directives-Reachable reply m h =
    let r = record_kind-Reachable (codes "validation") (codes "VALIDATION:") reply _ (
      record_kind-Reachable (codes "diagnosis") (codes "DIAGNOSIS:") reply _
        (record_kind-Reachable (codes "localization") (codes "LOCALIZATION:") reply m h)) in
    elim (Option-cases (search_lines next_state_at true reply)) [
      | inl e ↦ rw (e, apply_harness_directives) r
      | inr (target, e) ↦ rw (e, apply_harness_directives) (requested target r)
    ]
