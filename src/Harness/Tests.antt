-- ===== src/Harness/Tests.antt =====
-- Runs of the workflow, and the theorems at concrete machines.
use coding_agent_support.Base.{◌⊎◌, ◌≡◌, refl, true, false, ◌↔◌, codes, upper, list_beq, strip}
use coding_agent_support.Harness.{
  discover, patch, HarnessStateMachine, fresh, record_text, request_state, request_transition,
  has_record, can_edit, can_submit, parse_state, missing_from, log_transition,
}
use coding_agent_support.Harness.Requests.{Logged, landing, request_transition-Logged}
use coding_agent_support.Harness.Walk.{Walk, request_state-ok-iff_Walk}
use coding_agent_support.Harness.Invariant.{
  Reachable, start, recorded, requested, IsGuarded, Reachable-IsGuarded, Reachable-permissions,
}

abbrev noted : HarnessStateMachine
noted =
    record_text (codes "diagnosis") (codes " wrong sign ")
      (record_text (codes "localization") (codes "f.py:3") fresh)

abbrev patching : HarnessStateMachine
patching = (request_transition (codes "patch") noted).1

noted-Reachable : Reachable noted
noted-Reachable = recorded _ _ (recorded _ _ start)

jump_to_patch :
    let (t, m) = request_transition (codes "patch") noted in
    (t.ok ≡ true) × (m.state ≡ patch) × (can_edit m ≡ true) × (can_submit m ≡ false)
unfolding request_transition request_state parse_state upper list_beq codes missing_from
    log_transition record_text has_record fresh strip can_edit can_submit
jump_to_patch = (refl, refl, refl, refl)

jump_to_submit_fails :
    let (t, m) = request_transition (codes "SUBMIT") noted in
    (t.ok ≡ false) × (t.reason ≡ codes "missing required validation record") × (m.state ≡ discover)
unfolding request_transition request_state parse_state upper list_beq codes missing_from
    log_transition record_text has_record fresh strip
jump_to_submit_fails = (refl, refl, refl)

request_transition-Logged_example :
    let result = request_transition (codes "patch") noted in
    Logged noted (landing noted (parse_state (upper (codes "patch"))) result.0.ok) result
request_transition-Logged_example = request_transition-Logged (codes "patch") noted

request_state-ok-iff_Walk_example :
    ((request_state patch noted).0.ok ≡ true) ↔ Walk noted noted.state patch
request_state-ok-iff_Walk_example = request_state-ok-iff_Walk noted patch

Reachable-IsGuarded_example : IsGuarded patching
Reachable-IsGuarded_example = Reachable-IsGuarded (requested (codes "patch") noted-Reachable)

Reachable-permissions_example :
    ((can_edit patching ≡ false)
      ⊎ ((has_record (codes "localization") patching ≡ true)
          × (has_record (codes "diagnosis") patching ≡ true)))
    × ((can_submit patching ≡ false)
        ⊎ ((has_record (codes "localization") patching ≡ true)
            × (has_record (codes "diagnosis") patching ≡ true)
            × (has_record (codes "validation") patching ≡ true)))
Reachable-permissions_example = Reachable-permissions (requested (codes "patch") noted-Reachable)
