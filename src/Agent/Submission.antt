-- ===== src/Agent/Submission.antt =====
-- When the loop lets a submission pass.
use coding_agent_support.Base.{
  ℕ, zero, suc, ◌≤◌, ◌≡◌, ◌⊎◌, inl, inr, refl, Bool, true, false, not, ◌&&◌, Option, none, some,
  List, [], ◌∷◌, Text, codes, is_empty, ltb, take, arith, list_eq, nat_eq, if◌then◌else◌,
}
use coding_agent_support.Effects.{OnOk, OnOk-bind, OnOk-then, OnOk-if}
use coding_agent_support.Harness.{HarnessStateMachine, can_submit, can_edit, has_record}
use coding_agent_support.Harness.Invariant.{rejected, Reachable-allows}
use coding_agent_support.Gates.Policy.{GateResult, blocking_failures}
use coding_agent_support.Gates.Files.{changed_files_from_diff}
use coding_agent_support.Gates.Run.{run_policy_v2}
use coding_agent_support.Agent.Directives.{apply_harness_directives, extract_bash_blocks, is_submit}
use coding_agent_support.Agent.Loop.{
  LlmAgent, Surroundings, Turns, Exit, Next, go_on, stop, direct, guard_edits, observe, judge,
  pass_gates, submit, answer, turn, run_loop, first_turns, run_blocks, say, say_feedback, assistant,
  trim_history, nudge, go_next,
}
use coding_agent_support.Agent.Workflow.{IsMachine, IsMachine-fresh, directives-Reachable}

-- no failures are left, or no revisions
passed_or_spent :
    (clean : Bool) (revisions budget : ℕ)
    → revisions ≤ budget
    → (not clean && ltb revisions budget) ≡ false
    → (clean ≡ true) ⊎ (revisions ≡ budget)
passed_or_spent true revisions budget le h = inl refl
passed_or_spent false revisions budget le h = inr (ground (arith, le, h))

module _ (agent : LlmAgent) where
  pub record IsSound (t : Turns) : Type 0 where
    pub machine : IsMachine agent.cond.harness t.machine
    pub revisions : t.gate_revisions ≤ agent.gate_policy.revision_budget

  -- the workflow is done: every record is there
  abbrev pub WorkflowDone : Option HarnessStateMachine → Type 0
  WorkflowDone none = agent.cond.harness ≡ false
  WorkflowDone (some m) =
      (has_record (codes "localization") m ≡ true)
      × (has_record (codes "diagnosis") m ≡ true)
      × (has_record (codes "validation") m ≡ true)

  -- the gates have passed, or their revisions are spent
  abbrev pub GatesDone : Turns → Type 0
  GatesDone t =
      (agent.cond.gates ≡ false)
      ⊎ ((results : List GateResult) × (t.gate_results ≡ some results)
          × ((is_empty (blocking_failures results) ≡ true)
              ⊎ (t.gate_revisions ≡ agent.gate_policy.revision_budget)))

  pub record IsFair (e : Exit) : Type 0 where
    pub revisions : e.turns.gate_revisions ≤ agent.gate_policy.revision_budget
    pub passed : (e.submitted ≡ false) ⊎ (WorkflowDone e.turns.machine × GatesDone e.turns)

  abbrev pub IsNext : Next → Type 0
  IsNext (go_on t) = IsSound t
  IsNext (stop e) = IsFair e

  IsNext-if :
      (b : Bool) (x y : Next)
      → (b ≡ true → IsNext x)
      → (b ≡ false → IsNext y)
      → IsNext (if b then x else y)
  IsNext-if true x y h k = h refl
  IsNext-if false x y h k = k refl

  say_feedback-IsSound : (o : Option Text) (t : Turns) → IsSound t → IsSound (say_feedback o t)
  say_feedback-IsSound none t h = h
  say_feedback-IsSound (some []) t h = h
  say_feedback-IsSound (some (c ∷ text)) t h = record {
    machine = h.machine;
    revisions = h.revisions;
  }

  direct-IsSound :
      (reply : Text) (t : Turns) (o : Option HarnessStateMachine)
      → t.machine ≡ o
      → IsMachine agent.cond.harness o
      → IsSound t
      → IsSound (direct reply t)
  unfolding direct
  direct-IsSound reply t none e m h = rw (e, direct) h
  direct-IsSound reply t (some x) e m h =
      rw (e, direct)
        (say_feedback-IsSound (apply_harness_directives reply x).0 _
          (record { machine = (m.0, directives-Reachable reply x m.1); revisions = h.revisions }))

  module _ {W : Type 0} (around : Surroundings W) where
    guard_edits-IsNext :
        (observed : Text) (t : Turns) (o : Option HarnessStateMachine) (w : W)
        → IsMachine agent.cond.harness o
        → IsSound t
        → OnOk IsNext (guard_edits around agent observed t o w).0
    unfolding guard_edits
    guard_edits-IsNext observed t none w m h = record {
      machine = h.machine;
      revisions = h.revisions;
    }
    guard_edits-IsNext observed t (some x) w m h =
        OnOk-if IsNext (can_edit x) _ _ w
          (λ may. record { machine = h.machine; revisions = h.revisions })
          (λ barred. OnOk-then IsNext around.is_dirty _ w λ dirty w'.
            OnOk-if IsNext dirty _ _ w'
              (λ yes_.
                OnOk-then IsNext around.revert_all _ w'
                  λ done w''. record { machine = (m.0, rejected _ _ m.1); revisions = h.revisions })
              (λ no_. record { machine = h.machine; revisions = h.revisions }))

    observe-IsNext :
        (blocks : List Text) (t : Turns) (w : W)
        → IsSound t
        → OnOk IsNext (observe around agent blocks t w).0
    unfolding observe
    observe-IsNext blocks t w h =
        OnOk-then IsNext (run_blocks around agent (take 5 blocks)) _ w
          λ parts w'. guard_edits-IsNext _ t t.machine w' h.machine h

    judge-IsNext :
        (results : List GateResult) (t : Turns)
        → t.gate_results ≡ some results
        → WorkflowDone t.machine
        → IsSound t
        → IsNext (judge around agent results t)
    unfolding judge
    judge-IsNext results t e d h =
        IsNext-if
          (not (is_empty (blocking_failures results))
            && ltb t.gate_revisions agent.gate_policy.revision_budget)
          _ _ (λ more. record { machine = h.machine; revisions = ground (arith, more) })
          (λ done. record {
            revisions = h.revisions;
            passed = inr (
              d,
              inr (
                results,
                e,
                passed_or_spent (is_empty (blocking_failures results)) t.gate_revisions
                    agent.gate_policy.revision_budget h.revisions done,
              ),
            );
          })

    pass_gates-IsNext :
        (t : Turns) (w : W)
        → WorkflowDone t.machine
        → IsSound t
        → OnOk IsNext (pass_gates around agent t w).0
    unfolding pass_gates
    pass_gates-IsNext t w d h =
        OnOk-if IsNext agent.cond.gates _ _ w
          (λ gated. OnOk-then IsNext around.final_diff _ w λ diff w'.
            OnOk-then IsNext
              (run_policy_v2 around.loads around.exec (changed_files_from_diff diff)
                (some agent.gate_baseline) (some agent.gate_policy))
              _ w'
              λ results w''.
                judge-IsNext results (record t { gate_results = some results }) refl d
                  (record { machine = h.machine; revisions = h.revisions }))
          (λ free. record { revisions = h.revisions; passed = inr (d, inl free) })

    submit-IsNext :
        (t : Turns) (o : Option HarnessStateMachine) (w : W)
        → t.machine ≡ o
        → IsMachine agent.cond.harness o
        → IsSound t
        → OnOk IsNext (submit around agent t o w).0
    unfolding submit
    submit-IsNext t none w e m h = pass_gates-IsNext t w (rw e m) h
    submit-IsNext t (some x) w e m h =
        OnOk-if IsNext (can_submit x) _ _ w
          (λ may. pass_gates-IsNext t w (rw e ((Reachable-allows m.1).1 may)) h)
          (λ barred. record { machine = (m.0, rejected _ _ m.1); revisions = h.revisions })

    nudge-IsSound :
        (t : Turns) (o : Option HarnessStateMachine) → IsSound t → IsSound (nudge around agent t o)
    nudge-IsSound t none h = record { machine = h.machine; revisions = h.revisions }
    nudge-IsSound t (some m) h = h

    answer-IsNext :
        (reply : Text) (blocks : List Text) (t : Turns) (w : W)
        → IsSound t
        → OnOk IsNext (answer around agent reply blocks t w).0
    unfolding answer
    answer-IsNext reply [] t w h =
        OnOk-if IsNext (is_submit reply) _ _ w
          (λ submits. submit-IsNext t t.machine w refl h.machine h)
          (λ other. nudge-IsSound t t.machine h)
    answer-IsNext reply (b ∷ bs) t w h = observe-IsNext (b ∷ bs) t w h

    turn-IsNext : (t : Turns) (w : W) → IsSound t → OnOk IsNext (turn around agent t w).0
    unfolding turn
    turn-IsNext t w h =
        OnOk-then IsNext (around.complete (trim_history agent.history_window t.messages)) _ w
          λ reply w'. answer-IsNext reply (extract_bash_blocks reply) _ w' (
            direct-IsSound reply (say assistant reply t) t.machine refl h.machine
              (record { machine = h.machine; revisions = h.revisions }))

    -- a further turn, by what is known of the loop behind it
    after_next :
        (n : ℕ) (next : Next) (w : W)
        → ((t : Turns) (w : W) → IsSound t → OnOk IsFair (run_loop around agent n t w).0)
        → IsNext next
        → OnOk IsFair (go_next around agent (run_loop around agent n) next w).0
    after_next n (go_on t) w loop h = loop t w h
    after_next n (stop e) w loop h = h

    run_loop-IsFair :
        (n : ℕ) (t : Turns) (w : W) → IsSound t → OnOk IsFair (run_loop around agent n t w).0
    unfolding run_loop
    run_loop-IsFair zero t w h = record { revisions = h.revisions; passed = inl refl }
    run_loop-IsFair (suc n) t w h = OnOk-then IsFair around.over_time _ w λ over w'.
        OnOk-if IsFair over _ _ w' (λ late. record { revisions = h.revisions; passed = inl refl })
          (λ early.
            OnOk-bind IsNext IsFair (turn around agent t) _ w' (turn-IsNext t w' h)
              λ next w''. after_next n next w'' (run_loop-IsFair n))

    first_turns-IsSound : (prompt : Text) → IsSound (first_turns around agent prompt)
    unfolding first_turns
    first_turns-IsSound prompt = record {
      machine = IsMachine-fresh agent.cond.harness;
      revisions = omega arith;
    }

    -- If the loop ends without an exception, it has spent no more gate revisions than the budget has;
    -- and if it has submitted, then under the harness the machine has a localization, a diagnosis and
    -- a validation on record, without a machine the condition has no harness, and under the gates the
    -- last results show no blocking failure or the budget is spent.
    pub run_loop-IsFair_first :
        (prompt : Text) (w : W)
        → OnOk IsFair (run_loop around agent agent.max_turns (first_turns around agent prompt) w).0
    run_loop-IsFair_first prompt w =
        run_loop-IsFair agent.max_turns (first_turns around agent prompt) w
          (first_turns-IsSound prompt)
