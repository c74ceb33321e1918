-- ===== src/Quality/Trajectory/Kept.antt =====
-- The counts of a transcript, turn by turn of the loop.
use coding_agent_support.Base.{
  ℕ, zero, suc, ◌+◌, ◌≤◌, subst, ◌≡◌, refl, Bool, true, false, not, ◌&&◌, Option, none, some, List,
  [], ◌∷◌, Text, codes, take, is_empty, ltb, arith, list_eq, nat_eq, list_beq, if◌then◌else◌,
}
use coding_agent_support.Effects.Partial.{
  Ensures, pure-Ensures, if-Ensures, then-Ensures, bind-Ensures,
}
use coding_agent_support.Harness.{HarnessStateMachine, can_submit, can_edit}
use coding_agent_support.Gates.Policy.{GateResult, blocking_failures}
use coding_agent_support.Gates.Files.{changed_files_from_diff}
use coding_agent_support.Gates.Run.{run_policy_v2}
use coding_agent_support.Agent.Directives.{apply_harness_directives, extract_bash_blocks, is_submit}
use coding_agent_support.Agent.Loop.{
  LlmAgent, Surroundings, Turns, Exit, Next, assistant, go_on, stop, direct, guard_edits, observe,
  judge, pass_gates, submit, answer, turn, run_loop, first_turns, say, say_feedback, nudge, go_next,
  run_blocks, trim_history,
}
use coding_agent_support.Agent.Records.{event_role}
use coding_agent_support.Quality.Trajectory.{is_assistant}
use coding_agent_support.Quality.Trajectory.Signals.{
  Keeps, say_user-Keeps, say_assistant-Keeps, say_signals-Keeps, revision_text-failed,
  revision_text-revision,
}

module _ {W : Type 0} (around : Surroundings W) (agent : LlmAgent) where
  abbrev pub IsKept : ℕ → Turns → Type 0
  IsKept k t = Keeps k t.messages t.gate_revisions

  abbrev IsNext : ℕ → Next → Type 0
  IsNext k (go_on t) = IsKept k t
  IsNext k (stop e) = IsKept k e.turns

  IsNext-if :
      (k : ℕ) (b : Bool) (x y : Next) → IsNext k x → IsNext k y → IsNext k (if b then x else y)
  IsNext-if k true x y h g = h
  IsNext-if k false x y h g = g

  say_feedback-IsKept :
      (k : ℕ) (o : Option Text) (t : Turns) → IsKept k t → IsKept k (say_feedback o t)
  say_feedback-IsKept k none t h = h
  say_feedback-IsKept k (some []) t h = h
  say_feedback-IsKept k (some (c ∷ text)) t h =
      say_user-Keeps k (c ∷ text) t.messages t.gate_revisions h

  direct-IsKept :
      (k : ℕ) (reply : Text) (t : Turns) (o : Option HarnessStateMachine)
      → t.machine ≡ o
      → IsKept k t
      → IsKept k (direct reply t)
  unfolding direct
  direct-IsKept k reply t none e h = rw (e, direct) h
  direct-IsKept k reply t (some m) e h =
      rw (e, direct)
        (say_feedback-IsKept k (apply_harness_directives reply m).0
          (record t { machine = some ((apply_harness_directives reply m).1) }) h)

  guard_edits-IsNext :
      (k : ℕ) (observed : Text) (t : Turns) (o : Option HarnessStateMachine)
      → IsKept k t
      → Ensures (IsNext k) (guard_edits around agent observed t o)
  unfolding guard_edits
  guard_edits-IsNext k observed t none h =
      pure-Ensures (IsNext k) _ (say_user-Keeps k observed t.messages t.gate_revisions h)
  guard_edits-IsNext k observed t (some m) h =
      if-Ensures (IsNext k) (can_edit m) _ _
        (λ may. pure-Ensures (IsNext k) _ (say_user-Keeps k observed t.messages t.gate_revisions h))
        λ barred. then-Ensures (IsNext k) around.is_dirty _ λ dirty.
          if-Ensures (IsNext k) dirty _ _
            (λ yes_.
              then-Ensures (IsNext k) around.revert_all _ λ done.
                pure-Ensures (IsNext k) _ (say_user-Keeps k _ t.messages t.gate_revisions h))
            λ no_.
              pure-Ensures (IsNext k) _ (say_user-Keeps k observed t.messages t.gate_revisions h)

  observe-IsNext :
      (k : ℕ) (blocks : List Text) (t : Turns)
      → IsKept k t
      → Ensures (IsNext k) (observe around agent blocks t)
  unfolding observe
  observe-IsNext k blocks t h =
      then-Ensures (IsNext k) (run_blocks around agent (take 5 blocks)) _
        λ parts. guard_edits-IsNext k _ t t.machine h

  judge-IsNext :
      (k : ℕ) (results : List GateResult) (t : Turns)
      → IsKept k t
      → IsNext k (judge around agent results t)
  unfolding judge
  judge-IsNext k results t h =
      IsNext-if k
        (not (is_empty (blocking_failures results))
          && ltb t.gate_revisions agent.gate_policy.revision_budget)
        _ _
        (say_signals-Keeps k _ t.messages t.gate_revisions
          (revision_text-failed around agent (blocking_failures results) (suc t.gate_revisions))
          (revision_text-revision around agent (blocking_failures results) (suc t.gate_revisions))
          h)
        h

  pass_gates-IsNext :
      (k : ℕ) (t : Turns) → IsKept k t → Ensures (IsNext k) (pass_gates around agent t)
  unfolding pass_gates
  pass_gates-IsNext k t h =
      if-Ensures (IsNext k) agent.cond.gates _ _
        (λ gated. then-Ensures (IsNext k) around.final_diff _ λ diff.
          then-Ensures (IsNext k)
            (run_policy_v2 around.loads around.exec (changed_files_from_diff diff)
              (some agent.gate_baseline) (some agent.gate_policy))
            _
            λ results.
              pure-Ensures (IsNext k) _
                (judge-IsNext k results (record t { gate_results = some results }) h))
        (λ free. pure-Ensures (IsNext k) _ h)

  submit-IsNext :
      (k : ℕ) (t : Turns) (o : Option HarnessStateMachine)
      → IsKept k t
      → Ensures (IsNext k) (submit around agent t o)
  unfolding submit
  submit-IsNext k t none h = pass_gates-IsNext k t h
  submit-IsNext k t (some m) h =
      if-Ensures (IsNext k) (can_submit m) _ _ (λ may. pass_gates-IsNext k t h)
        (λ barred. pure-Ensures (IsNext k) _ (say_user-Keeps k _ t.messages t.gate_revisions h))

  nudge-IsKept :
      (k : ℕ) (t : Turns) (o : Option HarnessStateMachine)
      → IsKept k t
      → IsKept k (nudge around agent t o)
  nudge-IsKept k t none h = say_user-Keeps k _ t.messages t.gate_revisions h
  nudge-IsKept k t (some m) h = h

  answer-IsNext :
      (k : ℕ) (reply : Text) (blocks : List Text) (t : Turns)
      → IsKept k t
      → Ensures (IsNext k) (answer around agent reply blocks t)
  unfolding answer
  answer-IsNext k reply [] t h =
      if-Ensures (IsNext k) (is_submit reply) _ _ (λ submits. submit-IsNext k t t.machine h)
        (λ other. pure-Ensures (IsNext k) _ (nudge-IsKept k t t.machine h))
  answer-IsNext k reply (b ∷ bs) t h = observe-IsNext k (b ∷ bs) t h

  turn-IsNext : (k : ℕ) (t : Turns) → IsKept k t → Ensures (IsNext (suc k)) (turn around agent t)
  unfolding turn
  turn-IsNext k t h =
      then-Ensures (IsNext (suc k)) (around.complete (trim_history agent.history_window t.messages))
        _
        λ reply. answer-IsNext (suc k) reply (extract_bash_blocks reply) _ (
          direct-IsKept (suc k) reply (say assistant reply t) t.machine refl
            (say_assistant-Keeps k reply t.messages t.gate_revisions h))

  abbrev pub IsEnd : ℕ → Exit → Type 0
  IsEnd k e = IsKept k e.turns

  weaken : (j k : ℕ) (t : Turns) → j ≤ k → IsKept j t → IsKept k t
  weaken j k t le h = record {
    replies = omega (arith, le, h.replies);
    failures = h.failures;
    marks = h.marks;
  }

  after_next :
      (n k : ℕ) (next : Next)
      → ((t : Turns) → IsKept (suc k) t → Ensures (IsEnd (k + suc n)) (run_loop around agent n t))
      → IsNext (suc k) next
      → Ensures (IsEnd (k + suc n)) (go_next around agent (run_loop around agent n) next)
  after_next n k (go_on t) loop h = loop t h
  after_next n k (stop e) loop h =
      pure-Ensures (IsEnd (k + suc n)) e (weaken (suc k) (k + suc n) e.turns (omega arith) h)

  pub run_loop-IsEnd :
      (n k : ℕ) (t : Turns) → IsKept k t → Ensures (IsEnd (k + n)) (run_loop around agent n t)
  unfolding run_loop
  run_loop-IsEnd zero k t h = pure-Ensures (IsEnd (k + 0)) _ (weaken k (k + 0) t (omega arith) h)
  run_loop-IsEnd (suc n) k t h = then-Ensures (IsEnd (k + suc n)) around.over_time _ λ over.
      if-Ensures (IsEnd (k + suc n)) over _ _
        (λ late. pure-Ensures (IsEnd (k + suc n)) _ (weaken k (k + suc n) t (omega arith) h))
        (λ early.
          bind-Ensures (IsNext (suc k)) (IsEnd (k + suc n)) (turn around agent t) _
            (turn-IsNext k t h)
            λ next. after_next n k next (λ u g.
              subst (λ m. Ensures (IsEnd m) (run_loop around agent n u)) (omega arith)
                (run_loop-IsEnd n (suc k) u g)))

  pub first_turns-IsKept : (prompt : Text) → IsKept 0 (first_turns around agent prompt)
  unfolding first_turns is_assistant event_role codes list_beq
  first_turns-IsKept prompt = record {
    replies = omega arith;
    failures = omega arith;
    marks = omega arith;
  }
