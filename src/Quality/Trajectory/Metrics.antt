-- ===== src/Quality/Trajectory/Metrics.antt =====
-- The metrics that are computed from the files of a run, beside what its loop did.
use coding_agent_support.Base.{
  has_text-append-left, has_text-append-right, ℕ, ◌+◌, ◌≤◌, ◌⊎◌, inl, inr, subst, ◌≡◌, refl, sym,
  ◌∙◌, append_assoc, Bool, true, false, Option, none, some, List, [], ◌∷◌, ◌++◌, map, Text, codes,
  count_if, length, starts_with, has_text, arith, list_eq, nat_eq,
}
use coding_agent_support.Effects.{OnOk, OnOk-map}
use coding_agent_support.Harness.{HarnessStateMachine, Rejection, Transition}
use coding_agent_support.Agent.Loop.{LlmAgent, Surroundings, Exit, RunStatus, run_loop, first_turns}
use coding_agent_support.Agent.Records.{
  transcript, StateRow, transition_row, rejection_row, rows_of, state_rows, final_message,
}
use coding_agent_support.Quality.{ProcessMetrics}
use coding_agent_support.Quality.Trajectory.{
  is_rejection, process_metrics, LoggedCommand, stop_reason,
}
use coding_agent_support.Quality.Trajectory.Kept.{IsEnd, run_loop-IsEnd, first_turns-IsKept}

count_rejections-transitions :
    (ts : List Transition) (rows : List StateRow)
    → count_if is_rejection (map transition_row ts ++ rows) ≡ count_if is_rejection rows
count_rejections-transitions [] rows = refl
count_rejections-transitions (t ∷ ts) rows = omega (arith, count_rejections-transitions ts rows)

count_rejections-rejections :
    (rs : List Rejection) → count_if is_rejection (map rejection_row rs) ≡ length rs
count_rejections-rejections [] = refl
count_rejections-rejections (r ∷ rs) = omega (arith, count_rejections-rejections rs)

abbrev pub rejections_of : Option HarnessStateMachine → List Rejection
rejections_of none = []
rejections_of (some m) = m.rejections

count_rejections-rows :
    (o : Option HarnessStateMachine) → count_if is_rejection (rows_of o) ≡ length (rejections_of o)
count_rejections-rows none = refl
count_rejections-rows (some m) =
    count_rejections-transitions m.transitions _ ∙ count_rejections-rejections m.rejections

has_text-submitted :
    (before : Text)
    → has_text
        (before ++ codes " submitted=" ++ codes "True" ++ codes "\n")
        (codes "submitted=True")
      ≡ true
unfolding codes has_text starts_with
has_text-submitted before =
    has_text-append-left (before ++ codes " submitted=" ++ codes "True") (codes "\n")
      (codes "submitted=True")
      (subst (λ t. has_text t (codes "submitted=True") ≡ true)
        (sym (append_assoc before (codes " submitted=") (codes "True")))
        (has_text-append-right before (codes " submitted=" ++ codes "True") (codes "submitted=True")
          refl))

stop_reason-submitted :
    (format : RunStatus → Text) (name condition : Text) (status : RunStatus) (steps : ℕ)
    (submitted : Bool)
    → (submitted ≡ false)
      ⊎ (stop_reason (some (final_message format name condition status steps submitted))
          ≡ some (codes "submitted"))
unfolding stop_reason final_message
stop_reason-submitted format name condition status steps false = inl refl
stop_reason-submitted format name condition status steps true = inr (rw (has_text-submitted _) refl)

-- what the metrics of a run's files have to do with the end `e` of its loop
pub record AreOf (max_turns : ℕ) (e : Exit) (m : ProcessMetrics) : Type 0 where
  pub turns : m.turns ≤ max_turns
  pub revisions : e.turns.gate_revisions ≤ m.gate_revisions
  pub failures : e.turns.gate_revisions ≤ m.gate_failures
  pub rejections : m.harness_rejections ≡ length (rejections_of e.turns.machine)
  pub submitted : (e.submitted ≡ false) ⊎ (m.stop_reason ≡ some (codes "submitted"))

module _ {W : Type 0} (around : Surroundings W) (agent : LlmAgent) where
  -- If the loop of an agent ends without an exception, then the metrics that are computed from its
  -- transcript, its rows and its final message, and from any command log, count no more turns than the
  -- agent may take, at least one failure and one revision of the gates for each revision that was
  -- spent, and exactly the rejections of the machine, none without one; and the stop reason is
  -- `submitted` if the loop has submitted, whatever the names are.
  pub run_loop-metrics :
      (next_of : List Text → Option Text) (commands : List LoggedCommand)
      (format : RunStatus → Text) (name condition prompt : Text) (steps : ℕ) (w : W)
      → OnOk
          (λ e. AreOf agent.max_turns e (
            process_metrics next_of
              (transcript e.turns)
              commands
              (state_rows e.turns)
              (some (final_message format name condition e.status steps e.submitted))))
          (run_loop around agent agent.max_turns (first_turns around agent prompt) w).0
  unfolding process_metrics transcript state_rows
  run_loop-metrics next_of commands format name condition prompt steps w =
      OnOk-map (IsEnd around agent (0 + agent.max_turns)) _ _
        (λ e h. record {
          turns = omega (arith, h.replies);
          revisions = h.marks;
          failures = h.failures;
          rejections = count_rejections-rows e.turns.machine;
          submitted = stop_reason-submitted format name condition e.status steps e.submitted;
        })
        ((run_loop-IsEnd around agent agent.max_turns 0 _
            (first_turns-IsKept around agent prompt)).holds
          w)
