-- ===== src/Quality/Trajectory/Signals.antt =====
-- What a message adds to the counts of a transcript.
use coding_agent_support.Base.{
  has_text-append-left, has_text-append-right, has_text-join, ℕ, suc, ◌+◌, ◌≤◌, ◌≡◌, refl, Bool,
  true, List, [], ◌∷◌, ◌++◌, map, Text, codes, count_if, starts_with, has_text, arith, list_eq,
  nat_eq, list_beq, decimal, if◌then◌else◌,
}
use coding_agent_support.Gates.Policy.{GateResult, format_feedback}
use coding_agent_support.RunDir.{TranscriptEvent}
use coding_agent_support.Agent.Loop.{
  LlmAgent, Surroundings, Message, assistant, user, revision_text,
}
use coding_agent_support.Agent.Records.{event_of, event_role}
use coding_agent_support.Quality.Trajectory.{is_assistant, is_signal}

count_if-map-snoc :
    (p : TranscriptEvent → Bool) (xs : List Message) (x : Message)
    → count_if p (map event_of (xs ++ x ∷ []))
      ≡ count_if p (map event_of xs) + (if p (event_of x) then 1 else 0)
count_if-map-snoc p [] x = omega arith
count_if-map-snoc p (y ∷ xs) x = omega (arith, count_if-map-snoc p xs x)

-- at most `k` replies, and both signals for each of the revisions
pub record Keeps (k : ℕ) (messages : List Message) (revisions : ℕ) : Type 0 where
  pub replies : count_if is_assistant (map event_of messages) ≤ k
  pub failures : revisions ≤ count_if (is_signal (codes "gate(s) failed")) (map event_of messages)
  pub marks : revisions ≤ count_if (is_signal (codes "gate revision")) (map event_of messages)

pub say_user-Keeps :
    (k : ℕ) (content : Text) (messages : List Message) (revisions : ℕ)
    → Keeps k messages revisions
    → Keeps k (messages ++ record { role = user; content = content } ∷ []) revisions
unfolding is_assistant event_role codes list_beq
say_user-Keeps k content messages revisions h = record {
  replies =
      rw (count_if-map-snoc is_assistant messages (record { role = user; content = content }))
        (omega (arith, h.replies));
  failures =
      rw
        (count_if-map-snoc (is_signal (codes "gate(s) failed")) messages
          (record { role = user; content = content }))
        (omega (arith, h.failures));
  marks =
      rw
        (count_if-map-snoc (is_signal (codes "gate revision")) messages
          (record { role = user; content = content }))
        (omega (arith, h.marks));
}

pub say_assistant-Keeps :
    (k : ℕ) (content : Text) (messages : List Message) (revisions : ℕ)
    → Keeps k messages revisions
    → Keeps (suc k) (messages ++ record { role = assistant; content = content } ∷ []) revisions
unfolding is_assistant event_role codes list_beq
say_assistant-Keeps k content messages revisions h = record {
  replies =
      rw (count_if-map-snoc is_assistant messages (record { role = assistant; content = content }))
        (omega (arith, h.replies));
  failures =
      rw
        (count_if-map-snoc (is_signal (codes "gate(s) failed")) messages
          (record { role = assistant; content = content }))
        (omega (arith, h.failures));
  marks =
      rw
        (count_if-map-snoc (is_signal (codes "gate revision")) messages
          (record { role = assistant; content = content }))
        (omega (arith, h.marks));
}

-- a text with both signals, said for a further revision
pub say_signals-Keeps :
    (k : ℕ) (content : Text) (messages : List Message) (revisions : ℕ)
    → has_text content (codes "gate(s) failed") ≡ true
    → has_text content (codes "gate revision") ≡ true
    → Keeps k messages revisions
    → Keeps k (messages ++ record { role = user; content = content } ∷ []) (suc revisions)
unfolding is_assistant is_signal event_role codes list_beq
say_signals-Keeps k content messages revisions f m h = record {
  replies = (say_user-Keeps k content messages revisions h).replies;
  failures =
      rw
        (
          count_if-map-snoc (is_signal (codes "gate(s) failed")) messages
              (record { role = user; content = content }),
          f,
        )
        (omega (arith, h.failures));
  marks =
      rw
        (
          count_if-map-snoc (is_signal (codes "gate revision")) messages
              (record { role = user; content = content }),
          m,
        )
        (omega (arith, h.marks));
}

has_text-append4 :
    (s a b c d p : Text) → has_text s p ≡ true → has_text (s ++ a ++ b ++ c ++ d) p ≡ true
has_text-append4 s a b c d p h = has_text-append-left (s ++ a ++ b ++ c) d p (
    has_text-append-left (s ++ a ++ b) c p
      (has_text-append-left (s ++ a) b p (has_text-append-left s a p h)))

module _ {W : Type 0} (around : Surroundings W) (agent : LlmAgent) where
  pub revision_text-failed :
      (failures : List GateResult) (n : ℕ)
      → has_text (revision_text around agent failures n) (codes "gate(s) failed") ≡ true
  unfolding revision_text format_feedback codes has_text starts_with
  revision_text-failed failures n =
      has_text-append4 (format_feedback failures ++ codes "\n[gate revision ") (decimal n)
        (codes "/") (decimal agent.gate_policy.revision_budget) (codes "]") (codes "gate(s) failed")
        (has_text-append-left (format_feedback failures) (codes "\n[gate revision ")
          (codes "gate(s) failed")
          (has_text-join (codes "\n") (codes "Blocking gate(s) failed; fix before submitting:") _
            (codes "gate(s) failed") refl))

  pub revision_text-revision :
      (failures : List GateResult) (n : ℕ)
      → has_text (revision_text around agent failures n) (codes "gate revision") ≡ true
  unfolding revision_text codes has_text starts_with
  revision_text-revision failures n =
      has_text-append4 (format_feedback failures ++ codes "\n[gate revision ") (decimal n)
        (codes "/") (decimal agent.gate_policy.revision_budget) (codes "]") (codes "gate revision")
        (has_text-append-right (format_feedback failures) (codes "\n[gate revision ")
          (codes "gate revision") refl)
