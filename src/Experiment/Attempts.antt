-- ===== src/Experiment/Attempts.antt =====
-- How often a cell is run.
use coding_agent_support.Base.{
  ℕ, zero, suc, ◌+◌, ◌≤◌, ◌≡◌, ◌⊎◌, inl, inr, refl, ◌∙◌, Bool, true, false, Text, arith, Bool-cases,
}
use coding_agent_support.Effects.{Error, Result, ok, err}
use coding_agent_support.Experiment.{
  Cell, Bench, Options, run_id, run_dir, is_complete, attempt, attempts, execute,
}
use coding_agent_support.Experiment.Rows.{Result-cases}

-- `starts` counts the calls of `run_single`, and no other call.
pub record IsCounted {W Agent Float : Type 0} (bench : Bench W Agent Float) (starts : W → ℕ)
    : Type 0 where
  pub at_run :
      (agent : Agent) (cell : Cell) (id : Text) (w : W)
      → starts (bench.run_single agent cell id w).1 ≡ starts w + 1
  pub at_agent : (w : W) → starts (bench.agent_factory w).1 ≡ starts w
  pub at_exists : (path : Text) (w : W) → starts (bench.exists path w).1 ≡ starts w
  pub at_read : (path : Text) (w : W) → starts (bench.read_saved path w).1 ≡ starts w

module _ {W Agent Float : Type 0} (bench : Bench W Agent Float) (options : Options) (starts : W → ℕ)
    (counted : IsCounted bench starts) where
  -- between none and `n` further runs are started
  abbrev pub IsWithin : ℕ → W → W → Type 0
  IsWithin n w w' = (starts w ≤ starts w') × (starts w' ≤ starts w + n)

  attempt-IsWithin : (cell : Cell) (w : W) → IsWithin 1 w (attempt bench options cell w).1
  unfolding attempt
  attempt-IsWithin cell w = elim (Result-cases (bench.agent_factory w).0) [
    | inl (agent, e) ↦
        rw (e, attempt)
          (omega (
            arith,
            counted.at_agent w,
            counted.at_run agent cell (run_id bench options cell) (bench.agent_factory w).1,
          ))
    | inr (error, e) ↦ rw (e, attempt) (omega (arith, counted.at_agent w))
  ]

  attempts-IsWithin :
      (more : ℕ) (cell : Cell) (w : W)
      → IsWithin (more + 1) w (attempts bench options more cell w).1
  unfolding attempts
  attempts-IsWithin zero cell w = elim (Result-cases (attempt bench options cell w).0) [
    | inl (outcome, e) ↦ rw (e, attempts) (omega (arith, attempt-IsWithin cell w))
    | inr (error, e) ↦ rw (e, attempts) (omega (arith, attempt-IsWithin cell w))
  ]
  attempts-IsWithin (suc more) cell w = elim (Result-cases (attempt bench options cell w).0) [
    | inl (outcome, e) ↦ rw (e, attempts) (omega (arith, attempt-IsWithin cell w))
    | inr (error, e) ↦
        rw (e, attempts)
          (omega (
            arith,
            attempt-IsWithin cell w,
            attempts-IsWithin more cell (attempt bench options cell w).1,
          ))
  ]

  -- the test for the card of the cell's run
  abbrev pub found : Cell → W → Result Bool
  found cell w = (is_complete bench options (run_dir bench options cell) w).0

  -- what a resumed cell starts, by the test for its card
  abbrev Resumed : Cell → W → Result Bool → Type 0
  Resumed cell w (ok true) = starts (execute bench options cell w).1 ≡ starts w
  Resumed cell w (ok false) =
      IsWithin (options.max_infra_retries + 1) w (execute bench options cell w).1
  Resumed cell w (err e) = starts (execute bench options cell w).1 ≡ starts w

  exists_starts :
      (cell : Cell) (w : W)
      → starts (is_complete bench options (run_dir bench options cell) w).1 ≡ starts w
  unfolding is_complete
  exists_starts cell w = counted.at_exists _ w

  execute-Resumed :
      (cell : Cell) (w : W) (r : Result Bool)
      → options.resume ≡ true
      → found cell w ≡ r
      → Resumed cell w r
  unfolding execute
  execute-Resumed cell w (ok true) e k =
      rw (e, k, execute) (counted.at_read _ _ ∙ exists_starts cell w)
  execute-Resumed cell w (ok false) e k =
      rw (e, k, execute)
        (omega (
          arith,
          exists_starts cell w,
          attempts-IsWithin options.max_infra_retries cell
              (is_complete bench options (run_dir bench options cell) w).1,
        ))
  execute-Resumed cell w (err error) e k = rw (e, k, execute) (exists_starts cell w)

  abbrev pub Ends : Cell → W → Type 0
  Ends cell w =
      (options.resume ≡ true)
        × ((found cell w ≡ ok true) ⊎ ((e : Error) × (found cell w ≡ err e)))
        × (starts (execute bench options cell w).1 ≡ starts w)
      ⊎ ((options.resume ≡ false) ⊎ (found cell w ≡ ok false))
        × IsWithin (options.max_infra_retries + 1) w (execute bench options cell w).1

  resumed_cases :
      (cell : Cell) (w : W) (r : Result Bool)
      → options.resume ≡ true
      → found cell w ≡ r
      → Ends cell w
  resumed_cases cell w (ok true) e k = inl (e, inl k, execute-Resumed cell w (ok true) e k)
  resumed_cases cell w (ok false) e k = inr (inr k, execute-Resumed cell w (ok false) e k)
  resumed_cases cell w (err error) e k =
      inl (e, inr (error, k), execute-Resumed cell w (err error) e k)

  -- A cell is run at most once for the first attempt and once for each retry. If the experiment is
  -- resumed, a cell with a card is not run at all, nor is one for which the test for the card raises.
  pub execute-IsWithin : (cell : Cell) (w : W) → Ends cell w
  unfolding execute
  execute-IsWithin cell w = elim (Bool-cases options.resume) [
    | inl e ↦ resumed_cases cell w (found cell w) e refl
    | inr e ↦ inr (inl e, rw (e, execute) (attempts-IsWithin options.max_infra_retries cell w))
  ]
