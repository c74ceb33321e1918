-- ===== src/Experiment/Rows.antt =====
-- An experiment ends with one row for each cell, whatever its runs do.
use coding_agent_support.Base.{
  ℕ, zero, suc, ◌+◌, ◌≤◌, ◌≡◌, ◌⊎◌, inl, inr, refl, ap, ◌∙◌, Bool, true, false, none, List, [], ◌∷◌,
  Text, count_if, if◌then◌else◌, arith, ◌==◌, list_eq, nat_eq, Bool-cases,
}
use coding_agent_support.Base.Integers.{ℤ}
use coding_agent_support.Effects.{Error, Result, ok, err, pure, ◌>>=◌, ◌>>◌}
use coding_agent_support.Effects.Total.{Returns, Returns-bind, Answers}
use coding_agent_support.Task.{TaskSpec}
use coding_agent_support.Experiment.{
  Cell, cell_key, Row, Saved, Bench, Options, row_from_outcome, run_dir, is_complete, row_of_saved,
  row_from_dir, attempt, failed_row, attempts, execute, execute_all, seeds_or_zero, save,
  run_experiment, build_schedule, condition_line, is_resolved, has_error,
}

-- the row is of the cell, and has no error or no verdict
abbrev pub FitsCell : Cell → Row → Type 0
FitsCell cell row =
    (row.key ≡ cell_key cell)
    × (row.condition ≡ cell.condition)
    × ((row.error ≡ none) ⊎ (row.resolved ≡ none))

-- a row for each cell, in order
abbrev pub AreRows : List Cell → List Row → Type 0
AreRows [] [] = Unit
AreRows [] (row ∷ rows) = ⊥
AreRows (cell ∷ cells) [] = ⊥
AreRows (cell ∷ cells) (row ∷ rows) = FitsCell cell row × AreRows cells rows

-- the summary of a condition covers the rows of its cells, each at most once
abbrev pub AddsUp : List Cell → List Row → Text → Type 0
AddsUp cells rows c =
    ((condition_line rows c).total ≡ count_if (λ (cell : Cell). cell.condition == c) cells)
    × ((condition_line rows c).resolved + (condition_line rows c).errors
        ≤ (condition_line rows c).total)

row_adds :
    (row : Row)
    → (row.error ≡ none) ⊎ (row.resolved ≡ none)
    → (if is_resolved row.resolved then 1 else 0) + (if has_error row.error then 1 else 0) ≤ 1
row_adds row (inl e) = rw e (ground arith)
row_adds row (inr e) = rw e (ground arith)

AreRows-AddsUp :
    (cells : List Cell) (rows : List Row) (c : Text) → AreRows cells rows → AddsUp cells rows c
unfolding condition_line
AreRows-AddsUp [] [] c h = (refl, omega arith)
AreRows-AddsUp [] (row ∷ rows) c h = absurd h
AreRows-AddsUp (cell ∷ cells) [] c h = absurd h
AreRows-AddsUp (cell ∷ cells) (row ∷ rows) c ((_, same, one), rest) =
    let (total, adds) = AreRows-AddsUp cells rows c rest in
    elim (Bool-cases (cell.condition == c)) [
      | inl e ↦
          let e' : row.condition == c ≡ true = ap (λ t. t == c) same ∙ e in
          rw (e', e) (omega (arith, total), omega (arith, adds, row_adds row one))
      | inr e ↦
          let e' : row.condition == c ≡ false = ap (λ t. t == c) same ∙ e in
          rw (e', e) (omega (arith, total), adds)
    ]

pub Result-cases {ℓ} :
    {A : Type ℓ} (r : Result A) → ((a : A) × (r ≡ ok a)) ⊎ ((e : Error) × (r ≡ err e))
Result-cases (ok a) = inl (a, refl)
Result-cases (err e) = inr (e, refl)

abbrev pub IsReport : List Cell → List Row → Type 0
IsReport cells rows = AreRows cells rows × ((c : Text) → AddsUp cells rows c)

module _ {W Agent Float : Type 0} (bench : Bench W Agent Float) (options : Options) where
  attempts-FitsCell :
      (more : ℕ) (cell : Cell) (w : W)
      → Returns (FitsCell cell) (attempts bench options more cell w).0
  unfolding attempts row_from_outcome failed_row
  attempts-FitsCell zero cell w = elim (Result-cases (attempt bench options cell w).0) [
    | inl (outcome, e) ↦ rw (e, attempts) (refl, refl, inl refl)
    | inr (error, e) ↦ rw (e, attempts) (refl, refl, inr refl)
  ]
  attempts-FitsCell (suc more) cell w = elim (Result-cases (attempt bench options cell w).0) [
    | inl (outcome, e) ↦ rw (e, attempts) (refl, refl, inl refl)
    | inr (error, e) ↦
        rw (e, attempts) (attempts-FitsCell more cell (attempt bench options cell w).1)
  ]

  row_of_saved-FitsCell :
      (cell : Cell) (dir : Text) (skipped : Bool) (r : Result Saved)
      → FitsCell cell (row_of_saved bench options cell dir skipped r)
  unfolding row_of_saved
  row_of_saved-FitsCell cell dir skipped (ok saved) = (refl, refl, inl refl)
  row_of_saved-FitsCell cell dir skipped (err e) = (refl, refl, inr refl)

  row_from_dir-FitsCell :
      (cell : Cell) (dir : Text) (skipped : Bool) (w : W)
      → Returns (FitsCell cell) (row_from_dir bench options cell dir skipped w).0
  unfolding row_from_dir
  row_from_dir-FitsCell cell dir skipped w =
      row_of_saved-FitsCell cell dir skipped (bench.read_saved dir w).0

  module _ (exists_answers : (path : Text) → Answers (bench.exists path)) where
    if-FitsCell :
        (complete : Bool) (cell : Cell) (w : W)
        → Returns
            (FitsCell cell)
            ((if complete
                then row_from_dir bench options cell (run_dir bench options cell) true
                else attempts bench options options.max_infra_retries cell)
              w).0
    if-FitsCell true cell w = row_from_dir-FitsCell cell (run_dir bench options cell) true w
    if-FitsCell false cell w = attempts-FitsCell options.max_infra_retries cell w

    execute-FitsCell :
        (cell : Cell) (w : W) → Returns (FitsCell cell) (execute bench options cell w).0
    unfolding execute is_complete
    execute-FitsCell cell w = elim (Bool-cases options.resume) [
      | inl e ↦
          rw (e, execute)
            (Returns-bind (λ _. Unit {0}) (FitsCell cell)
              (is_complete bench options (run_dir bench options cell)) _ w
              ((exists_answers _).returns w) (λ complete v _. if-FitsCell complete cell v))
      | inr e ↦ rw (e, execute) (attempts-FitsCell options.max_infra_retries cell w)
    ]

    execute_all-AreRows :
        (cells : List Cell) (w : W) → Returns (AreRows cells) (execute_all bench options cells w).0
    unfolding execute_all
    execute_all-AreRows [] w = tt
    execute_all-AreRows (cell ∷ cells) w =
        Returns-bind (FitsCell cell) (AreRows (cell ∷ cells)) (execute bench options cell)
          (λ row. execute_all bench options cells >>= λ rows. pure (row ∷ rows)) w
          (execute-FitsCell cell w)
          λ row v h.
            Returns-bind (AreRows cells) (AreRows (cell ∷ cells)) (execute_all bench options cells)
              (λ rows. pure (row ∷ rows)) v (execute_all-AreRows cells v) (λ rows u k. (h, k))

    save-Answers :
        ((rows : List Row) → Answers (bench.write_results rows))
        → (rows : List Row) (w : W) → Returns (λ _. Unit {0}) (save bench options rows w).0
    unfolding save
    save-Answers write_answers rows w = elim (Bool-cases options.has_results_path) [
      | inl e ↦ rw (e, save) ((write_answers rows).returns w)
      | inr e ↦ rw (e, save) tt
    ]

    -- If the tests for files and the writing of the results return, an experiment returns, whatever
    -- its agents and runs raise: with one row for each cell of the schedule, in order, of its key and
    -- condition, that has no error or no verdict; and the summary of each condition has as many rows
    -- as the schedule has cells of the condition, of which the resolved ones and those with errors
    -- are different ones.
    pub run_experiment-AreRows :
        (write_answers : (rows : List Row) → Answers (bench.write_results rows))
        (shuffle : List Cell → List Cell) (tasks : List TaskSpec) (conditions : List Text)
        (seeds : List ℤ) (w : W)
        → let cells = build_schedule shuffle tasks conditions (seeds_or_zero seeds) in
          Returns
            (λ rows. AreRows cells rows × ((c : Text) → AddsUp cells rows c))
            (run_experiment bench options shuffle tasks conditions seeds w).0
    unfolding run_experiment
    run_experiment-AreRows write_answers shuffle tasks conditions seeds w =
        Returns-bind (AreRows cells) (IsReport cells) (execute_all bench options cells)
          (λ rows. save bench options rows >> pure rows) w (execute_all-AreRows cells w)
          λ rows v h.
            Returns-bind (λ _. Unit {0}) (IsReport cells) (save bench options rows) (λ _. pure rows)
              v (saved rows v) (λ _ u _. (h, λ c. AreRows-AddsUp cells rows c h))
      where
        cells : List Cell
        cells = build_schedule shuffle tasks conditions (seeds_or_zero seeds)

        saved : (rows : List Row) (v : W) → Returns (λ _. Unit {0}) (save bench options rows v).0
        saved rows v = save-Answers write_answers rows v
