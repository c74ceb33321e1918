-- ===== src/Experiment.antt =====
-- se_support/experiment/scheduler.py: the runs of an experiment, one behind the other, as with
-- `max_workers` of at most 1. The lines that report progress are left out.
pub mod Schedule
pub mod Attempts
pub mod Rows
mod Tests
use coding_agent_support.Base.{
  ℕ, zero, suc, Bool, true, false, not, ◌&&◌, Option, none, some, List, [], ◌∷◌, ◌++◌, map, Text,
  codes, take, decimal, count_if, filter, is_empty, if◌then◌else◌, ◌==◌, list_eq, nat_eq, length,
}
use coding_agent_support.Base.Integers.{ℤ, pos}
use coding_agent_support.Effects.{Error, Result, ok, err, Eff, pure, ◌>>=◌, ◌>>◌}
use coding_agent_support.Task.{TaskSpec}
use coding_agent_support.Workspace.{int_text}
use coding_agent_support.Run.{
  EvalResult, RunOutcome, OutcomeStatus, finished, infrastructure_failure,
}
use coding_agent_support.Quality.{
  PatchQualityCard, QualityLevel, q0_invalid, q1_plausible_failing, q2_functionally_correct,
  q3_engineering_acceptable, q4_review_ready, q5_human_quality,
}

pub record Cell : Type 0 where
  pub task : TaskSpec
  pub condition : Text
  pub seed : ℤ

unfoldable pub cell_key : Cell → Text
unfolding int_text
cell_key cell =
    cell.task.task_id ++ codes "__" ++ cell.condition ++ codes "__seed" ++ int_text cell.seed

unfoldable pub cells_of_seeds : TaskSpec → Text → List ℤ → List Cell
cells_of_seeds t c [] = []
cells_of_seeds t c (s ∷ seeds) =
    record { task = t; condition = c; seed = s } ∷ cells_of_seeds t c seeds

unfoldable pub cells_of_conditions : TaskSpec → List Text → List ℤ → List Cell
unfolding cells_of_seeds
cells_of_conditions t [] seeds = []
cells_of_conditions t (c ∷ conditions) seeds =
    cells_of_seeds t c seeds ++ cells_of_conditions t conditions seeds

-- `[Cell(t, c, s) for t in tasks for c in conditions for s in seeds]`
unfoldable pub all_cells : List TaskSpec → List Text → List ℤ → List Cell
unfolding cells_of_conditions
all_cells [] conditions seeds = []
all_cells (t ∷ tasks) conditions seeds =
    cells_of_conditions t conditions seeds ++ all_cells tasks conditions seeds

-- `shuffle` is that of the generator with the seed of the schedule.
unfoldable pub build_schedule :
    (List Cell → List Cell) → List TaskSpec → List Text → List ℤ → List Cell
unfolding all_cells
build_schedule shuffle tasks conditions seeds = shuffle (all_cells tasks conditions seeds)

-- `seeds or [0]`
unfoldable pub seeds_or_zero : List ℤ → List ℤ
seeds_or_zero [] = pos 0 ∷ []
seeds_or_zero (s ∷ seeds) = s ∷ seeds

-- a row of the results; a key that the dict lacks is none, as is None
pub record Row : Type 0 where
  pub key : Text
  pub task_id : Option Text
  pub condition : Text
  pub seed : Option ℤ
  pub resolved : Option Bool
  pub patch_applies : Option Bool
  pub f2p : Option Text
  pub p2p : Option Text
  pub quality : Option Text
  pub files_touched : Option ℕ
  pub status : Option Text
  pub run_dir : Option Text
  pub skipped : Option Bool
  pub error : Option Text

-- what the files of a run directory give: `ev.get("resolved")` and `card.get("quality_level")`
pub record Saved : Type 0 where
  pub resolved : Option Bool
  pub quality_level : Option Text

pub record Outcome (Float : Type 0) : Type 0 where
  pub run : RunOutcome (PatchQualityCard Float)
  pub run_dir : Text

-- The calls of an experiment. An agent is made afresh for each attempt.
pub record Bench (W Agent Float : Type 0) : Type 0 where
  pub sha256 : Text → Text
  pub exists : Text → Eff W Bool
  pub read_saved : Text → Eff W Saved
  pub agent_factory : Eff W Agent
  pub run_single : Agent → Cell → Text → Eff W (Outcome Float)
  pub write_results : List Row → Eff W (Unit {0})
  -- `repr` of an exception, with the end of its trace where the source shows it
  pub repr : Error → Text
  pub trace : Error → Text

pub record Options : Type 0 where
  pub runs_root : Text
  pub experiment_id : Text
  pub resume : Bool
  pub max_infra_retries : ℕ
  pub has_results_path : Bool

-- `str(level)`, where the model keeps the value of the enumeration
unfoldable pub level_text : QualityLevel → Text
level_text q0_invalid = codes "Q0_invalid"
level_text q1_plausible_failing = codes "Q1_plausible_failing"
level_text q2_functionally_correct = codes "Q2_functionally_correct"
level_text q3_engineering_acceptable = codes "Q3_engineering_acceptable"
level_text q4_review_ready = codes "Q4_review_ready"
level_text q5_human_quality = codes "Q5_human_quality"

unfoldable pub outcome_text : OutcomeStatus → Text
outcome_text finished = codes "ok"
outcome_text infrastructure_failure = codes "infrastructure_failure"

abbrev pub ratio_text : ℕ → ℕ → Text
ratio_text passed total = decimal passed ++ codes "/" ++ decimal total

unfoldable pub row_from_outcome : {Float : Type 0} → Cell → Outcome Float → Row
unfolding cell_key level_text outcome_text
row_from_outcome cell outcome =
    let ev = outcome.run.eval_result in
    record {
      key = cell_key cell;
      task_id = some cell.task.task_id;
      condition = cell.condition;
      seed = some cell.seed;
      resolved = some ev.resolved;
      patch_applies = some ev.patch_applies;
      f2p = some (ratio_text ev.fail_to_pass_passed ev.fail_to_pass_total);
      p2p = some (ratio_text ev.pass_to_pass_passed ev.pass_to_pass_total);
      quality = some (level_text outcome.run.quality_card.quality_level);
      files_touched = some outcome.run.quality_card.locality.files_touched;
      status = some (outcome_text outcome.run.status);
      run_dir = some outcome.run_dir;
      skipped = none;
      error = none;
    }

-- a row with nothing but the cell and an error
abbrev pub bare_row : Cell → Row
bare_row cell = record {
  key = cell_key cell;
  task_id = none;
  condition = cell.condition;
  seed = none;
  resolved = none;
  patch_applies = none;
  f2p = none;
  p2p = none;
  quality = none;
  files_touched = none;
  status = none;
  run_dir = none;
  skipped = none;
  error = none;
}

module _ {W Agent Float : Type 0} (bench : Bench W Agent Float) (options : Options) where
  unfoldable pub run_id : Cell → Text
  unfolding cell_key
  run_id cell = take 12 (bench.sha256 (cell_key cell))

  unfoldable pub run_dir : Cell → Text
  unfolding run_id
  run_dir cell = options.runs_root ++ codes "/" ++ options.experiment_id ++ codes "/" ++ run_id cell

  unfoldable pub is_complete : Text → Eff W Bool
  is_complete dir = bench.exists (dir ++ codes "/quality_card.json")

  row_of_saved : Cell → Text → Bool → Result Saved → Row
  row_of_saved cell dir skipped (ok saved) = record (bare_row cell) {
    task_id = some cell.task.task_id;
    seed = some cell.seed;
    resolved = saved.resolved;
    quality = saved.quality_level;
    run_dir = some dir;
    skipped = some skipped;
  }
  row_of_saved cell dir skipped (err e) = record (bare_row cell) {
    error = some (codes "reload failed: " ++ bench.repr e);
  }

  -- `_row_from_dir`, which catches what reading the files raises
  unfoldable pub row_from_dir : Cell → Text → Bool → Eff W Row
  unfolding row_of_saved
  row_from_dir cell dir skipped w =
      let (r, w') = bench.read_saved dir w in (ok (row_of_saved cell dir skipped r), w')

  -- an attempt: a fresh agent and its run
  unfoldable pub attempt : Cell → Eff W (Outcome Float)
  unfolding run_id
  attempt cell = do agent ← bench.agent_factory; bench.run_single agent cell (run_id cell)

  unfoldable pub failed_row : Cell → Error → Row
  failed_row cell e = record (bare_row cell) {
    task_id = some cell.task.task_id;
    seed = some cell.seed;
    error = some (bench.repr e ++ codes "\n" ++ bench.trace e);
  }

  -- the rounds of the loop of attempts, where `more` follow this one
  unfoldable pub attempts : ℕ → Cell → Eff W Row
  unfolding attempt failed_row row_from_outcome
  attempts zero cell w =
      let (r, w') = attempt cell w in
      elim r [
        | ok outcome ↦ (ok (row_from_outcome cell outcome), w')
        | err e ↦ (ok (failed_row cell e), w')
      ]
  attempts (suc more) cell w =
      let (r, w') = attempt cell w in
      elim r [
        | ok outcome ↦ (ok (row_from_outcome cell outcome), w')
        | err e ↦ attempts more cell w'
      ]

  -- `_execute`
  unfoldable pub execute : Cell → Eff W Row
  unfolding is_complete run_dir row_from_dir attempts
  execute cell =
      if options.resume
      then (is_complete (run_dir cell) >>= λ complete.
          if complete
          then row_from_dir cell (run_dir cell) true
          else attempts options.max_infra_retries cell)
      else attempts options.max_infra_retries cell

  unfoldable pub execute_all : List Cell → Eff W (List Row)
  unfolding execute
  execute_all [] = pure []
  execute_all (cell ∷ schedule) = do
    row ← execute cell
    rows ← execute_all schedule
    pure (row ∷ rows)

  unfoldable pub save : List Row → Eff W (Unit {0})
  save rows = if options.has_results_path then bench.write_results rows else pure tt

  unfoldable pub run_experiment :
      (List Cell → List Cell) → List TaskSpec → List Text → List ℤ → Eff W (List Row)
  unfolding execute_all seeds_or_zero build_schedule save
  run_experiment shuffle tasks conditions seeds = do
    rows ← execute_all (build_schedule shuffle tasks conditions (seeds_or_zero seeds))
    save rows
    pure rows

-- a printed line of the summary
pub record Summary : Type 0 where
  pub condition : Text
  pub resolved : ℕ
  pub total : ℕ
  pub errors : ℕ

abbrev pub is_resolved : Option Bool → Bool
is_resolved none = false
is_resolved (some b) = b

-- `bool(r.get("error"))`
abbrev pub has_error : Option Text → Bool
has_error none = false
has_error (some e) = not (is_empty e)

unfoldable pub condition_line : List Row → Text → Summary
condition_line rows c =
    let crows = filter (λ r. r.condition == c) rows in
    record {
      condition = c;
      resolved = count_if (λ r. is_resolved r.resolved) crows;
      total = length crows;
      errors = count_if (λ r. has_error r.error) crows;
    }

unfoldable pub print_summary : List Row → List Text → List Summary
unfolding condition_line
print_summary rows conditions = map (condition_line rows) conditions
