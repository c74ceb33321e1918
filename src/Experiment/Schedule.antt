-- ===== src/Experiment/Schedule.antt =====
-- The schedule as a shuffled product.
use coding_agent_support.Base.{
  ◌*◌, ◌≡◌, Bool, ◌&&◌, List, [], ◌∷◌, Text, count_if, count_if-append, if◌then◌else◌, arith, ◌∙◌,
}
use coding_agent_support.Base.Integers.{ℤ}
use coding_agent_support.Task.{TaskSpec}
use coding_agent_support.Experiment.{
  Cell, cells_of_seeds, cells_of_conditions, all_cells, build_schedule,
}

module _ (a : TaskSpec → Bool) (b : Text → Bool) (s : ℤ → Bool) where
  -- the task, the condition and the seed of the cell have their properties
  abbrev pub matches : Cell → Bool
  matches cell = a cell.task && b cell.condition && s cell.seed

  count-cells_of_seeds :
      (t : TaskSpec) (c : Text) (seeds : List ℤ)
      → count_if matches (cells_of_seeds t c seeds) ≡ (if a t && b c then count_if s seeds else 0)
  unfolding cells_of_seeds
  count-cells_of_seeds t c [] = ground arith
  count-cells_of_seeds t c (x ∷ seeds) = ground (arith, count-cells_of_seeds t c seeds)

  count-cells_of_conditions :
      (t : TaskSpec) (conditions : List Text) (seeds : List ℤ)
      → count_if matches (cells_of_conditions t conditions seeds)
        ≡ (if a t then count_if b conditions * count_if s seeds else 0)
  unfolding cells_of_conditions
  count-cells_of_conditions t [] seeds = ground arith
  count-cells_of_conditions t (c ∷ conditions) seeds = grind (
    arith,
    count-cells_of_conditions t conditions seeds,
    count-cells_of_seeds t c seeds,
    count_if-append matches (cells_of_seeds t c seeds) (cells_of_conditions t conditions seeds),
  )

  count-all_cells :
      (tasks : List TaskSpec) (conditions : List Text) (seeds : List ℤ)
      → count_if matches (all_cells tasks conditions seeds)
        ≡ count_if a tasks * (count_if b conditions * count_if s seeds)
  unfolding all_cells
  count-all_cells [] conditions seeds = omega arith
  count-all_cells (t ∷ tasks) conditions seeds = grind (
    arith,
    count-all_cells tasks conditions seeds,
    count-cells_of_conditions t conditions seeds,
    count_if-append matches (cells_of_conditions t conditions seeds)
        (all_cells tasks conditions seeds),
  )

-- If the shuffle keeps the members of a list, the schedule is the product of the tasks, the
-- conditions and the seeds up to order: the number of cells whose parts have given properties is the
-- product of the numbers of tasks, of conditions and of seeds that have them.
pub build_schedule-IsProduct :
    (shuffle : List Cell → List Cell) (a : TaskSpec → Bool) (b : Text → Bool) (s : ℤ → Bool)
    (tasks : List TaskSpec) (conditions : List Text) (seeds : List ℤ)
    → ((cells : List Cell) (p : Cell → Bool) → count_if p (shuffle cells) ≡ count_if p cells)
    → count_if (matches a b s) (build_schedule shuffle tasks conditions seeds)
      ≡ count_if a tasks * (count_if b conditions * count_if s seeds)
unfolding build_schedule
build_schedule-IsProduct shuffle a b s tasks conditions seeds keeps =
    keeps (all_cells tasks conditions seeds) (matches a b s)
    ∙ count-all_cells a b s tasks conditions seeds
