-- ===== src/Datasets/Import.antt =====
-- What is read back from an imported task.
use coding_agent_support.Base.{
  ℕ, zero, suc, ◌≡◌, ◌≤◌, refl, true, List, [], ◌∷◌, ◌++◌, Option, Text, codes, starts_with, after,
  length, take, strip, arith, ==_refl, nat_eq, split_lines,
}
use coding_agent_support.Effects.Partial.{Ensures, pure-Ensures, then-Ensures}
use coding_agent_support.Json.{Json}
use coding_agent_support.Task.{TaskSpec}
use coding_agent_support.Evaluation.Docker.{instance_id_from_task}
use coding_agent_support.Datasets.{
  SweRecord, Dirs, first_line, title_from_problem, task_of, record_to_taskspec,
}

starts_with-append : (p s : Text) → starts_with (p ++ s) p ≡ true
unfolding starts_with
starts_with-append [] [] = refl
starts_with-append [] (c ∷ s) = refl
starts_with-append (c ∷ p) s = rw (==_refl c) (starts_with-append p s)

drop-append : (p s : Text) → after p (p ++ s) ≡ s
drop-append [] s = refl
drop-append (c ∷ p) s = drop-append p s

length-take-le : (n : ℕ) (s : Text) → length (take n s) ≤ n
length-take-le zero s = omega arith
length-take-le (suc n) [] = omega arith
length-take-le (suc n) (c ∷ s) = omega (arith, length-take-le n s)

first_line-le : (lines : List Text) → length (first_line lines) ≤ 200
unfolding first_line
first_line-le [] = omega arith
first_line-le (line ∷ rest) = ground (arith, first_line-le rest, length-take-le 200 (strip line))

-- the instance of a task is that of its record, its title is short and its body is the problem
abbrev pub IsImported : SweRecord → TaskSpec → Type 0
IsImported r task =
    (instance_id_from_task task ≡ r.instance_id)
    × (length task.issue_title ≤ 200)
    × (task.issue_body ≡ r.problem_statement)

task_of-IsImported :
    (text_of : Json → Text) (loads : Text → Option Json) (gold_dir test_dir dataset : Text)
    (r : SweRecord)
    → IsImported r (task_of text_of loads gold_dir test_dir dataset r)
unfolding task_of instance_id_from_task title_from_problem
task_of-IsImported text_of loads gold_dir test_dir dataset r = (
  rw (starts_with-append (dataset ++ codes "__") r.instance_id)
      (drop-append (dataset ++ codes "__") r.instance_id),
  first_line-le (split_lines r.problem_statement),
  refl,
)

-- For every dataset, also one whose name holds the separator, the instance id that the evaluation
-- recovers from an imported task is the one of the record; the title has at most 200 characters and
-- the body is the whole problem statement.
pub record_to_taskspec-IsImported :
    {W : Type 0} (text_of : Json → Text) (loads : Text → Option Json) (dirs : Dirs W)
    (dataset : Text) (r : SweRecord)
    → Ensures (IsImported r) (record_to_taskspec text_of loads dirs dataset r)
unfolding record_to_taskspec
record_to_taskspec-IsImported text_of loads dirs dataset r =
    search (then-Ensures, pure-Ensures, task_of-IsImported) depth 12
