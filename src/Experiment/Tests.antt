-- ===== src/Experiment/Tests.antt =====
-- A small experiment whose runs raise.
use coding_agent_support.Base.{ℕ, ◌+◌, ◌*◌, ◌≡◌, refl, true, false, [], ◌∷◌, Text, codes, count_if}
use coding_agent_support.Base.Integers.{pos}
use coding_agent_support.Effects.{Eff, err, value_error, pure, raise}
use coding_agent_support.Effects.Total.{Returns, pure-Answers}
use coding_agent_support.Task.Samples.{sample}
use coding_agent_support.Experiment.{
  Cell, Outcome, Bench, Options, build_schedule, seeds_or_zero, run_experiment, execute,
}
use coding_agent_support.Experiment.Schedule.{matches, build_schedule-IsProduct}
use coding_agent_support.Experiment.Rows.{IsReport, run_experiment-AreRows}
use coding_agent_support.Experiment.Attempts.{IsCounted, Ends, execute-IsWithin}

-- The world counts the runs, which all raise.
abbrev fails : Unit {0} → Cell → Text → Eff ℕ (Outcome ℕ)
fails agent cell id starts = (err value_error, starts + 1)

abbrev bench : Bench ℕ (Unit {0}) ℕ
bench = record {
  sha256 = λ s. s;
  exists = λ path. pure false;
  read_saved = λ path. raise value_error;
  agent_factory = pure tt;
  run_single = fails;
  write_results = λ rows. pure tt;
  repr = λ e. codes "ValueError()";
  trace = λ e. [];
}

abbrev options : Options
options = record {
  runs_root = codes "runs";
  experiment_id = codes "pilot";
  resume = true;
  max_infra_retries = 1;
  has_results_path = true;
}

abbrev cell : Cell
cell = record { task = sample; condition = codes "C0"; seed = pos 0 }

tries_twice : (execute bench options cell 0).1 ≡ 2
unfolding execute codes
tries_twice = refl

build_schedule-IsProduct_example :
    count_if
      (matches (λ t. true) (λ c. true) (λ s. true))
      (build_schedule (λ cells. cells) (sample ∷ []) (codes "C0" ∷ codes "C1" ∷ []) (pos 0 ∷ []))
    ≡ 1 * (2 * 1)
build_schedule-IsProduct_example =
    build_schedule-IsProduct (λ cells. cells) (λ t. true) (λ c. true) (λ s. true) (sample ∷ [])
      (codes "C0" ∷ codes "C1" ∷ []) (pos 0 ∷ []) (λ cells p. refl)

run_experiment-AreRows_example :
    Returns
      (IsReport
        (build_schedule (λ cells. cells) (sample ∷ []) (codes "C0" ∷ []) (seeds_or_zero [])))
      (run_experiment bench options (λ cells. cells) (sample ∷ []) (codes "C0" ∷ []) [] 0).0
run_experiment-AreRows_example =
    run_experiment-AreRows bench options (λ path. pure-Answers false) (λ rows. pure-Answers tt)
      (λ cells. cells) (sample ∷ []) (codes "C0" ∷ []) [] 0

counted : IsCounted bench (λ starts. starts)
counted = record {
  at_run = λ agent c id w. refl;
  at_agent = λ w. refl;
  at_exists = λ path w. refl;
  at_read = λ path w. refl;
}

execute-IsWithin_example : Ends bench options (λ starts. starts) counted cell 0
execute-IsWithin_example = execute-IsWithin bench options (λ starts. starts) counted cell 0
