-- ===== src/Evaluation/Total.antt =====
-- When the local evaluation ends with a verdict.
use coding_agent_support.Base.{
  ℕ, ◌≡◌, refl, Bool, true, false, not, Option, none, some, List, [], ◌∷◌, Text, codes, is_empty,
  All, strip,
}
use coding_agent_support.Effects.{err, value_error}
use coding_agent_support.Effects.Total.{
  Returns, Returns-of_ok, Answers, pure-Answers, if-Answers, bind-Answers, bind-Answers_of,
  answer_rules,
}
use coding_agent_support.Task.{TaskSpec}
use coding_agent_support.Workspace.{
  CompletedProcess, CommandRecord, Machine, succeeded, log_command, run_command, git, from_template,
  apply_patch, run_pytest, raise_if,
}
use coding_agent_support.Evaluation.{evaluate_patch, evaluate_at, judge_patch, score, count_tests}
use coding_agent_support.Evaluation.Verdict.{IsVerdict, evaluate_at-IsVerdict}

-- the commands that set a workspace up, behind `git`
abbrev pub set_up : List (List Text)
set_up =
    (codes "init" ∷ codes "-q" ∷ [])
    ∷ (codes "config" ∷ codes "user.email" ∷ codes "runner@se-support.local" ∷ [])
    ∷ (codes "config" ∷ codes "user.name" ∷ codes "se-support-runner" ∷ [])
    ∷ (codes "add" ∷ codes "-A" ∷ [])
    ∷ (codes "commit" ∷ codes "-qm" ∷ codes "base" ∷ [])
    ∷ []

-- Every call returns: a command is started and ends, with any exit code. The commands that set a
-- workspace up end with exit code 0.
pub record IsReliable {W : Type 0} (sys : Machine W) : Type 0 where
  pub runs : (cmd : List Text) → Answers (sys.subprocess cmd)
  pub logs : (r : CommandRecord) → Answers (log_command sys.append_command r)
  pub copies : (template : Text) → Answers (sys.copy_template template)
  pub writes : (text : Text) → Answers (sys.write_patch_file text)
  pub unlinks : Answers sys.unlink_patch_file
  pub sets_up :
      All
        (λ words.
          (w : W) → Returns (λ p. succeeded p ≡ true) (sys.subprocess (codes "git" ∷ words) w).0)
        set_up

module _ {W : Type 0} (sys : Machine W) (reliable : IsReliable sys) where
  open reliable use {runs, logs, copies, writes, unlinks, sets_up}

  unchecked-Answers : (cmd : List Text) (step : Option ℕ) → Answers (run_command sys cmd step false)
  unfolding run_command
  unchecked-Answers cmd step = search (answer_rules, runs, logs)

  raise_if-Answers :
      (proc : CompletedProcess) (message : Text)
      → succeeded proc ≡ true
      → Answers {W = W} (raise_if (not (succeeded proc)) message)
  raise_if-Answers proc message e = rw e (record { returns = λ w. tt })

  checked-Answers :
      (words : List Text)
      → ((w : W) → Returns (λ p. succeeded p ≡ true) (sys.subprocess (codes "git" ∷ words) w).0)
      → Answers (git sys words true)
  unfolding git run_command
  checked-Answers words h =
      bind-Answers_of (λ p. succeeded p ≡ true) _ _ h
        λ proc e. search (answer_rules, logs, raise_if-Answers proc _ e)

  from_template-Answers : (template : Text) → Answers (from_template sys template)
  unfolding from_template
  from_template-Answers template =
      let (h, (i, (j, (k, (l, _))))) = sets_up in
      bind-Answers _ _ (copies template) λ _. bind-Answers _ _ (checked-Answers _ h) λ _.
        bind-Answers _ _ (checked-Answers _ i) λ _. bind-Answers _ _ (checked-Answers _ j) λ _.
          bind-Answers _ _ (checked-Answers _ k)
            λ _. bind-Answers _ _ (checked-Answers _ l) λ _. pure-Answers tt

  apply_patch-Answers : (diff : Text) → Answers (apply_patch sys diff false)
  unfolding apply_patch git
  apply_patch-Answers diff = if-Answers (is_empty (strip diff)) _ _ (pure-Answers true) (
      bind-Answers _ _ (writes diff)
        λ _. bind-Answers _ _ (unchecked-Answers _ none) λ proc. search (answer_rules, unlinks))

  run_pytest-Answers : (ids : List Text) → Answers (run_pytest sys ids none)
  unfolding run_pytest
  run_pytest-Answers ids = search (answer_rules, unchecked-Answers)

  count_tests-Answers : (applies : Bool) (ids : List Text) → Answers (count_tests sys applies ids)
  unfolding count_tests
  count_tests-Answers true ids = run_pytest-Answers ids
  count_tests-Answers false ids = pure-Answers _

  judge_patch-Answers :
      (task : TaskSpec) (run_id diff : Text) → Answers (judge_patch sys task run_id diff)
  unfolding judge_patch score
  judge_patch-Answers task run_id diff =
      search (answer_rules, apply_patch-Answers, unchecked-Answers, count_tests-Answers)

  evaluate_at-Answers :
      (root : Text) (run_dir : Option Text) (task : TaskSpec) (diff path : Text)
      → Answers (evaluate_at sys root run_dir task diff path)
  unfolding evaluate_at
  evaluate_at-Answers root run_dir task diff path =
      search (answer_rules, from_template-Answers, judge_patch-Answers)

  -- On a reliable machine, for a task with a local repository that is not the empty text, the
  -- evaluation of any patch returns a verdict; for the same task without one it raises ValueError
  -- and has called nothing.
  pub evaluate_patch-Returns :
      (root : Text) (run_dir : Option Text) (task : TaskSpec) (diff path : Text) (w : W)
      → is_empty path ≡ false
      → Returns
          (IsVerdict task)
          (evaluate_patch sys root run_dir (record task { local_repo_path = some path }) diff w).0
        × (evaluate_patch sys root run_dir (record task { local_repo_path = none }) diff w
            ≡ (err value_error, w))
  unfolding evaluate_patch
  evaluate_patch-Returns root run_dir task diff path w given = (
    rw (given, evaluate_patch)
        (Returns-of_ok (IsVerdict task) _ ((evaluate_at-Answers root run_dir _ diff path).returns w)
          (evaluate_at-IsVerdict sys root run_dir (record task { local_repo_path = some path }) diff
            path w)),
    refl,
  )
