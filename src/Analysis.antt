-- ===== src/Analysis.antt =====
-- se_support/analysis/aggregate.py: from the runs of an experiment to tables of counts.
pub mod Loading
pub mod Keys
pub mod Pairs
mod Tests
use coding_agent_support.Base.{
  ℕ, Bool, true, false, not, ◌&&◌, ◌||◌, Option, none, some, List, [], ◌∷◌, ◌++◌, map, Text, codes,
  Dict, lookup, insert, filter, any, count_if, length, contains, insert_sorted, starts_with,
  is_empty, ltb, ◌==◌, list_eq, nat_eq, Eq, if◌then◌else◌,
}
use coding_agent_support.Effects.{Result, ok, err, value_error, key_error}

pub record RunRow : Type 0 where
  pub task_id : Text
  pub condition : Text
  pub seed : ℕ
  pub resolved : Bool
  pub patch_applies : Bool
  pub quality : Text
  pub manipulation_passed : Option Bool

-- the fields of run_spec.json that are read, if they are there
pub record Spec : Type 0 where
  pub task_id : Option Text
  pub condition : Option Text
  pub seed : Option ℕ
  pub protocol_version : Option Text
  pub model : Option Text
  pub condition_version : Option Text

-- the truth values of the two fields of eval_result.json
pub record Evaluated : Type 0 where
  pub resolved : Bool
  pub patch_applies : Bool

-- A run directory, with what the JSON reader makes of its files: the quality level of the card, the
-- status of integrity/status.json, and the field `passed` of manipulation.json.
pub record RunFiles : Type 0 where
  pub card : Option (Option Text)
  pub eval_result : Option Evaluated
  pub spec : Option Spec
  pub status : Option Text
  pub manipulation_passed : Option Bool

-- `spec.get(field, "unknown")`
unfoldable pub or_unknown : Option Text → Text
or_unknown none = codes "unknown"
or_unknown (some v) = v

unfoldable pub row_of : Spec → Evaluated → Option Text → Option Bool → Result RunRow
row_of spec evaluated card passed = elim spec.task_id [
  | none ↦ err key_error
  | some task ↦ elim spec.condition [
    | none ↦ err key_error
    | some condition ↦ ok (record {
      task_id = task;
      condition = condition;
      seed = elim spec.seed [ none ↦ 0 | some seed ↦ seed ];
      resolved = evaluated.resolved;
      patch_applies = evaluated.patch_applies;
      quality = elim card [ none ↦ codes "Q0_invalid" | some level ↦ level ];
      manipulation_passed = passed;
    })
  ]
]

-- the three files of a complete run
unfoldable pub complete : RunFiles → Option (Spec × Evaluated × Option Text)
complete r = elim r.card [
  | none ↦ none
  | some card ↦ elim r.eval_result [
    | none ↦ none
    | some evaluated ↦ elim r.spec [ none ↦ none | some spec ↦ some (spec, evaluated, card) ]
  ]
]

unfoldable pub is_failure : RunFiles → Bool
unfolding codes
is_failure r = elim r.status [
  | none ↦ false
  | some status ↦ status == codes "infrastructure_failure"
]

-- the runs that count
unfoldable pub counted : RunFiles → Option (Spec × Evaluated × Option Text)
unfolding complete is_failure
counted r = elim (complete r) [
  | none ↦ none
  | some files ↦ if is_failure r then none else some files
]

-- the versions seen so far, and the rows
pub record Cohort : Type 0 where
  pub protocols : List Text
  pub models : List Text
  pub cond_versions : List Text
  pub rows : List RunRow

abbrev pub no_runs : Cohort
no_runs = record { protocols = []; models = []; cond_versions = []; rows = [] }

-- a set with one more element
abbrev pub add : Text → List Text → List Text
add v s = if contains s v then s else v ∷ s

unfoldable pub with_run : Spec → RunRow → Cohort → Cohort
unfolding or_unknown
with_run spec row c = record {
  protocols = add (or_unknown spec.protocol_version) c.protocols;
  models = add (or_unknown spec.model) c.models;
  cond_versions = add (or_unknown spec.condition_version) c.cond_versions;
  rows = c.rows ++ row ∷ [];
}

abbrev pub then_row : Result RunRow → (RunRow → Result Cohort) → Result Cohort
then_row (ok row) f = f row
then_row (err e) f = err e

unfoldable pub collect : List RunFiles → Cohort → Result Cohort
unfolding counted row_of with_run
collect [] c = ok c
collect (r ∷ rest) c = elim (counted r) [
  | none ↦ collect rest c
  | some (spec, evaluated, card) ↦
      then_row (row_of spec evaluated card r.manipulation_passed)
        (λ row. collect rest (with_run spec row c))
]

-- the refusals, in their order
unfoldable pub checked : Bool → Bool → Bool → Cohort → Result (List RunRow)
checked mixed_protocol mixed_model mixed_condition c =
    if ltb 1 (length c.protocols) && not mixed_protocol
    then err value_error
    else if ltb 1 (length c.models) && not mixed_model
    then err value_error
    else if ltb 1 (length c.cond_versions) && not mixed_condition
    then err value_error
    else ok c.rows

abbrev pub then_checked : Result Cohort → (Cohort → Result (List RunRow)) → Result (List RunRow)
then_checked (ok c) f = f c
then_checked (err e) f = err e

-- `load_runs` of the directories in their order
unfoldable pub load_runs : Bool → Bool → Bool → List RunFiles → Result (List RunRow)
unfolding collect checked
load_runs mixed_protocol mixed_model mixed_condition runs =
    then_checked (collect runs no_runs) (checked mixed_protocol mixed_model mixed_condition)

pub record ConditionSummary : Type 0 where
  pub condition : Text
  pub n : ℕ
  pub resolved : ℕ
  pub applying : ℕ
  pub q2_plus : ℕ

unfoldable pub is_q2_plus : RunRow → Bool
unfolding starts_with codes
is_q2_plus r =
    starts_with r.quality (codes "Q2")
    || starts_with r.quality (codes "Q3")
    || starts_with r.quality (codes "Q4")
    || starts_with r.quality (codes "Q5")

unfoldable pub summary_of : List RunRow → Text → ConditionSummary
unfolding is_q2_plus
summary_of rows c =
    let rs = filter (λ (r : RunRow). r.condition == c) rows in
    record {
      condition = c;
      n = length rs;
      resolved = count_if (λ (r : RunRow). r.resolved) rs;
      applying = count_if (λ (r : RunRow). r.patch_applies) rs;
      q2_plus = count_if is_q2_plus rs;
    }

unfoldable pub sorted_keys : List Text → List Text
unfolding insert_sorted
sorted_keys [] = []
sorted_keys (k ∷ ks) = insert_sorted k (sorted_keys ks)

unfoldable pub summarize_by_condition : List RunRow → List ConditionSummary
unfolding sorted_keys summary_of
summarize_by_condition rows =
    map (summary_of rows) (sorted_keys (map (λ (r : RunRow). r.condition) rows))

-- `{r.task_id: r.resolved for r in rows if r.condition == cond and r.seed == 0}`
unfoldable pub idx_from : Text → List RunRow → Dict Text Bool → Dict Text Bool
idx_from cond [] d = d
idx_from cond (r ∷ rows) d =
    idx_from cond rows
      (if r.condition == cond && r.seed == 0 then insert r.task_id r.resolved d else d)

abbrev pub keys : Dict Text Bool → List Text
keys [] = []
keys ((k, v) ∷ d) = k ∷ keys d

abbrev pub has_key : Dict Text Bool → Text → Bool
has_key d k = elim (lookup k d) [ none ↦ false | some v ↦ true ]

-- `sorted(set(t) & set(b))`
unfoldable pub common : Dict Text Bool → Dict Text Bool → List Text
unfolding sorted_keys
common t b = sorted_keys (filter (has_key b) (keys t))

-- the pairs at keys that both have
unfoldable pub pairs_at : Dict Text Bool → Dict Text Bool → List Text → List (Bool × Bool)
pairs_at t b [] = []
pairs_at t b (k ∷ ks) = elim (lookup k t) [
  | none ↦ pairs_at t b ks
  | some x ↦ elim (lookup k b) [ none ↦ pairs_at t b ks | some y ↦ (x, y) ∷ pairs_at t b ks ]
]

unfoldable pub paired : List RunRow → Text → Text → List (Bool × Bool)
unfolding idx_from common pairs_at
paired rows condition baseline =
    let t = idx_from condition rows [] in
    let b = idx_from baseline rows [] in pairs_at t b (common t b)

-- the counts of a contrast, without its floating-point statistics
pub record PairedContrast : Type 0 where
  pub condition : Text
  pub baseline : Text
  pub n_pairs : ℕ
  pub both_resolved : ℕ
  pub only_treat : ℕ
  pub only_base : ℕ
  pub neither : ℕ

abbrev pub both : Bool × Bool → Bool
both (x, y) = x && y

abbrev pub only_treated : Bool × Bool → Bool
only_treated (x, y) = x && not y

abbrev pub only_based : Bool × Bool → Bool
only_based (x, y) = not x && y

abbrev pub no_one : Bool × Bool → Bool
no_one (x, y) = not x && not y

unfoldable pub paired_contrast : List RunRow → Text → Text → PairedContrast
unfolding paired
paired_contrast rows condition baseline =
    let pairs = paired rows condition baseline in
    record {
      condition = condition;
      baseline = baseline;
      n_pairs = length pairs;
      both_resolved = count_if both pairs;
      only_treat = count_if only_treated pairs;
      only_base = count_if only_based pairs;
      neither = count_if no_one pairs;
    }

-- the fields of an evaluation that the regression statistics read
pub record RunEval : Type 0 where
  pub patch_applies : Bool
  pub pass_to_pass_passed : ℕ
  pub pass_to_pass_total : ℕ

-- The statistics without the rounded rate, which is the quotient of two of them.
pub record RegressionStats : Type 0 where
  pub applying : ℕ
  pub p2p_usable : ℕ
  pub p2p_regressing : ℕ
  pub p2p_missing : ℕ

abbrev pub is_usable : RunEval → Bool
is_usable e = ltb 0 e.pass_to_pass_total

unfoldable pub p2p_regression_stats : List RunEval → RegressionStats
p2p_regression_stats evals =
    let applying = filter (λ (e : RunEval). e.patch_applies) evals in
    let usable = filter is_usable applying in
    record {
      applying = length applying;
      p2p_usable = length usable;
      p2p_regressing =
          count_if (λ (e : RunEval). ltb e.pass_to_pass_passed e.pass_to_pass_total) usable;
      p2p_missing = count_if (λ e. not (is_usable e)) applying;
    }
