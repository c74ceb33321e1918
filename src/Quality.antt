-- ===== src/Quality.antt =====
-- se_support/quality/quality_card.py and se_support/schemas/patch_quality_card.py: the card of a
-- patch. `Float` is the type of Python's floats, and `ratio4 a b` is `round(a / b, 4)`.
pub mod Overlap
pub mod Level
pub mod Trajectory
mod Tests
use coding_agent_support.Base.{
  ℕ, ◌-◌, Bool, true, false, not, ◌&&◌, ◌||◌, Option, none, some, List, [], ◌∷◌, Text, length,
  is_empty, filter, any, contains, list_eq, nat_eq, if◌then◌else◌,
}
use coding_agent_support.Task.{TaskSpec}
use coding_agent_support.Run.{EvalResult}
use coding_agent_support.Patch.{diff_metrics, changed_files}

pub data QualityLevel : Type 0 where
  q0_invalid q1_plausible_failing q2_functionally_correct : QualityLevel
  q3_engineering_acceptable q4_review_ready q5_human_quality : QualityLevel

pub record FunctionalCorrectness : Type 0 where
  pub patch_applies : Bool
  pub build_success : Bool
  pub official_resolved : Bool
  pub regression_failures : ℕ

pub record Locality (Float : Type 0) : Type 0 where
  pub files_touched : ℕ
  pub loc_added : ℕ
  pub loc_deleted : ℕ
  pub gold_file_overlap : Option Float
  pub unrelated_file_change_suspected : Bool

pub record ProcessMetrics : Type 0 where
  pub turns : ℕ
  pub commands_run : ℕ
  pub failed_commands : ℕ
  pub edits_made : Option ℕ
  pub gate_failures : ℕ
  pub gate_revisions : ℕ
  pub harness_rejections : ℕ
  pub localized_before_edit : Option Bool
  pub sandbox_backend : Option Text
  pub stop_reason : Option Text

-- The parts that no code fills (maintainability, security, test adequacy, reviewability, failure
-- modes and notes) are left out.
pub record PatchQualityCard (Float : Type 0) : Type 0 where
  pub run_id : Text
  pub task_id : Text
  pub resolved : Bool
  pub quality_level : QualityLevel
  pub functional_correctness : FunctionalCorrectness
  pub locality : Locality Float
  pub process : ProcessMetrics

-- `ProcessMetrics()`
unfoldable pub no_metrics : ProcessMetrics
no_metrics = record {
  turns = 0;
  commands_run = 0;
  failed_commands = 0;
  edits_made = none;
  gate_failures = 0;
  gate_revisions = 0;
  harness_rejections = 0;
  localized_before_edit = none;
  sandbox_backend = none;
  stop_reason = none;
}

-- the members of `set(files)`
unfoldable pub distinct : List Text → List Text
distinct [] = []
distinct (f ∷ fs) = let rest = distinct fs in if contains fs f then rest else f ∷ rest

unfoldable pub quality_level : EvalResult → QualityLevel
quality_level ev =
    if not ev.patch_applies || not ev.build_success
    then q0_invalid
    else if not ev.resolved
    then q1_plausible_failing
    else q2_functionally_correct

module _ {Float : Type 0} (zero_float : Float) (ratio4 : ℕ → ℕ → Float) where
  unfoldable pub gold_overlap : List Text → List Text → Option Float
  unfolding distinct
  gold_overlap patch_files gold_files =
      if is_empty gold_files
      then none
      else if is_empty patch_files
      then some zero_float
      else some (
          ratio4 (length (filter (contains gold_files) (distinct patch_files)))
            (length (distinct gold_files)))

-- `bool(gold_files) and any(f not in gold_files for f in files)`
abbrev pub is_unrelated : List Text → List Text → Bool
is_unrelated gold_files files =
    not (is_empty gold_files) && any (λ f. not (contains gold_files f)) files

-- `changed_files(gold_diff) if gold_diff else []`
unfoldable pub gold_files_of : Option Text → List Text
gold_files_of none = []
gold_files_of (some []) = []
gold_files_of (some (c ∷ s)) = changed_files (c ∷ s)

module _ {Float : Type 0} (zero_float : Float) (ratio4 : ℕ → ℕ → Float) where
  unfoldable pub locality_of : List Text → Text → Locality Float
  unfolding gold_overlap diff_metrics
  locality_of gold_files final_diff =
      let dm = diff_metrics final_diff in
      record {
        files_touched = dm.files_touched;
        loc_added = dm.loc_added;
        loc_deleted = dm.loc_deleted;
        gold_file_overlap = gold_overlap zero_float ratio4 dm.files gold_files;
        unrelated_file_change_suspected = is_unrelated gold_files dm.files;
      }

  -- `process` holds the metrics of the run directory, or none of them if there is no directory.
  unfoldable pub build_card :
      TaskSpec → EvalResult → Text → Option Text → ProcessMetrics → PatchQualityCard Float
  unfolding quality_level locality_of gold_files_of
  build_card task ev final_diff gold_diff process = record {
    run_id = ev.run_id;
    task_id = task.task_id;
    resolved = ev.resolved;
    quality_level = quality_level ev;
    functional_correctness = record {
      patch_applies = ev.patch_applies;
      build_success = ev.build_success;
      official_resolved = ev.resolved;
      regression_failures = ev.pass_to_pass_total - ev.pass_to_pass_passed;
    };
    locality = locality_of (gold_files_of gold_diff) final_diff;
    process = process;
  }
