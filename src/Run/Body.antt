-- ===== src/Run/Body.antt =====
-- `_run_body` and `_infrastructure_failure`.
use coding_agent_support.Base.{
  Bool, true, false, not, ◌&&◌, ◌||◌, Option, none, some, List, [], ◌∷◌, ◌++◌, Text, codes,
  split_lines, strip, filter, map, ◌==◌, list_eq, nat_eq, if◌then◌else◌,
}
use coding_agent_support.Effects.{Eff, ok, runtime_error, pure, raise, ◌>>=◌, ◌>>◌}
use coding_agent_support.Condition.{SupportCondition}
use coding_agent_support.Helper.{HelperTestArtifact}
use coding_agent_support.Bundle.{SupportBundle, Writers, build_bundle, bundle_hash}
use coding_agent_support.Integrity.{
  GitState, PatchManifest, classify_git_state, build_patch_manifest, is_blank, legacy_helper,
}
use coding_agent_support.Run.{
  EvalResult, empty_eval, s0, s1, s2, Event, wrote_state, wrote_bundle, wrote_manipulation,
  agent_started, wrote_manifest, wrote_helper_hash, wrote_status, wrote_patch, wrote_eval,
  wrote_card, RunOutcome, finished, infrastructure_failure, helper_integrity_violation, helper_hash,
  manipulation_check,
}

-- what a run is given
pub record Setting : Type 0 where
  pub run_id : Text
  pub task_id : Text
  pub condition : Text
  pub cond : SupportCondition
  -- the sandbox policy's permission of the network, if there is a policy
  pub network : Option Bool
  -- whether the agent has an attribute `gate_baseline`
  pub has_baseline : Bool
  pub helper_artifact : Option HelperTestArtifact
  pub helper_host_sha : Option Text

-- The container or the workspace, the agent and the evaluator, and the steps of a run whose effect
-- on its directory is no part of what is shown: the gates' baseline, isolation and provenance.
pub record Ops (W Card : Type 0) : Type 0 where
  pub writers : Writers W
  pub sha256 : Text → Text
  pub git_status : Eff W Text
  pub git_head : Eff W Text
  pub helper_sha256 : Eff W (Option Text)
  pub compute_baseline : Eff W (Unit {0})
  pub apply_isolation : Eff W (Unit {0})
  pub write_provenance : Eff W (Unit {0})
  pub run_agent : SupportBundle → Eff W (Unit {0})
  pub staged_diff : List Text → Eff W Text
  pub staged_names : List Text → Eff W Text
  pub final_diff : Eff W Text
  pub evaluate : Text → Eff W EvalResult
  pub build_card : EvalResult → Text → Eff W Card

abbrev pub Logged : Type 0 → Type 0 → Type 0
Logged W Card = W × List (Event Card)

-- a call, which writes nothing to the directory
abbrev pub call : {W Card A : Type 0} → Eff W A → Eff (Logged W Card) A
call m (w, log) = let (r, w') = m w in (r, (w', log))

abbrev pub write : {W Card : Type 0} → Event Card → Eff (Logged W Card) (Unit {0})
write e (w, log) = (ok tt, (w, e ∷ log))

abbrev pub call_if : {W Card : Type 0} → Bool → Eff W (Unit {0}) → Eff (Logged W Card) (Unit {0})
call_if true m = call m
call_if false m = pure tt

-- `line.split("\t", 1)[-1]`
after_tab : Text → Text → Text
after_tab whole [] = whole
after_tab whole (c ∷ s) = elim (c == 9) [ true ↦ s | false ↦ after_tab whole s ]

unfoldable pub included_paths : Text → List Text
unfolding after_tab split_lines strip is_blank
included_paths names =
    map (λ line. strip (after_tab line line))
      (filter (λ line. not (is_blank line)) (split_lines names))

unfoldable pub ephemeral_globs : List Text
unfolding legacy_helper
ephemeral_globs =
    codes "**/__pycache__/**"
    ∷ codes "**/*.pyc"
    ∷ codes "**/.pytest_cache/**"
    ∷ codes "**/.mypy_cache/**"
    ∷ codes "**/.ruff_cache/**"
    ∷ codes "**/.coverage"
    ∷ codes "**/htmlcov/**"
    ∷ codes ".se_support/**"
    ∷ legacy_helper
    ∷ []

abbrev pub is_some : {A : Type 0} → Option A → Bool
is_some none = false
is_some (some a) = true

module _ {W Card : Type 0} (ops : Ops W Card) (s : Setting) where
  -- `ContainerWorkspace.git_state`
  unfoldable pub git_state : List Text → Bool → Eff W GitState
  unfolding classify_git_state
  git_state baseline strict = do
    porcelain ← ops.git_status
    head ← ops.git_head
    pure (classify_git_state ops.sha256 porcelain (strip head) baseline strict)

  unfoldable pub final_diff_with_manifest : List Text → Eff W (Text × PatchManifest)
  unfolding included_paths ephemeral_globs build_patch_manifest
  final_diff_with_manifest excludes = do
    patch ← ops.staged_diff (ephemeral_globs ++ excludes)
    names ← ops.staged_names (ephemeral_globs ++ excludes)
    pure (
      patch,
      build_patch_manifest ops.sha256 patch (included_paths names) (ephemeral_globs ++ excludes),
    )

  unfoldable pub fail_run : Text → List Text → Eff (Logged W Card) (RunOutcome Card)
  unfolding empty_eval
  fail_run stage changes = do
    write (wrote_status stage changes)
    write (wrote_patch [])
    card ← call (ops.build_card (empty_eval s.run_id) [])
    write (wrote_eval (empty_eval s.run_id))
    write (wrote_card card)
    pure (record {
      run_id = s.run_id;
      eval_result = empty_eval s.run_id;
      quality_card = card;
      status = infrastructure_failure;
    })

  unfoldable pub finish_run : Text → Eff (Logged W Card) (RunOutcome Card)
  finish_run patch = do
    write (wrote_patch patch)
    evaluated ← call (ops.evaluate patch)
    let result : EvalResult = record evaluated { run_id = s.run_id }
    write (wrote_eval result)
    card ← call (ops.build_card result patch)
    write (wrote_card card)
    pure
        (record { run_id = s.run_id; eval_result = result; quality_card = card; status = finished })

  -- the patch must not hold the helper
  unfoldable pub check_leak : Text → PatchManifest → Eff (Logged W Card) (RunOutcome Card)
  unfolding finish_run
  check_leak patch manifest =
      if manifest.helper_leak
      then raise
          (runtime_error (codes "integrity violation: helper artifact leaked into final patch"))
      else finish_run patch

  -- the helper's hash after the run
  unfoldable pub check_helper :
      Option Text → Text → PatchManifest → Option Text → Eff (Logged W Card) (RunOutcome Card)
  unfolding check_leak fail_run helper_integrity_violation helper_hash
  check_helper none patch manifest before = check_leak patch manifest
  check_helper (some host) patch manifest before = call ops.helper_sha256 >>= λ after.
      write (wrote_helper_hash (helper_hash host before after))
      >> elim (helper_integrity_violation host before after) [
        | some reason ↦ fail_run (codes "HELPER_INTEGRITY") (reason ∷ [])
        | none ↦ check_leak patch manifest
      ]

  -- the agent and what follows; the first argument is `use_container`
  unfoldable pub act :
      Bool → List Text → Option Text → SupportBundle → Eff (Logged W Card) (RunOutcome Card)
  unfolding check_helper final_diff_with_manifest git_state finish_run
  act true base before bundle = do
    call ops.write_provenance
    write agent_started
    call (ops.run_agent bundle)
    (patch, manifest) ← call (final_diff_with_manifest base)
    state ← call (git_state base true)
    write (wrote_state s2 state)
    write (wrote_manifest manifest)
    check_helper s.helper_host_sha patch manifest before
  act false base before bundle = do
    call ops.write_provenance
    write agent_started
    call (ops.run_agent bundle)
    patch ← call ops.final_diff
    finish_run patch

  unfoldable pub snapshot_s1 :
      Bool → List Text → Option Text → SupportBundle → Eff (Logged W Card) (RunOutcome Card)
  unfolding act fail_run git_state
  snapshot_s1 true base before bundle = do
    state ← call (git_state base true)
    write (wrote_state s1 state)
    if state.clean
        then act true base before bundle
        else fail_run (codes "S1_PRE_AGENT") state.unexplained_changes
  snapshot_s1 false base before bundle = act false base before bundle

  -- the helper's hash before the run
  unfoldable pub sha_before : Bool → Eff W (Option Text)
  sha_before use_container =
      if use_container && is_some s.helper_host_sha then ops.helper_sha256 else pure none

  unfoldable pub prepare : Bool → List Text → Eff (Logged W Card) (RunOutcome Card)
  unfolding snapshot_s1 sha_before build_bundle bundle_hash manipulation_check
  prepare use_container base = do
    bundle ← call (build_bundle ops.writers s.task_id s.condition s.helper_artifact)
    write (wrote_bundle bundle)
    before ← call (sha_before use_container)
    call_if (s.cond.gates && s.has_baseline) ops.compute_baseline
    call_if (is_some s.network || use_container) ops.apply_isolation
    write (
        wrote_manipulation (
          manipulation_check s.run_id s.condition s.cond bundle
            (bundle_hash ops.writers bundle.artifacts) s.network use_container))
    snapshot_s1 use_container base before bundle

  unfoldable pub run_body : Bool → Eff (Logged W Card) (RunOutcome Card)
  unfolding prepare fail_run git_state
  run_body true = do
    state ← call (git_state [] false)
    write (wrote_state s0 state)
    if state.clean
        then prepare true state.untracked_files
        else fail_run (codes "S0_CONTAINER_START") state.unexplained_changes
  run_body false = prepare false []
