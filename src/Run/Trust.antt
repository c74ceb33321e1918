-- ===== src/Run/Trust.antt =====
-- What the directory of a run in a container says of it, whatever its calls do.
use coding_agent_support.Base.{
  true, false, ◌&&◌, ◌||◌, ◌≡◌, refl, Option, none, some, List, [], ◌∷◌, Text, any, Bool-cases,
  Option-cases, inl, inr, list_eq, nat_eq, codes,
}
use coding_agent_support.Bundle.{SupportBundle, build_bundle}
use coding_agent_support.Integrity.{GitState, PatchManifest}
use coding_agent_support.Run.{
  empty_eval, Stage, s0, s1, s2, Event, wrote_state, wrote_bundle, agent_started, wrote_manifest,
  wrote_status, wrote_patch, wrote_eval, wrote_card, helper_integrity_violation, helper_hash,
}
use coding_agent_support.Run.Body.{
  Setting, Ops, git_state, final_diff_with_manifest, fail_run, finish_run, check_leak, check_helper,
  act, snapshot_s1, sha_before, prepare, run_body, is_some,
}
use coding_agent_support.Run.Log.{
  Post, is_clean, is_patch, IsGuarded, IsTrusted, Ends, or_right, kept-of_violation, IsTrusted-cons,
  call-bind, Post-if, call_if-bind,
}

module _ {Card : Type 0} where
  IsGuarded-state :
      (stage : Stage) (state : GitState) (log : List (Event Card))
      → IsGuarded log
      → IsGuarded (wrote_state stage state ∷ log)
  IsGuarded-state stage state log (inl h) = inl h
  IsGuarded-state stage state log (inr (h0, h1)) = inr (
    or_right (is_clean {Card = Card} s0 (wrote_state stage state)) _ h0,
    or_right (is_clean {Card = Card} s1 (wrote_state stage state)) _ h1,
  )

module _ {W Card : Type 0} (ops : Ops W Card) (s : Setting) where
  fail_run-Ends :
      (host : Option Text) (stage : Text) (changes : List Text) (w : W) (log : List (Event Card))
      → IsGuarded log
      → any is_patch log ≡ false
      → Post (Ends host) IsGuarded (fail_run ops s stage changes (w, log))
  unfolding fail_run empty_eval
  fail_run-Ends host stage changes w log g p =
      call-bind (Ends host) IsGuarded (ops.build_card (empty_eval s.run_id) []) _ w
        (wrote_patch [] ∷ wrote_status stage changes ∷ log) g λ card w'. (g, (refl, refl, p))

  finish_run-Ends :
      (host : Option Text) (patch : Text) (w : W) (log : List (Event Card))
      → IsGuarded log
      → IsTrusted host log
      → Post (Ends host) IsGuarded (finish_run ops s patch (w, log))
  unfolding finish_run
  finish_run-Ends host patch w log g t =
      call-bind (Ends host) IsGuarded (ops.evaluate patch) _ w (wrote_patch patch ∷ log) g
        λ evaluated w'.
          call-bind (Ends host) IsGuarded
            (ops.build_card (record evaluated { run_id = s.run_id }) patch) _ w'
            (wrote_eval (record evaluated { run_id = s.run_id }) ∷ wrote_patch patch ∷ log) g
            λ card v. (
              g,
              IsTrusted-cons host (wrote_card card) _ (
                  IsTrusted-cons host (wrote_eval (record evaluated { run_id = s.run_id })) _
                    (IsTrusted-cons host (wrote_patch patch) log t)),
            )

  check_leak-Ends :
      (host : Option Text) (patch : Text) (manifest : PatchManifest) (w : W)
      (log : List (Event Card))
      → IsGuarded log
      → (manifest.helper_leak ≡ false → IsTrusted host log)
      → Post (Ends host) IsGuarded (check_leak ops s patch manifest (w, log))
  unfolding check_leak
  check_leak-Ends host patch manifest w log g t = elim (Bool-cases manifest.helper_leak) [
    | inl leak ↦ rw leak g
    | inr tight ↦ rw tight (finish_run-Ends host patch w log g (t tight))
  ]

  -- the entries of the snapshots, of the manifest and of the agent's start
  abbrev acted : PatchManifest → GitState → List (Event Card) → List (Event Card)
  acted manifest state log = wrote_manifest manifest ∷ wrote_state s2 state ∷ agent_started ∷ log

  check_helper-Ends :
      (host : Option Text) (patch : Text) (manifest : PatchManifest) (before : Option Text)
      (state : GitState) (w : W) (log : List (Event Card))
      → any (is_clean s0) log ≡ true
      → any (is_clean s1) log ≡ true
      → any is_patch log ≡ false
      → Post
          (Ends host)
          IsGuarded
          (check_helper ops s host patch manifest before (w, acted manifest state log))
  unfolding check_helper helper_hash
  check_helper-Ends none patch manifest before state w log c0 c1 p =
      check_leak-Ends none patch manifest w (acted manifest state log) (inr (c0, c1))
        λ tight. record { clean_start = c0; clean_setup = c1; sealed = rw tight refl; helper = tt }
  check_helper-Ends (some host) patch manifest before state w log c0 c1 p =
      call-bind (Ends (some host)) IsGuarded ops.helper_sha256 _ w (acted manifest state log)
        (inr (c0, c1))
        λ after w'. elim (Option-cases (helper_integrity_violation host before after)) [
          | inl fine ↦ rw fine (
              check_leak-Ends (some host) patch manifest w' _ (inr (c0, c1)) λ tight. record {
                clean_start = c0;
                clean_setup = c1;
                sealed = rw tight refl;
                helper = rw (kept-of_violation host before after fine) refl;
              })
          | inr (reason, bad) ↦ rw bad (
              fail_run-Ends (some host) (codes "HELPER_INTEGRITY") (reason ∷ []) w' _ (inr (c0, c1))
                p)
        ]

  act-Ends :
      (base : List Text) (before : Option Text) (bundle : SupportBundle) (w : W)
      (log : List (Event Card))
      → any (is_clean s0) log ≡ true
      → any (is_clean s1) log ≡ true
      → any is_patch log ≡ false
      → IsGuarded log
      → Post (Ends s.helper_host_sha) IsGuarded (act ops s true base before bundle (w, log))
  unfolding act
  act-Ends base before bundle w log c0 c1 p g =
      call-bind (Ends s.helper_host_sha) IsGuarded ops.write_provenance _ w log g λ done w1.
        call-bind (Ends s.helper_host_sha) IsGuarded (ops.run_agent bundle) _ w1
          (agent_started ∷ log) (inr (c0, c1))
          λ ran w2.
            call-bind (Ends s.helper_host_sha) IsGuarded (final_diff_with_manifest ops s base) _ w2
              (agent_started ∷ log) (inr (c0, c1))
              λ diff w3.
                call-bind (Ends s.helper_host_sha) IsGuarded (git_state ops s base true) _ w3
                  (agent_started ∷ log) (inr (c0, c1))
                  λ state w4.
                    check_helper-Ends s.helper_host_sha diff.0 diff.1 before state w4 log c0 c1 p

  snapshot_s1-Ends :
      (base : List Text) (before : Option Text) (bundle : SupportBundle) (w : W)
      (log : List (Event Card))
      → any (is_clean s0) log ≡ true
      → any is_patch log ≡ false
      → IsGuarded log
      → Post (Ends s.helper_host_sha) IsGuarded (snapshot_s1 ops s true base before bundle (w, log))
  unfolding snapshot_s1
  snapshot_s1-Ends base before bundle w log c0 p g =
      call-bind (Ends s.helper_host_sha) IsGuarded (git_state ops s base true) _ w log g λ state w'.
        Post-if (Ends s.helper_host_sha) IsGuarded state.clean _ _ (w', wrote_state s1 state ∷ log)
          (λ clean.
            act-Ends base before bundle w' (wrote_state s1 state ∷ log) c0 (rw clean refl) p
              (inr (c0, rw clean refl)))
          (λ dirty.
            fail_run-Ends s.helper_host_sha (codes "S1_PRE_AGENT") state.unexplained_changes w'
              (wrote_state s1 state ∷ log) (IsGuarded-state s1 state log g) p)

  prepare-Ends :
      (base : List Text) (w : W) (log : List (Event Card))
      → any (is_clean s0) log ≡ true
      → any is_patch log ≡ false
      → IsGuarded log
      → Post (Ends s.helper_host_sha) IsGuarded (prepare ops s true base (w, log))
  unfolding prepare
  prepare-Ends base w log c0 p g =
      call-bind (Ends s.helper_host_sha) IsGuarded
        (build_bundle ops.writers s.task_id s.condition s.helper_artifact) _ w log g
        λ bundle w1.
          call-bind (Ends s.helper_host_sha) IsGuarded (sha_before ops s true) _ w1
            (wrote_bundle bundle ∷ log) g
            λ before w2.
              call_if-bind (Ends s.helper_host_sha) IsGuarded (s.cond.gates && s.has_baseline)
                ops.compute_baseline _ w2 (wrote_bundle bundle ∷ log) g
                λ w3.
                  call_if-bind (Ends s.helper_host_sha) IsGuarded (is_some s.network || true)
                    ops.apply_isolation _ w3 (wrote_bundle bundle ∷ log) g
                    λ w4.
                      snapshot_s1-Ends base before bundle w4 (_ ∷ wrote_bundle bundle ∷ log) c0 p g

  -- Whatever the calls of a run in a container do, whether it returns or raises, its agent is started
  -- only after a clean first and a clean second snapshot. If it returns as finished, both snapshots
  -- were clean, the manifest of its patch shows no helper, and a helper that was expected had the
  -- host's hash before the agent and the same one after it; if it returns as an infrastructure
  -- failure, its result is neither resolved nor applied and it has written no patch but the empty
  -- one.
  pub run_body-IsTrusted :
      (w : W) → Post (Ends s.helper_host_sha) IsGuarded (run_body ops s true (w, []))
  unfolding run_body
  run_body-IsTrusted w =
      call-bind (Ends s.helper_host_sha) IsGuarded (git_state ops s [] false) _ w [] (inl refl)
        λ state w'.
          Post-if (Ends s.helper_host_sha) IsGuarded state.clean _ _ (w', wrote_state s0 state ∷ [])
            (λ clean.
              prepare-Ends state.untracked_files w' (wrote_state s0 state ∷ []) (rw clean refl) refl
                (inl refl))
            (λ dirty.
              fail_run-Ends s.helper_host_sha (codes "S0_CONTAINER_START") state.unexplained_changes
                w' (wrote_state s0 state ∷ []) (inl refl) refl)
