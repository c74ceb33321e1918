-- ===== src/Run/Tests.antt =====
-- A run over a clean tree in a container that answers always alike, and the theorems at it.
use coding_agent_support.Base.{
  false, Bool, strip, ◌≡◌, refl, true, none, some, [], ◌∷◌, Text, codes, list_beq, list_eq, nat_eq,
}
use coding_agent_support.Effects.{Result, err, ok, OnOk}
use coding_agent_support.Condition.{
  get_condition, get_condition-id_text, condition, full_stack, id_text,
}
use coding_agent_support.Bundle.{
  context_artifact, memory_artifact, validate_against_condition, Writers, build_bundle,
}
use coding_agent_support.Run.{
  RunOutcome, finished, infrastructure_failure, empty_eval, manipulation_check, resolve_mode,
  fixture, helper_integrity_violation,
}
use coding_agent_support.Run.Body.{Ops, Setting, run_body, included_paths}
use coding_agent_support.Run.Log.{Post, Ends, IsGuarded}
use coding_agent_support.Run.Trust.{run_body-IsTrusted}
use coding_agent_support.Run.Treatment.{build_bundle-passed}

abbrev writers : Writers Unit
writers = record {
  hash_text = λ t. t;
  context_pack_v2 = λ w. (ok (codes "pack"), w);
  random_context_pack = λ w. (ok (codes "random"), w);
  repo_memory = λ w. (ok (codes "memory"), w);
}

-- the quality card is the patch
abbrev ops : Ops Unit Text
ops = record {
  writers = writers;
  sha256 = λ t. t;
  git_status = λ w. (ok (codes "?? build/lib/a.py"), w);
  git_head = λ w. (ok (codes "abc"), w);
  helper_sha256 = λ w. (ok (some (codes "h")), w);
  compute_baseline = λ w. (ok tt, w);
  apply_isolation = λ w. (ok tt, w);
  write_provenance = λ w. (ok tt, w);
  run_agent = λ b w. (ok tt, w);
  staged_diff = λ globs w. (ok (codes "diff"), w);
  staged_names = λ globs w. (ok (codes "M\ta.py"), w);
  final_diff = λ w. (ok (codes "diff"), w);
  evaluate = λ patch w. (ok (empty_eval (codes "e")), w);
  build_card = λ result patch w. (ok patch, w);
}

abbrev setting : Setting
setting = record {
  run_id = codes "r";
  task_id = codes "t";
  condition = id_text full_stack;
  cond = condition full_stack;
  network = none;
  has_baseline = true;
  helper_artifact = none;
  helper_host_sha = some (codes "h");
}

staged : included_paths (codes "M\ta.py\n\nA\tb.py") ≡ codes "a.py" ∷ codes "b.py" ∷ []
unfolding included_paths codes
staged = refl

mode_auto : resolve_mode (some (codes "x")) (codes "auto") ≡ fixture
unfolding resolve_mode codes list_beq
mode_auto = refl

changed_helper :
    helper_integrity_violation (codes "h") (some (codes "h")) none
    ≡ some (codes "helper_after_mismatch(before=h,after=None)")
unfolding helper_integrity_violation codes list_beq
changed_helper = refl

run_body-IsTrusted_example :
    Post (Ends (some (codes "h"))) IsGuarded (run_body ops setting true (tt, []))
run_body-IsTrusted_example = run_body-IsTrusted ops setting tt

build_bundle-passed_example :
    OnOk
      (λ b.
        (manipulation_check
          (codes "r")
          (id_text full_stack)
          (condition full_stack)
          b
          (codes "h")
          none
          true).passed
        ≡ true)
      (build_bundle writers (codes "t") (id_text full_stack) none tt).0
build_bundle-passed_example =
    build_bundle-passed writers (codes "r") (codes "t") (id_text full_stack) (codes "h") none none
      true tt (condition full_stack) (get_condition-id_text full_stack)

abbrev has_finished : Result (RunOutcome Text) → Bool
has_finished (ok o) = elim o.status [ finished ↦ true | infrastructure_failure ↦ false ]
has_finished (err e) = false

abbrev changed_ops : Ops Unit Text
changed_ops = record ops { git_status = λ w. (ok (codes " M src/a.py"), w) }

run_finishes : has_finished (run_body ops setting true (tt, [])).0 ≡ true
unfolding run_body codes list_beq strip condition id_text get_condition context_artifact
    memory_artifact validate_against_condition
run_finishes = refl

dirty_run_fails : has_finished (run_body changed_ops setting true (tt, [])).0 ≡ false
unfolding run_body codes list_beq strip condition id_text get_condition
dirty_run_fails = refl
