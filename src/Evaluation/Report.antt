-- ===== src/Evaluation/Report.antt =====
-- se_support/evaluation/swebench_eval.py: the result in a report of the SWE-bench harness.
use coding_agent_support.Base.{ℕ, ◌+◌, Bool, false, none, some, Text, codes, if◌then◌else◌}
use coding_agent_support.Effects.{Eff, pure, lift, ◌>>=◌}
use coding_agent_support.Json.{Json, bool, arr, obj, nil, end, json_get, json_len, json_in, truthy}
use coding_agent_support.Run.{EvalResult}

-- the counts of one kind of tests
unfoldable pub report_counts : {W : Type 0} → Json → Eff W (ℕ × ℕ)
unfolding json_get json_len
report_counts part = do
  success ← lift (json_get (codes "success") (arr nil) part)
  passed ← lift (json_len success)
  failure ← lift (json_get (codes "failure") (arr nil) part)
  failed ← lift (json_len failure)
  pure (passed, passed + failed)

unfoldable pub report_result : Text → Bool → Bool → ℕ × ℕ → ℕ × ℕ → EvalResult
report_result run_id resolved applied f2p p2p = record {
  run_id = run_id;
  patch_applies = applied;
  build_success = applied;
  fail_to_pass_passed = f2p.0;
  fail_to_pass_total = f2p.1;
  pass_to_pass_passed = p2p.0;
  pass_to_pass_total = p2p.1;
  resolved = resolved;
  full_tests_status = some (if resolved then codes "pass" else codes "fail");
  gate_results_path = none;
  eval_log_path = none;
}

-- `_eval_from_report`
unfoldable pub eval_from_report : {W : Type 0} → Json → Text → Text → Eff W EvalResult
unfolding json_get json_in truthy report_counts report_result
eval_from_report report instance_id run_id = do
  inst ← lift (json_get instance_id report report)
  resolved_ids ← lift (json_get (codes "resolved_ids") (arr nil) report)
  listed ← lift (json_in instance_id resolved_ids)
  resolved ← lift (json_get (codes "resolved") (bool listed) inst)
  applied ← lift (json_get (codes "patch_successfully_applied") (bool false) inst)
  status ← lift (json_get (codes "tests_status") (obj end) inst)
  f2p ← lift (json_get (codes "FAIL_TO_PASS") (obj end) status)
  p2p ← lift (json_get (codes "PASS_TO_PASS") (obj end) status)
  f2p_counts ← report_counts f2p
  p2p_counts ← report_counts p2p
  pure (report_result run_id (truthy resolved) (truthy applied) f2p_counts p2p_counts)
