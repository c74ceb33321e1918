-- ===== src/Isolation/Tests.antt =====
-- The theorems at a task with a gold patch and at the confirmatory policy.
use coding_agent_support.Base.{◌≡◌, true, false, none, some, List, [], ◌∷◌, Text, codes}
use coding_agent_support.Effects.{ok, pure}
use coding_agent_support.Task.{TaskSpec}
use coding_agent_support.Task.Samples.{sample}
use coding_agent_support.Isolation.{Surface, apply_isolation}
use coding_agent_support.Isolation.Scrub.{scrubbed_task_dict, assert_no_forbidden_fields}
use coding_agent_support.Isolation.Sandbox.{confirmatory, build_sandbox_argv}
use coding_agent_support.Isolation.Blind.{
  with_hidden, apply_isolation-hidden, IsConfined, build_sandbox_argv-IsConfined,
}

abbrev surface : Surface (List Text)
surface = record {
  scrub = pure tt;
  write_scrubbed = λ d log. (ok tt, codes "scrubbed_task.json" ∷ log);
  write_manifest = λ m log. (ok tt, m.scrubbed_task_hash ∷ log);
  blob = λ d. codes "{}";
  sha256 = λ s. s;
  has_bwrap = false;
  has_unshare = false;
}

abbrev solved : TaskSpec
solved =
    with_hidden none none (some (codes "gold.patch")) none none none (codes "t.py::h" ∷ []) []
      sample.metadata sample

apply_isolation-hidden_example :
    (apply_isolation surface true confirmatory (codes "r") (codes "C0") solved []
      ≡ apply_isolation surface true confirmatory (codes "r") (codes "C0") sample [])
    × (assert_no_forbidden_fields (scrubbed_task_dict solved) ≡ ok tt)
apply_isolation-hidden_example =
    apply_isolation-hidden none none (some (codes "gold.patch")) none none none
      (codes "t.py::h" ∷ []) [] sample.metadata sample surface true confirmatory (codes "r")
      (codes "C0") []

build_sandbox_argv-IsConfined_example :
    IsConfined true false confirmatory
      (codes "ls" ∷ [])
      (build_sandbox_argv true false (λ path. true) (codes "ls" ∷ []) (codes "/w") confirmatory)
build_sandbox_argv-IsConfined_example =
    build_sandbox_argv-IsConfined (λ path. true) (codes "ls" ∷ []) (codes "/w") confirmatory true
      false
