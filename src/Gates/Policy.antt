-- ===== src/Gates/Policy.antt =====
-- se_support/support/gate_policy.py: the policies, the results of gates, and the feedback.
use coding_agent_support.Base.{
  ℕ, Bool, not, ◌&&◌, Option, List, [], ◌∷◌, ◌++◌, map, Text, codes, String, join, take, filter,
  ◌==◌, list_eq, nat_eq,
}
use coding_agent_support.Base.Integers.{ℤ}

-- se_support/config.py
unfoldable pub condition_version : Text
condition_version = codes "0.2.0"

unfoldable pub blocking : Text
blocking = codes "blocking"

unfoldable pub advisory : Text
advisory = codes "advisory"

pub record GateSpec : Type 0 where
  pub name : Text
  pub kind : Text
  pub runner : Text

pub record GatePolicy : Type 0 where
  pub version : Text
  pub revision_budget : ℕ
  pub gates : List GateSpec

-- a gate whose runner has its name
abbrev pub gate : String → Text → GateSpec
gate name kind = record { name = codes name; kind = kind; runner = codes name }

-- `GatePolicy()`
unfoldable pub gate_policy : GatePolicy
gate_policy = record {
  version = codes "c3/" ++ condition_version;
  revision_budget = 3;
  gates = gate "compileall" blocking ∷ gate "ruff" advisory ∷ gate "bandit" advisory ∷ [];
}

unfoldable pub gate_policy_v2 : GatePolicy
gate_policy_v2 = record {
  version = codes "c3v2/" ++ condition_version;
  revision_budget = 3;
  gates =
      gate "compileall" blocking
      ∷ gate "import" blocking
      ∷ gate "targeted_tests" blocking
      ∷ gate "ruff" advisory
      ∷ gate "flake8" advisory
      ∷ gate "mypy" advisory
      ∷ [];
}

pub record GateResult : Type 0 where
  pub name : Text
  pub kind : Text
  pub passed : Bool
  pub warning_count : ℤ  -- -1: unavailable
  pub new_warnings : Option ℤ
  pub status : Text
  pub preview : Text

unfoldable pub is_blocking_failure : GateResult → Bool
is_blocking_failure r = r.kind == blocking && not r.passed

unfoldable pub blocking_failures : List GateResult → List GateResult
blocking_failures results = filter is_blocking_failure results

unfoldable pub format_feedback : List GateResult → Text
format_feedback failures = join (codes "\n") (
    codes "Blocking gate(s) failed; fix before submitting:"
    ∷ map (λ f. codes "- " ++ f.name ++ codes ": " ++ take 300 f.preview) failures)
