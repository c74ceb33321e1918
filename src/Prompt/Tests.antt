-- ===== src/Prompt/Tests.antt =====
-- The prompt of the harness condition.
use coding_agent_support.Base.{none, codes}
use coding_agent_support.Effects.{pure, OnOk}
use coding_agent_support.Task.Samples.{sample}
use coding_agent_support.Bundle.{Writers, build_bundle}
use coding_agent_support.Prompt.{Inline}
use coding_agent_support.Prompt.Frozen.{IsFrozen, build_system_prompt-IsFrozen}

abbrev writers : Writers (Unit {0})
writers = record {
  hash_text = λ s. s;
  context_pack_v2 = pure (codes "files");
  random_context_pack = pure (codes "other files");
  repo_memory = pure (codes "memory");
}

abbrev inline : Inline (Unit {0})
inline = record {
  build_context_pack = λ task. pure (codes "inline files");
  build_memory = λ task. pure (codes "inline memory");
}

build_system_prompt-IsFrozen_example :
    OnOk
      (IsFrozen inline sample (codes "C6_full_stack") tt)
      (build_bundle writers (codes "t") (codes "C6_full_stack") none tt).0
build_system_prompt-IsFrozen_example =
    build_system_prompt-IsFrozen writers inline sample (codes "t") (codes "C6_full_stack") none tt
      tt
