-- ===== src/Bundle/Tests.antt =====
-- A bundle's writers over a world that keeps still, and the theorems at them.
use mathlib.Core.List.{Perm}
use coding_agent_support.Base.{
  ◌≡◌, ◌↔◌, refl, List, map, length, decimal, sort_texts, text_ltb, insert_in_order, join, none,
  some, [], ◌∷◌, ◌++◌, Text, codes, lookup, list_eq, nat_eq, list_beq,
}
use coding_agent_support.Effects.{ok, OnOk}
use coding_agent_support.Condition.{full_stack, id_text}
use coding_agent_support.Bundle.{
  Writers, gate_policy_json, harness_policy_json, SupportBundle, SupportArtifact, bundle_hash,
  hash_part, layer_text, status_text, build_bundle, write_bundle, harness_policy_artifact,
  gate_policy_artifact,
}
use coding_agent_support.Bundle.Hash.{key, hashed, bundle_hash-iff_Perm}
use coding_agent_support.Bundle.Layers.{IsOf, build_bundle-IsOf}
use coding_agent_support.Bundle.Union.{IsUnion, build_bundle-IsUnion}

abbrev writers : Writers Unit
writers = record {
  hash_text = λ t. codes "h" ++ t;
  context_pack_v2 = λ w. (ok (codes "pack"), w);
  random_context_pack = λ w. (ok (codes "random"), w);
  repo_memory = λ w. (ok (codes "memory"), w);
}

abbrev full_text : Text
full_text = id_text full_stack

abbrev one_bundle : SupportBundle
one_bundle = record {
  task_id = codes "t";
  condition = full_text;
  artifacts = gate_policy_artifact writers ∷ harness_policy_artifact writers ∷ [];
}

written_policy :
    lookup (codes "gate_policy.json") (write_bundle writers (λ m. codes "dump") one_bundle [])
    ≡ some gate_policy_json
unfolding write_bundle gate_policy_artifact harness_policy_artifact gate_policy_json
    harness_policy_json codes list_beq
written_policy = refl

build_bundle-IsOf_example :
    OnOk (IsOf writers (codes "t") full_text) (build_bundle writers (codes "t") full_text none tt).0
build_bundle-IsOf_example = build_bundle-IsOf writers (codes "t") full_text none tt

build_bundle-IsUnion_example :
    IsUnion writers (codes "pack") (codes "memory") (λ w. refl) (λ w. refl) (codes "t") none tt
build_bundle-IsUnion_example =
    build_bundle-IsUnion writers (codes "pack") (codes "memory") (λ w. refl) (λ w. refl) (codes "t")
      none tt

-- a hash of one line, the length of the text
abbrev counting : Writers Unit
counting = record writers { hash_text = λ t. decimal (length t) }

abbrev two_artifacts : List SupportArtifact
two_artifacts = gate_policy_artifact counting ∷ harness_policy_artifact counting ∷ []

abbrev other_order : List SupportArtifact
other_order = harness_policy_artifact counting ∷ gate_policy_artifact counting ∷ []

bundle_hash-iff_Perm_example :
    (bundle_hash counting two_artifacts ≡ bundle_hash counting other_order)
    ↔ Perm (map key two_artifacts) (map key other_order)
unfolding gate_policy_artifact harness_policy_artifact gate_policy_json harness_policy_json codes
    decimal hashed sort_texts text_ltb insert_in_order hash_part layer_text status_text join
bundle_hash-iff_Perm_example =
    bundle_hash-iff_Perm counting two_artifacts other_order (refl, (refl, tt)) (refl, (refl, tt))
      (λ e. refl)
