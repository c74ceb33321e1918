-- ===== src/Bundle/Union.antt =====
-- The bundle of the full stack is the union of the single layers' bundles, and the minimal one is
-- empty.
use coding_agent_support.Base.{
  false, ◌≡◌, refl, Option, List, [], ◌∷◌, map, Text, codes, ◌==◌, list_beq, list_eq, nat_eq,
}
use coding_agent_support.Effects.{ok}
use coding_agent_support.Condition.{
  get_condition-id_text, condition, ConditionId, minimal, context_only, tests_only, gates_only,
  harness_only, memory_only, full_stack, id_text,
}
use coding_agent_support.Helper.{HelperTestArtifact}
use coding_agent_support.Bundle.{
  Layer, context, tests, gates, harness, memory, SupportArtifact, SupportBundle, Writers,
  layer_artifacts, build_bundle, context_artifact, memory_artifact, tests_artifact,
  gate_policy_artifact, harness_policy_artifact, present_artifact,
}
use coding_agent_support.Bundle.Layers.{build_bundle-IsValid, unvalidated}

-- the condition of one layer
unfoldable pub only : Layer → ConditionId
only context = context_only
only tests = tests_only
only gates = gates_only
only harness = harness_only
only memory = memory_only

module _ {W : Type 0} (writers : Writers W) (pack notes : Text)
    (packs : (w : W) → writers.context_pack_v2 w ≡ (ok pack, w))
    (remembers : (w : W) → writers.repo_memory w ≡ (ok notes, w)) where
  -- the artifact of each layer
  unfoldable pub part : Option HelperTestArtifact → Layer → SupportArtifact
  part helper context = present_artifact writers context (codes "context_pack.md") pack
  part helper tests = tests_artifact writers helper
  part helper gates = gate_policy_artifact writers
  part helper harness = harness_policy_artifact writers
  part helper memory = present_artifact writers memory (codes "repo_memory.md") notes

  unvalidated_artifacts :
      (task : Text) (k : ConditionId) (helper : Option HelperTestArtifact)
      (artifacts : List SupportArtifact) (w : W)
      → (id_text k == codes "C1_random") ≡ false
      → layer_artifacts writers false (condition k) helper w ≡ (ok artifacts, w)
      → build_bundle writers task (id_text k) helper w
        ≡ (ok (record { task_id = task; condition = id_text k; artifacts = artifacts }), w)
  unfolding unvalidated
  unvalidated_artifacts task k helper artifacts w e h =
      rw
        (
          build_bundle-IsValid writers task (id_text k) helper w,
          unvalidated,
          get_condition-id_text k,
          e,
          h,
        )
        refl

  single :
      (layer : Layer) (helper : Option HelperTestArtifact) (w : W)
      → layer_artifacts writers false (condition (only layer)) helper w
        ≡ (ok (part helper layer ∷ []), w)
  unfolding layer_artifacts part only condition context_artifact memory_artifact
  single context helper w = rw (packs w) refl
  single tests helper w = refl
  single gates helper w = refl
  single harness helper w = refl
  single memory helper w = rw (remembers w) refl

  all_layers :
      (helper : Option HelperTestArtifact) (w : W)
      → layer_artifacts writers false (condition full_stack) helper w
        ≡ (ok (map (part helper) (context ∷ tests ∷ gates ∷ harness ∷ memory ∷ [])), w)
  unfolding layer_artifacts part condition context_artifact memory_artifact
  all_layers helper w = rw (packs w, remembers w) refl

  no_layers :
      (helper : Option HelperTestArtifact) (w : W)
      → layer_artifacts writers false (condition minimal) helper w ≡ (ok [], w)
  unfolding layer_artifacts condition
  no_layers helper w = refl

  not_random : (k : Layer) → (id_text (only k) == codes "C1_random") ≡ false
  unfolding id_text only codes list_beq
  not_random context = refl
  not_random tests = refl
  not_random gates = refl
  not_random harness = refl
  not_random memory = refl

  full_not_random : (id_text full_stack == codes "C1_random") ≡ false
  unfolding id_text codes list_beq
  full_not_random = refl

  minimal_not_random : (id_text minimal == codes "C1_random") ≡ false
  unfolding id_text codes list_beq
  minimal_not_random = refl

  -- the bundle of a condition with these artifacts
  abbrev bundle_of : Text → ConditionId → List SupportArtifact → SupportBundle
  bundle_of task k artifacts = record {
    task_id = task;
    condition = id_text k;
    artifacts = artifacts;
  }

  pub record IsUnion (task : Text) (helper : Option HelperTestArtifact) (w : W) : Type 0 where
    pub none_minimal :
        build_bundle writers task (id_text minimal) helper w ≡ (ok (bundle_of task minimal []), w)
    pub one_each :
        (layer : Layer)
        → build_bundle writers task (id_text (only layer)) helper w
          ≡ (ok (bundle_of task (only layer) (part helper layer ∷ [])), w)
    pub all_full : build_bundle writers task (id_text full_stack) helper w ≡ (
      ok (
          bundle_of task full_stack
            (map (part helper) (context ∷ tests ∷ gates ∷ harness ∷ memory ∷ []))),
      w,
    )

  -- If the context pack and the memory come out alike whenever they are made, then the bundle of the
  -- minimal condition is empty, the bundle of the condition of each single layer holds one artifact,
  -- and the bundle of the full stack holds exactly these five artifacts, in the order of the layers.
  pub build_bundle-IsUnion :
      (task : Text) (helper : Option HelperTestArtifact) (w : W) → IsUnion task helper w
  build_bundle-IsUnion task helper w = record {
    none_minimal =
        unvalidated_artifacts task minimal helper [] w minimal_not_random (no_layers helper w);
    one_each = λ layer.
        unvalidated_artifacts task (only layer) helper (part helper layer ∷ []) w (not_random layer)
          (single layer helper w);
    all_full =
        unvalidated_artifacts task full_stack helper _ w full_not_random (all_layers helper w);
  }
