-- ===== src/Run/Treatment.antt =====
-- The manipulation check of a run, over the bundle of its condition.
use coding_agent_support.Base.{
  ◌≡◌, refl, sym, ◌∙◌, subst, Bool, true, false, Option, none, some, Text, list_eq, nat_eq,
}
use coding_agent_support.Effects.{ok, ok-injective, OnOk, OnOk-map}
use coding_agent_support.Condition.{SupportCondition, get_condition}
use coding_agent_support.Helper.{HelperTestArtifact}
use coding_agent_support.Bundle.{
  Layer, context, gates, harness, memory, SupportArtifact, SupportBundle, Writers, build_bundle,
  artifact, is_present, present, Status,
}
use coding_agent_support.Bundle.Search.{IsFound, IsExact, IsUsable, flag}
use coding_agent_support.Bundle.Layers.{IsOf, build_bundle-IsOf}
use coding_agent_support.Run.{manipulation_check, has_layer, same_bool}

same_bool-of_found :
    (layer : Layer) (enabled : Bool) (o : Option SupportArtifact)
    → ((st : Status) → IsUsable layer st → st ≡ present)
    → IsFound layer enabled o
    → same_bool (elim o [ none ↦ false | some a ↦ is_present a.status ]) enabled ≡ true
same_bool-of_found layer enabled none u h = rw h refl
same_bool-of_found layer enabled (some a) u h = rw (h.0, u a.status h.2) refl

IsExact-passed :
    (run_id id : Text) (c : SupportCondition) (b : SupportBundle) (hash : Text)
    (network : Option Bool) (use_container : Bool)
    → IsExact c b
    → (manipulation_check run_id id c b hash network use_container).passed ≡ true
unfolding manipulation_check has_layer flag
IsExact-passed run_id id c b hash network use_container h =
    rw
      (
        same_bool-of_found context c.context (artifact context b) (λ st u. u) (h context),
        same_bool-of_found gates c.gates (artifact gates b) (λ st u. u) (h gates),
        same_bool-of_found harness c.harness (artifact harness b) (λ st u. u) (h harness),
        same_bool-of_found memory c.memory (artifact memory b) (λ st u. u) (h memory),
      )
      refl

module _ {W : Type 0} (writers : Writers W) where
  -- The manipulation check passes for every bundle that is built for its own condition, whatever the
  -- sandbox and the workspace are.
  pub build_bundle-passed :
      (run_id task id hash : Text) (helper : Option HelperTestArtifact) (network : Option Bool)
      (use_container : Bool) (w : W) (c : SupportCondition)
      → get_condition id ≡ ok c
      → OnOk
          (λ b. (manipulation_check run_id id c b hash network use_container).passed ≡ true)
          (build_bundle writers task id helper w).0
  build_bundle-passed run_id task id hash helper network use_container w c known =
      OnOk-map (IsOf writers task id) _ (build_bundle writers task id helper w).0
        (λ b h.
          IsExact-passed run_id id c b hash network use_container
            (subst (λ d. IsExact d b) (ok-injective (sym h.known ∙ known)) h.exact))
        (build_bundle-IsOf writers task id helper w)
