-- ===== src/Bundle/Layers.antt =====
-- A bundle holds exactly the layers that its condition enables.
use coding_agent_support.Base.{
  Bool, true, false, ◌≡◌, inl, inr, refl, Bool-cases, Option, none, some, List, [], ◌++◌, Text,
  codes, if◌then◌else◌, ◌==◌, list_eq, nat_eq, arith,
}
use coding_agent_support.Effects.{
  Eff, ok, OnOk, OnOk-bind, OnOk-then, OnOk-trivial, OnOk-self, bind-cong, lift, pure, ◌>>=◌,
}
use coding_agent_support.Condition.{SupportCondition, get_condition}
use coding_agent_support.Helper.{HelperTestArtifact, is_confirmatory}
use coding_agent_support.Bundle.{
  Status, is_absent, Layer, context, tests, gates, harness, memory, SupportArtifact, SupportBundle,
  find_artifact, artifact, Writers, layer_artifacts, build_bundle, validate_against_condition,
  check_layer, check_found, context_artifact, memory_artifact, tests_artifact, gate_policy_artifact,
  harness_policy_artifact, when,
}
use coding_agent_support.Bundle.Search.{
  IsUsable, flag, IsFound, IsExact, Part, find-Part, find-skip, find-none,
}

IsUsable-ne_absent : (layer : Layer) (st : Status) → IsUsable layer st → is_absent st ≡ false
IsUsable-ne_absent context st h = ground arith
IsUsable-ne_absent tests st h = ground arith
IsUsable-ne_absent gates st h = ground arith
IsUsable-ne_absent harness st h = ground arith
IsUsable-ne_absent memory st h = ground arith

check_found-ok :
    (layer : Layer) (enabled : Bool) (o : Option SupportArtifact)
    → IsFound layer enabled o
    → check_found enabled o ≡ ok tt
unfolding check_found
check_found-ok layer true none h = cc
check_found-ok layer true (some a) h = rw (IsUsable-ne_absent layer a.status h.2) refl
check_found-ok layer false none h = refl
check_found-ok layer false (some a) h = cc

module _ {W : Type 0} (writers : Writers W) where
  when-Part :
      (layer : Layer) (enabled : Bool) (make : Eff W SupportArtifact) (w : W)
      → OnOk (λ a. (a.layer ≡ layer) × IsUsable layer a.status) (make w).0
      → OnOk (Part layer enabled) (when writers enabled make w).0
  unfolding Part
  when-Part layer true make w h =
      OnOk-bind (λ a. (a.layer ≡ layer) × IsUsable layer a.status) (Part layer true) make _ w h
        λ a w' p. (refl, p.0, p.1)
  when-Part layer false make w h = refl

  validate-IsExact :
      (c : SupportCondition) (b : SupportBundle) (w : W)
      → IsExact c b
      → validate_against_condition writers c b w ≡ (ok tt, w)
  unfolding validate_against_condition check_layer flag
  validate-IsExact c b w h =
      rw
        (
          check_found-ok context c.context _ (h context),
          check_found-ok tests c.tests _ (h tests),
          check_found-ok gates c.gates _ (h gates),
          check_found-ok harness c.harness _ (h harness),
          check_found-ok memory c.memory _ (h memory),
        )
        refl

  -- the lists of the five layers, joined
  joined-IsExact :
      (c : SupportCondition) (task id : Text) (one two three four five : List SupportArtifact)
      → Part context c.context one
      → Part tests c.tests two
      → Part gates c.gates three
      → Part harness c.harness four
      → Part memory c.memory five
      → IsExact c (record {
        task_id = task;
        condition = id;
        artifacts = one ++ (two ++ (three ++ (four ++ (five ++ []))));
      })
  unfolding artifact flag find_artifact
  joined-IsExact c task id one two three four five p1 p2 p3 p4 p5 context =
      find-Part context c.context one _ p1 (
        find-none context tests c.tests two _ refl p2 (
          find-none context gates c.gates three _ refl p3 (
            find-none context harness c.harness four _ refl p4
              (find-none context memory c.memory five _ refl p5 refl))))
  joined-IsExact c task id one two three four five p1 p2 p3 p4 p5 tests =
      find-skip tests context c.context c.tests one _ refl p1 (
        find-Part tests c.tests two _ p2 (
          find-none tests gates c.gates three _ refl p3 (
            find-none tests harness c.harness four _ refl p4
              (find-none tests memory c.memory five _ refl p5 refl))))
  joined-IsExact c task id one two three four five p1 p2 p3 p4 p5 gates =
      find-skip gates context c.context c.gates one _ refl p1 (
        find-skip gates tests c.tests c.gates two _ refl p2 (
          find-Part gates c.gates three _ p3 (
            find-none gates harness c.harness four _ refl p4
              (find-none gates memory c.memory five _ refl p5 refl))))
  joined-IsExact c task id one two three four five p1 p2 p3 p4 p5 harness =
      find-skip harness context c.context c.harness one _ refl p1 (
        find-skip harness tests c.tests c.harness two _ refl p2 (
          find-skip harness gates c.gates c.harness three _ refl p3 (
            find-Part harness c.harness four _ p4
              (find-none harness memory c.memory five _ refl p5 refl))))
  joined-IsExact c task id one two three four five p1 p2 p3 p4 p5 memory =
      find-skip memory context c.context c.memory one _ refl p1 (
        find-skip memory tests c.tests c.memory two _ refl p2 (
          find-skip memory gates c.gates c.memory three _ refl p3 (
            find-skip memory harness c.harness c.memory four _ refl p4
              (find-Part memory c.memory five _ p5 refl))))

  context-made :
      (random : Bool) (w : W)
      → OnOk
          (λ a. (a.layer ≡ context) × IsUsable context a.status)
          (context_artifact writers random w).0
  unfolding context_artifact
  context-made random w =
      OnOk-then (λ a. (a.layer ≡ context) × IsUsable context a.status)
        (if random then writers.random_context_pack else writers.context_pack_v2) _ w
        λ content w'. (refl, refl)

  memory-made :
      (w : W)
      → OnOk (λ a. (a.layer ≡ memory) × IsUsable memory a.status) (memory_artifact writers w).0
  unfolding memory_artifact
  memory-made w =
      OnOk-then (λ a. (a.layer ≡ memory) × IsUsable memory a.status) writers.repo_memory _ w
        λ content w'. (refl, refl)

  tests-made :
      (helper : Option HelperTestArtifact)
      → ((tests_artifact writers helper).layer ≡ tests)
        × IsUsable tests (tests_artifact writers helper).status
  unfolding tests_artifact
  tests-made none = (refl, λ h. cc)
  tests-made (some helper) = elim (Bool-cases (is_confirmatory helper.classification)) [
    | inl e ↦ rw e (refl, λ h. cc)
    | inr e ↦ rw e (refl, λ h. cc)
  ]

  layer_artifacts-IsExact :
      (random : Bool) (c : SupportCondition) (helper : Option HelperTestArtifact) (task id : Text)
      (w : W)
      → OnOk
          (λ artifacts.
            IsExact c (record { task_id = task; condition = id; artifacts = artifacts }))
          (layer_artifacts writers random c helper w).0
  unfolding layer_artifacts gate_policy_artifact harness_policy_artifact
  layer_artifacts-IsExact random c helper task id w =
      OnOk-bind (Part context c.context) _
        (when writers c.context (context_artifact writers random)) _ w
        (when-Part context c.context (context_artifact writers random) w (context-made random w))
        λ one w1 p1.
          OnOk-bind (Part tests c.tests) _
            (when writers c.tests (pure (tests_artifact writers helper))) _ w1
            (when-Part tests c.tests (pure (tests_artifact writers helper)) w1 (tests-made helper))
            λ two w2 p2.
              OnOk-bind (Part gates c.gates) _
                (when writers c.gates (pure (gate_policy_artifact writers))) _ w2
                (when-Part gates c.gates (pure (gate_policy_artifact writers)) w2 (refl, refl))
                λ three w3 p3.
                  OnOk-bind (Part harness c.harness) _
                    (when writers c.harness (pure (harness_policy_artifact writers))) _ w3
                    (when-Part harness c.harness (pure (harness_policy_artifact writers)) w3
                      (refl, refl))
                    λ four w4 p4.
                      OnOk-bind (Part memory c.memory) _
                        (when writers c.memory (memory_artifact writers)) _ w4
                        (when-Part memory c.memory (memory_artifact writers) w4 (memory-made w4))
                        λ five w5 p5.
                          joined-IsExact c task id one two three four five p1 p2 p3 p4 p5

  -- what is promised of a bundle
  pub record IsOf (task id : Text) (b : SupportBundle) : Type 0 where
    pub found_condition : SupportCondition
    pub known : get_condition id ≡ ok found_condition
    pub exact : IsExact found_condition b
    pub named : (b.task_id ≡ task) × (b.condition ≡ id)

  -- A bundle that is built is of its task and its condition id, which is known, and holds an
  -- artifact of a layer exactly if the condition has the layer's flag; the artifact is then present,
  -- but for that of the tests, which may be declared as unimplemented.
  pub build_bundle-IsOf :
      (task id : Text) (helper : Option HelperTestArtifact) (w : W)
      → OnOk (IsOf task id) (build_bundle writers task id helper w).0
  unfolding build_bundle
  build_bundle-IsOf task id helper w =
      OnOk-bind (λ c. get_condition id ≡ ok c) (IsOf task id) (lift (get_condition id)) _ w
        (OnOk-self (get_condition id))
        λ c w' known.
          OnOk-bind _ (IsOf task id) (layer_artifacts writers (id == codes "C1_random") c helper) _
            w' (layer_artifacts-IsExact (id == codes "C1_random") c helper task id w')
            λ artifacts v exact.
              OnOk-then (IsOf task id) (validate_against_condition writers c _) _ v λ done v'.
                record { found_condition = c; known = known; exact = exact; named = (refl, refl) }

  -- the bundle without its validation
  unfoldable pub unvalidated : Text → Text → Option HelperTestArtifact → Eff W SupportBundle
  unvalidated task id helper = do
    c ← lift (get_condition id)
    artifacts ← layer_artifacts writers (id == codes "C1_random") c helper
    pure (record { task_id = task; condition = id; artifacts = artifacts })

  -- The validation against the condition refuses no bundle that is built: with it and without it
  -- the result and the state of the world are the same.
  pub build_bundle-IsValid :
      (task id : Text) (helper : Option HelperTestArtifact) (w : W)
      → build_bundle writers task id helper w ≡ unvalidated task id helper w
  unfolding build_bundle unvalidated
  build_bundle-IsValid task id helper w =
      bind-cong (λ c. Unit {0}) (lift (get_condition id)) _ _ w (OnOk-trivial (get_condition id))
        λ c w' _.
          bind-cong _ (layer_artifacts writers (id == codes "C1_random") c helper) _ _ w'
            (layer_artifacts-IsExact (id == codes "C1_random") c helper task id w')
            λ artifacts v exact.
              rw
                (validate-IsExact c
                  (record { task_id = task; condition = id; artifacts = artifacts }) v exact)
                refl
