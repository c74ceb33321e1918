-- ===== src/Prompt/Frozen.antt =====
-- The prompt over a bundle that was built for the condition.
use coding_agent_support.Base.{
  Bool, true, false, ◌≡◌, refl, Option, none, some, List, [], ◌∷◌, ◌++◌, Text, codes, join,
  if◌then◌else◌,
}
use coding_agent_support.Effects.{Eff, ok, OnOk, OnOk-map}
use coding_agent_support.Task.{TaskSpec}
use coding_agent_support.Condition.{SupportCondition, get_condition}
use coding_agent_support.Helper.{HelperTestArtifact}
use coding_agent_support.Bundle.{
  Layer, context, tests, harness, memory, SupportArtifact, SupportBundle, artifact, Writers,
  build_bundle,
}
use coding_agent_support.Bundle.Search.{IsFound, IsExact, flag}
use coding_agent_support.Bundle.Layers.{IsOf, build_bundle-IsOf}
use coding_agent_support.Prompt.{
  base_prompt, harness_rules, issue_part, test_parts, found_in, Inline, content_or, parts_if,
  build_system_prompt,
}

-- the part of an artifact that is shown as it is
abbrev pub content_parts : Option SupportArtifact → List Text
content_parts none = []
content_parts (some a) = (codes "\n" ++ a.content) ∷ []

abbrev pub rule_parts : Option SupportArtifact → List Text
rule_parts none = []
rule_parts (some a) = harness_rules ∷ []

-- the prompt that a task and a bundle make, whatever the condition
abbrev pub frozen_prompt : TaskSpec → SupportBundle → Text
frozen_prompt task b = join (codes "\n") (
    (base_prompt ∷ issue_part task ∷ [])
    ++ (content_parts (artifact context b)
        ++ (content_parts (artifact memory b)
            ++ (test_parts (artifact tests b) ++ rule_parts (artifact harness b)))))

content-frozen :
    {W : Type 0} (layer : Layer) (enabled : Bool) (o : Option SupportArtifact) (make : Eff W Text)
    (w : W)
    → IsFound layer enabled o
    → parts_if enabled (content_or make o) w ≡ (ok (content_parts o), w)
unfolding content_or
content-frozen layer true none make w h = cc
content-frozen layer true (some a) make w h = refl
content-frozen layer false none make w h = refl
content-frozen layer false (some a) make w h = cc

tests-frozen :
    (layer : Layer) (enabled : Bool) (o : Option SupportArtifact)
    → IsFound layer enabled o
    → (if enabled then test_parts o else []) ≡ test_parts o
unfolding test_parts
tests-frozen layer true o h = refl
tests-frozen layer false none h = refl
tests-frozen layer false (some a) h = cc

rules-frozen :
    (layer : Layer) (enabled : Bool) (o : Option SupportArtifact)
    → IsFound layer enabled o
    → (if enabled then harness_rules ∷ [] else []) ≡ rule_parts o
rules-frozen layer true none h = cc
rules-frozen layer true (some a) h = refl
rules-frozen layer false none h = refl
rules-frozen layer false (some a) h = cc

build_system_prompt-frozen :
    {W : Type 0} (inline : Inline W) (task : TaskSpec) (c : SupportCondition) (b : SupportBundle)
    (w : W)
    → IsExact c b
    → build_system_prompt inline task c (some b) w ≡ (ok (frozen_prompt task b), w)
unfolding build_system_prompt found_in flag
build_system_prompt-frozen inline task c b w h =
    rw
      (
        content-frozen context c.context (artifact context b) (inline.build_context_pack task) w
            (h context),
        content-frozen memory c.memory (artifact memory b) (inline.build_memory task) w (h memory),
        tests-frozen tests c.tests (artifact tests b) (h tests),
        rules-frozen harness c.harness (artifact harness b) (h harness),
      )
      refl

-- the prompt over the bundle is the frozen one and made without a call
abbrev pub IsFrozen : {W : Type 0} → Inline W → TaskSpec → Text → W → SupportBundle → Type 0
IsFrozen inline task id v b =
    (c : SupportCondition) × (get_condition id ≡ ok c)
    × (build_system_prompt inline task c (some b) v ≡ (ok (frozen_prompt task b), v))

-- Over a bundle that was built for a condition, whatever the task, the workspace and the writers of
-- context packs and memories: the condition's prompt is the base prompt and the issue, then the
-- contents of the bundle's context and memory, its helper test and, if it has a harness artifact, the
-- rules of the workflow. It is the bundle's alone, and nothing is generated beside the bundle.
pub build_system_prompt-IsFrozen :
    {W : Type 0} (writers : Writers W) (inline : Inline W) (task : TaskSpec) (task_id id : Text)
    (helper : Option HelperTestArtifact) (w v : W)
    → OnOk (IsFrozen inline task id v) (build_bundle writers task_id id helper w).0
build_system_prompt-IsFrozen writers inline task task_id id helper w v =
    OnOk-map (IsOf writers task_id id) (IsFrozen inline task id v) _
      (λ b of. (
        of.found_condition,
        of.known,
        build_system_prompt-frozen inline task of.found_condition b v of.exact,
      ))
      (build_bundle-IsOf writers task_id id helper w)
