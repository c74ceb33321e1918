-- ===== src/Condition.antt =====
-- se_support/support/condition.py: the support conditions of the experiment.
use coding_agent_support.Base.{
  Bool, ◌∙◌, inl, inr, sym, Bool-cases, ==_iff, true, false, ◌&&◌, List, [], ◌∷◌, Text, codes, ◌==◌,
  list_eq, nat_eq, ◌≡◌, refl, list_beq,
}
use coding_agent_support.Effects.{Result, ok, ok-injective, err, key_error}

pub record SupportCondition : Type 0 where
  pub id : Text
  pub context : Bool
  pub tests : Bool
  pub gates : Bool
  pub harness : Bool
  pub memory : Bool

unfoldable pub is_full_stack : SupportCondition → Bool
is_full_stack c = c.context && c.tests && c.gates && c.harness && c.memory

-- `SupportCondition(id)`, with no support
abbrev pub bare : Text → SupportCondition
bare id = record {
  id = id;
  context = false;
  tests = false;
  gates = false;
  harness = false;
  memory = false;
}

-- the ids of `CONDITIONS`, in its order
pub data ConditionId : Type 0 where
  minimal context_only tests_only gates_only harness_only memory_only : ConditionId
  full_stack full_minus_harness tests_and_gates random_context : ConditionId

unfoldable pub id_text : ConditionId → Text
id_text minimal = codes "C0_minimal"
id_text context_only = codes "C1_context"
id_text tests_only = codes "C2_tests"
id_text gates_only = codes "C3_gates"
id_text harness_only = codes "C4_harness"
id_text memory_only = codes "C5_memory"
id_text full_stack = codes "C6_full_stack"
id_text full_minus_harness = codes "C6_minus_C4"
id_text tests_and_gates = codes "C2_C3"
id_text random_context = codes "C1_random"

-- `CONDITIONS[id]`
unfoldable pub condition : ConditionId → SupportCondition
condition minimal = bare (id_text minimal)
condition context_only = record (bare (id_text context_only)) { context = true }
condition tests_only = record (bare (id_text tests_only)) { tests = true }
condition gates_only = record (bare (id_text gates_only)) { gates = true }
condition harness_only = record (bare (id_text harness_only)) { harness = true }
condition memory_only = record (bare (id_text memory_only)) { memory = true }
condition full_stack = record (bare (id_text full_stack)) {
  context = true;
  tests = true;
  gates = true;
  harness = true;
  memory = true;
}
condition full_minus_harness = record (bare (id_text full_minus_harness)) {
  context = true;
  tests = true;
  gates = true;
  memory = true;
}
condition tests_and_gates = record (bare (id_text tests_and_gates)) { tests = true; gates = true }
condition random_context = record (bare (id_text random_context)) { context = true }

abbrev pub condition_ids : List ConditionId
condition_ids =
    minimal ∷ context_only ∷ tests_only ∷ gates_only ∷ harness_only ∷ memory_only ∷ full_stack
    ∷ full_minus_harness ∷ tests_and_gates ∷ random_context ∷ []

-- the lookup in the dict
find_condition : Text → List ConditionId → Result SupportCondition
find_condition id [] = err key_error
find_condition id (c ∷ cs) = elim (id_text c == id) [
  | true ↦ ok (condition c)
  | false ↦ find_condition id cs
]

unfoldable pub get_condition : Text → Result SupportCondition
unfolding find_condition
get_condition id = find_condition id condition_ids

pub get_condition-id_text : (c : ConditionId) → get_condition (id_text c) ≡ ok (condition c)
unfolding get_condition id_text codes list_beq
get_condition-id_text minimal = refl
get_condition-id_text context_only = refl
get_condition-id_text tests_only = refl
get_condition-id_text gates_only = refl
get_condition-id_text harness_only = refl
get_condition-id_text memory_only = refl
get_condition-id_text full_stack = refl
get_condition-id_text full_minus_harness = refl
get_condition-id_text tests_and_gates = refl
get_condition-id_text random_context = refl

find_condition-here :
    (id : Text) (k : ConditionId) (ks : List ConditionId)
    → id_text k == id ≡ true
    → find_condition id (k ∷ ks) ≡ ok (condition k)
unfolding find_condition
find_condition-here id k ks e = rw (e, find_condition) refl

find_condition-later :
    (id : Text) (k : ConditionId) (ks : List ConditionId)
    → id_text k == id ≡ false
    → find_condition id (k ∷ ks) ≡ find_condition id ks
unfolding find_condition
find_condition-later id k ks e = rw (e, find_condition) refl

find_condition-ok :
    (id : Text) {c : SupportCondition} (ks : List ConditionId)
    → find_condition id ks ≡ ok c
    → (k : ConditionId) × (id ≡ id_text k) × (c ≡ condition k)
unfolding find_condition
find_condition-ok id [] h = cc
find_condition-ok id (k ∷ ks) h = elim (Bool-cases (id_text k == id)) [
  | inl e ↦
      (k, sym ((==_iff (id_text k) id).0 e), ok-injective (sym h ∙ find_condition-here id k ks e))
  | inr e ↦ find_condition-ok id ks (sym (find_condition-later id k ks e) ∙ h)
]

-- whatever is found is one of the conditions, under its own id
pub get_condition-IsKnown :
    (id : Text) {c : SupportCondition}
    → get_condition id ≡ ok c
    → (k : ConditionId) × (id ≡ id_text k) × (c ≡ condition k)
unfolding get_condition
get_condition-IsKnown id h = find_condition-ok id condition_ids h
