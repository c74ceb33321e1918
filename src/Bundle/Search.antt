-- ===== src/Bundle/Search.antt =====
-- Looking for the artifact of a layer in the lists of artifacts that the layers give.
use coding_agent_support.Base.{
  Bool, true, false, ◌≡◌, ◌≢◌, refl, ◌∙◌, sym, subst, Option, none, some, List, [], ◌∷◌, ◌++◌,
  list_eq, nat_eq,
}
use coding_agent_support.Condition.{SupportCondition}
use coding_agent_support.Bundle.{
  Status, present, absent, Layer, context, tests, gates, harness, memory, same_layer, absent,
  SupportArtifact, SupportBundle, find_artifact, artifact,
}

unfoldable pub flag : SupportCondition → Layer → Bool
flag c context = c.context
flag c tests = c.tests
flag c gates = c.gates
flag c harness = c.harness
flag c memory = c.memory

-- An enabled layer is present; that of the tests may be declared as unimplemented.
abbrev pub IsUsable : Layer → Status → Type 0
IsUsable context st = st ≡ present
IsUsable tests st = st ≢ absent
IsUsable gates st = st ≡ present
IsUsable harness st = st ≡ present
IsUsable memory st = st ≡ present

-- what may be found of a layer with its flag
abbrev pub IsFound : Layer → Bool → Option SupportArtifact → Type 0
IsFound layer enabled none = enabled ≡ false
IsFound layer enabled (some a) = (enabled ≡ true) × (a.layer ≡ layer) × IsUsable layer a.status

-- each layer is there, and usable, exactly if its flag is set
abbrev pub IsExact : SupportCondition → SupportBundle → Type 0
IsExact c b = (layer : Layer) → IsFound layer (flag c layer) (artifact layer b)

-- the artifacts of one layer
unfoldable pub Part : Layer → Bool → List SupportArtifact → Type 0
Part layer enabled [] = enabled ≡ false
Part layer enabled (a ∷ []) = (enabled ≡ true) × (a.layer ≡ layer) × IsUsable layer a.status
Part layer enabled (a ∷ b ∷ more) = (true ≡ false)

pub same_layer_refl : (layer : Layer) → same_layer layer layer ≡ true
same_layer_refl context = refl
same_layer_refl tests = refl
same_layer_refl gates = refl
same_layer_refl harness = refl
same_layer_refl memory = refl

pub same_layer-of_eq : (a b : Layer) → a ≡ b → same_layer a b ≡ true
same_layer-of_eq a b e = rw e (same_layer_refl b)

pub found :
    (a : SupportArtifact) (layer : Layer) (rest : List SupportArtifact)
    → a.layer ≡ layer
    → find_artifact layer (a ∷ rest) ≡ some a
unfolding find_artifact
found a layer rest e = rw (same_layer-of_eq a.layer layer e, find_artifact) refl

pub passed :
    (a : SupportArtifact) (layer : Layer) (rest : List SupportArtifact)
    → same_layer a.layer layer ≡ false
    → find_artifact layer (a ∷ rest) ≡ find_artifact layer rest
unfolding find_artifact
passed a layer rest e = rw (e, find_artifact) refl

pub find-Part :
    (layer : Layer) (enabled : Bool) (one rest : List SupportArtifact)
    → Part layer enabled one
    → find_artifact layer rest ≡ none
    → IsFound layer enabled (find_artifact layer (one ++ rest))
unfolding find_artifact Part
find-Part layer enabled [] rest p h = rw h p
find-Part layer enabled (a ∷ []) rest p h = rw (found a layer rest p.1) p
find-Part layer enabled (a ∷ b ∷ more) rest p h = cc

pub find-other :
    (layer other : Layer) (enabled : Bool) (one rest : List SupportArtifact)
    → same_layer other layer ≡ false
    → Part other enabled one
    → find_artifact layer (one ++ rest) ≡ find_artifact layer rest
unfolding find_artifact Part
find-other layer other enabled [] rest ne p = refl
find-other layer other enabled (a ∷ []) rest ne p = passed a layer rest (rw p.1 ne)
find-other layer other enabled (a ∷ b ∷ more) rest ne p = cc

pub find-none :
    (layer other : Layer) (enabled : Bool) (one rest : List SupportArtifact)
    → same_layer other layer ≡ false
    → Part other enabled one
    → find_artifact layer rest ≡ none
    → find_artifact layer (one ++ rest) ≡ none
find-none layer other enabled one rest ne p h = find-other layer other enabled one rest ne p ∙ h

pub find-skip :
    (layer other : Layer) (enabled flagged : Bool) (one rest : List SupportArtifact)
    → same_layer other layer ≡ false
    → Part other enabled one
    → IsFound layer flagged (find_artifact layer rest)
    → IsFound layer flagged (find_artifact layer (one ++ rest))
find-skip layer other enabled flagged one rest ne p h =
    subst (IsFound layer flagged) (sym (find-other layer other enabled one rest ne p)) h
