-- ===== src/Bundle/Hash.antt =====
-- What the hash of a bundle identifies: its artifacts up to their order.
use mathlib.Core.Logic.{∥∥₁_map}
use mathlib.Core.List.{Perm}
use mathlib.Core.List.Perm
use mathlib.Core.List.Permᴰ
use coding_agent_support.Base.{
  ap₂, suc, false, ◌≡◌, ◌↔◌, refl, sym, ap, subst, List, [], ◌∷◌, ◌++◌, map, Text, codes,
  starts_with, drop, length, join, sort_texts, IsLine, join-injective, contains-append,
  sort_texts-perm, perm-sort_texts, All, All-sort_texts, contains, is_empty, if◌then◌else◌, list_eq,
  nat_eq,
}
use coding_agent_support.Bundle.{
  Status, present, absent, declared_unimplemented, Layer, context, tests, gates, harness, memory,
  layer_text, status_text, or_empty, SupportArtifact, hash_part, Writers, bundle_hash,
}

-- what the manifest says of one artifact, a missing hash as the empty text
abbrev pub key : SupportArtifact → Layer × Status × Text
key a = (a.layer, a.status, or_empty a.hash)

-- the key that a part spells
layer_of : Text → Layer
layer_of t =
    if starts_with t (codes "context:")
    then context
    else if starts_with t (codes "tests:")
    then tests
    else if starts_with t (codes "gates:")
    then gates
    else if starts_with t (codes "harness:")
    then harness
    else memory

status_of : Text → Status
status_of t =
    if starts_with t (codes "present:")
    then present
    else if starts_with t (codes "absent:")
    then absent
    else declared_unimplemented

behind_status : Layer → Text → Layer × Status × Text
unfolding status_of
behind_status l t = (l, status_of t, drop (suc (length (status_text (status_of t)))) t)

key_of : Text → Layer × Status × Text
unfolding layer_of behind_status
key_of t = behind_status (layer_of t) (drop (suc (length (layer_text (layer_of t)))) t)

-- a part, spelled from its three pieces
spelled : Layer → Status → Text → Text
unfolding layer_text status_text
spelled l s h = layer_text l ++ codes ":" ++ status_text s ++ codes ":" ++ h

key_of-spelled : (l : Layer) (s : Status) (h : Text) → key_of (spelled l s h) ≡ (l, s, h)
unfolding spelled key_of layer_text status_text layer_of status_of behind_status codes starts_with
key_of-spelled context present h = refl
key_of-spelled context absent h = refl
key_of-spelled context declared_unimplemented h = refl
key_of-spelled tests present h = refl
key_of-spelled tests absent h = refl
key_of-spelled tests declared_unimplemented h = refl
key_of-spelled gates present h = refl
key_of-spelled gates absent h = refl
key_of-spelled gates declared_unimplemented h = refl
key_of-spelled harness present h = refl
key_of-spelled harness absent h = refl
key_of-spelled harness declared_unimplemented h = refl
key_of-spelled memory present h = refl
key_of-spelled memory absent h = refl
key_of-spelled memory declared_unimplemented h = refl

one_line-layer_text : (l : Layer) → contains (layer_text l) 10 ≡ false
unfolding layer_text codes
one_line-layer_text context = refl
one_line-layer_text tests = refl
one_line-layer_text gates = refl
one_line-layer_text harness = refl
one_line-layer_text memory = refl

one_line-status_text : (s : Status) → contains (status_text s) 10 ≡ false
unfolding status_text codes
one_line-status_text present = refl
one_line-status_text absent = refl
one_line-status_text declared_unimplemented = refl

is_empty-spelled : (l : Layer) (s : Status) (h : Text) → is_empty (spelled l s h) ≡ false
unfolding spelled layer_text codes
is_empty-spelled context s h = refl
is_empty-spelled tests s h = refl
is_empty-spelled gates s h = refl
is_empty-spelled harness s h = refl
is_empty-spelled memory s h = refl

-- the recorded hash of an artifact stands on one line
abbrev IsPlain : SupportArtifact → Type 0
IsPlain a = contains (or_empty a.hash) 10 ≡ false

IsLine-spelled :
    (l : Layer) (s : Status) (h : Text) → contains h 10 ≡ false → IsLine (spelled l s h)
unfolding spelled codes
IsLine-spelled l s h e = (
  simp (spelled, contains-append, one_line-layer_text, one_line-status_text, e),
  is_empty-spelled l s h,
)

IsLine-parts : (xs : List SupportArtifact) → All IsPlain xs → All IsLine (map hash_part xs)
unfolding hash_part spelled
IsLine-parts [] h = tt
IsLine-parts (a ∷ xs) h =
    (IsLine-spelled a.layer a.status (or_empty a.hash) h.0, IsLine-parts xs h.1)

key_of-parts : (xs : List SupportArtifact) → map key_of (map hash_part xs) ≡ map key xs
unfolding hash_part spelled
key_of-parts [] = refl
key_of-parts (a ∷ xs) =
    ap₂ ◌∷◌ (key_of-spelled a.layer a.status (or_empty a.hash)) (key_of-parts xs)

spell : Layer × Status × Text → Text
spell k = spelled k.0 k.1 k.2

spell-keys : (xs : List SupportArtifact) → map spell (map key xs) ≡ map hash_part xs
unfolding hash_part spell spelled
spell-keys [] = refl
spell-keys (a ∷ xs) = ap (λ ts. hash_part a ∷ ts) (spell-keys xs)

-- the parts and the keys are the same up to order together
parts-iff_keys :
    (xs ys : List SupportArtifact)
    → Perm (map hash_part xs) (map hash_part ys) ↔ Perm (map key xs) (map key ys)
parts-iff_keys xs ys = (
  λ p.
      subst (λ ks. Perm ks (map key ys)) (key_of-parts xs)
        (subst (Perm (map key_of (map hash_part xs))) (key_of-parts ys)
          (∥∥₁_map p (λ d. Permᴰ.map key_of d))),
  λ p.
      subst (λ ks. Perm ks (map hash_part ys)) (spell-keys xs)
        (subst (Perm (map spell (map key xs))) (spell-keys ys)
          (∥∥₁_map p (λ d. Permᴰ.map spell d))),
)

-- the text of which the hash of a bundle is taken
unfoldable pub hashed : List SupportArtifact → Text
unfolding sort_texts hash_part
hashed xs = join (codes "\n") (sort_texts (map hash_part xs))

module _ {W : Type 0} (writers : Writers W) where
  -- If no recorded hash of two lists of artifacts holds a line feed, and the hash function does not
  -- take the same value on their two hashed texts unless these are equal, then the bundle hashes of
  -- the lists are equal exactly if the lists have, up to order and with repetitions, the same
  -- layers, statuses and recorded hashes, where a missing hash counts as the empty text.
  pub bundle_hash-iff_Perm :
      (xs ys : List SupportArtifact)
      → All IsPlain xs
      → All IsPlain ys
      → (writers.hash_text (hashed xs) ≡ writers.hash_text (hashed ys) → hashed xs ≡ hashed ys)
      → (bundle_hash writers xs ≡ bundle_hash writers ys) ↔ Perm (map key xs) (map key ys)
  unfolding bundle_hash hashed join
  bundle_hash-iff_Perm xs ys h k free = (
    λ e. (parts-iff_keys xs ys).0 (
        Perm.trans (Perm.symm (perm-sort_texts (map hash_part xs))) (
          subst (λ ts. Perm ts (map hash_part ys))
            (sym (
              join-injective _ _ (All-sort_texts IsLine _ (IsLine-parts xs h))
                (All-sort_texts IsLine _ (IsLine-parts ys k)) (free e)))
            (perm-sort_texts (map hash_part ys)))),
    λ p.
        ap (λ ts. writers.hash_text (join (codes "\n") ts))
          (sort_texts-perm ((parts-iff_keys xs ys).1 p)),
  )
