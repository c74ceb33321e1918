-- ===== src/Datasets/Sampler.antt =====
-- se_support/datasets/task_sampler.py: `sample_tasks`. `shuffle` is that of a generator with its
-- state, a parameter.
pub mod Fill
pub mod Sample
use coding_agent_support.Base.{
  ℕ, zero, suc, ◌+◌, Bool, true, false, leb, Option, none, some, List, [], ◌∷◌, ◌++◌, Text, codes,
  decimal, length, take, get_elem?, is_empty, text_ltb, if◌then◌else◌, ◌==◌, list_eq, nat_eq,
}
use coding_agent_support.Effects.{Result, ok, err, value_error}
use coding_agent_support.Task.{TaskSpec}

stratum_text : Option Text → Text
stratum_text none = codes "unknown"
stratum_text (some []) = codes "unknown"
stratum_text (some (c ∷ s)) = c ∷ s

number_text : Option ℕ → Option Text
number_text none = none
number_text (some zero) = none
number_text (some (suc n)) = some (decimal (suc n))

-- `str(getattr(t.metadata, stratify_key, None) or "unknown")` for the fields of the metadata
unfoldable pub stratum : Text → TaskSpec → Text
unfolding stratum_text number_text codes
stratum stratify_key t =
    let m = t.metadata in
    stratum_text (
      if stratify_key == codes "repo_group"
      then m.repo_group
      else if stratify_key == codes "language"
      then some m.language
      else if stratify_key == codes "gold_files_touched"
      then number_text m.gold_files_touched
      else if stratify_key == codes "gold_loc_changed"
      then number_text m.gold_loc_changed
      else none)

-- a group with the index of the next task to select
pub record Group : Type 0 where
  pub key : Text
  pub members : List TaskSpec
  pub idx : ℕ

-- `groups[key].append(t)` on a defaultdict
unfoldable pub add_task : Text → TaskSpec → List Group → List Group
add_task key t [] = record { key = key; members = t ∷ []; idx = 0 } ∷ []
add_task key t (g ∷ gs) =
    if g.key == key then record g { members = g.members ++ t ∷ [] } ∷ gs else g ∷ add_task key t gs

unfoldable pub group_tasks : Text → List TaskSpec → List Group → List Group
unfolding stratum add_task
group_tasks stratify_key [] gs = gs
group_tasks stratify_key (t ∷ ts) gs =
    group_tasks stratify_key ts (add_task (stratum stratify_key t) t gs)

-- the groups in the order of `sorted(groups)`
unfoldable pub insert_group : Group → List Group → List Group
unfolding text_ltb
insert_group g [] = g ∷ []
insert_group g (h ∷ gs) = elim (text_ltb h.key g.key) [
  | true ↦ h ∷ insert_group g gs
  | false ↦ g ∷ h ∷ gs
]

unfoldable pub sort_groups : List Group → List Group
unfolding insert_group
sort_groups [] = []
sort_groups (g ∷ gs) = insert_group g (sort_groups gs)

-- what a pass over the groups leaves
pub record Pass : Type 0 where
  pub selected : List TaskSpec
  pub groups : List Group
  pub progressed : Bool

abbrev pub put_back : Group → Bool → Pass → Pass
put_back g moved p = record {
  selected = p.selected;
  groups = g ∷ p.groups;
  progressed = if moved then true else p.progressed;
}

-- the loop over `order`
unfoldable pub pass : ℕ → List TaskSpec → List Group → Pass
pass n selected [] = record { selected = selected; groups = []; progressed = false }
pass n selected (g ∷ gs) = elim (leb n (length selected)) [
  | true ↦ record { selected = selected; groups = g ∷ gs; progressed = false }
  | false ↦ elim (get_elem? g.members g.idx) [
    | none ↦ put_back g false (pass n selected gs)
    | some t ↦ put_back (record g { idx = g.idx + 1 }) true (pass n (selected ++ t ∷ []) gs)
  ]
]

-- the loop `while len(selected) < n`; none if it has not ended after `fuel` rounds
unfoldable pub fill : ℕ → ℕ → List TaskSpec → List Group → Option (List TaskSpec)
unfolding pass
fill zero n selected gs = none
fill (suc fuel) n selected gs = elim (leb n (length selected)) [
  | true ↦ some selected
  | false ↦
      let p = pass n selected gs in
      elim p.progressed [ true ↦ fill fuel n p.selected p.groups | false ↦ some p.selected ]
]

module _ {Rng : Type 0} (shuffle : Rng → List TaskSpec → List TaskSpec × Rng) where
  unfoldable pub shuffle_groups : Rng → List Group → List Group
  shuffle_groups rng [] = []
  shuffle_groups rng (g ∷ gs) =
      let (members, rng') = shuffle rng g.members in
      record g { members = members } ∷ shuffle_groups rng' gs

  unfoldable pub stratified : Rng → Text → ℕ → List TaskSpec → Option (List TaskSpec)
  unfolding group_tasks sort_groups shuffle_groups fill
  stratified rng stratify_key n tasks =
      fill (n + 1) n [] (sort_groups (shuffle_groups rng (group_tasks stratify_key tasks [])))

  -- `rng` is `random.Random(seed)`.
  unfoldable pub sample_tasks :
      Rng → Text → Text → ℕ → List TaskSpec → Result (Option (List TaskSpec))
  unfolding stratified
  sample_tasks rng stratify_key strategy n tasks =
      if leb (length tasks) n
      then ok (some tasks)
      else if strategy == codes "head"
      then ok (some (take n tasks))
      else if strategy == codes "stratified"
      then ok (stratified rng stratify_key n tasks)
      else err value_error
