-- ===== src/Datasets/Sampler/Sample.antt =====
-- The sample as a part of the tasks.
use coding_agent_support.Base.{
  ℕ, zero, suc, ◌+◌, ◌≤◌, ◌≡◌, ◌⊎◌, inl, inr, refl, ap, Bool, true, false, leb, some, List, [], ◌∷◌,
  Text, codes, text_ltb, length, take, count_if, count_if-append, if◌then◌else◌, arith, Bool-cases,
  ◌==◌, list_beq, list_eq, nat_eq, All, ==_refl,
}
use coding_agent_support.Effects.{ok}
use coding_agent_support.Task.{TaskSpec}
use coding_agent_support.Datasets.Sampler.{
  Group, add_task, group_tasks, stratum, insert_group, sort_groups, shuffle_groups, stratified,
  sample_tasks,
}
use coding_agent_support.Datasets.Sampler.Fill.{left, fill-ends, count_if-true}

-- nothing is selected yet
abbrev IsFresh : List Group → Type 0
IsFresh = All (λ g. g.idx ≡ 0)

abbrev one : Bool → ℕ
one b = if b then 1 else 0

add_task-IsFresh :
    (k : Text) (t : TaskSpec) (gs : List Group) → IsFresh gs → IsFresh (add_task k t gs)
unfolding add_task
add_task-IsFresh k t [] f = (refl, tt)
add_task-IsFresh k t (g ∷ gs) f = elim (Bool-cases (g.key == k)) [
  | inl e ↦ rw (e, add_task) (f.0, f.1)
  | inr e ↦ rw (e, add_task) (f.0, add_task-IsFresh k t gs f.1)
]

left-add_task :
    (p : TaskSpec → Bool) (k : Text) (t : TaskSpec) (gs : List Group)
    → IsFresh gs
    → left p (add_task k t gs) ≡ one (p t) + left p gs
unfolding add_task
left-add_task p k t [] f = omega arith
left-add_task p k t (g ∷ gs) f = elim (Bool-cases (g.key == k)) [
  | inl e ↦ rw (e, add_task, f.0) (omega (arith, count_if-append p g.members (t ∷ [])))
  | inr e ↦ rw (e, add_task) (omega (arith, left-add_task p k t gs f.1))
]

group_tasks-IsFresh :
    (key : Text) (ts : List TaskSpec) (gs : List Group)
    → IsFresh gs
    → IsFresh (group_tasks key ts gs)
unfolding group_tasks
group_tasks-IsFresh key [] gs f = f
group_tasks-IsFresh key (t ∷ ts) gs f =
    group_tasks-IsFresh key ts _ (add_task-IsFresh (stratum key t) t gs f)

left-group_tasks :
    (p : TaskSpec → Bool) (key : Text) (ts : List TaskSpec) (gs : List Group)
    → IsFresh gs
    → left p (group_tasks key ts gs) ≡ count_if p ts + left p gs
unfolding group_tasks
left-group_tasks p key [] gs f = omega arith
left-group_tasks p key (t ∷ ts) gs f = omega (
  arith,
  left-group_tasks p key ts (add_task (stratum key t) t gs)
      (add_task-IsFresh (stratum key t) t gs f),
  left-add_task p (stratum key t) t gs f,
)

left-insert_group :
    (p : TaskSpec → Bool) (g : Group) (gs : List Group)
    → left p (insert_group g gs) ≡ left p (g ∷ gs)
unfolding insert_group
left-insert_group p g [] = refl
left-insert_group p g (h ∷ gs) = elim (Bool-cases (text_ltb h.key g.key)) [
  | inl e ↦ rw (e, insert_group) (omega (arith, left-insert_group p g gs))
  | inr e ↦ rw (e, insert_group) refl
]

left-sort_groups : (p : TaskSpec → Bool) (gs : List Group) → left p (sort_groups gs) ≡ left p gs
unfolding sort_groups
left-sort_groups p [] = refl
left-sort_groups p (g ∷ gs) =
    omega (arith, left-insert_group p g (sort_groups gs), left-sort_groups p gs)

take-part :
    (n : ℕ) (ts : List TaskSpec) (p : TaskSpec → Bool) → count_if p (take n ts) ≤ count_if p ts
take-part zero ts p = omega arith
take-part (suc n) [] p = omega arith
take-part (suc n) (t ∷ ts) p = omega (arith, take-part n ts p)

length-take : (n : ℕ) (ts : List TaskSpec) → n ≤ length ts → length (take n ts) ≡ n
length-take zero ts h = refl
length-take (suc n) [] h = absurd (omega arith)
length-take (suc n) (t ∷ ts) h = omega (arith, length-take n ts (omega arith))

not_head : codes "stratified" == codes "head" ≡ false
unfolding codes list_beq
not_head = refl

-- `l` holds `n` of the tasks, or all if there are fewer, and none more often than they do
abbrev pub IsSample : ℕ → List TaskSpec → List TaskSpec → Type 0
IsSample n tasks l =
    ((length l ≡ n) × (n ≤ length tasks) ⊎ (l ≡ tasks) × (length tasks ≤ n))
    × ((p : TaskSpec → Bool) → count_if p l ≤ count_if p tasks)

module _ {Rng : Type 0} (shuffle : Rng → List TaskSpec → List TaskSpec × Rng)
    (keeps : (rng : Rng) (ts : List TaskSpec) (p : TaskSpec → Bool)
      → count_if p (shuffle rng ts).0 ≡ count_if p ts) where
  left-shuffle_groups :
      (rng : Rng) (p : TaskSpec → Bool) (gs : List Group)
      → IsFresh gs
      → left p (shuffle_groups shuffle rng gs) ≡ left p gs
  unfolding shuffle_groups
  left-shuffle_groups rng p [] f = refl
  left-shuffle_groups rng p (g ∷ gs) f =
      rw f.0 (
        omega
          (arith, keeps rng g.members p, left-shuffle_groups (shuffle rng g.members).1 p gs f.1))

  stratified-IsSample :
      (rng : Rng) (key : Text) (n : ℕ) (tasks : List TaskSpec)
      → n ≤ length tasks
      → (l : List TaskSpec) × (stratified shuffle rng key n tasks ≡ some l) × IsSample n tasks l
  unfolding stratified
  stratified-IsSample rng key n tasks h =
      let gs = sort_groups (shuffle_groups shuffle rng (group_tasks key tasks [])) in
      let same : (p : TaskSpec → Bool) → left p gs ≡ count_if p tasks = λ p. omega (
        arith,
        left-sort_groups p (shuffle_groups shuffle rng (group_tasks key tasks [])),
        left-shuffle_groups rng p (group_tasks key tasks []) (group_tasks-IsFresh key tasks [] tt),
        left-group_tasks p key tasks [] tt,
      ) in
      let (l, ends, exact, part) =
        fill-ends (n + 1) n [] gs (omega arith) (omega arith)
          (omega (arith, same (λ _. true), count_if-true tasks)) in
      (l, ends, (inl (exact, h), λ p. omega (arith, part p, same p)))

  -- Whatever the generator, if its shuffle keeps the members of a list: a sample by either strategy
  -- ends, and holds `n` tasks, or is the list of all tasks if these are no more than `n`; of the
  -- tasks with any given property it holds no more than there are.
  pub sample_tasks-IsSample :
      (rng : Rng) (key strategy : Text) (n : ℕ) (tasks : List TaskSpec)
      → (strategy ≡ codes "head") ⊎ (strategy ≡ codes "stratified")
      → (l : List TaskSpec) × (sample_tasks shuffle rng key strategy n tasks ≡ ok (some l))
        × IsSample n tasks l
  unfolding sample_tasks
  sample_tasks-IsSample rng key strategy n tasks how = elim (Bool-cases (leb (length tasks) n)) [
    | inl e ↦ (tasks, rw (e, sample_tasks) refl, (inr (refl, ground arith), λ p. omega arith))
    | inr few ↦
        let enough : n ≤ length tasks = ground arith in
        elim how [
          | inl e ↦ (
            take n tasks,
            rw (few, e, ==_refl (codes "head"), sample_tasks) refl,
            (inl (length-take n tasks enough, enough), take-part n tasks),
          )
          | inr e ↦
              let (l, ends, part) = stratified-IsSample rng key n tasks enough in
              (
                l,
                rw (few, e, not_head, ==_refl (codes "stratified"), sample_tasks) (ap ok ends),
                part,
              )
        ]
  ]
