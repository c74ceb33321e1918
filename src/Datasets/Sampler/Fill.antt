-- ===== src/Datasets/Sampler/Fill.antt =====
-- The round robin over the groups.
use coding_agent_support.Base.{
  ℕ, zero, suc, ◌+◌, ◌-◌, ◌≤◌, ◌<◌, ◌≡◌, ◌⊎◌, inl, inr, refl, ap, Bool, true, false, leb, none,
  some, List, [], ◌∷◌, ◌++◌, length, drop, get_elem?, count_if, count_if-append, if◌then◌else◌,
  arith, Bool-cases, Option-cases, length-append,
}
use coding_agent_support.Task.{TaskSpec}
use coding_agent_support.Datasets.Sampler.{Group, Pass, put_back, pass, fill}

-- how many tasks with the property are left to select
abbrev pub left : (TaskSpec → Bool) → List Group → ℕ
left p [] = 0
left p (g ∷ gs) = count_if p (drop g.idx g.members) + left p gs

count_if-drop :
    (p : TaskSpec → Bool) (ts : List TaskSpec) (i : ℕ) (t : TaskSpec)
    → get_elem? ts i ≡ some t
    → count_if p (drop i ts) ≡ (if p t then 1 else 0) + count_if p (drop (i + 1) ts)
count_if-drop p [] i t h = cc
count_if-drop p (u ∷ ts) zero t h = let e : u ≡ t = cc in rw e (ground arith)
count_if-drop p (u ∷ ts) (suc i) t h = ground (arith, count_if-drop p ts i t)

drop-of_none : (ts : List TaskSpec) (i : ℕ) → get_elem? ts i ≡ none → drop i ts ≡ []
drop-of_none [] zero h = refl
drop-of_none [] (suc i) h = refl
drop-of_none (t ∷ ts) zero h = cc
drop-of_none (t ∷ ts) (suc i) h = drop-of_none ts i h

-- one round of a pass
data Round (n : ℕ) (sel : List TaskSpec) (g : Group) (gs : List Group) : Pass → Type 0 where
  full :
      n ≤ length sel
      → Round n sel g gs (record { selected = sel; groups = g ∷ gs; progressed = false })
  spent :
      length sel < n
      → drop g.idx g.members ≡ []
      → Round n sel g gs (put_back g false (pass n sel gs))
  moved :
      (t : TaskSpec)
      → length sel < n
      → get_elem? g.members g.idx ≡ some t
      → Round n sel g gs (put_back (record g { idx = g.idx + 1 }) true (pass n (sel ++ t ∷ []) gs))

pass-Round :
    (n : ℕ) (sel : List TaskSpec) (g : Group) (gs : List Group)
    → Round n sel g gs (pass n sel (g ∷ gs))
unfolding pass
pass-Round n sel g gs = elim (Bool-cases (leb n (length sel))) [
  | inl e ↦ rw (e, pass) (Round.full (ground arith))
  | inr room ↦ elim (Option-cases (get_elem? g.members g.idx)) [
    | inl e ↦ rw (room, e, pass) (Round.spent (ground arith) (drop-of_none g.members g.idx e))
    | inr (t, e) ↦ rw (room, e, pass) (Round.moved t (ground arith) e)
  ]
]

-- with the property, as many tasks are selected and left as there were
abbrev Keeps : (TaskSpec → Bool) → List TaskSpec → List Group → Pass → Type 0
Keeps p sel gs r = count_if p r.selected + left p r.groups ≡ count_if p sel + left p gs

Round-Keeps :
    (p : TaskSpec → Bool) (n : ℕ) (sel : List TaskSpec) (g : Group) (gs : List Group) {r : Pass}
    → Round n sel g gs r
    → Keeps p sel gs (pass n sel gs)
    → ((t : TaskSpec) → Keeps p (sel ++ t ∷ []) gs (pass n (sel ++ t ∷ []) gs))
    → Keeps p sel (g ∷ gs) r
Round-Keeps p n sel g gs (Round.full h) k l = refl
Round-Keeps p n sel g gs (Round.spent h e) k l = omega (arith, ap (λ d. count_if p d) e)
Round-Keeps p n sel g gs (Round.moved t h e) k l =
    omega (arith, l t, count_if-append p sel (t ∷ []), count_if-drop p g.members g.idx t e)

-- a pass moves tasks from the groups to the selection
pass-Keeps :
    (p : TaskSpec → Bool) (n : ℕ) (sel : List TaskSpec) (gs : List Group)
    → Keeps p sel gs (pass n sel gs)
unfolding pass
pass-Keeps p n sel [] = refl
pass-Keeps p n sel (g ∷ gs) =
    Round-Keeps p n sel g gs (pass-Round n sel g gs) (pass-Keeps p n sel gs)
      (λ t. pass-Keeps p n (sel ++ t ∷ []) gs)

-- A pass that starts below the goal does not pass it; one that moves a task grows the selection, and
-- one that moves none has found all groups empty.
abbrev Moves : ℕ → List TaskSpec → List Group → Pass → Type 0
Moves n sel gs r =
    (length sel ≤ length r.selected)
    × (length r.selected ≤ n)
    × ((r.progressed ≡ true) × (length sel < length r.selected)
        ⊎ (r.progressed ≡ false) × ((length sel ≡ n) ⊎ (left (λ _. true) gs ≡ 0)))

Round-Moves :
    (n : ℕ) (sel : List TaskSpec) (g : Group) (gs : List Group) {r : Pass}
    → Round n sel g gs r
    → length sel ≤ n
    → (length sel ≤ n → Moves n sel gs (pass n sel gs))
    → ((t : TaskSpec)
        → length (sel ++ t ∷ []) ≤ n
        → Moves n (sel ++ t ∷ []) gs (pass n (sel ++ t ∷ []) gs))
    → Moves n sel (g ∷ gs) r
Round-Moves n sel g gs (Round.full h) b k l = (omega arith, b, inr (refl, inl (omega arith)))
Round-Moves n sel g gs (Round.spent h e) b k l = ground (arith, k b, e)
Round-Moves n sel g gs (Round.moved t h e) b k l =
    let (grows, below, _) = l t (omega (arith, length-append sel (t ∷ []))) in
    (
      omega (arith, grows, length-append sel (t ∷ [])),
      below,
      inl (refl, omega (arith, grows, length-append sel (t ∷ []))),
    )

pass-Moves :
    (n : ℕ) (sel : List TaskSpec) (gs : List Group)
    → length sel ≤ n
    → Moves n sel gs (pass n sel gs)
unfolding pass
pass-Moves n sel [] h = (omega arith, h, inr (refl, inr refl))
pass-Moves n sel (g ∷ gs) h =
    Round-Moves n sel g gs (pass-Round n sel g gs) h (pass-Moves n sel gs)
      (λ t. pass-Moves n (sel ++ t ∷ []) gs)

pub count_if-true : (ts : List TaskSpec) → count_if (λ _. true) ts ≡ length ts
count_if-true [] = refl
count_if-true (t ∷ ts) = omega (arith, count_if-true ts)

-- The loop ends with `n` tasks where so many are selected or left, if a round of fuel is given for
-- each that is missing and one more.
pub fill-ends :
    (fuel n : ℕ) (sel : List TaskSpec) (gs : List Group)
    → length sel ≤ n
    → n - length sel < fuel
    → n ≤ length sel + left (λ _. true) gs
    → (l : List TaskSpec) × (fill fuel n sel gs ≡ some l)
      × (length l ≡ n)
      × ((p : TaskSpec → Bool) → count_if p l ≤ count_if p sel + left p gs)
unfolding fill
fill-ends zero n sel gs h k e = absurd (omega arith)
fill-ends (suc fuel) n sel gs h k e = elim (Bool-cases (leb n (length sel))) [
  | inl done ↦ (sel, rw (done, fill) refl, ground arith, λ p. omega arith)
  | inr room ↦
      let (grows, below, how) = pass-Moves n sel gs h in
      let same = pass-Keeps (λ _. true) n sel gs in
      let short : length sel < n = ground arith in
      elim how [
        | inl (progressed, more) ↦
            let (l, ends, exact, part) =
              fill-ends fuel n (pass n sel gs).selected (pass n sel gs).groups below
                (omega (arith, more))
                (omega (arith, count_if-true (pass n sel gs).selected, count_if-true sel, same)) in
            (
              l,
              rw (room, progressed, fill) ends,
              exact,
              λ p. omega (arith, part p, pass-Keeps p n sel gs),
            )
        | inr (_, inl e') ↦ absurd (omega (arith, e', short))
        | inr (_, inr e') ↦ absurd (omega (arith, e', short))
      ]
]
