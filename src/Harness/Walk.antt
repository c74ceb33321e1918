-- ===== src/Harness/Walk.antt =====
-- A requested jump is a walk through the states in between, each left with its record in place.
use coding_agent_support.Base.{
  ℕ, zero, suc, ◌+◌, ◌-◌, ◌<◌, ◌≡◌, refl, ◌↔◌, true, none, some, Text, arith, get_elem?,
}
use coding_agent_support.Harness.{
  HarnessState, discover, diagnose, patch, validate, submit, order, index, required_record_to_leave,
  HarnessStateMachine, has_record, next_state, missing_at, missing_from, request_state,
}

-- the record that leaving `s` asks for is in place
abbrev pub CanLeave : HarnessStateMachine → HarnessState → Type 0
CanLeave m s = (kind : Text) → required_record_to_leave s ≡ some kind → has_record kind m ≡ true

-- one or more single steps along the order, each from a state that can be left
pub data Walk (m : HarnessStateMachine) : HarnessState → HarnessState → Type 0 where
  one : {s t : HarnessState} → next_state s ≡ some t → CanLeave m s → Walk m s t
  more : {s t u : HarnessState} → next_state s ≡ some t → CanLeave m s → Walk m t u → Walk m s u

module _ (m : HarnessStateMachine) where
  CanLeave-of_missing : (s : HarnessState) → missing_at m (some s) ≡ none → CanLeave m s
  unfolding missing_at
  CanLeave-of_missing discover h kind e = ground arith
  CanLeave-of_missing diagnose h kind e = ground arith
  CanLeave-of_missing patch h kind e = ground arith
  CanLeave-of_missing validate h kind e = ground arith
  CanLeave-of_missing submit h kind e = ground arith

  missing-of_CanLeave : (s : HarnessState) → CanLeave m s → missing_at m (some s) ≡ none
  unfolding missing_at
  missing-of_CanLeave discover h = rw (h _ refl)
  missing-of_CanLeave diagnose h = rw (h _ refl)
  missing-of_CanLeave patch h = refl
  missing-of_CanLeave validate h = rw (h _ refl)
  missing-of_CanLeave submit h = refl

  get_elem?-index : (s : HarnessState) → get_elem? order (index s) ≡ some s
  get_elem?-index discover = refl
  get_elem?-index diagnose = refl
  get_elem?-index patch = refl
  get_elem?-index validate = refl
  get_elem?-index submit = refl

  pub next-index : (s t : HarnessState) → next_state s ≡ some t → index t ≡ suc (index s)
  unfolding next_state
  next-index discover t e = ground arith
  next-index diagnose t e = ground arith
  next-index patch t e = ground arith
  next-index validate t e = ground arith
  next-index submit t e = ground arith

  index_injective : (s t : HarnessState) → index s ≡ index t → s ≡ t
  index_injective s t e = ground arith

  next-of_lt :
      (s u : HarnessState) → index s < index u → (t : HarnessState) × (next_state s ≡ some t)
  unfolding next_state
  next-of_lt discover u h = (diagnose, refl)
  next-of_lt diagnose u h = (patch, refl)
  next-of_lt patch u h = (validate, refl)
  next-of_lt validate u h = (submit, refl)
  next-of_lt submit u h = absurd (ground arith)

  -- what one round of the loop does at a state, as an equation in both directions
  missing_from-none :
      (n : ℕ) (s : HarnessState)
      → (missing_from m (suc n) (index s) ≡ none)
        ↔ (missing_at m (some s) ≡ none) × (missing_from m n (suc (index s)) ≡ none)
  unfolding missing_from
  missing_from-none n s =
      rw (get_elem?-index s, missing_from) (λ h. ground arith, λ h. ground arith)

  Walk-of_missing :
      (n : ℕ) (s t : HarnessState)
      → index t ≡ index s + suc n
      → missing_from m (suc n) (index s) ≡ none
      → Walk m s t
  Walk-of_missing zero s t e h =
      let (next, found) = next-of_lt s t (omega arith) in
      let (here, _) = (missing_from-none zero s).0 h in
      let same = index_injective next t (omega (arith, next-index s next found)) in
      one (rw (← same) found) (CanLeave-of_missing s here)
  Walk-of_missing (suc n) s t e h =
      let (next, found) = next-of_lt s t (omega arith) in
      let (here, rest) = (missing_from-none (suc n) s).0 h in
      let step = next-index s next found in
      more found (CanLeave-of_missing s here)
        (Walk-of_missing n next t (omega (arith, step)) (rw step rest))

  index-lt-of_Walk : {s t : HarnessState} → Walk m s t → index s < index t
  index-lt-of_Walk (one e c) = omega (arith, next-index _ _ e)
  index-lt-of_Walk (more e c w) = omega (arith, next-index _ _ e, index-lt-of_Walk w)

  missing-of_Walk :
      (n : ℕ) {s t : HarnessState}
      → Walk m s t
      → index t ≡ index s + suc n
      → missing_from m (suc n) (index s) ≡ none
  missing-of_Walk zero {s} (one e c) h =
      (missing_from-none zero s).1 (missing-of_CanLeave s c, unfold missing_from in refl)
  missing-of_Walk (suc n) (one e c) h = absurd (omega (arith, next-index _ _ e))
  missing-of_Walk zero (more e c w) h = absurd (omega (arith, next-index _ _ e, index-lt-of_Walk w))
  missing-of_Walk (suc n) {s} (more {t = t} e c w) h =
      let step = next-index s t e in
      (missing_from-none (suc n) s).1
        (missing-of_CanLeave s c, rw (← step) (missing-of_Walk n w (omega (arith, step))))

  abbrev gap : HarnessState → ℕ
  gap target = index target - index m.state

  ok_parts :
      (target : HarnessState)
      → ((request_state target m).0.ok ≡ true)
        ↔ (index m.state < index target) × (missing_from m (gap target) (index m.state) ≡ none)
  unfolding request_state
  ok_parts target = (λ h. ground arith, λ h. ground arith)

  -- The request succeeds exactly when the target can be reached by single steps, each out of a
  -- state whose required record is in place.
  pub request_state-ok-iff_Walk :
      (target : HarnessState) → ((request_state target m).0.ok ≡ true) ↔ Walk m m.state target
  request_state-ok-iff_Walk target = (forth, back)
    where
      size : index m.state < index target → gap target ≡ suc (gap target - 1)
      size h = omega arith

      forth : (request_state target m).0.ok ≡ true → Walk m m.state target
      forth h =
          let (ahead, filled) = (ok_parts target).0 h in
          Walk-of_missing (gap target - 1) m.state target (omega arith) (rw (size ahead) at filled)

      back : Walk m m.state target → (request_state target m).0.ok ≡ true
      back w =
          let ahead = index-lt-of_Walk w in
          (ok_parts target).1
            (ahead, rw (size ahead) (missing-of_Walk (gap target - 1) w (omega arith)))
