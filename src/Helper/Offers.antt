-- ===== src/Helper/Offers.antt =====
-- The candidates that the generator offers.
use coding_agent_support.Base.{
  ℕ, zero, suc, ◌+◌, ◌≤◌, false, ◌||◌, ◌≡◌, refl, sym, ◌∙◌, subst, List, [], ◌∷◌, ◌++◌, map, Text,
  contains, contains-snoc, IsDistinct, IsDistinct-snoc, is_empty, length, length-append, Bool-cases,
  Option-cases, inl, inr, arith, list_eq, nat_eq,
}
use coding_agent_support.Effects.{OnOk, OnOk-then, OnOk-bind}
use coding_agent_support.Helper.{Lab}
use coding_agent_support.Helper.Candidates.{
  extract_code, take_reply, candidate_loop, generate_candidates, system_prompt, user_prompt,
}

module _ (hash_text : Text → Text) where
  -- after the replies so far: `seen` holds the hashes of the candidates
  pub record IsSeen (n : ℕ) (s : List Text × List Text) : Type 0 where
    pub distinct : IsDistinct (map hash_text s.1)
    pub hashes : (h : Text) → contains s.0 h ≡ contains (map hash_text s.1) h
    pub few : length s.1 ≤ n

  map-snoc :
      (xs : List Text) (x : Text)
      → map hash_text (xs ++ x ∷ []) ≡ map hash_text xs ++ hash_text x ∷ []
  map-snoc [] x = refl
  map-snoc (y ∷ xs) x = rw (map-snoc xs x) refl

  grown :
      (n : ℕ) (code : Text) (seen candidates : List Text)
      → contains seen (hash_text code) ≡ false
      → IsSeen n (seen, candidates)
      → IsSeen (suc n) (hash_text code ∷ seen, candidates ++ code ∷ [])
  grown n code seen candidates new h = record {
    distinct = rw (map-snoc candidates code) (
        IsDistinct-snoc (map hash_text candidates) (hash_text code) h.distinct
          (sym (h.hashes (hash_text code)) ∙ new));
    hashes = λ x.
        rw (map-snoc candidates code, contains-snoc (map hash_text candidates) (hash_text code) x)
          (ground (arith, h.hashes x));
    few = rw (length-append candidates (code ∷ [])) (omega (arith, h.few));
  }

  kept : (n : ℕ) (s : List Text × List Text) → IsSeen n s → IsSeen (suc n) s
  kept n s h = record { distinct = h.distinct; hashes = h.hashes; few = omega (arith, h.few) }

  take_reply-IsSeen :
      (n : ℕ) (reply : Text) (s : List Text × List Text)
      → IsSeen n s
      → IsSeen (suc n) (take_reply hash_text reply s)
  unfolding take_reply
  take_reply-IsSeen n reply (seen, candidates) h = elim (Option-cases (extract_code reply)) [
    | inl e ↦ rw (e, take_reply) (kept n _ h)
    | inr (code, e) ↦ elim (Bool-cases (is_empty code || contains seen (hash_text code))) [
      | inl old ↦ rw (e, old, take_reply) (kept n _ h)
      | inr new ↦ rw (e, new, take_reply) (grown n code seen candidates (ground arith) h)
    ]
  ]

module _ {W : Type 0} (lab : Lab W) where
  candidate_loop-IsSeen :
      (system user : Text) (n k total : ℕ) (s : List Text × List Text) (w : W)
      → n + k ≡ total
      → IsSeen lab.hash_text n s
      → OnOk (IsSeen lab.hash_text total) (candidate_loop lab system user k s w).0
  unfolding candidate_loop
  candidate_loop-IsSeen system user n zero total s w e h =
      subst (λ m. IsSeen lab.hash_text m s) (omega (arith, e)) h
  candidate_loop-IsSeen system user n (suc k) total s w e h =
      OnOk-then (IsSeen lab.hash_text total) (lab.complete system user) _ w λ reply w'.
        candidate_loop-IsSeen system user (suc n) k total (take_reply lab.hash_text reply s) w'
          (omega (arith, e)) (take_reply-IsSeen lab.hash_text n reply s h)

  -- The candidates that are generated in `k` tries are at most `k`, and no two have the same hash.
  pub generate_candidates-IsDistinct :
      (problem context : Text) (k : ℕ) (w : W)
      → OnOk
          (λ cs. IsDistinct (map lab.hash_text cs) × (length cs ≤ k))
          (generate_candidates lab problem context k w).0
  unfolding generate_candidates
  generate_candidates-IsDistinct problem context k w =
      OnOk-bind (IsSeen lab.hash_text k) (λ cs. IsDistinct (map lab.hash_text cs) × (length cs ≤ k))
        (candidate_loop lab system_prompt (user_prompt problem context) k ([], [])) _ w
        (candidate_loop-IsSeen system_prompt (user_prompt problem context) 0 k k ([], []) w
          (omega arith) (record { distinct = tt; hashes = λ h. refl; few = omega arith }))
        λ s w' h. (h.distinct, h.few)
