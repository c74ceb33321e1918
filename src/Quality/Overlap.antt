-- ===== src/Quality/Overlap.antt =====
-- The overlap of a patch with the files of the gold patch.
use coding_agent_support.Base.{
  ℕ, suc, ltb, ◌≤◌, ◌<◌, ◌≡◌, ◌≢◌, ◌⊎◌, inl, inr, refl, ap, Bool, true, false, not, Option, none,
  some, List, [], ◌∷◌, Text, length, filter, any, contains, count_if-le-length, length-filter,
  IsDistinct, arith, ==_iff, ==_refl, ◌==◌, list_eq, nat_eq, if◌then◌else◌, All,
}
use coding_agent_support.Patch.{diff_metrics}
use coding_agent_support.Patch.Files.{diff_metrics_files}
use coding_agent_support.Quality.{distinct, gold_overlap, is_unrelated, locality_of, Locality}

contains-distinct : (f : Text) (fs : List Text) → contains (distinct fs) f ≡ contains fs f
unfolding distinct
contains-distinct f [] = refl
contains-distinct f (g ∷ fs) = ground (arith, contains-distinct f fs, ==_iff g f)

distinct-IsDistinct : (fs : List Text) → IsDistinct (distinct fs)
unfolding distinct
distinct-IsDistinct [] = tt
distinct-IsDistinct (f ∷ fs) = ground (arith, distinct-IsDistinct fs, contains-distinct f fs)

distinct-of_IsDistinct : (fs : List Text) → IsDistinct fs → distinct fs ≡ fs
unfolding distinct
distinct-of_IsDistinct [] d = refl
distinct-of_IsDistinct (f ∷ fs) d = ground (arith, distinct-of_IsDistinct fs d.1)

remove : Text → List Text → List Text
remove f [] = []
remove f (g ∷ gs) = let rest = remove f gs in if g == f then gs else g ∷ rest

length-remove :
    (f : Text) (gs : List Text) → contains gs f ≡ true → length gs ≡ suc (length (remove f gs))
unfolding remove
length-remove f [] h = cc
length-remove f (g ∷ gs) h = ground (arith, length-remove f gs)

contains-remove :
    (f g : Text) (gs : List Text) → f ≢ g → contains gs g ≡ true → contains (remove f gs) g ≡ true
unfolding remove
contains-remove f g [] ne h = h
contains-remove f g (x ∷ gs) ne h = ground (arith, contains-remove f g gs, ==_iff x f, ==_iff x g)

-- no more different files than a list holds that they all stand in
abbrev Within : List Text → List Text → Type 0
Within gs = All (λ f. contains gs f ≡ true)

Within-remove :
    (f : Text) (gs fs : List Text) → contains fs f ≡ false → Within gs fs → Within (remove f gs) fs
Within-remove f gs [] h w = tt
Within-remove f gs (g ∷ fs) h w = (
  contains-remove f g gs (λ e. ground (arith, ==_iff g f)) w.0,
  Within-remove f gs fs (ground arith) w.1,
)

length-le-length : (fs gs : List Text) → IsDistinct fs → Within gs fs → length fs ≤ length gs
length-le-length [] gs d w = omega arith
length-le-length (f ∷ fs) gs d w = omega (
  arith,
  length-remove f gs w.0,
  length-le-length fs (remove f gs) d.1 (Within-remove f gs fs d.0 w.1),
)

contains-filter :
    (p : Text → Bool) (f : Text) (fs : List Text)
    → contains fs f ≡ false
    → contains (filter p fs) f ≡ false
contains-filter p f [] h = refl
contains-filter p f (g ∷ fs) h = ground (arith, contains-filter p f fs)

filter-IsDistinct : (p : Text → Bool) (fs : List Text) → IsDistinct fs → IsDistinct (filter p fs)
filter-IsDistinct p [] d = tt
filter-IsDistinct p (f ∷ fs) d = ground (arith, filter-IsDistinct p fs d.1, contains-filter p f fs)

filter-Within : (gs fs : List Text) → Within (distinct gs) (filter (contains gs) fs)
filter-Within gs [] = tt
filter-Within gs (f ∷ fs) = ground (arith, contains-distinct f gs, filter-Within gs fs)

any-not :
    (p : Text → Bool) (fs : List Text)
    → any (λ f. not (p f)) fs ≡ ltb (length (filter p fs)) (length fs)
any-not p [] = refl
any-not p (f ∷ fs) = ground (arith, any-not p fs, length-filter p fs, count_if-le-length p fs)

length-distinct : (g : Text) (gs : List Text) → 0 < length (distinct (g ∷ gs))
length-distinct g gs =
    omega (
      arith,
      length-remove g (distinct (g ∷ gs)) (rw (contains-distinct g (g ∷ gs), ==_refl g) refl),
    )

module _ {Float : Type 0} (zero_float : Float) (ratio4 : ℕ → ℕ → Float) where
  -- the overlap `n / d`, and whether some of the touched files is no file of the gold patch
  abbrev IsRatio : ℕ → Option Float → Bool → Type 0
  IsRatio touched overlap unrelated =
      (n : ℕ) × (d : ℕ) × (overlap ≡ some (ratio4 n d))
      × (n ≤ d)
      × (0 < d)
      × (n ≤ touched)
      × (unrelated ≡ ltb n touched)

  abbrev pub IsLocal : List Text → ℕ → Option Float → Bool → Type 0
  IsLocal gold touched overlap unrelated =
      (length gold ≡ 0) × (overlap ≡ none) × (unrelated ≡ false)
      ⊎ (0 < length gold) × (touched ≡ 0) × (overlap ≡ some zero_float) × (unrelated ≡ false)
      ⊎ (0 < length gold) × (0 < touched) × IsRatio touched overlap unrelated

  gold_overlap-IsLocal :
      (gold files : List Text)
      → IsDistinct files
      → IsLocal gold
          (length files)
          (gold_overlap zero_float ratio4 files gold)
          (is_unrelated gold files)
  unfolding gold_overlap
  gold_overlap-IsLocal [] files d = inl (refl, refl, refl)
  gold_overlap-IsLocal (g ∷ gs) [] d = inr (inl (omega arith, refl, refl, refl))
  gold_overlap-IsLocal (g ∷ gs) (f ∷ fs) d =
      let gold = g ∷ gs in
      let files = f ∷ fs in
      let hits = filter (contains gold) files in
      inr (
        inr (
          omega arith,
          omega arith,
          (
            length hits,
            length (distinct gold),
            ap (λ l. some (ratio4 (length (filter (contains gold) l)) (length (distinct gold))))
                (distinct-of_IsDistinct files d),
            length-le-length hits (distinct gold) (filter-IsDistinct (contains gold) files d)
                (filter-Within gold files),
            length-distinct g gs,
            omega (
              arith,
              length-filter (contains gold) files,
              count_if-le-length (contains gold) files,
            ),
            any-not (contains gold) files,
          ),
        ))

  -- The locality of a card: without gold files there is no overlap; with gold files and no touched
  -- one it is zero; and else it is a ratio `n / d`, where `n` is at most the positive `d` and at most
  -- the number of touched files. A change of unrelated files is suspected exactly if there are gold
  -- files and `n` is less than that number.
  pub locality_of-IsLocal :
      (gold : List Text) (final_diff : Text)
      → let l : Locality Float = locality_of zero_float ratio4 gold final_diff in
        IsLocal gold l.files_touched l.gold_file_overlap l.unrelated_file_change_suspected
  unfolding locality_of
  locality_of-IsLocal gold final_diff =
      let (d, e, _) = diff_metrics_files final_diff in
      rw e (gold_overlap-IsLocal gold (diff_metrics final_diff).files d)
