-- ===== src/Analysis/Loading.antt =====
-- What a load of an experiment's runs guarantees.
use coding_agent_support.Base.{
  ℕ, zero, suc, ◌≡◌, inl, inr, refl, ap, sym, ◌∙◌, Bool, true, false, Option, none, some, List, [],
  ◌∷◌, Text, length, get_elem?, contains, ltb, arith, ==_iff, ==_refl, list_eq, nat_eq,
  Option-cases,
}
use coding_agent_support.Effects.{Result, ok, err, ok-injective}
use coding_agent_support.Analysis.{
  RunRow, Spec, Evaluated, RunFiles, or_unknown, row_of, counted, Cohort, no_runs, add, with_run,
  then_row, collect, checked, then_checked, load_runs,
}

-- the three fields that the runs of one table must share
pub data Version : Type 0 where
  protocol model condition_version : Version

unfoldable pub version_of : Version → Spec → Text
version_of protocol spec = or_unknown spec.protocol_version
version_of model spec = or_unknown spec.model
version_of condition_version spec = or_unknown spec.condition_version

seen : Version → Cohort → List Text
seen protocol c = c.protocols
seen model c = c.models
seen condition_version c = c.cond_versions

some-injective : {A : Type 0} {a b : A} → some a ≡ some b → a ≡ b
some-injective h = cc

contains-add :
    (v : Text) (s : List Text) (k : Text) → contains s k ≡ true → contains (add v s) k ≡ true
contains-add v s k h = ground arith

add-contains : (v : Text) (s : List Text) → contains (add v s) v ≡ true
add-contains v s = ground (arith, ==_refl v)

seen-with_run :
    (v : Version) (spec : Spec) (row : RunRow) (c : Cohort)
    → seen v (with_run spec row c) ≡ add (version_of v spec) (seen v c)
unfolding seen with_run version_of
seen-with_run protocol spec row c = refl
seen-with_run model spec row c = refl
seen-with_run condition_version spec row c = refl

then_row-eq-ok :
    (r : Result RunRow) (f : RunRow → Result Cohort) (c : Cohort)
    → then_row r f ≡ ok c
    → (row : RunRow) × (f row ≡ ok c)
then_row-eq-ok (ok row) f c h = (row, h)
then_row-eq-ok (err e) f c h = cc

-- the rest of a collection, after a run that does not count and after one that does
collect-skip :
    (r : RunFiles) (rest : List RunFiles) (c : Cohort)
    → counted r ≡ none
    → collect (r ∷ rest) c ≡ collect rest c
unfolding collect
collect-skip r rest c e = rw (e, collect) refl

collect-take :
    (r : RunFiles) (rest : List RunFiles) (c : Cohort) (files : Spec × Evaluated × Option Text)
    → counted r ≡ some files
    → collect (r ∷ rest) c
      ≡ then_row
          (row_of files.0 files.1 files.2 r.manipulation_passed)
          (λ row. collect rest (with_run files.0 row c))
unfolding collect
collect-take r rest c files e = rw (e, collect) refl

collect-keeps :
    (v : Version) (runs : List RunFiles) (c d : Cohort) (k : Text)
    → collect runs c ≡ ok d
    → contains (seen v c) k ≡ true
    → contains (seen v d) k ≡ true
unfolding collect
collect-keeps v [] c d k h e = rw (sym (ok-injective h)) e
collect-keeps v (r ∷ rest) c d k h e = elim (Option-cases (counted r)) [
  | inl skipped ↦ collect-keeps v rest c d k (sym (collect-skip r rest c skipped) ∙ h) e
  | inr (files, took) ↦
      let (row, h') =
        then_row-eq-ok (row_of files.0 files.1 files.2 r.manipulation_passed) _ d
          (sym (collect-take r rest c files took) ∙ h) in
      collect-keeps v rest (with_run files.0 row c) d k h'
        (rw (seen-with_run v files.0 row c) (contains-add (version_of v files.0) (seen v c) k e))
]

collect-sees :
    (v : Version) (runs : List RunFiles) (c d : Cohort) (i : ℕ) (r : RunFiles)
    (files : Spec × Evaluated × Option Text)
    → collect runs c ≡ ok d
    → get_elem? runs i ≡ some r
    → counted r ≡ some files
    → contains (seen v d) (version_of v files.0) ≡ true
collect-sees v [] c d i r files h at counts = cc
collect-sees v (x ∷ rest) c d zero r files h at counts =
    let took : counted x ≡ some files = ap counted (some-injective at) ∙ counts in
    let (row, h') =
      then_row-eq-ok (row_of files.0 files.1 files.2 x.manipulation_passed) _ d
        (sym (collect-take x rest c files took) ∙ h) in
    collect-keeps v rest (with_run files.0 row c) d (version_of v files.0) h'
      (rw (seen-with_run v files.0 row c) (add-contains (version_of v files.0) (seen v c)))
collect-sees v (x ∷ rest) c d (suc i) r files h at counts = elim (Option-cases (counted x)) [
  | inl skipped ↦
      collect-sees v rest c d i r files (sym (collect-skip x rest c skipped) ∙ h) at counts
  | inr (found, took) ↦
      let (row, h') =
        then_row-eq-ok (row_of found.0 found.1 found.2 x.manipulation_passed) _ d
          (sym (collect-take x rest c found took) ∙ h) in
      collect-sees v rest (with_run found.0 row c) d i r files h' at counts
]

one_or_none :
    (s : List Text) (a b : Text)
    → ltb 1 (length s) ≡ false
    → contains s a ≡ true
    → contains s b ≡ true
    → a ≡ b
one_or_none [] a b h ha hb = cc
one_or_none (x ∷ []) a b h ha hb = ground (arith, ==_iff x a, ==_iff x b)
one_or_none (x ∷ y ∷ s) a b h ha hb = ground arith

checked-seen :
    (mixed : Version → Bool) (c : Cohort) (rows : List RunRow) (v : Version)
    → checked (mixed protocol) (mixed model) (mixed condition_version) c ≡ ok rows
    → mixed v ≡ false
    → ltb 1 (length (seen v c)) ≡ false
unfolding checked seen
checked-seen mixed c rows protocol h same = ground arith
checked-seen mixed c rows model h same = ground arith
checked-seen mixed c rows condition_version h same = ground arith

then_checked-eq-ok :
    (r : Result Cohort) (f : Cohort → Result (List RunRow)) (rows : List RunRow)
    → then_checked r f ≡ ok rows
    → (c : Cohort) × (r ≡ ok c) × (f c ≡ ok rows)
then_checked-eq-ok (ok c) f rows h = (c, refl, h)
then_checked-eq-ok (err e) f rows h = cc

-- If runs are loaded, any two of them that count, being complete and no infrastructure failures,
-- agree in the protocol version, in the model and in the version of the conditions, each unless
-- mixtures of it are allowed.
pub load_runs-SameVersions :
    (mixed : Version → Bool) (runs : List RunFiles) (rows : List RunRow) (v : Version) (i j : ℕ)
    (r q : RunFiles) (files others : Spec × Evaluated × Option Text)
    → load_runs (mixed protocol) (mixed model) (mixed condition_version) runs ≡ ok rows
    → mixed v ≡ false
    → get_elem? runs i ≡ some r
    → counted r ≡ some files
    → get_elem? runs j ≡ some q
    → counted q ≡ some others
    → version_of v files.0 ≡ version_of v others.0
unfolding load_runs
load_runs-SameVersions mixed runs rows v i j r q files others h same at_i counts_i at_j counts_j =
    let (c, collected, passed) = then_checked-eq-ok (collect runs no_runs) _ rows h in
    one_or_none (seen v c) (version_of v files.0) (version_of v others.0)
      (checked-seen mixed c rows v passed same)
      (collect-sees v runs no_runs c i r files collected at_i counts_i)
      (collect-sees v runs no_runs c j q others collected at_j counts_j)
