-- ===== src/Analysis/Pairs.antt =====
-- The counts of the tables.
use coding_agent_support.Base.{
  ◌+◌, ◌≤◌, ◌≡◌, sym, ◌∙◌, ap₂, refl, Bool, true, false, not, ◌&&◌, List, [], ◌∷◌, Text, Dict,
  filter, count_if, count_if-le-length, lookup, insert, lookup-insert, or_else, ap, Option, none,
  some, if◌then◌else◌, length, contains, arith, ◌==◌, ==_refl, list_eq, nat_eq,
}
use coding_agent_support.Analysis.{
  RunRow, PairedContrast, paired_contrast, paired, both, only_treated, only_based, no_one, RunEval,
  p2p_regression_stats, is_usable, common, keys, has_key, pairs_at, idx_from,
}
use coding_agent_support.Analysis.Keys.{contains-common, Increasing, Increasing-sorted_keys}

usable_lem :
    (evals : List RunEval)
    → length (filter is_usable evals) + count_if (λ e. not (is_usable e)) evals ≡ length evals
usable_lem [] = omega arith
usable_lem (e ∷ evals) = ground (arith, usable_lem evals)

-- Every applying patch has either usable or missing regression results, and no more patches regress
-- than have usable ones.
pub p2p_regression_stats-partition :
    (evals : List RunEval)
    → ((p2p_regression_stats evals).p2p_usable + (p2p_regression_stats evals).p2p_missing
        ≡ (p2p_regression_stats evals).applying)
      × ((p2p_regression_stats evals).p2p_regressing ≤ (p2p_regression_stats evals).p2p_usable)
unfolding p2p_regression_stats
p2p_regression_stats-partition evals = (usable_lem _, count_if-le-length _ _)

-- the last result of the task under the condition, of seed 0
abbrev pub latest : List RunRow → Text → Text → Option Bool
latest [] condition task = none
latest (r ∷ rows) condition task = or_else (latest rows condition task) (
    if (r.condition == condition && r.seed == 0) && r.task_id == task
    then some r.resolved
    else none)

abbrev pub says : Bool → Option Bool → Bool
says b none = false
says b (some x) = if b then x else not x

abbrev pub is_given : Option Bool → Bool
is_given none = false
is_given (some x) = true

or_else_assoc : (o p q : Option Bool) → or_else (or_else o p) q ≡ or_else o (or_else p q)
or_else_assoc none p q = refl
or_else_assoc (some x) p q = refl

or_else-if :
    (same : Bool) (v : Bool) (o : Option Bool)
    → (if same then some v else o) ≡ or_else (if same then some v else none) o
or_else-if true v o = refl
or_else-if false v o = refl

lookup-insert_if :
    (b : Bool) (k : Text) (v : Bool) (d : Dict Text Bool) (task : Text)
    → lookup task (if b then insert k v d else d)
      ≡ or_else (if b && k == task then some v else none) (lookup task d)
lookup-insert_if true k v d task =
    lookup-insert k task v d ∙ or_else-if (k == task) v (lookup task d)
lookup-insert_if false k v d task = refl

lookup-idx_from :
    (condition : Text) (rows : List RunRow) (d : Dict Text Bool) (task : Text)
    → lookup task (idx_from condition rows d) ≡ or_else (latest rows condition task) (lookup task d)
unfolding idx_from
lookup-idx_from condition [] d task = refl
lookup-idx_from condition (r ∷ rows) d task =
    lookup-idx_from condition rows _ task
    ∙ ap (or_else (latest rows condition task))
        (lookup-insert_if (r.condition == condition && r.seed == 0) r.task_id r.resolved d task)
    ∙ sym (or_else_assoc (latest rows condition task) _ (lookup task d))

-- `p` of both results, if there are two
holds : (Bool × Bool → Bool) → Option Bool → Option Bool → Bool
holds p none o = false
holds p (some x) none = false
holds p (some x) (some y) = p (x, y)

count_if-pairs_at :
    (p : Bool × Bool → Bool) (t b : Dict Text Bool) (ks : List Text)
    → count_if p (pairs_at t b ks) ≡ count_if (λ k. holds p (lookup k t) (lookup k b)) ks
unfolding pairs_at holds
count_if-pairs_at p t b [] = refl
count_if-pairs_at p t b (k ∷ ks) = ground (arith, count_if-pairs_at p t b ks)

count_if-cong :
    (p q : Text → Bool) (ks : List Text) → ((k : Text) → p k ≡ q k) → count_if p ks ≡ count_if q ks
count_if-cong p q [] h = refl
count_if-cong p q (k ∷ ks) h = rw (h k, count_if-cong p q ks h) refl

has_key-lookup : (d : Dict Text Bool) (k : Text) → has_key d k ≡ is_given (lookup k d)
has_key-lookup d k = ground arith

-- a listed task has a pair
length-pairs_at :
    (t b : Dict Text Bool) (ks : List Text)
    → ((k : Text) → contains ks k ≡ true → (has_key t k && has_key b k) ≡ true)
    → length (pairs_at t b ks) ≡ length ks
unfolding pairs_at
length-pairs_at t b [] h = refl
length-pairs_at t b (k ∷ ks) h = ground (
  arith,
  h k (ground (arith, ==_refl k)),
  length-pairs_at t b ks (λ j e. h j (ground (arith, e))),
)

module _ (rows : List RunRow) (condition baseline : Text) where
  index : Text → Dict Text Bool
  unfolding idx_from
  index c = idx_from c rows []

  -- the results of the task under the condition and under the baseline are `x` and `y`
  abbrev pub pair_is : Bool → Bool → Text → Bool
  pair_is x y task = says x (latest rows condition task) && says y (latest rows baseline task)

  or_else-none : (o : Option Bool) → or_else o none ≡ o
  or_else-none none = refl
  or_else-none (some x) = refl

  lookup-index : (c task : Text) → lookup task (index c) ≡ latest rows c task
  unfolding index
  lookup-index c task = lookup-idx_from c rows [] task ∙ or_else-none (latest rows c task)

  has_key-index : (c task : Text) → has_key (index c) task ≡ is_given (latest rows c task)
  has_key-index c task = has_key-lookup (index c) task ∙ ap is_given (lookup-index c task)

  count-pair_is :
      (p : Bool × Bool → Bool) (x y : Bool)
      → ((o q : Option Bool) → holds p o q ≡ (says x o && says y q))
      → count_if p
          (pairs_at (index condition) (index baseline) (common (index condition) (index baseline)))
        ≡ count_if (pair_is x y) (common (index condition) (index baseline))
  count-pair_is p x y h =
      count_if-pairs_at p (index condition) (index baseline) _
      ∙ count_if-cong _ (pair_is x y) _ λ k.
        h (lookup k (index condition)) (lookup k (index baseline))
        ∙ ap₂ (λ o q. says x o && says y q) (lookup-index condition k) (lookup-index baseline k)

  holds_says :
      ((o q : Option Bool) → holds both o q ≡ (says true o && says true q))
      × ((o q : Option Bool) → holds only_treated o q ≡ (says true o && says false q))
      × ((o q : Option Bool) → holds only_based o q ≡ (says false o && says true q))
      × ((o q : Option Bool) → holds no_one o q ≡ (says false o && says false q))
  unfolding holds
  holds_says = (λ o q. ground arith, λ o q. ground arith, λ o q. ground arith, λ o q. ground arith)

  -- `ks` are the tasks with a result under both conditions, and the counts are those of their results
  pub record IsTable (ks : List Text) (c : PairedContrast) : Type 0 where
    pub once : Increasing ks
    pub tasks :
        (k : Text)
        → contains ks k ≡ (is_given (latest rows condition k) && is_given (latest rows baseline k))
    pub pairs : c.n_pairs ≡ length ks
    pub both_resolved : c.both_resolved ≡ count_if (pair_is true true) ks
    pub only_treat : c.only_treat ≡ count_if (pair_is true false) ks
    pub only_base : c.only_base ≡ count_if (pair_is false true) ks
    pub neither : c.neither ≡ count_if (pair_is false false) ks

  -- A contrast counts tasks: those with a row of seed 0 under the condition and under the baseline,
  -- each once, in increasing order. Its pairs are as many as these tasks; and its four counts are the
  -- numbers of these tasks that the last row of the condition and the last row of the baseline have
  -- resolved both, the first alone, the second alone, and neither.
  pub paired_contrast-IsTable :
      (ks : List Text) × IsTable ks (paired_contrast rows condition baseline)
  unfolding paired_contrast paired common index
  paired_contrast-IsTable = (
    common (index condition) (index baseline),
    record {
      once = Increasing-sorted_keys (filter (has_key (index baseline)) (keys (index condition)));
      tasks = λ k.
          contains-common (index condition) (index baseline) k
          ∙ ap₂ (λ x y. x && y) (has_key-index condition k) (has_key-index baseline k);
      pairs =
          length-pairs_at (index condition) (index baseline) _
            (λ k h. sym (contains-common (index condition) (index baseline) k) ∙ h);
      both_resolved = count-pair_is both true true holds_says.0;
      only_treat = count-pair_is only_treated true false holds_says.1;
      only_base = count-pair_is only_based false true holds_says.2;
      neither = count-pair_is no_one false false holds_says.3;
    },
  )
