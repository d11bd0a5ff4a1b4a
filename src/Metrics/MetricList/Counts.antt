-- ===== src/Metrics/MetricList/Counts.antt =====
-- The counters of the metric list against the reports themselves.
pub mod Ordered
use unleash_cpp_sdk.Base.{
  Bool, Bool-cases, List, Option, Text, [], arith, assign, false, if◌then◌else◌, inl, inr, is_empty,
  is_some, lookup, lookup-assign, none, not, refl, some, subst, text_eq, text_eq_iff, text_eq_refl,
  true, ℕ, ◌%◌, ◌&&◌, ◌+◌, ◌<◌, ◌||◌, ◌∙◌, ◌∷◌, ◌≡◌,
}
use unleash_cpp_sdk.Metrics.Counters.{
  MetricToggle, bit, fresh_toggle, make_enable, make_variant_toggle, stat, stat-count_variant,
  uint_mod, update_enable_metric, update_enable_metric-no_count, update_enable_metric-stats,
  update_enable_metric-yes_count, update_variant_metric,
}
use unleash_cpp_sdk.Metrics.MetricList.{
  MetricList, Report, add, add_all, add_enable_metric_data, add_variant_metric_data, enable,
  variant,
}

-- How many of the reports pass a test.
unfoldable pub count_if : (Report → Bool) → List Report → ℕ
count_if p [] = 0
count_if p (r ∷ rs) = bit (p r) + count_if p rs

unfoldable pub names : Text → Report → Bool
names k (enable name b) = text_eq name k
names k (variant name b v) = text_eq name k

unfoldable pub says : Text → Bool → Report → Bool
says k answer (enable name b) = text_eq name k && (if answer then b else not b)
says k answer (variant name b v) = text_eq name k && (if answer then b else not b)

-- An empty variant name is not counted.
unfoldable pub serves : Text → Text → Report → Bool
serves k w (enable name b) = false
serves k w (variant name b v) = text_eq name k && (not (is_empty v) && text_eq v w)

-- A number read off an entry; 0 where there is none.
read : (MetricToggle → ℕ) → Option MetricToggle → ℕ
read f none = 0
read f (some t) = f t

-- The counters that the list holds for a toggle; 0 where it has no entry.
unfoldable pub yes_count : Text → MetricList → ℕ
unfolding read
yes_count k l = read (λ t. t.yes_count) (lookup k l)

unfoldable pub no_count : Text → MetricList → ℕ
unfolding read
no_count k l = read (λ t. t.no_count) (lookup k l)

unfoldable pub variant_count : Text → Text → MetricList → ℕ
unfolding read
variant_count k w l = read (λ t. stat w t.variants_stats) (lookup k l)

pub counts-none :
    (k : Text) (l : MetricList)
    → lookup k l ≡ none
    → (yes_count k l ≡ 0) × (no_count k l ≡ 0) × ((w : Text) → variant_count k w l ≡ 0)
unfolding yes_count no_count variant_count read
counts-none k l e = (rw e, rw e, λ w. rw e)

pub counts-some :
    (k : Text) (l : MetricList) (t : MetricToggle)
    → lookup k l ≡ some t
    → (yes_count k l ≡ t.yes_count)
      × (no_count k l ≡ t.no_count)
      × ((w : Text) → variant_count k w l ≡ stat w t.variants_stats)
unfolding yes_count no_count variant_count read
counts-some k l t e = (rw e, rw e, λ w. rw e)

or_fresh : Text → Option MetricToggle → MetricToggle
or_fresh name none = fresh_toggle name
or_fresh name (some t) = t

update : Report → MetricToggle → MetricToggle
update (enable name b) t = update_enable_metric b t
update (variant name b v) t = update_variant_metric b v t

key : Report → Text
key (enable name b) = name
key (variant name b v) = name

add-assign :
    (r : Report) (l : MetricList)
    → add r l ≡ assign (key r) (update r (or_fresh (key r) (lookup (key r) l))) l
unfolding add key update or_fresh add_enable_metric_data add_variant_metric_data make_enable
    make_variant_toggle
add-assign (enable name b) l = ground arith
add-assign (variant name b v) l = ground arith

-- One report changes the entry of its toggle, which is made if it is not there.
lookup-add :
    (k : Text) (r : Report) (l : MetricList)
    → lookup k (add r l) ≡ (
        if text_eq (key r) k
        then some (update r (or_fresh (key r) (lookup (key r) l)))
        else lookup k l)
lookup-add k r l =
    rw (add-assign r l) (lookup-assign (key r) k (update r (or_fresh (key r) (lookup (key r) l))) l)

update-yes_count :
    (r : Report) (t : MetricToggle)
    → t.yes_count < uint_mod
    → (update r t).yes_count ≡ (t.yes_count + bit (says (key r) true r)) % uint_mod
unfolding update says key update_variant_metric
update-yes_count (enable name b) t h =
    ground (arith, text_eq_refl name, update_enable_metric-yes_count b t)
update-yes_count (variant name b v) t h =
    ground (arith, text_eq_refl name, update_enable_metric-yes_count b t)

update-no_count :
    (r : Report) (t : MetricToggle)
    → t.no_count < uint_mod
    → (update r t).no_count ≡ (t.no_count + bit (says (key r) false r)) % uint_mod
unfolding update says key update_variant_metric
update-no_count (enable name b) t h =
    ground (arith, text_eq_refl name, update_enable_metric-no_count b t)
update-no_count (variant name b v) t h =
    ground (arith, text_eq_refl name, update_enable_metric-no_count b t)

update-stat :
    (w : Text) (r : Report) (t : MetricToggle)
    → stat w t.variants_stats < uint_mod
    → stat w (update r t).variants_stats
      ≡ (stat w t.variants_stats + bit (serves (key r) w r)) % uint_mod
unfolding update serves key update_variant_metric
update-stat w (enable name b) t h = ground (arith, update_enable_metric-stats b t)
update-stat w (variant name b v) t h =
    rw (text_eq_refl name, update_enable_metric-stats b t)
      (stat-count_variant v w t.variants_stats h)

says-other : (k : Text) (a : Bool) (r : Report) → text_eq (key r) k ≡ false → says k a r ≡ false
unfolding says key
says-other k a (enable name b) h = rw h
says-other k a (variant name b v) h = rw h

serves-other : (k w : Text) (r : Report) → text_eq (key r) k ≡ false → serves k w r ≡ false
unfolding serves key
serves-other k w (enable name b) h = refl
serves-other k w (variant name b v) h = rw h

-- A counter `f` that each report moves by the test `p`.
module _ (f : MetricToggle → ℕ) (p : Text → Report → Bool)
    (fresh : (name : Text) → f (fresh_toggle name) ≡ 0)
    (moved : (r : Report) (t : MetricToggle)
      → f t < uint_mod
      → f (update r t) ≡ (f t + bit (p (key r) r)) % uint_mod)
    (other : (k : Text) (r : Report) → text_eq (key r) k ≡ false → p k r ≡ false) where
  read-or_fresh : (name : Text) (o : Option MetricToggle) → f (or_fresh name o) ≡ read f o
  unfolding or_fresh read
  read-or_fresh name none = fresh name
  read-or_fresh name (some t) = refl

  Moves : Text → Report → MetricList → Type 0
  Moves k r l =
      read f (lookup k l) < uint_mod
      → read f (lookup k (add r l)) ≡ (read f (lookup k l) + bit (p k r)) % uint_mod

  read-add_self : (r : Report) (l : MetricList) → Moves (key r) r l
  unfolding Moves read
  read-add_self r l h =
      let t = or_fresh (key r) (lookup (key r) l) in
      let e = read-or_fresh (key r) (lookup (key r) l) in
      rw (lookup-add (key r) r l, text_eq_refl (key r)) (rw (← e) (moved r t (omega (arith, e))))

  read-add : (k : Text) (r : Report) (l : MetricList) → Moves k r l
  unfolding Moves
  read-add k r l h = elim (Bool-cases (text_eq (key r) k)) [
    | inl e ↦ subst (λ j. Moves j r l) ((text_eq_iff (key r) k).0 e) (read-add_self r l) h
    | inr e ↦ rw (lookup-add k r l, e, other k r e) (omega arith)
  ]

  read-add_all :
      (k : Text) (rs : List Report) (l : MetricList)
      → read f (lookup k l) < uint_mod
      → read f (lookup k (add_all rs l)) ≡ (read f (lookup k l) + count_if (p k) rs) % uint_mod
  unfolding add_all count_if Moves
  read-add_all k [] l h = omega arith
  read-add_all k (r ∷ rs) l h =
      let e = read-add k r l h in omega (arith, e, read-add_all k rs (add r l) (omega (arith, e)))

  read-new :
      (k : Text) (rs : List Report)
      → read f (lookup k (add_all rs [])) ≡ count_if (p k) rs % uint_mod
  unfolding read lookup
  read-new k rs = omega (arith, read-add_all k rs [] (omega arith))

-- After any reports to a new list, the yes and the no counter of a toggle are the numbers of its
-- reports with that answer, modulo 2^32: of enable and variant reports together.
pub add_all-yes_no :
    (k : Text) (rs : List Report)
    → (yes_count k (add_all rs []) ≡ count_if (says k true) rs % uint_mod)
      × (no_count k (add_all rs []) ≡ count_if (says k false) rs % uint_mod)
unfolding yes_count no_count
add_all-yes_no k rs = (
  read-new (λ t. t.yes_count) (λ j. says j true) (λ name. refl) update-yes_count
        (λ j. says-other j true) k rs
      ∙ refl,
  read-new (λ t. t.no_count) (λ j. says j false) (λ name. refl) update-no_count
        (λ j. says-other j false) k rs
      ∙ refl,
)

-- After any reports to a new list, the counter of a variant of a toggle is the number of variant
-- reports of that toggle that name it, modulo 2^32; the empty name is never counted.
pub add_all-variant :
    (k w : Text) (rs : List Report)
    → variant_count k w (add_all rs []) ≡ count_if (serves k w) rs % uint_mod
unfolding variant_count stat lookup
add_all-variant k w rs =
    read-new (λ t. stat w t.variants_stats) (λ j. serves j w) (λ name. refl) (update-stat w)
      (λ j. serves-other j w) k rs

unfoldable pub any_of : (Report → Bool) → List Report → Bool
any_of p [] = false
any_of p (r ∷ rs) = p r || any_of p rs

names-key : (k : Text) (r : Report) → names k r ≡ text_eq (key r) k
unfolding names key
names-key k (enable name b) = refl
names-key k (variant name b v) = refl

is_some-add_all :
    (k : Text) (rs : List Report) (l : MetricList)
    → is_some (lookup k (add_all rs l)) ≡ (is_some (lookup k l) || any_of (names k) rs)
unfolding add_all any_of
is_some-add_all k [] l = ground arith
is_some-add_all k (r ∷ rs) l =
    ground (arith, is_some-add_all k rs (add r l), lookup-add k r l, names-key k r)

-- The list has an entry for exactly the toggles that some report names.
pub add_all-entries :
    (k : Text) (rs : List Report) → is_some (lookup k (add_all rs [])) ≡ any_of (names k) rs
unfolding lookup
add_all-entries k rs = is_some-add_all k rs []
