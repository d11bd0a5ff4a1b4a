-- ===== src/Metrics/MetricList/Counts/Ordered.antt =====
-- The maps of the metric list stay in the order of their keys.
use unleash_cpp_sdk.Base.{
  All, Bool, Bool-cases, Dict, IsSorted, List, Option-cases, Text, [], assign, assign-IsSorted,
  false, if◌then◌else◌, inl, inr, lookup, some, subst, text_eq, text_lt, true, ℕ, ◌∷◌, ◌≡◌,
}
use unleash_cpp_sdk.Metrics.Counters.{
  MetricToggle, count_variant, update_enable_metric-stats, update_variant_metric,
}
use unleash_cpp_sdk.Metrics.MetricList.{MetricList, Report, add, add_all, enable, variant}
use unleash_cpp_sdk.Metrics.MetricList.Counts.{add-assign, key, or_fresh, update}

abbrev HasOrder : MetricToggle → Type 0
HasOrder t = IsSorted t.variants_stats

abbrev EachHasOrder : MetricList → Type 0
EachHasOrder = All (λ (e : Text × MetricToggle). HasOrder e.1)

-- The entries ascend by name, and the variants of each entry too.
abbrev pub AreOrdered : MetricList → Type 0
AreOrdered l = IsSorted l × EachHasOrder l

cond-EachHasOrder :
    (b : Bool) (l m : MetricList)
    → EachHasOrder l
    → EachHasOrder m
    → EachHasOrder (if b then l else m)
cond-EachHasOrder true l m h k = h
cond-EachHasOrder false l m h k = k

assign-EachHasOrder :
    (k : Text) (t : MetricToggle) (l : MetricList)
    → HasOrder t
    → EachHasOrder l
    → EachHasOrder (assign k t l)
unfolding assign
assign-EachHasOrder k t [] h a = (h, tt)
assign-EachHasOrder k t ((j, u) ∷ l) h a =
    cond-EachHasOrder (text_eq j k) _ _ (h, a.1)
      (cond-EachHasOrder (text_lt k j) _ _ (h, (a.0, a.1)) (a.0, assign-EachHasOrder k t l h a.1))

pub lookup-HasOrder :
    (k : Text) (l : MetricList) (t : MetricToggle)
    → EachHasOrder l
    → lookup k l ≡ some t
    → IsSorted t.variants_stats
unfolding lookup
lookup-HasOrder k [] t a e = absurd (cc)
lookup-HasOrder k ((j, u) ∷ l) t a e = elim (Bool-cases (text_eq j k)) [
  | inl f ↦ let g : some u ≡ some t = rw f at e in let h : u ≡ t = cc in subst HasOrder h a.0
  | inr f ↦ lookup-HasOrder k l t a.1 (rw f at e)
]

or_fresh-HasOrder :
    (k : Text) (name : Text) (l : MetricList)
    → EachHasOrder l
    → HasOrder (or_fresh name (lookup k l))
unfolding or_fresh
or_fresh-HasOrder k name l a = elim (Option-cases (lookup k l)) [
  | inl e ↦ rw e tt
  | inr (t, e) ↦ rw e (lookup-HasOrder k l t a e)
]

count_variant-IsSorted : (v : Text) (m : Dict ℕ) → IsSorted m → IsSorted (count_variant v m)
unfolding count_variant
count_variant-IsSorted [] m s = s
count_variant-IsSorted (c ∷ v) m s = assign-IsSorted (c ∷ v) _ m s

update-HasOrder : (r : Report) (t : MetricToggle) → HasOrder t → HasOrder (update r t)
unfolding update update_variant_metric
update-HasOrder (enable name b) t h = rw (update_enable_metric-stats b t) h
update-HasOrder (variant name b v) t h =
    rw (update_enable_metric-stats b t) (count_variant-IsSorted v t.variants_stats h)

add-AreOrdered : (r : Report) (l : MetricList) → AreOrdered l → AreOrdered (add r l)
add-AreOrdered r l (s, a) = rw (add-assign r l) (
  assign-IsSorted (key r) _ l s,
  assign-EachHasOrder (key r) _ l (update-HasOrder r _ (or_fresh-HasOrder (key r) (key r) l a)) a,
)

pub add_all-AreOrdered :
    (rs : List Report) (l : MetricList) → AreOrdered l → AreOrdered (add_all rs l)
unfolding add_all
add_all-AreOrdered [] l h = h
add_all-AreOrdered (r ∷ rs) l h = add_all-AreOrdered rs (add r l) (add-AreOrdered r l h)
