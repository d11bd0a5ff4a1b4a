-- ===== src/Metrics/Counters.antt =====
-- metricToggle.hpp and metricToggle.cpp: the counters of one toggle, of type `unsigned int`, which
-- wraps at 2^32.
pub mod Getters
use unleash_cpp_sdk.Base.{
  Bool, Dict, Option, Text, [], arith, assign, false, if◌then◌else◌, is_empty, lookup,
  lookup-assign, none, not, some, text_eq, text_eq_iff, true, ℕ, ◌%◌, ◌&&◌, ◌+◌, ◌<◌, ◌≡◌,
}

abbrev pub uint_mod : ℕ
uint_mod = 4294967296

pub record MetricToggle : Type 0 where
  pub toggle_name : Text
  pub variants_stats : Dict ℕ
  pub yes_count : ℕ
  pub no_count : ℕ

-- `++n`
unfoldable pub increment : ℕ → ℕ
increment n = (n + 1) % uint_mod

unfoldable pub or_zero : Option ℕ → ℕ
or_zero none = 0
or_zero (some n) = n

-- `m[k]` reads 0 where `k` is new.
unfoldable pub stat : Text → Dict ℕ → ℕ
unfolding or_zero
stat k m = or_zero (lookup k m)

unfoldable pub update_enable_metric : Bool → MetricToggle → MetricToggle
unfolding increment
update_enable_metric is_yes t =
    if is_yes
    then record t { yes_count = increment t.yes_count }
    else record t { no_count = increment t.no_count }

-- `if (!p_variantName.empty()) ++_variantsStats[p_variantName]`
unfoldable pub count_variant : Text → Dict ℕ → Dict ℕ
unfolding stat increment
count_variant v m = if is_empty v then m else assign v (increment (stat v m)) m

unfoldable pub update_variant_metric : Bool → Text → MetricToggle → MetricToggle
unfolding update_enable_metric count_variant
update_variant_metric is_yes v t =
    let t' = update_enable_metric is_yes t in
    record t' { variants_stats = count_variant v t'.variants_stats }

abbrev pub fresh_toggle : Text → MetricToggle
fresh_toggle name = record { toggle_name = name; variants_stats = []; yes_count = 0; no_count = 0 }

-- The two constructors.
unfoldable pub make_enable : Text → Bool → MetricToggle
unfolding update_enable_metric
make_enable name is_yes = update_enable_metric is_yes (fresh_toggle name)

unfoldable pub make_variant_toggle : Text → Bool → Text → MetricToggle
unfolding update_variant_metric
make_variant_toggle name is_yes v = update_variant_metric is_yes v (fresh_toggle name)

-- 1 for true.
abbrev pub bit : Bool → ℕ
bit true = 1
bit false = 0

pub update_enable_metric-yes_count :
    (b : Bool) (t : MetricToggle)
    → t.yes_count < uint_mod
    → (update_enable_metric b t).yes_count ≡ (t.yes_count + bit b) % uint_mod
unfolding update_enable_metric
update_enable_metric-yes_count b t h = ground arith

pub update_enable_metric-no_count :
    (b : Bool) (t : MetricToggle)
    → t.no_count < uint_mod
    → (update_enable_metric b t).no_count ≡ (t.no_count + bit (not b)) % uint_mod
unfolding update_enable_metric
update_enable_metric-no_count b t h = ground arith

pub update_enable_metric-stats :
    (b : Bool) (t : MetricToggle) → (update_enable_metric b t).variants_stats ≡ t.variants_stats
unfolding update_enable_metric
update_enable_metric-stats b t = ground arith

pub stat-count_variant :
    (v w : Text) (m : Dict ℕ)
    → stat w m < uint_mod
    → stat w (count_variant v m) ≡ (stat w m + bit (not (is_empty v) && text_eq v w)) % uint_mod
unfolding count_variant stat
stat-count_variant v w m h =
    ground (arith, lookup-assign v w (increment (stat v m)) m, text_eq_iff v w)
