-- ===== src/Metrics/Counters/Getters.antt =====
-- The getters of the metrics, and the clock.
use unleash_cpp_sdk.Base.{Bool, Dict, Text, [], false, not, refl, true, ℕ, ◌≡◌}
use unleash_cpp_sdk.Metrics.Counters.{MetricToggle, bit, make_enable}

unfoldable pub get_toggle_name : MetricToggle → Text
get_toggle_name t = t.toggle_name

unfoldable pub get_variant_stats : MetricToggle → Dict ℕ
get_variant_stats t = t.variants_stats

unfoldable pub get_yes_count : MetricToggle → ℕ
get_yes_count t = t.yes_count

unfoldable pub get_no_count : MetricToggle → ℕ
get_no_count t = t.no_count

-- The first report of a toggle counts one, on the side of its answer.
pub make_enable-getters :
    (name : Text) (is_yes : Bool)
    → (get_toggle_name (make_enable name is_yes) ≡ name)
      × (get_yes_count (make_enable name is_yes) ≡ bit is_yes)
      × (get_no_count (make_enable name is_yes) ≡ bit (not is_yes))
      × (get_variant_stats (make_enable name is_yes) ≡ [])
unfolding get_toggle_name get_yes_count get_no_count get_variant_stats make_enable
make_enable-getters name true = (refl, refl, refl, refl)
make_enable-getters name false = (refl, refl, refl, refl)
