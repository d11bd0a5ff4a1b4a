-- ===== src/Tests/Values.antt =====
-- Toggles, contexts, texts and counters.
use unleash_cpp_sdk.Utils.Times.{read_minutes, zone_offset, zone_offset_iff}
use unleash_cpp_sdk.Base.{
  List, [], codes, false, lookup, neg_part, negsuc, quot, refl, some, text_eq, true, ◌<◌, ◌↔◌, ◌∷◌,
  ◌≡◌, ◌≤◌, ◌⊎◌,
}
use unleash_cpp_sdk.Domain.Context.{
  Setting, empty_mutable, is_reserved_context_key, property, user_id,
}
use unleash_cpp_sdk.Domain.Context.Properties.{apply_all, last_value, lookup-apply_all}
use unleash_cpp_sdk.Metrics.MetricList.{Report, add_all, enable, variant}
use unleash_cpp_sdk.Metrics.MetricList.Counts.{add_all-yes_no, count_if, no_count, says, yes_count}
use unleash_cpp_sdk.Transport.Headers.{mem, trim_string}
use unleash_cpp_sdk.Transport.Headers.Trim.{strip_left, strip_right, trim_string-strip}

abbrev settings : List Setting
settings =
    user_id (codes "ann")
    ∷ property (codes "userId") (codes "bob")
    ∷ property (codes "plan") (codes "free")
    ∷ property (codes "plan") (codes "paid")
    ∷ []

lookup-apply_all_example :
    lookup (codes "plan") (apply_all settings empty_mutable).properties ≡ some (codes "paid")
unfolding last_value is_reserved_context_key text_eq
lookup-apply_all_example = lookup-apply_all (codes "plan") settings empty_mutable (refl, refl)

abbrev reports : List Report
reports =
    enable (codes "plain") true
    ∷ variant (codes "tried") true (codes "blue")
    ∷ enable (codes "plain") false
    ∷ variant (codes "tried") true (codes "blue")
    ∷ []

add_all-yes_no_example :
    (yes_count (codes "tried") (add_all reports []) ≡ 2)
    × (no_count (codes "tried") (add_all reports []) ≡ 0)
unfolding count_if says text_eq
add_all-yes_no_example = add_all-yes_no (codes "tried") reports

trim_string-strip_example : trim_string (codes " a b ") (codes " ") ≡ codes "a b"
unfolding strip_right strip_left mem
trim_string-strip_example = trim_string-strip (codes " a b ") (codes " ")

zone_offset_iff_example :
    (read_minutes (zone_offset (negsuc 1799)) ≡ quot (negsuc 1799) 60)
    ↔ ((neg_part (negsuc 1799) < 60) ⊎ (3600 ≤ neg_part (negsuc 1799)))
zone_offset_iff_example = zone_offset_iff (negsuc 1799)
