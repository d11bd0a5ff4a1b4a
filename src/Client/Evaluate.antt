-- ===== src/Client/Evaluate.antt =====
-- `isEnabled`, `getVariant` and `impressionData` of the client.
pub mod Effects
pub mod Sound
pub mod Questions
use unleash_cpp_sdk.Base.{Bool, Text, [], codes, false, if◌then◌else◌, not, ◌||◌}
use unleash_cpp_sdk.Client.State.{Client}
use unleash_cpp_sdk.Domain.Variant.{Variant, disabled_factory}
use unleash_cpp_sdk.Domain.Toggles as Toggles
use unleash_cpp_sdk.Events.{ClientImpression, emit, impression}
use unleash_cpp_sdk.Store.Flags.{snapshot}
use unleash_cpp_sdk.Metrics.MetricList as Reports
use unleash_cpp_sdk.Metrics.MetricsStore.{add_metric}

module _ {W : Type 0} where
  -- `impression` is the toggle's own setting, which the event carries.
  emit_impression : Bool → ClientImpression → Client W → Client W
  emit_impression wanted e c =
      if c.config.impression_data_all || wanted
      then record c { event_handler = emit (impression e) c.event_handler }
      else c

  count_report : Reports.Report → Client W → Client W
  count_report r c = record c { metric_store = add_metric r c.metric_store }

  unfoldable pub is_enabled : Text → Client W → Client W × Bool
  unfolding emit_impression count_report
  is_enabled name c =
      let set = snapshot c.flag_store in
      let enabled = Toggles.is_enabled name set in
      let wanted = Toggles.impression_data name set in
      if not c.ready then (c, false) else if not (Toggles.contains name set) then (c, false) else (
        emit_impression wanted
            (record {
              ctx = c.context;
              flag_name = name;
              enabled = enabled;
              event_type = codes "isEnabled";
              impression_data = wanted;
              variant = [];
            })
            (count_report (Reports.enable name enabled) c),
        enabled,
      )

  unfoldable pub get_variant : Text → Client W → Client W × Variant
  unfolding emit_impression count_report
  get_variant name c =
      let set = snapshot c.flag_store in
      let enabled = Toggles.is_enabled name set in
      let variant = Toggles.get_variant name set in
      let wanted = Toggles.impression_data name set in
      if not c.ready
      then (c, disabled_factory)
      else if not (Toggles.contains name set)
      then (c, disabled_factory)
      else (
        emit_impression wanted
            (record {
              ctx = c.context;
              flag_name = name;
              enabled = enabled;
              event_type = codes "getVariant";
              impression_data = wanted;
              variant = variant.name;
            })
            (count_report (Reports.variant name enabled variant.name) c),
        variant,
      )

  unfoldable pub impression_data : Text → Client W → Bool
  impression_data name c = Toggles.impression_data name (snapshot c.flag_store)
