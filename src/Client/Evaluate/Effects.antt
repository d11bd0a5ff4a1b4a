-- ===== src/Client/Evaluate/Effects.antt =====
-- What an evaluation answers, and what it leaves behind.
use unleash_cpp_sdk.Base.{Bool, Text, [], arith, codes, if◌then◌else◌, ◌&&◌, ◌||◌, ◌≡◌}
use unleash_cpp_sdk.Client.State.{Client}
use unleash_cpp_sdk.Client.Evaluate as Evaluate
use unleash_cpp_sdk.Domain.Variant.{disabled_factory}
use unleash_cpp_sdk.Domain.Toggles as Toggles
use unleash_cpp_sdk.Events.{emit, impression}
use unleash_cpp_sdk.Metrics.MetricList.{enable, variant}
use unleash_cpp_sdk.Metrics.MetricsStore.{add_metric}
use unleash_cpp_sdk.Store.Flags.{snapshot}

module _ {W : Type 0} where
  -- The client is ready and the flag is in its snapshot.
  unfoldable pub is_known : Text → Client W → Bool
  is_known name c = c.ready && Toggles.contains name (snapshot c.flag_store)

  unfoldable pub wants_impression : Text → Client W → Bool
  wants_impression name c =
      c.config.impression_data_all || Toggles.impression_data name (snapshot c.flag_store)

  -- `isEnabled` answers true exactly if the client is ready and the snapshot has the flag enabled. It
  -- reports this answer once to the metrics, if the client is ready and the flag is known, and then
  -- emits an impression if the configuration or the flag asks for it; else the counters and
  -- the event handler stay as they are. The snapshot always stays as it is.
  pub is_enabled_lem :
      (name : Text) (c : Client W)
      → let enabled = Toggles.is_enabled name (snapshot c.flag_store) in
        ((Evaluate.is_enabled name c).1 ≡ (c.ready && enabled))
        × ((Evaluate.is_enabled name c).0.metric_store ≡ (
            if is_known name c
            then add_metric (enable name enabled) c.metric_store
            else c.metric_store))
        × ((Evaluate.is_enabled name c).0.event_handler ≡ (
            if is_known name c && wants_impression name c
            then emit
                (impression (record {
                  ctx = c.context;
                  flag_name = name;
                  enabled = enabled;
                  event_type = codes "isEnabled";
                  impression_data = Toggles.impression_data name (snapshot c.flag_store);
                  variant = [];
                }))
                c.event_handler
            else c.event_handler))
        × ((Evaluate.is_enabled name c).0.flag_store ≡ c.flag_store)
  unfolding Evaluate.is_enabled is_known wants_impression
  is_enabled_lem name c = ground (arith, Toggles.is_enabled-missing name (snapshot c.flag_store))

  -- `getVariant` answers with the flag's variant if the client is ready, and with the disabled variant
  -- otherwise or if the flag is unknown. It reports the flag's state and the variant's name once to the
  -- metrics, if the client is ready and the flag is known, and then emits an impression if the
  -- configuration or the flag asks for it; else the counters and the event handler stay
  -- as they are. The snapshot always stays as it is.
  pub get_variant_lem :
      (name : Text) (c : Client W)
      → let variant_of = Toggles.get_variant name (snapshot c.flag_store) in
        let enabled = Toggles.is_enabled name (snapshot c.flag_store) in
        ((Evaluate.get_variant name c).1 ≡ (if c.ready then variant_of else disabled_factory))
        × ((Evaluate.get_variant name c).0.metric_store ≡ (
            if is_known name c
            then add_metric (variant name enabled variant_of.name) c.metric_store
            else c.metric_store))
        × ((Evaluate.get_variant name c).0.event_handler ≡ (
            if is_known name c && wants_impression name c
            then emit
                (impression (record {
                  ctx = c.context;
                  flag_name = name;
                  enabled = enabled;
                  event_type = codes "getVariant";
                  impression_data = Toggles.impression_data name (snapshot c.flag_store);
                  variant = variant_of.name;
                }))
                c.event_handler
            else c.event_handler))
        × ((Evaluate.get_variant name c).0.flag_store ≡ c.flag_store)
  unfolding Evaluate.get_variant is_known wants_impression
  get_variant_lem name c = ground (arith, Toggles.get_variant-missing name (snapshot c.flag_store))

  pub is_enabled-ready :
      (name : Text) (c : Client W) → (Evaluate.is_enabled name c).0.ready ≡ c.ready
  unfolding Evaluate.is_enabled
  is_enabled-ready name c = ground arith

  pub get_variant-ready :
      (name : Text) (c : Client W) → (Evaluate.get_variant name c).0.ready ≡ c.ready
  unfolding Evaluate.get_variant
  get_variant-ready name c = ground arith

  pub is_enabled-metric_sender :
      (name : Text) (c : Client W) → (Evaluate.is_enabled name c).0.metric_sender ≡ c.metric_sender
  unfolding Evaluate.is_enabled
  is_enabled-metric_sender name c = ground arith

  pub get_variant-metric_sender :
      (name : Text) (c : Client W) → (Evaluate.get_variant name c).0.metric_sender ≡ c.metric_sender
  unfolding Evaluate.get_variant
  get_variant-metric_sender name c = ground arith
