-- ===== src/Config.antt =====
-- clientConfig.hpp and clientConfig.cpp. `W` is the state that a storage provider reads and writes.
pub mod Validity
pub mod Getters
use unleash_cpp_sdk.Base.{
  Bool, Dict, Option, Text, [], false, if◌then◌else◌, is_empty, ltb_ℤ, none, not, pos, some, true,
  ℕ, ℤ, ◌||◌,
}
use unleash_cpp_sdk.Domain.Variant.{Toggle}
use unleash_cpp_sdk.Domain.Context.{default_app_name}
use unleash_cpp_sdk.Utils.Strings.{default_header_name, default_instance_id}
use unleash_cpp_sdk.Utils.Uuid.{uuidv4_generator}
use unleash_cpp_sdk.Store.Provider.{Provider, local_provider}

-- Intervals are in seconds, the time-out in milliseconds.
pub record ClientConfig (W : Type 0) : Type 0 where
  pub url : Text
  pub client_key : Text
  pub app_name : Text
  pub connection_id : Text
  pub refresh_interval : ℤ
  pub metrics_interval : ℤ
  pub metrics_interval_initial : ℤ
  pub bootstrap : Option (Dict Toggle)
  pub bootstrap_override : Bool
  pub header_name : Text
  pub custom_headers : Dict Text
  pub impression_data_all : Bool
  pub use_post_requests : Bool
  pub instance_id : Text
  pub time_out_query_ms : ℤ
  pub storage_provider : Provider W

-- The setters, each with its argument.
pub data ConfigSetting (W : Type 0) : Type 0 where
  instance_id header_name : Text → ConfigSetting W
  refresh_interval metrics_interval metrics_interval_initial : ℤ → ConfigSetting W
  time_out_query_ms : ℤ → ConfigSetting W
  bootstrap : Dict Toggle → ConfigSetting W
  bootstrap_override impression_data_all use_post_requests : Bool → ConfigSetting W
  custom_headers : Dict Text → ConfigSetting W
  storage_provider : Option (Provider W) → ConfigSetting W

module _ {W : Type 0} where
  -- `draw` is what the random generator of `uuidv4Generator` draws.
  unfoldable pub make_config : Text → Text → Text → (ℕ → ℕ) → ClientConfig W
  make_config url client_key app_name draw = record {
    url = url;
    client_key = client_key;
    app_name = if is_empty app_name then default_app_name else app_name;
    connection_id = uuidv4_generator draw;
    refresh_interval = pos 15;
    metrics_interval = pos 60;
    metrics_interval_initial = pos 0;
    bootstrap = none;
    bootstrap_override = true;
    header_name = default_header_name;
    custom_headers = [];
    impression_data_all = false;
    use_post_requests = false;
    instance_id = default_instance_id;
    time_out_query_ms = pos 5000;
    storage_provider = local_provider;
  }

  -- A null provider is ignored.
  unfoldable pub configure : ConfigSetting W → ClientConfig W → ClientConfig W
  configure (instance_id s) c = record c { instance_id = s }
  configure (header_name s) c = record c { header_name = s }
  configure (refresh_interval s) c = record c { refresh_interval = s }
  configure (metrics_interval s) c = record c { metrics_interval = s }
  configure (metrics_interval_initial s) c = record c { metrics_interval_initial = s }
  configure (time_out_query_ms m) c = record c { time_out_query_ms = m }
  configure (bootstrap b) c = record c { bootstrap = some b }
  configure (bootstrap_override v) c = record c { bootstrap_override = v }
  configure (impression_data_all v) c = record c { impression_data_all = v }
  configure (use_post_requests v) c = record c { use_post_requests = v }
  configure (custom_headers h) c = record c { custom_headers = h }
  configure (storage_provider none) c = c
  configure (storage_provider (some p)) c = record c { storage_provider = p }

  unfoldable pub is_refresh_enabled : ClientConfig W → Bool
  is_refresh_enabled c = ltb_ℤ (pos 0) c.refresh_interval

  unfoldable pub is_metrics_enabled : ClientConfig W → Bool
  is_metrics_enabled c = ltb_ℤ (pos 0) c.metrics_interval

  unfoldable pub is_valid : ClientConfig W → Bool
  is_valid c = not (
      is_empty c.url
      || (is_empty c.client_key
          || (ltb_ℤ c.refresh_interval (pos 0)
              || (ltb_ℤ c.metrics_interval (pos 0) || ltb_ℤ c.metrics_interval_initial (pos 0)))))
