-- ===== src/Config/Getters.antt =====
-- The getters of the configuration after any sequence of its setters.
pub mod Settings
use unleash_cpp_sdk.Base.{Bool, Dict, List, Option, Text, [], none, some, ℤ, ◌∷◌}
use unleash_cpp_sdk.Domain.Variant.{Toggle}
use unleash_cpp_sdk.Store.Provider.{Provider}
use unleash_cpp_sdk.Config.{
  ClientConfig, ConfigSetting, bootstrap, bootstrap_override, configure, custom_headers,
  header_name, impression_data_all, instance_id, metrics_interval, metrics_interval_initial,
  refresh_interval, storage_provider, time_out_query_ms, use_post_requests,
}

module _ {W : Type 0} where
  -- A chain of setters.
  unfoldable pub configure_all : List (ConfigSetting W) → ClientConfig W → ClientConfig W
  configure_all [] c = c
  configure_all (s ∷ ss) c = configure_all ss (configure s c)

  unfoldable pub get_url : ClientConfig W → Text
  get_url c = c.url

  unfoldable pub get_client_key : ClientConfig W → Text
  get_client_key c = c.client_key

  unfoldable pub get_app_name : ClientConfig W → Text
  get_app_name c = c.app_name

  unfoldable pub get_connection_id : ClientConfig W → Text
  get_connection_id c = c.connection_id

  unfoldable pub get_instance_id : ClientConfig W → Text
  get_instance_id c = c.instance_id

  unfoldable pub get_header_name : ClientConfig W → Text
  get_header_name c = c.header_name

  unfoldable pub get_refresh_interval : ClientConfig W → ℤ
  get_refresh_interval c = c.refresh_interval

  unfoldable pub get_metrics_interval : ClientConfig W → ℤ
  get_metrics_interval c = c.metrics_interval

  unfoldable pub get_metrics_interval_initial : ClientConfig W → ℤ
  get_metrics_interval_initial c = c.metrics_interval_initial

  unfoldable pub get_time_out_query_ms : ClientConfig W → ℤ
  get_time_out_query_ms c = c.time_out_query_ms

  unfoldable pub get_bootstrap : ClientConfig W → Option (Dict Toggle)
  get_bootstrap c = c.bootstrap

  unfoldable pub get_bootstrap_override : ClientConfig W → Bool
  get_bootstrap_override c = c.bootstrap_override

  unfoldable pub get_impression_data_all : ClientConfig W → Bool
  get_impression_data_all c = c.impression_data_all

  unfoldable pub get_use_post_requests : ClientConfig W → Bool
  get_use_post_requests c = c.use_post_requests

  unfoldable pub get_custom_headers : ClientConfig W → Dict Text
  get_custom_headers c = c.custom_headers

  unfoldable pub get_storage_provider : ClientConfig W → Provider W
  get_storage_provider c = c.storage_provider

  -- What a setter gives for each field.
  abbrev pub given_instance_id : ConfigSetting W → Option (Text)
  given_instance_id (instance_id v) = some v
  given_instance_id _ = none

  abbrev pub given_header_name : ConfigSetting W → Option (Text)
  given_header_name (header_name v) = some v
  given_header_name _ = none

  abbrev pub given_refresh_interval : ConfigSetting W → Option (ℤ)
  given_refresh_interval (refresh_interval v) = some v
  given_refresh_interval _ = none

  abbrev pub given_metrics_interval : ConfigSetting W → Option (ℤ)
  given_metrics_interval (metrics_interval v) = some v
  given_metrics_interval _ = none

  abbrev pub given_metrics_interval_initial : ConfigSetting W → Option (ℤ)
  given_metrics_interval_initial (metrics_interval_initial v) = some v
  given_metrics_interval_initial _ = none

  abbrev pub given_time_out_query_ms : ConfigSetting W → Option (ℤ)
  given_time_out_query_ms (time_out_query_ms v) = some v
  given_time_out_query_ms _ = none

  abbrev pub given_bootstrap : ConfigSetting W → Option (Option (Dict Toggle))
  given_bootstrap (bootstrap v) = some (some v)
  given_bootstrap _ = none

  abbrev pub given_bootstrap_override : ConfigSetting W → Option (Bool)
  given_bootstrap_override (bootstrap_override v) = some v
  given_bootstrap_override _ = none

  abbrev pub given_impression_data_all : ConfigSetting W → Option (Bool)
  given_impression_data_all (impression_data_all v) = some v
  given_impression_data_all _ = none

  abbrev pub given_use_post_requests : ConfigSetting W → Option (Bool)
  given_use_post_requests (use_post_requests v) = some v
  given_use_post_requests _ = none

  abbrev pub given_custom_headers : ConfigSetting W → Option (Dict Text)
  given_custom_headers (custom_headers v) = some v
  given_custom_headers _ = none

  abbrev pub given_storage_provider : ConfigSetting W → Option (Provider W)
  given_storage_provider (storage_provider v) = v
  given_storage_provider _ = none
