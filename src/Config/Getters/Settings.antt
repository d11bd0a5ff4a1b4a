-- ===== src/Config/Getters/Settings.antt =====
-- Each getter answers the last of its setters.
use unleash_cpp_sdk.Base.{
  List, Option, Text, [], arith, false, if◌then◌else◌, is_empty, last_given, last_given-none, none,
  or_given, pos, refl, true, ℕ, ◌∙◌, ◌∷◌, ◌≡◌,
}
use unleash_cpp_sdk.Domain.Context.{default_app_name}
use unleash_cpp_sdk.Store.Provider.{local_provider}
use unleash_cpp_sdk.Utils.Strings.{default_header_name, default_instance_id}
use unleash_cpp_sdk.Utils.Uuid.{uuidv4_generator}
use unleash_cpp_sdk.Config.{ClientConfig, ConfigSetting, configure, make_config}
use unleash_cpp_sdk.Config.Getters.{
  configure_all, get_app_name, get_bootstrap, get_bootstrap_override, get_client_key,
  get_connection_id, get_custom_headers, get_header_name, get_impression_data_all, get_instance_id,
  get_metrics_interval, get_metrics_interval_initial, get_refresh_interval, get_storage_provider,
  get_time_out_query_ms, get_url, get_use_post_requests, given_bootstrap, given_bootstrap_override,
  given_custom_headers, given_header_name, given_impression_data_all, given_instance_id,
  given_metrics_interval, given_metrics_interval_initial, given_refresh_interval,
  given_storage_provider, given_time_out_query_ms, given_use_post_requests,
}

module _ {W A : Type 0} (get : ClientConfig W → A) (given : ConfigSetting W → Option A)
    (step : (s : ConfigSetting W) (c : ClientConfig W)
      → get (configure s c) ≡ or_given (given s) (get c)) where
  get-configure_all :
      (ss : List (ConfigSetting W)) (c : ClientConfig W)
      → get (configure_all ss c) ≡ last_given given ss (get c)
  unfolding configure_all last_given
  get-configure_all [] c = refl
  get-configure_all (s ∷ ss) c = rw (← step s c) (get-configure_all ss (configure s c))

module _ {W : Type 0} where
  step_instance_id :
      (s : ConfigSetting W) (c : ClientConfig W)
      → get_instance_id (configure s c) ≡ or_given (given_instance_id s) (get_instance_id c)
  unfolding configure or_given get_instance_id
  step_instance_id s c = ground arith

  step_header_name :
      (s : ConfigSetting W) (c : ClientConfig W)
      → get_header_name (configure s c) ≡ or_given (given_header_name s) (get_header_name c)
  unfolding configure or_given get_header_name
  step_header_name s c = ground arith

  step_refresh_interval :
      (s : ConfigSetting W) (c : ClientConfig W)
      → get_refresh_interval (configure s c)
        ≡ or_given (given_refresh_interval s) (get_refresh_interval c)
  unfolding configure or_given get_refresh_interval
  step_refresh_interval s c = ground arith

  step_metrics_interval :
      (s : ConfigSetting W) (c : ClientConfig W)
      → get_metrics_interval (configure s c)
        ≡ or_given (given_metrics_interval s) (get_metrics_interval c)
  unfolding configure or_given get_metrics_interval
  step_metrics_interval s c = ground arith

  step_metrics_interval_initial :
      (s : ConfigSetting W) (c : ClientConfig W)
      → get_metrics_interval_initial (configure s c)
        ≡ or_given (given_metrics_interval_initial s) (get_metrics_interval_initial c)
  unfolding configure or_given get_metrics_interval_initial
  step_metrics_interval_initial s c = ground arith

  step_time_out_query_ms :
      (s : ConfigSetting W) (c : ClientConfig W)
      → get_time_out_query_ms (configure s c)
        ≡ or_given (given_time_out_query_ms s) (get_time_out_query_ms c)
  unfolding configure or_given get_time_out_query_ms
  step_time_out_query_ms s c = ground arith

  step_bootstrap :
      (s : ConfigSetting W) (c : ClientConfig W)
      → get_bootstrap (configure s c) ≡ or_given (given_bootstrap s) (get_bootstrap c)
  unfolding configure or_given get_bootstrap
  step_bootstrap s c = ground arith

  step_bootstrap_override :
      (s : ConfigSetting W) (c : ClientConfig W)
      → get_bootstrap_override (configure s c)
        ≡ or_given (given_bootstrap_override s) (get_bootstrap_override c)
  unfolding configure or_given get_bootstrap_override
  step_bootstrap_override s c = ground arith

  step_impression_data_all :
      (s : ConfigSetting W) (c : ClientConfig W)
      → get_impression_data_all (configure s c)
        ≡ or_given (given_impression_data_all s) (get_impression_data_all c)
  unfolding configure or_given get_impression_data_all
  step_impression_data_all s c = ground arith

  step_use_post_requests :
      (s : ConfigSetting W) (c : ClientConfig W)
      → get_use_post_requests (configure s c)
        ≡ or_given (given_use_post_requests s) (get_use_post_requests c)
  unfolding configure or_given get_use_post_requests
  step_use_post_requests s c = ground arith

  step_custom_headers :
      (s : ConfigSetting W) (c : ClientConfig W)
      → get_custom_headers (configure s c)
        ≡ or_given (given_custom_headers s) (get_custom_headers c)
  unfolding configure or_given get_custom_headers
  step_custom_headers s c = ground arith

  step_storage_provider :
      (s : ConfigSetting W) (c : ClientConfig W)
      → get_storage_provider (configure s c)
        ≡ or_given (given_storage_provider s) (get_storage_provider c)
  unfolding configure or_given get_storage_provider
  step_storage_provider s c = ground arith

  keeps_url :
      (ss : List (ConfigSetting W)) (c : ClientConfig W) → get_url (configure_all ss c) ≡ get_url c
  unfolding configure or_given get_url
  keeps_url ss c =
      get-configure_all get_url (λ s. none) (λ s c. ground arith) ss c
      ∙ last_given-none ss (get_url c)

  keeps_client_key :
      (ss : List (ConfigSetting W)) (c : ClientConfig W)
      → get_client_key (configure_all ss c) ≡ get_client_key c
  unfolding configure or_given get_client_key
  keeps_client_key ss c =
      get-configure_all get_client_key (λ s. none) (λ s c. ground arith) ss c
      ∙ last_given-none ss (get_client_key c)

  keeps_app_name :
      (ss : List (ConfigSetting W)) (c : ClientConfig W)
      → get_app_name (configure_all ss c) ≡ get_app_name c
  unfolding configure or_given get_app_name
  keeps_app_name ss c =
      get-configure_all get_app_name (λ s. none) (λ s c. ground arith) ss c
      ∙ last_given-none ss (get_app_name c)

  keeps_connection_id :
      (ss : List (ConfigSetting W)) (c : ClientConfig W)
      → get_connection_id (configure_all ss c) ≡ get_connection_id c
  unfolding configure or_given get_connection_id
  keeps_connection_id ss c =
      get-configure_all get_connection_id (λ s. none) (λ s c. ground arith) ss c
      ∙ last_given-none ss (get_connection_id c)

  -- After any chain of setters on a new configuration: each getter of a field with a setter answers
  -- what the last of its setters was given, or its default if there was none, where a null storage
  -- provider does not count; and the getters of the URL, the client key, the application's name and
  -- the connection's identity answer what the constructor set.
  pub configure_all-getters :
      (url client_key app_name : Text) (draw : ℕ → ℕ) (ss : List (ConfigSetting W))
      → let c = configure_all ss (make_config url client_key app_name draw) in
        (get_url c ≡ url)
        × (get_client_key c ≡ client_key)
        × (get_app_name c ≡ (if is_empty app_name then default_app_name else app_name))
        × (get_connection_id c ≡ uuidv4_generator draw)
        × (get_instance_id c ≡ last_given given_instance_id ss default_instance_id)
        × (get_header_name c ≡ last_given given_header_name ss default_header_name)
        × (get_refresh_interval c ≡ last_given given_refresh_interval ss (pos 15))
        × (get_metrics_interval c ≡ last_given given_metrics_interval ss (pos 60))
        × (get_metrics_interval_initial c ≡ last_given given_metrics_interval_initial ss (pos 0))
        × (get_time_out_query_ms c ≡ last_given given_time_out_query_ms ss (pos 5000))
        × (get_bootstrap c ≡ last_given given_bootstrap ss none)
        × (get_bootstrap_override c ≡ last_given given_bootstrap_override ss true)
        × (get_impression_data_all c ≡ last_given given_impression_data_all ss false)
        × (get_use_post_requests c ≡ last_given given_use_post_requests ss false)
        × (get_custom_headers c ≡ last_given given_custom_headers ss [])
        × (get_storage_provider c ≡ last_given given_storage_provider ss local_provider)
  unfolding make_config get_url get_client_key get_app_name get_connection_id get_instance_id
      get_header_name get_refresh_interval get_metrics_interval get_metrics_interval_initial
      get_time_out_query_ms get_bootstrap get_bootstrap_override get_impression_data_all
      get_use_post_requests get_custom_headers get_storage_provider
  configure_all-getters url client_key app_name draw ss =
      let c = make_config url client_key app_name draw in
      (
        keeps_url ss c,
        keeps_client_key ss c,
        keeps_app_name ss c,
        keeps_connection_id ss c,
        get-configure_all get_instance_id given_instance_id step_instance_id ss c,
        get-configure_all get_header_name given_header_name step_header_name ss c,
        get-configure_all get_refresh_interval given_refresh_interval step_refresh_interval ss c,
        get-configure_all get_metrics_interval given_metrics_interval step_metrics_interval ss c,
        get-configure_all get_metrics_interval_initial given_metrics_interval_initial
            step_metrics_interval_initial ss c,
        get-configure_all get_time_out_query_ms given_time_out_query_ms step_time_out_query_ms ss c,
        get-configure_all get_bootstrap given_bootstrap step_bootstrap ss c,
        get-configure_all get_bootstrap_override given_bootstrap_override step_bootstrap_override ss
            c,
        get-configure_all get_impression_data_all given_impression_data_all step_impression_data_all
            ss c,
        get-configure_all get_use_post_requests given_use_post_requests step_use_post_requests ss c,
        get-configure_all get_custom_headers given_custom_headers step_custom_headers ss c,
        get-configure_all get_storage_provider given_storage_provider step_storage_provider ss c,
      )
