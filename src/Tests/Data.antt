-- ===== src/Tests/Data.antt =====
-- Test data: toggles, a configuration and a client.
use unleash_cpp_sdk.Tests.Trees.{null_value, trees}
use unleash_cpp_sdk.Base.{Option, [], codes, false, none, pos, some, true, ◌∷◌}
use unleash_cpp_sdk.Json.Library.{Library}
use unleash_cpp_sdk.Json.Encode.{encode_root}
use unleash_cpp_sdk.Domain.Variant.{Toggle, Variant, disabled_factory}
use unleash_cpp_sdk.Domain.Toggles.{ToggleSet}
use unleash_cpp_sdk.Domain.Context.{Context}
use unleash_cpp_sdk.Config.{ClientConfig}
use unleash_cpp_sdk.Store.Provider.{Provider}
use unleash_cpp_sdk.Events.{Handler, at_queue, init_task, update_task}
use unleash_cpp_sdk.Metrics.MetricsStore.{make_store}
use unleash_cpp_sdk.Metrics.MetricSender.{make_sender}
use unleash_cpp_sdk.Transport.Messages.{ComResponse, HttpRequest, HttpResponse, http_response}
use unleash_cpp_sdk.Fetcher.{make_fetcher}
use unleash_cpp_sdk.Client.State.{Client, sdk_stopped}

abbrev pub plain_flag : Toggle
plain_flag = record {
  name = codes "plain";
  enabled = true;
  variant = disabled_factory;
  impression_data = false;
}

abbrev pub blue : Variant
blue = record {
  name = codes "blue";
  enabled = true;
  payload = some (record { type = codes "string"; value = codes "v1" });
}

abbrev pub tried_flag : Toggle
tried_flag = record { name = codes "tried"; enabled = true; variant = blue; impression_data = true }

abbrev pub two_flags : ToggleSet
two_flags = record { toggles = (codes "plain", plain_flag) ∷ (codes "tried", tried_flag) ∷ [] }

-- The library that parses the document of these two toggles.
unfoldable pub two_documents : Library
unfolding trees
two_documents = trees (encode_root (trees null_value) two_flags)

-- A provider that keeps the last set that was saved.
abbrev pub memory : Provider (Option ToggleSet)
memory = record { get = λ w. w; save = λ t w. some t }

abbrev pub config_with : {W : Type 0} → Provider W → ClientConfig W
config_with provider = record {
  url = codes "https://host/api/frontend";
  client_key = codes "key";
  app_name = codes "app";
  connection_id = codes "id";
  refresh_interval = pos 15;
  metrics_interval = pos 60;
  metrics_interval_initial = pos 0;
  bootstrap = some ((codes "plain", plain_flag) ∷ []);
  bootstrap_override = true;
  header_name = codes "Authorization";
  custom_headers = (codes "X-Team", codes "one") ∷ [];
  impression_data_all = false;
  use_post_requests = false;
  instance_id = codes "instance";
  time_out_query_ms = pos 5000;
  storage_provider = provider;
}

abbrev pub sample_config : ClientConfig (Option ToggleSet)
sample_config = config_with memory

abbrev pub sample_context : Context
sample_context = record {
  app_name = codes "app";
  session_id = codes "17";
  environment = none;
  mutable_context = record {
    user_id = some (codes "ann");
    remote_address = none;
    current_time = none;
    properties = (codes "plan", codes "a b") ∷ [];
  };
}

abbrev pub sample_handler : Handler
sample_handler = record {
  started = true;
  queue = init_task 1 ∷ update_task 2 ∷ [];
  callbacks = record {
    init_cb = some 1;
    error_cb = some 3;
    ready_cb = some 4;
    update_cb = some 2;
    impression_cb = some 5;
  };
  thread = some at_queue;
  ran = [];
}

-- A client that holds the two toggles, before its start.
abbrev pub client_with : {W : Type 0} → Provider W → W → Client W
client_with provider world = record {
  config = config_with provider;
  context = sample_context;
  flag_store = record { current = two_flags; ready = true };
  metric_store = make_store (config_with provider) (pos 0);
  metric_sender = make_sender (codes "1.0") (config_with provider);
  event_handler = record sample_handler { started = false; queue = []; thread = none };
  toggle_fetcher = make_fetcher (codes "1.0") (config_with provider);
  running = false;
  ready = false;
  exit_threads = false;
  context_updated = false;
  sdk_state = sdk_stopped;
  world = world;
  loops = false;
}

abbrev pub idle_client : Client (Option ToggleSet)
idle_client = client_with memory none

abbrev pub live_client : Client (Option ToggleSet)
live_client = record idle_client {
  event_handler = sample_handler;
  running = true;
  ready = true;
  loops = true;
}

abbrev pub document_response : HttpResponse
document_response = record {
  body = codes "document";
  status = pos 200;
  headers = (codes "etag", codes "tag-1") ∷ [];
  error_message = [];
}

-- An HTTP client that answers every request with the document and an etag.
abbrev pub answers : HttpRequest → Option ComResponse
answers r = some (http_response document_response)
