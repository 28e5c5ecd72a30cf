-- ===== src/Tests/Configs.antt =====
-- A configuration file that is loaded.
use zoo_keeper_server.Prelude.{
  ℕ, ◌≡◌, ◌≢◌, ◌≤◌, ◌↔◌, ◌⊎◌, refl, Bytes, Bool, true, false, none, some, [], ◌∷◌, text, ◌==ᵇ◌,
}
use zoo_keeper_server.Api.{Expected, ok, err}
use zoo_keeper_server.Json.{
  member, required, optional, is_allowed, reject_members, reject_unknown_keys,
}
use zoo_keeper_server.Config.{
  ℤ, pos, ModelConfig, ServerConfig, ZooConfigs, default_http, default_sessions, validate_sessions,
  validate_origins, validate_http, validate_model_config_for_config_load, validate_tools,
  validate_server, startup_warning,
}
use zoo_keeper_server.Config.Parts.{Conversions, check_unknown_keys, get_to}
use zoo_keeper_server.Config.Load.{
  required_key, port_from_json, key_from_json, base_model_config, apply_model_config_fields,
  agent_members, sampling_member, generation_members, get_members, server_from_json, load_config,
}
use zoo_keeper_server.Config.Valid.{
  IsValidConfig, IsLoopback, load_config-IsValid, startup_warning_iff,
}
use zoo_keeper_server.Tests.Json.{Value, number, words, truth, document, library}

abbrev string_value : Value → Expected Bytes Bytes
string_value (words s) = ok s
string_value _ = err (text "type must be string")

abbrev number_value : Value → Expected Bytes ℕ
number_value (number n) = ok n
number_value _ = err (text "type must be number")

abbrev integer_value : Value → Expected Bytes ℤ
integer_value (number n) = ok (pos n)
integer_value _ = err (text "type must be number")

abbrev truth_value : Value → Expected Bytes Bool
truth_value (truth b) = ok b
truth_value _ = err (text "type must be boolean")

abbrev server_document : Value
server_document = document (
    (text "port", number 80)
    ∷ (text "model_id", words (text "m"))
    ∷ (text "api_key", words (text "k"))
    ∷ (
      text "zoo",
      document ((text "model_path", words (text "m.gguf")) ∷ (text "context_size", number 64) ∷ []),
    )
    ∷ [])

abbrev conversions : Conversions Value
conversions = record {
  to_string_value = string_value;
  to_int64 = integer_value;
  to_int32 = integer_value;
  to_size = number_value;
  to_uint32 = number_value;
  to_bool = truth_value;
  what = λ n message. message;
  read_stream = λ file. ok server_document;
  assign_member = λ key v j. ok j;
}

abbrev zoo_model : ModelConfig
zoo_model = record {
  model_path = [];
  context_size = pos 0;
  n_gpu_layers = pos 0;
  use_mmap = true;
  use_mlock = false;
}

abbrev zoo_configs : ZooConfigs Value Bool Bool
zoo_configs = record {
  default_model = zoo_model;
  default_agent = true;
  default_generation = true;
  get_agent = truth_value;
  get_generation = truth_value;
  validate_agent = λ a. ok tt;
  validate_generation = λ g. ok tt;
  auto_configure = none;
}

abbrev pub loaded : ServerConfig Value Bool Bool
loaded = record {
  bind_address = text "127.0.0.1";
  port = 80;
  model_id = text "m";
  api_key = some (text "k");
  http = default_http;
  sessions = default_sessions;
  tools = [];
  model_config = record zoo_model { model_path = text "m.gguf"; context_size = pos 64 };
  agent_config = true;
  default_generation = true;
  auto_configure_model = false;
  system_prompt = [];
}

file_loaded :
    load_config
      (library server_document)
      conversions
      zoo_configs
      (text "zks.json")
      (some (text "{}"))
    ≡ ok loaded
unfolding text load_config server_from_json check_unknown_keys reject_unknown_keys reject_members
    is_allowed ◌==ᵇ◌ get_to member port_from_json required_key required key_from_json optional
    base_model_config apply_model_config_fields agent_members sampling_member generation_members
    get_members validate_server validate_sessions validate_origins validate_http
    validate_model_config_for_config_load validate_tools
file_loaded = refl

load_config_example :
    IsValidConfig (library server_document) zoo_configs loaded × (loaded.port ≤ 65535)
load_config_example =
    load_config-IsValid (library server_document) conversions zoo_configs (text "zks.json")
      (some (text "{}")) loaded file_loaded

startup_warning_example :
    (startup_warning loaded ≡ none)
    ↔ (((s : Bytes) × (s ≢ []) × (loaded.api_key ≡ some s)) ⊎ IsLoopback loaded.bind_address)
startup_warning_example = startup_warning_iff loaded
