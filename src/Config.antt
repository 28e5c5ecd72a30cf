-- ===== src/Config.antt =====
-- The configuration of the server: src/server/config.hpp, and the checks of
-- src/server/config.cpp. What belongs to the zoo-keeper library is a parameter.
pub mod Parts
pub mod Load
pub mod Valid
use zoo_keeper_server.Prelude.{
  ℕ, Bytes, Bool, true, false, not, ◌||◌, ◌&&◌, Option, none, some, List, [], ◌∷◌, ◌++◌,
  if◌then◌else◌, ◌==ᵇ◌, ◌==◌, ltb, is_empty, take, text,
}
use zoo_keeper_server.Api.{Expected, ok, err, ◌>>=◌, ◌>>◌, fail_if}
use zoo_keeper_server.Json.{JsonApi}
use zoo_keeper_server.Session.Store.{SessionConfig}
use zoo_keeper_server.Tools.{CommandToolConfig}
use zoo_keeper_server.Tools.Schema.{validate_tool}

-- Signed integers, `negsuc n` for -(n + 1).
pub data ℤ : Type 0 where
  pos negsuc : ℕ → ℤ

abbrev pub is_positive : ℤ → Bool
is_positive (pos n) = ltb 0 n
is_positive (negsuc n) = false

abbrev pub is_negative : ℤ → Bool
is_negative (pos n) = false
is_negative (negsuc n) = true

pub record HttpConfig : Type 0 where
  pub client_max_body_size_bytes : ℤ
  pub client_max_memory_body_size_bytes : ℤ
  pub idle_connection_timeout_seconds : ℤ
  pub cors_allow_origins : List Bytes

abbrev pub default_http : HttpConfig
default_http = record {
  client_max_body_size_bytes = pos 1048576;
  client_max_memory_body_size_bytes = pos 65536;
  idle_connection_timeout_seconds = pos 60;
  cors_allow_origins = [];
}

abbrev pub default_sessions : SessionConfig
default_sessions = record { max_sessions = 0; idle_ttl_seconds = 900 }

-- `zoo::ModelConfig`: the members that the server names.
pub record ModelConfig : Type 0 where
  pub model_path : Bytes
  pub context_size : ℤ
  pub n_gpu_layers : ℤ
  pub use_mmap : Bool
  pub use_mlock : Bool

-- `A` is `zoo::AgentConfig`, and `G` is `zoo::GenerationOptions`.
pub record ServerConfig (J A G : Type 0) : Type 0 where
  pub bind_address : Bytes
  pub port : ℕ
  pub model_id : Bytes
  pub api_key : Option Bytes
  pub http : HttpConfig
  pub sessions : SessionConfig
  pub tools : List (CommandToolConfig J)
  pub model_config : ModelConfig
  pub agent_config : A
  pub default_generation : G
  pub auto_configure_model : Bool
  pub system_prompt : Bytes

-- What the server uses of the types of the zoo-keeper library: their defaults, the reading from
-- JSON, and `validate`, which says what is wrong.
pub record ZooConfigs (J A G : Type 0) : Type 0 where
  pub default_model : ModelConfig
  pub default_agent : A
  pub default_generation : G
  pub get_agent : J → Expected Bytes A
  pub get_generation : J → Expected Bytes G
  pub validate_agent : A → Expected Bytes (Unit {0})
  pub validate_generation : G → Expected Bytes (Unit {0})
  -- `GgufInspector::auto_configure`, in a build with the hub.
  pub auto_configure : Option (Bytes → Expected Bytes ModelConfig)

unfoldable pub validate_sessions : SessionConfig → Expected Bytes (Unit {0})
validate_sessions c =
    fail_if (c.idle_ttl_seconds == 0) (text "sessions.idle_ttl_seconds must be >= 1")

unfoldable pub validate_origins : List Bytes → Expected Bytes (Unit {0})
validate_origins [] = ok tt
validate_origins (origin ∷ origins) = do
  fail_if (is_empty origin) (text "http.cors_allow_origins entries must not be empty")
  validate_origins origins

unfoldable pub validate_http : HttpConfig → Expected Bytes (Unit {0})
validate_http c = do
  fail_if (not (is_positive c.client_max_body_size_bytes))
      (text "http.client_max_body_size_bytes must be > 0")
  fail_if (not (is_positive c.client_max_memory_body_size_bytes))
      (text "http.client_max_memory_body_size_bytes must be > 0")
  fail_if (is_negative c.idle_connection_timeout_seconds)
      (text "http.idle_connection_timeout_seconds must be >= 0")
  validate_origins c.cors_allow_origins

unfoldable pub validate_model_config_for_config_load : ModelConfig → Expected Bytes (Unit {0})
validate_model_config_for_config_load c = do
  fail_if (is_empty c.model_path) (text "Model path cannot be empty")
  fail_if (not (is_positive c.context_size)) (text "Context size must be positive")

abbrev is_empty_key : Option Bytes → Bool
is_empty_key none = false
is_empty_key (some key) = is_empty key

module _ {J R I A G : Type 0} (json : JsonApi J R I) (zoo : ZooConfigs J A G) where
  -- The loop over the tools.
  unfoldable pub validate_tools : List (CommandToolConfig J) → Expected Bytes (Unit {0})
  validate_tools [] = ok tt
  validate_tools (tool ∷ tools) = elim (validate_tool json tool) [
    | err message ↦ err (text "tools entry '" ++ (tool.name ++ (text "' is invalid: " ++ message)))
    | ok u ↦ validate_tools tools
  ]

  unfoldable pub validate_server : ServerConfig J A G → Expected Bytes (Unit {0})
  validate_server c = do
    fail_if (is_empty c.bind_address) (text "bind_address cannot be empty")
    fail_if (c.port == 0) (text "port must be in the range [1, 65535]")
    fail_if (is_empty c.model_id) (text "model_id cannot be empty")
    fail_if (is_empty_key c.api_key) (text "api_key must not be empty")
    validate_http c.http
    validate_sessions c.sessions
    validate_tools c.tools
    validate_model_config_for_config_load c.model_config
    zoo.validate_agent c.agent_config
    zoo.validate_generation c.default_generation

-- `localhost`, `::1`, or an address that starts with `127.`.
unfoldable pub is_trusted_local_bind_address : Bytes → Bool
is_trusted_local_bind_address address =
    address ==ᵇ text "localhost" || (address ==ᵇ text "::1" || take 4 address ==ᵇ text "127.")

abbrev pub has_key : Option Bytes → Bool
has_key none = false
has_key (some key) = not (is_empty key)

unfoldable pub startup_warning : {J A G : Type 0} → ServerConfig J A G → Option Bytes
startup_warning c =
    if not (has_key c.api_key) && not (is_trusted_local_bind_address c.bind_address)
    then some (
        text "Warning: binding a non-loopback address without api_key auth enabled. "
        ++ text "Use only on a trusted network.")
    else none
