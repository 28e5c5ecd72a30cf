-- ===== src/Routes/Figures.antt =====
-- What the routes say of the server itself: `make_runtime_body` of src/server/api_routes.cpp,
-- `MetricsSnapshot::to_json` of src/server/metrics.cpp, the answer of src/server/health.cpp, and the
-- CORS header that src/server/http_server.cpp adds.
use zoo_keeper_server.Prelude.{
  Bytes, Bool, false, Option, none, some, List, [], ◌∷◌, if◌then◌else◌, ◌==ᵇ◌, is_empty, length,
  map, text,
}
use zoo_keeper_server.Api.{SessionHealth}
use zoo_keeper_server.Json.{JsonApi}
use zoo_keeper_server.Session.Store.{enabled, health, Store}
use zoo_keeper_server.Bodies.{ToolDefinition, make_tool_schema}
use zoo_keeper_server.Config.{ℤ, ServerConfig}
use zoo_keeper_server.Runtime.{MetricsSnapshot}
use zoo_keeper_server.Chat.{Service}
use zoo_keeper_server.Responses.{make_json_response, HttpResponse}

-- The members of `zoo::AgentConfig` and `zoo::GenerationOptions` that are shown, as JSON, and the
-- JSON of a signed number.
pub record ZooFigures (J A G : Type 0) : Type 0 where
  pub from_integer : ℤ → J
  pub max_history_messages : A → J
  pub request_queue_capacity : A → J
  pub max_tool_iterations : A → J
  pub max_tool_retries : A → J
  pub max_tokens : G → J
  pub stop_sequences : G → J
  pub record_tool_trace : G → J
  pub temperature : G → J
  pub top_p : G → J
  pub top_k : G → J
  pub repeat_penalty : G → J
  pub repeat_last_n : G → J
  pub seed : G → J

pub record HealthSnapshot : Type 0 where
  pub ready : Bool
  pub model_id : Bytes
  pub sessions : SessionHealth
  pub version : Bytes

-- The `HealthSnapshot{false, "", {}}` that answers without a runtime.
abbrev pub no_health : Bytes → HealthSnapshot
no_health version = record {
  ready = false;
  model_id = [];
  sessions = record { enabled = false; active = 0; max_sessions = 0; idle_ttl_seconds = 0 };
  version = version;
}

abbrev pub health_snapshot : {M : Type 0} → Bool → Bytes → Bytes → Store M → HealthSnapshot
health_snapshot ready version model_id store = record {
  ready = ready;
  model_id = model_id;
  sessions = health store;
  version = version;
}

-- The header that the advice adds to a response, if it adds one: `origin` is the Origin header.
unfoldable pub allowed_origin : Bytes → List Bytes → Option Bytes
allowed_origin origin [] = none
allowed_origin origin (allowed ∷ more) =
    if allowed ==ᵇ text "*"
    then some (text "*")
    else if allowed ==ᵇ origin
    then some origin
    else allowed_origin origin more

unfoldable pub cors_origin : Bytes → List Bytes → Option Bytes
cors_origin origin cors_origins =
    if is_empty origin then none else allowed_origin origin cors_origins

module _ {J R I : Type 0} (json : JsonApi J R I) where
  unfoldable pub to_json : MetricsSnapshot → J
  to_json s = json.from_object (
      (text "requests_total", json.from_unsigned s.counters.requests_total)
      ∷ (text "requests_errors", json.from_unsigned s.counters.requests_errors)
      ∷ (text "requests_cancelled_total", json.from_unsigned s.counters.requests_cancelled_total)
      ∷ (
        text "requests_queue_rejected_total",
        json.from_unsigned s.counters.requests_queue_rejected_total,
      )
      ∷ (text "stream_disconnects_total", json.from_unsigned s.counters.stream_disconnects_total)
      ∷ (text "tool_invocations_total", json.from_unsigned s.counters.tool_invocations_total)
      ∷ (text "tool_failures_total", json.from_unsigned s.counters.tool_failures_total)
      ∷ (text "tool_timeouts_total", json.from_unsigned s.counters.tool_timeouts_total)
      ∷ (text "active_sessions", json.from_unsigned s.active_sessions)
      ∷ (text "model_id", json.from_string s.model_id)
      ∷ (text "uptime_seconds", json.from_unsigned s.uptime_seconds)
      ∷ [])

  abbrev health_body : HealthSnapshot → J
  health_body snapshot = json.from_object (
      (text "status", json.from_string (if snapshot.ready then text "ok" else text "starting"))
      ∷ (text "ready", json.from_bool snapshot.ready)
      ∷ (text "model", json.from_object ((text "id", json.from_string snapshot.model_id) ∷ []))
      ∷ (
        text "sessions",
        json.from_object (
            (text "enabled", json.from_bool snapshot.sessions.enabled)
            ∷ (text "active", json.from_unsigned snapshot.sessions.active)
            ∷ (text "max_sessions", json.from_unsigned snapshot.sessions.max_sessions)
            ∷ (text "idle_ttl_seconds", json.from_unsigned snapshot.sessions.idle_ttl_seconds)
            ∷ []),
      )
      ∷ (text "version", json.from_string snapshot.version)
      ∷ [])

  unfoldable pub make_health_response : HealthSnapshot → Option HttpResponse
  make_health_response snapshot =
      make_json_response json (health_body snapshot) (if snapshot.ready then 200 else 503)

  module _ {A G : Type 0} (figures : ZooFigures J A G) (config : ServerConfig J A G) where
    abbrev model_config_body : J
    model_config_body = json.from_object (
        (text "model_path", json.from_string config.model_config.model_path)
        ∷ (text "context_size", figures.from_integer config.model_config.context_size)
        ∷ (text "n_gpu_layers", figures.from_integer config.model_config.n_gpu_layers)
        ∷ (text "use_mmap", json.from_bool config.model_config.use_mmap)
        ∷ (text "use_mlock", json.from_bool config.model_config.use_mlock)
        ∷ (text "auto_configure_model", json.from_bool config.auto_configure_model)
        ∷ [])

    abbrev agent_config_body : J
    agent_config_body = json.from_object (
        (text "max_history_messages", figures.max_history_messages config.agent_config)
        ∷ (text "request_queue_capacity", figures.request_queue_capacity config.agent_config)
        ∷ (text "max_tool_iterations", figures.max_tool_iterations config.agent_config)
        ∷ (text "max_tool_retries", figures.max_tool_retries config.agent_config)
        ∷ [])

    abbrev generation_body : J
    generation_body = json.from_object (
        (text "max_tokens", figures.max_tokens config.default_generation)
        ∷ (text "stop_sequences", figures.stop_sequences config.default_generation)
        ∷ (text "record_tool_trace", figures.record_tool_trace config.default_generation)
        ∷ (
          text "sampling",
          json.from_object (
              (text "temperature", figures.temperature config.default_generation)
              ∷ (text "top_p", figures.top_p config.default_generation)
              ∷ (text "top_k", figures.top_k config.default_generation)
              ∷ (text "repeat_penalty", figures.repeat_penalty config.default_generation)
              ∷ (text "repeat_last_n", figures.repeat_last_n config.default_generation)
              ∷ (text "seed", figures.seed config.default_generation)
              ∷ []),
        )
        ∷ [])

    -- The service has the model, agent and generation settings of the configuration. `ready` is
    -- whether the agent runs.
    unfoldable pub make_runtime_body : {M : Type 0} → Bool → List (ToolDefinition J) → Service M → J
    make_runtime_body ready tools service = json.from_object (
        (text "ready", json.from_bool ready)
        ∷ (text "model_id", json.from_string service.model_id)
        ∷ (text "model_config", model_config_body)
        ∷ (text "agent_config", agent_config_body)
        ∷ (text "default_generation", generation_body)
        ∷ (text "tool_count", json.from_unsigned (length tools))
        ∷ (text "tools", json.from_array (map (make_tool_schema json) tools))
        ∷ (
          text "sessions",
          json.from_object (
              (text "enabled", json.from_bool (enabled config.sessions))
              ∷ (text "max_sessions", json.from_unsigned config.sessions.max_sessions)
              ∷ (text "idle_ttl_seconds", json.from_unsigned config.sessions.idle_ttl_seconds)
              ∷ (text "active", json.from_unsigned (health service.store).active)
              ∷ []),
        )
        ∷ [])
