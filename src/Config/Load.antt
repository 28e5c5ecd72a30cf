-- ===== src/Config/Load.antt =====
-- The configuration from a file: the functions `from_json` and `load_config` of
-- src/server/config.cpp. An exception is the text of its `what()`.
use zoo_keeper_server.Prelude.{
  ℕ, Bytes, Bool, not, ◌||◌, Option, none, some, List, [], ◌∷◌, ◌++◌, if◌then◌else◌, ◌==◌, ltb,
  is_empty, text,
}
use zoo_keeper_server.Api.{Expected, ok, err, ◌>>=◌, ◌>>◌, fail_if}
use zoo_keeper_server.Json.{
  View, JsonApi, member, members, string_of, array_of, boolean_of, required, optional,
}
use zoo_keeper_server.Config.{
  default_http, default_sessions, ModelConfig, ServerConfig, ZooConfigs, validate_server,
}
use zoo_keeper_server.Config.Parts.{
  Conversions, with_path_context, other_error, type_error, check_unknown_keys, get_to,
  http_from_json, sessions_from_json, or_false, tools_of,
}

module _ {J R I : Type 0} (json : JsonApi J R I) (conv : Conversions J) where
  -- The port as an `unsigned int`, and its range.
  unfoldable pub port_from_json : J → Expected Bytes ℕ
  port_from_json j = do
    port ← conv.to_uint32 j
    fail_if (port == 0 || ltb 65535 port)
        (conv.what 401 (text "port must be in the range [1, 65535]"))
    ok port

  -- The key of `api_key`, which may be null.
  abbrev key_from_view : View J → Expected Bytes (Option Bytes)
  key_from_view View.null = ok none
  key_from_view (View.string s) = ok (some s)
  key_from_view _ = err (type_error json conv (text "api_key must be a string"))

  unfoldable pub key_from_json : J → Expected Bytes (Option Bytes)
  key_from_json j = key_from_view (json.view j)

  -- A member that must be there, whatever it is.
  unfoldable pub required_key : Bytes → J → Expected Bytes J
  required_key key j =
      required json (λ v. some v) key j
        (other_error json conv (text "Server config must contain required key: " ++ key))

  abbrev zoo_keys : List Bytes
  zoo_keys =
      text "model_path"
      ∷ text "context_size"
      ∷ text "n_gpu_layers"
      ∷ text "use_mmap"
      ∷ text "use_mlock"
      ∷ text "max_history_messages"
      ∷ text "request_queue_capacity"
      ∷ text "max_tokens"
      ∷ text "repeat_last_n"
      ∷ text "stop_sequences"
      ∷ text "record_tool_trace"
      ∷ text "system_prompt"
      ∷ text "sampling"
      ∷ text "max_tool_iterations"
      ∷ text "max_tool_retries"
      ∷ text "auto_configure_model"
      ∷ []

  unfoldable pub apply_model_config_fields : J → ModelConfig → Expected Bytes ModelConfig
  apply_model_config_fields zoo c = do
    model_path ← get_to json conv conv.to_string_value (text "model_path") zoo c.model_path
    context_size ← get_to json conv conv.to_int32 (text "context_size") zoo c.context_size
    n_gpu_layers ← get_to json conv conv.to_int32 (text "n_gpu_layers") zoo c.n_gpu_layers
    use_mmap ← get_to json conv conv.to_bool (text "use_mmap") zoo c.use_mmap
    use_mlock ← get_to json conv conv.to_bool (text "use_mlock") zoo c.use_mlock
    ok (record {
      model_path = model_path;
      context_size = context_size;
      n_gpu_layers = n_gpu_layers;
      use_mmap = use_mmap;
      use_mlock = use_mlock;
    })

  -- `if (zoo.contains(key)) target[key] = zoo.at(key);`
  abbrev copied : Bytes → J → List (Bytes × J)
  copied key zoo = elim (member key (members (json.view zoo))) [
    | none ↦ []
    | some v ↦ (key, v) ∷ []
  ]

  unfoldable pub agent_members : J → List (Bytes × J)
  agent_members zoo =
      copied (text "max_history_messages") zoo
      ++ (copied (text "request_queue_capacity") zoo
          ++ (copied (text "max_tool_iterations") zoo ++ copied (text "max_tool_retries") zoo))

  -- The value of `sampling`, with a `repeat_last_n` of the top level in it.
  unfoldable pub sampling_member : J → Expected Bytes (List (Bytes × J))
  sampling_member zoo =
      let repeat = member (text "repeat_last_n") (members (json.view zoo)) in
      elim (member (text "sampling") (members (json.view zoo))) [
        | none ↦ elim repeat [
          | none ↦ ok []
          | some v ↦ ok ((text "sampling", json.from_object ((text "repeat_last_n", v) ∷ [])) ∷ [])
        ]
        | some sampling ↦ elim repeat [
          | none ↦ ok ((text "sampling", sampling) ∷ [])
          | some v ↦ conv.assign_member (text "repeat_last_n") v sampling >>= λ merged.
              ok ((text "sampling", merged) ∷ [])
        ]
      ]

  unfoldable pub generation_members : J → Expected Bytes (List (Bytes × J))
  generation_members zoo = sampling_member zoo >>= λ sampling. ok (
      copied (text "max_tokens") zoo
      ++ (sampling
          ++ (copied (text "stop_sequences") zoo ++ copied (text "record_tool_trace") zoo)))

  -- `get` of what was copied, if there is anything.
  unfoldable pub get_members :
      {A : Type 0} → (J → Expected Bytes A) → List (Bytes × J) → A → Expected Bytes A
  get_members read m default = if is_empty m then ok default else read (json.from_object m)

  module _ {A G : Type 0} (zoo : ZooConfigs J A G) where
    -- The model's configuration before the fields of the file are applied.
    unfoldable pub base_model_config : J → Bool → Expected Bytes ModelConfig
    base_model_config j auto_configure_model =
        if not auto_configure_model then ok zoo.default_model else elim zoo.auto_configure [
          | none ↦
              err
                (other_error json conv (text "auto_configure_model requires ZKS_ENABLE_ZOO_HUB=ON"))
          | some configure ↦
              required json (string_of json) (text "model_path") j (
                type_error json conv
                  (text "model_path must be a string when auto_configure_model is true"))
              >>= λ path. elim (configure path) [
                | ok c ↦ ok c
                | err message ↦
                    err (other_error json conv (text "auto_configure_model failed: " ++ message))
              ]
        ]

    unfoldable pub server_from_json : J → Expected Bytes (ServerConfig J A G)
    server_from_json j = do
      check_unknown_keys json conv j (text "server config") (
          text "bind_address"
          ∷ text "port"
          ∷ text "model_id"
          ∷ text "api_key"
          ∷ text "http"
          ∷ text "sessions"
          ∷ text "tools"
          ∷ text "zoo"
          ∷ [])
      bind_address ←
          get_to json conv conv.to_string_value (text "bind_address") j (text "127.0.0.1")
      port ← get_to json conv port_from_json (text "port") j 8080
      model ← required_key (text "model_id") j
      model_id ← conv.to_string_value model
      api_key ← get_to json conv key_from_json (text "api_key") j none
      http ← get_to json conv (http_from_json json conv) (text "http") j default_http
      sessions ←
          get_to json conv (sessions_from_json json conv) (text "sessions") j default_sessions
      tool_items ←
          optional json (array_of json) (text "tools") j
            (type_error json conv (text "tools must be an array"))
      tools ← tools_of json conv tool_items
      z ← required_key (text "zoo") j
      check_unknown_keys json conv z (text "zoo config") zoo_keys
      auto ←
          optional json (boolean_of json) (text "auto_configure_model") z
            (type_error json conv (text "auto_configure_model must be a boolean"))
      base ← base_model_config z (or_false json conv auto)
      model_config ← apply_model_config_fields z base
      agent_config ← get_members zoo.get_agent (agent_members z) zoo.default_agent
      generation ← generation_members z
      default_generation ← get_members zoo.get_generation generation zoo.default_generation
      system_prompt ← get_to json conv conv.to_string_value (text "system_prompt") z []
      ok (record {
        bind_address = bind_address;
        port = port;
        model_id = model_id;
        api_key = api_key;
        http = http;
        sessions = sessions;
        tools = tools;
        model_config = model_config;
        agent_config = agent_config;
        default_generation = default_generation;
        auto_configure_model = or_false json conv auto;
        system_prompt = system_prompt;
      })

    -- `file` is what the file holds, if it can be opened.
    unfoldable pub load_config : Bytes → Option Bytes → Expected Bytes (ServerConfig J A G)
    load_config path none = err (text "Unable to open config file: " ++ path)
    load_config path (some file) = with_path_context path (
        conv.read_stream file >>= λ j.
        server_from_json j >>= λ config. validate_server json zoo config >> ok config)
