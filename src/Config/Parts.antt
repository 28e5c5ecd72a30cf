-- ===== src/Config/Parts.antt =====
-- The parts of the configuration that are read from JSON: the functions `from_json` for the HTTP
-- settings, the sessions and a tool of src/server/config.cpp. An exception is the text of its
-- `what()`.
use zoo_keeper_server.Prelude.{
  ℕ, suc, Bytes, Bool, false, Option, none, some, List, [], ◌∷◌, ◌++◌, if◌then◌else◌, to_string,
  text,
}
use zoo_keeper_server.Api.{Expected, ok, err, ◌>>=◌, ◌>>◌}
use zoo_keeper_server.Json.{
  JsonApi, member, members, is_number_unsigned, string_of, array_of, object_of, boolean_of,
  required, optional, reject_unknown_keys,
}
use zoo_keeper_server.Session.Store.{SessionConfig}
use zoo_keeper_server.Tools.{CommandToolConfig}
use zoo_keeper_server.Tools.Schema.{members_of}
use zoo_keeper_server.Tools.Prepare.{emplace_entry}
use zoo_keeper_server.Config.{ℤ, HttpConfig, default_http, default_sessions}

-- What is used of the JSON library besides `JsonApi`: the conversions of `get_to`, which may
-- throw, the text of an exception with a number and a message, the reading from a stream, and an
-- assignment `value[key] = …`.
pub record Conversions (J : Type 0) : Type 0 where
  pub to_string_value : J → Expected Bytes Bytes
  pub to_int64 : J → Expected Bytes ℤ
  pub to_int32 : J → Expected Bytes ℤ
  pub to_size : J → Expected Bytes ℕ
  pub to_uint32 : J → Expected Bytes ℕ
  pub to_bool : J → Expected Bytes Bool
  pub what : ℕ → Bytes → Bytes
  pub read_stream : Bytes → Expected Bytes J
  pub assign_member : Bytes → J → J → Expected Bytes J

abbrev pub with_path_context : {B : Type 0} → Bytes → Expected Bytes B → Expected Bytes B
with_path_context path (ok b) = ok b
with_path_context path (err message) = err (path ++ (text ": " ++ message))

module _ {J R I : Type 0} (json : JsonApi J R I) (conv : Conversions J) where
  -- `throw other_error::create(501, …)` and `throw type_error::create(302, …)`.
  abbrev pub other_error : Bytes → Bytes
  other_error message = conv.what 501 message

  abbrev pub type_error : Bytes → Bytes
  type_error message = conv.what 302 message

  unfoldable pub check_unknown_keys : J → Bytes → List Bytes → Expected Bytes (Unit {0})
  check_unknown_keys j context allowed = elim (reject_unknown_keys (json.view j) context allowed) [
    | ok u ↦ ok u
    | err message ↦ err (other_error message)
  ]

  -- `if (auto it = j.find(key); it != j.end()) it->get_to(field);`
  unfoldable pub get_to : {A : Type 0} → (J → Expected Bytes A) → Bytes → J → A → Expected Bytes A
  get_to read key j default = elim (member key (members (json.view j))) [
    | none ↦ ok default
    | some v ↦ read v
  ]

  -- The loops over arrays of strings.
  unfoldable pub all_strings : Bytes → List J → Expected Bytes (List Bytes)
  all_strings message [] = ok []
  all_strings message (j ∷ js) = elim (string_of json j) [
    | none ↦ err (type_error message)
    | some s ↦ all_strings message js >>= λ ss. ok (s ∷ ss)
  ]

  abbrev pub origins_of : Option (List J) → Expected Bytes (List Bytes)
  origins_of none = ok []
  origins_of (some js) = all_strings (text "http.cors_allow_origins entries must be strings") js

  abbrev http_keys : List Bytes
  http_keys =
      text "client_max_body_size_bytes"
      ∷ text "client_max_memory_body_size_bytes"
      ∷ text "idle_connection_timeout_seconds"
      ∷ text "cors_allow_origins"
      ∷ []

  unfoldable pub http_from_json : J → Expected Bytes HttpConfig
  http_from_json j = do
    check_unknown_keys j (text "http config") http_keys
    body_size ←
        get_to conv.to_int64 (text "client_max_body_size_bytes") j
          default_http.client_max_body_size_bytes
    memory_size ←
        get_to conv.to_int64 (text "client_max_memory_body_size_bytes") j
          default_http.client_max_memory_body_size_bytes
    idle_timeout ←
        get_to conv.to_int32 (text "idle_connection_timeout_seconds") j
          default_http.idle_connection_timeout_seconds
    origins ←
        optional json (array_of json) (text "cors_allow_origins") j
          (type_error (text "http.cors_allow_origins must be an array"))
    cors_allow_origins ← origins_of origins
    ok (record {
      client_max_body_size_bytes = body_size;
      client_max_memory_body_size_bytes = memory_size;
      idle_connection_timeout_seconds = idle_timeout;
      cors_allow_origins = cors_allow_origins;
    })

  unfoldable pub sessions_from_json : J → Expected Bytes SessionConfig
  sessions_from_json j = do
    check_unknown_keys j (text "sessions config")
        (text "max_sessions" ∷ text "idle_ttl_seconds" ∷ [])
    max_sessions ← get_to conv.to_size (text "max_sessions") j default_sessions.max_sessions
    idle_ttl ← get_to conv.to_uint32 (text "idle_ttl_seconds") j default_sessions.idle_ttl_seconds
    ok (record { max_sessions = max_sessions; idle_ttl_seconds = idle_ttl })

  -- The loop over the members of `env`.
  unfoldable pub env_entries_of :
      List (Bytes × J) → List (Bytes × Bytes) → Expected Bytes (List (Bytes × Bytes))
  env_entries_of [] env = ok env
  env_entries_of ((key, j) ∷ m) env = elim (string_of json j) [
    | none ↦ err (type_error (text "env values must be strings"))
    | some value ↦ env_entries_of m (emplace_entry key value env)
  ]

  abbrev env_of : Option (List (Bytes × J)) → Expected Bytes (List (Bytes × Bytes))
  env_of none = ok []
  env_of (some m) = env_entries_of m []

  unfoldable pub timeout_of : J → Option J
  timeout_of j = if is_number_unsigned (json.view j) then some j else none

  abbrev read_timeout : Option J → Expected Bytes ℕ
  read_timeout none = ok 30000
  read_timeout (some j) = conv.to_uint32 j

  abbrev tool_keys : List Bytes
  tool_keys =
      text "name"
      ∷ text "description"
      ∷ text "parameters"
      ∷ text "command"
      ∷ text "working_directory"
      ∷ text "env"
      ∷ text "timeout_ms"
      ∷ text "inherit_environment"
      ∷ []

  abbrev pub or_false : Option Bool → Bool
  or_false none = false
  or_false (some b) = b

  unfoldable pub tool_from_json : J → Expected Bytes (CommandToolConfig J)
  tool_from_json j = do
    check_unknown_keys j (text "tool config") tool_keys
    name ←
        required json (string_of json) (text "name") j (type_error (text "name must be a string"))
    description ←
        required json (string_of json) (text "description") j
          (type_error (text "description must be a string"))
    parameters ←
        required json (object_of json) (text "parameters") j
          (type_error (text "parameters must be an object"))
    arguments ←
        required json (array_of json) (text "command") j
          (type_error (text "command must be an array"))
    command ← all_strings (text "command entries must be strings") arguments
    directory ←
        optional json (string_of json) (text "working_directory") j
          (type_error (text "working_directory must be a string"))
    entries ←
        optional json (members_of json) (text "env") j (type_error (text "env must be an object"))
    env ← env_of entries
    inherit ←
        optional json (boolean_of json) (text "inherit_environment") j
          (type_error (text "inherit_environment must be a boolean"))
    timeout ←
        optional json timeout_of (text "timeout_ms") j
          (type_error (text "timeout_ms must be a positive integer"))
    timeout_ms ← read_timeout timeout
    ok (record {
      name = name;
      description = description;
      parameters_schema = parameters;
      command = command;
      working_directory = directory;
      inherit_environment = or_false inherit;
      env = env;
      timeout_ms = timeout_ms;
    })

  -- The loop over `tools`, from the index `i`.
  unfoldable pub tools_from_json : ℕ → List J → Expected Bytes (List (CommandToolConfig J))
  tools_from_json i [] = ok []
  tools_from_json i (j ∷ js) = elim (tool_from_json j) [
    | err what ↦ err (other_error (text "tools[" ++ (to_string i ++ (text "]: " ++ what))))
    | ok tool ↦ tools_from_json (suc i) js >>= λ tools. ok (tool ∷ tools)
  ]

  abbrev pub tools_of : Option (List J) → Expected Bytes (List (CommandToolConfig J))
  tools_of none = ok []
  tools_of (some js) = tools_from_json 0 js
