-- ===== src/Requests/Parse.antt =====
-- The functions `parse_…_request` of src/server/api_json.cpp, each from the bytes of a body. The
-- sampling overrides of a request are returned beside it.
use zoo_keeper_server.Prelude.{
  Bytes, Bool, false, Option, none, some, List, [], ◌∷◌, ◌++◌, if◌then◌else◌, is_empty, text,
}
use zoo_keeper_server.Api.{
  ok, err, ◌>>=◌, ◌>>◌, fail_if, ApiResult, Role, MessageApi, ChatCompletionRequest,
  SessionCreateRequest,
}
use zoo_keeper_server.Json.{array_of, boolean_of, object_of, optional, required, string_of, JsonApi}
use zoo_keeper_server.Requests.Messages.{
  MessageParts, invalid, reject_api_unknown_keys, parse_messages, parse_single_message_field,
}
use zoo_keeper_server.Requests.Overrides.{Overrides, parse_generation_overrides}

-- `ExtractionRequest` without the overrides.
pub record ExtractionRequest (J M : Type 0) : Type 0 where
  pub model : Bytes
  pub schema : J
  pub messages : List M
  pub stream : Bool
  pub session_id : Option Bytes

pub record AgentChatRequest (M : Type 0) : Type 0 where
  pub model : Bytes
  pub message : M

abbrev pub override_keys : List Bytes
override_keys =
    text "temperature"
    ∷ text "top_p"
    ∷ text "top_k"
    ∷ text "repeat_penalty"
    ∷ text "repeat_last_n"
    ∷ text "max_tokens"
    ∷ text "seed"
    ∷ text "stop"
    ∷ text "record_tool_trace"
    ∷ []

abbrev pub chat_keys : List Bytes
chat_keys = text "model" ∷ text "messages" ∷ text "stream" ∷ text "session_id" ∷ override_keys

abbrev pub extraction_keys : List Bytes
extraction_keys =
    text "model"
    ∷ text "schema"
    ∷ text "messages"
    ∷ text "stream"
    ∷ text "session_id"
    ∷ override_keys

abbrev pub agent_chat_keys : List Bytes
agent_chat_keys = text "model" ∷ text "message" ∷ override_keys

unfoldable pub nonempty_model : Bytes → ApiResult (Unit {0})
nonempty_model model =
    fail_if (is_empty model) (invalid (text "model must not be empty") (text "model"))

unfoldable pub nonempty_messages : {J : Type 0} → List J → ApiResult (Unit {0})
nonempty_messages items =
    fail_if (is_empty items)
      (invalid (text "messages must contain at least one item") (text "messages"))

unfoldable pub nonempty_session_id : Option Bytes → ApiResult (Option Bytes)
nonempty_session_id none = ok none
nonempty_session_id (some id) =
    if is_empty id
    then err (invalid (text "session_id must not be empty") (text "session_id"))
    else ok (some id)

module _ {J R I : Type 0} (json : JsonApi J R I) where
  -- The member `messages`, which is an array.
  unfoldable pub message_items : J → ApiResult (List J)
  message_items j =
      required json (array_of json) (text "messages") j
        (invalid (text "messages must be an array") (text "messages"))

  unfoldable pub parse_body : Bytes → ApiResult J
  parse_body body = elim (json.parse body) [
    | ok j ↦ ok j
    | err what ↦ err (invalid (text "Invalid JSON body: " ++ what) (text "body"))
  ]

  -- The member `model`: a string, and later not the empty one.
  unfoldable pub parse_model : J → ApiResult Bytes
  parse_model j =
      required json (string_of json) (text "model") j
        (invalid (text "model must be a string") (text "model"))

  unfoldable pub parse_stream : J → ApiResult Bool
  parse_stream j = do
    stream ←
        optional json (boolean_of json) (text "stream") j
          (invalid (text "stream must be a boolean") (text "stream"))
    elim stream [ none ↦ ok false | some b ↦ ok b ]

  unfoldable pub parse_session_id : J → ApiResult (Option Bytes)
  parse_session_id j = do
    session_id ←
        optional json (string_of json) (text "session_id") j
          (invalid (text "session_id must be a string") (text "session_id"))
    nonempty_session_id session_id

  unfoldable pub parse_session_create_request : Bytes → ApiResult SessionCreateRequest
  parse_session_create_request body = do
    j ← parse_body body
    reject_api_unknown_keys json j (text "request") (text "model" ∷ text "system_prompt" ∷ [])
    model ← parse_model j
    nonempty_model model
    system_prompt ←
        optional json (string_of json) (text "system_prompt") j
          (invalid (text "system_prompt must be a string") (text "system_prompt"))
    ok (record { model = model; system_prompt = system_prompt })

  unfoldable pub parse_system_prompt_request : Bytes → ApiResult Bytes
  parse_system_prompt_request body = do
    j ← parse_body body
    reject_api_unknown_keys json j (text "request") (text "system_prompt" ∷ [])
    required json (string_of json) (text "system_prompt") j
        (invalid (text "system_prompt must be a string") (text "system_prompt"))

module _ {J R I M : Type 0} (json : JsonApi J R I) ⦃api : MessageApi M⦄ ⦃parts : MessageParts M⦄
    (validate : List M → Role → Option Bytes) where
  unfoldable pub parse_chat_completion_request :
      Bytes → ApiResult (ChatCompletionRequest M × Overrides R I)
  parse_chat_completion_request body = do
    j ← parse_body json body
    reject_api_unknown_keys json j (text "request") chat_keys
    model ← parse_model json j
    items ← message_items json j
    nonempty_model model
    stream ← parse_stream json j
    session_id ← parse_session_id json j
    overrides ← parse_generation_overrides json j
    nonempty_messages items
    messages ← parse_messages json validate items []
    ok (
      record { model = model; messages = messages; stream = stream; session_id = session_id },
      overrides,
    )

  unfoldable pub parse_extraction_request :
      Bytes → ApiResult (ExtractionRequest J M × Overrides R I)
  parse_extraction_request body = do
    j ← parse_body json body
    reject_api_unknown_keys json j (text "request") extraction_keys
    model ← parse_model json j
    schema ←
        required json (object_of json) (text "schema") j
          (invalid (text "schema must be an object") (text "schema"))
    items ← message_items json j
    nonempty_model model
    stream ← parse_stream json j
    session_id ← parse_session_id json j
    overrides ← parse_generation_overrides json j
    nonempty_messages items
    messages ← parse_messages json validate items []
    ok (
      record {
        model = model;
        schema = schema;
        messages = messages;
        stream = stream;
        session_id = session_id;
      },
      overrides,
    )

  unfoldable pub parse_agent_chat_request : Bytes → ApiResult (AgentChatRequest M × Overrides R I)
  parse_agent_chat_request body = do
    j ← parse_body json body
    reject_api_unknown_keys json j (text "request") agent_chat_keys
    model ← parse_model json j
    nonempty_model model
    message ← parse_single_message_field json validate j (text "message") (text "message")
    overrides ← parse_generation_overrides json j
    ok (record { model = model; message = message }, overrides)

  unfoldable pub parse_agent_history_request : Bytes → ApiResult (List M)
  parse_agent_history_request body = do
    j ← parse_body json body
    reject_api_unknown_keys json j (text "request") (text "messages" ∷ [])
    items ← message_items json j
    parse_messages json validate items []

  unfoldable pub parse_agent_history_message_request : Bytes → ApiResult M
  parse_agent_history_message_request body = do
    j ← parse_body json body
    reject_api_unknown_keys json j (text "request") (text "message" ∷ [])
    parse_single_message_field json validate j (text "message") (text "message")
