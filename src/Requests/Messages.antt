-- ===== src/Requests/Messages.antt =====
-- The messages of a request: `parse_role`, `parse_tool_call` and `parse_message` of
-- src/server/api_json.cpp.
use zoo_keeper_server.Prelude.{
  Bytes, ◌≡◌, Bool, true, false, not, Option, none, some, List, [], ◌∷◌, ◌++◌, if◌then◌else◌, ◌==ᵇ◌,
  text,
}
use zoo_keeper_server.Api.{
  ok, err, ◌>>=◌, ◌>>◌, fail_if, ApiError, ApiResult, invalid_request_error, Role, MessageApi,
}
use zoo_keeper_server.Json.{
  array_of, contains, object_of, required, string_of, JsonApi, reject_unknown_keys,
}

-- `zoo::OwnedToolCall`: its members in the order in which the server fills them.
pub record ToolCall : Type 0 where
  pub id : Bytes
  pub name : Bytes
  pub arguments_json : Bytes

-- What the parser and the printer use of `zoo::Message` besides `MessageApi`.
pub record MessageParts (M : Type 0) ⦃api : MessageApi M⦄ : Type 0 where
  pub tool_call_id : M → Bytes
  pub tool_calls : M → List ToolCall
  -- A message with that role and content, and nothing else.
  pub plain : Role → Bytes → M
  pub tool : Bytes → Bytes → M
  pub assistant_with_tool_calls : Bytes → List ToolCall → M
  pub role-plain : (r : Role) (t : Bytes) → api.role (plain r t) ≡ r
  pub content-plain : (r : Role) (t : Bytes) → api.content (plain r t) ≡ t
  pub tool_call_id-plain : (r : Role) (t : Bytes) → tool_call_id (plain r t) ≡ []
  pub tool_calls-plain : (r : Role) (t : Bytes) → tool_calls (plain r t) ≡ []
  pub role-tool : (t id : Bytes) → api.role (tool t id) ≡ Role.tool
  pub content-tool : (t id : Bytes) → api.content (tool t id) ≡ t
  pub tool_call_id-tool : (t id : Bytes) → tool_call_id (tool t id) ≡ id
  pub tool_calls-tool : (t id : Bytes) → tool_calls (tool t id) ≡ []
  pub role-with_calls :
      (t : Bytes) (cs : List ToolCall) → api.role (assistant_with_tool_calls t cs) ≡ Role.assistant
  pub content-with_calls :
      (t : Bytes) (cs : List ToolCall) → api.content (assistant_with_tool_calls t cs) ≡ t
  pub tool_call_id-with_calls :
      (t : Bytes) (cs : List ToolCall) → tool_call_id (assistant_with_tool_calls t cs) ≡ []
  pub tool_calls-with_calls :
      (t : Bytes) (cs : List ToolCall) → tool_calls (assistant_with_tool_calls t cs) ≡ cs

abbrev pub invalid : Bytes → Bytes → ApiError
invalid message param = invalid_request_error message (some param) none

abbrev pub is_assistant : Role → Bool
is_assistant Role.assistant = true
is_assistant _ = false

unfoldable pub parse_role : Bytes → ApiResult Role
parse_role role =
    if role ==ᵇ text "system"
    then ok Role.system
    else if role ==ᵇ text "user"
    then ok Role.user
    else if role ==ᵇ text "assistant"
    then ok Role.assistant
    else if role ==ᵇ text "tool"
    then ok Role.tool
    else err (
        invalid_request_error (text "Unsupported message role: " ++ role) (some (text "messages"))
          (some (text "invalid_role")))

abbrev pub tool_call_keys : List Bytes
tool_call_keys = text "id" ∷ text "type" ∷ text "function" ∷ []

abbrev pub function_keys : List Bytes
function_keys = text "name" ∷ text "arguments" ∷ []

abbrev pub message_keys : List Bytes
message_keys = text "role" ∷ text "content" ∷ text "tool_call_id" ∷ text "tool_calls" ∷ []

module _ {J R I : Type 0} (json : JsonApi J R I) where
  unfoldable pub reject_api_unknown_keys : J → Bytes → List Bytes → ApiResult (Unit {0})
  reject_api_unknown_keys j context allowed =
      elim (reject_unknown_keys (json.view j) context allowed) [
        | ok u ↦ ok u
        | err message ↦
            err (invalid_request_error message (some context) (some (text "unknown_field")))
      ]

  unfoldable pub parse_tool_call : J → ApiResult ToolCall
  parse_tool_call j = do
    reject_api_unknown_keys j (text "tool_call") tool_call_keys
    id ←
        required json (string_of json) (text "id") j
          (invalid (text "tool_call.id must be a string") (text "messages.tool_calls"))
    kind ←
        required json (string_of json) (text "type") j
          (invalid (text "tool_call.type must be a string") (text "messages.tool_calls"))
    fail_if (not (kind ==ᵇ text "function"))
        (invalid (text "tool_call.type must be function") (text "messages.tool_calls"))
    function ←
        required json (object_of json) (text "function") j
          (invalid (text "tool_call.function must be an object") (text "messages.tool_calls"))
    reject_api_unknown_keys function (text "tool_call.function") function_keys
    name ←
        required json (string_of json) (text "name") function
          (invalid (text "tool_call.function.name must be a string") (text "messages.tool_calls"))
    arguments ← required json (string_of json) (text "arguments") function (
        invalid (text "tool_call.function.arguments must be a string") (text "messages.tool_calls"))
    ok (record { id = id; name = name; arguments_json = arguments })

  unfoldable pub parse_tool_calls : List J → ApiResult (List ToolCall)
  parse_tool_calls [] = ok []
  parse_tool_calls (j ∷ js) = do
    call ← parse_tool_call j
    calls ← parse_tool_calls js
    ok (call ∷ calls)

module _ {J R I M : Type 0} (json : JsonApi J R I) ⦃api : MessageApi M⦄
    ⦃parts : MessageParts M⦄ where
  -- The message of a `parse_message` by its role, before the check of the sequence.
  unfoldable pub tool_message : J → Bytes → ApiResult M
  tool_message j content = do
    fail_if (contains json (text "tool_calls") j) (
        invalid (text "tool_calls is only valid for assistant messages")
          (text "messages.tool_calls"))
    id ←
        required json (string_of json) (text "tool_call_id") j
          (invalid (text "tool messages must include a string tool_call_id") (text "messages"))
    ok (parts.tool content id)

  unfoldable pub calls_message : J → Role → Bytes → ApiResult M
  calls_message j role content = do
    fail_if (not (is_assistant role)) (
        invalid (text "tool_calls is only valid for assistant messages")
          (text "messages.tool_calls"))
    js ←
        required json (array_of json) (text "tool_calls") j
          (invalid (text "tool_calls must be an array") (text "messages.tool_calls"))
    calls ← parse_tool_calls json js
    ok (parts.assistant_with_tool_calls content calls)

  unfoldable pub other_message : J → Role → Bytes → ApiResult M
  other_message j role content = do
    fail_if (contains json (text "tool_call_id") j)
        (invalid (text "tool_call_id is only valid for tool messages") (text "messages"))
    if contains json (text "tool_calls") j
        then calls_message j role content
        else ok (parts.plain role content)

  abbrev pub message_of : J → Role → Bytes → ApiResult M
  message_of j Role.tool content = tool_message j content
  message_of j role content = other_message j role content

  -- `validate seed role` is what is wrong with that role after these messages, if anything; the
  -- result is the message and the messages with it.
  unfoldable pub parse_message :
      (List M → Role → Option Bytes) → J → List M → ApiResult (M × List M)
  parse_message validate j seed = do
    reject_api_unknown_keys json j (text "message") message_keys
    name ←
        required json (string_of json) (text "role") j
          (invalid (text "message.role must be a string") (text "messages"))
    content ←
        required json (string_of json) (text "content") j
          (invalid (text "message.content must be a string") (text "messages"))
    role ← parse_role name
    message ← message_of j role content
    elim (validate seed (api.role message)) [
      | some reason ↦ err (
          invalid_request_error reason (some (text "messages"))
            (some (text "invalid_message_sequence")))
      | none ↦ ok (message, seed ++ (message ∷ []))
    ]

  -- The loop over the messages of a request.
  unfoldable pub parse_messages :
      (List M → Role → Option Bytes) → List J → List M → ApiResult (List M)
  parse_messages validate [] seed = ok seed
  parse_messages validate (j ∷ js) seed = do
    (message, seed') ← parse_message validate j seed
    parse_messages validate js seed'

  unfoldable pub parse_single_message_field :
      (List M → Role → Option Bytes) → J → Bytes → Bytes → ApiResult M
  parse_single_message_field validate j field context = do
    item ←
        required json (object_of json) field j
          (invalid (field ++ text " must be an object") context)
    (message, seed) ← parse_message validate item []
    ok message
