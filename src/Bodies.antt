-- ===== src/Bodies.antt =====
-- The JSON bodies that the server sends: the `make_…_body` functions of src/server/api_json.cpp and
-- src/server/api_routes.cpp, and the answer to an error of the agent. A body is built as the
-- members in the order in which the source lists them.

pub mod RoundTrip
pub mod History
use zoo_keeper_server.Prelude.{
  ℕ, Bytes, ◌≡◌, Bool, Option, none, some, List, [], ◌∷◌, ◌++◌, map, if◌then◌else◌, is_empty, text,
}
use zoo_keeper_server.Api.{
  Expected, ok, err, ApiError, Role, MessageApi, SessionSummary, invalid_request_error,
  service_unavailable_error, server_error, not_found_error, conflict_error,
}
use zoo_keeper_server.Chat.{AgentHistorySnapshot}
use zoo_keeper_server.Json.{JsonApi}
use zoo_keeper_server.Requests.Messages.{ToolCall, MessageParts}

-- `zoo::role_to_string`.
pub record RoleNames : Type 0 where
  pub role_to_string : Role → Bytes
  pub of_system : role_to_string Role.system ≡ text "system"
  pub of_user : role_to_string Role.user ≡ text "user"
  pub of_assistant : role_to_string Role.assistant ≡ text "assistant"
  pub of_tool : role_to_string Role.tool ≡ text "tool"

-- What the printer reads of a `zoo::ToolInvocation`; `status` is its status as text.
pub record ToolInvocation : Type 0 where
  pub id : Bytes
  pub name : Bytes
  pub status : Bytes
  pub arguments_json : Bytes
  pub result_json : Option Bytes
  pub error_message : Option Bytes

pub record ToolDefinition (J : Type 0) : Type 0 where
  pub name : Bytes
  pub description : Bytes
  pub parameters_schema : J

pub record CompletionUsage : Type 0 where
  pub prompt_tokens : ℕ
  pub completion_tokens : ℕ
  pub total_tokens : ℕ

pub record CompletionMetrics (R : Type 0) : Type 0 where
  pub latency_ms : ℕ
  pub time_to_first_token_ms : ℕ
  pub tokens_per_second : R

module _ {J R I : Type 0} (json : JsonApi J R I) where
  abbrev pub str : Bytes → J
  str s = json.from_string s

  abbrev pub num : ℕ → J
  num n = json.from_unsigned n

  -- A member that is assigned if the value is there.
  abbrev pub optional_text : Bytes → Option Bytes → List (Bytes × J)
  optional_text key none = []
  optional_text key (some s) = (key, str s) ∷ []

  unfoldable pub make_tool_call : ToolCall → J
  make_tool_call call = json.from_object (
      (text "id", str call.id)
      ∷ (text "type", str (text "function"))
      ∷ (
        text "function",
        json.from_object
            ((text "name", str call.name) ∷ (text "arguments", str call.arguments_json) ∷ []),
      )
      ∷ [])

  -- The text as the value that it is, if it is JSON, and else as a string.
  unfoldable pub parse_or_text : Bytes → J
  parse_or_text s = elim (json.parse s) [ ok j ↦ j | err what ↦ str s ]

  abbrev pub result_member : Option Bytes → List (Bytes × J)
  result_member none = []
  result_member (some s) = (text "result", parse_or_text s) ∷ []

  unfoldable pub make_tool_invocation_json : ToolInvocation → J
  make_tool_invocation_json inv = json.from_object (
      (text "id", str inv.id)
      ∷ (text "name", str inv.name)
      ∷ (text "status", str inv.status)
      ∷ (text "arguments", parse_or_text inv.arguments_json)
      ∷ (result_member inv.result_json ++ optional_text (text "error") inv.error_message))

  unfoldable pub make_tool_schema : ToolDefinition J → J
  make_tool_schema metadata = json.from_object (
      (text "type", str (text "function"))
      ∷ (
        text "function",
        json.from_object (
            (text "name", str metadata.name)
            ∷ (text "description", str metadata.description)
            ∷ (text "parameters", metadata.parameters_schema)
            ∷ []),
      )
      ∷ [])

  abbrev usage_body : CompletionUsage → J
  usage_body usage = json.from_object (
      (text "prompt_tokens", num usage.prompt_tokens)
      ∷ (text "completion_tokens", num usage.completion_tokens)
      ∷ (text "total_tokens", num usage.total_tokens)
      ∷ [])

  abbrev metrics_body : CompletionMetrics R → J
  metrics_body metrics = json.from_object (
      (text "latency_ms", num metrics.latency_ms)
      ∷ (text "time_to_first_token_ms", num metrics.time_to_first_token_ms)
      ∷ (text "tokens_per_second", json.from_float metrics.tokens_per_second)
      ∷ [])

  abbrev invocations_body : List ToolInvocation → J
  invocations_body invocations = json.from_array (map make_tool_invocation_json invocations)

  unfoldable pub make_chat_completion_body :
      Bytes → ℕ → Bytes → Bytes → CompletionUsage → CompletionMetrics R → List ToolInvocation → J
  make_chat_completion_body completion_id created model_id reply usage metrics invocations =
      json.from_object (
        (text "id", str completion_id)
        ∷ (text "object", str (text "chat.completion"))
        ∷ (text "created", num created)
        ∷ (text "model", str model_id)
        ∷ (
          text "choices",
          json.from_array (
              json.from_object (
                (text "index", num 0)
                ∷ (
                  text "message",
                  json.from_object
                      ((text "role", str (text "assistant")) ∷ (text "content", str reply) ∷ []),
                )
                ∷ (text "finish_reason", str (text "stop"))
                ∷ [])
              ∷ []),
        )
        ∷ (text "usage", usage_body usage)
        ∷ (text "zoo_metrics", metrics_body metrics)
        ∷ (text "tool_invocations", invocations_body invocations)
        ∷ [])

  unfoldable pub make_extraction_body :
      Bytes
      → ℕ
      → Bytes
      → Bytes
      → J
      → CompletionUsage
      → CompletionMetrics R
      → List ToolInvocation
      → J
  make_extraction_body extraction_id created model_id reply result usage metrics invocations =
      json.from_object (
        (text "id", str extraction_id)
        ∷ (text "object", str (text "extraction"))
        ∷ (text "created", num created)
        ∷ (text "model", str model_id)
        ∷ (text "text", str reply)
        ∷ (text "data", result)
        ∷ (text "usage", usage_body usage)
        ∷ (text "zoo_metrics", metrics_body metrics)
        ∷ (text "tool_invocations", invocations_body invocations)
        ∷ [])

  unfoldable pub make_session_body : SessionSummary → J
  make_session_body summary = json.from_object (
      (text "id", str summary.id)
      ∷ (text "object", str (text "session"))
      ∷ (text "model", str summary.model)
      ∷ (text "created", num summary.created)
      ∷ (text "last_used", num summary.last_used)
      ∷ (text "expires_at", num summary.expires_at)
      ∷ [])

  unfoldable pub make_error_body : ApiError → J
  make_error_body error = json.from_object (
      (
        text "error",
        json.from_object (
            (text "message", str error.message)
            ∷ (text "type", str error.type)
            ∷ (optional_text (text "param") error.param ++ optional_text (text "code") error.code)),
      )
      ∷ [])

  unfoldable pub make_models_body : Bytes → J
  make_models_body model_id = json.from_object (
      (text "object", str (text "list"))
      ∷ (
        text "data",
        json.from_array (
            json.from_object (
              (text "id", str model_id)
              ∷ (text "object", str (text "model"))
              ∷ (text "owned_by", str (text "zoo-keeper-server"))
              ∷ [])
            ∷ []),
      )
      ∷ [])

  unfoldable pub make_tools_body : List (ToolDefinition J) → J
  make_tools_body tools = json.from_object (
      (text "object", str (text "list"))
      ∷ (text "data", json.from_array (map make_tool_schema tools))
      ∷ [])

  abbrev pub id_member : Bytes → List (Bytes × J)
  id_member id = if is_empty id then [] else (text "tool_call_id", json.from_string id) ∷ []

  abbrev pub calls_member : List ToolCall → List (Bytes × J)
  calls_member calls =
      if is_empty calls
      then []
      else (text "tool_calls", json.from_array (map make_tool_call calls)) ∷ []

module _ {J R I M : Type 0} (json : JsonApi J R I) (names : RoleNames) ⦃api : MessageApi M⦄
    ⦃parts : MessageParts M⦄ where
  unfoldable pub make_message_body : M → J
  make_message_body message = json.from_object (
      (text "role", json.from_string (names.role_to_string (api.role message)))
      ∷ (text "content", json.from_string (api.content message))
      ∷ (id_member json (parts.tool_call_id message)
          ++ calls_member json (parts.tool_calls message)))

  unfoldable pub make_agent_history_body : AgentHistorySnapshot M → J
  make_agent_history_body history = json.from_object (
      (text "messages", json.from_array (map make_message_body history.messages))
      ∷ (text "estimated_tokens", json.from_unsigned history.estimated_tokens)
      ∷ (text "context_size", json.from_unsigned history.context_size)
      ∷ (text "context_exceeded", json.from_bool history.context_exceeded)
      ∷ [])

-- `zoo::ErrorCode`, the enumerators that the server names, and an error.
pub data ErrorCode : Type 0 where
  invalid_config invalid_sampling_params invalid_model_path invalid_context_size : ErrorCode
  backend_init_failed model_load_failed context_creation_failed inference_failed : ErrorCode
  tokenization_failed context_window_exceeded invalid_message_sequence : ErrorCode
  template_render_failed agent_not_running request_cancelled request_timeout queue_full : ErrorCode
  tool_not_found tool_execution_failed invalid_tool_signature invalid_tool_schema : ErrorCode
  tool_validation_failed tool_retries_exhausted tool_loop_limit_reached : ErrorCode
  invalid_output_schema extraction_failed gguf_read_failed gguf_metadata_not_found : ErrorCode
  store_corrupted filesystem_error model_not_found model_already_exists download_failed : ErrorCode
  hugging_face_api_error invalid_model_identifier unknown : ErrorCode

unfoldable pub map_runtime_error_to_api_error : ErrorCode → Bytes → ApiError
map_runtime_error_to_api_error code message = elim code [
  | invalid_config ↦ invalid_request_error message none (some (text "invalid_config"))
  | invalid_sampling_params ↦ invalid_request_error message none (some (text "invalid_config"))
  | invalid_model_path ↦ server_error message (some (text "model_load_failed"))
  | invalid_context_size ↦ server_error message (some (text "model_load_failed"))
  | backend_init_failed ↦ server_error message (some (text "model_load_failed"))
  | model_load_failed ↦ server_error message (some (text "model_load_failed"))
  | context_creation_failed ↦ server_error message (some (text "context_creation_failed"))
  | inference_failed ↦ server_error message (some (text "inference_failed"))
  | tokenization_failed ↦ server_error message (some (text "tokenization_failed"))
  | context_window_exceeded ↦
      invalid_request_error message (some (text "messages")) (some (text "context_window_exceeded"))
  | invalid_message_sequence ↦
      invalid_request_error message (some (text "messages"))
        (some (text "invalid_message_sequence"))
  | template_render_failed ↦ server_error message (some (text "template_render_failed"))
  | agent_not_running ↦ service_unavailable_error message (some (text "agent_not_ready"))
  | request_cancelled ↦ service_unavailable_error message (some (text "agent_not_ready"))
  | request_timeout ↦ server_error message (some (text "request_timeout"))
  | queue_full ↦ service_unavailable_error message (some (text "queue_full"))
  | tool_not_found ↦ invalid_request_error message none (some (text "tool_not_found"))
  | tool_execution_failed ↦ server_error message (some (text "tool_execution_failed"))
  | invalid_tool_signature ↦ server_error message (some (text "tool_execution_failed"))
  | invalid_tool_schema ↦ server_error message (some (text "tool_execution_failed"))
  | tool_validation_failed ↦ server_error message (some (text "tool_execution_failed"))
  | tool_retries_exhausted ↦ server_error message (some (text "tool_retries_exhausted"))
  | tool_loop_limit_reached ↦ server_error message (some (text "tool_retries_exhausted"))
  | invalid_output_schema ↦ invalid_request_error message none (some (text "invalid_output_schema"))
  | extraction_failed ↦ server_error message (some (text "extraction_failed"))
  | gguf_read_failed ↦ server_error message (some (text "hub_error"))
  | gguf_metadata_not_found ↦ server_error message (some (text "hub_error"))
  | store_corrupted ↦ server_error message (some (text "hub_error"))
  | filesystem_error ↦ server_error message (some (text "hub_error"))
  | model_not_found ↦ not_found_error message (some (text "model_not_found"))
  | model_already_exists ↦ conflict_error message (some (text "model_already_exists"))
  | download_failed ↦ server_error message (some (text "model_download_failed"))
  | hugging_face_api_error ↦ server_error message (some (text "model_download_failed"))
  | invalid_model_identifier ↦
      invalid_request_error message none (some (text "invalid_model_identifier"))
  | unknown ↦ server_error message (some (text "runtime_error"))
]
