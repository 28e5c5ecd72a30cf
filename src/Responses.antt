-- ===== src/Responses.antt =====
-- The HTTP responses of src/server/api_json.cpp and src/server/api_routes.cpp, and the results of
-- the agent that they are made from. A response belongs to the drogon library; what the server sets
-- of it is a record.
use zoo_keeper_server.Prelude.{
  ℕ, Bytes, Bool, Option, none, some, List, [], ◌∷◌, if◌then◌else◌, map, text,
}
use zoo_keeper_server.Api.{Expected, ApiError, SessionSummary, CompletionResult}
use zoo_keeper_server.Json.{JsonApi}
use zoo_keeper_server.Bodies.{
  ToolInvocation, ToolDefinition, CompletionUsage, CompletionMetrics, ErrorCode,
  make_chat_completion_body, make_extraction_body, make_session_body, make_error_body,
  make_models_body, make_tools_body, map_runtime_error_to_api_error,
}

-- The body: none, the text of a value, or the events of the stream with that number.
pub data ResponseBody : Type 0 where
  no_body : ResponseBody
  body_text : Bytes → ResponseBody
  events : ℕ → ResponseBody

pub record HttpResponse : Type 0 where
  pub status_code : ℕ
  pub content_type : Option Bytes
  pub headers : List (Bytes × Bytes)
  pub body : ResponseBody

-- `ToolInvocationRecord` of the zoo-keeper library: what is printed of it, whether its status is
-- `Succeeded`, and the context of its error, if it has one.
pub record ToolInvocationRecord : Type 0 where
  pub printed : ToolInvocation
  pub succeeded : Bool
  pub error : Option (Option Bytes)

abbrev pub printed_of : ToolInvocationRecord → ToolInvocation
printed_of invocation = invocation.printed

abbrev pub succeeded_of : ToolInvocationRecord → Bool
succeeded_of invocation = invocation.succeeded

abbrev pub error_of : ToolInvocationRecord → Option (Option Bytes)
error_of invocation = invocation.error

-- `CompletionResult` and `ExtractionResult`; a completion has no `extracted`, the member `data`.
pub record AgentResult (J R : Type 0) : Type 0 where
  pub reply : Bytes
  pub extracted : J
  pub usage : CompletionUsage
  pub metrics : CompletionMetrics R
  pub tool_invocations : List ToolInvocationRecord

pub record RuntimeError : Type 0 where
  pub code : ErrorCode
  pub message : Bytes

abbrev pub RuntimeResult : Type 0 → Type 0
RuntimeResult A = Expected RuntimeError A

-- What the session store reads of a result.
abbrev pub reply_of : {J R : Type 0} → AgentResult J R → CompletionResult
reply_of result = record { text = result.reply }

abbrev pub api_error_of : RuntimeError → ApiError
api_error_of error = map_runtime_error_to_api_error error.code error.message

unfoldable pub make_no_content_response : HttpResponse
make_no_content_response = record {
  status_code = 204;
  content_type = none;
  headers = [];
  body = no_body;
}

-- The answer to a CORS preflight.
unfoldable pub make_preflight_response : HttpResponse
make_preflight_response = record make_no_content_response {
  headers =
      (text "Access-Control-Allow-Methods", text "GET, POST, DELETE, OPTIONS")
      ∷ (text "Access-Control-Allow-Headers", text "Authorization, Content-Type")
      ∷ (text "Access-Control-Max-Age", text "86400")
      ∷ [];
}

unfoldable pub make_stream_response : ℕ → HttpResponse
make_stream_response stream = record {
  status_code = 200;
  content_type = some (text "text/event-stream");
  headers =
      (text "Cache-Control", text "no-cache")
      ∷ (text "Connection", text "keep-alive")
      ∷ (text "X-Accel-Buffering", text "no")
      ∷ [];
  body = events stream;
}

module _ {J R I : Type 0} (json : JsonApi J R I) where
  abbrev pub json_response : J → ℕ → HttpResponse
  json_response body status = record {
    status_code = status;
    content_type = some (text "application/json");
    headers = [];
    body = body_text (json.dump body);
  }

  -- `none` where printing the body throws.
  unfoldable pub make_json_response : J → ℕ → Option HttpResponse
  make_json_response body status =
      if json.dump_throws body then none else some (json_response body status)

  unfoldable pub make_error_response : ApiError → Option HttpResponse
  make_error_response error = make_json_response (make_error_body json error) error.http_status

  unfoldable pub make_accepted_response : J → Option HttpResponse
  make_accepted_response body = make_json_response body 202

  unfoldable pub make_models_response : Bytes → Option HttpResponse
  make_models_response model_id = make_json_response (make_models_body json model_id) 200

  unfoldable pub make_tools_response : List (ToolDefinition J) → Option HttpResponse
  make_tools_response tools = make_json_response (make_tools_body json tools) 200

  unfoldable pub make_session_response : SessionSummary → ℕ → Option HttpResponse
  make_session_response summary status = make_json_response (make_session_body json summary) status

  unfoldable pub make_chat_completion_response :
      Bytes → ℕ → Bytes → AgentResult J R → Option HttpResponse
  make_chat_completion_response completion_id created model_id response =
      make_json_response
        (make_chat_completion_body json completion_id created model_id response.reply response.usage
          response.metrics (map printed_of response.tool_invocations))
        200

  unfoldable pub make_extraction_response :
      Bytes → ℕ → Bytes → AgentResult J R → Option HttpResponse
  make_extraction_response extraction_id created model_id response =
      make_json_response
        (make_extraction_body json extraction_id created model_id response.reply response.extracted
          response.usage response.metrics (map printed_of response.tool_invocations))
        200
