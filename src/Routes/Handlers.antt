-- ===== src/Routes/Handlers.antt =====
-- The handlers that src/server/api_routes.cpp and src/server/completion_controller.cpp register.
use zoo_keeper_server.Prelude.{
  ℕ, Bytes, Bool, not, Option, none, some, List, [], ◌∷◌, if◌then◌else◌, text,
}
use zoo_keeper_server.Api.{ok, err, ApiResult, MessageApi, Role}
use zoo_keeper_server.Auth.{check_auth}
use zoo_keeper_server.Json.{JsonApi}
use zoo_keeper_server.Config.{ServerConfig}
use zoo_keeper_server.Bodies.{RoleNames, ToolDefinition, make_agent_history_body}
use zoo_keeper_server.Chat.{
  Service, AgentHistorySnapshot, create_session, get_session, delete_session, cancel_request,
  get_agent_history, replace_agent_history, clear_agent_history, swap_agent_history,
  append_agent_history_message, get_system_prompt, set_system_prompt, not_ready,
}
use zoo_keeper_server.Runtime.{metrics_snapshot}
use zoo_keeper_server.Requests.Messages.{MessageParts}
use zoo_keeper_server.Requests.Parse.{
  parse_chat_completion_request, parse_extraction_request, parse_agent_chat_request,
  parse_agent_history_request, parse_agent_history_message_request, parse_session_create_request,
  parse_system_prompt_request,
}
use zoo_keeper_server.Responses.{
  HttpResponse, make_no_content_response, make_preflight_response, make_json_response,
  make_error_response, make_accepted_response, make_models_response, make_tools_response,
  make_session_response,
}
use zoo_keeper_server.Routes.{
  Server, Surroundings, chat, with_chat, reply, reply_made, reply_uncounted, reply_error,
}
use zoo_keeper_server.Routes.Figures.{
  make_health_response, health_snapshot, no_health, ZooFigures, to_json, make_runtime_body,
}
use zoo_keeper_server.Routes.Start.{
  start_non_stream_completion, start_non_stream_extraction, start_agent_chat,
}
use zoo_keeper_server.Routes.Streamed.{start_stream_completion, start_stream_extraction}

-- The methods and paths of the handlers that check the key, with the part of the path that a handler
-- takes. `preflight` and `health_route` are the handlers that do not.
pub data Route : Type 0 where
  list_models list_tools : Route
  post_session : Route
  get_session_at delete_session_at : Bytes → Route
  post_chat_completion post_extraction post_agent_chat : Route
  post_cancel : Bytes → Route
  get_history put_history delete_history post_history_swap post_history_message : Route
  get_prompt put_prompt : Route
  get_runtime get_metrics : Route

-- The Authorization header and the body.
pub record HttpRequest : Type 0 where
  pub authorization : Bytes
  pub body : Bytes

-- The handler of OPTIONS, which is there if the configuration allows any origin.
unfoldable pub preflight : {M : Type 0} → ℕ → Server M → Server M
preflight n w = reply_uncounted n make_preflight_response w

module _ {J R I M A G : Type 0} (json : JsonApi J R I) (names : RoleNames)
    (figures : ZooFigures J A G) (config : ServerConfig J A G) (tools : List (ToolDefinition J))
    ⦃api : MessageApi M⦄ ⦃parts : MessageParts M⦄ (validate : List M → Role → Option Bytes) where
  -- `/healthz`, which is not counted. `version` is `kVersion`.
  unfoldable pub health_route : Bool → Bytes → ℕ → Server M → Server M
  health_route ready version n w =
      reply_made n
        (make_health_response json (
          if w.runtime_alive
          then health_snapshot ready version config.model_id (chat w).store
          else no_health version))
        w

  -- The guards that these handlers share, and then the rest.
  unfoldable pub guarded : HttpRequest → ℕ → (Server M → Server M) → Server M → Server M
  guarded request n rest w =
      if not w.runtime_alive
      then reply_made n (make_error_response json not_ready) w
      else elim (check_auth request.authorization config.api_key) [
        | some error ↦ reply_error json n error w
        | none ↦ rest w
      ]

  -- An operation of the service, answered by its error or by what is made of its value.
  unfoldable pub answer_with :
      {V : Type 0} → ℕ → (V → Option HttpResponse) → Service M × ApiResult V → Server M → Server M
  answer_with n show (s, err error) w = reply_error json n error (with_chat s w)
  answer_with n show (s, ok value) w = reply n (show value) (with_chat s w)

  -- A request that is parsed first.
  unfoldable pub parsed :
      {V : Type 0} → ℕ → ApiResult V → (V → Server M → Server M) → Server M → Server M
  parsed n (err error) rest w = reply_error json n error w
  parsed n (ok value) rest w = rest value w

  abbrev pub history_response : AgentHistorySnapshot M → Option HttpResponse
  history_response history =
      make_json_response json (make_agent_history_body json names history) 200

  abbrev pub prompt_response : Bytes → Option HttpResponse
  prompt_response prompt =
      make_json_response json
        (json.from_object ((text "system_prompt", json.from_string prompt) ∷ [])) 200

  abbrev pub cancelled_response : Bytes → Option HttpResponse
  cancelled_response request_id = make_accepted_response json (
      json.from_object (
        (text "id", json.from_string request_id)
        ∷ (text "cancelled", json.from_bool Bool.true)
        ∷ []))

  -- One function for each handler.
  unfoldable pub models_route : HttpRequest → ℕ → Server M → Server M
  models_route request n w =
      guarded request n (λ v. reply n (make_models_response json (chat v).model_id) v) w

  unfoldable pub tools_route : HttpRequest → ℕ → Server M → Server M
  tools_route request n w = guarded request n (λ v. reply n (make_tools_response json tools) v) w

  unfoldable pub create_session_route : Surroundings J R → HttpRequest → ℕ → Server M → Server M
  create_session_route env request n w =
      guarded request n
        (λ v.
          parsed n (parse_session_create_request json request.body)
            (λ create u.
              answer_with n (λ summary. make_session_response json summary 201)
                (create_session env.ready env.now create (chat u)) u)
            v)
        w

  unfoldable pub get_session_route :
      Surroundings J R → Bytes → HttpRequest → ℕ → Server M → Server M
  get_session_route env id request n w =
      guarded request n
        (λ v.
          answer_with n (λ summary. make_session_response json summary 200)
            (get_session env.now id (chat v)) v)
        w

  unfoldable pub delete_session_route : Bytes → HttpRequest → ℕ → Server M → Server M
  delete_session_route id request n w =
      guarded request n
        (λ v. answer_with n (λ _. some make_no_content_response) (delete_session id (chat v)) v) w

  unfoldable pub chat_completion_route : Surroundings J R → HttpRequest → ℕ → Server M → Server M
  chat_completion_route env request n w =
      guarded request n
        (λ v.
          parsed n (parse_chat_completion_request json validate request.body)
            (λ (completion, overrides) u.
              if not completion.stream
              then start_non_stream_completion json env completion n u
              else start_stream_completion json env completion n u)
            v)
        w

  unfoldable pub extraction_route : Surroundings J R → HttpRequest → ℕ → Server M → Server M
  extraction_route env request n w =
      guarded request n
        (λ v.
          parsed n (parse_extraction_request json validate request.body)
            (λ (extraction, overrides) u.
              if not extraction.stream
              then start_non_stream_extraction json env extraction n u
              else start_stream_extraction json env extraction n u)
            v)
        w

  unfoldable pub agent_chat_route : Surroundings J R → HttpRequest → ℕ → Server M → Server M
  agent_chat_route env request n w =
      guarded request n
        (λ v.
          parsed n (parse_agent_chat_request json validate request.body)
            (λ (asked, overrides) u. start_agent_chat json validate env asked n u) v)
        w

  unfoldable pub cancel_route : Bytes → HttpRequest → ℕ → Server M → Server M
  cancel_route id request n w =
      guarded request n
        (λ v. answer_with n (λ _. cancelled_response id) (cancel_request id (chat v)) v) w

  unfoldable pub get_history_route : Surroundings J R → HttpRequest → ℕ → Server M → Server M
  get_history_route env request n w =
      guarded request n
        (λ v. answer_with n history_response (chat v, get_agent_history env.ready (chat v)) v) w

  unfoldable pub put_history_route : Surroundings J R → HttpRequest → ℕ → Server M → Server M
  put_history_route env request n w =
      guarded request n
        (λ v.
          parsed n (parse_agent_history_request json validate request.body)
            (λ messages u.
              answer_with n history_response (replace_agent_history env.ready messages (chat u)) u)
            v)
        w

  unfoldable pub delete_history_route : Surroundings J R → HttpRequest → ℕ → Server M → Server M
  delete_history_route env request n w =
      guarded request n
        (λ v.
          answer_with n (λ _. some make_no_content_response)
            (clear_agent_history env.ready (chat v)) v)
        w

  unfoldable pub swap_history_route : Surroundings J R → HttpRequest → ℕ → Server M → Server M
  swap_history_route env request n w =
      guarded request n
        (λ v.
          parsed n (parse_agent_history_request json validate request.body)
            (λ messages u.
              answer_with n history_response (swap_agent_history env.ready messages (chat u)) u)
            v)
        w

  unfoldable pub history_message_route : Surroundings J R → HttpRequest → ℕ → Server M → Server M
  history_message_route env request n w =
      guarded request n
        (λ v.
          parsed n (parse_agent_history_message_request json validate request.body)
            (λ message u.
              answer_with n history_response
                (append_agent_history_message validate env.ready message (chat u)) u)
            v)
        w

  unfoldable pub get_prompt_route : HttpRequest → ℕ → Server M → Server M
  get_prompt_route request n w =
      guarded request n (λ v. reply n (prompt_response (get_system_prompt (chat v))) v) w

  unfoldable pub put_prompt_route : HttpRequest → ℕ → Server M → Server M
  put_prompt_route request n w =
      guarded request n
        (λ v.
          parsed n (parse_system_prompt_request json request.body)
            (λ prompt u.
              reply n (prompt_response prompt) (with_chat (set_system_prompt prompt (chat u)) u))
            v)
        w

  unfoldable pub runtime_route : Surroundings J R → HttpRequest → ℕ → Server M → Server M
  runtime_route env request n w =
      guarded request n
        (λ v.
          reply n
            (make_json_response json
              (make_runtime_body json figures config env.ready tools (chat v)) 200)
            v)
        w

  -- `uptime` is what the clock of the counters says.
  unfoldable pub metrics_route : ℕ → HttpRequest → ℕ → Server M → Server M
  metrics_route uptime request n w =
      guarded request n
        (λ v.
          reply n
            (make_json_response json
              (to_json json (metrics_snapshot uptime config.model_id v.runtime)) 200)
            v)
        w

  unfoldable pub handle : Surroundings J R → ℕ → Route → HttpRequest → ℕ → Server M → Server M
  handle env uptime list_models request n w = models_route request n w
  handle env uptime list_tools request n w = tools_route request n w
  handle env uptime post_session request n w = create_session_route env request n w
  handle env uptime (get_session_at id) request n w = get_session_route env id request n w
  handle env uptime (delete_session_at id) request n w = delete_session_route id request n w
  handle env uptime post_chat_completion request n w = chat_completion_route env request n w
  handle env uptime post_extraction request n w = extraction_route env request n w
  handle env uptime post_agent_chat request n w = agent_chat_route env request n w
  handle env uptime (post_cancel id) request n w = cancel_route id request n w
  handle env uptime get_history request n w = get_history_route env request n w
  handle env uptime put_history request n w = put_history_route env request n w
  handle env uptime delete_history request n w = delete_history_route env request n w
  handle env uptime post_history_swap request n w = swap_history_route env request n w
  handle env uptime post_history_message request n w = history_message_route env request n w
  handle env uptime get_prompt request n w = get_prompt_route request n w
  handle env uptime put_prompt request n w = put_prompt_route request n w
  handle env uptime get_runtime request n w = runtime_route env request n w
  handle env uptime get_metrics request n w = metrics_route uptime request n w
