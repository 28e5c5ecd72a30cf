-- ===== src/Routes/Start.antt =====
-- Requests that are answered at once or by a continuation: `start_non_stream_completion` of
-- src/server/completion_controller.cpp, and `start_non_stream_extraction` and `start_agent_chat` of
-- src/server/api_routes.cpp.
use zoo_keeper_server.Prelude.{ℕ, Bytes, Option, none, some, List, if◌then◌else◌}
use zoo_keeper_server.Api.{Expected, ok, err, ApiResult, MessageApi, Role, ChatCompletionRequest}
use zoo_keeper_server.Json.{JsonApi}
use zoo_keeper_server.Chat.{Service}
use zoo_keeper_server.Chat.Start.{
  Kind, completion, extraction, Pending, release, start_request, finalize,
  start_agent_chat as start_chat,
}
use zoo_keeper_server.Metrics.{increment_runtime_error_metrics, increment_tool_metrics}
use zoo_keeper_server.Runtime.{submit_background}
use zoo_keeper_server.Requests.Parse.{ExtractionRequest, AgentChatRequest}
use zoo_keeper_server.Responses.{
  HttpResponse, AgentResult, RuntimeResult, succeeded_of, error_of, api_error_of,
  make_chat_completion_response, make_extraction_response,
}
use zoo_keeper_server.Routes.{
  Server, Surroundings, answers, leave, server_busy, counted_code, seen, chat, with_chat, count,
  cancel_request_of, reply_error, reply, refuse_start,
}

-- What the service reads of an extraction request.
abbrev pub as_chat : {J M : Type 0} → ExtractionRequest J M → ChatCompletionRequest M
as_chat request = record {
  model = request.model;
  messages = request.messages;
  stream = request.stream;
  session_id = request.session_id;
}

module _ {M : Type 0} where
  unfoldable pub release_pending : ℕ → Pending M → Server M → Server M
  release_pending released pending w = with_chat (release released pending.lease (chat w)).1 w

  module _ {J R I : Type 0} (json : JsonApi J R I) ⦃api : MessageApi M⦄ where
    unfoldable pub finalize_pending :
        Surroundings J R → Pending M → RuntimeResult (AgentResult J R) → Server M → Server M
    finalize_pending env pending result w =
        with_chat (finalize env.observed env.released pending (seen result) (chat w)) w

    abbrev pub response_of : Kind → Pending M → AgentResult J R → Option HttpResponse
    response_of completion pending result =
        make_chat_completion_response json pending.id pending.created pending.model result
    response_of extraction pending result =
        make_extraction_response json pending.id pending.created pending.model result

    -- The result is counted and observed, the lease ends, and the callback is answered.
    unfoldable pub answer :
        Surroundings J R
        → Kind
        → ℕ
        → Pending M
        → RuntimeResult (AgentResult J R)
        → Server M
        → Server M
    answer env kind n pending (err error) w = reply_error json n (api_error_of error) (
        finalize_pending env pending (err error)
          (count (increment_runtime_error_metrics (counted_code error.code)) w))
    answer env kind n pending (ok result) w = reply n (response_of kind pending result) (
        finalize_pending env pending (ok result)
          (count (increment_tool_metrics succeeded_of error_of result.tool_invocations) w))

    -- The executor refused a continuation. It is destroyed, and its lease with it; what is left in
    -- the handler was moved from: no lease, and two functions, `cancel` and the callback, that may
    -- have no target any more, so that the call of the first throws.
    unfoldable pub refused : Surroundings J R → ℕ → Pending M → Server M → Server M
    refused env n pending w =
        let w' = release_pending env.released pending w in
        if env.moved_from_keeps
        then reply_error json n server_busy (cancel_request_of pending.handle_id w')
        else leave n w'

    -- What the handler does with the answer of the executor.
    abbrev pub after_submit :
        Surroundings J R → ℕ → Pending M → Expected Bytes (Unit {0}) → Server M → Server M
    after_submit env n pending (ok _) w = w
    after_submit env n pending (err _) w = refused env n pending w

    -- What follows a start that succeeded.
    unfoldable pub await :
        Surroundings J R
        → Kind
        → ℕ
        → Pending M
        → Option (RuntimeResult (AgentResult J R))
        → Server M
        → Server M
    await env kind n pending (some result) w = answer env kind n pending result w
    await env kind n pending none w =
        let (runtime', submitted) = submit_background (answers kind n pending) w.runtime in
        after_submit env n pending submitted (record w { runtime = runtime' })

    unfoldable pub after_start :
        Surroundings J R → Kind → ℕ → Service M × ApiResult (Pending M) → Server M → Server M
    after_start env kind n (s, err error) w = refuse_start json n error (with_chat s w)
    after_start env kind n (s, ok pending) w = await env kind n pending env.at_once (with_chat s w)

    unfoldable pub start_non_stream_completion :
        Surroundings J R → ChatCompletionRequest M → ℕ → Server M → Server M
    start_non_stream_completion env request n w =
        after_start env completion n
          (start_request completion env.ready env.zoo_id env.reaped env.started env.now request
            (chat w))
          w

    unfoldable pub start_non_stream_extraction :
        Surroundings J R → ExtractionRequest J M → ℕ → Server M → Server M
    start_non_stream_extraction env request n w =
        after_start env extraction n
          (start_request extraction env.ready env.zoo_id env.reaped env.started env.now
            (as_chat request) (chat w))
          w

    unfoldable pub start_agent_chat :
        (List M → Role → Option Bytes)
        → Surroundings J R
        → AgentChatRequest M
        → ℕ
        → Server M
        → Server M
    start_agent_chat validate env request n w =
        after_start env completion n
          (start_chat validate env.ready env.zoo_id env.now request.model request.message (chat w))
          w
