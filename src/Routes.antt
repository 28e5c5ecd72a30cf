-- ===== src/Routes.antt =====
-- The state that the routes of src/server/api_routes.cpp and src/server/completion_controller.cpp
-- share, and what a route asks of the rest. A callback of the HTTP library is the number of its
-- request; `log` has what became of each. Streams are shared between the agent, the connection and
-- the continuations, so they stand in a list and are named by their place in it. A closure is the
-- data that it captures. Log lines are left out.
pub mod Start
pub mod Streamed
pub mod Figures
pub mod Handlers
pub mod Steps
pub mod Once
pub mod Dealt
pub mod Answered
pub mod Guards
pub mod Saturated
use zoo_keeper_server.Prelude.{
  ℕ, zero, suc, Bytes, Bool, true, false, Option, none, some, List, [], ◌∷◌, ◌++◌, if◌then◌else◌,
  ltb, ◌==ᵇ◌, text, map,
}
use zoo_keeper_server.Api.{Expected, ok, err, ApiError, service_unavailable_error, CompletionResult}
use zoo_keeper_server.Json.{JsonApi}
use zoo_keeper_server.Bodies.{ErrorCode}
use zoo_keeper_server.Chat.{Service, AgentCall, cancel, call}
use zoo_keeper_server.Chat.Start.{Kind, Pending}
use zoo_keeper_server.Metrics.{
  ServerMetrics, RuntimeErrorCode, with_metrics, increment_queue_rejected,
}
use zoo_keeper_server.Runtime.{ServerRuntime}
use zoo_keeper_server.Disconnects.{DisconnectRegistry}
use zoo_keeper_server.Stream.{StreamingSession}
use zoo_keeper_server.Extraction.{ExtractionStreamingSession}
use zoo_keeper_server.Responses.{
  HttpResponse, AgentResult, RuntimeResult, RuntimeError, reply_of, make_error_response,
}

-- What became of a callback: a response, or its handler, or the continuation that held it, was left
-- by an exception, so that it is not called.
pub data Outcome : Type 0 where
  answered : ℕ → HttpResponse → Outcome
  threw : ℕ → Outcome

-- What follows a completion on the executor: the callback is answered, or a stream ends, whose
-- connection and callback number are there if it was tracked.
pub data Continuation (M : Type 0) : Type 0 where
  answers : Kind → ℕ → Pending M → Continuation M
  ends_stream : ℕ → Option (ℕ × ℕ) → Pending M → Continuation M

pub data EventStream : Type 0 where
  of_completion : StreamingSession → EventStream
  of_extraction : ExtractionStreamingSession → EventStream

-- A stream, and the request of the agent that its cancel callback cancels.
pub record StreamEntry : Type 0 where
  pub session : EventStream
  pub agent_request : ℕ

-- What the registry of disconnects calls: the stream is closed and the request cancelled.
pub record OnDisconnect : Type 0 where
  pub stream : ℕ
  pub agent_request : ℕ

pub record Server (M : Type 0) : Type 0 where
  pub runtime : ServerRuntime M (Continuation M)
  pub runtime_alive : Bool
  pub registry : DisconnectRegistry OnDisconnect
  pub streams : List StreamEntry
  pub log : List Outcome

-- What the surroundings say while a handler or a continuation runs: whether the agent runs and the
-- number that it gives to a request, the readings of the clock, the tokens that come before the
-- metadata, what the future holds at once, the connection and whether it is still there, the frames
-- that it takes, and whether a `std::function` keeps its target when it is moved from, which the
-- standard leaves open and the usual libraries deny.
pub record Surroundings (J R : Type 0) : Type 0 where
  pub ready : Bool
  pub zoo_id : ℕ
  pub reaped : ℕ
  pub started : ℕ
  pub now : ℕ
  pub observed : ℕ
  pub released : ℕ
  pub early_tokens : List Bytes
  pub at_once : Option (RuntimeResult (AgentResult J R))
  pub connection : Option ℕ
  pub still_connected : Bool
  pub accepts : List Bytes → Bytes → Bool
  pub moved_from_keeps : Bool

abbrev pub server_busy : ApiError
server_busy =
    service_unavailable_error (text "Server continuation executor is saturated")
      (some (text "server_busy"))

-- The code of an error, as far as it is counted.
abbrev pub counted_code : ErrorCode → RuntimeErrorCode
counted_code ErrorCode.request_cancelled = RuntimeErrorCode.request_cancelled
counted_code ErrorCode.queue_full = RuntimeErrorCode.queue_full
counted_code _ = RuntimeErrorCode.other

-- What the observers see of a result.
abbrev pub seen :
    {J R : Type 0} → RuntimeResult (AgentResult J R) → Expected RuntimeError CompletionResult
seen (ok result) = ok (reply_of result)
seen (err error) = err error

abbrev pub is_queue_full : Option Bytes → Bool
is_queue_full none = false
is_queue_full (some code) = code ==ᵇ text "queue_full"

module _ {M : Type 0} where
  abbrev pub chat : Server M → Service M
  chat w = w.runtime.chat_service

  abbrev pub with_chat : Service M → Server M → Server M
  with_chat s w = record w { runtime = record w.runtime { chat_service = s } }

  abbrev pub count : (ServerMetrics → ServerMetrics) → Server M → Server M
  count f w = record w { runtime = record w.runtime { metrics = f w.runtime.metrics } }

  abbrev pub cancel_request_of : ℕ → Server M → Server M
  cancel_request_of zoo_id w = with_chat (call (cancel zoo_id) (chat w)) w

  -- The callback of the HTTP library, and the same within `with_metrics`.
  unfoldable pub reply_uncounted : ℕ → HttpResponse → Server M → Server M
  reply_uncounted n response w = record w { log = w.log ++ (answered n response ∷ []) }

  abbrev pub leave : ℕ → Server M → Server M
  leave n w = record w { log = w.log ++ (threw n ∷ []) }

  -- No response is there where making it throws, before the callback is called.
  unfoldable pub reply_made : ℕ → Option HttpResponse → Server M → Server M
  reply_made n none w = leave n w
  reply_made n (some response) w = reply_uncounted n response w

  unfoldable pub reply : ℕ → Option HttpResponse → Server M → Server M
  reply n none w = leave n w
  reply n (some response) w =
      reply_uncounted n response (count (with_metrics response.status_code) w)

  module _ {J R I : Type 0} (json : JsonApi J R I) where
    abbrev pub reply_error : ℕ → ApiError → Server M → Server M
    reply_error n error w = reply n (make_error_response json error) w

    -- A start that failed.
    unfoldable pub refuse_start : ℕ → ApiError → Server M → Server M
    refuse_start n error w =
        reply_error n error
          (if is_queue_full error.code then count increment_queue_rejected w else w)
