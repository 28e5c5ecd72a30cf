-- ===== src/Routes/Streamed.antt =====
-- Requests that are answered by a stream: `start_stream_completion` of
-- src/server/completion_controller.cpp and `start_stream_extraction` of src/server/api_routes.cpp,
-- and what their continuations, the agent, the HTTP library and a lost connection do to a stream.
use zoo_keeper_server.Prelude.{
  ℕ, zero, suc, ◌++◌, Bytes, Bool, true, false, Option, none, some, List, [], ◌∷◌, if◌then◌else◌,
  ltb, length,
}
use zoo_keeper_server.Api.{
  Expected, ok, err, ApiError, ApiResult, MessageApi, ChatCompletionRequest,
}
use zoo_keeper_server.Json.{JsonApi}
use zoo_keeper_server.Bodies.{make_error_body}
use zoo_keeper_server.Chat.{Service}
use zoo_keeper_server.Chat.Start.{Kind, completion, extraction, Pending, start_request}
use zoo_keeper_server.Metrics.{
  increment_runtime_error_metrics, increment_tool_metrics, increment_stream_disconnects,
}
use zoo_keeper_server.Runtime.{submit_background}
use zoo_keeper_server.Requests.Parse.{ExtractionRequest}
use zoo_keeper_server.Disconnects.{track, clear, handle_connection_event}
use zoo_keeper_server.Stream
use zoo_keeper_server.Stream.{fresh_session}
use zoo_keeper_server.Extraction
use zoo_keeper_server.Extraction.{fresh_extraction}
use zoo_keeper_server.Responses.{
  AgentResult, RuntimeResult, succeeded_of, error_of, api_error_of, make_stream_response,
  HttpResponse,
}
use zoo_keeper_server.Routes.{
  leave, Server, Surroundings, ends_stream, EventStream, of_completion, of_extraction, StreamEntry,
  OnDisconnect, counted_code, chat, with_chat, count, cancel_request_of, reply_error, reply,
  refuse_start,
}
use zoo_keeper_server.Routes.Start.{as_chat, finalize_pending, refused, release_pending}

-- How often the cancel callback was called.
abbrev pub cancels_of : EventStream → ℕ
cancels_of (of_completion s) = s.cancels
cancels_of (of_extraction s) = s.cancels

abbrev pub fresh_stream : Kind → EventStream
fresh_stream completion = of_completion fresh_session
fresh_stream extraction = of_extraction fresh_extraction

abbrev pub close_stream : EventStream → EventStream
close_stream (of_completion s) = of_completion (Stream.close s)
close_stream (of_extraction s) = of_extraction (Extraction.close s)

abbrev pub set_cancel_callback : EventStream → EventStream
set_cancel_callback (of_completion s) = of_completion (Stream.set_cancel_callback s)
set_cancel_callback (of_extraction s) = of_extraction (Extraction.set_cancel_callback s)

abbrev pub attach_stream : (List Bytes → Bytes → Bool) → EventStream → EventStream
attach_stream accepts (of_completion s) = of_completion (Stream.attach_stream accepts s)
attach_stream accepts (of_extraction s) = of_extraction (Extraction.attach_stream accepts s)

-- A method that prints says, beside the stream, whether an exception left it.
module _ {J R I : Type 0} (json : JsonApi J R I) (accepts : List Bytes → Bytes → Bool) where
  abbrev pub push_token : Bytes → EventStream → EventStream × Bool
  push_token token (of_completion s) = (of_completion (Stream.push_token accepts token s), false)
  push_token token (of_extraction s) =
      let (t, thrown) = Extraction.push_token accepts json token s in (of_extraction t, thrown)

  abbrev pub push_tokens : List Bytes → EventStream → EventStream × Bool
  push_tokens tokens (of_completion s) =
      (of_completion (Stream.push_tokens accepts tokens s), false)
  push_tokens tokens (of_extraction s) =
      let (t, thrown) = Extraction.push_tokens accepts json tokens s in (of_extraction t, thrown)

  abbrev pub set_metadata : Bytes → ℕ → Bytes → EventStream → EventStream × Bool
  set_metadata id created model (of_completion s) =
      (of_completion (Stream.set_metadata accepts id created model s), false)
  set_metadata id created model (of_extraction s) =
      let (t, thrown) = Extraction.set_metadata accepts json id created model s in
      (of_extraction t, thrown)

  abbrev pub finish_success : AgentResult J R → EventStream → EventStream × Bool
  finish_success result (of_completion s) =
      (of_completion (Stream.finish_success accepts result.reply s), false)
  finish_success result (of_extraction s) =
      let (t, thrown) = Extraction.finish_success accepts json result s in (of_extraction t, thrown)

  abbrev pub error_text : ApiError → Option Bytes
  error_text error =
      if json.dump_throws (make_error_body json error)
      then none
      else some (json.dump (make_error_body json error))

  abbrev pub finish_error : ApiError → EventStream → EventStream × Bool
  finish_error error (of_completion s) =
      let (t, thrown) = Stream.finish_error accepts (error_text error) s in
      (of_completion t, thrown)
  finish_error error (of_extraction s) =
      let (t, thrown) = Extraction.finish_error accepts json error s in (of_extraction t, thrown)

abbrev pub state_after : (EventStream → EventStream × Bool) → EventStream → EventStream
state_after f e = (f e).0

-- Whether the method on the stream at that place is left by an exception.
abbrev pub thrown_at : ℕ → (EventStream → EventStream × Bool) → List StreamEntry → Bool
thrown_at k f [] = false
thrown_at zero f (e ∷ es) = (f e.session).1
thrown_at (suc k) f (e ∷ es) = thrown_at k f es

-- The new stream gets the tokens that came early and the metadata, and, unless an exception
-- ends that, the cancel callback.
abbrev pub opened : EventStream × Bool → EventStream
opened (e, true) = e
opened (e, false) = set_cancel_callback e

module _ {M : Type 0} where
  -- The method on the stream, and the call of its cancel callback, if there was one.
  abbrev pub changed : (EventStream → EventStream) → StreamEntry → Server M → StreamEntry × Server M
  changed f e w =
      let session' = f e.session in
      (
        record e { session = session' },
        if ltb (cancels_of e.session) (cancels_of session')
            then cancel_request_of e.agent_request w
            else w,
      )

  -- The streams from a place on, with the method called on the stream at that place.
  abbrev pub change_at :
      ℕ → (EventStream → EventStream) → List StreamEntry → Server M → List StreamEntry × Server M
  change_at k f [] w = ([], w)
  change_at zero f (e ∷ es) w = let (e', w') = changed f e w in (e' ∷ es, w')
  change_at (suc k) f (e ∷ es) w = let (es', w') = change_at k f es w in (e ∷ es', w')

  unfoldable pub on_stream : ℕ → (EventStream → EventStream) → Server M → Server M
  on_stream k f w =
      let (streams', w') = change_at k f w.streams w in record w' { streams = streams' }

  -- The callback that the registry keeps for a stream.
  unfoldable pub disconnected : OnDisconnect → Server M → Server M
  disconnected d w =
      count increment_stream_disconnects
        (cancel_request_of d.agent_request (on_stream d.stream close_stream w))

  unfoldable pub disconnected_all : List OnDisconnect → Server M → Server M
  disconnected_all [] w = w
  disconnected_all (d ∷ ds) w = disconnected_all ds (disconnected d w)

  -- The connection callback of `HttpServer::run`.
  unfoldable pub connection_event : Option ℕ → Bool → Server M → Server M
  connection_event connection lost w =
      let (registry', callbacks) = handle_connection_event connection lost w.registry in
      disconnected_all callbacks (record w { registry = registry' })

  -- The registry forgets a stream, if it knew it and the connection is still there.
  unfoldable pub untrack : Bool → Option (ℕ × ℕ) → Server M → Server M
  untrack still_connected none w = w
  untrack still_connected (some (connection, callback_id)) w =
      if still_connected then record w { registry = clear connection callback_id w.registry } else w

  unfoldable pub track_stream : Option ℕ → OnDisconnect → Server M → Server M × Option (ℕ × ℕ)
  track_stream none d w = (w, none)
  track_stream (some connection) d w =
      let (registry', callback_id) = track connection d w.registry in
      (record w { registry = registry' }, some (connection, callback_id))

  module _ {J R I : Type 0} (json : JsonApi J R I) ⦃api : MessageApi M⦄ where
    -- The observer and the end of the lease, or what an exception leaves of them: the lease ends
    -- as its owner is destroyed.
    abbrev pub finalize_unless :
        Bool → Surroundings J R → Pending M → RuntimeResult (AgentResult J R) → Server M → Server M
    finalize_unless true env pending result w = release_pending env.released pending w
    finalize_unless false env pending result w = finalize_pending json env pending result w

    -- The end of a stream on the executor.
    unfoldable pub end_stream :
        Surroundings J R
        → ℕ
        → Option (ℕ × ℕ)
        → Pending M
        → RuntimeResult (AgentResult J R)
        → Server M
        → Server M
    end_stream env k tracked pending (err error) w =
        let f = finish_error json env.accepts (api_error_of error) in
        let w' =
          count (increment_runtime_error_metrics (counted_code error.code))
            (untrack env.still_connected tracked w) in
        finalize_unless (thrown_at k f w'.streams) env pending (err error)
          (on_stream k (state_after f) w')
    end_stream env k tracked pending (ok result) w =
        let f = finish_success json env.accepts result in
        let w' =
          count (increment_tool_metrics succeeded_of error_of result.tool_invocations)
            (untrack env.still_connected tracked w) in
        finalize_unless (thrown_at k f w'.streams) env pending (ok result)
          (on_stream k (state_after f) w')

    abbrev pub reply_unless : Bool → ℕ → HttpResponse → Server M → Server M
    reply_unless true n response w = leave n w
    reply_unless false n response w = reply n (some response) w

    -- The result is there at once: an error is a plain response, and no event was sent.
    unfoldable pub stream_at_once :
        Surroundings J R → ℕ → ℕ → Pending M → RuntimeResult (AgentResult J R) → Server M → Server M
    stream_at_once env n k pending (err error) w = reply_error json n (api_error_of error) (
        finalize_pending json env pending (err error)
          (count (increment_runtime_error_metrics (counted_code error.code)) w))
    stream_at_once env n k pending (ok result) w =
        let f = finish_success json env.accepts result in
        let w' = count (increment_tool_metrics succeeded_of error_of result.tool_invocations) w in
        let thrown = thrown_at k f w'.streams in
        reply_unless thrown n (make_stream_response k)
          (finalize_unless thrown env pending (ok result) (on_stream k (state_after f) w'))

    abbrev pub stream_submitted :
        Surroundings J R
        → ℕ
        → ℕ
        → Option (ℕ × ℕ)
        → Pending M
        → Expected Bytes (Unit {0})
        → Server M
        → Server M
    stream_submitted env n k tracked pending (ok _) w = reply n (some (make_stream_response k)) w
    stream_submitted env n k tracked pending (err _) w =
        refused json env n pending (untrack env.still_connected tracked w)

    -- The result is to come.
    unfoldable pub stream_later : Surroundings J R → ℕ → ℕ → Pending M → Server M → Server M
    stream_later env n k pending w =
        let (w', tracked) =
          track_stream env.connection (record { stream = k; agent_request = pending.handle_id })
            w in
        let (runtime', submitted) = submit_background (ends_stream k tracked pending) w'.runtime in
        stream_submitted env n k tracked pending submitted (record w' { runtime = runtime' })

    abbrev pub stream_on :
        Surroundings J R
        → ℕ
        → ℕ
        → Pending M
        → Option (RuntimeResult (AgentResult J R))
        → Server M
        → Server M
    stream_on env n k pending (some result) w = stream_at_once env n k pending result w
    stream_on env n k pending none w = stream_later env n k pending w

    unfoldable pub open_stream :
        Surroundings J R → Kind → Pending M → Server M → Server M × ℕ × Bool
    open_stream env kind pending w =
        let begun =
          set_metadata json env.accepts pending.id pending.created pending.model
            (push_tokens json env.accepts env.early_tokens (fresh_stream kind)).0 in
        (
          record w {
            streams =
                w.streams
                ++ (record { session = opened begun; agent_request = pending.handle_id } ∷ []);
          },
          length w.streams,
          begun.1,
        )

    -- An exception in `open_stream` leaves the handler, and the lease ends.
    abbrev pub stream_unless : Bool → Surroundings J R → ℕ → ℕ → Pending M → Server M → Server M
    stream_unless true env n k pending w = leave n (release_pending env.released pending w)
    stream_unless false env n k pending w = stream_on env n k pending env.at_once w

    unfoldable pub stream_started :
        Surroundings J R → Kind → ℕ → Service M × ApiResult (Pending M) → Server M → Server M
    stream_started env kind n (s, err error) w = refuse_start json n error (with_chat s w)
    stream_started env kind n (s, ok pending) w =
        let (w', k, thrown) = open_stream env kind pending (with_chat s w) in
        stream_unless thrown env n k pending w'

    unfoldable pub start_stream_completion :
        Surroundings J R → ChatCompletionRequest M → ℕ → Server M → Server M
    start_stream_completion env request n w =
        stream_started env completion n
          (start_request completion env.ready env.zoo_id env.reaped env.started env.now request
            (chat w))
          w

    unfoldable pub start_stream_extraction :
        Surroundings J R → ExtractionRequest J M → ℕ → Server M → Server M
    start_stream_extraction env request n w =
        stream_started env extraction n
          (start_request extraction env.ready env.zoo_id env.reaped env.started env.now
            (as_chat request) (chat w))
          w
