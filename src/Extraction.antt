-- ===== src/Extraction.antt =====
-- `ExtractionStreamingSession` of src/server/api_routes.cpp: the events of one streamed extraction.
-- As in `Stream`, the connection is an argument, `accepts sent frame`, and `sent`, `stream_closed`
-- and `cancels` record what the connection and the cancel callback have seen.
pub mod Pushed
pub mod Events
pub mod Order
use zoo_keeper_server.Prelude.{
  ℕ, suc, Bytes, Bool, true, false, not, ◌&&◌, ◌||◌, List, [], ◌∷◌, ◌++◌, if◌then◌else◌, is_empty,
  map, text,
}
use zoo_keeper_server.Json.{JsonApi}
use zoo_keeper_server.Api.{ApiError}
use zoo_keeper_server.Bodies.{make_extraction_body, make_error_body}
use zoo_keeper_server.Streaming.{make_sse_done, make_sse_data}
use zoo_keeper_server.Stream.{
  Connection, detached, attached, DeferredActions, nothing_deferred, no_stream,
}
use zoo_keeper_server.Responses.{AgentResult, printed_of}

pub record ExtractionStreamingSession : Type 0 where
  pub extraction_id : Bytes
  pub created : ℕ
  pub model_id : Bytes
  pub metadata_ready : Bool
  pub stream : Connection
  pub buffered_frames : List Bytes
  pub pending_tokens : List Bytes
  pub has_cancel_callback : Bool
  pub closing : Bool
  pub sent : List Bytes
  pub stream_closed : Bool
  pub cancels : ℕ

abbrev pub fresh_extraction : ExtractionStreamingSession
fresh_extraction = record {
  extraction_id = [];
  created = 0;
  model_id = [];
  metadata_ready = false;
  stream = detached;
  buffered_frames = [];
  pending_tokens = [];
  has_cancel_callback = false;
  closing = false;
  sent = [];
  stream_closed = false;
  cancels = 0;
}

abbrev pub set_cancel_callback : ExtractionStreamingSession → ExtractionStreamingSession
set_cancel_callback s = record s { has_cancel_callback = true }

abbrev pub execute_deferred :
    DeferredActions → ExtractionStreamingSession → ExtractionStreamingSession
execute_deferred d s = if d.cancel_cb then record s { cancels = suc s.cancels } else s

-- The end of `close`: the stream, if there is one, is moved out and closed.
abbrev pub take_stream : Connection → ExtractionStreamingSession → ExtractionStreamingSession
take_stream detached s = s
take_stream attached s = record s { stream = detached; buffered_frames = []; stream_closed = true }

unfoldable pub close : ExtractionStreamingSession → ExtractionStreamingSession
close s =
    if s.closing && no_stream s.stream
    then s
    else take_stream s.stream (record s { closing = true })

module _ (accepts : List Bytes → Bytes → Bool) where
  unfoldable pub push_frame_locked :
      Bytes → ExtractionStreamingSession → ExtractionStreamingSession × DeferredActions
  push_frame_locked frame s =
      if s.closing
      then (s, nothing_deferred)
      else if no_stream s.stream
      then (record s { buffered_frames = s.buffered_frames ++ (frame ∷ []) }, nothing_deferred)
      else if accepts s.sent frame
      then (record s { sent = s.sent ++ (frame ∷ []) }, nothing_deferred)
      else (
        record s { closing = true },
        record { should_close = true; cancel_cb = s.has_cancel_callback },
      )

  -- The loop over the buffered frames: what was sent, and whether all were taken.
  unfoldable pub send_all : List Bytes → List Bytes → List Bytes × Bool
  send_all [] sent = (sent, true)
  send_all (frame ∷ frames) sent = elim (accepts sent frame) [
    | true ↦ send_all frames (sent ++ (frame ∷ []))
    | false ↦ (sent, false)
  ]

  unfoldable pub attach_stream : ExtractionStreamingSession → ExtractionStreamingSession
  attach_stream s =
      let (sent', all_sent) = send_all s.buffered_frames s.sent in
      let closing' = s.closing || not all_sent in
      record s {
        stream = attached;
        buffered_frames = [];
        sent = sent';
        closing = closing';
        cancels = if not all_sent && s.has_cancel_callback then suc s.cancels else s.cancels;
        stream_closed = s.stream_closed || closing';
      }

  module _ {J R I : Type 0} (json : JsonApi J R I) where
    -- An operation that prints says, beside the session, whether an exception left it: a value with
    -- a string that is not UTF-8 cannot be printed.
    unfoldable pub delta_body : Bytes → J
    delta_body token = json.from_object ((text "delta", json.from_string token) ∷ [])

    unfoldable pub push_token :
        Bytes → ExtractionStreamingSession → ExtractionStreamingSession × Bool
    push_token token s =
        if is_empty token
        then (s, false)
        else if not s.metadata_ready
        then (record s { pending_tokens = s.pending_tokens ++ (token ∷ []) }, false)
        else if json.dump_throws (delta_body token)
        then (s, true)
        else let (t, deferred) =
            push_frame_locked (make_sse_data (json.dump (delta_body token))) s in
          let u = execute_deferred deferred t in
          (if deferred.should_close then close u else u, false)

    -- The loop of `set_metadata`, which an exception ends.
    unfoldable pub push_tokens :
        List Bytes → ExtractionStreamingSession → ExtractionStreamingSession × Bool
    push_tokens [] s = (s, false)
    push_tokens (token ∷ tokens) s = elim (push_token token s).1 [
      | true ↦ ((push_token token s).0, true)
      | false ↦ push_tokens tokens (push_token token s).0
    ]

    unfoldable pub set_metadata :
        Bytes → ℕ → Bytes → ExtractionStreamingSession → ExtractionStreamingSession × Bool
    set_metadata extraction_id created model_id s = push_tokens s.pending_tokens (record s {
      extraction_id = extraction_id;
      created = created;
      model_id = model_id;
      metadata_ready = true;
      pending_tokens = [];
    })

    unfoldable pub result_body : AgentResult J R → ExtractionStreamingSession → J
    result_body response s =
        make_extraction_body json s.extraction_id s.created s.model_id response.reply
          response.extracted response.usage response.metrics
          (map printed_of response.tool_invocations)

    unfoldable pub finish_success :
        AgentResult J R → ExtractionStreamingSession → ExtractionStreamingSession × Bool
    finish_success response s =
        if json.dump_throws (result_body response s)
        then (s, true)
        else let (t, first) =
            push_frame_locked (make_sse_data (json.dump (result_body response s))) s in
          let (u, second) = push_frame_locked make_sse_done t in
          (close (execute_deferred second (execute_deferred first u)), false)

    unfoldable pub finish_error :
        ApiError → ExtractionStreamingSession → ExtractionStreamingSession × Bool
    finish_error error s =
        if json.dump_throws (make_error_body json error)
        then (s, true)
        else let (t, deferred) =
            push_frame_locked (make_sse_data (json.dump (make_error_body json error))) s in
          (close (execute_deferred deferred t), false)
