-- ===== src/Stream.antt =====
-- `StreamingSession` of src/server/completion_controller.cpp: the frames of one streamed
-- completion. The connection is an argument, `accepts sent frame`: whether it takes `frame` after
-- the frames in `sent`. `sent`, `stream_closed` and `cancels` record what the connection and the
-- cancel callback have seen.
pub mod Order
pub mod Closing
use zoo_keeper_server.Prelude.{
  ℕ, suc, Bytes, Bool, true, false, not, ◌&&◌, ◌||◌, none, some, List, [], ◌∷◌, ◌++◌, Option,
  if◌then◌else◌, is_empty, text,
}
use zoo_keeper_server.Streaming.{
  make_first_streaming_chunk, make_streaming_chunk, make_sse_done, make_sse_data,
}

-- `stream_`: empty, or the connection's stream.
pub data Connection : Type 0 where
  detached attached : Connection

pub record StreamingSession : Type 0 where
  pub completion_id : Bytes
  pub created : ℕ
  pub model_id : Bytes
  pub metadata_ready : Bool
  pub stream : Connection
  pub buffered_frames : List Bytes
  pub pending_tokens : List Bytes
  pub has_cancel_callback : Bool
  pub closing : Bool
  pub sent_role : Bool
  pub sent_content : Bool
  pub sent : List Bytes
  pub stream_closed : Bool
  pub cancels : ℕ

abbrev pub fresh_session : StreamingSession
fresh_session = record {
  completion_id = [];
  created = 0;
  model_id = [];
  metadata_ready = false;
  stream = detached;
  buffered_frames = [];
  pending_tokens = [];
  has_cancel_callback = false;
  closing = false;
  sent_role = false;
  sent_content = false;
  sent = [];
  stream_closed = false;
  cancels = 0;
}

-- `DeferredActions`: whether to close, and whether there is a callback to call.
pub record DeferredActions : Type 0 where
  pub should_close : Bool
  pub cancel_cb : Bool

abbrev pub nothing_deferred : DeferredActions
nothing_deferred = record { should_close = false; cancel_cb = false }

abbrev pub set_cancel_callback : StreamingSession → StreamingSession
set_cancel_callback s = record s { has_cancel_callback = true }

abbrev pub execute_deferred : DeferredActions → StreamingSession → StreamingSession
execute_deferred d s = if d.cancel_cb then record s { cancels = suc s.cancels } else s

-- The end of `close`: the stream, if there is one, is moved out and closed.
abbrev pub take_stream : Connection → StreamingSession → StreamingSession
take_stream detached s = s
take_stream attached s = record s { stream = detached; buffered_frames = []; stream_closed = true }

abbrev pub no_stream : Connection → Bool
no_stream detached = true
no_stream attached = false

unfoldable pub close : StreamingSession → StreamingSession
close s =
    if s.closing && no_stream s.stream
    then s
    else take_stream s.stream (record s { closing = true })

module _ (accepts : List Bytes → Bytes → Bool) where
  unfoldable pub push_frame_locked : Bytes → StreamingSession → StreamingSession × DeferredActions
  push_frame_locked frame s =
      if s.closing
      then (s, nothing_deferred)
      else if no_stream s.stream
      then (record s { buffered_frames = s.buffered_frames ++ (frame ∷ []) }, nothing_deferred)
      else if accepts s.sent frame
      then (record s { sent = s.sent ++ (frame ∷ []) }, nothing_deferred)
      else (
        record s { closing = true },
        record { should_close = true; cancel_cb = s.has_cancel_callback },
      )

  -- The frame of a token: the first one carries the role.
  abbrev pub token_frame : Bytes → StreamingSession → Bytes
  token_frame token s =
      if not s.sent_role
      then make_first_streaming_chunk s.completion_id s.created s.model_id (some token) none
      else make_streaming_chunk s.completion_id s.created s.model_id (some token) none

  unfoldable pub push_token : Bytes → StreamingSession → StreamingSession
  push_token token s =
      if is_empty token
      then s
      else if not s.metadata_ready
      then record s { pending_tokens = s.pending_tokens ++ (token ∷ []) }
      else let (t, deferred) =
          push_frame_locked (token_frame token s)
            (record s { sent_role = true; sent_content = true }) in
        let u = execute_deferred deferred t in if deferred.should_close then close u else u

  unfoldable pub push_tokens : List Bytes → StreamingSession → StreamingSession
  push_tokens [] s = s
  push_tokens (token ∷ tokens) s = push_tokens tokens (push_token token s)

  unfoldable pub set_metadata : Bytes → ℕ → Bytes → StreamingSession → StreamingSession
  set_metadata completion_id created model_id s = push_tokens s.pending_tokens (record s {
    completion_id = completion_id;
    created = created;
    model_id = model_id;
    metadata_ready = true;
    pending_tokens = [];
  })

  -- The loop over the buffered frames: what was sent, and whether all were taken.
  unfoldable pub send_all : List Bytes → List Bytes → List Bytes × Bool
  send_all [] sent = (sent, true)
  send_all (frame ∷ frames) sent = elim (accepts sent frame) [
    | true ↦ send_all frames (sent ++ (frame ∷ []))
    | false ↦ (sent, false)
  ]

  -- A failure sets `closing_` and calls the cancel callback; a session that is closing has its
  -- stream closed, which stays in `stream_`.
  unfoldable pub attach_stream : StreamingSession → StreamingSession
  attach_stream s =
      let (sent', all_sent) = send_all s.buffered_frames s.sent in
      let closing' = s.closing || not all_sent in
      record s {
        stream = attached;
        buffered_frames = [];
        sent = sent';
        closing = closing';
        cancels = if not all_sent && s.has_cancel_callback then suc s.cancels else s.cancels;
        stream_closed = s.stream_closed || closing';
      }

  -- A frame of `finish_success`, with the callback that its failure defers.
  abbrev pub push_deferred :
      Bytes → StreamingSession × List DeferredActions → StreamingSession × List DeferredActions
  push_deferred frame (s, ds) = let (t, d) = push_frame_locked frame s in (t, ds ++ (d ∷ []))

  execute_all : List DeferredActions → StreamingSession → StreamingSession
  execute_all [] s = s
  execute_all (d ∷ ds) s = execute_all ds (execute_deferred d s)

  -- The frame with the text, if no token was sent before.
  abbrev pub push_text : Bytes → StreamingSession → StreamingSession × List DeferredActions
  push_text reply s =
      if not s.sent_role
      then (if is_empty reply
          then (let (t, ds) =
                push_deferred
                  (make_first_streaming_chunk s.completion_id s.created s.model_id none none)
                  (s, []) in
              (record t { sent_role = true }, ds))
          else (let (t, ds) =
                push_deferred
                  (make_first_streaming_chunk s.completion_id s.created s.model_id (some reply)
                    none)
                  (s, []) in
              (record t { sent_role = true; sent_content = true }, ds)))
      else if not s.sent_content && not (is_empty reply)
      then (let (t, ds) =
            push_deferred
              (make_streaming_chunk s.completion_id s.created s.model_id (some reply) none)
              (s, []) in
          (record t { sent_content = true }, ds))
      else (s, [])

  unfoldable pub finish_success : Bytes → StreamingSession → StreamingSession
  unfolding execute_all
  finish_success reply s =
      let begun = push_text reply s in
      let stopped =
        push_deferred
          (make_streaming_chunk s.completion_id s.created s.model_id none (some (text "stop")))
          begun in
      let (t, ds) = push_deferred make_sse_done stopped in close (execute_all ds t)

  -- `body` is what is printed of `make_error_body`, or `none` where printing throws; beside the
  -- session it says whether that exception left the method.
  unfoldable pub finish_error : Option Bytes → StreamingSession → StreamingSession × Bool
  finish_error body s =
      if not s.sent_content && not s.sent_role
      then elim body [
        | none ↦ (s, true)
        | some printed ↦
            let (t, d) = push_frame_locked (make_sse_data printed) s in
            (close (execute_deferred d t), false)
      ]
      else (close s, false)
