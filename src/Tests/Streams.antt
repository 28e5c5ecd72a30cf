-- ===== src/Tests/Streams.antt =====
-- A streamed completion at concrete data.
use zoo_keeper_server.Prelude.{
  ◌≡◌, refl, Bytes, Bool, true, false, none, some, List, [], ◌∷◌, ◌++◌, text,
}
use zoo_keeper_server.Streaming.{make_streaming_chunk, make_sse_done}
use zoo_keeper_server.Stream.{
  attached, StreamingSession, fresh_session, push_token, push_tokens, set_metadata, attach_stream,
  finish_success,
}
use zoo_keeper_server.Stream.Order.{all_frames, streamed}
use zoo_keeper_server.Stream.Closing.{push_token-refused}

abbrev takes_all : List Bytes → Bytes → Bool
takes_all sent frame = true

abbrev takes_none : List Bytes → Bytes → Bool
takes_none sent frame = false

abbrev token : Bytes
token = b'h' ∷ []

abbrev one_token : List Bytes
one_token = token ∷ []

streamed_example :
    let waiting = push_tokens takes_all one_token fresh_session in
    let known =
      push_tokens takes_all one_token (set_metadata takes_all (text "id") 5 (text "m") waiting) in
    let v =
      finish_success takes_all
        (text "hhh")
        (push_tokens takes_all one_token (attach_stream takes_all known)) in
    (v.sent
      ≡ all_frames (text "id") 5 (text "m") (token ∷ token ∷ token ∷ []) (text "hhh")
        ++ (make_streaming_chunk (text "id") 5 (text "m") none (some (text "stop"))
            ∷ make_sse_done
            ∷ []))
    × (v.stream_closed ≡ true)
    × (v.cancels ≡ 0)
streamed_example =
    streamed (text "id") 5 (text "m") takes_all (λ sent frame. refl) one_token one_token one_token
      (text "hhh") (refl, tt) (refl, tt) (refl, tt)

abbrev open_session : StreamingSession
open_session = record fresh_session {
  metadata_ready = true;
  stream = attached;
  has_cancel_callback = true;
}

push_token-refused_example :
    let v = push_token takes_none token open_session in
    (v.sent ≡ []) × (v.closing ≡ true) × (v.stream_closed ≡ true) × (v.cancels ≡ 1)
push_token-refused_example =
    push_token-refused takes_none open_session token refl refl refl refl refl
