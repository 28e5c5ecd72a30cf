-- ===== src/Stream/Order.antt =====
-- The frames of a stream whose connection takes every frame.
use zoo_keeper_server.Prelude.{
  ℕ, ◌≡◌, refl, ap, ◌∙◌, Bytes, Bool, true, false, none, some, List, [], ◌∷◌, ◌++◌, map, All,
  if◌then◌else◌, is_empty, text,
}
use mathlib.Core.List.{append_assoc, append-nil}
use zoo_keeper_server.Streaming.{make_first_streaming_chunk, make_streaming_chunk, make_sse_done}
use zoo_keeper_server.Stream.{
  Connection, detached, attached, StreamingSession, fresh_session, push_frame_locked, push_token,
  push_tokens, set_metadata, send_all, attach_stream, finish_success, close, execute_all,
}

abbrev pub NonEmpty : List Bytes → Type 0
NonEmpty = All (λ token. is_empty token ≡ false)

abbrev any : List Bytes → Bool
any [] = false
any (t ∷ ts) = true

module _ (id : Bytes) (created : ℕ) (model : Bytes) where
  -- The frames of these tokens: the first one carries the role.
  abbrev pub token_frames : List Bytes → List Bytes
  token_frames [] = []
  token_frames (t ∷ ts) =
      make_first_streaming_chunk id created model (some t) none
      ∷ map (λ u. make_streaming_chunk id created model (some u) none) ts

  -- All frames: with no token, the reply is sent as one, or the role alone when it is empty.
  abbrev pub all_frames : List Bytes → Bytes → List Bytes
  all_frames (t ∷ ts) reply = token_frames (t ∷ ts)
  all_frames [] reply =
      if is_empty reply
      then make_first_streaming_chunk id created model none none ∷ []
      else make_first_streaming_chunk id created model (some reply) none ∷ []

  -- The session after these tokens, before or after its stream is attached.
  after : List Bytes → Connection → StreamingSession
  after ts detached = record fresh_session {
    completion_id = id;
    created = created;
    model_id = model;
    metadata_ready = true;
    buffered_frames = token_frames ts;
    sent_role = any ts;
    sent_content = any ts;
  }
  after ts attached = record fresh_session {
    completion_id = id;
    created = created;
    model_id = model;
    metadata_ready = true;
    stream = attached;
    sent = token_frames ts;
    sent_role = any ts;
    sent_content = any ts;
  }

  map-append : (f : Bytes → Bytes) (ts us : List Bytes) → map f (ts ++ us) ≡ map f ts ++ map f us
  map-append f [] us = refl
  map-append f (t ∷ ts) us = rw (map-append f ts us)

  module _ (accepts : List Bytes → Bytes → Bool)
      (all : (sent : List Bytes) (frame : Bytes) → accepts sent frame ≡ true) where
    push_token-after :
        (t : Bytes) (ts : List Bytes) (c : Connection)
        → is_empty t ≡ false
        → push_token accepts t (after ts c) ≡ after (ts ++ (t ∷ [])) c
    unfolding push_token push_frame_locked after
    push_token-after t [] detached h = rw h
    push_token-after t [] attached h =
        rw h (rw (all [] (make_first_streaming_chunk id created model (some t) none)))
    push_token-after t (u ∷ ts) detached h =
        rw h
          (rw (map-append (λ u. make_streaming_chunk id created model (some u) none) ts (t ∷ [])))
    push_token-after t (u ∷ ts) attached h = rw h (
        rw (all (token_frames (u ∷ ts)) (make_streaming_chunk id created model (some t) none))
          (rw (map-append (λ u. make_streaming_chunk id created model (some u) none) ts (t ∷ []))))

    push_tokens-after :
        (us ts : List Bytes) (c : Connection)
        → NonEmpty us
        → push_tokens accepts us (after ts c) ≡ after (ts ++ us) c
    unfolding push_tokens
    push_tokens-after [] ts c h = rw (append-nil ts)
    push_tokens-after (u ∷ us) ts c h = rw (push_token-after u ts c h.0) (
        push_tokens-after us (ts ++ (u ∷ [])) c h.1
        ∙ ap (λ v. after v c) (append_assoc ts (u ∷ []) us))

    push_tokens-pending :
        (us ts : List Bytes)
        → NonEmpty us
        → push_tokens accepts us (record fresh_session { pending_tokens = ts })
          ≡ record fresh_session { pending_tokens = ts ++ us }
    unfolding push_tokens push_token
    push_tokens-pending [] ts h = rw (append-nil ts)
    push_tokens-pending (u ∷ us) ts h = rw (h.0) (
        push_tokens-pending us (ts ++ (u ∷ [])) h.1
        ∙ ap (λ v. record fresh_session { pending_tokens = v }) (append_assoc ts (u ∷ []) us))

    send_all-all :
        (frames sent : List Bytes) → send_all accepts frames sent ≡ (sent ++ frames, true)
    unfolding send_all
    send_all-all [] sent = rw (append-nil sent)
    send_all-all (f ∷ fs) sent =
        rw (all sent f, send_all)
          (send_all-all fs (sent ++ (f ∷ [])) ∙ ap (λ v. (v, true)) (append_assoc sent (f ∷ []) fs))

    attach_stream-after :
        (ts : List Bytes) → attach_stream accepts (after ts detached) ≡ after ts attached
    unfolding attach_stream after
    attach_stream-after ts = rw (send_all-all (token_frames ts) [])

    finish_success-after :
        (ts : List Bytes) (reply : Bytes)
        → let v = finish_success accepts reply (after ts attached) in
          (v.sent
            ≡ all_frames ts reply
              ++ (make_streaming_chunk id created model none (some (text "stop"))
                  ∷ make_sse_done
                  ∷ []))
          × (v.stream_closed ≡ true)
          × (v.cancels ≡ 0)
    unfolding finish_success push_frame_locked after execute_all close
    finish_success-after (t ∷ ts) reply = simp (all, append_assoc) (refl, refl, refl)
    finish_success-after [] [] = simp (all) (refl, refl, refl)
    finish_success-after [] (c ∷ reply) = simp (all) (refl, refl, refl)

    -- On a connection that takes every frame, the client receives, in order, one event for each
    -- token, none of which is empty, the first with the role; if there was no token, one with the reply; then the event
    -- that says "stop", and the end mark; and the stream is closed, with nothing cancelled. This
    -- does not depend on which tokens came before the metadata or before the stream.
    pub streamed :
        (before during rest : List Bytes) (reply : Bytes)
        → NonEmpty before
        → NonEmpty during
        → NonEmpty rest
        → let waiting = push_tokens accepts before fresh_session in
          let known = push_tokens accepts during (set_metadata accepts id created model waiting) in
          let v =
            finish_success accepts reply (push_tokens accepts rest (attach_stream accepts known)) in
          (v.sent
            ≡ all_frames (before ++ (during ++ rest)) reply
              ++ (make_streaming_chunk id created model none (some (text "stop"))
                  ∷ make_sse_done
                  ∷ []))
          × (v.stream_closed ≡ true)
          × (v.cancels ≡ 0)
    unfolding set_metadata after
    streamed before during rest reply h k l = rw (push_tokens-pending before [] h) (
        rw (push_tokens-after before [] detached h) (
          rw (push_tokens-after during before detached k) (
            rw (attach_stream-after (before ++ during)) (
              rw (push_tokens-after rest (before ++ during) attached l) (
                rw (append_assoc before during rest)
                  (finish_success-after (before ++ (during ++ rest)) reply))))))
