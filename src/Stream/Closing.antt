-- ===== src/Stream/Closing.antt =====
-- A stream that the client has left.
use zoo_keeper_server.Prelude.{
  suc, ◌≡◌, refl, Bytes, Bool, true, false, List, is_empty, if◌then◌else◌, inl, inr, Bool-cases,
}
use zoo_keeper_server.Stream.{
  attached, StreamingSession, push_frame_locked, push_token, close, token_frame,
}

module _ (accepts : List Bytes → Bytes → Bool) where
  -- When the connection refuses a token's frame, nothing is sent, the stream is closed, and the
  -- agent is asked once to cancel, if there is a callback for that.
  pub push_token-refused :
      (s : StreamingSession) (token : Bytes)
      → is_empty token ≡ false
      → s.metadata_ready ≡ true
      → s.closing ≡ false
      → s.stream ≡ attached
      → accepts s.sent (token_frame accepts token s) ≡ false
      → let v = push_token accepts token s in
        (v.sent ≡ s.sent)
        × (v.closing ≡ true)
        × (v.stream_closed ≡ true)
        × (v.cancels ≡ (if s.has_cancel_callback then suc s.cancels else s.cancels))
  unfolding push_token push_frame_locked close
  push_token-refused s token some_token ready live there refused =
      elim (Bool-cases s.has_cancel_callback) [
        | inl e ↦ simp (some_token, ready, live, there, refused, e) (refl, refl, refl, refl)
        | inr e ↦ simp (some_token, ready, live, there, refused, e) (refl, refl, refl, refl)
      ]
