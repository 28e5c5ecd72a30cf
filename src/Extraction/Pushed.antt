-- ===== src/Extraction/Pushed.antt =====
-- What each operation of a streamed extraction does to the frames that were pushed.
use zoo_keeper_server.Prelude.{
  ℕ, ◌≡◌, refl, sym, ap, ◌∙◌, ◌⊎◌, inl, inr, Bytes, Bool, true, false, ◌&&◌, List, [], ◌∷◌, ◌++◌,
  Bool-cases, arith,
}
use mathlib.Core.List.{append_assoc}
use zoo_keeper_server.Stream.{Connection, detached, attached, DeferredActions, no_stream}
use zoo_keeper_server.Extraction.{
  ExtractionStreamingSession, execute_deferred, take_stream, close, push_frame_locked, send_all,
  attach_stream,
}

-- The frames `fs` were pushed in this order: those that were not sent and do not wait were dropped
-- by a session that is closing.
pub record PushedParts (fs : List Bytes) (stream : Connection) (sent buffered : List Bytes)
    (closing : Bool) : Type 0 where
  pub dropped : List Bytes
  pub order : sent ++ (buffered ++ dropped) ≡ fs
  pub open_keeps : (closing ≡ true) ⊎ (dropped ≡ [])
  pub attached_sends : (no_stream stream ≡ true) ⊎ (buffered ≡ [])

abbrev pub Pushed : List Bytes → ExtractionStreamingSession → Type 0
Pushed fs s = PushedParts fs s.stream s.sent s.buffered_frames s.closing

later :
    (xs ys zs fs : List Bytes) (f : Bytes)
    → xs ++ (ys ++ zs) ≡ fs
    → xs ++ (ys ++ (zs ++ (f ∷ []))) ≡ fs ++ (f ∷ [])
later xs ys zs fs f e = rw (sym e) (simp (append_assoc))

-- Whether the metadata is there, and the metadata.
abbrev pub metadata : ExtractionStreamingSession → Bool × Bytes × ℕ × Bytes
metadata s = (s.metadata_ready, s.extraction_id, s.created, s.model_id)

pub metadata-execute_deferred :
    (d : DeferredActions) (s : ExtractionStreamingSession)
    → metadata (execute_deferred d s) ≡ metadata s
metadata-execute_deferred d s = elim (Bool-cases d.cancel_cb) [
  | inl e ↦ rw e refl
  | inr e ↦ rw e refl
]

metadata-take_stream :
    (c : Connection) (s : ExtractionStreamingSession) → metadata (take_stream c s) ≡ metadata s
metadata-take_stream detached s = refl
metadata-take_stream attached s = refl

pub metadata-close : (s : ExtractionStreamingSession) → metadata (close s) ≡ metadata s
unfolding close
metadata-close s = elim (Bool-cases (s.closing && no_stream s.stream)) [
  | inl e ↦ simp (e) refl
  | inr e ↦ simp (e) (metadata-take_stream s.stream (record s { closing = true }))
]

module _ (accepts : List Bytes → Bytes → Bool) where
  pub metadata-push_frame :
      (frame : Bytes) (s : ExtractionStreamingSession)
      → metadata (push_frame_locked accepts frame s).0 ≡ metadata s
  unfolding push_frame_locked
  metadata-push_frame frame s = ground arith

  pub push_frame-Pushed :
      (fs : List Bytes) (frame : Bytes) (s : ExtractionStreamingSession)
      → Pushed fs s
      → Pushed (fs ++ (frame ∷ [])) (push_frame_locked accepts frame s).0
  unfolding push_frame_locked
  push_frame-Pushed fs frame s p = elim (Bool-cases s.closing) [
    | inl e ↦ simp (e) (record {
      dropped = p.dropped ++ (frame ∷ []);
      order = later s.sent s.buffered_frames p.dropped fs frame p.order;
      open_keeps = inl refl;
      attached_sends = p.attached_sends;
    })
    | inr e ↦
        let nothing : p.dropped ≡ [] = elim p.open_keeps [ inl q ↦ cc | inr q ↦ q ] in
        let kept : s.sent ++ (s.buffered_frames ++ []) ≡ fs = rw nothing at p.order in
        (elim (Bool-cases (no_stream s.stream)) [
          | inl d ↦
              simp (e, d)
                (record {
                  dropped = [];
                  order =
                      ap (λ l. s.sent ++ l) (append_assoc s.buffered_frames (frame ∷ []) [])
                      ∙ later s.sent s.buffered_frames [] fs frame kept;
                  open_keeps = inr refl;
                  attached_sends = inl d;
                })
          | inr d ↦
              let sends : s.buffered_frames ≡ [] = elim p.attached_sends [
                | inl q ↦ cc
                | inr q ↦ q
              ] in
              let all_sent : s.sent ++ ([] ++ []) ≡ fs = rw sends at kept in
              (elim (Bool-cases (accepts s.sent frame)) [
                | inl a ↦
                    simp (e, d, a)
                      (record {
                        dropped = [];
                        order = rw sends (
                            append_assoc s.sent (frame ∷ []) []
                            ∙ later s.sent [] [] fs frame all_sent);
                        open_keeps = inr refl;
                        attached_sends = inr sends;
                      })
                | inr a ↦
                    simp (e, d, a)
                      (record {
                        dropped = frame ∷ [];
                        order = rw sends (later s.sent [] [] fs frame all_sent);
                        open_keeps = inl refl;
                        attached_sends = inr sends;
                      })
              ])
        ])
  ]

  pub execute_deferred-Pushed :
      (fs : List Bytes) (d : DeferredActions) (s : ExtractionStreamingSession)
      → Pushed fs s
      → Pushed fs (execute_deferred d s)
  execute_deferred-Pushed fs d s p = elim (Bool-cases d.cancel_cb) [
    | inl e ↦ rw e p
    | inr e ↦ rw e p
  ]

  take_stream-Pushed :
      (fs : List Bytes) (c : Connection) (s : ExtractionStreamingSession)
      → PushedParts fs c s.sent s.buffered_frames true
      → Pushed fs (take_stream c (record s { stream = c; closing = true }))
  take_stream-Pushed fs detached s p = p
  take_stream-Pushed fs attached s p =
      let sends : s.buffered_frames ≡ [] = elim p.attached_sends [ inl q ↦ cc | inr q ↦ q ] in
      record {
        dropped = p.dropped;
        order = rw sends at p.order;
        open_keeps = inl refl;
        attached_sends = inl refl;
      }

  pub close-Pushed :
      (fs : List Bytes) (s : ExtractionStreamingSession) → Pushed fs s → Pushed fs (close s)
  unfolding close
  close-Pushed fs s p = elim (Bool-cases (s.closing && no_stream s.stream)) [
    | inl e ↦ simp (e) p
    | inr e ↦ simp (e) (
        take_stream-Pushed fs s.stream s (record {
          dropped = p.dropped;
          order = p.order;
          open_keeps = inl refl;
          attached_sends = p.attached_sends;
        }))
  ]

  -- What `send_all` leaves unsent, of the frames that it was given.
  unsent : List Bytes → List Bytes → List Bytes
  unsent [] sent = []
  unsent (f ∷ fs) sent = elim (accepts sent f) [
    | true ↦ unsent fs (sent ++ (f ∷ []))
    | false ↦ f ∷ fs
  ]

  send_all-unsent :
      (frames sent : List Bytes)
      → ((send_all accepts frames sent).0 ++ unsent frames sent ≡ sent ++ frames)
        × (((send_all accepts frames sent).1 ≡ false) ⊎ (unsent frames sent ≡ []))
  unfolding send_all unsent
  send_all-unsent [] sent = (refl, inr refl)
  send_all-unsent (f ∷ fs) sent = elim (Bool-cases (accepts sent f)) [
    | inl e ↦
        let (p, q) = send_all-unsent fs (sent ++ (f ∷ [])) in
        rw (e, send_all) (rw (e, unsent) (p ∙ append_assoc sent (f ∷ []) fs, q))
    | inr e ↦ rw (e, send_all) (rw (e, unsent) (refl, inl refl))
  ]

  pub attach_stream-Pushed :
      (fs : List Bytes) (s : ExtractionStreamingSession)
      → Pushed fs s
      → Pushed fs (attach_stream accepts s)
  unfolding attach_stream
  attach_stream-Pushed fs s p =
      let sent' = (send_all accepts s.buffered_frames s.sent).0 in
      let (q, a) = send_all-unsent s.buffered_frames s.sent in
      record {
        dropped = unsent s.buffered_frames s.sent ++ p.dropped;
        order =
            sym (append_assoc sent' (unsent s.buffered_frames s.sent) p.dropped)
            ∙ ap (λ l. l ++ p.dropped) q
            ∙ append_assoc s.sent s.buffered_frames p.dropped
            ∙ p.order;
        open_keeps = elim a [
          | inl e ↦ inl (ground (arith, e))
          | inr e ↦ elim p.open_keeps [ inl o ↦ inl (rw o refl) | inr o ↦ inr (rw e o) ]
        ];
        attached_sends = inr refl;
      }
