-- ===== src/Extraction/Order.antt =====
-- What the client of a streamed extraction receives, on any connection.
use zoo_keeper_server.Prelude.{
  ℕ, ◌≡◌, refl, sym, ap, subst, ◌∙◌, ◌⊎◌, inl, inr, Bytes, Bool, true, false, List, [], ◌∷◌, ◌++◌,
  if◌then◌else◌, is_empty, Bool-cases,
}
use mathlib.Core.List.{append_assoc, append-nil}
use zoo_keeper_server.Json.{JsonApi}
use zoo_keeper_server.Streaming.{make_sse_data}
use zoo_keeper_server.Stream.{no_stream}
use zoo_keeper_server.Extraction.{
  ExtractionStreamingSession, fresh_extraction, delta_body, push_token, push_tokens, set_metadata,
}
use zoo_keeper_server.Extraction.Pushed.{Pushed, metadata}
use zoo_keeper_server.Extraction.Events.{Event, printed, all_frames, run, run-Pushed, token_step}

module _ (accepts : List Bytes → Bytes → Bool) {J R I : Type 0} (json : JsonApi J R I) where
  -- Tokens that came before the metadata.
  waiting : List Bytes → ExtractionStreamingSession
  waiting ts = record fresh_extraction { pending_tokens = ts }

  kept : List Bytes → List Bytes
  kept [] = []
  kept (t ∷ ts) = if is_empty t then kept ts else t ∷ kept ts

  waits :
      (u : Bytes) (ts : List Bytes)
      → push_token accepts json u (waiting ts)
        ≡ (if is_empty u then (waiting ts, false) else (waiting (ts ++ (u ∷ [])), false))
  unfolding push_token waiting
  waits u ts = refl

  push_tokens-nil : (s : ExtractionStreamingSession) → push_tokens accepts json [] s ≡ (s, false)
  unfolding push_tokens
  push_tokens-nil s = refl

  push_tokens-next :
      (u : Bytes) (us : List Bytes) (s v : ExtractionStreamingSession)
      → push_token accepts json u s ≡ (v, false)
      → push_tokens accepts json (u ∷ us) s ≡ push_tokens accepts json us v
  unfolding push_tokens
  push_tokens-next u us s v e = rw (e, push_tokens) (ap (λ x. push_tokens accepts json us x.0) e)

  push_tokens-stop :
      (u : Bytes) (us : List Bytes) (s v : ExtractionStreamingSession)
      → push_token accepts json u s ≡ (v, true)
      → push_tokens accepts json (u ∷ us) s ≡ (v, true)
  unfolding push_tokens
  push_tokens-stop u us s v e = rw (e, push_tokens) (ap (λ x. (x.0, true)) e)

  push_tokens-waiting :
      (us ts : List Bytes)
      → push_tokens accepts json us (waiting ts) ≡ (waiting (ts ++ kept us), false)
  unfolding push_tokens kept
  push_tokens-waiting [] ts = rw (append-nil ts) refl
  push_tokens-waiting (u ∷ us) ts = elim (Bool-cases (is_empty u)) [
    | inl e ↦
        push_tokens-next u us (waiting ts) (waiting ts) (waits u ts ∙ rw e refl)
        ∙ rw e (push_tokens-waiting us ts)
    | inr e ↦
        push_tokens-next u us (waiting ts) (waiting (ts ++ (u ∷ []))) (waits u ts ∙ rw e refl)
        ∙ rw e (
            push_tokens-waiting us (ts ++ (u ∷ []))
            ∙ ap (λ l. (waiting l, false)) (append_assoc ts (u ∷ []) (kept us)))
  ]

  -- The frames of the tokens, up to the first token that cannot be printed.
  unfoldable pub early_frames : List Bytes → List Bytes
  early_frames [] = []
  early_frames (t ∷ ts) =
      let rest = early_frames ts in
      if is_empty t then rest else printed accepts json (delta_body accepts json t) rest

  early_frames-kept : (ts : List Bytes) → early_frames (kept ts) ≡ early_frames ts
  unfolding early_frames kept
  early_frames-kept [] = refl
  early_frames-kept (t ∷ ts) = elim (Bool-cases (is_empty t)) [
    | inl e ↦ rw e (early_frames-kept ts)
    | inr e ↦
        rw e (rw e (ap (printed accepts json (delta_body accepts json t)) (early_frames-kept ts)))
  ]

  push_tokens-Pushed :
      (id : Bytes) (created : ℕ) (model : Bytes) (ts : List Bytes) (fs : List Bytes)
      (s : ExtractionStreamingSession)
      → metadata s ≡ (true, id, created, model)
      → Pushed fs s
      → let v = (push_tokens accepts json ts s).0 in
        Pushed (fs ++ early_frames ts) v × (metadata v ≡ (true, id, created, model))
  unfolding early_frames printed
  push_tokens-Pushed id created model [] fs s m p =
      (rw (push_tokens-nil s) (rw (append-nil fs) p), rw (push_tokens-nil s) m)
  push_tokens-Pushed id created model (t ∷ ts) fs s m p =
      let Goal : ExtractionStreamingSession → Type 0 =
        λ v. Pushed (fs ++ early_frames (t ∷ ts)) v × (metadata v ≡ (true, id, created, model)) in
      let x = push_token accepts json t s in
      let (q, same, ended) = token_step accepts json fs t s (ap (λ m. m.0) m) p in
      elim (Bool-cases (is_empty t)) [
        | inl e ↦
            let goes : x.1 ≡ false = ended ∙ rw e refl in
            let q' : Pushed fs x.0 = rw (append-nil fs) at (rw e at q) in
            let r = push_tokens-Pushed id created model ts fs x.0 (same ∙ m) q' in
            subst Goal (sym (ap (λ y. y.0) (push_tokens-next t ts s x.0 (ap (λ b. (x.0, b)) goes))))
              (rw e r)
        | inr e ↦ elim (Bool-cases (json.dump_throws (delta_body accepts json t))) [
          | inl d ↦
              let stops : x.1 ≡ true = ended ∙ rw e d in
              let q' : Pushed (fs ++ []) x.0 = rw d at (rw e at q) in
              subst Goal
                (sym (ap (λ y. y.0) (push_tokens-stop t ts s x.0 (ap (λ b. (x.0, b)) stops))))
                (rw e (rw d (q', same ∙ m)))
          | inr d ↦
              let goes : x.1 ≡ false = ended ∙ rw e d in
              let f = make_sse_data (json.dump (delta_body accepts json t)) in
              let q' : Pushed (fs ++ (f ∷ [])) x.0 = rw d at (rw e at q) in
              let r = push_tokens-Pushed id created model ts (fs ++ (f ∷ [])) x.0 (same ∙ m) q' in
              let r' : Pushed (fs ++ (f ∷ early_frames ts)) (push_tokens accepts json ts x.0).0 =
                subst (λ l. Pushed l (push_tokens accepts json ts x.0).0)
                  (append_assoc fs (f ∷ []) (early_frames ts)) r.0 in
              subst Goal
                (sym (ap (λ y. y.0) (push_tokens-next t ts s x.0 (ap (λ b. (x.0, b)) goes))))
                (rw e (rw d (r', r.1)))
        ]
      ]

  -- The session when its metadata has come, without tokens.
  started : Bytes → ℕ → Bytes → ExtractionStreamingSession
  started id created model = record fresh_extraction {
    extraction_id = id;
    created = created;
    model_id = model;
    metadata_ready = true;
  }

  set_metadata-started :
      (id : Bytes) (created : ℕ) (model : Bytes) (early : List Bytes)
      → set_metadata accepts json id created model
          (push_tokens accepts json early fresh_extraction).0
        ≡ push_tokens accepts json (kept early) (started id created model)
  unfolding set_metadata waiting started
  set_metadata-started id created model early =
      ap (λ x. set_metadata accepts json id created model x.0) (push_tokens-waiting early [])

  -- However tokens, the stream, a disconnect and the result follow one another once the metadata
  -- is there, and whatever tokens came before it: what the client has received is a part from the
  -- start of the frames of these events, in their order. These are a frame for each token that is
  -- not empty, and for a result its body and the end mark; an event whose value cannot be printed
  -- has no frame, and of the tokens before the metadata such a one and those after it have none.
  -- While the session is not closing, the frames that the client has not received wait, and none
  -- waits when a stream is attached.
  pub received_frames :
      (id : Bytes) (created : ℕ) (model : Bytes) (early : List Bytes) (es : List (Event J R))
      → let begun =
          set_metadata accepts json id created model
            (push_tokens accepts json early fresh_extraction).0 in
        let s = run accepts json es begun.0 in
        let frames = early_frames early ++ all_frames accepts json id created model es in
        ((rest : List Bytes) × (s.sent ++ rest ≡ frames))
        × ((s.closing ≡ true) ⊎ (s.sent ++ s.buffered_frames ≡ frames))
        × ((no_stream s.stream ≡ true) ⊎ (s.buffered_frames ≡ []))
  unfolding started
  received_frames id created model early es =
      let begun = started id created model in
      let first : Pushed [] begun = record {
        dropped = [];
        order = refl;
        open_keeps = inr refl;
        attached_sends = inl refl;
      } in
      let (q, m) = push_tokens-Pushed id created model (kept early) [] begun refl first in
      let v = (push_tokens accepts json (kept early) begun).0 in
      let frames = early_frames (kept early) ++ all_frames accepts json id created model es in
      rw (set_metadata-started id created model early) (
        rw (sym (early_frames-kept early)) (
          let p = run-Pushed accepts json id created model es (early_frames (kept early)) v m q in
          let s = run accepts json es v in
          (
            (s.buffered_frames ++ p.dropped, p.order),
            elim p.open_keeps [
              | inl e ↦ inl e
              | inr e ↦
                  let o : s.sent ++ (s.buffered_frames ++ []) ≡ frames = rw e at p.order in
                  inr (ap (λ l. s.sent ++ l) (sym (append-nil s.buffered_frames)) ∙ o)
            ],
            p.attached_sends,
          )))
