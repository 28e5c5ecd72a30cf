-- ===== src/Extraction/Events.antt =====
-- What happens to a streamed extraction, and the frames that it is to send.
use zoo_keeper_server.Prelude.{
  ℕ, ◌≡◌, refl, sym, ap, subst, ◌∙◌, inl, inr, Bytes, Bool, true, false, List, [], ◌∷◌, ◌++◌,
  if◌then◌else◌, is_empty, Bool-cases,
}
use mathlib.Core.List.{append_assoc, append-nil}
use zoo_keeper_server.Json.{JsonApi}
use zoo_keeper_server.Api.{ApiError}
use zoo_keeper_server.Bodies.{make_error_body}
use zoo_keeper_server.Responses.{AgentResult}
use zoo_keeper_server.Streaming.{make_sse_done, make_sse_data}
use zoo_keeper_server.Stream.{DeferredActions}
use zoo_keeper_server.Extraction.{
  ExtractionStreamingSession, fresh_extraction, execute_deferred, close, push_frame_locked,
  attach_stream, delta_body, push_token, result_body, finish_success, finish_error,
}
use zoo_keeper_server.Extraction.Pushed.{
  Pushed, metadata, metadata-execute_deferred, metadata-close, metadata-push_frame,
  push_frame-Pushed, execute_deferred-Pushed, close-Pushed, attach_stream-Pushed,
}

-- What happens to a session once its metadata is there.
pub data Event (J R : Type 0) : Type 0 where
  token : Bytes → Event J R
  attaches closes : Event J R
  succeeds : AgentResult J R → Event J R
  fails : ApiError → Event J R

module _ (accepts : List Bytes → Bytes → Bool) {J R I : Type 0} (json : JsonApi J R I) where
  unfoldable pub printed : J → List Bytes → List Bytes
  printed body rest = if json.dump_throws body then [] else make_sse_data (json.dump body) ∷ rest

  abbrev pub body_by : AgentResult J R → Bool × Bytes × ℕ × Bytes → J
  body_by response m =
      result_body accepts json response
        (record fresh_extraction { extraction_id = m.1; created = m.2; model_id = m.3 })

  -- What an event puts on the stream: nothing where its value cannot be printed.
  abbrev pub frames_of : Bytes → ℕ → Bytes → Event J R → List Bytes
  frames_of id created model (token t) =
      if is_empty t then [] else printed (delta_body accepts json t) []
  frames_of id created model attaches = []
  frames_of id created model closes = []
  frames_of id created model (succeeds response) =
      printed (body_by response (true, id, created, model)) (make_sse_done ∷ [])
  frames_of id created model (fails error) = printed (make_error_body json error) []

  abbrev pub all_frames : Bytes → ℕ → Bytes → List (Event J R) → List Bytes
  all_frames id created model [] = []
  all_frames id created model (e ∷ es) =
      frames_of id created model e ++ all_frames id created model es

  unfoldable pub happen : Event J R → ExtractionStreamingSession → ExtractionStreamingSession
  happen (token t) s = (push_token accepts json t s).0
  happen attaches s = attach_stream accepts s
  happen closes s = close s
  happen (succeeds response) s = (finish_success accepts json response s).0
  happen (fails error) s = (finish_error accepts json error s).0

  unfoldable pub run : List (Event J R) → ExtractionStreamingSession → ExtractionStreamingSession
  run [] s = s
  run (e ∷ es) s = run es (happen e s)

  settle-Pushed :
      (fs : List Bytes) (b : Bool) (u : ExtractionStreamingSession)
      → Pushed fs u
      → Pushed fs (if b then close u else u)
  settle-Pushed fs true u p = close-Pushed accepts fs u p
  settle-Pushed fs false u p = p

  metadata-settle :
      (b : Bool) (u : ExtractionStreamingSession) → metadata (if b then close u else u) ≡ metadata u
  metadata-settle true u = metadata-close u
  metadata-settle false u = refl

  abbrev token_frame : Bytes → Bytes
  token_frame t = make_sse_data (json.dump (delta_body accepts json t))

  -- The session after a frame and what it defers.
  abbrev settled : ExtractionStreamingSession × DeferredActions → ExtractionStreamingSession
  settled (u, d) = if d.should_close then close (execute_deferred d u) else execute_deferred d u

  push_token-empty :
      (t : Bytes) (s : ExtractionStreamingSession)
      → is_empty t ≡ true
      → push_token accepts json t s ≡ (s, false)
  unfolding push_token
  push_token-empty t s e = rw e refl

  push_token-unprinted :
      (t : Bytes) (s : ExtractionStreamingSession)
      → is_empty t ≡ false
      → s.metadata_ready ≡ true
      → json.dump_throws (delta_body accepts json t) ≡ true
      → push_token accepts json t s ≡ (s, true)
  unfolding push_token
  push_token-unprinted t s e r d = rw e (rw r (rw d refl))

  push_token-printed :
      (t : Bytes) (s : ExtractionStreamingSession)
      → is_empty t ≡ false
      → s.metadata_ready ≡ true
      → json.dump_throws (delta_body accepts json t) ≡ false
      → push_token accepts json t s ≡ (settled (push_frame_locked accepts (token_frame t) s), false)
  unfolding push_token
  push_token-printed t s e r d = rw e (rw r (rw d refl))

  -- The session after the frames of a result.
  abbrev finished : AgentResult J R → ExtractionStreamingSession → ExtractionStreamingSession
  finished response s =
      let (t, first) =
        push_frame_locked accepts (make_sse_data (json.dump (result_body accepts json response s)))
          s in
      let (u, second) = push_frame_locked accepts make_sse_done t in
      close (execute_deferred second (execute_deferred first u))

  finish_success-either :
      (response : AgentResult J R) (s : ExtractionStreamingSession)
      → finish_success accepts json response s ≡ (
          if json.dump_throws (result_body accepts json response s)
          then (s, true)
          else (finished response s, false))
  unfolding finish_success
  finish_success-either response s = refl

  abbrev failed : ApiError → ExtractionStreamingSession → ExtractionStreamingSession
  failed error s =
      let (t, d) =
        push_frame_locked accepts (make_sse_data (json.dump (make_error_body json error))) s in
      close (execute_deferred d t)

  finish_error-either :
      (error : ApiError) (s : ExtractionStreamingSession)
      → finish_error accepts json error s ≡ (
          if json.dump_throws (make_error_body json error)
          then (s, true)
          else (failed error s, false))
  unfolding finish_error
  finish_error-either error s = refl

  result_body-metadata :
      (response : AgentResult J R) (s : ExtractionStreamingSession)
      → body_by response (metadata s) ≡ result_body accepts json response s
  unfolding result_body
  result_body-metadata response s = refl

  -- What an event does, as one of two sessions.
  happen-token :
      (t : Bytes) (s : ExtractionStreamingSession)
      → s.metadata_ready ≡ true
      → happen (token t) s ≡ (
          if is_empty t
          then s
          else if json.dump_throws (delta_body accepts json t)
          then s
          else settled (push_frame_locked accepts (token_frame t) s))
  unfolding happen
  happen-token t s r = elim (Bool-cases (is_empty t)) [
    | inl e ↦ rw e (ap (λ x. x.0) (push_token-empty t s e))
    | inr e ↦ elim (Bool-cases (json.dump_throws (delta_body accepts json t))) [
      | inl d ↦ rw e (rw d (ap (λ x. x.0) (push_token-unprinted t s e r d)))
      | inr d ↦ rw e (rw d (ap (λ x. x.0) (push_token-printed t s e r d)))
    ]
  ]

  first_of :
      (b : Bool) (u v : ExtractionStreamingSession)
      → let x : ExtractionStreamingSession × Bool = if b then (u, true) else (v, false) in
        x.0 ≡ (if b then u else v)
  first_of true u v = refl
  first_of false u v = refl

  happen-succeeds :
      (response : AgentResult J R) (s : ExtractionStreamingSession)
      → happen (succeeds response) s ≡ (
          if json.dump_throws (result_body accepts json response s) then s else finished response s)
  unfolding happen
  happen-succeeds response s =
      ap (λ x. x.0) (finish_success-either response s)
      ∙ first_of (json.dump_throws (result_body accepts json response s)) s (finished response s)

  happen-fails :
      (error : ApiError) (s : ExtractionStreamingSession)
      → happen (fails error) s
        ≡ (if json.dump_throws (make_error_body json error) then s else failed error s)
  unfolding happen
  happen-fails error s =
      ap (λ x. x.0) (finish_error-either error s)
      ∙ first_of (json.dump_throws (make_error_body json error)) s (failed error s)

  happen-attaches : (s : ExtractionStreamingSession) → happen attaches s ≡ attach_stream accepts s
  unfolding happen
  happen-attaches s = refl

  happen-closes : (s : ExtractionStreamingSession) → happen closes s ≡ close s
  unfolding happen
  happen-closes s = refl

  -- A frame that is pushed unless its value cannot be printed.
  printed-Pushed :
      (body : J) (rest fs : List Bytes) (s v : ExtractionStreamingSession)
      → Pushed fs s
      → Pushed (fs ++ (make_sse_data (json.dump body) ∷ rest)) v
      → Pushed (fs ++ printed body rest) (if json.dump_throws body then s else v)
  unfolding printed
  printed-Pushed body rest fs s v p q = elim (Bool-cases (json.dump_throws body)) [
    | inl d ↦ rw d (rw (append-nil fs) p)
    | inr d ↦ rw d q
  ]

  settled-Pushed :
      (fs : List Bytes) (f : Bytes) (s : ExtractionStreamingSession)
      → Pushed fs s
      → Pushed (fs ++ (f ∷ [])) (settled (push_frame_locked accepts f s))
  settled-Pushed fs f s p =
      let u = push_frame_locked accepts f s in
      settle-Pushed (fs ++ (f ∷ [])) u.1.should_close (execute_deferred u.1 u.0) (
        execute_deferred-Pushed accepts (fs ++ (f ∷ [])) u.1 u.0
          (push_frame-Pushed accepts fs f s p))

  token-Pushed :
      (fs : List Bytes) (t : Bytes) (s : ExtractionStreamingSession)
      → s.metadata_ready ≡ true
      → Pushed fs s
      → Pushed
          (fs ++ (if is_empty t then [] else printed (delta_body accepts json t) []))
          (happen (token t) s)
  token-Pushed fs t s r p =
      subst
        (λ v. Pushed (fs ++ (if is_empty t then [] else printed (delta_body accepts json t) [])) v)
        (sym (happen-token t s r))
        (elim (Bool-cases (is_empty t)) [
          | inl e ↦ rw e (rw (append-nil fs) p)
          | inr e ↦ rw e (
              printed-Pushed (delta_body accepts json t) [] fs s _ p
                (settled-Pushed fs (token_frame t) s p))
        ])

  finished-Pushed :
      (fs : List Bytes) (response : AgentResult J R) (s : ExtractionStreamingSession)
      → Pushed fs s
      → Pushed
          (fs
            ++ (make_sse_data (json.dump (result_body accepts json response s))
                ∷ make_sse_done
                ∷ []))
          (finished response s)
  finished-Pushed fs response s p =
      let f = make_sse_data (json.dump (result_body accepts json response s)) in
      let t = push_frame_locked accepts f s in
      let u = push_frame_locked accepts make_sse_done t.0 in
      let fs' = (fs ++ (f ∷ [])) ++ (make_sse_done ∷ []) in
      let second =
        push_frame-Pushed accepts (fs ++ (f ∷ [])) make_sse_done t.0
          (push_frame-Pushed accepts fs f s p) in
      let done =
        execute_deferred-Pushed accepts fs' u.1 (execute_deferred t.1 u.0)
          (execute_deferred-Pushed accepts fs' t.1 u.0 second) in
      subst (λ l. Pushed l (finished response s)) (append_assoc fs (f ∷ []) (make_sse_done ∷ []))
        (close-Pushed accepts fs' (execute_deferred u.1 (execute_deferred t.1 u.0)) done)

  failed-Pushed :
      (fs : List Bytes) (error : ApiError) (s : ExtractionStreamingSession)
      → Pushed fs s
      → Pushed
          (fs ++ (make_sse_data (json.dump (make_error_body json error)) ∷ []))
          (failed error s)
  failed-Pushed fs error s p =
      let f = make_sse_data (json.dump (make_error_body json error)) in
      let t = push_frame_locked accepts f s in
      close-Pushed accepts (fs ++ (f ∷ [])) (execute_deferred t.1 t.0) (
        execute_deferred-Pushed accepts (fs ++ (f ∷ [])) t.1 t.0
          (push_frame-Pushed accepts fs f s p))

  pub happen-Pushed :
      (id : Bytes) (created : ℕ) (model : Bytes) (fs : List Bytes) (e : Event J R)
      (s : ExtractionStreamingSession)
      → metadata s ≡ (true, id, created, model)
      → Pushed fs s
      → Pushed (fs ++ frames_of id created model e) (happen e s)
  happen-Pushed id created model fs (token t) s m p = token-Pushed fs t s (ap (λ m. m.0) m) p
  happen-Pushed id created model fs attaches s m p =
      subst (λ v. Pushed (fs ++ []) v) (sym (happen-attaches s))
        (rw (append-nil fs) (attach_stream-Pushed accepts fs s p))
  happen-Pushed id created model fs closes s m p =
      subst (λ v. Pushed (fs ++ []) v) (sym (happen-closes s))
        (rw (append-nil fs) (close-Pushed accepts fs s p))
  happen-Pushed id created model fs (succeeds response) s m p =
      let b : result_body accepts json response s ≡ body_by response (true, id, created, model) =
        sym (result_body-metadata response s) ∙ ap (body_by response) m in
      subst
        (λ v.
          Pushed (fs ++ printed (body_by response (true, id, created, model)) (make_sse_done ∷ []))
            v)
        (sym (happen-succeeds response s))
        (subst
          (λ x. Pushed (fs ++ printed x (make_sse_done ∷ [])) (
            if json.dump_throws (result_body accepts json response s)
            then s
            else finished response s))
          b
          (printed-Pushed (result_body accepts json response s) (make_sse_done ∷ []) fs s
            (finished response s) p (finished-Pushed fs response s p)))
  happen-Pushed id created model fs (fails error) s m p =
      subst (λ v. Pushed (fs ++ printed (make_error_body json error) []) v)
        (sym (happen-fails error s))
        (printed-Pushed (make_error_body json error) [] fs s (failed error s) p
          (failed-Pushed fs error s p))

  metadata-either :
      (b : Bool) (s u v : ExtractionStreamingSession)
      → metadata u ≡ metadata s
      → metadata v ≡ metadata s
      → metadata (if b then u else v) ≡ metadata s
  metadata-either true s u v hu hv = hu
  metadata-either false s u v hu hv = hv

  metadata-settled :
      (f : Bytes) (s : ExtractionStreamingSession)
      → metadata (settled (push_frame_locked accepts f s)) ≡ metadata s
  metadata-settled f s =
      let u = push_frame_locked accepts f s in
      metadata-settle u.1.should_close (execute_deferred u.1 u.0)
      ∙ metadata-execute_deferred u.1 u.0
      ∙ metadata-push_frame accepts f s

  metadata-finished :
      (response : AgentResult J R) (s : ExtractionStreamingSession)
      → metadata (finished response s) ≡ metadata s
  metadata-finished response s =
      let f = make_sse_data (json.dump (result_body accepts json response s)) in
      let t = push_frame_locked accepts f s in
      let u = push_frame_locked accepts make_sse_done t.0 in
      metadata-close (execute_deferred u.1 (execute_deferred t.1 u.0))
      ∙ metadata-execute_deferred u.1 (execute_deferred t.1 u.0)
      ∙ metadata-execute_deferred t.1 u.0
      ∙ metadata-push_frame accepts make_sse_done t.0
      ∙ metadata-push_frame accepts f s

  metadata-failed :
      (error : ApiError) (s : ExtractionStreamingSession) → metadata (failed error s) ≡ metadata s
  metadata-failed error s =
      let f = make_sse_data (json.dump (make_error_body json error)) in
      let t = push_frame_locked accepts f s in
      metadata-close (execute_deferred t.1 t.0)
      ∙ metadata-execute_deferred t.1 t.0
      ∙ metadata-push_frame accepts f s

  pub metadata-happen :
      (e : Event J R) (s : ExtractionStreamingSession)
      → s.metadata_ready ≡ true
      → metadata (happen e s) ≡ metadata s
  unfolding attach_stream
  metadata-happen (token t) s r =
      ap metadata (happen-token t s r)
      ∙ metadata-either (is_empty t) s s _ refl (
          metadata-either (json.dump_throws (delta_body accepts json t)) s s _ refl
            (metadata-settled (token_frame t) s))
  metadata-happen attaches s r = ap metadata (happen-attaches s)
  metadata-happen closes s r = ap metadata (happen-closes s) ∙ metadata-close s
  metadata-happen (succeeds response) s r =
      ap metadata (happen-succeeds response s)
      ∙ metadata-either (json.dump_throws (result_body accepts json response s)) s s _ refl
          (metadata-finished response s)
  metadata-happen (fails error) s r =
      ap metadata (happen-fails error s)
      ∙ metadata-either (json.dump_throws (make_error_body json error)) s s _ refl
          (metadata-failed error s)

  -- A token, as `push_token` leaves it: ended by an exception, or with its frame pushed.
  pub token_step :
      (fs : List Bytes) (t : Bytes) (s : ExtractionStreamingSession)
      → s.metadata_ready ≡ true
      → Pushed fs s
      → let v = push_token accepts json t s in
        Pushed (fs ++ (if is_empty t then [] else printed (delta_body accepts json t) [])) v.0
        × (metadata v.0 ≡ metadata s)
        × (v.1 ≡ (if is_empty t then false else json.dump_throws (delta_body accepts json t)))
  unfolding happen
  token_step fs t s r p = (
    token-Pushed fs t s r p,
    metadata-happen (token t) s r,
    elim (Bool-cases (is_empty t)) [
      | inl e ↦ rw e (ap (λ x. x.1) (push_token-empty t s e))
      | inr e ↦ elim (Bool-cases (json.dump_throws (delta_body accepts json t))) [
        | inl d ↦ rw e (rw d (ap (λ x. x.1) (push_token-unprinted t s e r d)))
        | inr d ↦ rw e (rw d (ap (λ x. x.1) (push_token-printed t s e r d)))
      ]
    ],
  )

  pub run-Pushed :
      (id : Bytes) (created : ℕ) (model : Bytes) (es : List (Event J R)) (fs : List Bytes)
      (s : ExtractionStreamingSession)
      → metadata s ≡ (true, id, created, model)
      → Pushed fs s
      → Pushed (fs ++ all_frames id created model es) (run es s)
  unfolding run
  run-Pushed id created model [] fs s m p = rw (append-nil fs) p
  run-Pushed id created model (e ∷ es) fs s m p =
      let ready : s.metadata_ready ≡ true = ap (λ m. m.0) m in
      let f = frames_of id created model e in
      subst (λ l. Pushed l (run es (happen e s)))
        (append_assoc fs f (all_frames id created model es))
        (run-Pushed id created model es (fs ++ f) (happen e s) (metadata-happen e s ready ∙ m)
          (happen-Pushed id created model fs e s m p))
