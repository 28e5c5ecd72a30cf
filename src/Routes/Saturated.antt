-- ===== src/Routes/Saturated.antt =====
-- What a handler does when the executor is full.
use zoo_keeper_server.Prelude.{
  ℕ, ◌≡◌, refl, sym, ap, subst, ◌∙◌, text, Bool, true, false, Option, none, some, List, [], ◌∷◌,
  ◌++◌, leb, length,
}
use zoo_keeper_server.Api.{ok, err, MessageApi}
use zoo_keeper_server.Json.{JsonApi}
use zoo_keeper_server.Chat.{Service}
use zoo_keeper_server.Chat.Start.{Kind, Pending, release}
use zoo_keeper_server.Executor.{BoundedExecutor, submit}
use zoo_keeper_server.Runtime.{ServerRuntime, submit_background}
use mathlib.Core.Path.{ap₂}
use zoo_keeper_server.Routes.{
  Outcome, threw, Continuation, answers, ends_stream, OnDisconnect, Server, Surroundings, chat,
  with_chat,
}
use zoo_keeper_server.Routes.Start.{refused, release_pending, await, after_start}
use zoo_keeper_server.Routes.Streamed.{
  stream_later, stream_unless, stream_started, open_stream, track_stream, untrack,
}

module _ {J R I M : Type 0} (json : JsonApi J R I) ⦃api : MessageApi M⦄ where
  -- The parts of the state that a refusal is stated of.
  abbrev core : Server M → List Outcome × Service M × BoundedExecutor (Continuation M)
  core w = (w.log, chat w, w.runtime.continuation_executor)

  -- Those parts when the handler was left, with the lease released.
  abbrev left :
      Surroundings J R
      → ℕ
      → Pending M
      → List Outcome × Service M × BoundedExecutor (Continuation M)
      → List Outcome × Service M × BoundedExecutor (Continuation M)
  left env n p c = (c.0 ++ (threw n ∷ []), (release env.released p.lease c.1).1, c.2)

  runtime-track_stream :
      (c : Option ℕ) (d : OnDisconnect) (w : Server M)
      → ((track_stream c d w).0.runtime ≡ w.runtime) × ((track_stream c d w).0.log ≡ w.log)
  unfolding track_stream
  runtime-track_stream none d w = (refl, refl)
  runtime-track_stream (some c) d w = (refl, refl)

  record IsFull (r : ServerRuntime M (Continuation M)) : Type 0 where
    running : r.stopping ≡ false
    serving : r.continuation_executor.stopping ≡ false
    full :
        leb r.continuation_executor.max_pending_tasks (length r.continuation_executor.tasks) ≡ true

  submit-IsFull :
      (task : Continuation M) (r : ServerRuntime M (Continuation M))
      → IsFull r
      → let (r', submitted) = submit_background task r in
        (submitted ≡ err (text "Executor queue is full"))
        × (r'.chat_service ≡ r.chat_service)
        × (r'.continuation_executor ≡ r.continuation_executor)
  unfolding submit_background submit
  submit-IsFull task r f = simp (f.running, f.serving, f.full) (refl, refl, refl)

  module _ (env : Surroundings J R) (moved : env.moved_from_keeps ≡ false) (n : ℕ)
      (p : Pending M) where
    core-refused : (w : Server M) → core (refused json env n p w) ≡ left env n p (core w)
    unfolding refused release_pending
    core-refused w = rw moved refl

    core-await :
        (kind : Kind) (w : Server M)
        → IsFull w.runtime
        → core (await json env kind n p none w) ≡ left env n p (core w)
    unfolding await
    core-await kind w f =
        let t = answers kind n p in
        let (e, c, x) = submit-IsFull t w.runtime f in
        rw e (
          core-refused (record w { runtime = (submit_background t w.runtime).0 })
          ∙ ap (left env n p) (ap₂ (λ c x. (w.log, c, x)) c x))

    core-untrack : (b : Bool) (t : Option (ℕ × ℕ)) (w : Server M) → core (untrack b t w) ≡ core w
    unfolding untrack
    core-untrack b none w = refl
    core-untrack true (some (c, i)) w = refl
    core-untrack false (some (c, i)) w = refl

    core-stream_later :
        (k : ℕ) (w : Server M)
        → IsFull w.runtime
        → core (stream_later json env n k p w) ≡ left env n p (core w)
    unfolding stream_later
    core-stream_later k w f =
        let d : OnDisconnect = record { stream = k; agent_request = p.handle_id } in
        let (v, t) = track_stream env.connection d w in
        let e = runtime-track_stream env.connection d w in
        let g : IsFull v.runtime = subst IsFull (sym e.0) f in
        let task = ends_stream k t p in
        let (full, c, x) = submit-IsFull task v.runtime g in
        let u = record v { runtime = (submit_background task v.runtime).0 } in
        rw full (
          core-refused (untrack env.still_connected t u)
          ∙ ap (left env n p) (core-untrack env.still_connected t u)
          ∙ ap (left env n p) (ap₂ (λ c x. (v.log, c, x)) c x)
          ∙ ap (left env n p) (
              ap₂
                (λ (r : ServerRuntime M (Continuation M)) (l : List Outcome).
                  (l, r.chat_service, r.continuation_executor))
                e.0 e.1))

    -- The same where an exception ends the opening of the stream.
    core-stream_unless :
        (b : Bool) (k : ℕ) (w : Server M)
        → env.at_once ≡ none
        → IsFull w.runtime
        → core (stream_unless json b env n k p w) ≡ left env n p (core w)
    unfolding release_pending stream_later refused
    core-stream_unless true k w later f = refl
    core-stream_unless false k w later f = rw later (core-stream_later k w f)

  -- When the agent's answer is not there at once, the executor is full and not stopping, and a
  -- function that was moved from has no target: the handler of a request that was started, plain
  -- or streamed, is left by an exception, and gives no response; its lease is released, and the
  -- agent is not asked to cancel, so that nothing but the release is done to the service; and the
  -- executor is left as it was.
  pub saturated :
      (env : Surroundings J R) (kind : Kind) (n : ℕ) (s : Service M) (pending : Pending M)
      (w : Server M)
      → env.at_once ≡ none
      → env.moved_from_keeps ≡ false
      → w.runtime.stopping ≡ false
      → w.runtime.continuation_executor.stopping ≡ false
      → leb w.runtime.continuation_executor.max_pending_tasks
          (length w.runtime.continuation_executor.tasks)
        ≡ true
      → let plain = after_start json env kind n (s, ok pending) w in
        let streamed = stream_started json env kind n (s, ok pending) w in
        (plain.log ≡ w.log ++ (threw n ∷ []))
        × (streamed.log ≡ w.log ++ (threw n ∷ []))
        × (chat plain ≡ (release env.released pending.lease s).1)
        × (chat streamed ≡ (release env.released pending.lease s).1)
        × (plain.runtime.continuation_executor ≡ w.runtime.continuation_executor)
        × (streamed.runtime.continuation_executor ≡ w.runtime.continuation_executor)
  unfolding after_start stream_started open_stream
  saturated env kind n s pending w later moved running serving full =
      let w' = with_chat s w in
      let f : IsFull w'.runtime = record { running = running; serving = serving; full = full } in
      let a = core-await env moved n pending kind w' f in
      let (v, k, thrown) = open_stream json env kind pending w' in
      let b = core-stream_unless env moved n pending thrown k v later f in
      simp (later) (
        ap (λ c. c.0) a,
        ap (λ c. c.0) b,
        ap (λ c. c.1) a,
        ap (λ c. c.1) b,
        ap (λ c. c.2) a,
        ap (λ c. c.2) b,
      )
