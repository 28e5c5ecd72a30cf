-- ===== src/Routes/Once.antt =====
-- Every callback is dealt with once.
use zoo_keeper_server.Prelude.{
  ℕ, zero, suc, ◌+◌, ◌≡◌, refl, ap, ◌∙◌, inl, inr, Bytes, Bool, true, false, Option, none, some,
  List, [], ◌∷◌, ◌++◌, if◌then◌else◌, ◌==◌, ltb, leb, length, arith, Bool-cases,
}
use zoo_keeper_server.Api.{Expected, ok, err, is_ok, ApiResult, ApiError, MessageApi}
use zoo_keeper_server.Json.{JsonApi}
use zoo_keeper_server.Chat.{Service}
use zoo_keeper_server.Chat.Start.{Kind, Pending}
use zoo_keeper_server.Executor.{BoundedExecutor, Worker, idle, exited, running, submit}
use zoo_keeper_server.Runtime.{ServerRuntime, submit_background}
use zoo_keeper_server.Responses.{
  HttpResponse, AgentResult, RuntimeResult, succeeded_of, error_of, make_stream_response,
}
use zoo_keeper_server.Routes.{
  Outcome, answered, threw, Continuation, answers, ends_stream, Server, Surroundings, StreamEntry,
  EventStream, OnDisconnect, leave, reply, reply_made, reply_uncounted, refuse_start, count,
  with_chat, is_queue_full,
}
use zoo_keeper_server.Metrics.{increment_queue_rejected, increment_tool_metrics, with_metrics}
use zoo_keeper_server.Disconnects.{handle_connection_event}
use zoo_keeper_server.Routes.Start.{
  release_pending, finalize_pending, answer, refused, after_submit, await, after_start,
}
use zoo_keeper_server.Routes.Streamed.{
  thrown_at, state_after, finalize_unless, reply_unless, stream_unless, change_at, close_stream,
  finish_success, cancels_of, on_stream, disconnected, disconnected_all, connection_event, untrack,
  track_stream, end_stream, stream_at_once, stream_submitted, stream_on, stream_later, open_stream,
  stream_started,
}

abbrev pub one : ℕ → ℕ → ℕ
one n m = if n == m then 1 else 0

-- How often the callback `m` was answered or left by an exception.
abbrev pub outcomes : ℕ → List Outcome → ℕ
outcomes m [] = 0
outcomes m (answered n response ∷ log) = one n m + outcomes m log
outcomes m (threw n ∷ log) = one n m + outcomes m log

outcomes-append : (m : ℕ) (l k : List Outcome) → outcomes m (l ++ k) ≡ outcomes m l + outcomes m k
outcomes-append m [] k = omega arith
outcomes-append m (answered n r ∷ l) k = omega (arith, outcomes-append m l k)
outcomes-append m (threw n ∷ l) k = omega (arith, outcomes-append m l k)

nothing_either : (b : Bool) → ◌≡◌ {A = ℕ} (if b then 0 else 0) 0
nothing_either true = refl
nothing_either false = refl

module _ {M : Type 0} where
  abbrev pub awaits : ℕ → Continuation M → ℕ
  awaits m (answers kind n pending) = one n m
  awaits m (ends_stream k tracked pending) = 0

  -- How many waiting tasks, and tasks that run, hold the callback `m`.
  abbrev pub queued : ℕ → List (Continuation M) → ℕ
  queued m [] = 0
  queued m (task ∷ tasks) = awaits m task + queued m tasks

  abbrev pub working : ℕ → List (Worker (Continuation M)) → ℕ
  working m [] = 0
  working m (running task ∷ workers) = awaits m task + working m workers
  working m (idle ∷ workers) = working m workers
  working m (exited ∷ workers) = working m workers

  abbrev pub held : ℕ → BoundedExecutor (Continuation M) → ℕ
  held m e = queued m e.tasks + working m e.workers

  -- The callback `m` counted with what was done with it and where it waits.
  abbrev pub accounted : ℕ → Server M → ℕ
  accounted m w = outcomes m w.log + held m w.runtime.continuation_executor

  queued-append :
      (m : ℕ) (l k : List (Continuation M)) → queued m (l ++ k) ≡ queued m l + queued m k
  queued-append m [] k = omega arith
  queued-append m (t ∷ l) k = omega (arith, queued-append m l k)

  pub working-append :
      (m : ℕ) (l k : List (Worker (Continuation M)))
      → working m (l ++ k) ≡ working m l + working m k
  working-append m [] k = omega arith
  working-append m (running t ∷ l) k = omega (arith, working-append m l k)
  working-append m (idle ∷ l) k = working-append m l k
  working-append m (exited ∷ l) k = working-append m l k

  -- The log and the executor.
  abbrev pub ledger : Server M → List Outcome × BoundedExecutor (Continuation M)
  ledger w = (w.log, w.runtime.continuation_executor)

  pub accounted-ledger :
      (m : ℕ) (v w : Server M) → ledger v ≡ ledger w → accounted m v ≡ accounted m w
  accounted-ledger m v w e = ap (λ l. outcomes m l.0 + held m l.1) e

  accounted-leave : (m n : ℕ) (w : Server M) → accounted m (leave n w) ≡ one n m + accounted m w
  accounted-leave m n w = omega (arith, outcomes-append m w.log (threw n ∷ []))

  pub accounted-reply_uncounted :
      (m n : ℕ) (r : HttpResponse) (w : Server M)
      → accounted m (reply_uncounted n r w) ≡ one n m + accounted m w
  unfolding reply_uncounted
  accounted-reply_uncounted m n r w = omega (arith, outcomes-append m w.log (answered n r ∷ []))

  pub accounted-reply_made :
      (m n : ℕ) (r : Option HttpResponse) (w : Server M)
      → accounted m (reply_made n r w) ≡ one n m + accounted m w
  unfolding reply_made
  accounted-reply_made m n none w = accounted-leave m n w
  accounted-reply_made m n (some r) w = accounted-reply_uncounted m n r w

  pub accounted-reply :
      (m n : ℕ) (r : Option HttpResponse) (w : Server M)
      → accounted m (reply n r w) ≡ one n m + accounted m w
  unfolding reply
  accounted-reply m n none w = accounted-leave m n w
  accounted-reply m n (some r) w =
      accounted-reply_uncounted m n r (count (with_metrics r.status_code) w)

  ledger-change_at :
      (k : ℕ) (f : EventStream → EventStream) (es : List StreamEntry) (w : Server M)
      → ledger (change_at k f es w).1 ≡ ledger w
  ledger-change_at k f [] w = refl
  ledger-change_at zero f (e ∷ es) w =
      elim (Bool-cases (ltb (cancels_of e.session) (cancels_of (f e.session)))) [
        | inl p ↦ rw p refl
        | inr p ↦ rw p refl
      ]
  ledger-change_at (suc k) f (e ∷ es) w = ledger-change_at k f es w

  pub ledger-on_stream :
      (k : ℕ) (f : EventStream → EventStream) (w : Server M) → ledger (on_stream k f w) ≡ ledger w
  unfolding on_stream
  ledger-on_stream k f w = ledger-change_at k f w.streams w

  ledger-disconnected_all :
      (ds : List OnDisconnect) (w : Server M) → ledger (disconnected_all ds w) ≡ ledger w
  unfolding disconnected_all disconnected
  ledger-disconnected_all [] w = refl
  ledger-disconnected_all (d ∷ ds) w =
      ledger-disconnected_all ds (disconnected d w) ∙ ledger-on_stream d.stream close_stream w

  pub ledger-connection_event :
      (c : Option ℕ) (lost : Bool) (w : Server M) → ledger (connection_event c lost w) ≡ ledger w
  unfolding connection_event
  ledger-connection_event c lost w =
      let (registry', callbacks) = handle_connection_event c lost w.registry in
      ledger-disconnected_all callbacks (record w { registry = registry' })

  ledger-untrack :
      (b : Bool) (t : Option (ℕ × ℕ)) (w : Server M) → ledger (untrack b t w) ≡ ledger w
  unfolding untrack
  ledger-untrack true none w = refl
  ledger-untrack false none w = refl
  ledger-untrack true (some (c, i)) w = refl
  ledger-untrack false (some (c, i)) w = refl

  ledger-track_stream :
      (c : Option ℕ) (d : OnDisconnect) (w : Server M) → ledger (track_stream c d w).0 ≡ ledger w
  unfolding track_stream
  ledger-track_stream none d w = refl
  ledger-track_stream (some c) d w = refl

  -- The executor takes a task or leaves its queue as it is.
  held-submit :
      (m : ℕ) (task : Continuation M) (e : BoundedExecutor (Continuation M))
      → held m (submit task e).0 ≡ (if is_ok (submit task e).1 then awaits m task else 0) + held m e
  unfolding submit
  held-submit m task e = elim (Bool-cases e.stopping) [
    | inl p ↦ simp (p) (omega arith)
    | inr p ↦ elim (Bool-cases (leb e.max_pending_tasks (length e.tasks))) [
      | inl q ↦ simp (p, q) (omega arith)
      | inr q ↦ simp (p, q) (omega (arith, queued-append m e.tasks (task ∷ [])))
    ]
  ]

  held-submit_background :
      (m : ℕ) (task : Continuation M) (r : ServerRuntime M (Continuation M))
      → held m (submit_background task r).0.continuation_executor
        ≡ (if is_ok (submit_background task r).1 then awaits m task else 0)
          + held m r.continuation_executor
  unfolding submit_background
  held-submit_background m task r = elim (Bool-cases r.stopping) [
    | inl e ↦ simp (e) (omega arith)
    | inr e ↦ simp (e) (held-submit m task r.continuation_executor)
  ]

  module _ {J R I : Type 0} (json : JsonApi J R I) where
    accounted-refuse_start :
        (m n : ℕ) (error : ApiError) (w : Server M)
        → accounted m (refuse_start json n error w) ≡ one n m + accounted m w
    unfolding refuse_start
    accounted-refuse_start m n error w = elim (Bool-cases (is_queue_full error.code)) [
      | inl e ↦ rw e (accounted-reply m n _ (count increment_queue_rejected w))
      | inr e ↦ rw e (accounted-reply m n _ w)
    ]

    module _ ⦃api : MessageApi M⦄ (m n : ℕ) (env : Surroundings J R) where
      pub accounted-answer :
          (kind : Kind) (p : Pending M) (result : RuntimeResult (AgentResult J R)) (w : Server M)
          → accounted m (answer json env kind n p result w) ≡ one n m + accounted m w
      unfolding answer finalize_pending
      accounted-answer kind p (err error) w = accounted-reply m n _ _
      accounted-answer kind p (ok result) w = accounted-reply m n _ _

      accounted-refused :
          (p : Pending M) (w : Server M)
          → accounted m (refused json env n p w) ≡ one n m + accounted m w
      unfolding refused release_pending
      accounted-refused p w = elim (Bool-cases env.moved_from_keeps) [
        | inl e ↦ rw e (accounted-reply m n _ _)
        | inr e ↦ rw e (accounted-leave m n (release_pending env.released p w))
      ]

      accounted-after_submit :
          (p : Pending M) (submitted : Expected Bytes (Unit {0})) (w : Server M)
          → accounted m (after_submit json env n p submitted w)
              + (if is_ok submitted then one n m else 0)
            ≡ one n m + accounted m w
      accounted-after_submit p (ok u) w = omega arith
      accounted-after_submit p (err e) w = omega (arith, accounted-refused p w)

      accounted-await :
          (kind : Kind) (p : Pending M) (at_once : Option (RuntimeResult (AgentResult J R)))
          (w : Server M)
          → accounted m (await json env kind n p at_once w) ≡ one n m + accounted m w
      unfolding await
      accounted-await kind p (some result) w = accounted-answer kind p result w
      accounted-await kind p none w =
          let t = answers kind n p in
          let s = submit_background t w.runtime in
          omega (
            arith,
            accounted-after_submit p s.1 (record w { runtime = s.0 }),
            held-submit_background m t w.runtime,
          )

      pub accounted-after_start :
          (kind : Kind) (s : Service M × ApiResult (Pending M)) (w : Server M)
          → accounted m (after_start json env kind n s w) ≡ one n m + accounted m w
      unfolding after_start
      accounted-after_start kind (s, err error) w = accounted-refuse_start m n error _
      accounted-after_start kind (s, ok p) w = accounted-await kind p env.at_once _

      ledger-finalize_unless :
          (b : Bool) (p : Pending M) (result : RuntimeResult (AgentResult J R)) (w : Server M)
          → ledger (finalize_unless json b env p result w) ≡ ledger w
      unfolding finalize_pending release_pending
      ledger-finalize_unless true p result w = refl
      ledger-finalize_unless false p result w = refl

      pub ledger-end_stream :
          (k : ℕ) (t : Option (ℕ × ℕ)) (p : Pending M) (result : RuntimeResult (AgentResult J R))
          (w : Server M)
          → ledger (end_stream json env k t p result w) ≡ ledger w
      unfolding end_stream
      ledger-end_stream k t p (err error) w =
          ledger-finalize_unless _ p (err error) _
          ∙ ledger-on_stream k _ _
          ∙ ledger-untrack env.still_connected t w
      ledger-end_stream k t p (ok result) w =
          ledger-finalize_unless _ p (ok result) _
          ∙ ledger-on_stream k _ _
          ∙ ledger-untrack env.still_connected t w

      accounted-reply_unless :
          (b : Bool) (r : HttpResponse) (w : Server M)
          → accounted m (reply_unless json b n r w) ≡ one n m + accounted m w
      accounted-reply_unless true r w = accounted-leave m n w
      accounted-reply_unless false r w = accounted-reply m n (some r) w

      accounted-stream_at_once :
          (k : ℕ) (p : Pending M) (result : RuntimeResult (AgentResult J R)) (w : Server M)
          → accounted m (stream_at_once json env n k p result w) ≡ one n m + accounted m w
      unfolding stream_at_once finalize_pending
      accounted-stream_at_once k p (err error) w = accounted-reply m n _ _
      accounted-stream_at_once k p (ok result) w =
          let f = finish_success json env.accepts result in
          let v = count (increment_tool_metrics succeeded_of error_of result.tool_invocations) w in
          let b = thrown_at k f v.streams in
          let u = finalize_unless json b env p (ok result) (on_stream k (state_after f) v) in
          accounted-reply_unless b (make_stream_response k) u
          ∙ ap (λ a. one n m + a)
              (accounted-ledger m u w (
                ledger-finalize_unless b p (ok result) (on_stream k (state_after f) v)
                ∙ ledger-on_stream k (state_after f) v))

      accounted-stream_submitted :
          (k : ℕ) (t : Option (ℕ × ℕ)) (p : Pending M) (submitted : Expected Bytes (Unit {0}))
          (w : Server M)
          → accounted m (stream_submitted json env n k t p submitted w) ≡ one n m + accounted m w
      accounted-stream_submitted k t p (ok u) w = accounted-reply m n _ w
      accounted-stream_submitted k t p (err e) w =
          accounted-refused p (untrack env.still_connected t w)
          ∙ ap (λ a. one n m + a)
              (accounted-ledger m (untrack env.still_connected t w) w
                (ledger-untrack env.still_connected t w))

      accounted-stream_later :
          (k : ℕ) (p : Pending M) (w : Server M)
          → accounted m (stream_later json env n k p w) ≡ one n m + accounted m w
      unfolding stream_later
      accounted-stream_later k p w =
          let d : OnDisconnect = record { stream = k; agent_request = p.handle_id } in
          let (w', t) = track_stream env.connection d w in
          let task = ends_stream k t p in
          let s = submit_background task w'.runtime in
          omega (
            arith,
            accounted-stream_submitted k t p s.1 (record w' { runtime = s.0 }),
            held-submit_background m task w'.runtime,
            nothing_either (is_ok s.1),
            accounted-ledger m w' w (ledger-track_stream env.connection d w),
          )

      accounted-stream_on :
          (k : ℕ) (p : Pending M) (at_once : Option (RuntimeResult (AgentResult J R)))
          (w : Server M)
          → accounted m (stream_on json env n k p at_once w) ≡ one n m + accounted m w
      accounted-stream_on k p (some result) w = accounted-stream_at_once k p result w
      accounted-stream_on k p none w = accounted-stream_later k p w

      accounted-stream_unless :
          (b : Bool) (k : ℕ) (p : Pending M) (w : Server M)
          → accounted m (stream_unless json b env n k p w) ≡ one n m + accounted m w
      unfolding release_pending
      accounted-stream_unless true k p w = accounted-leave m n (release_pending env.released p w)
      accounted-stream_unless false k p w = accounted-stream_on k p env.at_once w

      pub accounted-stream_started :
          (kind : Kind) (s : Service M × ApiResult (Pending M)) (w : Server M)
          → accounted m (stream_started json env kind n s w) ≡ one n m + accounted m w
      unfolding stream_started open_stream
      accounted-stream_started kind (s, err error) w = accounted-refuse_start m n error _
      accounted-stream_started kind (s, ok p) w =
          let (u, k, thrown) = open_stream json env kind p (with_chat s w) in
          accounted-stream_unless thrown k p u
