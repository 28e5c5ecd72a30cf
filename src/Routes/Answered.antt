-- ===== src/Routes/Answered.antt =====
-- Every callback is dealt with once, in any run of the server.
use zoo_keeper_server.Prelude.{
  ℕ, zero, suc, ◌+◌, ◌≡◌, refl, sym, ap, ◌∙◌, inl, inr, Bytes, Bool, true, false, Option, some,
  List, [], ◌∷◌, ◌++◌, if◌then◌else◌, ◌==◌, ltb, arith, Bool-cases,
}
use zoo_keeper_server.Api.{MessageApi, Role}
use zoo_keeper_server.Json.{JsonApi}
use zoo_keeper_server.Config.{ServerConfig}
use zoo_keeper_server.Bodies.{RoleNames, ToolDefinition}
use zoo_keeper_server.Requests.Messages.{MessageParts}
use zoo_keeper_server.Chat.{Service}
use zoo_keeper_server.Executor.{
  Worker, idle, exited, running, take_task, idle_workers, make_executor,
}
use zoo_keeper_server.Runtime.{
  continuation_worker_count, continuation_queue_depth, make_runtime, reaper_turn, stop, finish_stop,
}
use mathlib.Core.Option.{some-injective}
use zoo_keeper_server.Executor
use zoo_keeper_server.Responses.{AgentResult, RuntimeResult, make_preflight_response}
use zoo_keeper_server.Routes.{Server, Surroundings, Continuation, answers, ends_stream}
use zoo_keeper_server.Routes.Figures.{ZooFigures}
use zoo_keeper_server.Routes.Streamed.{
  state_after, attach_stream, push_token, on_stream, connection_event, end_stream,
}
use zoo_keeper_server.Routes.Handlers.{preflight, health_route}
use zoo_keeper_server.Routes.Steps.{
  World, with_workers, begin, fresh_server, Step, Reach, continue_with, handles, preflights, takes,
  continues, sends_token, attaches, connection, reaps, probes, stops, stopped, AllExited, expires,
  here, next as then_next,
}
use zoo_keeper_server.Routes.Dealt.{handle-DealsWith}
use zoo_keeper_server.Routes.Once.{
  one, awaits, queued, working, held, accounted, working-append, ledger, accounted-ledger,
  accounted-reply_uncounted, accounted-reply_made, ledger-end_stream, ledger-on_stream,
  ledger-connection_event, accounted-answer,
}

one_more : (m n : ℕ) → one n m + (if ltb m n then 1 else 0) ≡ (if ltb m (suc n) then 1 else 0)
one_more m n = ground arith

working-idle_workers : (M : Type 0) (m k : ℕ) → working {M = M} m (idle_workers k) ≡ 0
unfolding idle_workers
working-idle_workers M m zero = refl
working-idle_workers M m (suc k) = working-idle_workers M m k

held-make_executor : (M : Type 0) (m a b : ℕ) → held {M = M} m (make_executor a b) ≡ 0
unfolding make_executor
held-make_executor M m a b = omega (arith, working-idle_workers M m (if a == 0 then 1 else a))

module _ {M : Type 0} where
  -- The callback of every request whose handler was called, and of no other, is accounted for once.
  abbrev pub OnceEach : World M → Type 0
  OnceEach v = (m : ℕ) → accounted m v.server ≡ (if ltb m v.requests then 1 else 0)

  -- What a worker took is what left the queue.
  accounted-taken :
      (m : ℕ) (stopping : Bool) (tasks tasks' : List (Continuation M))
      (next : Worker (Continuation M))
      → take_task stopping tasks ≡ some (next, tasks')
      → queued m tasks' + working m (next ∷ []) ≡ queued m tasks
  unfolding take_task
  accounted-taken m true [] tasks' next e =
      ap
        (λ (t : Worker (Continuation M) × List (Continuation M)).
          queued m t.1 + working m (t.0 ∷ []))
        (sym (some-injective _ _ e))
  accounted-taken m false [] tasks' next e = cc
  accounted-taken m stopping (task ∷ tasks) tasks' next e =
      ap
        (λ (t : Worker (Continuation M) × List (Continuation M)).
          queued m t.1 + working m (t.0 ∷ []))
        (sym (some-injective _ _ e))
      ∙ omega arith

  ledger-reaper_turn :
      (now : ℕ) (w : Server M)
      → ledger (record w { runtime = reaper_turn now w.runtime }) ≡ ledger w
  unfolding reaper_turn
  ledger-reaper_turn now w = ground arith

  accounted-stop :
      (m : ℕ) (w : Server M) → accounted m (record w { runtime = stop w.runtime }) ≡ accounted m w
  unfolding stop Executor.stop
  accounted-stop m w = elim (Bool-cases w.runtime.stopping) [
    | inl e ↦ simp (e) refl
    | inr e ↦ elim (Bool-cases w.runtime.continuation_executor.stopping) [
      | inl f ↦ simp (e, f) refl
      | inr f ↦ simp (e, f) refl
    ]
  ]

  working-AllExited :
      (m : ℕ) (ws : List (Worker (Continuation M))) → AllExited ws → working m ws ≡ 0
  working-AllExited m [] h = refl
  working-AllExited m (worker ∷ ws) h = rw h.0 (working-AllExited m ws h.1)

  accounted-finish_stop :
      (m : ℕ) (w : Server M) (worker : Worker (Continuation M))
      (others : List (Worker (Continuation M)))
      → w.runtime.continuation_executor.workers ≡ worker ∷ others
      → AllExited (worker ∷ others)
      → accounted m (record w { runtime = finish_stop w.runtime }) ≡ accounted m w
  unfolding finish_stop
  accounted-finish_stop m w worker others e h =
      omega (arith, ap (working m) e, working-AllExited m (worker ∷ others) h)

module _ {J R I M A G : Type 0} (json : JsonApi J R I) (names : RoleNames)
    (figures : ZooFigures J A G) (config : ServerConfig J A G) (tools : List (ToolDefinition J))
    ⦃api : MessageApi M⦄ ⦃parts : MessageParts M⦄ (validate : List M → Role → Option Bytes) where
  accounted-continue_with :
      (m : ℕ) (env : Surroundings J R) (result : RuntimeResult (AgentResult J R))
      (task : Continuation M) (w : Server M)
      → accounted m (continue_with json names figures config tools validate env result task w)
        ≡ awaits m task + accounted m w
  unfolding continue_with
  accounted-continue_with m env result (answers kind n p) w =
      accounted-answer json m n env kind p result w
  accounted-continue_with m env result (ends_stream k t p) w = omega (
    arith,
    accounted-ledger m (end_stream json env k t p result w) w
        (ledger-end_stream json m 0 env k t p result w),
  )

  Step-OnceEach :
      {w v : World M} → Step json names figures config tools validate w v → OnceEach w → OnceEach v
  unfolding preflight health_route
  Step-OnceEach {w} (handles env uptime route request e) h m = rw e (
      handle-DealsWith json names figures config tools validate m w.requests env uptime route
        request w.server
      ∙ ap (λ a. one w.requests m + a) (h m)
      ∙ one_more m w.requests)
  Step-OnceEach {w} (probes ready version e) h m = rw e (
      accounted-reply_made m w.requests _ w.server
      ∙ ap (λ a. one w.requests m + a) (h m)
      ∙ one_more m w.requests)
  Step-OnceEach {w} (preflights e) h m = rw e (
      accounted-reply_uncounted m w.requests make_preflight_response w.server
      ∙ ap (λ a. one w.requests m + a) (h m)
      ∙ one_more m w.requests)
  Step-OnceEach {w} (takes before after next tasks e f g) h m =
      let x = w.server.runtime.continuation_executor in
      rw g (
        omega (
          arith,
          h m,
          ap (working m) e,
          working-append m before (idle ∷ after),
          working-append m before (next ∷ after),
          working-append m (next ∷ []) after,
          accounted-taken m x.stopping x.tasks tasks next f,
        ))
  Step-OnceEach {w} (continues env result before after task e f) h m = rw f (
      omega (
        arith,
        h m,
        accounted-continue_with m env result task (
            with_workers (before ++ (idle ∷ after)) w.server.runtime.continuation_executor.tasks
              w.server),
        ap (working m) e,
        working-append m before (idle ∷ after),
        working-append m before (running task ∷ after),
      ))
  Step-OnceEach {w} (sends_token accepts k token e) h m = rw e (
      accounted-ledger m (on_stream k (state_after (push_token json accepts token)) w.server)
        w.server (ledger-on_stream k (state_after (push_token json accepts token)) w.server)
      ∙ h m)
  Step-OnceEach {w} (attaches accepts k e) h m = rw e (
      accounted-ledger m (on_stream k (attach_stream accepts) w.server) w.server
        (ledger-on_stream k (attach_stream accepts) w.server)
      ∙ h m)
  Step-OnceEach {w} (connection number lost e) h m = rw e (
      accounted-ledger m (connection_event number lost w.server) w.server
        (ledger-connection_event number lost w.server)
      ∙ h m)
  Step-OnceEach {w} (reaps now e) h m = rw e (
      accounted-ledger m (record w.server { runtime = reaper_turn now w.server.runtime }) w.server
        (ledger-reaper_turn now w.server)
      ∙ h m)
  Step-OnceEach {w} (stops e) h m = rw e (accounted-stop m w.server ∙ h m)
  Step-OnceEach {w} (stopped worker others e f g) h m =
      rw g (accounted-finish_stop m w.server worker others e f ∙ h m)
  Step-OnceEach {w} (expires e) h m = rw e (h m)

  begin-OnceEach :
      (threads capacity : ℕ) (service : Service M) → OnceEach (begin threads capacity service)
  unfolding fresh_server make_runtime
  begin-OnceEach threads capacity service m = ground (
    arith,
    held-make_executor M m (continuation_worker_count threads) (continuation_queue_depth capacity),
  )

  -- In any run of a new server, in which requests, workers, tokens, streams, lost connections, the
  -- reaper and the shutdown follow one another in any order: the callback of each request whose
  -- handler was called was answered once, or its handler or continuation was left once by an
  -- exception, or it is held by one task that waits or runs, and only one of these; and no other
  -- callback was touched.
  pub Reach-OnceEach :
      (threads capacity : ℕ) (service : Service M) {v : World M}
      → Reach json names figures config tools validate (begin threads capacity service) v
      → OnceEach v
  Reach-OnceEach threads capacity service here = begin-OnceEach threads capacity service
  Reach-OnceEach threads capacity service (then_next r s) =
      Step-OnceEach s (Reach-OnceEach threads capacity service r)
