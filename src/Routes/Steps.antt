-- ===== src/Routes/Steps.antt =====
-- The server as a whole: requests, the workers of the executor, the agent, the HTTP library and
-- the shutdown, in any order. A handler and a continuation run as one step each.
use zoo_keeper_server.Prelude.{
  ℕ, suc, ◌≡◌, Bytes, Bool, false, Option, some, List, All, [], ◌∷◌, ◌++◌,
}
use zoo_keeper_server.Api.{MessageApi, Role}
use zoo_keeper_server.Json.{JsonApi}
use zoo_keeper_server.Config.{ServerConfig}
use zoo_keeper_server.Bodies.{RoleNames, ToolDefinition}
use zoo_keeper_server.Requests.Messages.{MessageParts}
use zoo_keeper_server.Chat.{Service}
use zoo_keeper_server.Executor.{Worker, idle, exited, running, take_task}
use zoo_keeper_server.Runtime.{make_runtime, reaper_turn, stop, finish_stop}
use zoo_keeper_server.Disconnects.{empty_registry}
use zoo_keeper_server.Responses.{AgentResult, RuntimeResult}
use zoo_keeper_server.Routes.{Server, Surroundings, Continuation, answers, ends_stream}
use zoo_keeper_server.Routes.Figures.{ZooFigures}
use zoo_keeper_server.Routes.Start.{answer}
use zoo_keeper_server.Routes.Streamed.{
  state_after, attach_stream, push_token, on_stream, connection_event, end_stream,
}
use zoo_keeper_server.Routes.Handlers.{Route, HttpRequest, preflight, health_route, handle}

-- The server, and the number of requests whose handlers were called.
pub record World (M : Type 0) : Type 0 where
  pub server : Server M
  pub requests : ℕ

module _ {M : Type 0} where
  abbrev pub AllExited : List (Worker (Continuation M)) → Type 0
  AllExited ws = All (λ worker. worker ≡ exited) ws

  -- The workers and the tasks of the executor.
  abbrev pub with_workers :
      List (Worker (Continuation M)) → List (Continuation M) → Server M → Server M
  with_workers workers tasks w = record w {
    runtime = record w.runtime {
      continuation_executor = record w.runtime.continuation_executor {
        workers = workers;
        tasks = tasks;
      };
    };
  }

  -- A server that was just made, on so many hardware threads.
  unfoldable pub fresh_server : ℕ → ℕ → Service M → Server M
  fresh_server hardware_threads request_queue_capacity service = record {
    runtime = make_runtime hardware_threads request_queue_capacity service;
    runtime_alive = Bool.true;
    registry = empty_registry;
    streams = [];
    log = [];
  }

  abbrev pub begin : ℕ → ℕ → Service M → World M
  begin hardware_threads request_queue_capacity service = record {
    server = fresh_server hardware_threads request_queue_capacity service;
    requests = 0;
  }

  module _ {J R I A G : Type 0} (json : JsonApi J R I) (names : RoleNames)
      (figures : ZooFigures J A G) (config : ServerConfig J A G) (tools : List (ToolDefinition J))
      ⦃api : MessageApi M⦄ ⦃parts : MessageParts M⦄ (validate : List M → Role → Option Bytes) where
    -- The lambda that was submitted, once the future has this result.
    unfoldable pub continue_with :
        Surroundings J R → RuntimeResult (AgentResult J R) → Continuation M → Server M → Server M
    continue_with env result (answers kind n pending) w = answer json env kind n pending result w
    continue_with env result (ends_stream k tracked pending) w =
        end_stream json env k tracked pending result w

    pub data Step (w v : World M) : Type 0 where
      handles :
          (env : Surroundings J R) (uptime : ℕ) (route : Route) (request : HttpRequest)
          → v ≡ record {
            server =
                handle json names figures config tools validate env uptime route request w.requests
                  w.server;
            requests = suc w.requests;
          }
          → Step w v
      probes :
          (ready : Bool) (version : Bytes)
          → v ≡ record {
            server =
                health_route json names figures config tools validate ready version w.requests
                  w.server;
            requests = suc w.requests;
          }
          → Step w v
      preflights :
          v ≡ record { server = preflight w.requests w.server; requests = suc w.requests }
          → Step w v
      takes :
          (before after : List (Worker (Continuation M))) (next : Worker (Continuation M))
          (tasks : List (Continuation M))
          → w.server.runtime.continuation_executor.workers ≡ before ++ (idle ∷ after)
          → take_task w.server.runtime.continuation_executor.stopping
              w.server.runtime.continuation_executor.tasks
            ≡ some (next, tasks)
          → v ≡ record w { server = with_workers (before ++ (next ∷ after)) tasks w.server }
          → Step w v
      continues :
          (env : Surroundings J R) (result : RuntimeResult (AgentResult J R))
          (before after : List (Worker (Continuation M))) (task : Continuation M)
          → w.server.runtime.continuation_executor.workers ≡ before ++ (running task ∷ after)
          → v ≡ record w {
            server = continue_with env result task (
                with_workers
                  (before ++ (idle ∷ after))
                  w.server.runtime.continuation_executor.tasks
                  w.server);
          }
          → Step w v
      sends_token :
          (accepts : List Bytes → Bytes → Bool) (k : ℕ) (token : Bytes)
          → v ≡ record w {
            server = on_stream k (state_after (push_token json accepts token)) w.server;
          }
          → Step w v
      attaches :
          (accepts : List Bytes → Bytes → Bool) (k : ℕ)
          → v ≡ record w { server = on_stream k (attach_stream accepts) w.server }
          → Step w v
      connection :
          (number : Option ℕ) (lost : Bool)
          → v ≡ record w { server = connection_event number lost w.server }
          → Step w v
      reaps :
          (now : ℕ)
          → v ≡ record w { server = record w.server { runtime = reaper_turn now w.server.runtime } }
          → Step w v
      stops :
          v ≡ record w { server = record w.server { runtime = stop w.server.runtime } } → Step w v
      stopped :
          (worker : Worker (Continuation M)) (others : List (Worker (Continuation M)))
          → w.server.runtime.continuation_executor.workers ≡ worker ∷ others
          → AllExited (worker ∷ others)
          → v ≡ record w { server = record w.server { runtime = finish_stop w.server.runtime } }
          → Step w v
      expires : v ≡ record w { server = record w.server { runtime_alive = false } } → Step w v

    pub data Reach (w : World M) : World M → Type 0 where
      here : Reach w w
      next : {u v : World M} → Reach w u → Step u v → Reach w v
