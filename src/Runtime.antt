-- ===== src/Runtime.antt =====
-- `ServerRuntime` of src/server/runtime.hpp and runtime.cpp: the chat service, the counters, the
-- executor of the continuations, and the thread that reaps sessions. `stop` waits
-- for the workers of the executor, which run on meanwhile, so it is two functions: what it does
-- before that and after it. The number of hardware threads and the clocks are arguments.
pub mod Stopping
use zoo_keeper_server.Prelude.{
  ℕ, ◌*◌, Bytes, Bool, true, false, [], if◌then◌else◌, min, max, ◌==◌, length, wrap64, text,
}
use zoo_keeper_server.Api.{Expected, err, SessionHealth}
use zoo_keeper_server.Session.Store.{enabled, health}
use zoo_keeper_server.Chat.{Service, reap_sessions, stop as stop_service}
use zoo_keeper_server.Executor.{BoundedExecutor, make_executor, submit, stop as stop_executor}
use zoo_keeper_server.Metrics.{ServerMetrics, no_requests}

unfoldable pub continuation_worker_count : ℕ → ℕ
continuation_worker_count hardware_threads =
    if hardware_threads == 0 then 2 else min 4 (max 2 hardware_threads)

unfoldable pub continuation_queue_depth : ℕ → ℕ
continuation_queue_depth request_queue_capacity = max 32 (wrap64 (max 1 request_queue_capacity * 2))

-- The thread of the reaper: none when sessions are off, else running or returned.
pub data Reaper : Type 0 where
  no_reaper reaping returned : Reaper

-- `join`: the reaper leaves its loop once `stopping_` is set.
abbrev pub joined : Reaper → Reaper
joined no_reaper = no_reaper
joined _ = returned

pub record ServerRuntime (M T : Type 0) : Type 0 where
  pub chat_service : Service M
  pub metrics : ServerMetrics
  pub continuation_executor : BoundedExecutor T
  pub reaper_thread : Reaper
  pub stopping : Bool

pub record MetricsSnapshot : Type 0 where
  pub counters : ServerMetrics
  pub active_sessions : ℕ
  pub model_id : Bytes
  pub uptime_seconds : ℕ

module _ {M T : Type 0} where
  unfoldable pub make_runtime : ℕ → ℕ → Service M → ServerRuntime M T
  make_runtime hardware_threads request_queue_capacity service = record {
    chat_service = service;
    metrics = no_requests;
    continuation_executor =
        make_executor (continuation_worker_count hardware_threads)
          (continuation_queue_depth request_queue_capacity);
    reaper_thread = if enabled service.store.config then reaping else no_reaper;
    stopping = false;
  }

  -- One turn of `run_session_reaper`, after its wait: at the time `now`.
  unfoldable pub reaper_turn : ℕ → ServerRuntime M T → ServerRuntime M T
  reaper_turn now r = elim r.reaper_thread [
    | reaping ↦
        if r.stopping
        then record r { reaper_thread = returned }
        else record r { chat_service = reap_sessions now r.chat_service }
    | no_reaper ↦ r
    | returned ↦ r
  ]

  -- `stop` up to the joins of the executor's workers.
  unfoldable pub stop : ServerRuntime M T → ServerRuntime M T
  stop r = if r.stopping then r else record r {
    stopping = true;
    reaper_thread = joined r.reaper_thread;
    continuation_executor = stop_executor r.continuation_executor;
  }

  -- The rest of that call, once every worker has returned: `workers_.clear()` and the stop of the
  -- chat service.
  unfoldable pub finish_stop : ServerRuntime M T → ServerRuntime M T
  finish_stop r = record r {
    continuation_executor = record r.continuation_executor { workers = [] };
    chat_service = stop_service r.chat_service;
  }

  unfoldable pub submit_background :
      T → ServerRuntime M T → ServerRuntime M T × Expected Bytes (Unit {0})
  submit_background task r =
      if r.stopping
      then (r, err (text "Server runtime is stopping"))
      else let (e, result) = submit task r.continuation_executor in
        (record r { continuation_executor = e }, result)

  unfoldable pub metrics_snapshot : ℕ → Bytes → ServerRuntime M T → MetricsSnapshot
  metrics_snapshot uptime model r = record {
    counters = r.metrics;
    active_sessions = (health r.chat_service.store).active;
    model_id = model;
    uptime_seconds = uptime;
  }
