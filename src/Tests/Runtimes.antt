-- ===== src/Tests/Runtimes.antt =====
-- The executor, the handles, the counters and the runtime at concrete data.
use zoo_keeper_server.Prelude.{
  ℕ, ◌≤◌, ◌≡◌, refl, Bool, some, [], ◌∷◌, length, text, Bytes, ◌==◌, ◌==ᵇ◌, wrap64, Option,
}
use zoo_keeper_server.Api.{err}
use zoo_keeper_server.Executor.{
  idle, running, exited, submit, make_executor, idle_workers, take_task, stop as stop_executor,
}
use zoo_keeper_server.Executor.Schedule.{
  World, submits, wakes, finishes, stops, Reach, here, next, start, Inv, Reach-Fifo, drained,
}
use zoo_keeper_server.Metrics.{no_requests, increment_tool_metrics}
use zoo_keeper_server.Metrics.Counts.{
  increment_tool_metrics_lem, count_responses, count_responses_lem,
}
use zoo_keeper_server.Runtime.{ServerRuntime, make_runtime}
use zoo_keeper_server.Runtime.Stopping.{make_runtime_lem}
use zoo_keeper_server.Tests.{Message, service}

abbrev submitted : World ℕ
submitted = record (start 1 2) { executor = (submit 5 (make_executor 1 2)).0; accepted = 5 ∷ [] }

abbrev began : World ℕ
began = record submitted {
  executor = record submitted.executor { tasks = []; workers = running 5 ∷ [] };
  started = 5 ∷ [];
}

abbrev rested : World ℕ
rested = record began { executor = record began.executor { workers = idle ∷ [] } }

abbrev halted : World ℕ
halted = record rested { executor = stop_executor rested.executor }

abbrev ended : World ℕ
ended = record halted { executor = record halted.executor { workers = exited ∷ [] } }

run_to_end : Reach (start 1 2) ended
unfolding submit make_executor stop_executor idle_workers take_task
run_to_end =
    next
      (next
        (next (next (next here (submits 5 refl)) (wakes [] [] (running 5) [] refl refl refl))
          (finishes [] [] 5 refl refl))
        (stops refl))
      (wakes [] [] exited [] refl refl refl)

Reach-Fifo_example : Inv ended
Reach-Fifo_example = Reach-Fifo 1 2 run_to_end

drained_example :
    (ended.started ≡ ended.accepted)
    × ((task : ℕ)
        → submit task ended.executor ≡ (ended.executor, err (text "Executor is stopping")))
drained_example = drained 1 2 run_to_end (refl, tt)

abbrev error_of : ℕ → Option (Option Bytes)
error_of n = some (some (text "timeout"))

abbrev is_first : ℕ → Bool
is_first n = n == 0

increment_tool_metrics_example :
    let v = increment_tool_metrics is_first error_of (0 ∷ 4 ∷ []) no_requests in
    (wrap64 v.tool_invocations_total ≡ 2)
    × (wrap64 v.tool_failures_total ≡ 1)
    × (wrap64 v.tool_timeouts_total ≡ 1)
unfolding ◌==ᵇ◌ text
increment_tool_metrics_example =
    increment_tool_metrics_lem is_first error_of (0 ∷ 4 ∷ []) no_requests

count_responses_example :
    let v = count_responses (200 ∷ 404 ∷ []) no_requests in
    (wrap64 v.requests_total ≡ 2) × (wrap64 v.requests_errors ≡ 1)
count_responses_example = count_responses_lem (200 ∷ 404 ∷ []) no_requests

make_runtime_example :
    let e = (make_runtime {T = ℕ} 64 100 service).continuation_executor in
    (2 ≤ length e.workers) × (length e.workers ≤ 4) × (32 ≤ e.max_pending_tasks)
make_runtime_example = make_runtime_lem ℕ 64 100 service

abbrev small_runtime : ServerRuntime Message ℕ
small_runtime = make_runtime 2 4 service
