-- ===== src/Runtime/Stopping.antt =====
-- The sizes of the executor in src/server/runtime.cpp.
use zoo_keeper_server.Prelude.{ℕ, ◌≤◌, ◌≡◌, refl, if◌then◌else◌, length, arith, zero, suc, ◌==◌}
use zoo_keeper_server.Chat.{Service}
use zoo_keeper_server.Executor.{idle_workers, make_executor}
use zoo_keeper_server.Runtime.{continuation_worker_count, continuation_queue_depth, make_runtime}

length-idle_workers : (T : Type 0) (n : ℕ) → length (idle_workers {T = T} n) ≡ n
unfolding idle_workers
length-idle_workers T zero = refl
length-idle_workers T (suc n) = omega (arith, length-idle_workers T n)

-- The runtime starts between two and four workers, with room for at least 32 waiting tasks,
-- whatever the machine reports and the configuration asks for.
pub make_runtime_lem :
    {M : Type 0} (T : Type 0) (hardware_threads request_queue_capacity : ℕ) (service : Service M)
    → let e =
        (make_runtime {T = T} hardware_threads request_queue_capacity
          service).continuation_executor in
      (2 ≤ length e.workers) × (length e.workers ≤ 4) × (32 ≤ e.max_pending_tasks)
unfolding make_runtime make_executor continuation_worker_count continuation_queue_depth
make_runtime_lem T h c service =
    rw
      (length-idle_workers T
        (if continuation_worker_count h == 0 then 1 else continuation_worker_count h))
      (ground arith)
