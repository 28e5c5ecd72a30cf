-- ===== src/Executor.antt =====
-- `BoundedExecutor` of src/server/executor.hpp and executor.cpp: a queue with a limit, and the
-- workers that take tasks from it. What a task does is left out; `worker_loop` catches every
-- exception, so a worker goes on after each.
pub mod Schedule
use zoo_keeper_server.Prelude.{
  ℕ, zero, suc, Bytes, Bool, true, false, ◌||◌, ◌&&◌, not, Option, none, some, List, [], ◌∷◌, ◌++◌,
  if◌then◌else◌, leb, ◌==◌, length, is_empty, text,
}
use zoo_keeper_server.Api.{Expected, ok, err}

pub data Worker (T : Type 0) : Type 0 where
  idle exited : Worker T
  running : T → Worker T

pub record BoundedExecutor (T : Type 0) : Type 0 where
  pub max_pending_tasks : ℕ
  pub tasks : List T
  pub workers : List (Worker T)
  pub stopping : Bool

module _ {T : Type 0} where
  -- The loop that starts the threads.
  unfoldable pub idle_workers : ℕ → List (Worker T)
  idle_workers zero = []
  idle_workers (suc n) = idle ∷ idle_workers n

  unfoldable pub make_executor : ℕ → ℕ → BoundedExecutor T
  make_executor worker_count max_pending_tasks = record {
    max_pending_tasks = if max_pending_tasks == 0 then 1 else max_pending_tasks;
    tasks = [];
    workers = idle_workers (if worker_count == 0 then 1 else worker_count);
    stopping = false;
  }

  unfoldable pub submit : T → BoundedExecutor T → BoundedExecutor T × Expected Bytes (Unit {0})
  submit task e =
      if e.stopping
      then (e, err (text "Executor is stopping"))
      else if leb e.max_pending_tasks (length e.tasks)
      then (e, err (text "Executor queue is full"))
      else (record e { tasks = e.tasks ++ (task ∷ []) }, ok tt)

  -- The section of `stop` under the mutex; what follows waits until each worker has exited.
  unfoldable pub stop : BoundedExecutor T → BoundedExecutor T
  stop e = if e.stopping then e else record e { stopping = true }

  -- What an idle worker does under the mutex: `none` while it waits, else its next state and the
  -- tasks that are left.
  unfoldable pub take_task : Bool → List T → Option (Worker T × List T)
  take_task stopping [] = if stopping then some (exited, []) else none
  take_task stopping (task ∷ tasks) = some (running task, tasks)
