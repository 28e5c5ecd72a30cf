-- ===== src/Executor/Schedule.antt =====
-- The threads of the executor in any order. `accepted` and `started` are the tasks that `submit`
-- took and those that a worker took, in order.
use zoo_keeper_server.Prelude.{
  ℕ, suc, zero, ◌≤◌, ◌≡◌, ◌≢◌, refl, sym, ap, ◌∙◌, inl, inr, Bool, true, false, some, List, [], ◌∷◌,
  ◌++◌, if◌then◌else◌, ◌==◌, text, leb, length, length-append, All, All-weaken, arith, Bool-cases,
}
use mathlib.Core.List.{append_assoc, append-nil}
use zoo_keeper_server.Api.{err, is_ok}
use zoo_keeper_server.Executor.{
  Worker, idle, exited, running, BoundedExecutor, make_executor, idle_workers, submit, stop,
  take_task,
}

pub record World (T : Type 0) : Type 0 where
  pub executor : BoundedExecutor T
  pub accepted : List T
  pub started : List T

module _ {T : Type 0} where
  -- The task of a worker that has just taken one.
  abbrev pub taken : Worker T → List T
  taken (running task) = task ∷ []
  taken _ = []

  pub data Step (w v : World T) : Type 0 where
    submits :
        (task : T)
        → v ≡ record w {
          executor = (submit task w.executor).0;
          accepted = w.accepted ++ (if is_ok (submit task w.executor).1 then task ∷ [] else []);
        }
        → Step w v
    wakes :
        (before after : List (Worker T)) (next : Worker T) (tasks : List T)
        → w.executor.workers ≡ before ++ (idle ∷ after)
        → take_task w.executor.stopping w.executor.tasks ≡ some (next, tasks)
        → v ≡ record w {
          executor = record w.executor { tasks = tasks; workers = before ++ (next ∷ after) };
          started = w.started ++ taken next;
        }
        → Step w v
    finishes :
        (before after : List (Worker T)) (task : T)
        → w.executor.workers ≡ before ++ (running task ∷ after)
        → v ≡ record w { executor = record w.executor { workers = before ++ (idle ∷ after) } }
        → Step w v
    stops : v ≡ record w { executor = stop w.executor } → Step w v

  pub data Reach (w : World T) : World T → Type 0 where
    here : Reach w w
    next : {u v : World T} → Reach w u → Step u v → Reach w v

  abbrev pub start : ℕ → ℕ → World T
  start worker_count max_pending = record {
    executor = make_executor worker_count max_pending;
    accepted = [];
    started = [];
  }

  -- A worker that has exited has left nothing behind.
  abbrev pub ExitedLast : Bool → List T → Worker T → Type 0
  ExitedLast stopping tasks exited = (stopping ≡ true) × (tasks ≡ [])
  ExitedLast stopping tasks _ = Unit

  pub record Inv (w : World T) : Type 0 where
    pub fifo : w.accepted ≡ w.started ++ w.executor.tasks
    pub bounded : length w.executor.tasks ≤ w.executor.max_pending_tasks
    pub exits : All (ExitedLast w.executor.stopping w.executor.tasks) w.executor.workers
    pub staffed : w.executor.workers ≢ []

  All-middle {κ} :
      (P : Worker T → Type κ) (xs ys : List (Worker T)) (x y : Worker T)
      → P y
      → All P (xs ++ (x ∷ ys))
      → All P (xs ++ (y ∷ ys))
  All-middle P [] ys x y p h = (p, h.1)
  All-middle P (z ∷ xs) ys x y p h = (h.0, All-middle P xs ys x y p h.1)

  middle_staffed : (xs ys : List (Worker T)) (x : Worker T) → xs ++ (x ∷ ys) ≢ []
  middle_staffed [] ys x e = cc
  middle_staffed (z ∷ xs) ys x e = cc

  -- Before the stop no worker has exited.
  no_exit :
      (stopping : Bool) (tasks more : List T)
      → stopping ≡ false
      → (a : Worker T) → ExitedLast stopping tasks a
      → ExitedLast false more a
  no_exit stopping tasks more e idle h = tt
  no_exit stopping tasks more e exited h = cc (h.0)
  no_exit stopping tasks more e (running t) h = tt

  submit-Inv :
      (w : World T) (task : T)
      → Inv w
      → Inv (record w {
        executor = (submit task w.executor).0;
        accepted = w.accepted ++ (if is_ok (submit task w.executor).1 then task ∷ [] else []);
      })
  unfolding submit
  submit-Inv w task v = elim (Bool-cases w.executor.stopping) [
    | inl e ↦ simp (e, append-nil) v
    | inr e ↦
        simp e (elim (Bool-cases (leb w.executor.max_pending_tasks (length w.executor.tasks))) [
          | inl f ↦ simp (f, append-nil) v
          | inr f ↦ simp f (record {
            fifo =
                ap (λ (t : List T). t ++ (task ∷ [])) v.fifo
                ∙ append_assoc w.started w.executor.tasks (task ∷ []);
            bounded = ground (arith, length-append w.executor.tasks (task ∷ []));
            exits =
                All-weaken (ExitedLast w.executor.stopping w.executor.tasks)
                  (ExitedLast false (w.executor.tasks ++ (task ∷ [])))
                  (no_exit w.executor.stopping w.executor.tasks _ e) w.executor.workers v.exits;
            staffed = v.staffed;
          })
        ])
  ]

  take_task_tasks :
      (stopping : Bool) (tasks : List T) (state : Worker T) (rest : List T)
      → take_task stopping tasks ≡ some (state, rest)
      → tasks ≡ taken state ++ rest
  unfolding take_task
  take_task_tasks stopping [] state rest e = ground arith
  take_task_tasks stopping (task ∷ tasks) state rest e = ground arith

  -- While a task waits no worker has exited.
  none_exited :
      (stopping : Bool) (task : T) (tasks rest : List T) (a : Worker T)
      → ExitedLast stopping (task ∷ tasks) a
      → ExitedLast stopping rest a
  none_exited stopping task tasks rest idle h = tt
  none_exited stopping task tasks rest exited h = cc (h.1)
  none_exited stopping task tasks rest (running t) h = tt

  -- The worker that takes may exit; the others' exits stand.
  take_task_exits :
      (stopping : Bool) (tasks : List T) (state : Worker T) (rest : List T)
      → take_task stopping tasks ≡ some (state, rest)
      → ExitedLast stopping rest state
        × ((a : Worker T) → ExitedLast stopping tasks a → ExitedLast stopping rest a)
  unfolding take_task
  take_task_exits true [] state rest e =
      let s : exited ≡ state = cc in
      let r : [] ≡ rest = cc in rw (← s, ← r) ((refl, refl), λ a h. h)
  take_task_exits false [] state rest e = cc
  take_task_exits stopping (task ∷ tasks) state rest e =
      let s : running task ≡ state = cc in rw (← s) (tt, none_exited stopping task tasks rest)

  take-Inv :
      (w : World T) (before after : List (Worker T)) (state : Worker T) (tasks : List T)
      → w.executor.workers ≡ before ++ (idle ∷ after)
      → take_task w.executor.stopping w.executor.tasks ≡ some (state, tasks)
      → Inv w
      → Inv (record w {
        executor = record w.executor { tasks = tasks; workers = before ++ (state ∷ after) };
        started = w.started ++ taken state;
      })
  take-Inv w before after state tasks at took v =
      let stopping = w.executor.stopping in
      let split = take_task_tasks stopping w.executor.tasks state tasks took in
      let exits = take_task_exits stopping w.executor.tasks state tasks took in
      let workers : All (ExitedLast stopping w.executor.tasks) (before ++ (idle ∷ after)) =
        rw at at v.exits in
      record {
        fifo =
            v.fifo
            ∙ ap (λ (t : List T). w.started ++ t) split
            ∙ sym (append_assoc w.started (taken state) tasks);
        bounded = omega (arith, v.bounded, ap length split, length-append (taken state) tasks);
        exits = All-middle (ExitedLast stopping tasks) before after idle state exits.0 (
            All-weaken (ExitedLast stopping w.executor.tasks) (ExitedLast stopping tasks) exits.1
              (before ++ (idle ∷ after)) workers);
        staffed = middle_staffed before after state;
      }

  stop_exits :
      (stopping : Bool) (tasks : List T) (a : Worker T)
      → ExitedLast stopping tasks a
      → ExitedLast true tasks a
  stop_exits stopping tasks idle h = tt
  stop_exits stopping tasks exited h = (refl, h.1)
  stop_exits stopping tasks (running t) h = tt

  Step-Inv : {w v : World T} → Step w v → Inv w → Inv v
  unfolding stop
  Step-Inv {w} (submits task e) v = rw e (submit-Inv w task v)
  Step-Inv {w} (wakes before after state tasks at took e) v =
      rw e (take-Inv w before after state tasks at took v)
  Step-Inv {w} (finishes before after task at e) v =
      let workers : All (ExitedLast w.executor.stopping w.executor.tasks)
          (before ++ (running task ∷ after)) =
        rw at at v.exits in
      rw e (record {
        fifo = v.fifo;
        bounded = v.bounded;
        exits =
            All-middle (ExitedLast w.executor.stopping w.executor.tasks) before after (running task)
              idle tt workers;
        staffed = middle_staffed before after idle;
      })
  Step-Inv {w} (stops e) v = rw e (elim (Bool-cases w.executor.stopping) [
    | inl g ↦ simp g v
    | inr g ↦ simp g (record {
      fifo = v.fifo;
      bounded = v.bounded;
      exits =
          All-weaken (ExitedLast w.executor.stopping w.executor.tasks)
            (ExitedLast true w.executor.tasks) (stop_exits w.executor.stopping w.executor.tasks)
            w.executor.workers v.exits;
      staffed = v.staffed;
    })
  ])

  idle_exits : (tasks : List T) (n : ℕ) → All (ExitedLast false tasks) (idle_workers n)
  unfolding idle_workers
  idle_exits tasks zero = tt
  idle_exits tasks (suc n) = (tt, idle_exits tasks n)

  idle_staffed :
      (worker_count : ℕ) → idle_workers {T = T} (if worker_count == 0 then 1 else worker_count) ≢ []
  unfolding idle_workers
  idle_staffed zero e = cc
  idle_staffed (suc n) e = ground arith

  start-Inv : (worker_count max_pending : ℕ) → Inv (start worker_count max_pending)
  unfolding make_executor
  start-Inv worker_count max_pending = record {
    fifo = refl;
    bounded = omega arith;
    exits = idle_exits [] (if worker_count == 0 then 1 else worker_count);
    staffed = idle_staffed worker_count;
  }

  first_exited :
      (stopping : Bool) (tasks : List T) (workers : List (Worker T))
      → workers ≢ []
      → All (λ a. a ≡ exited) workers
      → All (ExitedLast stopping tasks) workers
      → (stopping ≡ true) × (tasks ≡ [])
  first_exited stopping tasks [] h a e = absurd (h refl)
  first_exited stopping tasks (x ∷ xs) h a e = rw a.0 at e.0

  submit_stopping :
      (task : T) (e : BoundedExecutor T)
      → e.stopping ≡ true
      → submit task e ≡ (e, err (text "Executor is stopping"))
  unfolding submit
  submit_stopping task e h = simp h

  -- After any run of submitters, workers and a stop, the tasks that were accepted are those that
  -- were started, in the order of submission, and then those that wait, never more than
  -- the limit; and a worker has exited only after a stop, with no task left.
  pub Reach-Fifo :
      (worker_count max_pending : ℕ) {v : World T}
      → Reach (start worker_count max_pending) v
      → Inv v
  Reach-Fifo worker_count max_pending here = start-Inv worker_count max_pending
  Reach-Fifo worker_count max_pending (next r s) =
      Step-Inv s (Reach-Fifo worker_count max_pending r)

  -- When every worker has exited, which is what `stop` waits for, every accepted task was started,
  -- once and in order, and the executor accepts no more.
  pub drained :
      (worker_count max_pending : ℕ) {v : World T}
      → Reach (start worker_count max_pending) v
      → All (λ a. a ≡ exited) v.executor.workers
      → (v.started ≡ v.accepted)
        × ((task : T) → submit task v.executor ≡ (v.executor, err (text "Executor is stopping")))
  drained worker_count max_pending {v} r all =
      let i = Reach-Fifo worker_count max_pending r in
      let (halted, nothing) =
        first_exited v.executor.stopping v.executor.tasks v.executor.workers i.staffed all
          i.exits in
      (
        sym (i.fifo ∙ ap (λ (t : List T). v.started ++ t) nothing ∙ append-nil v.started),
        λ task. submit_stopping task v.executor halted,
      )
