-- ===== src/Handle.antt =====
-- The handles of src/server/api_types.hpp and api_types.cpp: a future whose result is taken once.
-- `CompletionHandle` and `ExtractionHandle` are the same code at two result types, told apart by
-- `kind`, the first word of their messages. What the future yields is an argument.
pub mod Once
use zoo_keeper_server.Prelude.{
  ℕ, Bytes, Bool, true, false, Option, none, some, if◌then◌else◌, text, ◌++◌,
}
use zoo_keeper_server.Api.{Expected, err}

-- `future_status`, as far as it is used.
pub data FutureStatus : Type 0 where
  ready timeout : FutureStatus

-- `CompletionState`; the future has a value from some time on.
pub record HandleState (R : Type 0) : Type 0 where
  pub future : R
  pub future_ready : Bool
  pub consumed : Bool

-- `zoo::Error`: the code, of which `Unknown` is used here, and the message.
pub record UnknownError : Type 0 where
  pub message : Bytes

pub record Handle (R : Type 0) : Type 0 where
  pub id : ℕ
  pub state : Option (HandleState (Expected UnknownError R))

module _ {R : Type 0} where
  unfoldable pub make_handle : ℕ → Expected UnknownError R → Bool → Handle R
  make_handle id future is_done = record {
    id = id;
    state = some (record { future = future; future_ready = is_done; consumed = false });
  }

  unfoldable pub wait_for : Handle R → FutureStatus
  wait_for h = elim h.state [
    | none ↦ ready
    | some s ↦ if s.consumed then ready else if s.future_ready then ready else timeout
  ]

  -- `get` waits until the future has its value.
  unfoldable pub get : Bytes → Handle R → Handle R × Expected UnknownError R
  get kind h = elim h.state [
    | none ↦ (h, err (record { message = kind ++ text " handle is not ready" }))
    | some s ↦
        if s.consumed
        then (h, err (record { message = kind ++ text " result was already consumed" }))
        else (
          record h { state = some (record s { future_ready = true; consumed = true }) },
          s.future,
        )
  ]
