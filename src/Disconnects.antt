-- ===== src/Disconnects.antt =====
-- `DisconnectRegistry` of src/server/api_routes.hpp and api_routes.cpp: what to call when a
-- connection is lost. A connection is told from others by a number, as by the pointer that is the
-- key of the map; `F` stands for the callbacks. The order of a map's entries has no meaning.
pub mod Maps
pub mod Tracked
use zoo_keeper_server.Prelude.{
  ℕ, ◌+◌, Bool, not, Option, none, some, List, [], ◌∷◌, if◌then◌else◌, ◌==◌, is_empty, has_value,
  wrap64,
}

-- `unordered_map` with a number as its key.
module _ {A : Type 0} where
  unfoldable pub find : ℕ → List (ℕ × A) → Option A
  find k [] = none
  find k ((j, a) ∷ m) = if j == k then some a else find k m

  unfoldable pub erase : ℕ → List (ℕ × A) → List (ℕ × A)
  erase k [] = []
  erase k ((j, a) ∷ m) = if j == k then erase k m else (j, a) ∷ erase k m

  abbrev pub put : ℕ → A → List (ℕ × A) → List (ℕ × A)
  put k a m = (k, a) ∷ erase k m

  -- `emplace` keeps an entry that is there.
  abbrev pub emplace : ℕ → A → List (ℕ × A) → List (ℕ × A)
  emplace k a m = if has_value (find k m) then m else (k, a) ∷ m

pub record DisconnectRegistry (F : Type 0) : Type 0 where
  pub next_callback_id : ℕ
  pub callbacks : List (ℕ × List (ℕ × F))

abbrev pub empty_registry : {F : Type 0} → DisconnectRegistry F
empty_registry = record { next_callback_id = 1; callbacks = [] }

module _ {F : Type 0} where
  -- `callbacks_[connection]`, which is empty where there is no entry.
  abbrev pub entry : Option (List (ℕ × F)) → List (ℕ × F)
  entry none = []
  entry (some m) = m

  unfoldable pub track : ℕ → F → DisconnectRegistry F → DisconnectRegistry F × ℕ
  track connection on_disconnect r =
      let callback_id = r.next_callback_id in
      (
        record r {
          next_callback_id = wrap64 (callback_id + 1);
          callbacks =
              put connection
                (emplace callback_id on_disconnect (entry (find connection r.callbacks)))
                r.callbacks;
        },
        callback_id,
      )

  -- The map of a connection goes with its last callback.
  unfoldable pub clear : ℕ → ℕ → DisconnectRegistry F → DisconnectRegistry F
  clear connection callback_id r = elim (find connection r.callbacks) [
    | none ↦ r
    | some m ↦
        let m' = erase callback_id m in
        record r {
          callbacks =
              if is_empty m' then erase connection r.callbacks else put connection m' r.callbacks;
        }
  ]

  abbrev pub values : List (ℕ × F) → List F
  values [] = []
  values ((i, f) ∷ m) = f ∷ values m

  -- The callbacks to call, in some order. `connection` is `none` for a null pointer.
  unfoldable pub handle_connection_event :
      Option ℕ → Bool → DisconnectRegistry F → DisconnectRegistry F × List F
  handle_connection_event none disconnected r = (r, [])
  handle_connection_event (some connection) disconnected r =
      if not disconnected then (r, []) else elim (find connection r.callbacks) [
        | none ↦ (r, [])
        | some m ↦ (record r { callbacks = erase connection r.callbacks }, values m)
      ]
