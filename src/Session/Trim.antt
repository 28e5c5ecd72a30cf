-- ===== src/Session/Trim.antt =====
-- `make_initial_history` and `trim_history_to_fit` of src/server/session_manager.cpp, and
-- `combine_system_prompts` of src/server/internal_utils.hpp.
pub mod Laws
use zoo_keeper_server.Prelude.{
  ℕ, suc, ◌+◌, ◌-◌, ◌^◌, Bytes, true, false, Option, none, some, List, [], ◌∷◌, ◌++◌, text,
  is_empty, if◌then◌else◌, leb, ltb, length, take, drop, wrap64,
}
use zoo_keeper_server.Api.{MessageApi, is_system, is_user}

unfoldable pub combine_system_prompts : Bytes → Bytes → Bytes
combine_system_prompts base request =
    if is_empty base
    then request
    else if is_empty request
    then base
    else base ++ (text "\n\n" ++ request)

-- `std::optional::value_or("")`.
abbrev pub value_or_empty : Option Bytes → Bytes
value_or_empty none = []
value_or_empty (some t) = t

module _ {M : Type 0} ⦃api : MessageApi M⦄ where
  unfoldable pub make_initial_history : Bytes → Option Bytes → List M
  make_initial_history base request =
      let effective = combine_system_prompts base (value_or_empty request) in
      if is_empty effective then [] else api.system effective ∷ []

  -- `!messages.empty() && messages.front().role == MessageRole::System ? 1 : 0`.
  unfoldable pub system_offset : List M → ℕ
  system_offset [] = 0
  system_offset (m ∷ ms) = if is_system (api.role m) then 1 else 0

  -- The `while` loop: the first position of `rest` that holds a user message, counted from
  -- `erase_end`; `rest` is the part of the history from `erase_end` on.
  unfoldable pub skip_to_user : ℕ → List M → ℕ
  skip_to_user erase_end [] = erase_end
  skip_to_user erase_end (m ∷ rest) = elim (is_user (api.role m)) [
    | true ↦ erase_end
    | false ↦ skip_to_user (suc erase_end) rest
  ]

  -- `size_t` arithmetic wraps.
  unfoldable pub trim_history_to_fit : List M → ℕ → List M
  trim_history_to_fit messages max_history_messages =
      let offset = system_offset messages in
      let first = wrap64 (length messages + 2 ^ 64 - max_history_messages) in
      let lower = if ltb first offset then offset else first in
      let erase_end = skip_to_user lower (drop lower messages) in
      if leb (length messages) (wrap64 (offset + max_history_messages))
      then messages
      else if leb erase_end offset
      then messages
      else take offset messages ++ drop erase_end messages
