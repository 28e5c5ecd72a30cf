-- ===== src/Chat.antt =====
-- `ZooChatService` of src/server/chat_service.hpp and chat_service.cpp, one function for each
-- method; `zoo_keeper_server.Chat.Start` has those that start a request. The agent belongs to the
-- zoo-keeper library: whether it runs, and the number that it gives to a request, are arguments,
-- and the calls that the service makes of it are kept in order in `calls`. The generation options
-- only pass through to it and are left out, as are the token callbacks. A closure that the service
-- hands out is the data that it captures.
pub mod Start
pub mod History
pub mod Cleanup
use zoo_keeper_server.Prelude.{
  ℕ, suc, ◌+◌, ◌/◌, Bytes, Bool, true, false, not, Option, none, some, List, [], ◌∷◌, ◌++◌,
  if◌then◌else◌, ltb, ◌==◌, ◌==ᵇ◌, is_empty, length, text,
}
use zoo_keeper_server.Api.{
  MessageApi, Role, is_system, Expected, ok, err, ApiResult, ApiError, invalid_request_error,
  service_unavailable_error, not_found_error, SessionCreateRequest, SessionSummary,
}
use zoo_keeper_server.Session.Trim.{combine_system_prompts}
use zoo_keeper_server.Session.Store.{
  Store, create_session as store_create_session, get_session as store_get_session,
  delete_session as store_delete_session, set_base_system_prompt, reap_expired_sessions,
  stop as store_stop,
}

pub data AgentCall (M : Type 0) : Type 0 where
  complete extract : List M → AgentCall M
  cancel : ℕ → AgentCall M
  set_agent_prompt : Bytes → AgentCall M
  stop_agent : AgentCall M

pub record Service (M : Type 0) : Type 0 where
  pub model_id : Bytes
  pub context_size : ℕ
  pub request_system_prompt : Bytes
  pub store : Store M
  pub next_completion_id : ℕ
  pub active_session_requests : List (Bytes × ℕ)
  -- A canceller calls `cancel` on the agent with the number that it captured.
  pub public_request_cancellers : List (Bytes × ℕ)
  pub agent_history : List M
  pub calls : List (AgentCall M)

-- `unordered_map` with at most one entry for a key.
module _ {A : Type 0} where
  unfoldable pub lookup : Bytes → List (Bytes × A) → Option A
  lookup k [] = none
  lookup k ((j, a) ∷ m) = if j ==ᵇ k then some a else lookup k m

  unfoldable pub remove : Bytes → List (Bytes × A) → List (Bytes × A)
  remove k [] = []
  remove k ((j, a) ∷ m) = if j ==ᵇ k then remove k m else (j, a) ∷ remove k m

  abbrev pub assign : Bytes → A → List (Bytes × A) → List (Bytes × A)
  assign k a m = (k, a) ∷ remove k m

abbrev pub not_ready : ApiError
not_ready = service_unavailable_error (text "Server runtime is not ready") (some (text "not_ready"))

abbrev pub agent_not_ready : ApiError
agent_not_ready =
    service_unavailable_error (text "Server runtime is not ready") (some (text "agent_not_ready"))

abbrev pub unknown_request : Bytes → ApiError
unknown_request id =
    not_found_error (text "Unknown request: " ++ id) (some (text "request_not_found"))

module _ {M : Type 0} where
  abbrev pub call : AgentCall M → Service M → Service M
  call c s = record s { calls = s.calls ++ (c ∷ []) }

  unfoldable pub track_session_request : Bytes → ℕ → Service M → Service M
  track_session_request session_id zoo_request_id s = record s {
    active_session_requests = assign session_id zoo_request_id s.active_session_requests;
  }

  unfoldable pub untrack_session_request : Bytes → Service M → Service M
  untrack_session_request session_id s = record s {
    active_session_requests = remove session_id s.active_session_requests;
  }

  unfoldable pub register_public_request : Bytes → ℕ → Service M → Service M
  register_public_request request_id zoo_request_id s = record s {
    public_request_cancellers = assign request_id zoo_request_id s.public_request_cancellers;
  }

  unfoldable pub unregister_public_request : Bytes → Service M → Service M
  unregister_public_request request_id s = record s {
    public_request_cancellers = remove request_id s.public_request_cancellers;
  }

  unfoldable pub cancel_request : Bytes → Service M → Service M × ApiResult (Unit {0})
  cancel_request request_id s = elim (lookup request_id s.public_request_cancellers) [
    | none ↦ (s, err (unknown_request request_id))
    | some zoo_request_id ↦ (call (cancel zoo_request_id) s, ok tt)
  ]

  -- `zoo_request_id != 0 && agent_`; the service always has an agent.
  abbrev pub cancel_active : Option ℕ → Bytes → Service M → Service M
  cancel_active none session_id s = s
  cancel_active (some zoo_request_id) session_id s =
      let s' = record s { active_session_requests = remove session_id s.active_session_requests } in
      if zoo_request_id == 0 then s' else call (cancel zoo_request_id) s'

  unfoldable pub delete_session : Bytes → Service M → Service M × ApiResult (Unit {0})
  delete_session session_id s =
      let (store', result) = store_delete_session session_id s.store in
      let s' = record s { store = store' } in
      elim result [
        | err e ↦ (s', err e)
        | ok _ ↦ (cancel_active (lookup session_id s.active_session_requests) session_id s', ok tt)
      ]

  unfoldable pub get_session : ℕ → Bytes → Service M → Service M × ApiResult SessionSummary
  get_session now session_id s =
      let (store', result) = store_get_session now session_id s.store in
      (record s { store = store' }, result)

  unfoldable pub get_system_prompt : Service M → Bytes
  get_system_prompt s = s.request_system_prompt

  unfoldable pub reap_sessions : ℕ → Service M → Service M
  reap_sessions now s = record s { store = reap_expired_sessions now s.store }

  unfoldable pub stop : Service M → Service M
  stop s = call stop_agent (record s { store = store_stop s.store })

-- `AgentHistorySnapshot`. The count is an `int` in the source and does not overflow here.
pub record AgentHistorySnapshot (M : Type 0) : Type 0 where
  pub messages : List M
  pub estimated_tokens : ℕ
  pub context_size : ℕ
  pub context_exceeded : Bool

module _ {M : Type 0} ⦃api : MessageApi M⦄ where
  unfoldable pub create_session :
      Bool → ℕ → SessionCreateRequest → Service M → Service M × ApiResult SessionSummary
  create_session ready now request s =
      if not ready
      then (s, err agent_not_ready)
      else let (store', result) = store_create_session now request s.store in
        (record s { store = store' }, result)

  unfoldable pub estimate_history_tokens : List M → ℕ
  estimate_history_tokens [] = 0
  estimate_history_tokens (m ∷ ms) = (length (api.content m) / 4 + 8) + estimate_history_tokens ms

  unfoldable pub snapshot_of : ℕ → List M → AgentHistorySnapshot M
  snapshot_of context_size messages =
      let estimated = estimate_history_tokens messages in
      record {
        messages = messages;
        estimated_tokens = estimated;
        context_size = context_size;
        context_exceeded = ltb context_size estimated;
      }

  abbrev pub make_agent_history_snapshot : Service M → AgentHistorySnapshot M
  make_agent_history_snapshot s = snapshot_of s.context_size s.agent_history

  unfoldable pub get_agent_history : Bool → Service M → ApiResult (AgentHistorySnapshot M)
  get_agent_history ready s =
      if not ready then err agent_not_ready else ok (make_agent_history_snapshot s)

  -- The message list of a prompt: none for the empty one.
  abbrev pub prompt_messages : Bytes → List M
  prompt_messages prompt = if is_empty prompt then [] else api.system prompt ∷ []

  unfoldable pub reset_agent_history_to_system_prompt : Service M → Service M
  reset_agent_history_to_system_prompt s = record s {
    agent_history = prompt_messages s.request_system_prompt;
  }

  unfoldable pub clear_agent_history : Bool → Service M → Service M × ApiResult (Unit {0})
  clear_agent_history ready s =
      if not ready
      then (s, err agent_not_ready)
      else (reset_agent_history_to_system_prompt s, ok tt)

  unfoldable pub replace_agent_history :
      Bool → List M → Service M → Service M × ApiResult (AgentHistorySnapshot M)
  replace_agent_history ready messages s =
      if not ready
      then (s, err agent_not_ready)
      else let s' = record s { agent_history = messages } in
        (s', ok (make_agent_history_snapshot s'))

  unfoldable pub swap_agent_history :
      Bool → List M → Service M → Service M × ApiResult (AgentHistorySnapshot M)
  swap_agent_history ready messages s =
      if not ready
      then (s, err agent_not_ready)
      else (record s { agent_history = messages }, ok (make_agent_history_snapshot s))

  -- The history of `update_system_prompt_state`, by its first message.
  abbrev pub with_prompt : Bytes → List M → List M
  with_prompt prompt [] = prompt_messages prompt
  with_prompt prompt (m ∷ ms) =
      if is_system (api.role m)
      then (if is_empty prompt then ms else api.with_content m prompt ∷ ms)
      else (if is_empty prompt then m ∷ ms else api.system prompt ∷ m ∷ ms)

  unfoldable pub update_system_prompt_state : Bytes → Service M → Service M
  update_system_prompt_state prompt s = record s {
    request_system_prompt = prompt;
    agent_history = with_prompt prompt s.agent_history;
  }

  unfoldable pub set_system_prompt : Bytes → Service M → Service M
  set_system_prompt prompt s =
      let s' = call (set_agent_prompt prompt) (update_system_prompt_state prompt s) in
      record s' { store = set_base_system_prompt prompt s'.store }

  -- The messages that are sent for a request outside a session.
  unfoldable pub prepare_messages : Bytes → List M → List M
  prepare_messages prompt [] = prompt_messages prompt
  prepare_messages prompt (m ∷ ms) =
      if is_empty prompt
      then m ∷ ms
      else if is_system (api.role m)
      then api.system (combine_system_prompts prompt (api.content m)) ∷ ms
      else api.system prompt ∷ m ∷ ms

  -- `validate_role_sequence` of the zoo-keeper library is the argument `validate`: the message of
  -- its refusal, if it refuses.
  unfoldable pub append_agent_history_message :
      (List M → Role → Option Bytes)
      → Bool
      → M
      → Service M
      → Service M × ApiResult (AgentHistorySnapshot M)
  append_agent_history_message validate ready message s =
      if not ready
      then (s, err agent_not_ready)
      else elim (validate s.agent_history (api.role message)) [
        | some reason ↦ (
          s,
          err (
              invalid_request_error reason (some (text "message"))
                (some (text "invalid_message_sequence"))),
        )
        | none ↦
            let s' = record s { agent_history = s.agent_history ++ (message ∷ []) } in
            (s', ok (make_agent_history_snapshot s'))
      ]
