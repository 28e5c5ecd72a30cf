-- ===== src/Chat/Start.antt =====
-- The methods of `ZooChatService` that start a request, and what becomes of it: the observer of
-- its result, and the lease whose release cleans up after it once.
use zoo_keeper_server.Prelude.{
  ℕ, ◌+◌, Bytes, Bool, true, false, not, Option, none, some, List, [], ◌∷◌, ◌++◌, if◌then◌else◌,
  ◌==ᵇ◌, text, to_string, wrap64,
}
use zoo_keeper_server.Api.{
  MessageApi, Role, Expected, ok, err, ApiResult, invalid_request_error, ChatCompletionRequest,
  CompletionResult,
}
use zoo_keeper_server.Session.Store.{
  begin_request, commit_result, commit_response_text, release_request, unknown_model,
  BeginRequestResult,
}
use zoo_keeper_server.Chat.{
  Service, AgentCall, complete, extract, call, not_ready, prepare_messages, track_session_request,
  untrack_session_request, register_public_request, unregister_public_request,
}

-- A chat completion or an extraction: the call of the agent, and the prefix of the public number.
pub data Kind : Type 0 where
  completion extraction : Kind

abbrev pub prefix : Kind → Bytes
prefix completion = text "chatcmpl-"
prefix extraction = text "extract-"

abbrev pub agent_call : {M : Type 0} → Kind → List M → AgentCall M
agent_call completion messages = complete messages
agent_call extraction messages = extract messages

-- What the closure `on_result` captures.
pub data Observer (M : Type 0) : Type 0 where
  ignores : Observer M
  commits : Kind → Bytes → ℕ → M → Observer M
  extends : M → Observer M

-- What the closure of the lease captures, and whether it has run.
pub record Lease : Type 0 where
  pub request_id : Bytes
  pub session : Option (Bytes × ℕ)
  pub released : Bool

pub record Pending (M : Type 0) : Type 0 where
  pub id : Bytes
  pub created : ℕ
  pub model : Bytes
  pub handle_id : ℕ
  pub on_result : Observer M
  pub lease : Lease

-- The body of the lease's callback; a session's part is a lease of its own in the source.
abbrev pub clean_up : {M : Type 0} → ℕ → Bytes → Option (Bytes × ℕ) → Service M → Service M
clean_up now request_id none s = unregister_public_request request_id s
clean_up now request_id (some (session_id, tracking_id)) s =
    let s' = untrack_session_request session_id (unregister_public_request request_id s) in
    record s' { store = release_request now session_id tracking_id s'.store }

-- `CompletionLease::release`: the callback runs at the first call alone. `now` is the clock when
-- the session is touched.
unfoldable pub release : {M : Type 0} → ℕ → Lease → Service M → Lease × Service M
release now l s =
    if l.released
    then (l, s)
    else (record l { released = true }, clean_up now l.request_id l.session s)

module _ {M : Type 0} ⦃api : MessageApi M⦄ where
  -- The number of the request in `next_completion_id_`, and the counter moved on.
  abbrev pub after_id : Service M → Service M
  after_id s = record s { next_completion_id = wrap64 (s.next_completion_id + 1) }

  -- `start_completion` and `start_extraction` without a session: `zoo_id` is the number that the
  -- agent gives to the request, `now` the time when it has it.
  unfoldable pub start_plain :
      Kind → Bool → ℕ → ℕ → ChatCompletionRequest M → Service M → Service M × ApiResult (Pending M)
  start_plain kind ready zoo_id now request s =
      if not ready
      then (s, err not_ready)
      else if not (request.model ==ᵇ s.model_id)
      then (s, err (unknown_model request.model))
      else let messages = prepare_messages s.request_system_prompt request.messages in
        let id = prefix kind ++ to_string s.next_completion_id in
        (
          register_public_request id zoo_id (after_id (call (agent_call kind messages) s)),
          ok (record {
            id = id;
            created = now;
            model = s.model_id;
            handle_id = zoo_id;
            on_result = ignores;
            lease = record { request_id = id; session = none; released = false };
          }),
        )

  -- What follows a `begin_request` that succeeded.
  unfoldable pub start_begun :
      Kind → ℕ → ℕ → Bytes → BeginRequestResult M → Service M → Service M × Pending M
  start_begun kind zoo_id tracking_id session_id begun s =
      let id = prefix kind ++ to_string tracking_id in
      (
        register_public_request id zoo_id
            (track_session_request session_id zoo_id (call (agent_call kind begun.messages) s)),
        record {
          id = id;
          created = begun.started_at;
          model = s.model_id;
          handle_id = zoo_id;
          on_result = commits kind session_id tracking_id begun.user_message;
          lease = record {
            request_id = id;
            session = some (session_id, tracking_id);
            released = false;
          };
        },
      )

  -- `start_session_completion` and `start_session_extraction`; the last takes over the model, the
  -- messages and the session from its request.
  unfoldable pub start_session :
      Kind
      → Bool
      → ℕ
      → ℕ
      → ℕ
      → ℕ
      → Bytes
      → ChatCompletionRequest M
      → Service M
      → Service M × ApiResult (Pending M)
  start_session kind ready zoo_id reaped started now session_id request s =
      if not ready
      then (s, err not_ready)
      else let tracking_id = s.next_completion_id in
        let (store', begin) = begin_request reaped started now request tracking_id s.store in
        let s' = record (after_id s) { store = store' } in
        elim begin [
          | err e ↦ (s', err e)
          | ok begun ↦
              let (s'', pending) = start_begun kind zoo_id tracking_id session_id begun s' in
              (s'', ok pending)
        ]

  -- `start_completion` and `start_extraction`.
  unfoldable pub start_request :
      Kind
      → Bool
      → ℕ
      → ℕ
      → ℕ
      → ℕ
      → ChatCompletionRequest M
      → Service M
      → Service M × ApiResult (Pending M)
  start_request kind ready zoo_id reaped started now request s = elim request.session_id [
    | none ↦ start_plain kind ready zoo_id now request s
    | some session_id ↦ start_session kind ready zoo_id reaped started now session_id request s
  ]

  -- `start_agent_chat`, on the history that the service retains.
  unfoldable pub start_agent_chat :
      (List M → Role → Option Bytes)
      → Bool
      → ℕ
      → ℕ
      → Bytes
      → M
      → Service M
      → Service M × ApiResult (Pending M)
  start_agent_chat validate ready zoo_id now model message s =
      if not ready
      then (s, err not_ready)
      else if not (model ==ᵇ s.model_id)
      then (s, err (unknown_model model))
      else elim (validate s.agent_history (api.role message)) [
        | some reason ↦ (
          s,
          err (
              invalid_request_error reason (some (text "message"))
                (some (text "invalid_message_sequence"))),
        )
        | none ↦
            let id = text "chatcmpl-" ++ to_string s.next_completion_id in
            (
              register_public_request id zoo_id
                  (after_id (call (complete (s.agent_history ++ (message ∷ []))) s)),
              ok (record {
                id = id;
                created = now;
                model = s.model_id;
                handle_id = zoo_id;
                on_result = extends message;
                lease = record { request_id = id; session = none; released = false };
              }),
            )
      ]

  -- The call of `on_result`; the text of a successful result is all that it uses.
  unfoldable pub observe :
      {E : Type 0} → ℕ → Observer M → Expected E CompletionResult → Service M → Service M
  observe now ignores result s = s
  observe now (commits completion session_id tracking_id user_message) result s =
      let s' = untrack_session_request session_id s in
      record s' { store = commit_result now session_id tracking_id user_message result s'.store }
  observe now (commits extraction session_id tracking_id user_message) (err e) s =
      let s' = untrack_session_request session_id s in
      record s' {
        store =
            commit_response_text {E = Unit {0}} now session_id tracking_id user_message (err tt)
              s'.store;
      }
  observe now (commits extraction session_id tracking_id user_message) (ok result) s =
      let s' = untrack_session_request session_id s in
      record s' {
        store =
            commit_response_text {E = Unit {0}} now session_id tracking_id user_message
              (ok result.text) s'.store;
      }
  observe now (extends message) (err e) s = s
  observe now (extends message) (ok result) s = record s {
    agent_history = s.agent_history ++ (message ∷ api.assistant result.text ∷ []);
  }

  -- `finalize_completion` and `finalize_extraction`: the result is observed, then the lease ends.
  unfoldable pub finalize :
      {E : Type 0} → ℕ → ℕ → Pending M → Expected E CompletionResult → Service M → Service M
  finalize now later pending result s =
      (release later pending.lease (observe now pending.on_result result s)).1
