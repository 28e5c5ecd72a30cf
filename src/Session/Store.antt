-- ===== src/Session/Store.antt =====
-- `SessionStore` of src/server/session_manager.hpp and session_manager.cpp, one function for each
-- method. A `shared_ptr<SessionState>` is a reference into `heap`, which outlives the entry of the
-- map; a method that takes two locks is the composition of its two critical sections, which
-- `Interleave` runs in any order. Each reading of the clock is an argument, in seconds from the
-- epoch. The order of the map's entries has no meaning. Log lines are left out.
pub mod Entries
pub mod Interleave
pub mod Kept
pub mod Invariant
pub mod Requests
pub mod Lifetime
use zoo_keeper_server.Prelude.{
  ℕ, suc, ◌+◌, Bytes, Bool, true, false, not, ◌&&◌, Option, none, some, List, [], ◌∷◌, ◌++◌,
  if◌then◌else◌, leb, ltb, ◌==◌, ◌==ᵇ◌, has_value, length, text, to_string, wrap64,
}
use zoo_keeper_server.Api.{
  MessageApi, is_user, Expected, ok, err, ApiResult, ApiError, invalid_request_error,
  service_unavailable_error, not_found_error, conflict_error, ChatCompletionRequest,
  SessionCreateRequest, SessionSummary, SessionHealth, CompletionResult,
}
use zoo_keeper_server.Session.Trim.{make_initial_history, trim_history_to_fit}

pub record SessionConfig : Type 0 where
  pub max_sessions : ℕ
  pub idle_ttl_seconds : ℕ

abbrev pub enabled : SessionConfig → Bool
enabled c = ltb 0 c.max_sessions

pub record SessionState (M : Type 0) : Type 0 where
  pub id : Bytes
  pub model : Bytes
  pub created : ℕ
  pub last_used : ℕ
  pub expires_at : ℕ
  pub history : List M
  pub active_request : Option ℕ
  pub closed : Bool

pub record BeginRequestResult (M : Type 0) : Type 0 where
  pub messages : List M
  pub started_at : ℕ
  pub user_message : M

pub record Store (M : Type 0) : Type 0 where
  pub model_id : Bytes
  pub config : SessionConfig
  pub base_system_prompt : Bytes
  pub max_history_messages : ℕ
  pub next_session_id : ℕ
  pub sessions : List (Bytes × ℕ)
  pub stopping : Bool
  pub heap : ℕ → SessionState M
  pub next_ref : ℕ

-- `unordered_map` lookup, removal and `emplace`, which keeps an entry that is there.
unfoldable pub find : Bytes → List (Bytes × ℕ) → Option ℕ
find k [] = none
find k ((j, r) ∷ m) = if j ==ᵇ k then some r else find k m

unfoldable pub erase : Bytes → List (Bytes × ℕ) → List (Bytes × ℕ)
erase k [] = []
erase k ((j, r) ∷ m) = if j ==ᵇ k then m else (j, r) ∷ erase k m

unfoldable pub emplace : Bytes → ℕ → List (Bytes × ℕ) → List (Bytes × ℕ)
emplace k r m = if has_value (find k m) then m else (k, r) ∷ m

abbrev pub disabled_error : ApiError
disabled_error =
    invalid_request_error (text "Sessions are disabled for this server") (some (text "session_id"))
      (some (text "sessions_disabled"))

abbrev pub unknown_model : Bytes → ApiError
unknown_model model =
    invalid_request_error (text "Unknown model: " ++ model) (some (text "model"))
      (some (text "invalid_model"))

abbrev pub unknown_session : Bytes → ApiError
unknown_session id =
    not_found_error (text "Unknown session: " ++ id) (some (text "session_not_found"))

abbrev pub stopping_error : ApiError
stopping_error =
    service_unavailable_error (text "Server runtime is stopping") (some (text "agent_not_ready"))

abbrev pub capacity_error : ApiError
capacity_error =
    service_unavailable_error (text "Session capacity reached")
      (some (text "session_capacity_reached"))

abbrev pub session_id_required : ApiError
session_id_required =
    invalid_request_error (text "session_id is required") (some (text "session_id")) none

abbrev pub one_user_message : ApiError
one_user_message =
    invalid_request_error (text "Session chat requests must contain exactly one user message")
      (some (text "messages")) (some (text "invalid_message_sequence"))

abbrev pub busy_error : ApiError
busy_error =
    conflict_error (text "Session already has an active request") (some (text "session_busy"))

abbrev pub session_name : ℕ → Bytes
session_name n = text "sess-" ++ to_string n

-- Assignment through a reference.
abbrev pub write : {M : Type 0} → (ℕ → SessionState M) → ℕ → SessionState M → ℕ → SessionState M
write heap r s q = if q == r then s else heap q

-- What `heap` holds where nothing is allocated; no operation reads it.
abbrev pub unallocated : {M : Type 0} → SessionState M
unallocated = record {
  id = [];
  model = [];
  created = 0;
  last_used = 0;
  expires_at = 0;
  history = [];
  active_request = none;
  closed = true;
}

-- The constructor.
abbrev pub make_store : {M : Type 0} → Bytes → SessionConfig → Bytes → ℕ → Store M
make_store model_id config base_system_prompt max_history_messages = record {
  model_id = model_id;
  config = config;
  base_system_prompt = base_system_prompt;
  max_history_messages = max_history_messages;
  next_session_id = 1;
  sessions = [];
  stopping = false;
  heap = λ r. unallocated;
  next_ref = 0;
}

module _ {M : Type 0} where
  unfoldable pub health : Store M → SessionHealth
  health s = record {
    enabled = enabled s.config;
    active = length s.sessions;
    max_sessions = s.config.max_sessions;
    idle_ttl_seconds = s.config.idle_ttl_seconds;
  }

  abbrev pub snapshot_session : SessionState M → SessionSummary
  snapshot_session c = record {
    id = c.id;
    model = c.model;
    created = c.created;
    last_used = c.last_used;
    expires_at = c.expires_at;
  }

  abbrev pub touch_session : SessionConfig → ℕ → SessionState M → SessionState M
  touch_session config now c = record c {
    last_used = now;
    expires_at = now + config.idle_ttl_seconds;
  }

  abbrev pub should_expire : ℕ → SessionState M → Bool
  should_expire now c = not c.closed && (not (has_value c.active_request) && leb c.expires_at now)

  -- The loop of `reap_expired_sessions_locked`: the entries that stay, and the heap.
  unfoldable pub reap_loop :
      ℕ → List (Bytes × ℕ) → (ℕ → SessionState M) → List (Bytes × ℕ) × (ℕ → SessionState M)
  reap_loop now [] heap = ([], heap)
  reap_loop now ((k, r) ∷ m) heap =
      let expires = should_expire now (heap r) in
      let (kept, after) =
        reap_loop now m
          (if expires then write heap r (record (heap r) { closed = true }) else heap) in
      (if expires then kept else (k, r) ∷ kept, after)

  unfoldable pub reap_expired_sessions_locked : ℕ → Store M → Store M
  reap_expired_sessions_locked now s =
      let (kept, after) = reap_loop now s.sessions s.heap in
      record s { sessions = kept; heap = after }

  unfoldable pub reap_expired_sessions : ℕ → Store M → Store M
  reap_expired_sessions now s = if s.stopping then s else reap_expired_sessions_locked now s

  -- The critical section under the store's mutex that `get_session` and `begin_request` share.
  unfoldable pub reap_and_find : ℕ → Bytes → Store M → Store M × Option ℕ
  reap_and_find now id s = let s' = reap_expired_sessions_locked now s in (s', find id s'.sessions)

  unfoldable pub get_session : ℕ → Bytes → Store M → Store M × ApiResult SessionSummary
  get_session now id s =
      if not (enabled s.config)
      then (s, err disabled_error)
      else let (s', found) = reap_and_find now id s in
        elim found [
          | none ↦ (s', err (unknown_session id))
          | some r ↦ (s', ok (snapshot_session (s'.heap r)))
        ]

  -- The first section of `delete_session` takes the entry out of the map.
  unfoldable pub detach : Bytes → Store M → Store M × Option ℕ
  detach id s = elim (find id s.sessions) [
    | none ↦ (s, none)
    | some r ↦ (record s { sessions = erase id s.sessions }, some r)
  ]

  -- The second marks the session as closed, under its own mutex.
  abbrev pub close : ℕ → Store M → Store M
  close r s = record s { heap = write s.heap r (record (s.heap r) { closed = true }) }

  unfoldable pub delete_session : Bytes → Store M → Store M × ApiResult (Unit {0})
  delete_session id s =
      if not (enabled s.config)
      then (s, err disabled_error)
      else let (s', found) = detach id s in
        elim found [ none ↦ (s', err (unknown_session id)) | some r ↦ (close r s', ok tt) ]

  unfoldable pub set_base_system_prompt : Bytes → Store M → Store M
  set_base_system_prompt prompt s = record s { base_system_prompt = prompt }

  -- `commit_result` and `release_request` look their session up without reaping.
  abbrev pub find_session : Bytes → Store M → Option ℕ
  find_session id s = find id s.sessions

  -- The request is the session's active one.
  abbrev pub is_active : ℕ → SessionState M → Bool
  is_active request_id c = elim c.active_request [ none ↦ false | some a ↦ a == request_id ]

  -- The section of `release_request` under the session's mutex.
  unfoldable pub release_section : ℕ → ℕ → ℕ → Store M → Store M
  release_section now r request_id s =
      let c = s.heap r in
      if not (is_active request_id c) then s else record s {
        heap = write s.heap r (touch_session s.config now (record c { active_request = none }));
      }

  unfoldable pub release_request : ℕ → Bytes → ℕ → Store M → Store M
  release_request now id request_id s = elim (find_session id s) [
    | none ↦ s
    | some r ↦ release_section now r request_id s
  ]

  unfoldable pub close_all : List (Bytes × ℕ) → (ℕ → SessionState M) → ℕ → SessionState M
  close_all [] heap = heap
  close_all ((k, r) ∷ m) heap = close_all m (write heap r (record (heap r) { closed = true }))

  -- The section of `stop` under the store's mutex.
  abbrev pub halt : Store M → Store M
  halt s = record s { stopping = true; sessions = [] }

  -- `stop` empties the map, and then closes what was in it.
  unfoldable pub stop : Store M → Store M
  stop s = if s.stopping then s else record (halt s) { heap = close_all s.sessions s.heap }

-- What a result gives to the history: its text, if the completion succeeded.
abbrev pub reply_of : {E : Type 0} → Expected E Bytes → Option Bytes
reply_of (ok t) = some t
reply_of (err e) = none

abbrev pub completion_text : {E : Type 0} → Expected E CompletionResult → Option Bytes
completion_text (ok result) = some result.text
completion_text (err e) = none

module _ {M : Type 0} ⦃api : MessageApi M⦄ where
  abbrev pub new_session : ℕ → SessionCreateRequest → Store M → SessionState M
  new_session now request s = record {
    id = session_name s.next_session_id;
    model = s.model_id;
    created = now;
    last_used = now;
    expires_at = now + s.config.idle_ttl_seconds;
    history = make_initial_history s.base_system_prompt request.system_prompt;
    active_request = none;
    closed = false;
  }

  -- `make_shared` takes the next reference of the heap.
  abbrev pub with_session : SessionState M → Store M → Store M
  with_session c s = record s {
    next_session_id = wrap64 (s.next_session_id + 1);
    sessions = emplace c.id s.next_ref s.sessions;
    heap = write s.heap s.next_ref c;
    next_ref = suc s.next_ref;
  }

  -- The part of `create_session` under the store's mutex, after the reaping.
  unfoldable pub allocate : ℕ → SessionCreateRequest → Store M → Store M × ApiResult SessionSummary
  allocate now request s =
      if leb s.config.max_sessions (length s.sessions)
      then (s, err capacity_error)
      else let session = new_session now request s in
        (with_session session s, ok (snapshot_session session))

  unfoldable pub create_session :
      ℕ → SessionCreateRequest → Store M → Store M × ApiResult SessionSummary
  create_session now request s =
      if not (enabled s.config)
      then (s, err disabled_error)
      else if not (request.model ==ᵇ s.model_id)
      then (s, err (unknown_model request.model))
      else if s.stopping
      then (s, err stopping_error)
      else allocate now request (reap_expired_sessions_locked now s)

  -- The section of `begin_request` under the session's mutex.
  unfoldable pub begin_section :
      ℕ → ℕ → ℕ → Bytes → M → ℕ → Store M → Store M × ApiResult (BeginRequestResult M)
  begin_section started now r id user_message request_id s =
      let c = s.heap r in
      if c.closed
      then (s, err (unknown_session id))
      else if has_value c.active_request
      then (s, err busy_error)
      else (
        record s {
          heap =
              write s.heap r
                (touch_session s.config now (record c { active_request = some request_id }));
        },
        ok (record {
          messages = c.history ++ (user_message ∷ []);
          started_at = started;
          user_message = user_message;
        }),
      )

  -- `messages.size() != 1u || messages.front().role != MessageRole::User`, and the message.
  abbrev pub single_user_message : List M → Option M
  single_user_message [] = none
  single_user_message (m ∷ []) = if is_user (api.role m) then some m else none
  single_user_message (m ∷ n ∷ ms) = none

  -- `reaped`, `started` and `now` are the three readings of the clock.
  unfoldable pub begin_request :
      ℕ → ℕ → ℕ → ChatCompletionRequest M → ℕ → Store M → Store M × ApiResult (BeginRequestResult M)
  begin_request reaped started now request request_id s =
      if not (enabled s.config) then (s, err disabled_error) else elim request.session_id [
        | none ↦ (s, err session_id_required)
        | some id ↦
            if not (request.model ==ᵇ s.model_id)
            then (s, err (unknown_model request.model))
            else elim (single_user_message request.messages) [
              | none ↦ (s, err one_user_message)
              | some m ↦
                  let (s', found) = reap_and_find reaped id s in
                  elim found [
                    | none ↦ (s', err (unknown_session id))
                    | some r ↦ begin_section started now r id m request_id s'
                  ]
            ]
      ]

  -- The history after a reply `text`, none if the completion failed or the session was closed.
  abbrev pub append_turn : ℕ → M → Option Bytes → SessionState M → SessionState M
  append_turn limit user_message none c = c
  append_turn limit user_message (some reply) c = if c.closed then c else record c {
    history = trim_history_to_fit (c.history ++ (user_message ∷ api.assistant reply ∷ [])) limit;
  }

  -- The section of `commit_result` and `commit_response_text` under the session's mutex.
  unfoldable pub commit_section : ℕ → ℕ → ℕ → M → Option Bytes → Store M → Store M
  commit_section now r request_id user_message reply s =
      let c = s.heap r in
      if not (is_active request_id c) then s else record s {
        heap = write s.heap r (
            touch_session s.config now
              (record (append_turn s.max_history_messages user_message reply c) {
                active_request = none;
              }));
      }

  unfoldable pub commit_response_text :
      {E : Type 0} → ℕ → Bytes → ℕ → M → Expected E Bytes → Store M → Store M
  commit_response_text now id request_id user_message result s = elim (find_session id s) [
    | none ↦ s
    | some r ↦ commit_section now r request_id user_message (reply_of result) s
  ]

  unfoldable pub commit_result :
      {E : Type 0} → ℕ → Bytes → ℕ → M → Expected E CompletionResult → Store M → Store M
  commit_result now id request_id user_message result s = elim (find_session id s) [
    | none ↦ s
    | some r ↦ commit_section now r request_id user_message (completion_text result) s
  ]
