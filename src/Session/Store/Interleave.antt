-- ===== src/Session/Store/Interleave.antt =====
-- The critical sections of the store's methods in any order, as the threads of the server take
-- them, and the invariant of every state that is reached.
use zoo_keeper_server.Prelude.{
  ℕ, ◌+◌, ◌≤◌, ◌<◌, ◌^◌, ◌≡◌, ◌⊎◌, Bytes, Option, none, some, List, [], ◌∷◌, ◌++◌, length, All,
  drop, map,
}
use zoo_keeper_server.Api.{MessageApi, Role, SessionCreateRequest}
use zoo_keeper_server.Session.Trim.{system_offset}
use zoo_keeper_server.Session.Conversation.{IsConversation}
use zoo_keeper_server.Session.Store.{
  SessionState, Store, reap_expired_sessions, reap_and_find, detach, close, halt,
  set_base_system_prompt, release_section, create_session, begin_section, commit_section,
}
use zoo_keeper_server.Session.Store.Entries.{Unmapped, IsUnshared, Entry}

-- The store, and the sessions that some thread has taken out of the map and has yet to close.
pub record World (M : Type 0) : Type 0 where
  pub store : Store M
  pub detached : List ℕ

abbrev pub refs : List (Bytes × ℕ) → List ℕ
refs m = map (λ e. e.1) m

-- A detached session, if there is one, waits to be closed.
abbrev pub await : Option ℕ → List ℕ → List ℕ
await none rs = rs
await (some r) rs = r ∷ rs

abbrev pub IsIn : ℕ → List ℕ → Type 0
IsIn r [] = ⊥
IsIn r (q ∷ rs) = (r ≡ q) ⊎ IsIn r rs

module _ {M : Type 0} ⦃api : MessageApi M⦄ where
  -- One critical section. A thread that found a session before may enter it at any later time,
  -- so the sections under a session's mutex take any session that was ever allocated.
  pub data Step (w v : World M) : Type 0 where
    creates :
        (now : ℕ) (request : SessionCreateRequest)
        → v ≡ record w { store = (create_session now request w.store).0 }
        → Step w v
    reaps : (now : ℕ) → v ≡ record w { store = reap_expired_sessions now w.store } → Step w v
    finds :
        (now : ℕ) (id : Bytes)
        → v ≡ record w { store = (reap_and_find now id w.store).0 }
        → Step w v
    begins :
        (started now r : ℕ) (id : Bytes) (m : M) (request_id : ℕ)
        → r < w.store.next_ref
        → v ≡ record w { store = (begin_section started now r id m request_id w.store).0 }
        → Step w v
    commits :
        (now r request_id : ℕ) (m : M) (reply : Option Bytes)
        → r < w.store.next_ref
        → api.role m ≡ Role.user
        → v ≡ record w { store = commit_section now r request_id m reply w.store }
        → Step w v
    releases :
        (now r request_id : ℕ)
        → r < w.store.next_ref
        → v ≡ record w { store = release_section now r request_id w.store }
        → Step w v
    detaches :
        (id : Bytes)
        → v ≡ record {
          store = (detach id w.store).0;
          detached = await (detach id w.store).1 w.detached;
        }
        → Step w v
    closes : (r : ℕ) → IsIn r w.detached → v ≡ record w { store = close r w.store } → Step w v
    sets_prompt :
        (prompt : Bytes) → v ≡ record w { store = set_base_system_prompt prompt w.store } → Step w v
    halts :
        v ≡ record { store = halt w.store; detached = refs w.store.sessions ++ w.detached }
        → Step w v

  pub data Reach (w : World M) : World M → Type 0 where
    here : Reach w w
    next : {u v : World M} → Reach w u → Step u v → Reach w v

  -- A history is a conversation of at most `limit` messages after its system message.
  abbrev pub IsTidy : ℕ → SessionState M → Type 0
  IsTidy limit c =
      IsConversation c.history × (length (drop (system_offset c.history) c.history) ≤ limit)

  pub record Inv (w : World M) : Type 0 where
    pub small : w.store.max_history_messages + 4 < 2 ^ 64
    pub entries : All (Entry w.store.heap) w.store.sessions
    pub allocated : All (λ e. e.1 < w.store.next_ref) w.store.sessions
    pub unshared : IsUnshared w.store.sessions
    pub capacity : length w.store.sessions ≤ w.store.config.max_sessions
    pub apart : All (λ r. Unmapped r w.store.sessions) w.detached
    pub was_allocated : All (λ r. r < w.store.next_ref) w.detached
    pub tidy : (r : ℕ) → IsTidy w.store.max_history_messages (w.store.heap r)
