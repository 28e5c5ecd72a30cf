-- ===== src/Tests/Sessions.antt =====
-- The session store at the data of `Tests`.
use zoo_keeper_server.Prelude.{
  if◌then◌else◌, ℕ, ◌≡◌, refl, ◌⊎◌, none, some, [], ◌∷◌, ◌++◌, take, drop, ◌==ᵇ◌, to_string, true,
  false, ◌||◌, text, arith, Bytes,
}
use zoo_keeper_server.Api.{ok, err}
use zoo_keeper_server.Session.Trim.{trim_history_to_fit, system_offset}
use zoo_keeper_server.Session.Trim.Laws.{trim_history_to_fit_lem, last_turns}
use zoo_keeper_server.Session.Store.{
  Store, find, reap_expired_sessions_locked, get_session, create_session, begin_section,
  commit_section, release_section, allocate, stop, session_name, unknown_session,
}
use zoo_keeper_server.Session.Store.Entries.{mapped}
use zoo_keeper_server.Session.Store.Interleave.{World, creates, here, next, Inv}
use zoo_keeper_server.Session.Store.Invariant.{start-Inv}
use zoo_keeper_server.Session.Store.Requests.{Step-Keeps, Keeps, begin-commit}
use zoo_keeper_server.Session.Store.Lifetime.{
  reap_expired_sessions_locked_lem, outlives, stop_lem, allocate-get,
}
use zoo_keeper_server.Tests.{
  Message, message_api, hello, reply, prompt, two_turns, config, fresh_store, idle_session, busy,
  two_sessions, create_request,
}

trim_history_to_fit_example :
    trim_history_to_fit two_turns 2 ≡ take 1 two_turns ++ last_turns 2 (drop 1 two_turns)
unfolding system_offset
trim_history_to_fit_example = trim_history_to_fit_lem two_turns 2 (omega arith) (omega arith)

abbrev world : World Message
world = record { store = fresh_store; detached = [] }

abbrev created : World Message
created = record world { store = (create_session 100 create_request fresh_store).0 }

abbrev looked_up : World Message
looked_up = record created { store = (create_session 200 create_request created.store).0 }

start-Inv_example : Inv looked_up
start-Inv_example =
    start-Inv (text "m") (text "be brief") config 2 (omega arith)
      (next (next here (creates 100 create_request refl)) (creates 200 create_request refl))

abbrev busy_world : World Message
busy_world = record { store = two_sessions; detached = [] }

Step-Keeps_example : ⊥ ⊎ Keeps busy ((create_session 500 create_request two_sessions).0.heap 1)
Step-Keeps_example =
    Step-Keeps {w = busy_world}
      {v = record busy_world { store = (create_session 500 create_request two_sessions).0 }}
      (creates 500 create_request refl) 1 7 (omega arith) refl

abbrev eight : ℕ
eight = 8

begin-commit_example :
    let begun = begin_section 20 21 0 (text "sess-1") hello 8 two_sessions in
    (begun.1
      ≡ ok (record {
        messages = prompt ∷ hello ∷ reply ∷ hello ∷ [];
        started_at = 20;
        user_message = hello;
      }))
    × ((commit_section 25 0 8 hello (some (text "hi")) begun.0).heap 0 ≡ record idle_session {
      last_used = 25;
      expires_at = 85;
      history = trim_history_to_fit two_turns 2;
    })
    × ((commit_section 25 0 8 hello none begun.0).heap 0
        ≡ record idle_session { last_used = 25; expires_at = 85 })
    × ((release_section 25 0 8 begun.0).heap 0
        ≡ record idle_session { last_used = 25; expires_at = 85 })
begin-commit_example =
    begin-commit two_sessions 0 refl refl 20 21 8 (text "sess-1") hello 25 (text "hi")

reap_expired_sessions_locked_example :
    let t = reap_expired_sessions_locked 100 two_sessions in
    (t.sessions ≡ (text "sess-2", 1) ∷ [])
    × ((r : ℕ)
        → mapped r two_sessions.sessions ≡ true
        → (two_sessions.heap r).closed ≡ false
        → t.heap r ≡ (
            if outlives 100 (two_sessions.heap r)
            then two_sessions.heap r
            else record (two_sessions.heap r) { closed = true }))
    × ((r : ℕ) → mapped r two_sessions.sessions ≡ false → t.heap r ≡ two_sessions.heap r)
reap_expired_sessions_locked_example =
    reap_expired_sessions_locked_lem 100 two_sessions ((omega arith, tt), (tt, tt))
      ((refl, refl), ((refl, refl), tt))

stop_example :
    ((stop two_sessions).sessions ≡ [])
    × ((r : ℕ)
        → ((stop two_sessions).heap r).closed
          ≡ (mapped r two_sessions.sessions || (two_sessions.heap r).closed))
    × (stop (stop two_sessions) ≡ stop two_sessions)
    × ((now : ℕ) (id : Bytes)
        → true ≡ true
        → (get_session now id (stop two_sessions)).1 ≡ err (unknown_session id))
stop_example = stop_lem two_sessions refl

allocate-get_example :
    let made = allocate 100 create_request two_sessions in
    (get_session 159 (session_name 3) made.0).1 ≡ made.1
unfolding find ◌==ᵇ◌ text to_string
allocate-get_example =
    allocate-get two_sessions 100 159 create_request refl (omega arith) refl
      (omega arith, (omega arith, tt)) (omega arith)

abbrev disabled : Store Message
disabled = record two_sessions { config = record config { max_sessions = 0 } }
