-- ===== src/Session/Store/Lifetime.antt =====
-- How sessions come and go: reaping, creation, lookup, and the end of the store.
use zoo_keeper_server.Prelude.{
  if◌then◌else◌, ℕ, ◌+◌, ◌<◌, ◌≡◌, refl, ap, ◌∙◌, Bytes, Bool, true, false, not, ◌||◌, none, some,
  List, [], ◌∷◌, ==ᵇ_refl, leb, ltb, length, All, keep, arith, has_value,
}
use zoo_keeper_server.Api.{MessageApi, SessionCreateRequest, ok, err}
use zoo_keeper_server.Session.Store.{
  SessionState, Store, write, find, emplace, reap_loop, reap_expired_sessions_locked, reap_and_find,
  close_all, stop, halt, new_session, with_session, allocate, get_session, should_expire, enabled,
  snapshot_session, session_name, unknown_session,
}
use zoo_keeper_server.Session.Store.Entries.{
  Unmapped, IsUnshared, Entry, mapped, reap_loop-heap, reap_loop-keep, write_same, reap_loop_other,
}

module _ {M : Type 0} where
  -- A session outlives a reaping at `now` if it is busy or its time has not run out.
  abbrev pub outlives : ℕ → SessionState M → Bool
  outlives now c = has_value c.active_request || ltb now c.expires_at

  keep-outlives :
      (now : ℕ) (heap : ℕ → SessionState M) (m : List (Bytes × ℕ))
      → All (Entry heap) m
      → keep (λ e. not (should_expire now (heap e.1))) m ≡ keep (λ e. outlives now (heap e.1)) m
  keep-outlives now heap [] h = refl
  keep-outlives now heap ((k, r) ∷ m) h =
      let same : not (should_expire now (heap r)) ≡ outlives now (heap r) = ground (arith, h.0.1) in
      rw same (rw (keep-outlives now heap m h.1))

  expired-outlives :
      {A : Type 0} (now : ℕ) (c : SessionState M)
      → c.closed ≡ false
      → (x y : A) → (if should_expire now c then y else x) ≡ (if outlives now c then x else y)
  expired-outlives now c o x y = ground (arith, o)

  -- Where the map's entries are distinct open sessions, a reaping keeps exactly those that are
  -- busy or not yet due, in their order; it marks those that it takes out as closed, and
  -- changes nothing else of these sessions, nor of any other.
  pub reap_expired_sessions_locked_lem :
      (now : ℕ) (s : Store M)
      → IsUnshared s.sessions
      → All (Entry s.heap) s.sessions
      → let t = reap_expired_sessions_locked now s in
        (t.sessions ≡ keep (λ e. outlives now (s.heap e.1)) s.sessions)
        × ((r : ℕ)
            → mapped r s.sessions ≡ true
            → (s.heap r).closed ≡ false
            → t.heap r
              ≡ (if outlives now (s.heap r) then s.heap r else record (s.heap r) { closed = true }))
        × ((r : ℕ) → mapped r s.sessions ≡ false → t.heap r ≡ s.heap r)
  unfolding reap_expired_sessions_locked
  reap_expired_sessions_locked_lem now s u h = (
    reap_loop-keep now s.sessions s.heap u ∙ keep-outlives now s.heap s.sessions h,
    λ r m o.
        rw (reap_loop-heap now s.sessions s.heap r) (rw m (expired-outlives now (s.heap r) o _ _)),
    λ r m. rw (reap_loop-heap now s.sessions s.heap r) (rw m),
  )

  -- An entry at the head of the map whose session is not due is found after a reaping.
  find_head :
      (now : ℕ) (k : Bytes) (r : ℕ) (m : List (Bytes × ℕ)) (heap : ℕ → SessionState M)
      → should_expire now (heap r) ≡ false
      → Unmapped r m
      → (find k (reap_loop now ((k, r) ∷ m) heap).0 ≡ some r)
        × ((reap_loop now ((k, r) ∷ m) heap).1 r ≡ heap r)
  unfolding reap_loop find
  find_head now k r m heap e u = (rw e (rw (==ᵇ_refl k)), rw e (reap_loop_other now m heap r u))

  close_all-closed :
      (m : List (Bytes × ℕ)) (heap : ℕ → SessionState M) (r : ℕ)
      → (close_all m heap r).closed ≡ (mapped r m || (heap r).closed)
  unfolding close_all mapped
  close_all-closed [] heap r = refl
  close_all-closed ((k, q) ∷ m) heap r =
      ground (arith, close_all-closed m (write heap q (record (heap q) { closed = true })) r)

  abbrev stopped : Store M → Store M
  stopped s = record (halt s) { heap = close_all s.sessions s.heap }

  stop_running : (s : Store M) → s.stopping ≡ false → stop s ≡ stopped s
  unfolding stop
  stop_running s running = simp running

  stop-stopped : (s : Store M) → stop (stopped s) ≡ stopped s
  unfolding stop
  stop-stopped s = refl

  get-stopped :
      (s : Store M) (now : ℕ) (id : Bytes)
      → enabled s.config ≡ true
      → (get_session now id (stopped s)).1 ≡ err (unknown_session id)
  unfolding get_session reap_and_find reap_expired_sessions_locked reap_loop find
  get-stopped s now id e = rw e

  -- Stopping a running store closes every session in the map, no other, and empties the map; a
  -- second stop changes nothing; and then, where sessions are enabled, a lookup finds no session.
  pub stop_lem :
      (s : Store M)
      → s.stopping ≡ false
      → ((stop s).sessions ≡ [])
        × ((r : ℕ) → ((stop s).heap r).closed ≡ (mapped r s.sessions || (s.heap r).closed))
        × (stop (stop s) ≡ stop s)
        × ((now : ℕ) (id : Bytes)
            → enabled s.config ≡ true
            → (get_session now id (stop s)).1 ≡ err (unknown_session id))
  stop_lem s running =
      rw (stop_running s running)
        (refl, close_all-closed s.sessions s.heap, stop-stopped s, get-stopped s)

  get_head :
      (s : Store M) (now : ℕ) (k : Bytes) (r : ℕ) (m : List (Bytes × ℕ))
      → s.sessions ≡ (k, r) ∷ m
      → enabled s.config ≡ true
      → should_expire now (s.heap r) ≡ false
      → Unmapped r m
      → (get_session now k s).1 ≡ ok (snapshot_session (s.heap r))
  unfolding get_session reap_and_find reap_expired_sessions_locked
  get_head s now k r m e on due u =
      let (found, same) = find_head now k r m s.heap due u in rw on (rw e (rw found (rw (e, same))))

module _ {M : Type 0} ⦃api : MessageApi M⦄ where
  -- A session that is allocated under a name and a reference not in use, while sessions are enabled
  -- and there is room, is found under that name until its time to live is over, and a lookup gives
  -- the summary that was returned.
  pub allocate-get :
      (s : Store M) (now later : ℕ) (request : SessionCreateRequest)
      → enabled s.config ≡ true
      → length s.sessions < s.config.max_sessions
      → find (session_name s.next_session_id) s.sessions ≡ none
      → Unmapped s.next_ref s.sessions
      → later < now + s.config.idle_ttl_seconds
      → let made = allocate now request s in
        (get_session later (session_name s.next_session_id) made.0).1 ≡ made.1
  unfolding allocate emplace
  allocate-get s now later request on room free u soon =
      let full : leb s.config.max_sessions (length s.sessions) ≡ false = ground arith in
      let c = new_session now request s in
      let made : Store M = with_session c s in
      let at : made.heap s.next_ref ≡ c = write_same s.heap s.next_ref c in
      rw full (
        get_head made later c.id s.next_ref s.sessions (rw free) on (rw at (ground arith)) u
        ∙ ap (λ (d : SessionState M). ok (snapshot_session d)) at)
