-- ===== src/Session/Store/Invariant.antt =====
-- Every critical section keeps the invariant of `Interleave`, so every reachable state has it.
use zoo_keeper_server.Prelude.{
  ℕ, suc, ◌+◌, ◌<◌, ◌^◌, ◌≡◌, ◌≢◌, refl, inl, inr, Bytes, false, [], ◌++◌, ◌==ᵇ◌, leb, length,
  arith, Bool-cases, Option-cases, ◌&&◌,
}
use zoo_keeper_server.Api.{MessageApi, SessionCreateRequest}
use zoo_keeper_server.Session.Trim.{system_offset}
use zoo_keeper_server.Session.Conversation.{
  make_initial_history-IsConversation, length-make_initial_history,
}
use zoo_keeper_server.Session.Store.{
  SessionConfig, make_store, SessionState, find, erase, emplace, write, reap_loop,
  reap_expired_sessions_locked, reap_expired_sessions, reap_and_find, detach, close, halt,
  set_base_system_prompt, create_session, session_name, enabled, should_expire, allocate,
}
use zoo_keeper_server.Session.Store.Entries.{
  Unmapped, Entry, Entry-write-Unmapped, reap_loop-All, reap_loop-IsUnshared, length-reap_loop-le,
  reap_loop-heap, All-weaken, mapped, write_same, reap_loop-Entry, find-All, erase-All,
  erase-IsUnshared, length-erase-le, erase-Unmapped,
}
use zoo_keeper_server.Session.Store.Interleave.{
  World, Step, creates, reaps, finds, begins, commits, releases, detaches, closes, sets_prompt,
  halts, Reach, here, next, Inv, IsTidy, IsIn, refs, await,
}
use zoo_keeper_server.Session.Store.Kept.{
  All-IsIn, All-refs, All-unit, All-suc, apart_from, IsTidy-write, begin-Inv, release-Inv,
  commit-Inv,
}

module _ {M : Type 0} ⦃api : MessageApi M⦄ where
  reap-Inv :
      (w : World M) (now : ℕ)
      → Inv w
      → Inv (record w { store = reap_expired_sessions_locked now w.store })
  unfolding reap_expired_sessions_locked
  reap-Inv w now v =
      let m = w.store.sessions in
      let heap = w.store.heap in
      record {
        small = v.small;
        entries = reap_loop-Entry now m heap v.unshared v.entries;
        allocated = reap_loop-All (λ e. e.1 < w.store.next_ref) now m heap v.allocated;
        unshared = reap_loop-IsUnshared now m heap v.unshared;
        capacity = omega (arith, length-reap_loop-le now m heap, v.capacity);
        apart =
            All-weaken (λ r. Unmapped r m) (λ r. Unmapped r (reap_loop now m heap).0)
              (λ r. reap_loop-All (λ e. e.1 ≢ r) now m heap) w.detached v.apart;
        was_allocated = v.was_allocated;
        tidy = λ r.
            rw (reap_loop-heap now m heap r)
              (elim (Bool-cases (mapped r m && should_expire now (heap r))) [
                | inl e ↦ rw e (v.tidy r)
                | inr e ↦ rw e (v.tidy r)
              ]);
      }

  detach-Inv :
      (w : World M) (id : Bytes)
      → Inv w
      → Inv (record {
        store = (detach id w.store).0;
        detached = await (detach id w.store).1 w.detached;
      })
  unfolding detach
  detach-Inv w id v = elim (Option-cases (find id w.store.sessions)) [
    | inl e ↦ rw (e, detach) v
    | inr (r, e) ↦
        let m = w.store.sessions in
        rw (e, detach)
          (record {
            small = v.small;
            entries = erase-All (Entry w.store.heap) id m v.entries;
            allocated = erase-All (λ e. e.1 < w.store.next_ref) id m v.allocated;
            unshared = erase-IsUnshared id m v.unshared;
            capacity = omega (arith, length-erase-le id m, v.capacity);
            apart = (
              erase-Unmapped id m r v.unshared e,
              All-weaken (λ q. Unmapped q m) (λ q. Unmapped q (erase id m))
                  (λ q. erase-All (λ e. e.1 ≢ q) id m) w.detached v.apart,
            );
            was_allocated =
                (find-All (λ q. q < w.store.next_ref) id m r v.allocated e, v.was_allocated);
            tidy = v.tidy;
          })
  ]

  close-Inv :
      (w : World M) (r : ℕ) → IsIn r w.detached → Inv w → Inv (record w { store = close r w.store })
  close-Inv w r i v = record {
    small = v.small;
    entries =
        Entry-write-Unmapped w.store.heap r _ w.store.sessions
          (All-IsIn (λ q. Unmapped q w.store.sessions) r w.detached v.apart i) v.entries;
    allocated = v.allocated;
    unshared = v.unshared;
    capacity = v.capacity;
    apart = v.apart;
    was_allocated = v.was_allocated;
    tidy = IsTidy-write w.store.max_history_messages w.store.heap r _ v.tidy (v.tidy r);
  }

  halt-Inv :
      (w : World M)
      → Inv w
      → Inv (record { store = halt w.store; detached = refs w.store.sessions ++ w.detached })
  halt-Inv w v = record {
    small = v.small;
    entries = tt;
    allocated = tt;
    unshared = tt;
    capacity = omega arith;
    apart =
        All-refs (λ r. Unit {0}) w.store.sessions w.detached (All-unit w.store.sessions)
          (All-unit w.detached);
    was_allocated =
        All-refs (λ r. r < w.store.next_ref) w.store.sessions w.detached v.allocated
          v.was_allocated;
    tidy = v.tidy;
  }

  add-Inv :
      (w : World M) (id : Bytes) (c : SessionState M) (id_after : ℕ)
      → c.id ≡ id
      → c.closed ≡ false
      → IsTidy w.store.max_history_messages c
      → length w.store.sessions < w.store.config.max_sessions
      → Inv w
      → Inv (record w {
        store = record w.store {
          next_session_id = id_after;
          sessions = emplace id w.store.next_ref w.store.sessions;
          heap = write w.store.heap w.store.next_ref c;
          next_ref = suc w.store.next_ref;
        };
      })
  unfolding emplace
  add-Inv w id c id_after i o t room v =
      let m = w.store.sessions in
      let n = w.store.next_ref in
      let fresh = All-suc n m v.allocated in
      let after = IsTidy-write w.store.max_history_messages w.store.heap n c v.tidy t in
      let entries' = Entry-write-Unmapped w.store.heap n c m fresh.0 v.entries in
      let later =
        All-weaken (λ r. r < n) (λ r. r < suc n) (λ r h. omega arith) w.detached v.was_allocated in
      elim (Option-cases (find id m)) [
        | inr (r, e) ↦
            rw (e, emplace)
              (record {
                small = v.small;
                entries = entries';
                allocated = fresh.1;
                unshared = v.unshared;
                capacity = v.capacity;
                apart = v.apart;
                was_allocated = later;
                tidy = after;
              })
        | inl e ↦
            rw (e, emplace)
              (record {
                small = v.small;
                entries = (rw (write_same w.store.heap n c) (i, o), entries');
                allocated = (omega arith, fresh.1);
                unshared = (fresh.0, v.unshared);
                capacity = omega (arith, room);
                apart = apart_from n id m w.detached v.was_allocated v.apart;
                was_allocated = later;
                tidy = after;
              })
      ]

  allocate-Inv :
      (w : World M) (now : ℕ) (request : SessionCreateRequest)
      → Inv w
      → Inv (record w { store = (allocate now request w.store).0 })
  unfolding allocate
  allocate-Inv w now request v =
      elim (Bool-cases (leb w.store.config.max_sessions (length w.store.sessions))) [
        | inl full ↦ rw full v
        | inr room ↦ rw room (
            add-Inv w (session_name w.store.next_session_id) _ _ refl refl
              (
                make_initial_history-IsConversation M w.store.base_system_prompt
                    request.system_prompt,
                omega (
                  arith,
                  length-make_initial_history M w.store.base_system_prompt request.system_prompt,
                ),
              )
              (ground arith) v)
      ]

  create-Inv :
      (w : World M) (now : ℕ) (request : SessionCreateRequest)
      → Inv w
      → Inv (record w { store = (create_session now request w.store).0 })
  unfolding create_session
  create-Inv w now request v = elim (Bool-cases (enabled w.store.config)) [
    | inr e ↦ rw e v
    | inl e ↦ rw e (elim (Bool-cases (request.model ==ᵇ w.store.model_id)) [
      | inr f ↦ rw f v
      | inl f ↦ rw f (elim (Bool-cases w.store.stopping) [
        | inl g ↦ simp g v
        | inr g ↦ simp g (
            allocate-Inv (record w { store = reap_expired_sessions_locked now w.store }) now request
              (reap-Inv w now v))
      ])
    ])
  ]

  Step-Inv : {w v : World M} → Step w v → Inv w → Inv v
  unfolding reap_expired_sessions reap_and_find set_base_system_prompt
  Step-Inv {w} (creates now request e) v = rw e (create-Inv w now request v)
  Step-Inv {w} (reaps now e) v =
      rw e (elim (Bool-cases w.store.stopping) [
        | inl g ↦ simp g v
        | inr g ↦ simp g (reap-Inv w now v)
      ])
  Step-Inv {w} (finds now id e) v = rw e (reap-Inv w now v)
  Step-Inv {w} (begins started now r id m request_id h e) v =
      rw e (begin-Inv w started now r id m request_id v)
  Step-Inv {w} (commits now r request_id m reply h u e) v =
      rw e (commit-Inv w now r request_id m reply u v)
  Step-Inv {w} (releases now r request_id h e) v = rw e (release-Inv w now r request_id v)
  Step-Inv {w} (detaches id e) v = rw e (detach-Inv w id v)
  Step-Inv {w} (closes r i e) v = rw e (close-Inv w r i v)
  Step-Inv {w} (sets_prompt prompt e) v = rw e (record {
    small = v.small;
    entries = v.entries;
    allocated = v.allocated;
    unshared = v.unshared;
    capacity = v.capacity;
    apart = v.apart;
    was_allocated = v.was_allocated;
    tidy = v.tidy;
  })
  Step-Inv {w} (halts e) v = rw e (halt-Inv w v)

  Reach-Inv : {w v : World M} → Reach w v → Inv w → Inv v
  Reach-Inv here i = i
  Reach-Inv (next r s) i = Step-Inv s (Reach-Inv r i)

  -- In whatever order threads run the critical sections of a new store, whose limit on messages
  -- is below `2 ^ 64 - 4`: every entry of the map refers to an open session of that name, no two to
  -- the same one, there are at most `max_sessions`, no session waiting to be closed is in the map,
  -- and every history is a system message, perhaps, and then whole turns, at most
  -- `max_history_messages` messages of them.
  pub start-Inv :
      (model_id base : Bytes) (config : SessionConfig) (limit : ℕ) {v : World M}
      → limit + 4 < 2 ^ 64
      → Reach (record { store = make_store model_id config base limit; detached = [] }) v
      → Inv v
  unfolding system_offset
  start-Inv model_id base config limit small r = Reach-Inv r (record {
    small = small;
    entries = tt;
    allocated = tt;
    unshared = tt;
    capacity = omega arith;
    apart = tt;
    was_allocated = tt;
    tidy = λ q. (tt, omega arith);
  })
