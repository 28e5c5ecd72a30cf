-- ===== src/Session/Store/Requests.antt =====
-- The requests of a session: at most one at a time, and only its commit changes the history.
use zoo_keeper_server.Prelude.{
  ℕ, ◌+◌, ◌<◌, ◌≡◌, refl, sym, ◌∙◌, ◌⊎◌, inl, inr, Bytes, true, false, ◌&&◌, Option, none, some,
  List, [], ◌∷◌, ◌++◌, ◌==◌, ==_iff, ◌==ᵇ◌, leb, length, arith, Bool-cases, Option-cases,
}
use zoo_keeper_server.Api.{MessageApi, SessionCreateRequest, ok}
use zoo_keeper_server.Session.Trim.{trim_history_to_fit}
use zoo_keeper_server.Session.Store.{
  SessionState, Store, find, reap_expired_sessions_locked, reap_expired_sessions, reap_and_find,
  detach, set_base_system_prompt, release_section, create_session, allocate, begin_section,
  commit_section, is_active, should_expire, enabled,
}
use zoo_keeper_server.Session.Store.Entries.{mapped, reap_loop-heap}
use zoo_keeper_server.Session.Store.Interleave.{
  World, Step, creates, reaps, finds, begins, commits, releases, detaches, closes, sets_prompt,
  halts,
}

module _ {M : Type 0} ⦃api : MessageApi M⦄ where
  -- The step commits or releases request `a` of session `r`.
  abbrev pub Ends : (r a : ℕ) {w v : World M} → Step w v → Type 0
  Ends r a (commits now q request_id m reply h u e) = (q ≡ r) × (request_id ≡ a)
  Ends r a (releases now q request_id h e) = (q ≡ r) × (request_id ≡ a)
  Ends r a _ = ⊥

  -- What no other step changes: the active request and the history.
  abbrev pub Keeps : (c d : SessionState M) → Type 0
  Keeps c d = (d.active_request ≡ c.active_request) × (d.history ≡ c.history)

  is_active-eq :
      (request_id a : ℕ) (c : SessionState M)
      → is_active request_id c ≡ true
      → c.active_request ≡ some a
      → request_id ≡ a
  is_active-eq request_id a c h e = ground arith

  reap-Keeps :
      (now : ℕ) (s : Store M) (r : ℕ)
      → Keeps (s.heap r) ((reap_expired_sessions_locked now s).heap r)
  unfolding reap_expired_sessions_locked
  reap-Keeps now s r =
      rw (reap_loop-heap now s.sessions s.heap r)
        (elim (Bool-cases (mapped r s.sessions && should_expire now (s.heap r))) [
          | inl e ↦ rw e (refl, refl)
          | inr e ↦ rw e (refl, refl)
        ])

  allocate-Keeps :
      (now : ℕ) (request : SessionCreateRequest) (s : Store M) (r : ℕ)
      → r < s.next_ref
      → Keeps (s.heap r) ((allocate now request s).0.heap r)
  unfolding allocate
  allocate-Keeps now request s r h =
      elim (Bool-cases (leb s.config.max_sessions (length s.sessions))) [
        | inl full ↦ rw full (refl, refl)
        | inr room ↦
            let other : (r == s.next_ref) ≡ false = ground arith in rw room (rw other (refl, refl))
      ]

  begin-Keeps :
      (started now q : ℕ) (id : Bytes) (m : M) (request_id : ℕ) (s : Store M) (r a : ℕ)
      → (s.heap r).active_request ≡ some a
      → Keeps (s.heap r) ((begin_section started now q id m request_id s).0.heap r)
  unfolding begin_section
  begin-Keeps started now q id m request_id s r a e = ground arith

  release-Keeps :
      (now q request_id : ℕ) (s : Store M) (r a : ℕ)
      → (s.heap r).active_request ≡ some a
      → ((q ≡ r) × (request_id ≡ a))
        ⊎ Keeps (s.heap r) ((release_section now q request_id s).heap r)
  unfolding release_section
  release-Keeps now q request_id s r a e = elim (Bool-cases (is_active request_id (s.heap q))) [
    | inr idle ↦ inr (rw idle (refl, refl))
    | inl active ↦ elim (Bool-cases (r == q)) [
      | inl same ↦
          let at : r ≡ q = (==_iff r q).0 same in
          inl (sym at, is_active-eq request_id a (s.heap q) active (rw (← at) e))
      | inr other ↦ inr (rw active (rw other (refl, refl)))
    ]
  ]

  commit-Keeps :
      (now q request_id : ℕ) (m : M) (reply : Option Bytes) (s : Store M) (r a : ℕ)
      → (s.heap r).active_request ≡ some a
      → ((q ≡ r) × (request_id ≡ a))
        ⊎ Keeps (s.heap r) ((commit_section now q request_id m reply s).heap r)
  unfolding commit_section
  commit-Keeps now q request_id m reply s r a e =
      elim (Bool-cases (is_active request_id (s.heap q))) [
        | inr idle ↦ inr (rw idle (refl, refl))
        | inl active ↦ elim (Bool-cases (r == q)) [
          | inl same ↦
              let at : r ≡ q = (==_iff r q).0 same in
              inl (sym at, is_active-eq request_id a (s.heap q) active (rw (← at) e))
          | inr other ↦ inr (rw active (rw other (refl, refl)))
        ]
      ]

  create-Keeps :
      (now : ℕ) (request : SessionCreateRequest) (s : Store M) (r : ℕ)
      → r < s.next_ref
      → Keeps (s.heap r) ((create_session now request s).0.heap r)
  unfolding create_session
  create-Keeps now request s r h = elim (Bool-cases (enabled s.config)) [
    | inr e ↦ rw e (refl, refl)
    | inl e ↦ rw e (elim (Bool-cases (request.model ==ᵇ s.model_id)) [
      | inr f ↦ rw f (refl, refl)
      | inl f ↦ rw f (elim (Bool-cases s.stopping) [
        | inl g ↦ simp g (refl, refl)
        | inr g ↦
            let reaped = reap_expired_sessions_locked now s in
            let first = reap-Keeps now s r in
            let second =
              allocate-Keeps now request reaped r (unfold reap_expired_sessions_locked in h) in
            simp g (second.0 ∙ first.0, second.1 ∙ first.1)
      ])
    ])
  ]

  -- A session with an active request keeps that request and its history through any critical
  -- section of any thread, but for those that commit or release that very request.
  pub Step-Keeps :
      {w v : World M} (step : Step w v) (r a : ℕ)
      → r < w.store.next_ref
      → (w.store.heap r).active_request ≡ some a
      → Ends r a step ⊎ Keeps (w.store.heap r) (v.store.heap r)
  unfolding create_session reap_expired_sessions reap_and_find detach set_base_system_prompt
  Step-Keeps {w} (creates now request e) r a h k = inr (rw e (create-Keeps now request w.store r h))
  Step-Keeps {w} (reaps now e) r a h k = inr (
      rw e (elim (Bool-cases w.store.stopping) [
        | inl g ↦ simp g (refl, refl)
        | inr g ↦ simp g (reap-Keeps now w.store r)
      ]))
  Step-Keeps {w} (finds now id e) r a h k = inr (rw e (reap-Keeps now w.store r))
  Step-Keeps {w} (begins started now q id m request_id g e) r a h k =
      inr (rw e (begin-Keeps started now q id m request_id w.store r a k))
  Step-Keeps {w} (commits now q request_id m reply g u e) r a h k =
      elim (commit-Keeps now q request_id m reply w.store r a k) [
        | inl ends ↦ inl ends
        | inr keeps ↦ inr (rw e keeps)
      ]
  Step-Keeps {w} (releases now q request_id g e) r a h k =
      elim (release-Keeps now q request_id w.store r a k) [
        | inl ends ↦ inl ends
        | inr keeps ↦ inr (rw e keeps)
      ]
  Step-Keeps {w} (detaches id e) r a h k = inr (
      rw e (elim (Option-cases (find id w.store.sessions)) [
        | inl g ↦ rw (g, detach) (refl, refl)
        | inr (q, g) ↦ rw (g, detach) (refl, refl)
      ]))
  Step-Keeps {w} (closes q i e) r a h k = inr (
      rw e (elim (Bool-cases (r == q)) [
        | inl same ↦ ground arith
        | inr other ↦ rw other (refl, refl)
      ]))
  Step-Keeps {w} (sets_prompt prompt e) r a h k = inr (rw e (refl, refl))
  Step-Keeps {w} (halts e) r a h k = inr (rw e (refl, refl))

  -- A request that begins on an idle, open session is sent the history and the user's message.
  -- Its commit appends that message and the reply and trims; a failed completion and a release
  -- leave the history. Each ends the request and renews the session's time to live.
  pub begin-commit :
      (s : Store M) (r : ℕ)
      → (s.heap r).active_request ≡ none
      → (s.heap r).closed ≡ false
      → (started now a : ℕ) (id : Bytes) (m : M) (later : ℕ) (reply : Bytes)
      → let c = s.heap r in
        let begun = begin_section started now r id m a s in
        let ended = λ (h : List M). record c {
          last_used = later;
          expires_at = later + s.config.idle_ttl_seconds;
          history = h;
        } in
        (begun.1
          ≡ ok
              (record { messages = c.history ++ (m ∷ []); started_at = started; user_message = m }))
        × ((commit_section later r a m (some reply) begun.0).heap r
            ≡ ended (
                trim_history_to_fit
                  (c.history ++ (m ∷ api.assistant reply ∷ []))
                  s.max_history_messages))
        × ((commit_section later r a m none begun.0).heap r ≡ ended c.history)
        × ((release_section later r a begun.0).heap r ≡ ended c.history)
  unfolding begin_section commit_section release_section
  begin-commit s r e o started now a id m later reply =
      let same : (r == r) ≡ true = (==_iff r r).1 refl in
      let mine : (a == a) ≡ true = (==_iff a a).1 refl in
      (rw (o, e), simp (o, e, same, mine), simp (o, e, same, mine), simp (o, e, same, mine))
