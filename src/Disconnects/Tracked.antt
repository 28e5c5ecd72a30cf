-- ===== src/Disconnects/Tracked.antt =====
-- The registry of disconnects against what it promises: a table of callbacks by connection and
-- number.
use zoo_keeper_server.Prelude.{
  ℕ, ◌+◌, ◌^◌, ◌<◌, ◌≤◌, ◌≡◌, refl, sym, ap, ◌∙◌, inl, inr, true, false, ◌&&◌, Option, none, some,
  List, [], ◌∷◌, All, All-weaken, if◌then◌else◌, ◌==◌, is_empty, wrap64, arith, Bool-cases,
  Option-cases, ==_iff,
}
use zoo_keeper_server.Disconnects.{
  find, erase, put, emplace, DisconnectRegistry, empty_registry, entry, track, clear, values,
  handle_connection_event,
}
use zoo_keeper_server.Disconnects.Maps.{
  find-erase, find-put, Once, erase-Once, put-Once, All-erase, All-find,
}

-- A table of callbacks, by connection and number, which stands for the registry.
abbrev pub Table : Type 0 → Type 0
Table F = ℕ → ℕ → Option F

module _ {F : Type 0} where
  -- What a connection has in a registry whose next number is `next`: something, each number once,
  -- and below `next`.
  abbrev pub Held : ℕ → List (ℕ × F) → Type 0
  Held next m = Once m × (is_empty m ≡ false) × All (λ e. e.0 < next) m

  pub record Inv (r : DisconnectRegistry F) : Type 0 where
    pub connections : Once r.callbacks
    pub held : All (λ e. Held r.next_callback_id e.1) r.callbacks

  abbrev pub tracked : DisconnectRegistry F → Table F
  tracked r c i = find i (entry (find c r.callbacks))

  pub record Represents (r : DisconnectRegistry F) (t : Table F) : Type 0 where
    pub inv : Inv r
    pub same : (c i : ℕ) → tracked r c i ≡ t c i

  abbrev pub with_callback : ℕ → ℕ → F → Table F → Table F
  with_callback c i f t d j = if c == d && i == j then some f else t d j

  abbrev pub without_callback : ℕ → ℕ → Table F → Table F
  without_callback c i t d j = if c == d && i == j then none else t d j

  abbrev pub without_connection : ℕ → Table F → Table F
  without_connection c t d j = if c == d then none else t d j

  -- These calls are one for each callback of the connection.
  abbrev pub CallsOnce : List F → (ℕ → Option F) → Type 0
  CallsOnce calls t = (m : List (ℕ × F)) × Once m × ((j : ℕ) → find j m ≡ t j) × (calls ≡ values m)

  -- A number that was not given out yet.
  find-fresh :
      (next k : ℕ) (m : List (ℕ × F)) → next ≤ k → All (λ e. e.0 < next) m → find k m ≡ none
  unfolding find
  find-fresh next k [] le h = refl
  find-fresh next k ((j, a) ∷ m) le h = ground (arith, find-fresh next k m le h.1, h.0)

  Held-entry :
      (r : DisconnectRegistry F) (c : ℕ)
      → Inv r
      → Once (entry (find c r.callbacks))
        × All (λ e. e.0 < r.next_callback_id) (entry (find c r.callbacks))
  Held-entry r c v = elim (Option-cases (find c r.callbacks)) [
    | inl e ↦ rw e (tt, tt)
    | inr (m, e) ↦
        let h : Held r.next_callback_id m =
          All-find (Held r.next_callback_id) c r.callbacks m e v.held in
        rw e (h.0, h.2)
  ]

  tracked-put :
      (r : DisconnectRegistry F) (c n : ℕ) (m : List (ℕ × F)) (d j : ℕ)
      → tracked (record r { next_callback_id = n; callbacks = put c m r.callbacks }) d j
        ≡ (if c == d then find j m else tracked r d j)
  tracked-put r c n m d j = rw (find-put c d m r.callbacks) (ground arith)

  tracked-erase :
      (r : DisconnectRegistry F) (c d j : ℕ)
      → tracked (record r { callbacks = erase c r.callbacks }) d j
        ≡ (if c == d then none else tracked r d j)
  unfolding find
  tracked-erase r c d j = rw (find-erase c d r.callbacks) (ground arith)

  Held-suc : (n : ℕ) (e : ℕ × List (ℕ × F)) → Held n e.1 → Held (n + 1) e.1
  Held-suc n (c, m) h =
      (h.0, h.1, All-weaken (λ (e : ℕ × F). e.0 < n) (λ e. e.0 < n + 1) (λ e l. omega arith) m h.2)

  module _ (r : DisconnectRegistry F) (t : Table F) (v : Represents r t) where
    emplace-next :
        (c : ℕ) (f : F)
        → emplace r.next_callback_id f (entry (find c r.callbacks))
          ≡ (r.next_callback_id, f) ∷ entry (find c r.callbacks)
    emplace-next c f = rw (
        find-fresh r.next_callback_id r.next_callback_id (entry (find c r.callbacks)) (omega arith)
          (Held-entry r c v.inv).1)

    track-same :
        (c n : ℕ) (f : F) (d j : ℕ)
        → tracked
            (record r {
              next_callback_id = n + 1;
              callbacks = put c ((n, f) ∷ entry (find c r.callbacks)) r.callbacks;
            })
            d
            j
          ≡ with_callback c n f t d j
    unfolding find
    track-same c n f d j =
        tracked-put r c (n + 1) ((n, f) ∷ entry (find c r.callbacks)) d j
        ∙ elim (Bool-cases (c == d)) [
          | inl e ↦
              let p : c ≡ d = (==_iff c d).0 e in
              rw p (elim (Bool-cases (n == j)) [
                | inl q ↦ ground (arith, v.same d j)
                | inr q ↦ ground (arith, v.same d j)
              ])
          | inr e ↦ rw e (v.same d j)
        ]

    track-Represents :
        (c : ℕ) (f : F)
        → r.next_callback_id + 1 < 2 ^ 64
        → Represents (track c f r).0 (with_callback c r.next_callback_id f t)
    unfolding track
    track-Represents c f small =
        let n = r.next_callback_id in
        let m = entry (find c r.callbacks) in
        let h = Held-entry r c v.inv in
        let fresh = find-fresh n n m (omega arith) h.1 in
        let e : wrap64 (n + 1) ≡ n + 1 = omega arith in
        rw (emplace-next c f) (
          rw e (record {
            inv = record {
              connections = put-Once c ((n, f) ∷ m) r.callbacks v.inv.connections;
              held = (
                (
                  (fresh, h.0),
                  refl,
                  (
                    omega arith,
                    All-weaken (λ (e : ℕ × F). e.0 < n) (λ e. e.0 < n + 1) (λ e l. omega arith) m
                        h.1,
                  ),
                ),
                All-erase (λ e. Held (n + 1) e.1) c r.callbacks
                    (All-weaken (λ (e : ℕ × List (ℕ × F)). Held n e.1) (λ e. Held (n + 1) e.1)
                      (Held-suc n) r.callbacks v.inv.held),
              );
            };
            same = track-same c n f;
          }))

    at_entry : (c : ℕ) (m : List (ℕ × F)) → find c r.callbacks ≡ some m → (j : ℕ) → find j m ≡ t c j
    at_entry c m e j = rw e at (v.same c j)

    find-nil : (j : ℕ) → find {A = F} j [] ≡ none
    unfolding find
    find-nil j = refl

    no_entry : (c : ℕ) → find c r.callbacks ≡ none → (j : ℕ) → t c j ≡ none
    unfolding find
    no_entry c e j = sym (rw e at (v.same c j))

    -- The entry of a connection was replaced, and the rest was left.
    replaced-same :
        (c i : ℕ) (m : List (ℕ × F))
        → find c r.callbacks ≡ some m
        → (d j : ℕ)
        → (if c == d then find j (erase i m) else tracked r d j) ≡ without_callback c i t d j
    replaced-same c i m e d j = elim (Bool-cases (c == d)) [
      | inl p ↦
          let q : c ≡ d = (==_iff c d).0 p in
          let g : find j m ≡ t d j = rw (← q) (at_entry c m e j) in
          rw p (find-erase i j m ∙ ground (arith, g))
      | inr p ↦ rw p (v.same d j)
    ]

    find-of_empty : (j : ℕ) (m : List (ℕ × F)) → is_empty m ≡ true → find j m ≡ none
    unfolding find
    find-of_empty j [] e = refl
    find-of_empty j (x ∷ m) e = cc

    clear-Represents : (c i : ℕ) → Represents (clear c i r) (without_callback c i t)
    unfolding clear
    clear-Represents c i = elim (Option-cases (find c r.callbacks)) [
      | inl e ↦
          rw (e, clear)
            (record {
              inv = v.inv;
              same = λ d j. elim (Bool-cases (c == d)) [
                | inl p ↦
                    let q : c ≡ d = (==_iff c d).0 p in
                    let g : t d j ≡ none = rw (← q) (no_entry c e j) in
                    ground (arith, v.same d j, g)
                | inr p ↦ rw p (v.same d j)
              ];
            })
      | inr (m, e) ↦
          let h : Held r.next_callback_id m =
            All-find (Held r.next_callback_id) c r.callbacks m e v.inv.held in
          rw (e, clear)
            (elim (Bool-cases (is_empty (erase i m))) [
              | inl p ↦ rw p (record {
                inv = record {
                  connections = erase-Once c r.callbacks v.inv.connections;
                  held = All-erase (λ e. Held r.next_callback_id e.1) c r.callbacks v.inv.held;
                };
                same = λ d j.
                    tracked-erase r c d j
                    ∙ ap (λ o. if c == d then o else tracked r d j)
                        (sym (find-of_empty j (erase i m) p))
                    ∙ replaced-same c i m e d j;
              })
              | inr p ↦ rw p (record {
                inv = record {
                  connections = put-Once c (erase i m) r.callbacks v.inv.connections;
                  held = (
                    (erase-Once i m h.0, p, All-erase (λ e. e.0 < r.next_callback_id) i m h.2),
                    All-erase (λ e. Held r.next_callback_id e.1) c r.callbacks v.inv.held,
                  );
                };
                same = λ d j.
                    tracked-put r c r.next_callback_id (erase i m) d j ∙ replaced-same c i m e d j;
              })
            ])
    ]

    event-Represents :
        (c : ℕ)
        → let (r', calls) = handle_connection_event (some c) true r in
          Represents r' (without_connection c t) × CallsOnce calls (t c)
    unfolding handle_connection_event
    event-Represents c = elim (Option-cases (find c r.callbacks)) [
      | inl e ↦
          rw (e, handle_connection_event)
            (
              record {
                inv = v.inv;
                same = λ d j. elim (Bool-cases (c == d)) [
                  | inl p ↦
                      let q : c ≡ d = (==_iff c d).0 p in
                      let g : t d j ≡ none = rw (← q) (no_entry c e j) in rw p (v.same d j ∙ g)
                  | inr p ↦ rw p (v.same d j)
                ];
              },
              ([], tt, λ j. find-nil j ∙ sym (no_entry c e j), refl),
            )
      | inr (m, e) ↦
          rw (e, handle_connection_event)
            (
              record {
                inv = record {
                  connections = erase-Once c r.callbacks v.inv.connections;
                  held = All-erase (λ e. Held r.next_callback_id e.1) c r.callbacks v.inv.held;
                };
                same = λ d j. tracked-erase r c d j ∙ ground (arith, v.same d j);
              },
              (
                m,
                (All-find (Held r.next_callback_id) c r.callbacks m e v.inv.held).0,
                at_entry c m e,
                refl,
              ),
            )
    ]

  -- A registry that stands for a table of callbacks goes on to do so, while its numbers do not
  -- wrap: `track` gives a number that the connection does not use and enters the callback under it;
  -- `clear` removes the callback of that connection and number alone; an event of a connection that
  -- is lost removes what the connection has, and calls each of these callbacks once and no other;
  -- and an event of a connection that is there changes and calls nothing.
  pub registry_refines :
      (r : DisconnectRegistry F) (t : Table F) (c i : ℕ) (f : F)
      → Represents r t
      → r.next_callback_id + 1 < 2 ^ 64
      → let (tracking, id) = track c f r in
        let (after, calls) = handle_connection_event (some c) true r in
        (t c id ≡ none)
        × Represents tracking (with_callback c id f t)
        × Represents (clear c i r) (without_callback c i t)
        × Represents after (without_connection c t)
        × CallsOnce calls (t c)
        × (handle_connection_event (some c) false r ≡ (r, []))
  unfolding track handle_connection_event
  registry_refines r t c i f v small = (
    sym (v.same c r.next_callback_id)
        ∙ find-fresh r.next_callback_id r.next_callback_id (entry (find c r.callbacks))
            (omega arith) (Held-entry r c v.inv).1,
    track-Represents r t v c f small,
    clear-Represents r t v c i,
    (event-Represents r t v c).0,
    (event-Represents r t v c).1,
    refl,
  )

  pub empty-Represents : Represents empty_registry (λ c i. none)
  unfolding find
  empty-Represents = record { inv = record { connections = tt; held = tt }; same = λ c i. refl }
