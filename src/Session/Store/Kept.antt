-- ===== src/Session/Store/Kept.antt =====
-- The beginning, the end and the release of a request keep the invariant of `Interleave`.
use zoo_keeper_server.Prelude.{
  ℕ, suc, ◌+◌, ◌<◌, ◌^◌, ◌≡◌, refl, sym, inl, inr, Bytes, Option, none, some, List, [], ◌∷◌, ◌++◌,
  ◌==◌, length, length-append, length-drop, All, arith, Bool-cases, has_value,
}
use zoo_keeper_server.Api.{MessageApi, Role}
use zoo_keeper_server.Session.Trim.{system_offset}
use zoo_keeper_server.Session.Trim.Laws.{system_offset-le}
use zoo_keeper_server.Session.Conversation.{
  trim-IsConversation, append-IsConversation, length-trim-le,
}
use zoo_keeper_server.Session.Store.{
  SessionState, write, release_section, begin_section, commit_section, is_active, append_turn,
}
use zoo_keeper_server.Session.Store.Entries.{Unmapped, Entry-write}
use zoo_keeper_server.Session.Store.Interleave.{World, Inv, IsTidy, IsIn, refs}

pub All-IsIn {κ} : (P : ℕ → Type κ) (r : ℕ) (rs : List ℕ) → All P rs → IsIn r rs → P r
All-IsIn P r [] h i = absurd i
All-IsIn P r (q ∷ rs) h (inl e) = rw e h.0
All-IsIn P r (q ∷ rs) h (inr i) = All-IsIn P r rs h.1 i

pub All-unit {ℓ} : {A : Type ℓ} (xs : List A) → All (λ _. Unit {0}) xs
All-unit [] = tt
All-unit (x ∷ xs) = (tt, All-unit xs)

pub All-refs {κ} :
    (P : ℕ → Type κ) (m : List (Bytes × ℕ)) (rs : List ℕ)
    → All (λ e. P e.1) m
    → All P rs
    → All P (refs m ++ rs)
All-refs P [] rs h g = g
All-refs P ((k, r) ∷ m) rs h g = (h.0, All-refs P m rs h.1 g)

-- A session that is not allocated yet is nowhere.
pub All-suc :
    (n : ℕ) (m : List (Bytes × ℕ)) → All (λ e. e.1 < n) m → Unmapped n m × All (λ e. e.1 < suc n) m
All-suc n [] h = (tt, tt)
All-suc n ((k, r) ∷ m) h =
    let rest = All-suc n m h.1 in ((omega (arith, h.0), rest.0), (omega (arith, h.0), rest.1))

pub apart_from :
    (n : ℕ) (id : Bytes) (m : List (Bytes × ℕ)) (rs : List ℕ)
    → All (λ r. r < n) rs
    → All (λ r. Unmapped r m) rs
    → All (λ r. Unmapped r ((id, n) ∷ m)) rs
apart_from n id m [] h u = tt
apart_from n id m (r ∷ rs) h u = ((omega (arith, h.0), u.0), apart_from n id m rs h.1 u.1)

module _ {M : Type 0} ⦃api : MessageApi M⦄ where
  pub IsTidy-write :
      (limit : ℕ) (heap : ℕ → SessionState M) (r : ℕ) (c : SessionState M)
      → ((q : ℕ) → IsTidy limit (heap q))
      → IsTidy limit c
      → (q : ℕ) → IsTidy limit (write heap r c q)
  IsTidy-write limit heap r c h t q = elim (Bool-cases (q == r)) [
    | inl e ↦ rw e t
    | inr e ↦ rw e (h q)
  ]

  -- A write to a session that keeps its name and its open or closed state.
  write-Inv :
      (w : World M) (r : ℕ) (c : SessionState M)
      → c.id ≡ (w.store.heap r).id
      → c.closed ≡ (w.store.heap r).closed
      → IsTidy w.store.max_history_messages c
      → Inv w
      → Inv (record w { store = record w.store { heap = write w.store.heap r c } })
  write-Inv w r c i o t v = record {
    small = v.small;
    entries = Entry-write w.store.heap r c w.store.sessions i o v.entries;
    allocated = v.allocated;
    unshared = v.unshared;
    capacity = v.capacity;
    apart = v.apart;
    was_allocated = v.was_allocated;
    tidy = IsTidy-write w.store.max_history_messages w.store.heap r c v.tidy t;
  }

  pub begin-Inv :
      (w : World M) (started now r : ℕ) (id : Bytes) (m : M) (request_id : ℕ)
      → Inv w
      → Inv (record w { store = (begin_section started now r id m request_id w.store).0 })
  unfolding begin_section
  begin-Inv w started now r id m request_id v = elim (Bool-cases (w.store.heap r).closed) [
    | inl e ↦ rw e v
    | inr e ↦ rw e (elim (Bool-cases (has_value (w.store.heap r).active_request)) [
      | inl a ↦ rw a v
      | inr a ↦ rw a (write-Inv w r _ refl (sym e) (v.tidy r) v)
    ])
  ]

  pub release-Inv :
      (w : World M) (now r request_id : ℕ)
      → Inv w
      → Inv (record w { store = release_section now r request_id w.store })
  unfolding release_section
  release-Inv w now r request_id v = elim (Bool-cases (is_active request_id (w.store.heap r))) [
    | inl e ↦ rw e (write-Inv w r _ refl refl (v.tidy r) v)
    | inr e ↦ rw e v
  ]

  append_turn-IsTidy :
      (limit : ℕ) (m : M) (reply : Option Bytes) (c : SessionState M)
      → limit + 4 < 2 ^ 64
      → api.role m ≡ Role.user
      → IsTidy limit c
      → IsTidy limit (append_turn limit m reply c)
  append_turn-IsTidy limit m none c small u t = t
  append_turn-IsTidy limit m (some reply) c small u t = elim (Bool-cases c.closed) [
    | inl e ↦ rw e t
    | inr e ↦ rw e (
      trim-IsConversation longer limit short (omega arith) (
          append-IsConversation c.history m (api.assistant reply) t.0 u (api.role-assistant reply)),
      length-trim-le longer limit short (omega arith),
    )
  ]
    where
      longer : List M
      longer = c.history ++ (m ∷ api.assistant reply ∷ [])

      short : length longer < 2 ^ 64
      short = omega (
        arith,
        length-append c.history (m ∷ api.assistant reply ∷ []),
        length-drop (system_offset c.history) c.history,
        system_offset-le c.history,
        t.1,
      )

  append_turn_same :
      (limit : ℕ) (m : M) (reply : Option Bytes) (c : SessionState M)
      → ((append_turn limit m reply c).id ≡ c.id)
        × ((append_turn limit m reply c).closed ≡ c.closed)
  append_turn_same limit m none c = (refl, refl)
  append_turn_same limit m (some reply) c = elim (Bool-cases c.closed) [
    | inl e ↦ rw e (refl, refl)
    | inr e ↦ rw e (refl, refl)
  ]

  pub commit-Inv :
      (w : World M) (now r request_id : ℕ) (m : M) (reply : Option Bytes)
      → api.role m ≡ Role.user
      → Inv w
      → Inv (record w { store = commit_section now r request_id m reply w.store })
  unfolding commit_section
  commit-Inv w now r request_id m reply u v =
      let limit = w.store.max_history_messages in
      let c = w.store.heap r in
      elim (Bool-cases (is_active request_id c)) [
        | inl e ↦
            let same = append_turn_same limit m reply c in
            rw e (
              write-Inv w r _ same.0 same.1
                (append_turn-IsTidy limit m reply c v.small u (v.tidy r)) v)
        | inr e ↦ rw e v
      ]
