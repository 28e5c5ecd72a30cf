-- ===== src/Chat/Cleanup.antt =====
-- The public number of a request, when it has started, when a lease of another request is released,
-- and when its own is.
use zoo_keeper_server.Prelude.{
  ℕ, ◌≡◌, ◌≢◌, refl, sym, ◌∙◌, ap, subst, ◌⊎◌, inl, inr, Bytes, Bool, true, false, none, some, List,
  [], ◌∷◌, ◌++◌, ◌==ᵇ◌, ==ᵇ_refl, ==ᵇ_iff, Bool-cases, Option-cases, to_string,
}
use zoo_keeper_server.Api.{MessageApi, Expected, ok, err, ApiResult, ChatCompletionRequest}
use zoo_keeper_server.Session.Store.{begin_request}
use zoo_keeper_server.Chat.{
  Service, cancel, call, lookup, remove, cancel_request, register_public_request,
  unregister_public_request, track_session_request, untrack_session_request, unknown_request,
}
use zoo_keeper_server.Chat.Start.{
  Kind, prefix, Pending, Lease, release, start_request, start_plain, start_session, start_begun,
}

module _ {A : Type 0} where
  lookup-remove : (k : Bytes) (m : List (Bytes × A)) → lookup k (remove k m) ≡ none
  unfolding lookup remove
  lookup-remove k [] = refl
  lookup-remove k ((j, a) ∷ m) = elim (Bool-cases (j ==ᵇ k)) [
    | inl e ↦ rw e (lookup-remove k m)
    | inr e ↦ rw e (rw e (lookup-remove k m))
  ]

  lookup-remove_other :
      (j k : Bytes) (m : List (Bytes × A)) → j ≢ k → lookup k (remove j m) ≡ lookup k m
  unfolding lookup remove
  lookup-remove_other j k [] h = refl
  lookup-remove_other j k ((i, a) ∷ m) h = elim (Bool-cases (i ==ᵇ j)) [
    | inl e ↦ elim (Bool-cases (i ==ᵇ k)) [
      | inl f ↦ absurd (h (sym ((==ᵇ_iff i j).0 e) ∙ (==ᵇ_iff i k).0 f))
      | inr f ↦ rw e (rw f (lookup-remove_other j k m h))
    ]
    | inr e ↦ elim (Bool-cases (i ==ᵇ k)) [
      | inl f ↦ rw e (rw f refl)
      | inr f ↦ rw e (rw f (lookup-remove_other j k m h))
    ]
  ]

  lookup-head : (k : Bytes) (a : A) (m : List (Bytes × A)) → lookup k ((k, a) ∷ m) ≡ some a
  unfolding lookup
  lookup-head k a m = rw (==ᵇ_refl k)

Expected-cases {ℓ κ} :
    {E : Type κ} {A : Type ℓ} (x : Expected E A) → ((e : E) × (x ≡ err e)) ⊎ ((a : A) × (x ≡ ok a))
Expected-cases (ok a) = inr (a, refl)
Expected-cases (err e) = inl (e, refl)

module _ {M : Type 0} where
  -- A request that has started is in the table of cancellers, and its lease is new.
  abbrev Registered : ℕ → Service M × ApiResult (Pending M) → Type 0
  Registered zoo_id (s, err e) = Unit
  Registered zoo_id (s, ok p) =
      (lookup p.id s.public_request_cancellers ≡ some zoo_id)
      × (p.lease.request_id ≡ p.id)
      × (p.lease.released ≡ false)

module _ {M : Type 0} ⦃api : MessageApi M⦄ where
  start_plain-Registered :
      (kind : Kind) (ready : Bool) (zoo_id now : ℕ) (request : ChatCompletionRequest M)
      (s : Service M)
      → Registered zoo_id (start_plain kind ready zoo_id now request s)
  unfolding start_plain register_public_request
  start_plain-Registered kind false zoo_id now request s = tt
  start_plain-Registered kind true zoo_id now request s =
      elim (Bool-cases (request.model ==ᵇ s.model_id)) [
        | inr e ↦ rw e tt
        | inl e ↦
            rw e (lookup-head (prefix kind ++ to_string s.next_completion_id) zoo_id _, refl, refl)
      ]

  start_session-Registered :
      (kind : Kind) (ready : Bool) (zoo_id reaped started now : ℕ) (session_id : Bytes)
      (request : ChatCompletionRequest M) (s : Service M)
      → Registered zoo_id (start_session kind ready zoo_id reaped started now session_id request s)
  unfolding start_session start_begun register_public_request track_session_request
  start_session-Registered kind false zoo_id reaped started now session_id request s = tt
  start_session-Registered kind true zoo_id reaped started now session_id request s =
      elim (Expected-cases
        (begin_request reaped started now request s.next_completion_id s.store).1) [
          | inl (e, at) ↦ rw (at, start_session) tt
          | inr (begun, at) ↦
              rw (at, start_session)
                (lookup-head (prefix kind ++ to_string s.next_completion_id) zoo_id _, refl, refl)
        ]

  start_request-Registered :
      (kind : Kind) (ready : Bool) (zoo_id reaped started now : ℕ)
      (request : ChatCompletionRequest M) (s : Service M)
      → Registered zoo_id (start_request kind ready zoo_id reaped started now request s)
  unfolding start_request
  start_request-Registered kind ready zoo_id reaped started now request s =
      elim (Option-cases request.session_id) [
        | inl e ↦ rw (e, start_request) (start_plain-Registered kind ready zoo_id now request s)
        | inr (session_id, e) ↦
            rw (e, start_request)
              (start_session-Registered kind ready zoo_id reaped started now session_id request s)
      ]

  cancel_registered :
      (k : Bytes) (zoo_id : ℕ) (s : Service M)
      → lookup k s.public_request_cancellers ≡ some zoo_id
      → cancel_request k s ≡ (call (cancel zoo_id) s, ok tt)
  unfolding cancel_request
  cancel_registered k zoo_id s e = rw (e, cancel_request)

  cancel_removed :
      (k : Bytes) (s : Service M)
      → lookup k s.public_request_cancellers ≡ none
      → cancel_request k s ≡ (s, err (unknown_request k))
  unfolding cancel_request
  cancel_removed k s e = rw (e, cancel_request)

  release_removes :
      (now : ℕ) (l : Lease) (s : Service M)
      → l.released ≡ false
      → lookup l.request_id (release now l s).1.public_request_cancellers ≡ none
  unfolding release unregister_public_request untrack_session_request
  release_removes now l s e = elim (Option-cases l.session) [
    | inl f ↦ rw e (rw f (lookup-remove l.request_id s.public_request_cancellers))
    | inr ((session_id, tracking_id), f) ↦
        rw e (rw f (lookup-remove l.request_id s.public_request_cancellers))
  ]

  release_keeps :
      (now : ℕ) (l : Lease) (k : Bytes) (s : Service M)
      → l.request_id ≢ k
      → lookup k (release now l s).1.public_request_cancellers
        ≡ lookup k s.public_request_cancellers
  unfolding release unregister_public_request untrack_session_request
  release_keeps now l k s h = elim (Bool-cases l.released) [
    | inl e ↦ rw e refl
    | inr e ↦ elim (Option-cases l.session) [
      | inl f ↦ rw e (rw f (lookup-remove_other l.request_id k s.public_request_cancellers h))
      | inr ((session_id, tracking_id), f) ↦
          rw e (rw f (lookup-remove_other l.request_id k s.public_request_cancellers h))
    ]
  ]

  release_again :
      (now later : ℕ) (l : Lease) (s : Service M)
      → let once = release now l s in release later once.0 once.1 ≡ once
  unfolding release
  release_again now later l s = elim (Bool-cases l.released) [ inl e ↦ simp e | inr e ↦ simp e ]

  -- A chat completion or extraction that has started, in a session or not, is cancelled through its
  -- public number by one call of the agent with the agent's own number, right after the start and
  -- also after any lease with another number has been released. Once its own lease is released the
  -- number is unknown, and a second release changes nothing.
  pub start-cancel-release :
      (kind : Kind) (ready : Bool) (zoo_id reaped started now : ℕ)
      (request : ChatCompletionRequest M) (s s' : Service M) (p : Pending M)
      → start_request kind ready zoo_id reaped started now request s ≡ (s', ok p)
      → (cancel_request p.id s' ≡ (call (cancel zoo_id) s', ok tt))
        × ((time : ℕ) (other : Lease)
            → other.request_id ≢ p.id
            → let t = (release time other s').1 in
              cancel_request p.id t ≡ (call (cancel zoo_id) t, ok tt))
        × ((time later : ℕ)
            → let ended = release time p.lease s' in
              ((cancel_request p.id ended.1).1 ≡ err (unknown_request p.id))
              × (release later ended.0 ended.1 ≡ ended))
  start-cancel-release kind ready zoo_id reaped started now request s s' p e =
      let r : Registered zoo_id (s', ok p) =
        rw e at (start_request-Registered kind ready zoo_id reaped started now request s) in
      (
        cancel_registered p.id zoo_id s' r.0,
        λ time other apart.
            cancel_registered p.id zoo_id (release time other s').1
              (release_keeps time other p.id s' apart ∙ r.0),
        λ time later. (
          ap (λ (x : Service M × ApiResult (Unit {0})). x.1)
              (cancel_removed p.id (release time p.lease s').1 (
                subst (λ k. lookup k (release time p.lease s').1.public_request_cancellers ≡ none)
                  r.1 (release_removes time p.lease s' r.2))),
          release_again time later p.lease s',
        ),
      )
