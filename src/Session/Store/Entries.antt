-- ===== src/Session/Store/Entries.antt =====
-- The map and the heap together: what a write and the reaping loop do to the entries.
use zoo_keeper_server.Prelude.{
  ℕ, ◌≤◌, ◌≡◌, ◌≢◌, refl, ◌∙◌, inl, inr, Bytes, Bool, true, false, List, [], ◌∷◌, if◌then◌else◌,
  ◌==◌, ==_iff, length, All, arith, Bool-cases, some, sym, false, inl, inr, ◌==ᵇ◌, ◌≤◌, not, keep,
  ◌||◌, ◌&&◌, ap,
}
use zoo_keeper_server.Session.Store.{SessionState, write, should_expire, reap_loop, find, erase}

pub All-weaken {ℓ κ ρ} :
    {A : Type ℓ} (P : A → Type κ) (Q : A → Type ρ)
    → ((a : A) → P a → Q a)
    → (xs : List A) → All P xs
    → All Q xs
All-weaken P Q f [] h = tt
All-weaken P Q f (x ∷ xs) h = (f x h.0, All-weaken P Q f xs h.1)

-- No entry refers to `r`.
abbrev pub Unmapped : ℕ → List (Bytes × ℕ) → Type 0
Unmapped r = All (λ e. e.1 ≢ r)

-- No two entries share a session.
abbrev pub IsUnshared : List (Bytes × ℕ) → Type 0
IsUnshared [] = Unit {0}
IsUnshared ((k, r) ∷ m) = Unmapped r m × IsUnshared m

-- Some entry refers to `r`.
unfoldable pub mapped : ℕ → List (Bytes × ℕ) → Bool
mapped r [] = false
mapped r ((k, q) ∷ m) = r == q || mapped r m

mapped_of_Unmapped : (r : ℕ) (m : List (Bytes × ℕ)) → Unmapped r m → mapped r m ≡ false
unfolding mapped
mapped_of_Unmapped r [] u = refl
mapped_of_Unmapped r ((k, q) ∷ m) u = ground (arith, u.0, mapped_of_Unmapped r m u.1)

module _ {M : Type 0} where
  -- An entry's key is the session's id, and the session is open.
  abbrev pub Entry : (ℕ → SessionState M) → Bytes × ℕ → Type 0
  Entry heap e = ((heap e.1).id ≡ e.0) × ((heap e.1).closed ≡ false)

  pub write_same : (heap : ℕ → SessionState M) (r : ℕ) (c : SessionState M) → write heap r c r ≡ c
  write_same heap r c = rw ((==_iff r r).1 refl)

  pub write_other :
      (heap : ℕ → SessionState M) (r q : ℕ) (c : SessionState M) → q ≢ r → write heap r c q ≡ heap q
  write_other heap r q c h = ground arith

  pub Entry-write :
      (heap : ℕ → SessionState M) (r : ℕ) (c : SessionState M) (m : List (Bytes × ℕ))
      → c.id ≡ (heap r).id
      → c.closed ≡ (heap r).closed
      → All (Entry heap) m
      → All (Entry (write heap r c)) m
  Entry-write heap r c [] i o h = tt
  Entry-write heap r c ((k, q) ∷ m) i o h = (ground arith, Entry-write heap r c m i o h.1)

  pub Entry-write-Unmapped :
      (heap : ℕ → SessionState M) (r : ℕ) (c : SessionState M) (m : List (Bytes × ℕ))
      → Unmapped r m
      → All (Entry heap) m
      → All (Entry (write heap r c)) m
  Entry-write-Unmapped heap r c [] u h = tt
  Entry-write-Unmapped heap r c ((k, q) ∷ m) u h =
      (ground (arith, u.0), Entry-write-Unmapped heap r c m u.1 h.1)

  pub reap_loop-All {κ} :
      (P : Bytes × ℕ → Type κ) (now : ℕ) (m : List (Bytes × ℕ)) (heap : ℕ → SessionState M)
      → All P m
      → All P (reap_loop now m heap).0
  unfolding reap_loop
  reap_loop-All P now [] heap h = tt
  reap_loop-All P now ((k, r) ∷ m) heap h = elim (Bool-cases (should_expire now (heap r))) [
    | inl e ↦ rw e (reap_loop-All P now m (write heap r (record (heap r) { closed = true })) h.1)
    | inr e ↦ rw e (h.0, reap_loop-All P now m heap h.1)
  ]

  pub reap_loop-IsUnshared :
      (now : ℕ) (m : List (Bytes × ℕ)) (heap : ℕ → SessionState M)
      → IsUnshared m
      → IsUnshared (reap_loop now m heap).0
  unfolding reap_loop
  reap_loop-IsUnshared now [] heap h = tt
  reap_loop-IsUnshared now ((k, r) ∷ m) heap h = elim (Bool-cases (should_expire now (heap r))) [
    | inl e ↦
        rw e (reap_loop-IsUnshared now m (write heap r (record (heap r) { closed = true })) h.1)
    | inr e ↦
        rw e (reap_loop-All (λ e. e.1 ≢ r) now m heap h.0, reap_loop-IsUnshared now m heap h.1)
  ]

  pub length-reap_loop-le :
      (now : ℕ) (m : List (Bytes × ℕ)) (heap : ℕ → SessionState M)
      → length (reap_loop now m heap).0 ≤ length m
  unfolding reap_loop
  length-reap_loop-le now [] heap = omega arith
  length-reap_loop-le now ((k, r) ∷ m) heap = elim (Bool-cases (should_expire now (heap r))) [
    | inl e ↦ rw e (
        omega (arith, length-reap_loop-le now m (write heap r (record (heap r) { closed = true }))))
    | inr e ↦ rw e (omega (arith, length-reap_loop-le now m heap))
  ]

  -- The loop closes the sessions in the map that are due, and changes no other.
  pub reap_loop-heap :
      (now : ℕ) (m : List (Bytes × ℕ)) (heap : ℕ → SessionState M) (r : ℕ)
      → (reap_loop now m heap).1 r ≡ (
          if mapped r m && should_expire now (heap r)
          then record (heap r) { closed = true }
          else heap r)
  unfolding reap_loop mapped
  reap_loop-heap now [] heap r = refl
  reap_loop-heap now ((k, q) ∷ m) heap r = elim (Bool-cases (should_expire now (heap q))) [
    | inl e ↦
        let shut = write heap q (record (heap q) { closed = true }) in
        rw e (
          reap_loop-heap now m shut r ∙ elim (Bool-cases (r == q)) [
            | inl same ↦ let at : r ≡ q = (==_iff r q).0 same in rw (same, at, e) (ground arith)
            | inr other ↦ rw other
          ])
    | inr e ↦ rw e (
        reap_loop-heap now m heap r ∙ elim (Bool-cases (r == q)) [
          | inl same ↦ let at : r ≡ q = (==_iff r q).0 same in rw (same, at, e) (ground arith)
          | inr other ↦ rw other
        ])
  ]

  keep-write :
      (now : ℕ) (heap : ℕ → SessionState M) (q : ℕ) (c : SessionState M) (m : List (Bytes × ℕ))
      → Unmapped q m
      → keep (λ e. not (should_expire now (write heap q c e.1))) m
        ≡ keep (λ e. not (should_expire now (heap e.1))) m
  keep-write now heap q c [] u = refl
  keep-write now heap q c ((k, r) ∷ m) u =
      rw (write_other heap q r c u.0) (rw (keep-write now heap q c m u.1))

  -- The loop takes out of the map the sessions that are due, and no others.
  pub reap_loop-keep :
      (now : ℕ) (m : List (Bytes × ℕ)) (heap : ℕ → SessionState M)
      → IsUnshared m
      → (reap_loop now m heap).0 ≡ keep (λ e. not (should_expire now (heap e.1))) m
  unfolding reap_loop
  reap_loop-keep now [] heap h = refl
  reap_loop-keep now ((k, r) ∷ m) heap h = elim (Bool-cases (should_expire now (heap r))) [
    | inl e ↦
        let shut : SessionState M = record (heap r) { closed = true } in
        rw e (reap_loop-keep now m (write heap r shut) h.1 ∙ keep-write now heap r shut m h.0)
    | inr e ↦ rw e (ap (◌∷◌ (k, r)) (reap_loop-keep now m heap h.1))
  ]

  pub reap_loop_other :
      (now : ℕ) (m : List (Bytes × ℕ)) (heap : ℕ → SessionState M) (r : ℕ)
      → Unmapped r m
      → (reap_loop now m heap).1 r ≡ heap r
  reap_loop_other now m heap r u = rw (reap_loop-heap now m heap r) (rw (mapped_of_Unmapped r m u))

  -- The entries that the loop keeps are as good as before.
  pub reap_loop-Entry :
      (now : ℕ) (m : List (Bytes × ℕ)) (heap : ℕ → SessionState M)
      → IsUnshared m
      → All (Entry heap) m
      → All (Entry (reap_loop now m heap).1) (reap_loop now m heap).0
  unfolding reap_loop
  reap_loop-Entry now [] heap h e = tt
  reap_loop-Entry now ((k, r) ∷ m) heap h e = elim (Bool-cases (should_expire now (heap r))) [
    | inl x ↦
        let shut : SessionState M = record (heap r) { closed = true } in
        rw x (
          reap_loop-Entry now m (write heap r shut) h.1
            (Entry-write-Unmapped heap r shut m h.0 e.1))
    | inr x ↦ rw x (rw (reap_loop_other now m heap r h.0) e.0, reap_loop-Entry now m heap h.1 e.1)
  ]

pub find-All {κ} :
    (P : ℕ → Type κ) (k : Bytes) (m : List (Bytes × ℕ)) (r : ℕ)
    → All (λ e. P e.1) m
    → find k m ≡ some r
    → P r
unfolding find
find-All P k [] r h e = cc
find-All P k ((j, q) ∷ m) r h e = elim (Bool-cases (j ==ᵇ k)) [
  | inl same ↦ let at : some q ≡ some r = rw same at e in let eq : q ≡ r = cc in rw (← eq) h.0
  | inr other ↦ find-All P k m r h.1 (rw other at e)
]

pub erase-All {κ} :
    (P : Bytes × ℕ → Type κ) (k : Bytes) (m : List (Bytes × ℕ)) → All P m → All P (erase k m)
unfolding erase
erase-All P k [] h = tt
erase-All P k ((j, q) ∷ m) h = elim (Bool-cases (j ==ᵇ k)) [
  | inl same ↦ rw same h.1
  | inr other ↦ rw other (h.0, erase-All P k m h.1)
]

pub erase-IsUnshared : (k : Bytes) (m : List (Bytes × ℕ)) → IsUnshared m → IsUnshared (erase k m)
unfolding erase
erase-IsUnshared k [] h = tt
erase-IsUnshared k ((j, q) ∷ m) h = elim (Bool-cases (j ==ᵇ k)) [
  | inl same ↦ rw same h.1
  | inr other ↦ rw other (erase-All (λ e. e.1 ≢ q) k m h.0, erase-IsUnshared k m h.1)
]

pub length-erase-le : (k : Bytes) (m : List (Bytes × ℕ)) → length (erase k m) ≤ length m
unfolding erase
length-erase-le k [] = omega arith
length-erase-le k ((j, q) ∷ m) = ground (arith, length-erase-le k m)

-- Once its entry is erased, a session is unmapped.
pub erase-Unmapped :
    (k : Bytes) (m : List (Bytes × ℕ)) (r : ℕ)
    → IsUnshared m
    → find k m ≡ some r
    → Unmapped r (erase k m)
unfolding erase find
erase-Unmapped k [] r h e = cc
erase-Unmapped k ((j, q) ∷ m) r h e = elim (Bool-cases (j ==ᵇ k)) [
  | inl same ↦
      let at : some q ≡ some r = rw same at e in let eq : q ≡ r = cc in rw same (rw (← eq) h.0)
  | inr other ↦
      let found : find k m ≡ some r = rw other at e in
      rw other
        (λ same. find-All (λ s. s ≢ q) k m r h.0 found (sym same), erase-Unmapped k m r h.1 found)
]
