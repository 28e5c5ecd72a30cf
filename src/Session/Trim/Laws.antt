-- ===== src/Session/Trim/Laws.antt =====
-- What trimming keeps, against a reference that looks for the last turns of the conversation.
use zoo_keeper_server.Prelude.{
  ℕ, suc, zero, ◌+◌, ◌-◌, ◌≤◌, ◌<◌, ◌^◌, ◌≡◌, refl, sym, ap, ◌∙◌, inl, inr, ◌&&◌, List, [], ◌∷◌,
  ◌++◌, if◌then◌else◌, leb, length, length-drop, take, drop, wrap64, arith, Bool-cases,
}
use zoo_keeper_server.Api.{MessageApi, is_user}
use zoo_keeper_server.Session.Trim.{system_offset, skip_to_user, trim_history_to_fit}

module _ {M : Type 0} ⦃api : MessageApi M⦄ where
  -- The longest end of a conversation that has at most `n` messages and starts with the user.
  unfoldable pub last_turns : ℕ → List M → List M
  last_turns n [] = []
  last_turns n (m ∷ ms) =
      if leb (length (m ∷ ms)) n && is_user (api.role m) then m ∷ ms else last_turns n ms

  from_user : List M → List M
  from_user [] = []
  from_user (m ∷ ms) = if is_user (api.role m) then m ∷ ms else from_user ms

  drop-suc : (n : ℕ) (ms : List M) {x : M} {r : List M} → drop n ms ≡ x ∷ r → drop (suc n) ms ≡ r
  drop-suc zero [] e = cc
  drop-suc zero (m ∷ ms) e = cc
  drop-suc (suc n) [] e = cc
  drop-suc (suc n) (m ∷ ms) e = drop-suc n ms e

  -- The loop of the source, by indices, finds the first user message from `n` on.
  drop-skip_to_user :
      (n : ℕ) (ms r : List M) → drop n ms ≡ r → drop (skip_to_user n r) ms ≡ from_user r
  unfolding skip_to_user from_user
  drop-skip_to_user n ms [] e = e
  drop-skip_to_user n ms (x ∷ r) e = elim (Bool-cases (is_user (api.role x))) [
    | inl u ↦ ground arith
    | inr u ↦ ground (arith, drop-skip_to_user (suc n) ms r (drop-suc n ms e))
  ]

  skip_to_user-le : (n : ℕ) (r : List M) → n ≤ skip_to_user n r
  unfolding skip_to_user
  skip_to_user-le n [] = omega arith
  skip_to_user-le n (x ∷ r) = ground (arith, skip_to_user-le (suc n) r)

  last_turns_fits : (n : ℕ) (ms : List M) → length ms ≤ n → last_turns n ms ≡ from_user ms
  unfolding last_turns from_user
  last_turns_fits n [] h = refl
  last_turns_fits n (m ∷ ms) h = ground (arith, last_turns_fits n ms)

  last_turns_long :
      (n k : ℕ) (ms : List M) → length ms ≡ n + k → last_turns n ms ≡ from_user (drop k ms)
  unfolding last_turns
  last_turns_long n zero ms h = last_turns_fits n ms (omega arith)
  last_turns_long n (suc k) [] h = absurd (omega arith)
  last_turns_long n (suc k) (m ∷ ms) h = ground (arith, last_turns_long n k ms)

  pub length-last_turns : (n : ℕ) (ms : List M) → length (last_turns n ms) ≤ n
  unfolding last_turns
  length-last_turns n [] = omega arith
  length-last_turns n (m ∷ ms) = ground (arith, length-last_turns n ms)

  pub system_offset-le : (ms : List M) → (system_offset ms ≤ 1) × (system_offset ms ≤ length ms)
  unfolding system_offset
  system_offset-le [] = omega arith
  system_offset-le (m ∷ ms) = ground arith

  drop-nil : (k : ℕ) → drop {A = M} k [] ≡ []
  drop-nil zero = refl
  drop-nil (suc k) = refl

  drop-drop : (o k : ℕ) (ms : List M) → drop k (drop o ms) ≡ drop (o + k) ms
  drop-drop zero k ms = ap (λ j. drop j ms) (omega arith)
  drop-drop (suc o) k [] = drop-nil k ∙ sym (drop-nil (suc o + k))
  drop-drop (suc o) k (m ∷ ms) =
      drop-drop o k ms
      ∙ ap (λ j. drop j (m ∷ ms)) (let e : suc (o + k) ≡ suc o + k = omega arith in e)

  drop_to_last_turns :
      (o n : ℕ) (ms : List M)
      → o + n < length ms
      → let k = length ms - n in drop (skip_to_user k (drop k ms)) ms ≡ last_turns n (drop o ms)
  drop_to_last_turns o n ms h =
      drop-skip_to_user k ms (drop k ms) refl
      ∙ ap from_user (
          ap (λ j. drop j ms) (let e : k ≡ o + (k - o) = omega arith in e)
          ∙ sym (drop-drop o (k - o) ms))
      ∙ sym (last_turns_long n (k - o) (drop o ms) (omega (arith, length-drop o ms)))
    where
      k : ℕ
      k = length ms - n

  -- What `trim_history_to_fit` leaves, when no sum wraps: the history where it fits, and else its
  -- system message, if it begins with one, and the last turns of the rest.
  pub trim_history_to_fit_lem :
      (ms : List M) (n : ℕ)
      → length ms < 2 ^ 64
      → n + 1 < 2 ^ 64
      → trim_history_to_fit ms n ≡ (
          if leb (length ms) (system_offset ms + n)
          then ms
          else take (system_offset ms) ms ++ last_turns n (drop (system_offset ms) ms))
  unfolding trim_history_to_fit
  trim_history_to_fit_lem ms n short small = elim (Bool-cases (leb (length ms) (o + n))) [
    | inl fits ↦ ground (arith, system_offset-le ms)
    | inr large ↦
        let bounds = system_offset-le ms in
        let k = length ms - n in
        let first : wrap64 (length ms + 2 ^ 64 - n) ≡ k = ground arith in
        ground
          (arith, first, drop_to_last_turns o n ms (ground arith), skip_to_user-le k (drop k ms))
  ]
    where
      o : ℕ
      o = system_offset ms
