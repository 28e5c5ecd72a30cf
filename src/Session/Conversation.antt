-- ===== src/Session/Conversation.antt =====
-- The shape of a session's history, and that one more turn and a trim keep it.
use zoo_keeper_server.Prelude.{
  ℕ, ◌+◌, ◌≤◌, ◌<◌, ◌^◌, ◌≡◌, refl, inl, inr, Option, List, [], ◌∷◌, ◌++◌, is_empty, leb, length,
  take, drop, arith, Bool-cases, Bytes, length-drop,
}
use zoo_keeper_server.Api.{MessageApi, Role, is_system}
use zoo_keeper_server.Session.Trim.{
  system_offset, trim_history_to_fit, make_initial_history, combine_system_prompts, value_or_empty,
}
use zoo_keeper_server.Session.Trim.Laws.{last_turns, trim_history_to_fit_lem, length-last_turns}

module _ {M : Type 0} ⦃api : MessageApi M⦄ where
  -- Whole turns: a user message and the reply to it.
  abbrev pub IsTurns : List M → Type 0
  IsTurns [] = Unit {0}
  IsTurns (u ∷ []) = ⊥
  IsTurns (u ∷ a ∷ ms) = (api.role u ≡ Role.user) × (api.role a ≡ Role.assistant) × IsTurns ms

  -- A system message, perhaps, and then whole turns.
  abbrev pub IsConversation : List M → Type 0
  IsConversation ms = IsTurns (drop (system_offset ms) ms)

  IsTurns-append :
      (ms : List M) (u a : M)
      → IsTurns ms
      → api.role u ≡ Role.user
      → api.role a ≡ Role.assistant
      → IsTurns (ms ++ u ∷ a ∷ [])
  IsTurns-append [] u a t e f = (e, f, tt)
  IsTurns-append (x ∷ []) u a t e f = absurd t
  IsTurns-append (x ∷ y ∷ ms) u a t e f = (t.0, t.1, IsTurns-append ms u a t.2 e f)

  IsTurns-last_turns : (n : ℕ) (ms : List M) → IsTurns ms → IsTurns (last_turns n ms)
  unfolding last_turns
  IsTurns-last_turns n [] t = tt
  IsTurns-last_turns n (x ∷ []) t = absurd t
  IsTurns-last_turns n (x ∷ y ∷ ms) t = elim (Bool-cases (leb (length (x ∷ y ∷ ms)) n)) [
    | inl fits ↦ rw (fits, t.0) t
    | inr long ↦
        let rest = IsTurns-last_turns n ms t.2 in
        elim (Bool-cases (leb (length (y ∷ ms)) n)) [
          | inl fits ↦ rw (long, fits, t.1) rest
          | inr over ↦ rw (long, over) rest
        ]
  ]

  system_offset_of_turns : (ms : List M) → IsTurns ms → system_offset ms ≡ 0
  unfolding system_offset
  system_offset_of_turns [] t = refl
  system_offset_of_turns (x ∷ []) t = absurd t
  system_offset_of_turns (x ∷ y ∷ ms) t = rw t.0

  turns-IsConversation : (ms : List M) → IsTurns ms → IsConversation ms
  turns-IsConversation ms t = rw (system_offset_of_turns ms t) t

  -- The kept system message, and the turns after it.
  kept-IsConversation :
      (n : ℕ) (ms : List M)
      → IsConversation ms
      → IsConversation (take (system_offset ms) ms ++ last_turns n (drop (system_offset ms) ms))
  unfolding system_offset
  kept-IsConversation n [] t = turns-IsConversation _ (IsTurns-last_turns n [] t)
  kept-IsConversation n (m ∷ ms) t = elim (Bool-cases (is_system (api.role m))) [
    | inl s ↦ rw s (rw s (IsTurns-last_turns n ms (rw s at t)))
    | inr s ↦ rw s (turns-IsConversation _ (IsTurns-last_turns n (m ∷ ms) (rw s at t)))
  ]

  -- Trimming keeps a conversation a conversation.
  pub trim-IsConversation :
      (ms : List M) (n : ℕ)
      → length ms < 2 ^ 64
      → n + 1 < 2 ^ 64
      → IsConversation ms
      → IsConversation (trim_history_to_fit ms n)
  trim-IsConversation ms n short small t =
      rw (trim_history_to_fit_lem ms n short small)
        (elim (Bool-cases (leb (length ms) (system_offset ms + n))) [
          | inl fits ↦ rw fits t
          | inr long ↦ rw long (kept-IsConversation n ms t)
        ])

  -- So does one more turn.
  pub append-IsConversation :
      (ms : List M) (u a : M)
      → IsConversation ms
      → api.role u ≡ Role.user
      → api.role a ≡ Role.assistant
      → IsConversation (ms ++ u ∷ a ∷ [])
  unfolding system_offset
  append-IsConversation [] u a t e f = turns-IsConversation (u ∷ a ∷ []) (e, f, tt)
  append-IsConversation (m ∷ ms) u a t e f = elim (Bool-cases (is_system (api.role m))) [
    | inl s ↦ rw s (IsTurns-append ms u a (rw s at t) e f)
    | inr s ↦ rw s (IsTurns-append (m ∷ ms) u a (rw s at t) e f)
  ]

  system_offset-last_turns : (n : ℕ) (ms : List M) → system_offset (last_turns n ms) ≡ 0
  unfolding system_offset last_turns
  system_offset-last_turns n [] = refl
  system_offset-last_turns n (m ∷ ms) = ground (arith, system_offset-last_turns n ms)

  kept_fits :
      (n : ℕ) (ms : List M)
      → let kept = take (system_offset ms) ms ++ last_turns n (drop (system_offset ms) ms) in
        length (drop (system_offset kept) kept) ≤ n
  unfolding system_offset
  kept_fits n [] = rw (system_offset-last_turns n []) (length-last_turns n [])
  kept_fits n (m ∷ ms) = elim (Bool-cases (is_system (api.role m))) [
    | inl s ↦ rw s (rw s (length-last_turns n ms))
    | inr s ↦ rw s (rw (system_offset-last_turns n (m ∷ ms)) (length-last_turns n (m ∷ ms)))
  ]

  -- After a trim at most `n` messages follow the system message.
  pub length-trim-le :
      (ms : List M) (n : ℕ)
      → length ms < 2 ^ 64
      → n + 1 < 2 ^ 64
      → let kept = trim_history_to_fit ms n in length (drop (system_offset kept) kept) ≤ n
  length-trim-le ms n short small =
      rw (trim_history_to_fit_lem ms n short small)
        (elim (Bool-cases (leb (length ms) (system_offset ms + n))) [
          | inl fits ↦ rw fits (rw (length-drop (system_offset ms) ms) (ground arith))
          | inr long ↦ rw long (kept_fits n ms)
        ])

module _ (M : Type 0) ⦃api : MessageApi M⦄ where
  -- A new session's history is a conversation with no turn yet.
  pub make_initial_history-IsConversation :
      (base : Bytes) (request : Option Bytes)
      → IsConversation (make_initial_history {M = M} base request)
  unfolding make_initial_history system_offset
  make_initial_history-IsConversation base request =
      elim (Bool-cases (is_empty (combine_system_prompts base (value_or_empty request)))) [
        | inl e ↦ rw e tt
        | inr e ↦ rw (e, api.role-system (combine_system_prompts base (value_or_empty request))) tt
      ]

  pub length-make_initial_history :
      (base : Bytes) (request : Option Bytes)
      → let h = make_initial_history {M = M} base request in length (drop (system_offset h) h) ≡ 0
  unfolding make_initial_history system_offset
  length-make_initial_history base request =
      elim (Bool-cases (is_empty (combine_system_prompts base (value_or_empty request)))) [
        | inl e ↦ rw e
        | inr e ↦ rw (e, api.role-system (combine_system_prompts base (value_or_empty request)))
      ]
