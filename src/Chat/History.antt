-- ===== src/Chat/History.antt =====
-- The system prompt and the histories that it stands in front of.
use zoo_keeper_server.Prelude.{
  ◌++◌, text, ◌≡◌, refl, ◌∙◌, inl, inr, Bytes, true, false, List, [], ◌∷◌, is_empty, if◌then◌else◌,
  drop, arith, Bool-cases,
}
use zoo_keeper_server.Api.{MessageApi, Role, is_system}
use zoo_keeper_server.Session.Trim.{system_offset, combine_system_prompts}
use zoo_keeper_server.Session.Store.{set_base_system_prompt}
use zoo_keeper_server.Chat.{
  Service, with_prompt, set_system_prompt, get_system_prompt, update_system_prompt_state,
  prepare_messages,
}

system_of_test : (r : Role) → is_system r ≡ true → r ≡ Role.system
system_of_test r h = ground arith

combine-ne-nil :
    (prompt more : Bytes)
    → is_empty prompt ≡ false
    → is_empty (combine_system_prompts prompt more) ≡ false
unfolding combine_system_prompts
combine-ne-nil [] more h = cc
combine-ne-nil (c ∷ p) [] h = refl
combine-ne-nil (c ∷ p) (d ∷ q) h = refl

-- The prompt, and after an empty line the request's own text, if there is any.
abbrev pub joined : Bytes → Bytes → Bytes
joined prompt [] = prompt
joined prompt (c ∷ more) = prompt ++ (10 ∷ 10 ∷ c ∷ more)

combine-joined :
    (prompt more : Bytes)
    → is_empty prompt ≡ false
    → joined prompt more ≡ combine_system_prompts prompt more
unfolding combine_system_prompts text
combine-joined [] more h = cc
combine-joined (c ∷ p) [] h = refl
combine-joined (c ∷ p) (d ∷ q) h = refl

module _ {M : Type 0} ⦃api : MessageApi M⦄ where
  -- The messages after the system message, if there is one.
  abbrev pub body : List M → List M
  body ms = drop (system_offset ms) ms

  -- `ms` is one system message with the text `prompt` and then `rest`, or `rest` if `prompt` is empty.
  pub data HasPrompt (prompt : Bytes) (rest ms : List M) : Type 0 where
    without : is_empty prompt ≡ true → ms ≡ rest → HasPrompt prompt rest ms
    within :
        (m : M)
        → is_empty prompt ≡ false
        → api.role m ≡ Role.system
        → api.content m ≡ prompt
        → ms ≡ m ∷ rest
        → HasPrompt prompt rest ms

  with_prompt-HasPrompt :
      (prompt : Bytes) (ms : List M) → HasPrompt prompt (body ms) (with_prompt prompt ms)
  unfolding system_offset
  with_prompt-HasPrompt [] [] = without refl refl
  with_prompt-HasPrompt (c ∷ p) [] =
      within (api.system (c ∷ p)) refl (api.role-system (c ∷ p)) (api.content-system (c ∷ p)) refl
  with_prompt-HasPrompt [] (m ∷ ms) = elim (Bool-cases (is_system (api.role m))) [
    | inl s ↦ rw s (without refl refl)
    | inr s ↦ rw s (without refl refl)
  ]
  with_prompt-HasPrompt (c ∷ p) (m ∷ ms) = elim (Bool-cases (is_system (api.role m))) [
    | inl s ↦ rw s (
        within (api.with_content m (c ∷ p)) refl
          (api.role-with_content m (c ∷ p) ∙ system_of_test (api.role m) s)
          (api.content-with_content m (c ∷ p)) refl)
    | inr s ↦ rw s (
        within (api.system (c ∷ p)) refl (api.role-system (c ∷ p)) (api.content-system (c ∷ p))
          refl)
  ]

  -- After a change of the prompt the service, the session store and the retained history agree on
  -- it: the history has the new prompt in front, in place of an old system message, and is else
  -- unchanged; the sessions that there are, their histories included, are untouched.
  pub set_system_prompt_lem :
      (prompt : Bytes) (s : Service M)
      → let s' = set_system_prompt prompt s in
        (get_system_prompt s' ≡ prompt)
        × (s'.store.base_system_prompt ≡ prompt)
        × HasPrompt prompt (body s.agent_history) s'.agent_history
        × (s'.store.sessions ≡ s.store.sessions)
        × (s'.store.heap ≡ s.store.heap)
  unfolding set_system_prompt get_system_prompt update_system_prompt_state set_base_system_prompt
  set_system_prompt_lem prompt s =
      (refl, refl, with_prompt-HasPrompt prompt s.agent_history, refl, refl)

  -- The text in front of a request's messages: the request's own system message is joined on.
  abbrev pub effective_prompt : Bytes → List M → Bytes
  effective_prompt prompt [] = prompt
  effective_prompt prompt (m ∷ ms) =
      if is_system (api.role m) then joined prompt (api.content m) else prompt

  -- With no prompt configured the messages are sent as they are; with one, one system
  -- message stands in front of the request's other messages, and it holds the prompt and then,
  -- after an empty line, the text of the request's own system message, if that comes first and is
  -- not empty.
  pub prepare_messages_lem :
      (prompt : Bytes) (ms : List M)
      → ((prompt ≡ []) → prepare_messages prompt ms ≡ ms)
        × (is_empty prompt ≡ false
            → HasPrompt (effective_prompt prompt ms) (body ms) (prepare_messages prompt ms))
  unfolding prepare_messages system_offset
  prepare_messages_lem prompt [] = (
    λ e. rw e,
    λ h.
        rw h
          (within (api.system prompt) h (api.role-system prompt) (api.content-system prompt) refl),
  )
  prepare_messages_lem prompt (m ∷ ms) = (
    λ e. rw e,
    λ h. elim (Bool-cases (is_system (api.role m))) [
      | inl s ↦
          let t = combine_system_prompts prompt (api.content m) in
          rw (h, s, combine-joined prompt (api.content m) h)
            (within (api.system t) (combine-ne-nil prompt (api.content m) h) (api.role-system t)
              (api.content-system t) refl)
      | inr s ↦
          rw (h, s)
            (within (api.system prompt) h (api.role-system prompt) (api.content-system prompt) refl)
    ],
  )
