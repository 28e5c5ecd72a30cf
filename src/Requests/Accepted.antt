-- ===== src/Requests/Accepted.antt =====
-- What an accepted request satisfies.
use mathlib.Core.List.{append_assoc, append-nil}
use zoo_keeper_server.Prelude.{
  ◌≡◌, ◌≢◌, refl, sym, ◌∙◌, subst, Bytes, false, Option, none, some, List, [], ◌∷◌, ◌++◌, is_empty,
  text, Option-cases, inl, inr,
}
use zoo_keeper_server.Api.{ok, fail_if-passes, on_success, Role, MessageApi, ChatCompletionRequest}
use zoo_keeper_server.Json.{optional, required, string_of, JsonApi}
use zoo_keeper_server.Requests.Messages.{
  MessageParts, reject_api_unknown_keys, message_keys, parse_role, message_of, parse_message,
  parse_messages,
}
use zoo_keeper_server.Requests.Overrides.{Overrides, parse_generation_overrides}
use zoo_keeper_server.Requests.Parse.{
  chat_keys, message_items, parse_body, parse_model, parse_stream, nonempty_model,
  nonempty_messages, nonempty_session_id, parse_session_id, parse_chat_completion_request,
}

nonempty_of {ℓ} : {A : Type ℓ} (xs : List A) → is_empty xs ≡ false → xs ≢ []
nonempty_of [] h e = cc
nonempty_of (x ∷ xs) h e = cc

model_passes : (model : Bytes) {u : Unit {0}} → nonempty_model model ≡ ok u → model ≢ []
unfolding nonempty_model
model_passes model h = nonempty_of model (fail_if-passes _ _ h)

session_id_passes :
    (read : Option Bytes) {id : Option Bytes} → nonempty_session_id read ≡ ok id → id ≢ some []
unfolding nonempty_session_id
session_id_passes none h = cc
session_id_passes (some []) h = cc
session_id_passes (some (c ∷ cs)) h = cc

module _ {M : Type 0} ⦃api : MessageApi M⦄ (validate : List M → Role → Option Bytes) where
  -- Each message may follow those before it.
  abbrev pub IsSequence : List M → List M → Type 0
  IsSequence seed [] = Unit
  IsSequence seed (m ∷ ms) = (validate seed (api.role m) ≡ none) × IsSequence (seed ++ (m ∷ [])) ms

  -- A model, messages that may follow one another, and no empty session.
  abbrev pub IsWellFormed : ChatCompletionRequest M → Type 0
  IsWellFormed request =
      (request.model ≢ [])
      × (request.messages ≢ [])
      × IsSequence [] request.messages
      × (request.session_id ≢ some [])

nonempty_items :
    {A B : Type 0} (xs : List A) (ys : List B) {u : Unit {0}}
    → nonempty_messages ys ≡ ok u
    → is_empty xs ≡ is_empty ys
    → xs ≢ []
unfolding nonempty_messages
nonempty_items xs ys h e = nonempty_of xs (e ∙ fail_if-passes _ _ h)

-- The messages were read one after the other, each behind those before it.
record Read {J M : Type 0} ⦃api : MessageApi M⦄ (validate : List M → Role → Option Bytes)
    (js : List J) (seed out : List M) : Type 0 where
  pub read : List M
  pub appended : out ≡ seed ++ read
  pub sequence : IsSequence validate seed read
  pub as_many : is_empty read ≡ is_empty js

module _ {J R I M : Type 0} (json : JsonApi J R I) ⦃api : MessageApi M⦄ ⦃parts : MessageParts M⦄
    (validate : List M → Role → Option Bytes) where
  parse_message_eq_ok :
      (j : J) (seed : List M) (p : M × List M)
      → parse_message json validate j seed ≡ ok p
      → (validate seed (api.role p.0) ≡ none) × (p.1 ≡ seed ++ (p.0 ∷ []))
  unfolding parse_message
  parse_message_eq_ok j seed p h =
      on_success (reject_api_unknown_keys json j (text "message") message_keys) _ h (λ _ _ h1.
        on_success (required json (string_of json) (text "role") j _) _ h1 (λ name _ h2.
          on_success (required json (string_of json) (text "content") j _) _ h2 (λ content _ h3.
            on_success (parse_role name) _ h3 (λ role _ h4.
              on_success (message_of json j role content) _ h4 (λ m _ h5.
                elim (Option-cases (validate seed (api.role m)))
                  as (λ o. (validate seed (api.role p.0) ≡ none) × (p.1 ≡ seed ++ (p.0 ∷ []))) [
                    | inl e ↦
                        let same : (m, seed ++ (m ∷ [])) ≡ p = cc in
                        subst
                          (λ (q : M × List M).
                            (validate seed (api.role q.0) ≡ none) × (q.1 ≡ seed ++ (q.0 ∷ [])))
                          same (e, refl)
                    | inr (reason, e) ↦ cc
                  ])))))

  parse_messages_eq_ok :
      (js : List J) (seed out : List M)
      → parse_messages json validate js seed ≡ ok out
      → Read validate js seed out
  unfolding parse_messages
  parse_messages_eq_ok [] seed out h = record {
    read = [];
    appended = rw (append-nil seed) cc;
    sequence = tt;
    as_many = refl;
  }
  parse_messages_eq_ok (j ∷ js) seed out h =
      on_success (parse_message json validate j seed) _ h (λ p first rest.
        let (valid, grown) = parse_message_eq_ok j seed p first in
        let h' = subst (λ (l : List M). parse_messages json validate js l ≡ ok out) grown rest in
        let tail = parse_messages_eq_ok js (seed ++ (p.0 ∷ [])) out h' in
        record {
          read = p.0 ∷ tail.read;
          appended = tail.appended ∙ append_assoc seed (p.0 ∷ []) tail.read;
          sequence = (valid, tail.sequence);
          as_many = refl;
        })

  -- A chat request that is accepted names a model, has messages, each of which may follow those
  -- before it, and does not name the empty session.
  pub parse_chat_completion_request-IsWellFormed :
      (body : Bytes) (request : ChatCompletionRequest M) (overrides : Overrides R I)
      → parse_chat_completion_request json validate body ≡ ok (request, overrides)
      → IsWellFormed validate request
  unfolding parse_chat_completion_request parse_session_id nonempty_messages
  parse_chat_completion_request-IsWellFormed body request overrides h =
      on_success (parse_body json body) _ h (λ j _ h1.
        on_success (reject_api_unknown_keys json j (text "request") chat_keys) _ h1 (λ _ _ h2.
          on_success (parse_model json j) _ h2 (λ model _ h3.
            on_success (message_items json j) _ h3 (λ items _ h4.
              on_success (nonempty_model model) _ h4 (λ _ named h5.
                on_success (parse_stream json j) _ h5 (λ stream _ h6.
                  on_success (parse_session_id json j) _ h6 (λ id session h7.
                    on_success (parse_generation_overrides json j) _ h7 (λ o _ h8.
                      on_success (nonempty_messages items) _ h8 (λ _ some_items h9.
                        on_success (parse_messages json validate items []) _ h9 (λ ms parsed h10.
                          let items_read = parse_messages_eq_ok items [] ms parsed in
                          let sequence =
                            subst (λ (l : List M). IsSequence validate [] l)
                              (sym items_read.appended) items_read.sequence in
                          let filled =
                            nonempty_items ms items some_items
                              (rw (items_read.appended) items_read.as_many) in
                          let read : ChatCompletionRequest M × Overrides R I = (
                            record {
                              model = model;
                              messages = ms;
                              stream = stream;
                              session_id = id;
                            },
                            o,
                          ) in
                          let same : read ≡ (request, overrides) = cc in
                          subst
                            (λ (r : ChatCompletionRequest M × Overrides R I).
                              IsWellFormed validate r.0)
                            same
                            (
                              model_passes model named,
                              filled,
                              sequence,
                              on_success (optional json (string_of json) (text "session_id") j _) _
                                  session (λ given _ g. session_id_passes given g),
                            )))))))))))
