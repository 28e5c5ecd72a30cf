-- ===== src/Requests/Errors.antt =====
-- The errors of the parsers of requests.
use zoo_keeper_server.Prelude.{
  ◌≡◌, refl, subst, Bytes, Bool, true, false, Option, none, some, List, [], ◌∷◌, if◌then◌else◌,
  text,
}
use zoo_keeper_server.Api.{
  Expected, ok, err, ◌>>=◌, fail_if, ApiError, ApiResult, Role, MessageApi, invalid_request_error,
}
use zoo_keeper_server.Json.{
  optional, required, string_of, JsonApi, member, members, reject_unknown_keys,
}
use zoo_keeper_server.Requests.Messages.{
  MessageParts, message_keys, reject_api_unknown_keys, parse_role, parse_tool_call,
  parse_tool_calls, tool_message, calls_message, other_message, message_of, parse_message,
  parse_messages, parse_single_message_field,
}
use zoo_keeper_server.Requests.Overrides.{stop_entries, parse_stop, parse_generation_overrides}
use zoo_keeper_server.Requests.Parse.{
  nonempty_model, nonempty_messages, nonempty_session_id, message_items, parse_body, parse_model,
  parse_stream, parse_session_id, parse_session_create_request, parse_system_prompt_request,
  parse_chat_completion_request, parse_extraction_request, parse_agent_chat_request,
  parse_agent_history_request, parse_agent_history_message_request,
}

-- An answer with status 400, of the type that says that the request is invalid.
pub record IsRefusal (e : ApiError) : Type 0 where
  pub status : e.http_status ≡ 400
  pub kind : e.type ≡ text "invalid_request_error"

-- All that the function reports is a refusal.
pub data Refuses {A : Type 0} (m : ApiResult A) : Type 0 where
  refuses : ((e : ApiError) → m ≡ err e → IsRefusal e) → Refuses m

invalid_lem :
    (message : Bytes) (param code : Option Bytes)
    → IsRefusal (invalid_request_error message param code)
unfolding invalid_request_error
invalid_lem message param code = record { status = refl; kind = refl }

accepts : {A : Type 0} (a : A) → Refuses (ok a)
accepts a = refuses (λ e h. cc)

rejects : {A : Type 0} (e : ApiError) → IsRefusal e → Refuses {A = A} (err e)
rejects {A} e h = refuses (λ e' eq. let same : e ≡ e' = cc in subst IsRefusal same h)

chain :
    {A B : Type 0} (m : ApiResult A) (f : A → ApiResult B)
    → Refuses m
    → ((a : A) → Refuses (f a))
    → Refuses (m >>= f)
chain (ok a) f h k = k a
chain (err e) f (refuses h) k = rejects e (h e refl)

choose :
    {A B : Type 0} (o : Option A) (n : ApiResult B) (s : A → ApiResult B)
    → Refuses n
    → ((a : A) → Refuses (s a))
    → Refuses (elim o [ none ↦ n | some a ↦ s a ])
choose none n s h k = h
choose (some a) n s h k = k a

branch :
    {A : Type 0} (b : Bool) (x y : ApiResult A)
    → Refuses x
    → Refuses y
    → Refuses (if b then x else y)
branch true x y h k = h
branch false x y h k = k

fail_if-Refuses : (b : Bool) (e : ApiError) → IsRefusal e → Refuses (fail_if b e)
fail_if-Refuses true e h = rejects e h
fail_if-Refuses false e h = accepts tt

ruleset refusals = (invalid_lem, accepts, rejects, chain, choose, branch, fail_if-Refuses)

on_failure :
    {A : Type 0} (m : Expected Bytes A) (f : Bytes → ApiError)
    → ((message : Bytes) → IsRefusal (f message))
    → Refuses (elim m [ ok a ↦ ok a | err message ↦ err (f message) ])
on_failure (ok a) f h = accepts a
on_failure (err message) f h = rejects (f message) (h message)

parse_role-Refuses : (role : Bytes) → Refuses (parse_role role)
unfolding parse_role
parse_role-Refuses role = search refusals depth 20

nonempty_session_id-Refuses : (o : Option Bytes) → Refuses (nonempty_session_id o)
unfolding nonempty_session_id
nonempty_session_id-Refuses none = accepts none
nonempty_session_id-Refuses (some id) = search refusals

nonempty_model-Refuses : (model : Bytes) → Refuses (nonempty_model model)
unfolding nonempty_model
nonempty_model-Refuses model = search refusals

nonempty_messages-Refuses : {J : Type 0} (items : List J) → Refuses (nonempty_messages items)
unfolding nonempty_messages
nonempty_messages-Refuses items = search refusals

module _ {J R I : Type 0} (json : JsonApi J R I) where
  required-Refuses :
      {A : Type 0} (read : J → Option A) (key : Bytes) (j : J) (e : ApiError)
      → IsRefusal e
      → Refuses (required json read key j e)
  unfolding required
  required-Refuses read key j e h =
      choose (member key (members (json.view j))) _ _ (rejects e h)
        (λ v. choose (read v) _ _ (rejects e h) accepts)

  optional-Refuses :
      {A : Type 0} (read : J → Option A) (key : Bytes) (j : J) (e : ApiError)
      → IsRefusal e
      → Refuses (optional json read key j e)
  unfolding optional
  optional-Refuses read key j e h =
      choose (member key (members (json.view j))) _ _ (accepts none)
        (λ v. choose (read v) _ _ (rejects e h) (λ a. accepts (some a)))

  stop_entries-Refuses : (js : List J) → Refuses (stop_entries json js)
  unfolding stop_entries
  stop_entries-Refuses [] = accepts []
  stop_entries-Refuses (j ∷ js) =
      choose (string_of json j) _ _ (search refusals)
        (λ s. search (refusals, stop_entries-Refuses js))

  stop_of-Refuses :
      (o : Option (List J))
      → Refuses (elim o [ none ↦ ok none | some js ↦ stop_entries json js >>= λ ss. ok (some ss) ])
  stop_of-Refuses none = accepts none
  stop_of-Refuses (some js) = search (refusals, stop_entries-Refuses js)

  ruleset reading = (refusals, required-Refuses, optional-Refuses, stop_of-Refuses)

  parse_stop-Refuses : (j : J) → Refuses (parse_stop json j)
  unfolding parse_stop
  parse_stop-Refuses j = search reading

  parse_generation_overrides-Refuses : (j : J) → Refuses (parse_generation_overrides json j)
  unfolding parse_generation_overrides
  parse_generation_overrides-Refuses j = search (reading, parse_stop-Refuses) depth 30

  reject_lem :
      (j : J) (context : Bytes) (allowed : List Bytes)
      → Refuses (reject_api_unknown_keys json j context allowed)
  unfolding reject_api_unknown_keys
  reject_lem j context allowed =
      on_failure (reject_unknown_keys (json.view j) context allowed) _
        (λ message. invalid_lem _ _ _)

  ruleset checked = (reading, reject_lem)

  parse_tool_call-Refuses : (j : J) → Refuses (parse_tool_call json j)
  unfolding parse_tool_call
  parse_tool_call-Refuses j = search checked depth 30

  parse_tool_calls-Refuses : (js : List J) → Refuses (parse_tool_calls json js)
  unfolding parse_tool_calls
  parse_tool_calls-Refuses [] = accepts []
  parse_tool_calls-Refuses (j ∷ js) =
      search (checked, parse_tool_call-Refuses, parse_tool_calls-Refuses js)

  message_items-Refuses : (j : J) → Refuses (message_items json j)
  unfolding message_items
  message_items-Refuses j = search checked

  parse_body-Refuses : (body : Bytes) → Refuses (parse_body json body)
  unfolding parse_body
  parse_body-Refuses body = on_failure (json.parse body) _ (λ what. invalid_lem _ _ _)

  parse_model-Refuses : (j : J) → Refuses (parse_model json j)
  unfolding parse_model
  parse_model-Refuses j = search checked

  stream_of-Refuses : (o : Option Bool) → Refuses (elim o [ none ↦ ok false | some b ↦ ok b ])
  stream_of-Refuses none = accepts false
  stream_of-Refuses (some b) = accepts b

  parse_stream-Refuses : (j : J) → Refuses (parse_stream json j)
  unfolding parse_stream
  parse_stream-Refuses j = search (checked, stream_of-Refuses)

  parse_session_id-Refuses : (j : J) → Refuses (parse_session_id json j)
  unfolding parse_session_id
  parse_session_id-Refuses j = search (checked, nonempty_session_id-Refuses)

  ruleset fields = (
    checked, parse_generation_overrides-Refuses, message_items-Refuses, parse_body-Refuses,
    parse_model-Refuses, parse_stream-Refuses, parse_session_id-Refuses, nonempty_model-Refuses,
    nonempty_messages-Refuses,
  )

  parse_session_create_request-Refuses :
      (body : Bytes) → Refuses (parse_session_create_request json body)
  unfolding parse_session_create_request
  parse_session_create_request-Refuses body = search fields depth 30

  parse_system_prompt_request-Refuses :
      (body : Bytes) → Refuses (parse_system_prompt_request json body)
  unfolding parse_system_prompt_request
  parse_system_prompt_request-Refuses body = search fields depth 30

module _ {J R I M : Type 0} (json : JsonApi J R I) ⦃api : MessageApi M⦄ ⦃parts : MessageParts M⦄
    (validate : List M → Role → Option Bytes) where
  tool_message-Refuses : (j : J) (content : Bytes) → Refuses (tool_message {M = M} json j content)
  unfolding tool_message
  tool_message-Refuses j content = search checked depth 30

  calls_message-Refuses :
      (j : J) (role : Role) (content : Bytes) → Refuses (calls_message {M = M} json j role content)
  unfolding calls_message
  calls_message-Refuses j role content = search (checked, parse_tool_calls-Refuses) depth 30

  other_message-Refuses :
      (j : J) (role : Role) (content : Bytes) → Refuses (other_message {M = M} json j role content)
  unfolding other_message
  other_message-Refuses j role content = search (checked, calls_message-Refuses) depth 30

  message_of-Refuses :
      (j : J) (role : Role) (content : Bytes) → Refuses (message_of {M = M} json j role content)
  message_of-Refuses j Role.system content = other_message-Refuses j Role.system content
  message_of-Refuses j Role.user content = other_message-Refuses j Role.user content
  message_of-Refuses j Role.assistant content = other_message-Refuses j Role.assistant content
  message_of-Refuses j Role.tool content = tool_message-Refuses j content

  sequence_of-Refuses :
      {A : Type 0} (o : Option Bytes) (a : A)
      → Refuses (elim o [
        | some reason ↦ err (
            invalid_request_error reason
              (some (text "messages"))
              (some (text "invalid_message_sequence")))
        | none ↦ ok a
      ])
  sequence_of-Refuses none a = accepts a
  sequence_of-Refuses (some reason) a = rejects _ (invalid_lem _ _ _)

  parse_message-Refuses : (j : J) (seed : List M) → Refuses (parse_message json validate j seed)
  unfolding parse_message
  parse_message-Refuses j seed =
      chain (reject_api_unknown_keys json j (text "message") message_keys) _ (search checked) (λ _.
        chain (required json (string_of json) (text "role") j _) _ (search checked) (λ name.
          chain (required json (string_of json) (text "content") j _) _ (search checked) (λ content.
            chain _ _ (parse_role-Refuses name) (λ role.
              chain _ _ (message_of-Refuses j role content)
                (λ message. sequence_of-Refuses (validate seed (api.role message)) _)))))

  parse_messages-Refuses :
      (js : List J) (seed : List M) → Refuses (parse_messages json validate js seed)
  unfolding parse_messages
  parse_messages-Refuses [] seed = accepts seed
  parse_messages-Refuses (j ∷ js) seed =
      chain _ _ (parse_message-Refuses j seed) (λ p. parse_messages-Refuses js p.1)

  parse_single_message_field-Refuses :
      (j : J) (field context : Bytes)
      → Refuses (parse_single_message_field json validate j field context)
  unfolding parse_single_message_field
  parse_single_message_field-Refuses j field context =
      search (checked, parse_message-Refuses) depth 30

  ruleset requests = (fields, parse_messages-Refuses, parse_single_message_field-Refuses)

  -- Whatever the body is, each parser of requests either accepts it or answers with status 400 and
  -- the type of an invalid request.
  pub requests_refuse :
      (body : Bytes)
      → Refuses (parse_chat_completion_request json validate body)
        × Refuses (parse_extraction_request json validate body)
        × Refuses (parse_session_create_request json body)
        × Refuses (parse_system_prompt_request json body)
        × Refuses (parse_agent_chat_request json validate body)
        × Refuses (parse_agent_history_request json validate body)
        × Refuses (parse_agent_history_message_request json validate body)
  unfolding parse_chat_completion_request parse_extraction_request parse_agent_chat_request
      parse_agent_history_request parse_agent_history_message_request
  requests_refuse body = (
    search requests depth 40,
    search requests depth 40,
    parse_session_create_request-Refuses json body,
    parse_system_prompt_request-Refuses json body,
    search requests depth 40,
    search requests depth 40,
    search requests depth 40,
  )
