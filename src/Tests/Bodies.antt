-- ===== src/Tests/Bodies.antt =====
-- Bodies of requests, read with the library of `Tests.Json`.
use zoo_keeper_server.Prelude.{
  ℕ, ◌≡◌, refl, Bytes, false, Option, none, some, List, [], ◌∷◌, map, text, ◌==ᵇ◌,
}
use zoo_keeper_server.Api.{ok, Role, ChatCompletionRequest}
use zoo_keeper_server.Json.{
  optional, required, member, is_allowed, reject_members, reject_unknown_keys,
}
use zoo_keeper_server.Requests.Messages.{
  reject_api_unknown_keys, parse_role, other_message, parse_message, parse_messages,
}
use zoo_keeper_server.Requests.Overrides.{Overrides, parse_stop, parse_generation_overrides}
use zoo_keeper_server.Requests.Parse.{
  nonempty_model, nonempty_messages, nonempty_session_id, message_items, parse_body, parse_model,
  parse_stream, parse_session_id, parse_chat_completion_request, parse_extraction_request,
  parse_session_create_request, parse_system_prompt_request, parse_agent_chat_request,
  parse_agent_history_request, parse_agent_history_message_request,
}
use zoo_keeper_server.Requests.Accepted.{IsWellFormed, parse_chat_completion_request-IsWellFormed}
use zoo_keeper_server.Requests.Errors.{Refuses, requests_refuse}
use zoo_keeper_server.Bodies.{RoleNames, make_message_body, make_tool_call}
use zoo_keeper_server.Bodies.RoundTrip.{IsPrintable}
use zoo_keeper_server.Bodies.History.{ReadsRoles, AllSame, history_roundtrip}
use zoo_keeper_server.Tests.{Message, message_api, message_parts, hello}
use zoo_keeper_server.Tests.Json.{Value, words, document, listed, library}

abbrev pub role_names : RoleNames
role_names = record {
  role_to_string = λ r. elim r [
    | Role.system ↦ text "system"
    | Role.user ↦ text "user"
    | Role.assistant ↦ text "assistant"
    | Role.tool ↦ text "tool"
  ];
  of_system = refl;
  of_user = refl;
  of_assistant = refl;
  of_tool = refl;
}

-- No tool answers first.
abbrev pub checked_role : List Message → Role → Option Bytes
checked_role [] Role.tool = some (text "a tool message must follow an assistant message")
checked_role _ _ = none

checked_role-ReadsRoles : ReadsRoles checked_role
checked_role-ReadsRoles [] [] r h = refl
checked_role-ReadsRoles [] (n ∷ ns) r h = cc
checked_role-ReadsRoles (m ∷ ms) [] r h = cc
checked_role-ReadsRoles (m ∷ ms) (n ∷ ns) r h = refl

abbrev tool_use : List Message
tool_use =
    hello
    ∷ record {
      role = Role.assistant;
      content = [];
      tool_call_id = [];
      tool_calls =
          record { id = text "call-1"; name = text "clock"; arguments_json = text "{}" } ∷ [];
    }
    ∷ record {
      role = Role.tool;
      content = text "noon";
      tool_call_id = text "call-1";
      tool_calls = [];
    }
    ∷ []

abbrev printed : Value
printed = document (
    (text "messages", listed (map (make_message_body (library (words [])) role_names) tool_use))
    ∷ [])

history_roundtrip_example :
    (ns : List Message) × AllSame tool_use ns
    × (parse_agent_history_request (library printed) checked_role (text "{}") ≡ ok ns)
unfolding text make_message_body make_tool_call
history_roundtrip_example =
    history_roundtrip (library printed) role_names checked_role checked_role-ReadsRoles tool_use
      (
        IsPrintable.as_plain refl refl refl,
        (IsPrintable.as_calls refl refl refl, (IsPrintable.as_tool refl refl refl, tt)),
      )
      (refl, (refl, (refl, tt))) (text "{}") refl

requests_refuse_example :
    let json = library printed in
    Refuses (parse_chat_completion_request json checked_role (text "{}"))
    × Refuses (parse_extraction_request json checked_role (text "{}"))
    × Refuses (parse_session_create_request json (text "{}"))
    × Refuses (parse_system_prompt_request json (text "{}"))
    × Refuses (parse_agent_chat_request json checked_role (text "{}"))
    × Refuses (parse_agent_history_request json checked_role (text "{}"))
    × Refuses (parse_agent_history_message_request json checked_role (text "{}"))
requests_refuse_example = requests_refuse (library printed) checked_role (text "{}")

abbrev chat_document : Value
chat_document = document (
    (text "model", words (text "m"))
    ∷ (text "messages", listed (make_message_body (library (words [])) role_names hello ∷ []))
    ∷ (text "session_id", words (text "sess-1"))
    ∷ [])

abbrev accepted_chat : ChatCompletionRequest Message
accepted_chat = record {
  model = text "m";
  messages = hello ∷ [];
  stream = false;
  session_id = some (text "sess-1");
}

abbrev no_overrides : Overrides ℕ ℕ
no_overrides = record {
  temperature = none;
  top_p = none;
  top_k = none;
  repeat_penalty = none;
  repeat_last_n = none;
  max_tokens = none;
  seed = none;
  stop = none;
  record_tool_trace = none;
}

chat_accepted :
    parse_chat_completion_request (library chat_document) checked_role (text "{}")
    ≡ ok (accepted_chat, no_overrides)
unfolding parse_chat_completion_request parse_body text reject_api_unknown_keys reject_unknown_keys
    reject_members is_allowed ◌==ᵇ◌ parse_model required member message_items nonempty_model
    parse_stream optional parse_session_id nonempty_session_id parse_generation_overrides parse_stop
    nonempty_messages parse_messages parse_message parse_role other_message make_message_body
chat_accepted = refl

parse_chat_completion_request-IsWellFormed_example : IsWellFormed checked_role accepted_chat
parse_chat_completion_request-IsWellFormed_example =
    parse_chat_completion_request-IsWellFormed (library chat_document) checked_role (text "{}")
      accepted_chat no_overrides chat_accepted
