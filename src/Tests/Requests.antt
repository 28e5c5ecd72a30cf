-- ===== src/Tests/Requests.antt =====
-- Authentication, streaming and chat requests at the data of `Tests`.
use zoo_keeper_server.Prelude.{
  ◌≢◌, ℕ, ◌≡◌, ◌↔◌, ◌⊎◌, refl, none, some, [], ◌++◌, text, arith, is_empty, false, Bytes, ◌==ᵇ◌,
  to_string, true,
}
use zoo_keeper_server.Api.{ok, err}
use zoo_keeper_server.Auth.{check_auth, bearer_prefix, invalid_api_key}
use zoo_keeper_server.Auth.Laws.{check_auth_iff}
use zoo_keeper_server.Streaming.{make_chunk_impl, json_escaped}
use zoo_keeper_server.Streaming.Escape.{unescape, plain, unescape-json_escaped}
use zoo_keeper_server.Streaming.Frames.{make_chunk_impl-frame, frame, IsLine}
use zoo_keeper_server.Chat.{
  Service, cancel, call, cancel_request, unknown_request, prepare_messages, set_system_prompt,
  get_system_prompt,
}
use zoo_keeper_server.Chat.Start.{
  Lease, start_session, start_begun, Kind, commits, Pending, start_request, release,
}
use zoo_keeper_server.Chat.Cleanup.{start-cancel-release}
use zoo_keeper_server.Chat.History.{
  HasPrompt, body, effective_prompt, prepare_messages_lem, set_system_prompt_lem,
}
use zoo_keeper_server.Session.Store.{
  begin_request, reap_and_find, reap_expired_sessions_locked, reap_loop, find, begin_section,
}
use zoo_keeper_server.Tests.{Message, message_api, hello, two_turns, service, chat_request}

check_auth_example :
    ((check_auth (text "Bearer k") (some (text "k")) ≡ none)
      ↔ (text "Bearer k" ≡ bearer_prefix ++ text "k"))
    × ((check_auth (text "Bearer k") (some (text "k")) ≡ none)
        ⊎ (check_auth (text "Bearer k") (some (text "k")) ≡ some invalid_api_key))
    × (check_auth (text "Bearer k") none ≡ none)
unfolding text
check_auth_example = check_auth_iff (text "Bearer k") (text "k") (omega arith) (omega arith)

json_escaped_example : unescape plain (json_escaped (text "a\"b\n")) ≡ some (text "a\"b\n")
json_escaped_example = unescape-json_escaped (text "a\"b\n")

make_chunk_impl_example :
    (line : Bytes) × (make_chunk_impl (text "id") 5 (text "m") (some (text "a\nb")) true none
      ≡ frame line)
    × IsLine line
make_chunk_impl_example =
    make_chunk_impl-frame (text "id") 5 (text "m") (some (text "a\nb")) true none

set_system_prompt_example :
    let s' = set_system_prompt (text "be kind") service in
    (get_system_prompt s' ≡ text "be kind")
    × (s'.store.base_system_prompt ≡ text "be kind")
    × HasPrompt (text "be kind") (body two_turns) s'.agent_history
    × (s'.store.sessions ≡ service.store.sessions)
    × (s'.store.heap ≡ service.store.heap)
set_system_prompt_example = set_system_prompt_lem (text "be kind") service

prepare_messages_example :
    ((text "be kind" ≡ []) → prepare_messages (text "be kind") two_turns ≡ two_turns)
    × (is_empty (text "be kind") ≡ false
        → HasPrompt
            (effective_prompt (text "be kind") two_turns)
            (body two_turns)
            (prepare_messages (text "be kind") two_turns))
prepare_messages_example = prepare_messages_lem (text "be kind") two_turns

abbrev started_service : Service Message
started_service = (start_request Kind.completion true 42 20 20 21 chat_request service).0

abbrev pending : Pending Message
pending = record {
  id = text "chatcmpl-" ++ to_string 1;
  created = 20;
  model = text "m";
  handle_id = 42;
  on_result = commits Kind.completion (text "sess-1") 1 hello;
  lease = record {
    request_id = text "chatcmpl-" ++ to_string 1;
    session = some (text "sess-1", 1);
    released = false;
  };
}

starts :
    start_request Kind.completion true 42 20 20 21 chat_request service
    ≡ (started_service, ok pending)
unfolding start_request start_session start_begun begin_request reap_and_find
    reap_expired_sessions_locked reap_loop find ◌==ᵇ◌ text begin_section
starts = refl

start-cancel-release_example :
    (cancel_request pending.id started_service ≡ (call (cancel 42) started_service, ok tt))
    × ((time : ℕ) (other : Lease)
        → other.request_id ≢ pending.id
        → let t = (release time other started_service).1 in
          cancel_request pending.id t ≡ (call (cancel 42) t, ok tt))
    × ((time later : ℕ)
        → let ended = release time pending.lease started_service in
          ((cancel_request pending.id ended.1).1 ≡ err (unknown_request pending.id))
          × (release later ended.0 ended.1 ≡ ended))
start-cancel-release_example =
    start-cancel-release Kind.completion true 42 20 20 21 chat_request service started_service
      pending starts
