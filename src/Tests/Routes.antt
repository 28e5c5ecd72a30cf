-- ===== src/Tests/Routes.antt =====
-- The registry of disconnects, a streamed extraction and the routes at concrete data.
use zoo_keeper_server.Prelude.{
  ℕ, ◌≡◌, ◌⊎◌, refl, Bytes, Bool, true, false, none, some, List, [], ◌∷◌, ◌++◌, text, arith,
}
use zoo_keeper_server.Api.{ok}
use zoo_keeper_server.Json.{JsonApi}
use zoo_keeper_server.Auth.{invalid_api_key}
use zoo_keeper_server.Disconnects.{
  DisconnectRegistry, empty_registry, track, clear, handle_connection_event,
}
use zoo_keeper_server.Disconnects.Tracked.{
  Table, Represents, with_callback, without_callback, without_connection, CallsOnce,
  registry_refines, empty-Represents,
}
use zoo_keeper_server.Stream.{no_stream}
use zoo_keeper_server.Extraction.{fresh_extraction, push_tokens, set_metadata}
use zoo_keeper_server.Extraction.Events.{Event, token, attaches, succeeds, all_frames, run}
use zoo_keeper_server.Extraction.Order.{early_frames, received_frames}
use zoo_keeper_server.Responses.{AgentResult, json_response}
use zoo_keeper_server.Bodies.{make_error_body}
use zoo_keeper_server.Metrics.{with_metrics}
use zoo_keeper_server.Chat.Start.{Kind, Pending, ignores, release}
use zoo_keeper_server.Routes.{Server, Surroundings, answered, threw, ends_stream, chat}
use zoo_keeper_server.Routes.Figures.{ZooFigures}
use zoo_keeper_server.Runtime.{make_runtime, stop}
use zoo_keeper_server.Routes.Handlers.{Route, HttpRequest, handle, preflight}
use zoo_keeper_server.Routes.Start.{after_start}
use zoo_keeper_server.Routes.Streamed.{stream_started}
use zoo_keeper_server.Routes.Steps.{
  World, begin, fresh_server, Reach, handles, preflights, stops, here, next,
}
use zoo_keeper_server.Routes.Answered.{OnceEach, Reach-OnceEach}
use zoo_keeper_server.Routes.Guards.{handle-unauthorized}
use zoo_keeper_server.Routes.Saturated.{saturated}
use zoo_keeper_server.Tests.{Message, message_api, message_parts, service}
use zoo_keeper_server.Tests.Json.{Value, number, words, library}
use zoo_keeper_server.Tests.Bodies.{role_names, checked_role}
use zoo_keeper_server.Tests.Configs.{loaded}

abbrev no_callback : Table ℕ
no_callback c i = none

-- A registry with the callback 9 of connection 7.
abbrev one_tracked : DisconnectRegistry ℕ
one_tracked = (track 7 9 empty_registry).0

one_tracked-Represents : Represents one_tracked (with_callback 7 1 9 no_callback)
unfolding track
one_tracked-Represents =
    (registry_refines empty_registry no_callback 7 1 9 empty-Represents (omega arith)).1

registry_refines_example :
    let (tracking, id) = track 7 5 one_tracked in
    let (after, calls) = handle_connection_event (some 7) true one_tracked in
    let t = with_callback 7 1 9 no_callback in
    (t 7 id ≡ none)
    × Represents tracking (with_callback 7 id 5 t)
    × Represents (clear 7 1 one_tracked) (without_callback 7 1 t)
    × Represents after (without_connection 7 t)
    × CallsOnce calls (t 7)
    × (handle_connection_event (some 7) false one_tracked ≡ (one_tracked, []))
unfolding track
registry_refines_example =
    registry_refines one_tracked (with_callback 7 1 9 no_callback) 7 1 5 one_tracked-Represents
      (omega arith)

abbrev takes_two : List Bytes → Bytes → Bool
takes_two [] frame = true
takes_two (a ∷ []) frame = true
takes_two _ frame = false

abbrev extracted : AgentResult Value ℕ
extracted = record {
  reply = text "{}";
  extracted = number 1;
  usage = record { prompt_tokens = 1; completion_tokens = 1; total_tokens = 2 };
  metrics = record { latency_ms = 1; time_to_first_token_ms = 1; tokens_per_second = 1 };
  tool_invocations = [];
}

abbrev happened : List (Event Value ℕ)
happened = token (text "a") ∷ attaches ∷ token (text "b") ∷ succeeds extracted ∷ []

abbrev json_library : JsonApi Value ℕ ℕ
json_library = library (words [])

received_frames_example :
    let json = json_library in
    let begun =
      set_metadata takes_two json
        (text "id")
        5
        (text "m")
        (push_tokens takes_two json (text "x" ∷ []) fresh_extraction).0 in
    let s = run takes_two json happened begun.0 in
    let frames =
      early_frames takes_two json (text "x" ∷ [])
      ++ all_frames takes_two json (text "id") 5 (text "m") happened in
    ((rest : List Bytes) × (s.sent ++ rest ≡ frames))
    × ((s.closing ≡ true) ⊎ (s.sent ++ s.buffered_frames ≡ frames))
    × ((no_stream s.stream ≡ true) ⊎ (s.buffered_frames ≡ []))
received_frames_example =
    received_frames takes_two json_library (text "id") 5 (text "m") (text "x" ∷ []) happened

abbrev figures : ZooFigures Value Bool Bool
figures = record {
  from_integer = λ z. number 1;
  max_history_messages = λ a. number 1;
  request_queue_capacity = λ a. number 1;
  max_tool_iterations = λ a. number 1;
  max_tool_retries = λ a. number 1;
  max_tokens = λ g. number 1;
  stop_sequences = λ g. number 1;
  record_tool_trace = λ g. number 1;
  temperature = λ g. number 1;
  top_p = λ g. number 1;
  top_k = λ g. number 1;
  repeat_penalty = λ g. number 1;
  repeat_last_n = λ g. number 1;
  seed = λ g. number 1;
}

abbrev surroundings : Surroundings Value ℕ
surroundings = record {
  ready = true;
  zoo_id = 42;
  reaped = 20;
  started = 20;
  now = 20;
  observed = 21;
  released = 22;
  early_tokens = [];
  at_once = none;
  connection = some 7;
  still_connected = true;
  accepts = takes_two;
  moved_from_keeps = false;
}

abbrev keyed : HttpRequest
keyed = record { authorization = text "Bearer k"; body = text "{}" }

abbrev keyless : HttpRequest
keyless = record { authorization = text "Bearer x"; body = text "{}" }

abbrev asked : World Message
asked = record {
  server =
      handle json_library role_names figures loaded [] checked_role surroundings 1
        Route.post_agent_chat keyed 0 (fresh_server 2 4 service);
  requests = 1;
}

abbrev probed : World Message
probed = record { server = preflight 1 asked.server; requests = 2 }

abbrev stopped : World Message
stopped = record probed { server = record probed.server { runtime = stop probed.server.runtime } }

asked_and_stopped :
    Reach json_library role_names figures loaded [] checked_role (begin 2 4 service) stopped
asked_and_stopped =
    next
      (next (next here (handles surroundings 1 Route.post_agent_chat keyed refl)) (preflights refl))
      (stops refl)

Reach-OnceEach_example : OnceEach stopped
Reach-OnceEach_example =
    Reach-OnceEach json_library role_names figures loaded [] checked_role 2 4 service
      asked_and_stopped

handle-unauthorized_example :
    let w = fresh_server 2 4 service in
    handle json_library role_names figures loaded [] checked_role surroundings 1
      (Route.post_cancel (text "chatcmpl-1"))
      keyless
      0
      w
    ≡ record w {
      log =
          w.log
          ++ (answered 0
                (json_response json_library (make_error_body json_library invalid_api_key) 401)
              ∷ []);
      runtime = record w.runtime { metrics = with_metrics 401 w.runtime.metrics };
    }
unfolding text fresh_server
handle-unauthorized_example =
    handle-unauthorized json_library role_names figures loaded [] checked_role (text "k")
      surroundings 1 (Route.post_cancel (text "chatcmpl-1")) keyless 0 (fresh_server 2 4 service)
      refl (omega arith) (omega arith) (λ e. ground (arith, e)) refl refl

abbrev waiting : Pending Message
waiting = record {
  id = text "chatcmpl-1";
  created = 20;
  model = text "m";
  handle_id = 42;
  on_result = ignores;
  lease = record { request_id = text "chatcmpl-1"; session = none; released = false };
}

-- One task waits, and there is room for one.
abbrev full_server : Server Message
full_server = record (fresh_server 2 4 service) {
  runtime = record (fresh_server 2 4 service).runtime {
    continuation_executor = record {
      max_pending_tasks = 1;
      tasks = ends_stream 0 none waiting ∷ [];
      workers = [];
      stopping = false;
    };
  };
}

saturated_example :
    let plain =
      after_start json_library surroundings Kind.completion 3 (service, ok waiting) full_server in
    let streamed =
      stream_started json_library surroundings Kind.completion 3
        (service, ok waiting)
        full_server in
    let e = full_server.runtime.continuation_executor in
    (plain.log ≡ full_server.log ++ (threw 3 ∷ []))
    × (streamed.log ≡ full_server.log ++ (threw 3 ∷ []))
    × (chat plain ≡ (release 22 waiting.lease service).1)
    × (chat streamed ≡ (release 22 waiting.lease service).1)
    × (plain.runtime.continuation_executor ≡ e)
    × (streamed.runtime.continuation_executor ≡ e)
unfolding fresh_server make_runtime
saturated_example =
    saturated json_library surroundings Kind.completion 3 service waiting full_server refl refl refl
      refl refl
