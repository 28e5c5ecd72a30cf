-- ===== src/Lib.antt =====
-- zoo-keeper-server: a model of the server's own logic, and what is proved of it.
--
-- The program. The server gives an HTTP interface to one language-model agent of the zoo-keeper
-- library. `ServerRuntime` (src/server/runtime.cpp) owns a `ZooChatService`, the counters, a
-- `BoundedExecutor` that runs what follows a completion, and a thread that reaps sessions.
-- `ZooChatService` (src/server/chat_service.cpp) starts completions and extractions on the agent,
-- alone or in a session of the `SessionStore` (src/server/session_manager.cpp), and keeps the
-- agent's own history and the system prompt. A request that has started is a handle, an observer
-- that commits its result, and a lease whose release cleans up. A streamed completion passes
-- through a `StreamingSession` (src/server/completion_controller.cpp), which makes server-sent
-- events with src/server/streaming.cpp, a streamed extraction through an
-- `ExtractionStreamingSession` (src/server/api_routes.cpp). The handlers of the routes stand in
-- these two files; each checks the key with `check_auth` (src/server/auth.hpp), parses its body and
-- makes its response with src/server/api_json.cpp, and a lost connection cancels what it had
-- started through the `DisconnectRegistry`. The start loads a configuration
-- (src/server/config.cpp) and registers its tools (src/server/command_tools.cpp), which run as
-- processes when the agent calls them.
--
-- The files.
--   Prelude: numbers, Boolean tests, byte strings, lists.
--   Api: results, errors and requests of src/server/api_types.hpp; messages, which belong to the
--     zoo-keeper library, are a parameter with the interface `MessageApi`.
--   Session: `Session.Trim` and `Session.Store` have a function for each method of
--     src/server/session_manager.cpp. `Session.Store.Interleave` runs the critical sections of
--     these methods in any order. Sessions are references into a heap, as `shared_ptr` is, so a
--     thread may hold a session that has left the map.
--   Auth: src/server/auth.hpp.
--   Streaming: src/server/streaming.cpp. Stream: the class `StreamingSession`. Extraction: the
--     class `ExtractionStreamingSession`.
--   Disconnects: the class `DisconnectRegistry` of src/server/api_routes.hpp.
--   Executor: src/server/executor.cpp; `Executor.Schedule` runs submitters, workers and a stop in
--     any order.
--   Chat: src/server/chat_service.cpp, with the starts, observers and leases of requests in
--     `Chat.Start`. A call of the agent is recorded in `calls`.
--   Handle: the handles of src/server/api_types.cpp.
--   Metrics: src/server/metrics.hpp and src/server/route_utils.cpp.
--   Runtime: src/server/runtime.cpp.
--   Json: values of the JSON library, a parameter with the interface `JsonApi`, and the check for
--     unknown keys of src/server/internal_utils.hpp.
--   Requests, Bodies: the parsers of requests and the bodies of responses of
--     src/server/api_json.cpp, with the merge of the overrides of src/server/zoo_adapter.cpp and
--     the history body of src/server/api_routes.cpp.
--   Responses: the `make_..._response` functions of src/server/api_json.cpp and
--     src/server/api_routes.cpp.
--   Routes: src/server/api_routes.cpp and src/server/completion_controller.cpp over the whole
--     server: `Routes.Start` has the requests that get one response, `Routes.Streamed` those that
--     get a stream, both with what the executor does afterwards, `Routes.Handlers` a function for
--     each handler, `Routes.Figures` the bodies of /v1/runtime, /metrics and /healthz and the CORS
--     header (src/server/metrics.cpp, src/server/health.cpp, src/server/http_server.cpp), and
--     `Routes.Steps` the runs of the server, requests, workers, tokens, streams, connections, the
--     reaper and the shutdown in any order.
--   Tools: src/server/command_tools.cpp: `Tools.Schema` has the checks, `Tools.Prepare` the search
--     for the executable and the environment, `Tools.Capture` what is kept of the output,
--     `Tools.Loop` the loop beside the running process, and `Tools.Run` the run as a whole. The
--     answers of the system calls are data, a `Turn` for each turn of the loop.
--   Config: src/server/config.cpp: `Config` has the checks, `Config.Parts` reads the HTTP settings,
--     the sessions and the tools, and `Config.Load` the file. A configuration that is valid has
--     only tools that `Tools.Provider` may register.
--   Tests: the model run at concrete data.
--
-- Conventions. An operation takes its state and returns the new one, with an `Expected` where it
-- can fail. A reading of the clock, what the agent answers, and whether a connection takes a frame
-- are arguments. A byte is a natural number; a string is a list of bytes. `size_t` and `uint64_t`
-- arithmetic that can wrap is written with `wrap64`; times, in seconds, do not wrap. The fuel of
-- `to_string` is one more than the number, and a number has no more digits than that; the fuel of
-- `search_path` is one more than the bytes of PATH, of which each turn takes one at least; all
-- other loops are by recursion on the data that the source walks, or on the answers of the system.
--
-- A handler and a continuation of `Routes.Steps` run as one step each, and so does the reading of
-- a future: a worker goes on once the result is there. A callback of the HTTP library is the number
-- of its request, and a log of outcomes says what became of it; a closure is the data that it
-- captures. Whether a `std::function` still has its target when it was moved from, which the
-- standard leaves open, is the field `moved_from_keeps` of the surroundings. `Runtime.stop` is
-- `ServerRuntime::stop` up to its joins, `finish_stop` the rest of it once every worker has
-- returned; between the two the workers run what is queued. The JSON library throws when it prints
-- a string that is not UTF-8 (`dump_throws`): making a response or an event then leaves the handler,
-- the continuation or the agent's callback, and what was done until then stays done.
--
-- Not modelled: the HTTP library, of which a route is a constructor of a data type; the test page;
-- the zoo-keeper library and the conversions to its types; log lines; the start of the program.
pub mod Prelude
pub mod Api
pub mod Session
pub mod Auth
pub mod Streaming
pub mod Stream
pub mod Executor
pub mod Chat
pub mod Handle
pub mod Metrics
pub mod Runtime
pub mod Json
pub mod Requests
pub mod Bodies
pub mod Tools
pub mod Config
pub mod Disconnects
pub mod Responses
pub mod Extraction
pub mod Routes
pub mod Tests
