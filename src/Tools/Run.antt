-- ===== src/Tools/Run.antt =====
-- A tool that runs: `run_prepared_command_tool` of src/server/command_tools.cpp and what it calls.
-- What the system calls answer is data: `Setup` for the calls before the loop, and a `Turn` for
-- each turn of the loop. A failed call answers with the text of its error.
use zoo_keeper_server.Tools.Loop.{RunState, Status, Turn, exited, loop_start, run_loop, signaled}
use zoo_keeper_server.Tools.Capture.{CapturedStream, format_stderr, max_stdout_bytes}
use zoo_keeper_server.Prelude.{
  ℕ, Bytes, Bool, true, false, not, Option, none, some, List, [], ◌∷◌, ◌++◌, if◌then◌else◌, ◌==◌,
  length, to_string, text,
}
use zoo_keeper_server.Api.{Expected, ok, err, ◌>>◌, fail_if}
use zoo_keeper_server.Json.{JsonApi, is_object}
use zoo_keeper_server.Tools.{CommandToolConfig}
use zoo_keeper_server.Bodies.{ErrorCode}
use zoo_keeper_server.Tools.Prepare.{System, PreparedCommandTool, build_prepared_command_tool}

-- `CommandToolRunError`, and its two makers.
pub record CommandToolRunError : Type 0 where
  pub message : Bytes
  pub timed_out : Bool

unfoldable pub make_timeout_error : ℕ → CommandToolRunError
make_timeout_error timeout_ms = record {
  message = text "Tool command timed out after " ++ (to_string timeout_ms ++ text " ms");
  timed_out = true;
}

unfoldable pub make_runtime_error : Bytes → CommandToolRunError
make_runtime_error message = record { message = message; timed_out = false }

-- The answers of the calls before the loop: what went wrong, if anything.
pub record Setup : Type 0 where
  pub stdin_pipe : Option Bytes
  pub stdout_pipe : Option Bytes
  pub stderr_pipe : Option Bytes
  pub init_actions : Option Bytes
  pub init_attributes : Option Bytes
  pub dup_stdin : Option Bytes
  pub dup_stdout : Option Bytes
  pub dup_stderr : Option Bytes
  pub close_stdin : Option Bytes
  pub close_stdout : Option Bytes
  pub close_stderr : Option Bytes
  pub change_directory : Option Bytes
  pub spawn : Option Bytes
  pub stdin_flags : Option Bytes
  pub stdin_non_blocking : Option Bytes
  pub stdout_flags : Option Bytes
  pub stdout_non_blocking : Option Bytes
  pub stderr_flags : Option Bytes
  pub stderr_non_blocking : Option Bytes

abbrev pub check_call : Option Bytes → Bytes → Expected Bytes (Unit {0})
check_call none message = ok tt
check_call (some what) message = err (message ++ (text ": " ++ what))

unfoldable pub set_non_blocking : Option Bytes → Option Bytes → Bytes → Expected Bytes (Unit {0})
set_non_blocking flags set label = do
  check_call flags (text "Failed to inspect " ++ label)
  check_call set (text "Failed to make " ++ (label ++ text " non-blocking"))

abbrev working_directory_call : Option Bytes → Option Bytes → Expected Bytes (Unit {0})
working_directory_call none called = ok tt
working_directory_call (some directory) called =
    check_call called (text "Failed to configure child working directory")

unfoldable pub set_up : Setup → Option Bytes → Expected Bytes (Unit {0})
set_up c working_directory = do
  check_call c.stdin_pipe (text "Failed to create pipe")
  check_call c.stdout_pipe (text "Failed to create pipe")
  check_call c.stderr_pipe (text "Failed to create pipe")
  check_call c.init_actions (text "Failed to initialize spawn file actions")
  check_call c.init_attributes (text "Failed to initialize spawn attributes")
  check_call c.dup_stdin (text "Failed to wire tool stdin")
  check_call c.dup_stdout (text "Failed to wire tool stdout")
  check_call c.dup_stderr (text "Failed to wire tool stderr")
  check_call c.close_stdin (text "Failed to close child stdin write end")
  check_call c.close_stdout (text "Failed to close child stdout read end")
  check_call c.close_stderr (text "Failed to close child stderr read end")
  working_directory_call working_directory c.change_directory
  check_call c.spawn (text "Failed to spawn tool process")
  set_non_blocking c.stdin_flags c.stdin_non_blocking (text "tool stdin")
  set_non_blocking c.stdout_flags c.stdout_non_blocking (text "tool stdout")
  set_non_blocking c.stderr_flags c.stderr_non_blocking (text "tool stderr")

-- Whether the process ended well, from its status.
unfoldable pub check_status : Option Status → CapturedStream → Expected Bytes (Unit {0})
check_status (some (signaled signal)) stderr_capture = err (
    text "Tool command terminated by signal "
    ++ (to_string signal ++ format_stderr stderr_capture.data_ stderr_capture.truncated))
check_status (some (exited code)) stderr_capture = fail_if (not (code == 0)) (
    text "Tool command exited with status "
    ++ (to_string code ++ format_stderr stderr_capture.data_ stderr_capture.truncated))
check_status _ stderr_capture = err (
    text "Tool command ended unexpectedly"
    ++ format_stderr stderr_capture.data_ stderr_capture.truncated)

module _ {J R I : Type 0} (json : JsonApi J R I) where
  unfoldable pub parse_output : Bytes → Expected Bytes J
  parse_output output = elim (json.parse output) [
    | err what ↦ err (text "Tool command stdout was not valid JSON: " ++ what)
    | ok j ↦
        fail_if (not (is_object (json.view j))) (text "Tool command stdout must be a JSON object")
        >> ok j
  ]

  -- What follows the loop, apart from a timeout.
  unfoldable pub read_result : RunState → Expected Bytes J
  read_result s = do
    fail_if s.stdout_capture.truncated
        (text "Tool command stdout exceeded " ++ (to_string max_stdout_bytes ++ text " bytes"))
    check_status s.child s.stderr_capture
    parse_output s.stdout_capture.data_

  abbrev pub as_runtime_error : {A : Type 0} → Expected Bytes A → Expected CommandToolRunError A
  as_runtime_error (ok a) = ok a
  as_runtime_error (err message) = err (make_runtime_error message)

  unfoldable pub after_loop : ℕ → RunState → Expected CommandToolRunError J
  after_loop timeout_ms s =
      if s.timed_out then err (make_timeout_error timeout_ms) else as_runtime_error (read_result s)

  abbrev pub stdin_payload : J → Bytes
  stdin_payload arguments = json.dump arguments ++ (10 ∷ [])

  -- `none`: the answers do not end the loop, or an exception leaves the run, as when the arguments
  -- cannot be printed.
  unfoldable pub run_prepared_command_tool :
      Setup → List Turn → PreparedCommandTool J → J → Option (Expected CommandToolRunError J)
  run_prepared_command_tool setup turns prepared arguments =
      let config = prepared.config in
      elim (set_up setup config.working_directory) [
        | err message ↦ some (err (make_runtime_error message))
        | ok u ↦ elim (json.dump_throws arguments) [
          | true ↦ none
          | false ↦ elim (run_loop (length (stdin_payload arguments)) turns loop_start) [
            | none ↦ none
            | some (err message) ↦ some (err (make_runtime_error message))
            | some (ok s) ↦ some (after_loop config.timeout_ms s)
          ]
        ]
      ]

-- `zoo::Error` as a tool reports it.
pub record RuntimeError : Type 0 where
  pub code : ErrorCode
  pub message : Bytes
  pub context : Option Bytes

-- What the closure `invoke` of a registered tool makes of a run.
unfoldable pub invoke_result :
    {J : Type 0} → Expected CommandToolRunError J → Expected RuntimeError J
invoke_result (ok output) = ok output
invoke_result (err e) = err (record {
  code = ErrorCode.tool_execution_failed;
  message = e.message;
  context = if e.timed_out then some (text "timeout") else none;
})

unfoldable pub run_command_tool :
    {J R I : Type 0}
    → System
    → JsonApi J R I
    → Setup
    → List Turn
    → CommandToolConfig J
    → J
    → Option (Expected CommandToolRunError J)
run_command_tool sys json setup turns tool arguments =
    elim (build_prepared_command_tool sys json tool) [
      | none ↦ none
      | some (err message) ↦ some (err (make_runtime_error message))
      | some (ok prepared) ↦ run_prepared_command_tool json setup turns prepared arguments
    ]
