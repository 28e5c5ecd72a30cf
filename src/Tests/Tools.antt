-- ===== src/Tests/Tools.antt =====
-- A tool: its checks, its executable, its environment and a run, on a small file system.
use zoo_keeper_server.Prelude.{
  ◌≡◌, ◌≤◌, ◌↔◌, ◌⊎◌, refl, Bytes, Bool, true, false, none, some, List, [], ◌∷◌, ◌++◌, map, text,
  ◌==ᵇ◌, length,
}
use zoo_keeper_server.Api.{ok, err}
use zoo_keeper_server.Json.{member}
use zoo_keeper_server.Tools.{CommandToolConfig}
use zoo_keeper_server.Tools.Schema.{has_byte, validate_tool}
use zoo_keeper_server.Tools.Supported.{IsCommandTool, validate_tool_iff}
use zoo_keeper_server.Tools.Prepare.{
  System, absolute, command_base_directory, effective_path_env, resolve_executable_path, lessᵇ,
  build_environment_map, PreparedCommandTool, RegisteredTool, make_command_tool_provider,
}
use zoo_keeper_server.Tools.Provider.{AllRegistered, AllUsable, make_command_tool_provider_lem}
use zoo_keeper_server.Tools.Search.{
  split, first_executable, entry_file, resolve_executable_path_lem,
}
use zoo_keeper_server.Tools.Environment.{IsSorted, inherited, or_else, build_environment_map_lem}
use zoo_keeper_server.Tools.Run.{
  stdin_payload, Setup, set_non_blocking, set_up, check_status, parse_output, read_result,
  after_loop, run_prepared_command_tool,
}
use zoo_keeper_server.Tools.Loop.{
  loop_start, Status, Waits, Writes, Polled, Turn, try_wait, wait_step, deadline_step,
  write_available, stdin_step, stdout_step, stderr_step, poll_step, run_loop,
}
use zoo_keeper_server.Tools.Capture.{
  max_stdout_bytes, CapturedStream, nothing_captured, Reads, read_available, capture,
}
use zoo_keeper_server.Tools.Output.{Holds, received, read_available-Holds}
use zoo_keeper_server.Tools.Delivered.{stdout_of, run_prepared_command_tool-stdout_of}
use zoo_keeper_server.Tools.Finish.{RanWell, run_prepared_command_tool_eq_ok}
use zoo_keeper_server.Tests.Json.{Value, words, document, library}

abbrev clock_schema : Value
clock_schema = document (
    (text "type", words (text "object"))
    ∷ (
      text "properties",
      document ((text "zone", document ((text "type", words (text "string")) ∷ [])) ∷ []),
    )
    ∷ [])

abbrev pub clock : CommandToolConfig Value
clock = record {
  name = text "clock";
  description = text "tells the time";
  parameters_schema = clock_schema;
  command = text "clock" ∷ text "-u" ∷ [];
  working_directory = none;
  inherit_environment = true;
  env = (text "LANG", text "C") ∷ (text "TZ", text "UTC") ∷ [];
  timeout_ms = 500;
}

abbrev answer : Value
answer = document ((text "time", words (text "noon")) ∷ [])

validate_tool_example :
    (validate_tool (library answer) clock ≡ ok tt) ↔ IsCommandTool (library answer) clock
validate_tool_example = validate_tool_iff (library answer) clock

abbrev machine : System
machine = record {
  current_path = text "/srv";
  path_env = some (text "/bin::/opt");
  environ = text "TZ=CET" ∷ text "HOME=/root" ∷ [];
  is_executable_file = λ file. file ==ᵇ text "/srv/clock";
  is_directory = λ path. true;
  is_relative = λ path. false;
  join = λ a b. a ++ (text "/" ++ b);
  weakly_canonical = λ path. path;
}

resolve_executable_path_example :
    let base = command_base_directory machine clock in
    (has_byte 47 (text "clock") ≡ true
      → resolve_executable_path machine clock
        ≡ some (first_executable machine (absolute machine base (text "clock") ∷ [])))
    × ((path : Bytes)
        → has_byte 47 (text "clock") ≡ false
        → effective_path_env machine clock ≡ some path
        → resolve_executable_path machine clock
          ≡ some (
              first_executable machine
                (map (entry_file machine base (text "clock")) (split 58 path))))
    × (has_byte 47 (text "clock") ≡ false
        → effective_path_env machine clock ≡ none
        → resolve_executable_path machine clock ≡ some none)
unfolding text
resolve_executable_path_example =
    resolve_executable_path_lem machine clock (text "clock") (text "-u" ∷ []) refl (λ e. cc)

build_environment_map_example :
    IsSorted (build_environment_map machine clock)
    × (member (text "TZ") (build_environment_map machine clock)
        ≡ or_else (member (text "TZ") clock.env) (inherited (text "TZ") machine.environ))
unfolding lessᵇ text
build_environment_map_example =
    build_environment_map_lem machine clock (text "TZ") ((refl, tt), (tt, tt))

abbrev reads : Reads
reads = Reads.chunk (text "{}") Reads.end_of_file

read_available_example :
    ((still_open : Bool) × (c' : CapturedStream) × (read_available reads nothing_captured 1
        ≡ ok (still_open, c'))
      × Holds 1 ([] ++ received reads) c'
      × (length c'.data_ ≤ 1))
    ⊎ ((what : Bytes) × (read_available reads nothing_captured 1
          ≡ err (text "read failed: " ++ what)))
read_available_example =
    read_available-Holds reads 1 [] nothing_captured (record { kept = refl; cut = refl })

abbrev no_failures : Setup
no_failures = record {
  stdin_pipe = none;
  stdout_pipe = none;
  stderr_pipe = none;
  init_actions = none;
  init_attributes = none;
  dup_stdin = none;
  dup_stdout = none;
  dup_stderr = none;
  close_stdin = none;
  close_stdout = none;
  close_stderr = none;
  change_directory = none;
  spawn = none;
  stdin_flags = none;
  stdin_non_blocking = none;
  stdout_flags = none;
  stdout_non_blocking = none;
  stderr_flags = none;
  stderr_non_blocking = none;
}

abbrev prepared_clock : PreparedCommandTool Value
prepared_clock = record { config = clock; executable_path = text "/srv/clock"; env_entries = [] }

-- The process reads its arguments, writes its answer and ends.
abbrev exchange : Turn
exchange = record {
  waits = Waits.still_running;
  past_deadline = false;
  killed = Status.other;
  poll = Polled.ready (record {
    stdin_closed = false;
    stdin_writable = true;
    stdout_readable = true;
    stderr_readable = true;
  });
  writes = Writes.wrote 5 Writes.would_block;
  stdout_reads = Reads.chunk (text "{\"time\":\"noon\"}") Reads.end_of_file;
  stderr_reads = Reads.end_of_file;
}

abbrev ending : Turn
ending = record exchange { waits = Waits.interrupted (Waits.ended (Status.exited 0)) }

clock_ran :
    run_prepared_command_tool
      (library answer)
      no_failures
      (exchange ∷ ending ∷ [])
      prepared_clock
      (document [])
    ≡ some (ok answer)
unfolding text run_prepared_command_tool set_up set_non_blocking run_loop wait_step try_wait
    deadline_step poll_step stdin_step write_available stdout_step stderr_step read_available
    capture after_loop read_result check_status parse_output
clock_ran = refl

run_prepared_command_tool_example :
    RanWell
      (library answer)
      no_failures
      (exchange ∷ ending ∷ [])
      prepared_clock
      (document [])
      answer
run_prepared_command_tool_example =
    run_prepared_command_tool_eq_ok (library answer) no_failures (exchange ∷ ending ∷ [])
      prepared_clock (document []) answer clock_ran

stdout_of_example :
    let written =
      stdout_of
        (length (stdin_payload (library answer) (document [])))
        (exchange ∷ ending ∷ [])
        loop_start in
    ((library answer).parse written ≡ ok answer) × (length written ≤ max_stdout_bytes)
stdout_of_example =
    run_prepared_command_tool-stdout_of (library answer) no_failures (exchange ∷ ending ∷ [])
      prepared_clock (document []) answer clock_ran

make_command_tool_provider_example :
    ((message : Bytes) × (make_command_tool_provider machine (library answer) (clock ∷ [])
        ≡ some (err message))
      × (AllUsable machine (library answer) (clock ∷ []) → ⊥))
    ⊎ ((rs : List (RegisteredTool Value)) × (make_command_tool_provider machine
            (library answer)
            (clock ∷ [])
          ≡ some (ok rs))
        × AllRegistered machine (library answer) (clock ∷ []) rs)
make_command_tool_provider_example =
    make_command_tool_provider_lem machine (library answer) (clock ∷ [])
