-- ===== src/Tools/Loop.antt =====
-- The loop of `run_prepared_command_tool` of src/server/command_tools.cpp. What the system calls
-- answer in a turn of it is a `Turn`; a failed call answers with the text of its error.
use zoo_keeper_server.Tools.Capture.{
  CapturedStream, Reads, max_captured_stderr_bytes, max_stdout_bytes, nothing_captured,
  read_available,
}
use zoo_keeper_server.Prelude.{
  ℕ, ◌+◌, Bytes, Bool, true, false, not, ◌||◌, ◌&&◌, Option, none, some, List, [], ◌∷◌, ◌++◌,
  if◌then◌else◌, ltb, leb, has_value, text,
}
use zoo_keeper_server.Api.{Expected, ok, err, ◌>>=◌}

-- What `waitpid` says of a process that has ended.
pub data Status : Type 0 where
  exited signaled : ℕ → Status
  other : Status

-- The answers of `waitpid`, and of `write`, up to the one that ends the loop.
pub data Waits : Type 0 where
  interrupted : Waits → Waits
  ended : Status → Waits
  still_running : Waits
  failed : Bytes → Waits

pub data Writes : Type 0 where
  wrote : ℕ → Writes → Writes
  interrupted : Writes → Writes
  would_block broken_pipe : Writes
  failed : Bytes → Writes

-- What `poll` says of the pipes that it was asked about. `stdin_closed` stands for POLLERR or
-- POLLHUP.
pub record Ready : Type 0 where
  pub stdin_closed : Bool
  pub stdin_writable : Bool
  pub stdout_readable : Bool
  pub stderr_readable : Bool

pub data Polled : Type 0 where
  poll_failed : Bytes → Polled
  poll_interrupted poll_timeout : Polled
  ready : Ready → Polled

-- The answers in one turn of the loop. `killed` is the status of a process that is killed there.
pub record Turn : Type 0 where
  pub waits : Waits
  pub past_deadline : Bool
  pub killed : Status
  pub poll : Polled
  pub writes : Writes
  pub stdout_reads : Reads
  pub stderr_reads : Reads

-- The variables of the loop; `child` is the status of the process once it has been waited for.
pub record RunState : Type 0 where
  pub child : Option Status
  pub offset : ℕ
  pub timed_out : Bool
  pub stdin_open : Bool
  pub stdout_open : Bool
  pub stderr_open : Bool
  pub stdout_capture : CapturedStream
  pub stderr_capture : CapturedStream

abbrev pub loop_start : RunState
loop_start = record {
  child = none;
  offset = 0;
  timed_out = false;
  stdin_open = true;
  stdout_open = true;
  stderr_open = true;
  stdout_capture = nothing_captured;
  stderr_capture = nothing_captured;
}

unfoldable pub try_wait : Waits → Expected Bytes (Option Status)
try_wait (interrupted waits) = try_wait waits
try_wait (ended status) = ok (some status)
try_wait still_running = ok none
try_wait (failed what) = err (text "Failed while waiting on tool process: " ++ what)

-- The process is asked about only until it has been waited for.
unfoldable pub wait_step : Turn → RunState → Expected Bytes RunState
wait_step turn s = elim s.child [
  | some status ↦ ok s
  | none ↦ try_wait turn.waits >>= λ child. ok (record s { child = child })
]

unfoldable pub deadline_step : Turn → RunState → RunState
deadline_step turn s =
    if not (has_value s.child) && turn.past_deadline
    then record s { timed_out = true; stdin_open = false; child = some turn.killed }
    else s

abbrev pub is_finished : RunState → Bool
is_finished s = has_value s.child && (not s.stdout_open && not s.stderr_open)

-- The loop that writes; the result is the offset.
unfoldable pub write_available : ℕ → Writes → ℕ → Expected Bytes ℕ
write_available size (wrote n writes) offset =
    let rest = write_available size writes (offset + n) in
    if ltb offset size then rest else ok offset
write_available size (interrupted writes) offset =
    let rest = write_available size writes offset in if ltb offset size then rest else ok offset
write_available size (failed what) offset =
    if ltb offset size then err (text "Failed to write tool stdin: " ++ what) else ok offset
write_available size _ offset = ok offset

unfoldable pub stdin_step : ℕ → Ready → Writes → RunState → Expected Bytes RunState
stdin_step size r writes s =
    if not (s.stdin_open && ltb s.offset size)
    then ok s
    else if r.stdin_closed
    then ok (record s { stdin_open = false })
    else if r.stdin_writable
    then (write_available size writes s.offset >>= λ offset.
        ok (record s { offset = offset; stdin_open = not (leb size offset) }))
    else ok s

unfoldable pub stdout_step : Ready → Reads → RunState → Expected Bytes RunState
stdout_step r reads s =
    if s.stdout_open && r.stdout_readable
    then elim (read_available reads s.stdout_capture max_stdout_bytes) [
      | err what ↦ err (text "Failed to read tool stdout: " ++ what)
      | ok (still_open, captured) ↦
          ok (record s { stdout_open = still_open; stdout_capture = captured })
    ]
    else ok s

unfoldable pub stderr_step : Ready → Reads → RunState → Expected Bytes RunState
stderr_step r reads s =
    if s.stderr_open && r.stderr_readable
    then elim (read_available reads s.stderr_capture max_captured_stderr_bytes) [
      | err what ↦ err (text "Failed to read tool stderr: " ++ what)
      | ok (still_open, captured) ↦
          ok (record s { stderr_open = still_open; stderr_capture = captured })
    ]
    else ok s

-- `fd_count != 0`.
abbrev pub has_pipes : ℕ → RunState → Bool
has_pipes size s = (s.stdin_open && ltb s.offset size) || (s.stdout_open || s.stderr_open)

unfoldable pub poll_step : ℕ → Turn → RunState → Expected Bytes RunState
poll_step size turn s = if not (has_pipes size s) then ok s else elim turn.poll [
  | poll_failed what ↦ err (text "Failed while polling tool pipes: " ++ what)
  | poll_interrupted ↦ ok s
  | poll_timeout ↦ ok s
  | ready r ↦ stdin_step size r turn.writes s >>= λ s1.
      stdout_step r turn.stdout_reads s1 >>= λ s2. stderr_step r turn.stderr_reads s2
]

-- The loop, in which a turn takes the answers of the next `Turn`; `none` means that the turns that
-- are given do not lead to its end.
unfoldable pub run_loop : ℕ → List Turn → RunState → Option (Expected Bytes RunState)
run_loop size [] s = none
run_loop size (turn ∷ turns) s = elim (wait_step turn s) [
  | err what ↦ some (err what)
  | ok waited ↦
      let s' = deadline_step turn waited in
      if is_finished s' then some (ok s') else elim (poll_step size turn s') [
        | err what ↦ some (err what)
        | ok s'' ↦ run_loop size turns s''
      ]
]
