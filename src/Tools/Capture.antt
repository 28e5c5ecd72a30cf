-- ===== src/Tools/Capture.antt =====
-- What is kept of the output of a tool: `read_available` and `format_stderr` of
-- src/server/command_tools.cpp.
use zoo_keeper_server.Prelude.{
  ℕ, ◌+◌, ◌-◌, Bytes, Bool, true, false, [], ◌++◌, if◌then◌else◌, ltb, min, is_empty, length, take,
  text,
}
use zoo_keeper_server.Api.{Expected, ok, err}

abbrev pub max_stdout_bytes : ℕ
max_stdout_bytes = 65536

abbrev pub max_captured_stderr_bytes : ℕ
max_captured_stderr_bytes = 8192

-- Its member `data`; `error` is never read.
pub record CapturedStream : Type 0 where
  pub data_ : Bytes
  pub truncated : Bool

abbrev pub nothing_captured : CapturedStream
nothing_captured = record { data_ = []; truncated = false }

unfoldable pub format_stderr : Bytes → Bool → Bytes
format_stderr stderr_text truncated =
    if is_empty stderr_text
    then []
    else text " | stderr: "
      ++ (if truncated then stderr_text ++ text "... [truncated]" else stderr_text)

-- The answers of `read`, up to the one that ends the loop.
pub data Reads : Type 0 where
  chunk : Bytes → Reads → Reads
  interrupted : Reads → Reads
  end_of_file would_block : Reads
  failed : Bytes → Reads

-- One chunk more.
unfoldable pub capture : ℕ → Bytes → CapturedStream → CapturedStream
capture max_bytes bytes captured =
    let previous_size = length captured.data_ in
    record {
      data_ =
          if ltb previous_size max_bytes
          then captured.data_ ++ take (min (max_bytes - previous_size) (length bytes)) bytes
          else captured.data_;
      truncated = if ltb max_bytes (previous_size + length bytes) then true else captured.truncated;
    }

-- The result is whether the pipe is still open.
unfoldable pub read_available : Reads → CapturedStream → ℕ → Expected Bytes (Bool × CapturedStream)
read_available (chunk bytes reads) captured max_bytes =
    read_available reads (capture max_bytes bytes captured) max_bytes
read_available (interrupted reads) captured max_bytes = read_available reads captured max_bytes
read_available end_of_file captured max_bytes = ok (false, captured)
read_available would_block captured max_bytes = ok (true, captured)
read_available (failed what) captured max_bytes = err (text "read failed: " ++ what)
