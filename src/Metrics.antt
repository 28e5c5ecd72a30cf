-- ===== src/Metrics.antt =====
-- src/server/metrics.hpp and route_utils: the counters, and where the routes count. The clock of
-- `uptime_seconds` is an argument of `ServerRuntime::metrics_snapshot`, in Runtime.
pub mod Counts
use zoo_keeper_server.Prelude.{
  ℕ, ◌+◌, Bytes, Bool, true, false, ◌&&◌, Option, none, some, List, [], ◌∷◌, if◌then◌else◌, leb,
  ◌==ᵇ◌, wrap64, text,
}

-- The counters of `ServerMetrics`, which wrap as `uint64_t` does.
pub record ServerMetrics : Type 0 where
  pub requests_total : ℕ
  pub requests_errors : ℕ
  pub requests_cancelled_total : ℕ
  pub requests_queue_rejected_total : ℕ
  pub stream_disconnects_total : ℕ
  pub tool_invocations_total : ℕ
  pub tool_failures_total : ℕ
  pub tool_timeouts_total : ℕ

abbrev pub no_requests : ServerMetrics
no_requests = record {
  requests_total = 0;
  requests_errors = 0;
  requests_cancelled_total = 0;
  requests_queue_rejected_total = 0;
  stream_disconnects_total = 0;
  tool_invocations_total = 0;
  tool_failures_total = 0;
  tool_timeouts_total = 0;
}

abbrev pub increment_requests : ServerMetrics → ServerMetrics
increment_requests m = record m { requests_total = wrap64 (m.requests_total + 1) }

abbrev pub increment_errors : ServerMetrics → ServerMetrics
increment_errors m = record m { requests_errors = wrap64 (m.requests_errors + 1) }

abbrev pub increment_cancelled : ServerMetrics → ServerMetrics
increment_cancelled m = record m {
  requests_cancelled_total = wrap64 (m.requests_cancelled_total + 1);
}

abbrev pub increment_queue_rejected : ServerMetrics → ServerMetrics
increment_queue_rejected m = record m {
  requests_queue_rejected_total = wrap64 (m.requests_queue_rejected_total + 1);
}

abbrev pub increment_stream_disconnects : ServerMetrics → ServerMetrics
increment_stream_disconnects m = record m {
  stream_disconnects_total = wrap64 (m.stream_disconnects_total + 1);
}

abbrev pub increment_tool_invocations : ServerMetrics → ServerMetrics
increment_tool_invocations m = record m {
  tool_invocations_total = wrap64 (m.tool_invocations_total + 1);
}

abbrev pub increment_tool_failures : ServerMetrics → ServerMetrics
increment_tool_failures m = record m { tool_failures_total = wrap64 (m.tool_failures_total + 1) }

abbrev pub increment_tool_timeouts : ServerMetrics → ServerMetrics
increment_tool_timeouts m = record m { tool_timeouts_total = wrap64 (m.tool_timeouts_total + 1) }

-- What the callback of `with_metrics` counts for a response with this status.
unfoldable pub with_metrics : ℕ → ServerMetrics → ServerMetrics
with_metrics status m =
    let m' = increment_requests m in if leb 400 status then increment_errors m' else m'

-- The error codes of the zoo-keeper library that are counted, and the others.
pub data RuntimeErrorCode : Type 0 where
  request_cancelled queue_full other : RuntimeErrorCode

unfoldable pub increment_runtime_error_metrics : RuntimeErrorCode → ServerMetrics → ServerMetrics
increment_runtime_error_metrics request_cancelled m = increment_cancelled m
increment_runtime_error_metrics queue_full m = increment_queue_rejected m
increment_runtime_error_metrics other m = m

-- `ToolInvocationRecord` belongs to the zoo-keeper library: whether its status is `Succeeded`, and
-- its error, where it has one, by the context.
module _ {I : Type 0} (succeeded : I → Bool) (error : I → Option (Option Bytes)) where
  abbrev pub is_timeout : Option (Option Bytes) → Bool
  is_timeout (some (some context)) = context ==ᵇ text "timeout"
  is_timeout _ = false

  abbrev pub count_invocation : I → ServerMetrics → ServerMetrics
  count_invocation invocation m =
      let m' = increment_tool_invocations m in
      if succeeded invocation
      then m'
      else let m'' = increment_tool_failures m' in
        if is_timeout (error invocation) then increment_tool_timeouts m'' else m''

  unfoldable pub increment_tool_metrics : List I → ServerMetrics → ServerMetrics
  increment_tool_metrics [] m = m
  increment_tool_metrics (invocation ∷ invocations) m =
      increment_tool_metrics invocations (count_invocation invocation m)
