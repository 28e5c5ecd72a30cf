-- ===== src/Metrics/Counts.antt =====
-- What the counters of src/server/metrics.hpp count.
use zoo_keeper_server.Prelude.{
  ℕ, ◌+◌, ◌≡◌, ◌∙◌, Bytes, Bool, not, ◌&&◌, Option, List, [], ◌∷◌, leb, wrap64, length, keep, arith,
}
use zoo_keeper_server.Metrics.{
  ServerMetrics, with_metrics, is_timeout, count_invocation, increment_tool_metrics,
}

add_wrap64 : (a b : ℕ) → wrap64 (wrap64 a + b) ≡ wrap64 (a + b)
add_wrap64 a b = omega arith

-- Counting the responses one by one.
unfoldable pub count_responses : List ℕ → ServerMetrics → ServerMetrics
count_responses [] m = m
count_responses (status ∷ rest) m = count_responses rest (with_metrics status m)

module _ {I : Type 0} (succeeded : I → Bool) (error : I → Option (Option Bytes)) where
  abbrev pub failed : I → Bool
  failed i = not (succeeded i)

  abbrev pub timed_out : I → Bool
  timed_out i = not (succeeded i) && is_timeout succeeded error (error i)

  -- Modulo `2 ^ 64`, the records of the tools add their number to the invocations, the number of
  -- those that did not succeed to the failures, and of these the number whose error has the
  -- context `timeout` to the timeouts.
  pub increment_tool_metrics_lem :
      (invocations : List I) (m : ServerMetrics)
      → let v = increment_tool_metrics succeeded error invocations m in
        (wrap64 v.tool_invocations_total ≡ wrap64 (m.tool_invocations_total + length invocations))
        × (wrap64 v.tool_failures_total
            ≡ wrap64 (m.tool_failures_total + length (keep failed invocations)))
        × (wrap64 v.tool_timeouts_total
            ≡ wrap64 (m.tool_timeouts_total + length (keep timed_out invocations)))
  unfolding increment_tool_metrics
  increment_tool_metrics_lem [] m = (omega arith, omega arith, omega arith)
  increment_tool_metrics_lem (i ∷ is) m =
      let (invoked, failing, late) =
        increment_tool_metrics_lem is (count_invocation succeeded error i m) in
      (invoked ∙ ground arith, failing ∙ ground arith, late ∙ ground arith)

-- Modulo `2 ^ 64`, counting a list of responses adds its length to the requests, and the number of
-- those with a status of 400 or more to the errors.
pub count_responses_lem :
    (statuses : List ℕ) (m : ServerMetrics)
    → let v = count_responses statuses m in
      (wrap64 v.requests_total ≡ wrap64 (m.requests_total + length statuses))
      × (wrap64 v.requests_errors
          ≡ wrap64 (m.requests_errors + length (keep (λ status. leb 400 status) statuses)))
unfolding count_responses with_metrics
count_responses_lem [] m = (omega arith, omega arith)
count_responses_lem (status ∷ rest) m =
    let (requests, errors) = count_responses_lem rest (with_metrics status m) in
    (requests ∙ ground arith, errors ∙ ground arith)
