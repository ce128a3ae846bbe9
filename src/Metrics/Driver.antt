-- ===== src/Metrics/Driver.antt =====
-- The driver of the register in src/metrics.rs: `run_flush_loop`, with the requests that are recorded in
-- between. The wall clock is read at each tick, and a sink that fails changes nothing.
pub mod Windows
use archiv_agent.Base.{List, [], ◌∷◌}
use archiv_agent.Base.Int.{ℤ}
use archiv_agent.Metrics.{Sample, Aggregate, Metrics, record_sample, flush}

-- What wakes the register up, until the shutdown.
pub data Wake : Type 0 where
  request : Sample → Wake
  ticked : ℤ → Wake

-- The loop from `window_start` on, with the clock at the shutdown, and what it hands to the sink.
unfoldable pub run_flush_loop : ℤ → List Wake → ℤ → Metrics → Metrics × List Aggregate
run_flush_loop stopped [] window_start m =
    let (m', agg) = flush window_start stopped m in (m', agg ∷ [])
run_flush_loop stopped (request s ∷ ws) window_start m =
    run_flush_loop stopped ws window_start (record_sample s m)
run_flush_loop stopped (ticked window_end ∷ ws) window_start m =
    let (m', agg) = flush window_start window_end m in
    let (m'', aggs) = run_flush_loop stopped ws window_end m' in (m'', agg ∷ aggs)
