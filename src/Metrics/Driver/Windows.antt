-- ===== src/Metrics/Driver/Windows.antt =====
-- The windows that `run_flush_loop` of src/metrics.rs delivers.
use archiv_agent.Base.{◌≡◌, ◌∙◌, refl, ap, List, [], ◌∷◌}
use archiv_agent.Base.Int.{ℤ}
use archiv_agent.Metrics.{
  Counters, Aggregate, Metrics, no_counts, record_counters, record_sample, drain, flush,
}
use archiv_agent.Metrics.Conservation.{
  Event, sample, tick, run, total, recorded, NumberedFrom, FitsU64, run-total,
}
use archiv_agent.Metrics.Driver.{Wake, request, ticked, run_flush_loop}

-- The windows follow one another without a gap, from one instant to another.
unfoldable pub Tile : ℤ → ℤ → List Aggregate → Type 0
Tile from to [] = from ≡ to
Tile from to (a ∷ aggs) = (a.window_start_ms ≡ from) × Tile a.window_end_ms to aggs

-- What was recorded, in one window.
unfoldable pub requested : List Wake → Counters → Counters
requested [] c = c
requested (request s ∷ ws) c = requested ws (record_counters s c)
requested (ticked now ∷ ws) c = requested ws c

-- The same as events of the register.
events_of : ℤ → List Wake → ℤ → List Event
events_of stopped [] from = tick from stopped ∷ []
events_of stopped (request s ∷ ws) from = sample s ∷ events_of stopped ws from
events_of stopped (ticked now ∷ ws) from = tick from now ∷ events_of stopped ws now

run_flush_loop-run :
    (stopped : ℤ) (ws : List Wake) (from : ℤ) (m : Metrics)
    → run_flush_loop stopped ws from m ≡ run (events_of stopped ws from) m
unfolding run_flush_loop run events_of
run_flush_loop-run stopped [] from m = refl
run_flush_loop-run stopped (request s ∷ ws) from m =
    run_flush_loop-run stopped ws from (record_sample s m)
run_flush_loop-run stopped (ticked now ∷ ws) from m =
    let (m', agg) = flush from now m in
    ap (λ r. (r.0, agg ∷ r.1)) (run_flush_loop-run stopped ws now m')

recorded-requested :
    (stopped : ℤ) (ws : List Wake) (from : ℤ) (c : Counters)
    → recorded (events_of stopped ws from) c ≡ requested ws c
unfolding recorded requested events_of
recorded-requested stopped [] from c = refl
recorded-requested stopped (request s ∷ ws) from c =
    recorded-requested stopped ws from (record_counters s c)
recorded-requested stopped (ticked now ∷ ws) from c = recorded-requested stopped ws now c

run_flush_loop-Tile :
    (stopped : ℤ) (ws : List Wake) (from : ℤ) (m : Metrics)
    → Tile from stopped (run_flush_loop stopped ws from m).1
unfolding run_flush_loop Tile flush
run_flush_loop-Tile stopped [] from m = (refl, refl)
run_flush_loop-Tile stopped (request s ∷ ws) from m =
    run_flush_loop-Tile stopped ws from (record_sample s m)
run_flush_loop-Tile stopped (ticked now ∷ ws) from m =
    (refl, run_flush_loop-Tile stopped ws now (flush from now m).0)

run_flush_loop-drained :
    (stopped : ℤ) (ws : List Wake) (from : ℤ) (m : Metrics)
    → (run_flush_loop stopped ws from m).0.counters ≡ no_counts
unfolding run_flush_loop flush drain
run_flush_loop-drained stopped [] from m = refl
run_flush_loop-drained stopped (request s ∷ ws) from m =
    run_flush_loop-drained stopped ws from (record_sample s m)
run_flush_loop-drained stopped (ticked now ∷ ws) from m =
    run_flush_loop-drained stopped ws now (flush from now m).0

-- What `run_flush_loop` delivers until the shutdown, where each request is recorded as a whole, with no
-- flush between its adds: the windows follow one another without a gap from
-- its start to the shutdown, they are numbered consecutively, and added up, modulo 2 ^ 64, they are all
-- that was recorded, with nothing left behind, where the counters it starts with fit in 64 bits.
pub run_flush_loop_lem :
    (stopped : ℤ) (ws : List Wake) (from : ℤ) (m : Metrics)
    → FitsU64 m.counters
    → let (m', aggs) = run_flush_loop stopped ws from m in
      Tile from stopped aggs
      × NumberedFrom m.seq aggs
      × (total aggs no_counts ≡ requested ws m.counters)
      × (m'.counters ≡ no_counts)
run_flush_loop_lem stopped ws from m fits =
    let same = run_flush_loop-run stopped ws from m in
    let (sums, numbers) = run-total (events_of stopped ws from) m fits in
    let empty = run_flush_loop-drained stopped ws from m in
    let numbered : NumberedFrom m.seq (run_flush_loop stopped ws from m).1 = rw same numbers in
    let left : (run (events_of stopped ws from) m).0.counters ≡ no_counts = rw same at empty in
    let added : total (run (events_of stopped ws from) m).1 no_counts
        ≡ recorded (events_of stopped ws from) m.counters =
      rw left at sums in
    (
      run_flush_loop-Tile stopped ws from m,
      numbered,
      ap (λ r. total r.1 no_counts) same ∙ added ∙ recorded-requested stopped ws from m.counters,
      empty,
    )
