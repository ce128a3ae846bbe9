-- ===== src/Spool/Drain.antt =====
-- The waits of `run_drain_loop` in src/spool.rs, in milliseconds. What the calls of `drain_once` return
-- is a list, each with the nanoseconds of the clock that its jitter is drawn from.
pub mod Waits
use archiv_agent.Base.{ℕ, ◌+◌, ◌*◌, ◌%◌, min, List, [], ◌∷◌}
use archiv_agent.Spool.{DrainOutcome, delivered_one, idle, retry}

abbrev pub idle_poll : ℕ
idle_poll = 1000

abbrev pub backoff_base : ℕ
backoff_base = 1000

abbrev pub backoff_max : ℕ
backoff_max = 30_000

abbrev pub jitter : ℕ → ℕ
jitter nanos = nanos % 250

-- The wait behind one attempt, and the backoff from then on.
unfoldable pub after_drain : DrainOutcome → ℕ → ℕ → ℕ × ℕ
after_drain delivered_one nanos backoff = (0, backoff_base)
after_drain idle nanos backoff = (idle_poll, backoff)
after_drain retry nanos backoff = (backoff + jitter nanos, min (backoff * 2) backoff_max)

-- The waits of the loop, until its shutdown.
unfoldable pub drain_waits : List (DrainOutcome × ℕ) → ℕ → List ℕ
unfolding after_drain
drain_waits [] backoff = []
drain_waits ((outcome, nanos) ∷ attempts) backoff =
    let (wait, backoff') = after_drain outcome nanos backoff in wait ∷ drain_waits attempts backoff'

unfoldable pub run_drain_loop : List (DrainOutcome × ℕ) → List ℕ
run_drain_loop attempts = drain_waits attempts backoff_base
