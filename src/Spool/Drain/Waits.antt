-- ===== src/Spool/Drain/Waits.antt =====
-- How long `run_drain_loop` of src/spool.rs waits.
use archiv_agent.Base.{ℕ, ◌*◌, ◌≤◌, ◌<◌, min, arith, List, [], ◌∷◌}
use archiv_agent.Spool.{DrainOutcome, delivered_one, idle, retry}
use archiv_agent.Spool.Drain.{after_drain, drain_waits, run_drain_loop}

-- What an attempt may wait for.
abbrev pub MayWait : DrainOutcome → ℕ → Type 0
MayWait delivered_one wait = wait ≤ 0
MayWait idle wait = (1000 ≤ wait) × (wait ≤ 1000)
MayWait retry wait = (1000 ≤ wait) × (wait < 30_250)

unfoldable pub AllMayWait : List (DrainOutcome × ℕ) → List ℕ → Type 0
AllMayWait [] [] = Unit
AllMayWait [] (w ∷ ws) = ⊥
AllMayWait (a ∷ attempts) [] = ⊥
AllMayWait (a ∷ attempts) (w ∷ ws) = MayWait a.0 w × AllMayWait attempts ws

drain_waits-AllMayWait :
    (attempts : List (DrainOutcome × ℕ)) (backoff : ℕ)
    → 1000 ≤ backoff
    → backoff ≤ 30_000
    → AllMayWait attempts (drain_waits attempts backoff)
unfolding drain_waits after_drain AllMayWait
drain_waits-AllMayWait [] backoff low high = tt
drain_waits-AllMayWait ((delivered_one, nanos) ∷ attempts) backoff low high =
    (omega arith, drain_waits-AllMayWait attempts 1000 (omega arith) (omega arith))
drain_waits-AllMayWait ((idle, nanos) ∷ attempts) backoff low high =
    ((omega arith, omega arith), drain_waits-AllMayWait attempts backoff low high)
drain_waits-AllMayWait ((retry, nanos) ∷ attempts) backoff low high = (
  (omega (arith, low), omega (arith, high)),
  drain_waits-AllMayWait attempts (min (backoff * 2) 30_000) (omega (arith, low)) (omega arith),
)

-- However the attempts to drain end, the loop goes on at once behind a delivery, it waits for a second
-- when the spool is empty, and behind a failed attempt for at least a second and less than 30.25 seconds.
pub run_drain_loop-AllMayWait :
    (attempts : List (DrainOutcome × ℕ)) → AllMayWait attempts (run_drain_loop attempts)
unfolding run_drain_loop
run_drain_loop-AllMayWait attempts =
    drain_waits-AllMayWait attempts 1000 (omega arith) (omega arith)
