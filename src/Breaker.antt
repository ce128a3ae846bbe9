-- ===== src/Breaker.antt =====
-- The circuit breaker of src/breaker.rs. An `Instant` is a number of nanoseconds, a `Duration` too;
-- `saturating_duration_since` is the subtraction of numbers. The lock makes each call one step.
pub mod Laws
use archiv_agent.Base.{ℕ, ◌+◌, ◌-◌, ◌*◌, ◌%◌, ◌^◌, max, Option, none, some, Bool, true, false}
use archiv_agent.Base.{leb, ltb, if◌then◌else◌, ◌&&◌}

pub record Inner : Type 0 where
  pub window_start : ℕ
  pub faults : ℕ
  pub opened_at : Option ℕ

pub record CircuitBreaker : Type 0 where
  pub threshold : ℕ
  pub window : ℕ
  pub cooldown : ℕ
  pub inner : Inner

-- `new` at the instant `now`.
unfoldable pub new : ℕ → ℕ → ℕ → ℕ → CircuitBreaker
new threshold window cooldown now = record {
  threshold = max threshold 1;
  window = window;
  cooldown = cooldown;
  inner = record { window_start = now; faults = 0; opened_at = none };
}

abbrev pub seconds : ℕ → ℕ
seconds n = n * 1_000_000_000

unfoldable pub with_defaults : ℕ → CircuitBreaker
unfolding new
with_defaults now = new 5 (seconds 10) (seconds 30) now

abbrev pub set_inner : Inner → CircuitBreaker → CircuitBreaker
set_inner i b = record b { inner = i }

abbrev pub allow_inner : Option ℕ → ℕ → CircuitBreaker → CircuitBreaker × Bool
allow_inner none now b = (b, true)
allow_inner (some opened) now b =
    if ltb (now - opened) b.cooldown
    then (b, false)
    else (set_inner (record { window_start = now; faults = 0; opened_at = none }) b, true)

unfoldable pub allow_at : ℕ → CircuitBreaker → CircuitBreaker × Bool
allow_at now b = allow_inner b.inner.opened_at now b

abbrev pub is_none : Option ℕ → Bool
is_none none = true
is_none (some _) = false

-- The window rolls over when it has run out.
abbrev pub roll : ℕ → ℕ → Inner → Inner
roll window now g =
    if ltb window (now - g.window_start) then record g { window_start = now; faults = 0 } else g

-- `g.faults += 1`, a `u32`
abbrev pub count_fault : Inner → Inner
count_fault g = record g { faults = (g.faults + 1) % 2 ^ 32 }

abbrev pub trip : ℕ → Inner → CircuitBreaker → CircuitBreaker × Bool
trip now g b =
    if leb b.threshold g.faults && is_none g.opened_at
    then (set_inner (record g { opened_at = some now }) b, true)
    else (set_inner g b, false)

unfoldable pub record_fault_at : ℕ → CircuitBreaker → CircuitBreaker × Bool
record_fault_at now b = trip now (count_fault (roll b.window now b.inner)) b
