-- ===== src/Breaker/Laws.antt =====
-- The breaker of src/breaker.rs as a state machine: its steps, its invariant, and each of its
-- calls.
use archiv_agent.Base.{ℕ, ◌-◌, ◌^◌, ◌≤◌, ◌<◌, ◌≡◌, ◌↔◌, refl, arith, Option, none, some}
use archiv_agent.Base.{true, false, ltb, if◌then◌else◌}
use archiv_agent.Breaker.{CircuitBreaker, new, allow_at, record_fault_at, allow_inner}

-- While the breaker is closed its faults are below the threshold, which is a positive `u32`.
pub record IsValid (b : CircuitBreaker) : Type 0 where
  pub positive : 1 ≤ b.threshold
  pub small : b.threshold < 2 ^ 32
  pub below : b.inner.opened_at ≡ none → b.inner.faults < b.threshold

pub data Step : CircuitBreaker → CircuitBreaker → Type 0 where
  allow : (b : CircuitBreaker) (now : ℕ) → Step b (allow_at now b).0
  fault : (b : CircuitBreaker) (now : ℕ) → Step b (record_fault_at now b).0

pub data Reach (b : CircuitBreaker) : CircuitBreaker → Type 0 where
  here : Reach b b
  next : {c d : CircuitBreaker} → Reach b c → Step c d → Reach b d

allow_at-IsValid : (b : CircuitBreaker) (now : ℕ) → IsValid b → IsValid (allow_at now b).0
unfolding allow_at
allow_at-IsValid b now v = ground arith

record_fault_at-IsValid :
    (b : CircuitBreaker) (now : ℕ) → IsValid b → IsValid (record_fault_at now b).0
unfolding record_fault_at
record_fault_at-IsValid b now v = ground (arith, v.below)

Step-IsValid : {b c : CircuitBreaker} → Step b c → IsValid b → IsValid c
Step-IsValid (allow b now) v = allow_at-IsValid b now v
Step-IsValid (fault b now) v = record_fault_at-IsValid b now v

-- However calls of `allow_at` and `record_fault_at` follow one another from a new breaker, a breaker
-- that is closed has fewer faults in its window than its threshold.
pub Reach-IsValid :
    (threshold window cooldown now : ℕ) {b : CircuitBreaker}
    → threshold < 2 ^ 32
    → Reach (new threshold window cooldown now) b
    → IsValid b
unfolding new
Reach-IsValid threshold window cooldown now h here = ground arith
Reach-IsValid threshold window cooldown now h (next r s) =
    Step-IsValid s (Reach-IsValid threshold window cooldown now h r)

refused_iff :
    (o : Option ℕ) (now : ℕ) (b : CircuitBreaker)
    → ((allow_inner o now b).1 ≡ false)
      ↔ ((opened : ℕ) × (o ≡ some opened) × (now - opened < b.cooldown))
refused_iff none now b = (λ e. cc, λ (x, e, h). cc)
refused_iff (some opened) now b = (λ e. (opened, refl, ground arith), λ (x, e, h). ground arith)

-- `allow_at` refuses exactly while the breaker is open and its cooldown runs, and then changes
-- nothing; when it allows, it leaves the breaker closed.
pub allow_at_lem :
    (b : CircuitBreaker) (now : ℕ)
    → (((allow_at now b).1 ≡ false)
        ↔ ((opened : ℕ) × (b.inner.opened_at ≡ some opened) × (now - opened < b.cooldown)))
      × ((allow_at now b).1 ≡ false → (allow_at now b).0 ≡ b)
      × ((allow_at now b).1 ≡ true → (allow_at now b).0.inner.opened_at ≡ none)
unfolding allow_at
allow_at_lem b now = (refused_iff b.inner.opened_at now b, ground arith, ground arith)

-- The faults that count at `now`: none, if the window has run out.
pub counted : CircuitBreaker → ℕ → ℕ
counted b now = if ltb b.window (now - b.inner.window_start) then 0 else b.inner.faults
