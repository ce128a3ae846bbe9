-- ===== src/Metrics.antt =====
-- The aggregation register of crates/archiv-metrics/src/lib.rs. Counters are `AtomicU64`s, which wrap. A
-- call of `record` or `flush` is one step here; Metrics/Atomics has its single accesses.
pub mod Atomics
pub mod Conservation
pub mod Driver
use archiv_agent.Base.{ℕ, ◌+◌, ◌-◌, ◌%◌, ◌^◌, Bool, true, false, if◌then◌else◌}
use archiv_agent.Base.Int.{ℤ}

pub record Sample : Type 0 where
  pub events_in : ℕ
  pub events_sampled_out : ℕ
  pub events_exported : ℕ
  pub bytes_in : ℕ
  pub bytes_exported : ℕ
  pub redaction_count : ℕ
  pub failed_open : Bool

-- `saturating_sub`
unfoldable pub bytes_dropped : Sample → ℕ
bytes_dropped s = s.bytes_in - s.bytes_exported

-- `WindowCounters`, and `DrainedCounts`, which has the same fields.
pub record Counters : Type 0 where
  pub events_in : ℕ
  pub events_sampled_out : ℕ
  pub events_exported : ℕ
  pub bytes_in : ℕ
  pub bytes_dropped : ℕ
  pub bytes_exported : ℕ
  pub redaction_count : ℕ
  pub failopen_count : ℕ

abbrev pub no_counts : Counters
no_counts = record {
  events_in = 0;
  events_sampled_out = 0;
  events_exported = 0;
  bytes_in = 0;
  bytes_dropped = 0;
  bytes_exported = 0;
  redaction_count = 0;
  failopen_count = 0;
}

-- `fetch_add`
abbrev pub fetch_add : ℕ → ℕ → ℕ
fetch_add a b = (a + b) % 2 ^ 64

unfoldable pub record_counters : Sample → Counters → Counters
unfolding bytes_dropped
record_counters s c = record {
  events_in = fetch_add c.events_in s.events_in;
  events_sampled_out = fetch_add c.events_sampled_out s.events_sampled_out;
  events_exported = fetch_add c.events_exported s.events_exported;
  bytes_in = fetch_add c.bytes_in s.bytes_in;
  bytes_dropped = fetch_add c.bytes_dropped (bytes_dropped s);
  bytes_exported = fetch_add c.bytes_exported s.bytes_exported;
  redaction_count = fetch_add c.redaction_count s.redaction_count;
  failopen_count = fetch_add c.failopen_count (if s.failed_open then 1 else 0);
}

-- Every counter is read and reset.
unfoldable pub drain : Counters → Counters × Counters
drain c = (no_counts, c)

pub record Aggregate : Type 0 where
  pub seq : ℕ
  pub window_start_ms : ℤ
  pub window_end_ms : ℤ
  pub policy_version : ℕ
  pub counts : Counters

pub record Metrics : Type 0 where
  pub counters : Counters
  pub seq : ℕ
  pub policy_version : ℕ

unfoldable pub new : ℕ → Metrics
new policy_version = record { counters = no_counts; seq = 0; policy_version = policy_version }

-- The eight adds of a request, with none of another call in between.
unfoldable pub record_sample : Sample → Metrics → Metrics
unfolding record_counters
record_sample s m = record m { counters = record_counters s m.counters }

unfoldable pub flush : ℤ → ℤ → Metrics → Metrics × Aggregate
unfolding drain
flush window_start_ms window_end_ms m =
    let (counters, d) = drain m.counters in
    (
      record m { counters = counters; seq = fetch_add m.seq 1 },
      record {
        seq = m.seq;
        window_start_ms = window_start_ms;
        window_end_ms = window_end_ms;
        policy_version = m.policy_version;
        counts = d;
      },
    )
