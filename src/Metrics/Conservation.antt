-- ===== src/Metrics/Conservation.antt =====
-- Requests and flushes on the register of crates/archiv-metrics/src/lib.rs, in any order.
use archiv_agent.Base.{ℕ, ◌^◌, ◌<◌, ◌≡◌, refl, ap, sym, ◌∙◌, arith, List, [], ◌∷◌, if◌then◌else◌}
use archiv_agent.Base.Int.{ℤ}
use archiv_agent.Metrics.{Sample, Counters, Aggregate, Metrics, no_counts, fetch_add, bytes_dropped}
use archiv_agent.Metrics.{record_counters, record_sample, flush}

-- What may happen to the register, in any order.
pub data Event : Type 0 where
  sample : Sample → Event
  tick : ℤ → ℤ → Event

unfoldable pub run : List Event → Metrics → Metrics × List Aggregate
run [] m = (m, [])
run (sample s ∷ es) m = run es (record_sample s m)
run (tick a b ∷ es) m =
    let (m', agg) = flush a b m in let (m'', aggs) = run es m' in (m'', agg ∷ aggs)

-- Counters added field by field, as they wrap.
plus : Counters → Counters → Counters
plus c d = record {
  events_in = fetch_add c.events_in d.events_in;
  events_sampled_out = fetch_add c.events_sampled_out d.events_sampled_out;
  events_exported = fetch_add c.events_exported d.events_exported;
  bytes_in = fetch_add c.bytes_in d.bytes_in;
  bytes_dropped = fetch_add c.bytes_dropped d.bytes_dropped;
  bytes_exported = fetch_add c.bytes_exported d.bytes_exported;
  redaction_count = fetch_add c.redaction_count d.redaction_count;
  failopen_count = fetch_add c.failopen_count d.failopen_count;
}

-- The windows that were flushed and the one that is open, together.
pub total : List Aggregate → Counters → Counters
total [] c = c
total (a ∷ aggs) c = plus a.counts (total aggs c)

-- The same events on counters that are never flushed.
unfoldable pub recorded : List Event → Counters → Counters
recorded [] c = c
recorded (sample s ∷ es) c = recorded es (record_counters s c)
recorded (tick _ _ ∷ es) c = recorded es c

-- The flush numbers count up from `n`.
pub NumberedFrom : ℕ → List Aggregate → Type 0
NumberedFrom n [] = Unit
NumberedFrom n (a ∷ aggs) = (a.seq ≡ n) × NumberedFrom (fetch_add n 1) aggs

-- Every counter is a `u64`.
pub record FitsU64 (c : Counters) : Type 0 where
  pub events_in : c.events_in < 2 ^ 64
  pub events_sampled_out : c.events_sampled_out < 2 ^ 64
  pub events_exported : c.events_exported < 2 ^ 64
  pub bytes_in : c.bytes_in < 2 ^ 64
  pub bytes_dropped : c.bytes_dropped < 2 ^ 64
  pub bytes_exported : c.bytes_exported < 2 ^ 64
  pub redaction_count : c.redaction_count < 2 ^ 64
  pub failopen_count : c.failopen_count < 2 ^ 64

fetch_add_assoc : (a b c : ℕ) → fetch_add (fetch_add a b) c ≡ fetch_add a (fetch_add b c)
fetch_add_assoc a b c = omega arith

fetch_add-zero : (a : ℕ) → a < 2 ^ 64 → fetch_add a 0 ≡ a
fetch_add-zero a h = omega arith

plus-record_counters :
    (s : Sample) (c d : Counters) → record_counters s (plus c d) ≡ plus c (record_counters s d)
unfolding plus record_counters
plus-record_counters s c d = λ i. record {
  events_in = fetch_add_assoc c.events_in d.events_in s.events_in i;
  events_sampled_out =
      fetch_add_assoc c.events_sampled_out d.events_sampled_out s.events_sampled_out i;
  events_exported = fetch_add_assoc c.events_exported d.events_exported s.events_exported i;
  bytes_in = fetch_add_assoc c.bytes_in d.bytes_in s.bytes_in i;
  bytes_dropped = fetch_add_assoc c.bytes_dropped d.bytes_dropped (bytes_dropped s) i;
  bytes_exported = fetch_add_assoc c.bytes_exported d.bytes_exported s.bytes_exported i;
  redaction_count = fetch_add_assoc c.redaction_count d.redaction_count s.redaction_count i;
  failopen_count =
      fetch_add_assoc c.failopen_count d.failopen_count (if s.failed_open then 1 else 0) i;
}

recorded-plus : (es : List Event) (c d : Counters) → recorded es (plus c d) ≡ plus c (recorded es d)
unfolding recorded
recorded-plus [] c d = refl
recorded-plus (sample s ∷ es) c d =
    ap (recorded es) (plus-record_counters s c d) ∙ recorded-plus es c (record_counters s d)
recorded-plus (tick a b ∷ es) c d = recorded-plus es c d

plus-no_counts : (c : Counters) → FitsU64 c → plus c no_counts ≡ c
unfolding plus
plus-no_counts c f = λ i. record {
  events_in = fetch_add-zero c.events_in f.events_in i;
  events_sampled_out = fetch_add-zero c.events_sampled_out f.events_sampled_out i;
  events_exported = fetch_add-zero c.events_exported f.events_exported i;
  bytes_in = fetch_add-zero c.bytes_in f.bytes_in i;
  bytes_dropped = fetch_add-zero c.bytes_dropped f.bytes_dropped i;
  bytes_exported = fetch_add-zero c.bytes_exported f.bytes_exported i;
  redaction_count = fetch_add-zero c.redaction_count f.redaction_count i;
  failopen_count = fetch_add-zero c.failopen_count f.failopen_count i;
}

record_counters-FitsU64 : (s : Sample) (c : Counters) → FitsU64 (record_counters s c)
unfolding record_counters
record_counters-FitsU64 s c = omega arith

-- Whatever the order of requests and flushes, the flushed windows and the open one add up, counter
-- by counter and modulo 2 ^ 64, to what the same requests give with no flush between; and the
-- windows are numbered consecutively.
pub run-total :
    (es : List Event) (m : Metrics)
    → FitsU64 m.counters
    → (total (run es m).1 (run es m).0.counters ≡ recorded es m.counters)
      × NumberedFrom m.seq (run es m).1
unfolding run total recorded NumberedFrom record_sample flush
run-total [] m f = (refl, tt)
run-total (sample s ∷ es) m f = run-total es (record_sample s m) (record_counters-FitsU64 s _)
run-total (tick a b ∷ es) m f =
    let rest = run-total es (flush a b m).0 (omega arith) in
    (
      ap (plus m.counters) rest.0
          ∙ sym (recorded-plus es m.counters no_counts)
          ∙ ap (recorded es) (plus-no_counts m.counters f),
      (refl, rest.1),
    )
