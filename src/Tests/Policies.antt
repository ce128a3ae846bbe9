-- ===== src/Tests/Policies.antt =====
-- Patterns, targets, trace ids, the breaker and the register, on small inputs.
use archiv_agent.Base.{
  ℕ, ◌-◌, ◌<◌, ◌≡◌, ◌≢◌, ◌↔◌, refl, arith, List, [], ◌∷◌, ◌++◌, All, Bool, true, false, none, some,
}
use archiv_agent.Base.Int.{pos}
use archiv_agent.Wire.{Bytes}
use archiv_agent.Envelope.{
  decode_trace_id, trace_id_bytes, RecordView, stage_sample, clear_stage, push_redaction,
  sampling_verdict, keep,
}
use archiv_agent.Envelope.TraceId.{hex_text, decode_trace_id-hex_text}
use archiv_agent.Envelope.Staging.{clear_stage_lem}
use archiv_agent.Glob.{matches, match_loop}
use archiv_agent.Glob.Language.{Matches, IsStarFree}
use archiv_agent.Glob.Correct.{matches-settles, matches-sound, matches_iff, literal_star_missed}
use archiv_agent.Sampling.{bucket, fallback_key, keep_untraced}
use archiv_agent.Sampling.Decision.{keep_untraced-keep}
use archiv_agent.Sampling.Policy.{Rule, SamplingPolicy, resolve}
use archiv_agent.Sampling.Policy.Resolve.{Resolves, resolve-Resolves}
use archiv_agent.Breaker.{CircuitBreaker, new, allow_at, record_fault_at}
use archiv_agent.Breaker.Laws.{IsValid, here, next, fault, Reach-IsValid, allow_at_lem}
use archiv_agent.Metrics.{Metrics, Sample, no_counts}
use archiv_agent.Metrics.Conservation.{total, NumberedFrom, FitsU64}
use archiv_agent.Metrics.Driver.{Wake, request, ticked, run_flush_loop}
use archiv_agent.Metrics.Driver.Windows.{Tile, requested, run_flush_loop_lem}
use archiv_agent.Spool.{idle, retry}
use archiv_agent.Spool.Drain.{run_drain_loop}
use archiv_agent.Spool.Drain.Waits.{AllMayWait, run_drain_loop-AllMayWait}
use archiv_agent.Tests.Samples.{sum_hash, sum_hash-IsStreaming, body_redaction, redacted_decisions}

abbrev pattern : Bytes
pattern = b'a' ∷ b'*' ∷ b'c' ∷ []

abbrev key : Bytes
key = b'a' ∷ b'b' ∷ b'b' ∷ b'c' ∷ []

key-IsStarFree : IsStarFree key
key-IsStarFree = (omega arith, (omega arith, (omega arith, (omega arith, tt))))

matches_iff_example : (matches pattern key ≡ true) ↔ Matches pattern key
matches_iff_example = matches_iff pattern key key-IsStarFree

matches-settles_example : (b : Bool) × (match_loop 20 pattern key 0 0 none ≡ some b)
matches-settles_example = matches-settles pattern key

accepted : matches pattern key ≡ true
unfolding matches match_loop
accepted = refl

matches-sound_example : Matches pattern key
matches-sound_example = matches-sound pattern key accepted

literal_star_missed_example :
    (matches (b'*' ∷ b'a' ∷ []) (b'*' ∷ b'b' ∷ b'a' ∷ []) ≡ false)
    × Matches (b'*' ∷ b'a' ∷ []) (b'*' ∷ b'b' ∷ b'a' ∷ [])
literal_star_missed_example = literal_star_missed [] (b'a' ∷ []) b'b' (omega arith, tt)

abbrev rules : List Rule
rules =
    record { namespace_glob = some pattern; severity_lte = some (pos 8); target = 5 }
    ∷ record { namespace_glob = none; severity_lte = none; target = 50 }
    ∷ []

abbrev policy : SamplingPolicy
policy = record { rules = rules; default_target = 100 }

resolve-Resolves_example :
    Resolves 100 (some key) (some (pos 9)) rules (resolve policy (some key) (some (pos 9)))
resolve-Resolves_example = resolve-Resolves policy (some key) (some (pos 9)) key-IsStarFree

keep_untraced-keep_example :
    (fallback_key sum_hash key pattern ≡ sum_hash.xxh64 (key ++ 0 ∷ pattern) 0)
    × (keep_untraced sum_hash key pattern 30
        ≡ archiv_agent.Sampling.keep sum_hash (key ++ 0 ∷ pattern) 30)
keep_untraced-keep_example = keep_untraced-keep sum_hash sum_hash-IsStreaming key pattern 30

abbrev trace_id : Bytes
trace_id = 0 ∷ 255 ∷ 171 ∷ 16 ∷ 1 ∷ 2 ∷ 3 ∷ 4 ∷ 5 ∷ 6 ∷ 7 ∷ 8 ∷ 9 ∷ 10 ∷ 11 ∷ 12 ∷ []

decode_trace_id-hex_text_example :
    (decode_trace_id (some trace_id) ≡ some trace_id)
    × (decode_trace_id (some (hex_text true trace_id)) ≡ some trace_id)
decode_trace_id-hex_text_example = decode_trace_id-hex_text true trace_id bytes_small refl
  where
    bytes_small : All (λ b. b < 256) trace_id
    bytes_small = ground arith

abbrev traced_record : RecordView
traced_record = record {
  body = record { start = 0; end = 0 };
  trace_id = some (record { start = 0; end = 16 });
  attrs = [];
  severity_number = none;
  namespace = none;
  service_name = none;
}

found : trace_id_bytes traced_record trace_id ≡ some trace_id
unfolding trace_id_bytes
found = refl

clear_stage_lem_example :
    (clear_stage "redact" (push_redaction "redact" 0 body_redaction redacted_decisions)
      ≡ clear_stage "redact" redacted_decisions)
    × ("redact" ≢ stage_sample
        → sampling_verdict (clear_stage "redact" redacted_decisions) 0
          ≡ sampling_verdict redacted_decisions 0)
    × ("redact" ≡ stage_sample
        → sampling_verdict (clear_stage "redact" redacted_decisions) 0 ≡ keep)
clear_stage_lem_example = clear_stage_lem "redact" "redact" 0 body_redaction redacted_decisions

abbrev closed : CircuitBreaker
closed = new 2 10 30 0

Reach-IsValid_example : IsValid (record_fault_at 4 (new 2 10 30 0)).0
Reach-IsValid_example = Reach-IsValid 2 10 30 0 (omega arith) (next here (fault (new 2 10 30 0) 4))

allow_at_lem_example :
    (((allow_at 5 closed).1 ≡ false)
      ↔ ((opened : ℕ) × (closed.inner.opened_at ≡ some opened) × (5 - opened < closed.cooldown)))
    × ((allow_at 5 closed).1 ≡ false → (allow_at 5 closed).0 ≡ closed)
    × ((allow_at 5 closed).1 ≡ true → (allow_at 5 closed).0.inner.opened_at ≡ none)
allow_at_lem_example = allow_at_lem closed 5

abbrev one_request : Sample
one_request = record {
  events_in = 3;
  events_sampled_out = 1;
  events_exported = 2;
  bytes_in = 90;
  bytes_exported = 60;
  redaction_count = 4;
  failed_open = false;
}

abbrev wakes : List Wake
wakes = request one_request ∷ ticked (pos 10) ∷ request one_request ∷ []

abbrev register : Metrics
register = archiv_agent.Metrics.new 1

register-FitsU64 : FitsU64 register.counters
unfolding archiv_agent.Metrics.new
register-FitsU64 = ground arith

run_flush_loop_lem_example :
    let (m', aggs) = run_flush_loop (pos 25) wakes (pos 0) register in
    Tile (pos 0) (pos 25) aggs
    × NumberedFrom register.seq aggs
    × (total aggs no_counts ≡ requested wakes register.counters)
    × (m'.counters ≡ no_counts)
run_flush_loop_lem_example = run_flush_loop_lem (pos 25) wakes (pos 0) register register-FitsU64

run_drain_loop-AllMayWait_example :
    AllMayWait ((retry, 300) ∷ (idle, 0) ∷ []) (run_drain_loop ((retry, 300) ∷ (idle, 0) ∷ []))
run_drain_loop-AllMayWait_example = run_drain_loop-AllMayWait ((retry, 300) ∷ (idle, 0) ∷ [])
