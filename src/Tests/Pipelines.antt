-- ===== src/Tests/Pipelines.antt =====
-- The pipeline, its guard and its parser on the sample request.
use archiv_agent.Base.{
  ◌≡◌, ◌≢◌, refl, sym, append-nil, arith, List, [], ◌∷◌, All, All-append, length, true, false, Safe,
}
use archiv_agent.Wire.{Bytes}
use text.Mathlib.TextEquality.{eq_iff}
use archiv_agent.Envelope.{RecordView, Envelope, push_redaction, clear_stage}
use archiv_agent.Guard.{Stage, Ending, finished, failed, internal, bypassed, error, guarded}
use archiv_agent.Guard.Bypass.{Added, IsAdditive, guarded_restores}
use archiv_agent.Ingest.{parse_export_logs_request}
use archiv_agent.Ingest.Bounds.{IsRecordView, parse_export_logs_request-Safe}
use archiv_agent.Export.Emit.{contiguous}
use archiv_agent.Export.Emit.Written.{Returns}
use archiv_agent.Breaker.{with_defaults}
use archiv_agent.Pipeline.{Pipeline, process, parsed}
use archiv_agent.Pipeline.FailOpen.{
  IsGoverned, IsIdle, IsRedaction, IsProcessed, process-IsProcessed, process_unparsed,
}
use archiv_agent.Tests.Samples.{
  request_bytes, broken_bytes, two_masks, body_redaction, sum_hash, plain_envelope,
}

-- A redaction stage that masks the second byte of the sample's body.
abbrev mask_records : List RecordView → Envelope → Envelope
mask_records [] env = env
mask_records (r ∷ rs) env = record env {
  decisions = push_redaction "redact" 0 body_redaction env.decisions;
}

abbrev pub masking_stage : Stage (Unit {0})
masking_stage = record {
  id = "redact";
  apply = λ s env. (s, mask_records env.records env, finished);
}

mask_records-IsGoverned :
    (raw : Bytes) (rs : List RecordView) (env : Envelope)
    → IsGoverned raw env
    → IsGoverned raw (mask_records rs env)
unfolding push_redaction
mask_records-IsGoverned raw [] env h = h
mask_records-IsGoverned raw (r ∷ rs) env h = record {
  same_raw = h.same_raw;
  ordered = All-append _ env.decisions.redactions _ h.ordered (omega arith, tt);
}

mask_records-IsIdle :
    (rs : List RecordView) (env : Envelope) → rs ≡ [] → IsIdle env → IsIdle (mask_records rs env)
mask_records-IsIdle [] env e h = h
mask_records-IsIdle (r ∷ rs) env e h = absurd cc

pub masking_stage-IsRedaction : IsRedaction masking_stage
masking_stage-IsRedaction = record {
  governed = λ s raw env h. mask_records-IsGoverned raw env.records env h;
  idle = λ s env h. mask_records-IsIdle env.records env h.no_records h;
}

abbrev pub sample_pipeline : Pipeline (Unit {0})
sample_pipeline = record {
  redact = masking_stage;
  masks = two_masks;
  policy = record { rules = []; default_target = 100 };
  max_body_bytes = 4096;
  redact_state = tt;
  redact_breaker = with_defaults 0;
}

process-IsProcessed_example :
    Returns (λ r. IsProcessed request_bytes r.1) (process sum_hash 7 request_bytes sample_pipeline)
process-IsProcessed_example =
    process-IsProcessed sum_hash 7 request_bytes sample_pipeline masking_stage-IsRedaction

broken_bytes-bypassed : (parsed broken_bytes).1 ≡ true
unfolding parsed guarded archiv_agent.Envelope.new archiv_agent.Ingest.parse_apply
    parse_export_logs_request archiv_agent.Wire.walk archiv_agent.Wire.new archiv_agent.Wire.done
    archiv_agent.Wire.tag archiv_agent.Wire.varint archiv_agent.Wire.varint_loop
    archiv_agent.Wire.byte archiv_agent.Wire.len_range
broken_bytes-bypassed = refl

process_unparsed_example :
    Returns
      (λ r. contiguous r.1.output ≡ broken_bytes)
      (process sum_hash 7 broken_bytes sample_pipeline)
process_unparsed_example =
    process_unparsed sum_hash 7 broken_bytes sample_pipeline masking_stage-IsRedaction
      broken_bytes-bypassed

parse_export_logs_request-Safe_example :
    Safe (All (IsRecordView (length request_bytes))) (parse_export_logs_request request_bytes)
parse_export_logs_request-Safe_example = parse_export_logs_request-Safe request_bytes

-- The same stage, when it fails behind its redaction.
abbrev failing_stage : Stage (Unit {0})
failing_stage = record {
  id = "redact";
  apply = λ s env. (s, mask_records env.records env, failed (internal "out of memory"));
}

mask_records-Added :
    (rs : List RecordView) (env : Envelope) (e : Ending)
    → Added "redact" env (mask_records rs env) e
unfolding push_redaction
mask_records-Added [] env e = record {
  raw = refl;
  records = λ _. refl;
  sampling = refl;
  spans = [];
  added = sym (append-nil env.decisions.redactions);
  own = tt;
}
mask_records-Added (r ∷ rs) env e = record {
  raw = refl;
  records = λ _. refl;
  sampling = refl;
  spans = record { stage = "redact"; record_idx = 0; redaction = body_redaction } ∷ [];
  added = refl;
  own = (refl, tt);
}

failing_stage-IsAdditive : IsAdditive failing_stage
failing_stage-IsAdditive s env = mask_records-Added env.records env _

false_ne : false ≢ true
false_ne e = cc

redact_ne : "redact" ≢ archiv_agent.Envelope.stage_sample
redact_ne e =
    let h : false ≡ true = (eq_iff "redact" archiv_agent.Envelope.stage_sample).1 e in
    absurd (false_ne h)

failing_stage-bypassed :
    (guarded failing_stage tt plain_envelope).2 ≡ bypassed (error (internal "out of memory"))
unfolding guarded
failing_stage-bypassed = refl

guarded_restores_example : (guarded failing_stage tt plain_envelope).1 ≡ plain_envelope
guarded_restores_example =
    guarded_restores failing_stage tt plain_envelope (error (internal "out of memory"))
      failing_stage-IsAdditive (λ e. redact_ne e) tt failing_stage-bypassed
