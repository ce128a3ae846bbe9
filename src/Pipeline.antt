-- ===== src/Pipeline.antt =====
-- The orchestrator of src/pipeline.rs: parse, sample, redact under its breaker, assemble. The
-- redaction stage is an argument, a `Stage` with inner state `S`; the clock is the argument `now`.
pub mod FailOpen
pub mod Redacting
pub mod Building
use archiv_agent.Base.{ℕ, ◌+◌, List, [], ◌∷◌, map, Option, none, some, Bool, true, false, length}
use archiv_agent.Base.{if◌then◌else◌, Run, ok, err, panic, out_of_fuel, ◌>>=◌}
use archiv_agent.Base.Int.{ℤ}
use archiv_agent.Wire.{Bytes, get_range}
use archiv_agent.Envelope.{RecordView, SampleVerdict, keep, drop, Envelope, new, set_sampling}
use archiv_agent.Envelope.{redaction_total, trace_id_bytes, namespace_bytes, service_name_bytes}
use archiv_agent.Guard.{Stage, StageOutcome, applied, bypassed, guarded}
use archiv_agent.Ingest.{parse_stage}
use archiv_agent.Sampling.{XxHash, keep_untraced}
use archiv_agent.Sampling.Policy.{SamplingPolicy, resolve}
use archiv_agent.Export.Segment.{AssembleError, MaskTable}
use archiv_agent.Export.Emit.{AssembledPayload, passthrough}
use archiv_agent.Export.Assemble.{assemble}
use archiv_agent.Breaker.{CircuitBreaker, allow_at, record_fault_at}

pub record Stats : Type 0 where
  pub records_in : ℕ
  pub kept : ℕ
  pub dropped : ℕ
  pub redactions : ℕ
  pub bytes_in : ℕ
  pub bytes_out : ℕ
  pub parse_bypassed : Bool
  pub redact_bypassed : Bool
  pub assemble_bypassed : Bool

pub record Processed : Type 0 where
  pub output : AssembledPayload
  pub stats : Stats

-- The parse stage has no state of its own.
pub record Pipeline (S : Type 0) : Type 0 where
  pub redact : Stage S
  pub masks : MaskTable
  pub policy : SamplingPolicy
  pub max_body_bytes : ℕ
  pub redact_state : S
  pub redact_breaker : CircuitBreaker

abbrev pub is_bypassed : StageOutcome → Bool
is_bypassed applied = false
is_bypassed (bypassed _) = true

-- `unwrap_or(&[])`
abbrev pub or_nothing : Option Bytes → Bytes
or_nothing none = []
or_nothing (some b) = b

abbrev pub verdict : Bool → SampleVerdict
verdict true = keep
verdict false = drop

abbrev pub keep_it : XxHash → RecordView → Bytes → ℕ → Option Bytes → Bool
keep_it x rec raw target (some id) = archiv_agent.Sampling.keep x id target
keep_it x rec raw target none =
    keep_untraced x (or_nothing (service_name_bytes rec raw)) (or_nothing (get_range raw rec.body))
      target

unfoldable pub sample_verdict : XxHash → SamplingPolicy → Bytes → RecordView → SampleVerdict
sample_verdict x policy raw rec =
    let target = resolve policy (namespace_bytes rec raw) rec.severity_number in
    verdict (keep_it x rec raw target (trace_id_bytes rec raw))

abbrev pub count_kept : List SampleVerdict → ℕ
count_kept [] = 0
count_kept (keep ∷ vs) = count_kept vs + 1
count_kept (drop ∷ vs) = count_kept vs

abbrev pub count_dropped : List SampleVerdict → ℕ
count_dropped [] = 0
count_dropped (keep ∷ vs) = count_dropped vs
count_dropped (drop ∷ vs) = count_dropped vs + 1

-- What the redaction step hands on: the pipeline, the envelope, whether redaction was bypassed.
abbrev pub after_redact :
    {S : Type 0} → ℕ → Pipeline S → S × Envelope × StageOutcome → Pipeline S × Envelope × Bool
after_redact now p (s, env, applied) = (record p { redact_state = s }, env, false)
after_redact now p (s, env, bypassed _) = (
  record p { redact_state = s; redact_breaker = (record_fault_at now p.redact_breaker).0 },
  env,
  true,
)

abbrev pub run_redact : {S : Type 0} → ℕ → Pipeline S → Envelope → Pipeline S × Envelope × Bool
run_redact now p env =
    let (breaker, allowed) = allow_at now p.redact_breaker in
    let p' = record p { redact_breaker = breaker } in
    if allowed then after_redact now p' (guarded p.redact p.redact_state env) else (p', env, true)

-- `match assemble(..)`: an error forwards the raw bytes. No guard stands around the call.
abbrev pub forwarded :
    Bytes → Run AssembleError AssembledPayload → Run AssembleError (AssembledPayload × Bool)
forwarded raw (ok payload) = ok (payload, false)
forwarded raw (err _) = ok (passthrough raw, true)
forwarded raw panic = panic
forwarded raw out_of_fuel = out_of_fuel

-- The envelope behind the parse and the sampling, with the flag of the first.
unfoldable pub parsed : Bytes → Envelope × Bool
parsed raw = let (_, env, outcome) = guarded parse_stage tt (new raw) in (env, is_bypassed outcome)

unfoldable pub sampled : XxHash → SamplingPolicy → Envelope → Envelope
sampled x policy env = record env {
  decisions = set_sampling (map (sample_verdict x policy env.raw) env.records) env.decisions;
}

unfoldable pub process :
    {S : Type 0} → XxHash → ℕ → Bytes → Pipeline S → Run AssembleError (Pipeline S × Processed)
unfolding parsed sampled
process x now raw p = do
  let (env, parse_bypassed) = parsed raw
  let env1 = sampled x p.policy env
  let (p', env2, redact_bypassed) = run_redact now p env1
  (output, assemble_bypassed) ← forwarded env2.raw (assemble env2 p.masks)
  ok (
    p',
    record {
      output = output;
      stats = record {
        records_in = length env.records;
        kept = count_kept env1.decisions.sampling;
        dropped = count_dropped env1.decisions.sampling;
        redactions = redaction_total env2.decisions;
        bytes_in = length raw;
        bytes_out = output.len;
        parse_bypassed = parse_bypassed;
        redact_bypassed = redact_bypassed;
        assemble_bypassed = assemble_bypassed;
      };
    },
  )
