-- ===== src/Pipeline/FailOpen.antt =====
-- The outcome of `process` in src/pipeline.rs, and where it forwards the original.
use archiv_agent.Base.{
  ℕ, ◌+◌, ◌≡◌, ◌≢◌, ◌∙◌, refl, ap, arith, List, [], ◌∷◌, append-nil, All, length, map,
}
use archiv_agent.Base.{
  true, false, Run, ok, err, panic, out_of_fuel, Safe, safe_ok, safe_err, Bool-cases, inl, inr,
}
use archiv_agent.Wire.{Bytes, ParseError}
use archiv_agent.Envelope.{
  RecordView, SampleVerdict, keep, drop, Envelope, new, set_sampling, StageRedaction,
}
use archiv_agent.Envelope.{
  StageId, clear_stage, retain_others, any_dropped, redaction_total, contains_drop,
}
use archiv_agent.Guard.{
  Stage, StageOutcome, applied, bypassed, Ending, finished, failed, panicked, guarded, settle,
  discard,
}
use archiv_agent.Ingest.{parse_export_logs_request, parse_apply, parse_ending, stage_parse}
use archiv_agent.Sampling.{XxHash}
use archiv_agent.Export.Segment.{AssembleError}
use archiv_agent.Export.Spans.Disjoint.{AreOrdered}
use archiv_agent.Export.Emit.{AssembledPayload, contiguous, passthrough}
use archiv_agent.Export.Emit.Written.{Returns, returns, Returns-bind, Returns-map}
use archiv_agent.Export.Assemble.Total.{IsSized, assemble-IsSized, assemble_identity}
use archiv_agent.Breaker.{allow_at}
use archiv_agent.Pipeline.{
  Pipeline, Processed, sample_verdict, count_kept, count_dropped, run_redact, after_redact,
}
use archiv_agent.Pipeline.{forwarded, parsed, sampled, process, is_bypassed}

-- The request's own bytes, and redactions that are ranges in order.
pub record IsGoverned (raw : Bytes) (env : Envelope) : Type 0 where
  pub same_raw : env.raw ≡ raw
  pub ordered : AreOrdered env

-- No record was found, and nothing was decided.
pub record IsIdle (env : Envelope) : Type 0 where
  pub no_records : env.records ≡ []
  pub no_verdicts : env.decisions.sampling ≡ []
  pub no_spans : env.decisions.redactions ≡ []

-- What the pipeline relies on in the redaction stage, however its `apply` ends: it leaves the bytes
-- alone, stages ranges in order, and stages nothing where there is no record.
pub record IsRedaction {S : Type 0} (stage : Stage S) : Type 0 where
  pub governed :
      (s : S) (raw : Bytes) (env : Envelope)
      → IsGoverned raw env
      → IsGoverned raw (stage.apply s env).1
  pub idle : (s : S) (env : Envelope) → IsIdle env → IsIdle (stage.apply s env).1

retain_others-All :
    (P : StageRedaction → Type 0) (id : StageId) (rs : List StageRedaction)
    → All P rs
    → All P (retain_others id rs)
retain_others-All P id [] h = tt
retain_others-All P id (r ∷ rs) h = ground (arith, retain_others-All P id rs h.1)

discard-IsGoverned :
    (id : StageId) (raw : Bytes) (env : Envelope)
    → IsGoverned raw env
    → IsGoverned raw (discard id env)
unfolding clear_stage
discard-IsGoverned id raw env h = record {
  same_raw = h.same_raw;
  ordered = retain_others-All _ id env.decisions.redactions h.ordered;
}

discard-IsIdle : (id : StageId) (env : Envelope) → IsIdle env → IsIdle (discard id env)
unfolding clear_stage
discard-IsIdle id env h = record {
  no_records = h.no_records;
  no_verdicts = ground (arith, h.no_verdicts);
  no_spans = ap (retain_others id) h.no_spans;
}

-- What a stage and the discarding of its decisions both keep, the guarded stage keeps.
module _ {S : Type 0} (I : Envelope → Type 0)
    (discards : (id : StageId) (env : Envelope) → I env → I (discard id env)) where
  settle-keeps :
      (id : StageId) (s : S) (env : Envelope) (e : Ending) → I env → I (settle id (s, env, e)).1
  settle-keeps id s env finished h = h
  settle-keeps id s env (failed x) h = discards id env h
  settle-keeps id s env panicked h = discards id env h

  after_redact-keeps :
      (now : ℕ) (p : Pipeline S) (s : S) (env : Envelope) (o : StageOutcome)
      → I env
      → I (after_redact now p (s, env, o)).1
  after_redact-keeps now p s env applied h = h
  after_redact-keeps now p s env (bypassed _) h = h

  run_redact-keeps :
      (now : ℕ) (p : Pipeline S) (env : Envelope)
      → ((s : S) (env' : Envelope) → I env' → I (p.redact.apply s env').1)
      → I env
      → I (run_redact now p env).1
  unfolding guarded
  run_redact-keeps now p env stage h = elim (Bool-cases (allow_at now p.redact_breaker).1) [
    | inl e ↦ rw e (
        after_redact-keeps now (record p { redact_breaker = (allow_at now p.redact_breaker).0 }) _ _
          _ (settle-keeps _ _ _ _ (stage p.redact_state env h)))
    | inr e ↦ rw e h
  ]

true_ne : false ≢ true
true_ne e = cc

-- Behind the parse nothing is staged, and a bypassed parse leaves no record.
parse_settled :
    (raw : Bytes) (r : Run ParseError (List RecordView))
    → let e = parse_ending (new raw) r in
      let o = settle {S = Unit {0}} stage_parse (tt, e.0, e.1) in
      IsGoverned raw o.1 × (is_bypassed o.2 ≡ true → IsIdle o.1)
unfolding new clear_stage
parse_settled raw (ok records) = (record { same_raw = refl; ordered = tt }, λ e. absurd (true_ne e))
parse_settled raw (err e) = (
  record { same_raw = refl; ordered = tt },
  λ _. record { no_records = refl; no_verdicts = refl; no_spans = refl },
)
parse_settled raw panic = (
  record { same_raw = refl; ordered = tt },
  λ _. record { no_records = refl; no_verdicts = refl; no_spans = refl },
)
parse_settled raw out_of_fuel = (
  record { same_raw = refl; ordered = tt },
  λ _. record { no_records = refl; no_verdicts = refl; no_spans = refl },
)

parsed-settled :
    (raw : Bytes) → IsGoverned raw (parsed raw).0 × ((parsed raw).1 ≡ true → IsIdle (parsed raw).0)
unfolding parsed guarded parse_apply new
parsed-settled raw = parse_settled raw (parse_export_logs_request raw)

count_lem : (vs : List SampleVerdict) → count_kept vs + count_dropped vs ≡ length vs
count_lem [] = omega arith
count_lem (keep ∷ vs) = omega (arith, count_lem vs)
count_lem (drop ∷ vs) = omega (arith, count_lem vs)

length-verdicts :
    (f : RecordView → SampleVerdict) (rs : List RecordView) → length (map f rs) ≡ length rs
length-verdicts f [] = refl
length-verdicts f (r ∷ rs) = omega (arith, length-verdicts f rs)

forwarded-IsSized :
    (raw : Bytes) {r : Run AssembleError AssembledPayload}
    → Safe IsSized r
    → Returns (λ o. IsSized o.0 × (o.1 ≡ true → contiguous o.0 ≡ raw)) (forwarded raw r)
unfolding contiguous passthrough
forwarded-IsSized raw (safe_ok h) = returns (h, λ e. absurd (true_ne e))
forwarded-IsSized raw safe_err = returns (λ _. ap length (append-nil raw), λ _. append-nil raw)

-- What every run of the pipeline promises.
pub record IsProcessed (raw : Bytes) (r : Processed) : Type 0 where
  -- Each record that was parsed is counted as kept or as dropped.
  pub counted : r.stats.kept + r.stats.dropped ≡ r.stats.records_in
  pub sized : IsSized r.output
  pub reported : r.stats.bytes_out ≡ r.output.len
  -- A payload that could not be assembled is the original one.
  pub fail_open : r.stats.assemble_bypassed ≡ true → contiguous r.output ≡ raw

module _ {S : Type 0} (x : XxHash) (now : ℕ) (raw : Bytes) (p : Pipeline S) where
  sampled-IsGoverned :
      (env : Envelope) → IsGoverned raw env → IsGoverned raw (sampled x p.policy env)
  unfolding sampled set_sampling
  sampled-IsGoverned env h = record { same_raw = h.same_raw; ordered = h.ordered }

  sampled-IsIdle : (env : Envelope) → IsIdle env → IsIdle (sampled x p.policy env)
  unfolding sampled set_sampling
  sampled-IsIdle env h = record {
    no_records = h.no_records;
    no_verdicts = ap (map (sample_verdict x p.policy env.raw)) h.no_records;
    no_spans = h.no_spans;
  }

  sampled_counts :
      (env : Envelope)
      → let vs = (sampled x p.policy env).decisions.sampling in
        count_kept vs + count_dropped vs ≡ length env.records
  unfolding sampled set_sampling
  sampled_counts env =
      count_lem (map (sample_verdict x p.policy env.raw) env.records)
      ∙ length-verdicts _ env.records

-- Whatever the bytes, the policy, the clock and the breaker, and however the redaction stage ends,
-- `process` returns a payload: it neither panics nor fails, nor loops. Each parsed record is counted
-- as kept or dropped, the payload has as many bytes as its length says where that fits in 64 bits,
-- and a payload whose assembly failed is the original, byte for byte. The redaction stage leaves the
-- bytes alone and stages ranges in order.
pub process-IsProcessed :
    {S : Type 0} (x : XxHash) (now : ℕ) (raw : Bytes) (p : Pipeline S)
    → IsRedaction p.redact
    → Returns (λ r. IsProcessed raw r.1) (process x now raw p)
unfolding process
process-IsProcessed x now raw p law =
    let env1 = sampled x p.policy (parsed raw).0 in
    let h =
      run_redact-keeps (IsGoverned raw) (λ id env. discard-IsGoverned id raw env) now p env1
        (λ s env. law.governed s raw env)
        (sampled-IsGoverned x now raw p _ (parsed-settled raw).0) in
    Returns-bind _ _ (forwarded-IsSized _ (assemble-IsSized _ p.masks h.ordered)) λ o g.
      returns (record {
        counted = sampled_counts x now raw p (parsed raw).0;
        sized = g.0;
        reported = refl;
        fail_open = λ e. g.1 e ∙ h.same_raw;
      })

forwarded-passes :
    (raw whole : Bytes) {r : Run AssembleError AssembledPayload}
    → Returns (λ p. contiguous p ≡ whole) r
    → Returns (λ o. contiguous o.0 ≡ whole) (forwarded raw r)
forwarded-passes raw whole (returns h) = returns h

idle-decisions :
    (env : Envelope)
    → IsIdle env
    → (any_dropped env.decisions ≡ false) × (redaction_total env.decisions ≡ 0)
unfolding any_dropped redaction_total
idle-decisions env h = (ap contains_drop h.no_verdicts, ap length h.no_spans)

-- A request that does not parse leaves the pipeline as it came, byte for byte, whatever the policy,
-- the clock and the breaker, and however the redaction stage ends. The redaction stage leaves the
-- bytes alone and stages nothing where there is no record.
pub process_unparsed :
    {S : Type 0} (x : XxHash) (now : ℕ) (raw : Bytes) (p : Pipeline S)
    → IsRedaction p.redact
    → (parsed raw).1 ≡ true
    → Returns (λ r. contiguous r.1.output ≡ raw) (process x now raw p)
unfolding process
process_unparsed x now raw p law bypassed_parse =
    let env1 = sampled x p.policy (parsed raw).0 in
    let env2 = (run_redact now p env1).1 in
    let h =
      run_redact-keeps (IsGoverned raw) (λ id env. discard-IsGoverned id raw env) now p env1
        (λ s env. law.governed s raw env)
        (sampled-IsGoverned x now raw p _ (parsed-settled raw).0) in
    let idle =
      run_redact-keeps IsIdle discard-IsIdle now p env1 law.idle
        (sampled-IsIdle x now raw p _ ((parsed-settled raw).1 bypassed_parse)) in
    let quiet = idle-decisions env2 idle in
    Returns-bind _ _
      (forwarded-passes env2.raw raw
        (Returns-map (assemble_identity env2 p.masks quiet.0 quiet.1) λ q g. g.0 ∙ h.same_raw))
      λ o g. returns g
