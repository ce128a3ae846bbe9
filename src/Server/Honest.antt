-- ===== src/Server/Honest.antt =====
-- The verdicts of `run` in src/server.rs against what became of the payload.
use archiv_agent.Base.{
  ℕ, ◌≤◌, ◌<◌, ◌≡◌, ◌≢◌, refl, arith, List, [], ◌∷◌, Option, none, some, true, false, length,
  ==_self, Bool-cases, if_case, inl, inr, Run, ok, err, panic, ◌>>=◌, out_of_fuel,
}
use archiv_agent.Wire.{Bytes}
use archiv_agent.Sampling.{XxHash}
use archiv_agent.Export.Segment.{AssembleError}
use archiv_agent.Export.Emit.{AssembledPayload, contiguous}
use archiv_agent.Export.Emit.Written.{Returns, returns}
use archiv_agent.Pipeline.{Pipeline, Processed, process}
use archiv_agent.Pipeline.FailOpen.{IsRedaction, IsProcessed, process-IsProcessed}
use archiv_agent.Metrics.{record_sample}
use archiv_agent.Spool.{
  Spool, Pending, Written, durable, write_error, Reserved, refused, granted, reserve, publish,
  insert, contains, push, push_payload,
}
use archiv_agent.Forward.{
  ForwardError, Reply, unbuilt, unsent, answered, HttpClient, forward, settle_reply, has_scheme,
  logs_url,
}
use archiv_agent.Server.{
  AppState, Verdict, accepted, malformed, forward_failed, World, sample_of, settle_spool, hold,
  settle_forward, deliver, conclude, run,
}

-- A published number is in the map.
contains-insert : (seq len : ℕ) (pending : Pending) → contains seq (insert seq len pending) ≡ true
unfolding contains insert
contains-insert seq len [] = rw (==_self seq) refl
contains-insert seq len ((s, l) ∷ pending) =
    ground (arith, contains-insert seq len pending, ==_self seq)

-- A success is an answer of the destination with a status of the two hundreds, to the payload's bytes.
settle_reply-ok :
    (r : Reply)
    → settle_reply r ≡ ok tt
    → (status : ℕ) × (r ≡ answered status) × (200 ≤ status) × (status < 300)
settle_reply-ok unbuilt e = absurd cc
settle_reply-ok unsent e = absurd cc
settle_reply-ok (answered status) e = (status, refl, ground arith, ground arith)

forward-ok :
    (client : HttpClient) (endpoint : Bytes) (o : AssembledPayload)
    → forward client endpoint o ≡ ok tt
    → (status : ℕ) × (client (logs_url endpoint) (contiguous o) ≡ answered status)
      × (200 ≤ status)
      × (status < 300)
unfolding forward
forward-ok client endpoint o e = elim (Bool-cases (has_scheme endpoint)) [
  | inl h ↦ settle_reply-ok (client (logs_url endpoint) (contiguous o)) (rw h at e)
  | inr h ↦ absurd (let g : err _ ≡ ok tt = rw h at e in cc)
]

abbrev files_of : Option Spool → List (ℕ × Bytes)
files_of none = []
files_of (some sp) = sp.files

-- What a verdict stands for: `before` is the state before the payload is delivered, `after` behind.
pub data IsHonest {S : Type 0} (w : World) (before after : AppState S) (o : AssembledPayload)
    : Verdict → Type 0 where
  -- No destination is configured.
  validated : before.forward_endpoint ≡ none → after ≡ before → IsHonest w before after o accepted
  -- The destination has the payload.
  sent :
      {endpoint : Bytes} {status : ℕ}
      → before.forward_endpoint ≡ some endpoint
      → w.client (logs_url endpoint) (contiguous o) ≡ answered status
      → 200 ≤ status
      → status < 300
      → after ≡ before
      → IsHonest w before after o accepted
  -- The payload is in a published file behind those that were there, and waits to be drained.
  held :
      {earlier sp : Spool} {seq : ℕ}
      → before.spool ≡ some earlier
      → after.spool ≡ some sp
      → sp.files ≡ (seq, contiguous o) ∷ earlier.files
      → contains seq sp.state.pending ≡ true
      → IsHonest w before after o accepted
  -- The destination does not have it, and no file was published.
  failed :
      {endpoint : Bytes}
      → before.forward_endpoint ≡ some endpoint
      → forward w.client endpoint o ≢ ok tt
      → files_of after.spool ≡ files_of before.spool
      → IsHonest w before after o forward_failed

settle_spool-IsHonest :
    {S : Type 0} (w : World) (before st : AppState S) (o : AssembledPayload) (endpoint : Bytes)
    (sp : Spool) (written : Written) (r : Reserved)
    → before.forward_endpoint ≡ some endpoint
    → forward w.client endpoint o ≢ ok tt
    → before.spool ≡ some sp
    → reserve sp.max_bytes (length (contiguous o)) sp.state ≡ r
    → let (st', v) = settle_spool st (push_payload (contiguous o) written sp) in
      IsHonest w before st' o v
unfolding push_payload push publish
settle_spool-IsHonest w before st o endpoint sp written (refused x) e f k g =
    rw g (failed e f (rw k refl))
settle_spool-IsHonest w before st o endpoint sp durable (granted seq s) e f k g =
    rw g (held k refl refl (contains-insert seq _ s.pending))
settle_spool-IsHonest w before st o endpoint sp write_error (granted seq s) e f k g =
    rw g (failed e f (rw k refl))

hold-IsHonest :
    {S : Type 0} (w : World) (before st : AppState S) (o : AssembledPayload) (endpoint : Bytes)
    (spool : Option Spool)
    → before.forward_endpoint ≡ some endpoint
    → forward w.client endpoint o ≢ ok tt
    → before.spool ≡ spool
    → st.spool ≡ spool
    → let (st', v) = hold w o st spool in IsHonest w before st' o v
hold-IsHonest w before st o endpoint none e f k l = failed e f (rw (k, l) refl)
hold-IsHonest w before st o endpoint (some sp) e f k l =
    settle_spool-IsHonest w before st o endpoint sp w.written _ e f k refl

settle_forward-IsHonest :
    {S : Type 0} (w : World) (st : AppState S) (o : AssembledPayload) (endpoint : Bytes)
    (r : Run ForwardError (Unit {0}))
    → st.forward_endpoint ≡ some endpoint
    → forward w.client endpoint o ≡ r
    → let (st', v) = settle_forward w o st r in IsHonest w st st' o v
settle_forward-IsHonest w st o endpoint (ok x) e f =
    let (status, g, low, high) = forward-ok w.client endpoint o f in sent e g low high refl
settle_forward-IsHonest w st o endpoint (err x) e f =
    hold-IsHonest w st st o endpoint st.spool e (λ g. cc) refl refl
settle_forward-IsHonest w st o endpoint panic e f =
    hold-IsHonest w st st o endpoint st.spool e (λ g. cc) refl refl
settle_forward-IsHonest w st o endpoint out_of_fuel e f =
    hold-IsHonest w st st o endpoint st.spool e (λ g. cc) refl refl

deliver-IsHonest :
    {S : Type 0} (w : World) (st : AppState S) (o : AssembledPayload) (endpoint : Option Bytes)
    → st.forward_endpoint ≡ endpoint
    → let (st', v) = deliver w o st endpoint in IsHonest w st st' o v
deliver-IsHonest w st o none e = validated e refl
deliver-IsHonest w st o (some endpoint) e = settle_forward-IsHonest w st o endpoint _ e refl

-- One request that `run` has served, where `p` is what `process` made of it: a request that does not
-- parse changes nothing but the pipeline's own counters; any other is counted once, and its verdict is
-- honest about the payload that `process` put out.
pub data IsServed {S : Type 0} (x : XxHash) (w : World) (raw : Bytes) (before after : AppState S)
    (v : Verdict) : Type 0 where
  unparsed :
      (pl : Pipeline S) (p : Processed)
      → process x w.now raw before.pipeline ≡ ok (pl, p)
      → IsProcessed raw p
      → p.stats.parse_bypassed ≡ true
      → v ≡ malformed
      → after ≡ record before { pipeline = pl }
      → IsServed x w raw before after v
  served :
      (pl : Pipeline S) (p : Processed) (counted : AppState S)
      → process x w.now raw before.pipeline ≡ ok (pl, p)
      → IsProcessed raw p
      → p.stats.parse_bypassed ≡ false
      → counted ≡ record before {
        pipeline = pl;
        metrics = record_sample (sample_of p.stats) before.metrics;
      }
      → after.metrics ≡ counted.metrics
      → after.pipeline ≡ pl
      → IsHonest w counted after p.output v
      → IsServed x w raw before after v

deliver-metrics :
    {S : Type 0} (w : World) (st : AppState S) (o : AssembledPayload) (endpoint : Option Bytes)
    → (deliver w o st endpoint).0.metrics ≡ st.metrics
deliver-metrics w st o none = refl
deliver-metrics w st o (some endpoint) = ground arith

deliver-pipeline :
    {S : Type 0} (w : World) (st : AppState S) (o : AssembledPayload) (endpoint : Option Bytes)
    → (deliver w o st endpoint).0.pipeline ≡ st.pipeline
deliver-pipeline w st o none = refl
deliver-pipeline w st o (some endpoint) = ground arith

conclude-IsServed :
    {S : Type 0} (x : XxHash) (w : World) (raw : Bytes) (st : AppState S) (pl : Pipeline S)
    (p : Processed)
    → process x w.now raw st.pipeline ≡ ok (pl, p)
    → IsProcessed raw p
    → let (st', v) = conclude w p (record st { pipeline = pl }) in IsServed x w raw st st' v
unfolding conclude
conclude-IsServed x w raw st pl p made h =
    let counted : AppState _ = record st {
      pipeline = pl;
      metrics = record_sample (sample_of p.stats) st.metrics;
    } in
    if_case {A = AppState _ × Verdict} (λ a. IsServed x w raw st a.0 a.1) p.stats.parse_bypassed
      (λ e. unparsed pl p made h e refl refl)
      (λ e.
        served pl p counted made h e refl (deliver-metrics w counted p.output st.forward_endpoint)
          (deliver-pipeline w counted p.output st.forward_endpoint)
          (deliver-IsHonest w counted p.output st.forward_endpoint refl))

-- Whatever the bytes, the policy, the clock, the destination and the spool, and for a redaction stage
-- that obeys its laws, `process` returns a payload, `run` returns a verdict, and the verdict is honest
-- about just that payload. It is accepted only where no destination is configured, where the
-- destination answered a POST of its bytes with a status of the two hundreds, or where a published file
-- of the spool holds its bytes; forwarding has failed where the destination did not take it and no file
-- was published. Malformed are just the requests whose parse was bypassed, which touch neither metrics
-- nor spool; every other request is counted in the metrics once.
pub run-IsServed :
    {S : Type 0} (x : XxHash) (w : World) (raw : Bytes) (st : AppState S)
    → IsRedaction st.pipeline.redact
    → Returns (λ (st', v). IsServed x w raw st st' v) (run x w raw st)
unfolding run
run-IsServed x w raw st law = go _ refl (process-IsProcessed x w.now raw st.pipeline law)
  where
    go :
        (r : Run AssembleError (Pipeline _ × Processed))
        → process x w.now raw st.pipeline ≡ r
        → Returns (λ r. IsProcessed raw r.1) r
        → Returns
            (λ (st', v). IsServed x w raw st st' v)
            (r >>= λ (pl, p). ok (conclude w p (record st { pipeline = pl })))
    go _ made (returns {a} h) = returns (conclude-IsServed x w raw st a.0 a.1 made h)
