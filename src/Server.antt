-- ===== src/Server.antt =====
-- The shared processing path of src/server.rs: what `run` does with one payload. What the world
-- answers while a request runs is an argument: the clock, the destination, and the spool's file.
pub mod Honest
pub mod Http
use archiv_agent.Base.{
  ℕ, List, Option, none, some, Bool, ◌||◌, if◌then◌else◌, Run, ok, err, panic, out_of_fuel, ◌>>=◌,
}
use archiv_agent.Wire.{Bytes}
use archiv_agent.Sampling.{XxHash}
use archiv_agent.Export.Segment.{AssembleError}
use archiv_agent.Export.Emit.{AssembledPayload, contiguous}
use archiv_agent.Pipeline.{Pipeline, Stats, Processed, process}
use archiv_agent.Metrics.{Metrics, Sample, record_sample}
use archiv_agent.Spool.{Spool, Written, Pushed, spooled, rejected, push_payload}
use archiv_agent.Forward.{HttpClient, ForwardError, forward}

-- `AppState`, without the client. The pipeline behind the `ArcSwap` is the one that `run` loads.
pub record AppState (S : Type 0) : Type 0 where
  pub pipeline : Pipeline S
  pub forward_endpoint : Option Bytes
  pub metrics : Metrics
  pub spool : Option Spool
  pub channel_capacity : ℕ

pub data Verdict : Type 0 where
  accepted : Verdict
  malformed : Verdict
  forward_failed : Verdict

-- What one request meets outside of the agent.
pub record World : Type 0 where
  pub now : ℕ
  pub client : HttpClient
  pub written : Written

unfoldable pub sample_of : Stats → Sample
sample_of stats = record {
  events_in = stats.records_in;
  events_sampled_out = stats.dropped;
  events_exported = stats.kept;
  bytes_in = stats.bytes_in;
  bytes_exported = stats.bytes_out;
  redaction_count = stats.redactions;
  failed_open = stats.redact_bypassed || stats.assemble_bypassed;
}

module _ {S : Type 0} where
  abbrev pub settle_spool : AppState S → Pushed × Spool → AppState S × Verdict
  settle_spool st (spooled seq, sp) = (record st { spool = some sp }, accepted)
  settle_spool st (rejected e, sp) = (record st { spool = some sp }, forward_failed)

  -- `match &state.spool`, behind a forward that failed.
  abbrev pub hold : World → AssembledPayload → AppState S → Option Spool → AppState S × Verdict
  hold w output st none = (st, forward_failed)
  hold w output st (some sp) = settle_spool st (push_payload (contiguous output) w.written sp)

  abbrev pub settle_forward :
      World → AssembledPayload → AppState S → Run ForwardError (Unit {0}) → AppState S × Verdict
  settle_forward w output st (ok _) = (st, accepted)
  settle_forward w output st _ = hold w output st st.spool

  -- `let Some(endpoint) = &state.forward_endpoint else { return Accepted }`
  abbrev pub deliver : World → AssembledPayload → AppState S → Option Bytes → AppState S × Verdict
  deliver w output st none = (st, accepted)
  deliver w output st (some endpoint) =
      settle_forward w output st (forward w.client endpoint output)

  -- What follows `process`.
  unfoldable pub conclude : World → Processed → AppState S → AppState S × Verdict
  conclude w processed st =
      if processed.stats.parse_bypassed
      then (st, malformed)
      else deliver w processed.output
          (record st { metrics = record_sample (sample_of processed.stats) st.metrics })
          st.forward_endpoint

  -- `run`, with no other request in between.
  unfoldable pub run :
      XxHash → World → Bytes → AppState S → Run AssembleError (AppState S × Verdict)
  unfolding conclude
  run x w raw st = do
    (p, processed) ← process x w.now raw st.pipeline
    ok (conclude w processed (record st { pipeline = p }))
