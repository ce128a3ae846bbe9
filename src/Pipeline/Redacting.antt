-- ===== src/Pipeline/Redacting.antt =====
-- The pipeline with the redaction stage of crates/archiv-redact/src/lib.rs in it.
use archiv_agent.Base.{ℕ, List}
use archiv_agent.Wire.{Bytes}
use archiv_agent.Sampling.{XxHash}
use archiv_agent.Export.Emit.Written.{Returns}
use archiv_agent.Redact.{RegexCrate, RedactEngine, redact_stage}
use archiv_agent.Redact.Stage.{FindsRanges, redact_stage-IsRedaction}
use archiv_agent.Pipeline.{Pipeline, process}
use archiv_agent.Pipeline.FailOpen.{IsProcessed, process-IsProcessed}

-- With a regex crate whose matches are ranges, the pipeline that redacts by any compiled rules
-- returns a payload for all bytes, policies, clocks and breaker states, and never panics: each parsed
-- record is counted as kept or dropped, the payload has as many bytes as its length says where that
-- fits in 64 bits, and a payload whose assembly failed is the original, byte for byte.
pub process_redacting :
    (rx : RegexCrate) (engine : RedactEngine rx) (x : XxHash) (now : ℕ) (raw : Bytes)
    (p : Pipeline (List ℕ))
    → FindsRanges rx
    → Returns
        (λ r. IsProcessed raw r.1)
        (process x now raw (record p { redact = redact_stage rx engine }))
process_redacting rx engine x now raw p law =
    process-IsProcessed x now raw (record p { redact = redact_stage rx engine })
      (redact_stage-IsRedaction rx law engine)
