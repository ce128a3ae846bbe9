-- ===== src/Guard.antt =====
-- The fail-open boundary of crates/archiv-pipeline/src/guard.rs. A stage gets the envelope and leaves
-- it in some state, also when it fails or panics half way.
pub mod Bypass
use archiv_agent.Base.{ℕ}
use archiv_agent.Envelope.{Envelope, StageId, clear_stage}
use Prim.Native.String.{String}

pub data StageError : Type 0 where
  rule : ℕ → String → StageError
  internal : String → StageError

pub data BypassReason : Type 0 where
  panic : BypassReason
  error : StageError → BypassReason

pub data StageOutcome : Type 0 where
  applied : StageOutcome
  bypassed : BypassReason → StageOutcome

-- How the call of `apply` under `catch_unwind` ends.
pub data Ending : Type 0 where
  finished : Ending
  failed : StageError → Ending
  panicked : Ending

-- The trait `Stage`, for a stage with inner state `S` (its atomic counters). `apply` returns that
-- state, what it left in the envelope, and how it ended.
pub record Stage (S : Type 0) : Type 0 where
  pub id : StageId
  pub apply : S → Envelope → S × Envelope × Ending

abbrev pub discard : StageId → Envelope → Envelope
discard id env = record env { decisions = clear_stage id env.decisions }

abbrev pub settle : {S : Type 0} → StageId → S × Envelope × Ending → S × Envelope × StageOutcome
settle id (s, env, finished) = (s, env, applied)
settle id (s, env, failed e) = (s, discard id env, bypassed (error e))
settle id (s, env, panicked) = (s, discard id env, bypassed panic)

unfoldable pub guarded : {S : Type 0} → Stage S → S → Envelope → S × Envelope × StageOutcome
guarded stage s env = settle stage.id (stage.apply s env)
