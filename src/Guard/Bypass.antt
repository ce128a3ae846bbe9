-- ===== src/Guard/Bypass.antt =====
-- The envelope behind a bypassed stage, `guarded` of crates/archiv-pipeline/src/guard.rs.
use archiv_agent.Base.{◌≡◌, ◌≢◌, arith, List, ◌++◌}
use archiv_agent.Base.{All, append-nil}
use archiv_agent.Envelope.{Envelope, StageId, StageRedaction, stage_sample, clear_stage}
use archiv_agent.Envelope.{retain_others}
use archiv_agent.Envelope.Staging.{IsOf, IsNotOf, retain_others-append, retain_others_own}
use archiv_agent.Envelope.Staging.{retain_others_foreign}
use archiv_agent.Guard.{Stage, BypassReason, bypassed, Ending, finished, failed}
use text.Mathlib.TextEquality.{eq_iff}
use archiv_agent.Guard.{panicked, settle, discard, guarded}

-- A stage adds spans of its own, also where it fails half way, and changes nothing else; the records
-- only when it finishes.
pub record Added (id : StageId) (env env' : Envelope) (e : Ending) : Type 0 where
  pub raw : env'.raw ≡ env.raw
  pub records : e ≢ finished → env'.records ≡ env.records
  pub sampling : env'.decisions.sampling ≡ env.decisions.sampling
  pub spans : List StageRedaction
  pub added : env'.decisions.redactions ≡ env.decisions.redactions ++ spans
  pub own : All (IsOf id) spans

abbrev pub IsAdditive : {S : Type 0} → Stage S → Type 0
IsAdditive {S} stage =
    (s : S) (env : Envelope) → Added stage.id env (stage.apply s env).1 (stage.apply s env).2

-- No span of the stage is in the envelope yet.
abbrev pub IsFresh : StageId → Envelope → Type 0
IsFresh id env = All (IsNotOf id) env.decisions.redactions

-- What the guard leaves of a stage that ended in `e`, when it ended badly.
discard_restores :
    (id : StageId) (env env' : Envelope) (e : Ending)
    → id ≢ stage_sample
    → IsFresh id env
    → Added id env env' e
    → e ≢ finished
    → discard id env' ≡ env
unfolding clear_stage
discard_restores id env env' e other fresh a bad =
    let back : retain_others id env'.decisions.redactions ≡ env.decisions.redactions =
      rw
        (
          a.added,
          retain_others-append id,
          retain_others_own id a.spans a.own,
          retain_others_foreign id env.decisions.redactions fresh,
        )
        (append-nil _) in
    ground (arith, a.records bad, a.raw, a.sampling, back, eq_iff id stage_sample)

settle_restores :
    {S : Type 0} (id : StageId) (env : Envelope) (s : S) (env' : Envelope) (e : Ending)
    → id ≢ stage_sample
    → IsFresh id env
    → Added id env env' e
    → (reason : BypassReason) → (settle id (s, env', e)).2 ≡ bypassed reason
    → (settle id (s, env', e)).1 ≡ env
settle_restores id env s env' finished other fresh a reason h = cc
settle_restores id env s env' (failed x) other fresh a reason h =
    discard_restores id env env' (failed x) other fresh a (λ p. cc)
settle_restores id env s env' panicked other fresh a reason h =
    discard_restores id env env' panicked other fresh a (λ p. cc)

-- When an additive stage that is not the sampling stage and has no spans in the envelope yet is
-- bypassed, for an error or a panic, the guard leaves the envelope exactly as it was.
pub guarded_restores :
    {S : Type 0} (stage : Stage S) (s : S) (env : Envelope) (reason : BypassReason)
    → IsAdditive stage
    → stage.id ≢ stage_sample
    → IsFresh stage.id env
    → (guarded stage s env).2 ≡ bypassed reason
    → (guarded stage s env).1 ≡ env
unfolding guarded
guarded_restores stage s env reason additive other fresh h =
    settle_restores stage.id env (stage.apply s env).0 _ _ other fresh (additive s env) reason h
