-- ===== src/Envelope/Staging.antt =====
-- Clearing the decisions of one stage, `clear_stage` of crates/archiv-pipeline/src/envelope.rs.
use archiv_agent.Base.{ℕ, ◌≡◌, ◌≢◌, refl, arith, List, [], ◌∷◌, ◌++◌, All}
use archiv_agent.Base.{if◌then◌else◌, append-nil}
use archiv_agent.Envelope.{StageId, StageRedaction, Redaction, Decisions, retain_others}
use archiv_agent.Envelope.{stage_sample, clear_stage, push_redaction, sampling_verdict}
use archiv_agent.Envelope.{keep}
use text.Mathlib.Text.{◌==◌ as str_eq}
use text.Mathlib.TextEquality.{eq_iff}

abbrev pub IsOf : StageId → StageRedaction → Type 0
IsOf id r = r.stage ≡ id

abbrev pub IsNotOf : StageId → StageRedaction → Type 0
IsNotOf id r = r.stage ≢ id

module _ (id : StageId) where
  pub retain_others-append :
      (xs ys : List StageRedaction)
      → retain_others id (xs ++ ys) ≡ retain_others id xs ++ retain_others id ys
  retain_others-append [] ys = refl
  retain_others-append (x ∷ xs) ys = ground (arith, retain_others-append xs ys)

  pub retain_others_own : (xs : List StageRedaction) → All (IsOf id) xs → retain_others id xs ≡ []
  retain_others_own [] h = refl
  retain_others_own (x ∷ xs) h = rw ((eq_iff x.stage id).1 h.0) (retain_others_own xs h.1)

  pub retain_others_foreign :
      (xs : List StageRedaction) → All (IsNotOf id) xs → retain_others id xs ≡ xs
  retain_others_foreign [] h = refl
  retain_others_foreign (x ∷ xs) h = ground (arith, eq_iff x.stage id, retain_others_foreign xs h.1)

-- Clearing a stage undoes each span that it pushed, keeps each span that another stage pushed, keeps
-- the sampling verdicts unless it is the sampling stage, and otherwise makes every verdict Keep.
pub clear_stage_lem :
    (id stage : StageId) (idx : ℕ) (r : Redaction) (d : Decisions)
    → (clear_stage id (push_redaction stage idx r d) ≡ (
        if str_eq stage id
        then clear_stage id d
        else push_redaction stage idx r (clear_stage id d)))
      × (id ≢ stage_sample → sampling_verdict (clear_stage id d) idx ≡ sampling_verdict d idx)
      × (id ≡ stage_sample → sampling_verdict (clear_stage id d) idx ≡ keep)
unfolding clear_stage push_redaction sampling_verdict
clear_stage_lem id stage idx r d = (pushed, kept, reset)
  where
    pushed : clear_stage id (push_redaction stage idx r d) ≡ (
        if str_eq stage id then clear_stage id d else push_redaction stage idx r (clear_stage id d))
    pushed =
        rw (retain_others-append id) (ground (arith, append-nil (retain_others id d.redactions)))

    kept : id ≢ stage_sample → sampling_verdict (clear_stage id d) idx ≡ sampling_verdict d idx
    kept h = ground (arith, eq_iff id stage_sample)

    reset : id ≡ stage_sample → sampling_verdict (clear_stage id d) idx ≡ keep
    reset h = ground (arith, eq_iff id stage_sample)
