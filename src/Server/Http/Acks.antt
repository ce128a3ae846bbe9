-- ===== src/Server/Http/Acks.antt =====
-- The statuses of `handle` in src/server.rs against the verdicts.
use archiv_agent.Base.{
  ℕ, ◌≤◌, ◌≡◌, ◌≢◌, refl, arith, Option, none, some, bytes_eq, bytes_eq_iff, codes, length, not,
  ◌||◌, if_case, or_not, or_differs, ◌⊎◌, ◌↔◌,
}
use archiv_agent.Wire.{Bytes}
use archiv_agent.Server.{Verdict, accepted, malformed, forward_failed}
use archiv_agent.Server.Http.{
  BodyReader, IsLimited, Request, Response, response, respond, submitted, handle,
}

-- A POST to /v1/logs.
pub record IsLogsPost {b : BodyReader} (req : Request b) : Type 0 where
  pub method : req.method ≡ codes "POST"
  pub path : req.path ≡ codes "/v1/logs"

-- What a response stands for: the state is what `submit` left, or as it was.
pub data IsAnswered {T : Type 0} (b : BodyReader) (max : ℕ) (submit : Bytes → T × Verdict)
    (req : Request b) (st st' : T) (r : Response) : Type 0 where
  -- Another request, and only another one, is not found.
  not_found :
      (req.method ≢ codes "POST") ⊎ (req.path ≢ codes "/v1/logs")
      → r ≡ response 404 (codes "not found\n")
      → st' ≡ st
      → IsAnswered b max submit req st st' r
  -- The body could not be read within the limit.
  too_large :
      IsLogsPost req
      → b.collect max req.body ≡ none
      → r ≡ response 413 (codes "too large\n")
      → st' ≡ st
      → IsAnswered b max submit req st st' r
  -- The body was submitted.
  answered :
      (raw : Bytes) (v : Verdict)
      → IsLogsPost req
      → b.collect max req.body ≡ some raw
      → length raw ≤ max
      → submit raw ≡ (st', v)
      → (r.status ≡ 200) ↔ (v ≡ accepted)
      → (r.status ≡ 400) ↔ (v ≡ malformed)
      → (r.status ≡ 503) ↔ (v ≡ forward_failed)
      → IsAnswered b max submit req st st' r

respond_iff :
    (v : Verdict)
    → (((respond v).status ≡ 200) ↔ (v ≡ accepted))
      × (((respond v).status ≡ 400) ↔ (v ≡ malformed))
      × (((respond v).status ≡ 503) ↔ (v ≡ forward_failed))
unfolding respond
respond_iff accepted = (
  (λ _. refl, λ _. refl),
  (λ e. absurd (omega arith), λ e. cc),
  (λ e. absurd (omega arith), λ e. cc),
)
respond_iff malformed = (
  (λ e. absurd (omega arith), λ e. cc),
  (λ _. refl, λ _. refl),
  (λ e. absurd (omega arith), λ e. cc),
)
respond_iff forward_failed = (
  (λ e. absurd (omega arith), λ e. cc),
  (λ e. absurd (omega arith), λ e. cc),
  (λ _. refl, λ _. refl),
)

module _ {T : Type 0} (b : BodyReader) (max : ℕ) (submit : Bytes → T × Verdict)
    (limited : IsLimited b) where
  submitted-IsAnswered :
      (req : Request b) (st : T) (o : Option Bytes)
      → b.collect max req.body ≡ o
      → IsLogsPost req
      → let (st', r) = submitted submit st o in IsAnswered b max submit req st st' r
  submitted-IsAnswered req st none e post = too_large post e refl refl
  submitted-IsAnswered req st (some raw) e post =
      let r = respond_iff (submit raw).1 in
      answered raw (submit raw).1 post e (limited max req.body raw e) refl r.0 r.1 r.2

  -- With a body reader that keeps its limit, `handle` answers 404 exactly to what is no POST to /v1/logs,
  -- and submits nothing; it answers 413 to one whose body the reader refuses, and submits nothing; and
  -- otherwise it submits the body, which is within the limit, once, and answers with 200 exactly when
  -- the verdict accepts, with 400 exactly when the payload is malformed, and with 503 exactly when
  -- forwarding failed.
  pub handle-IsAnswered :
      (req : Request b) (st : T)
      → let (st', r) = handle b max submit req st in IsAnswered b max submit req st st' r
  unfolding handle
  handle-IsAnswered req st =
      if_case {A = T × Response} (λ a. IsAnswered b max submit req st a.0 a.1)
        (not (bytes_eq req.method (codes "POST")) || not (bytes_eq req.path (codes "/v1/logs")))
        (λ e.
          not_found (or_differs req.method (codes "POST") req.path (codes "/v1/logs") e) refl refl)
        (λ e.
          let (m, p) = or_not _ _ e in
          submitted-IsAnswered req st _ refl
            (record { method = (bytes_eq_iff _ _).0 m; path = (bytes_eq_iff _ _).0 p }))
