-- ===== src/Server/Http.antt =====
-- The OTLP/HTTP receiver of src/server.rs: `handle` with its statuses. A request's body is read by
-- `http_body_util::Limited`, a parameter.
pub mod Acks
use archiv_agent.Base.{
  ℕ, List, [], ◌∷◌, Option, none, some, Bool, ◌||◌, not, if◌then◌else◌, bytes_eq, codes, length,
  ◌≤◌, ◌≡◌,
}
use archiv_agent.Wire.{Bytes}
use archiv_agent.Server.{Verdict, accepted, malformed, forward_failed}

-- `Limited::new(body, max).collect()`: the body's bytes, or an error.
pub record BodyReader : Type 1 where
  pub Body : Type 0
  pub collect : ℕ → Body → Option Bytes

-- What `Limited` documents: a body that it lets through is no longer than the limit.
abbrev pub IsLimited : BodyReader → Type 0
IsLimited b =
    (max : ℕ) (body : b.Body) (raw : Bytes) → b.collect max body ≡ some raw → length raw ≤ max

-- `content_type` is the header where it is there and is text.
pub record Request (b : BodyReader) : Type 0 where
  pub method : Bytes
  pub path : Bytes
  pub content_type : Option Bytes
  pub body : b.Body

-- A response with its content type `application/x-protobuf`.
pub record Response : Type 0 where
  pub status : ℕ
  pub body : Bytes

abbrev pub response : ℕ → Bytes → Response
response status body = record { status = status; body = body }

abbrev pub otlp_ok : Response
otlp_ok = response 200 []

unfoldable pub respond : Verdict → Response
respond accepted = otlp_ok
respond malformed = response 400 (codes "unparseable OTLP\n")
respond forward_failed = response 503 (codes "forward failed\n")

-- What `submit` does with a body, and the response to its verdict; `T` is what it leaves behind.
abbrev pub submitted : {T : Type 0} → (Bytes → T × Verdict) → T → Option Bytes → T × Response
submitted submit st none = (st, response 413 (codes "too large\n"))
submitted submit st (some raw) = let (st', v) = submit raw in (st', respond v)

unfoldable pub handle :
    {T : Type 0} → (b : BodyReader) → ℕ → (Bytes → T × Verdict) → Request b → T → T × Response
handle b max submit req st =
    if not (bytes_eq req.method (codes "POST")) || not (bytes_eq req.path (codes "/v1/logs"))
    then (st, response 404 (codes "not found\n"))
    else submitted submit st (b.collect max req.body)
