-- ===== src/Grpc.antt =====
-- The OTLP/gRPC receiver of src/grpc.rs: the message frame and `handle_grpc` with its statuses.
pub mod Frames
pub mod Acks
use archiv_agent.Base.{
  ℕ, ◌+◌, ◌*◌, ◌%◌, ◌^◌, List, [], ◌∷◌, Option, none, some, Bool, true, false, ◌||◌, not, ltb, ◌==◌,
  if◌then◌else◌, bytes_eq, codes, length,
}
use archiv_agent.Wire.{Bytes, slice}
use archiv_agent.Forward.{starts_with}
use archiv_agent.Server.{Verdict, accepted, malformed, forward_failed}
use archiv_agent.Server.Http.{BodyReader, Request}

abbrev pub logs_export_path : Bytes
logs_export_path = codes "/opentelemetry.proto.collector.logs.v1.LogsService/Export"

-- HTTP 200 with the trailer `grpc-status`, and a message where there is one.
pub record GrpcResponse : Type 0 where
  pub message : Option Bytes
  pub trailer : Bytes

unfoldable pub status_value : ℕ → Bytes
status_value code =
    if code == 0
    then codes "0"
    else if code == 3
    then codes "3"
    else if code == 8
    then codes "8"
    else if code == 12
    then codes "12"
    else if code == 14
    then codes "14"
    else codes "2"

abbrev pub empty_message : Bytes
empty_message = 0 ∷ 0 ∷ 0 ∷ 0 ∷ 0 ∷ []

unfoldable pub grpc_response : ℕ → Bool → GrpcResponse
grpc_response code with_message = record {
  message = if with_message then some empty_message else none;
  trailer = status_value code;
}

-- `u32::from_be_bytes`
abbrev pub from_be_bytes : ℕ → ℕ → ℕ → ℕ → ℕ
from_be_bytes a b c d = ((a * 256 + b) * 256 + c) * 256 + d

pub data Framed : Type 0 where
  refuse : ℕ → Framed
  message : Bytes → Framed

-- The frame: a compression flag, four bytes of length, the message.
unfoldable pub read_frame : Bytes → Framed
read_frame (flag ∷ a ∷ b ∷ c ∷ d ∷ rest) =
    let len = from_be_bytes a b c d in
    let framed = flag ∷ a ∷ b ∷ c ∷ d ∷ rest in
    if not (flag == 0)
    then refuse 12
    else if ltb (length framed) (5 + len)
    then refuse 3
    else message (slice framed (record { start = 5; end = 5 + len }))
read_frame _ = refuse 3

unfoldable pub respond : Verdict → GrpcResponse
respond accepted = grpc_response 0 true
respond malformed = grpc_response 3 false
respond forward_failed = grpc_response 14 false

abbrev pub is_grpc : Option Bytes → Bool
is_grpc none = false
is_grpc (some content_type) = starts_with (codes "application/grpc") content_type

module _ {T : Type 0} (submit : Bytes → T × Verdict) (st : T) where
  abbrev pub submit_framed : Framed → T × GrpcResponse
  submit_framed (refuse code) = (st, grpc_response code false)
  submit_framed (message raw) = let (st', v) = submit raw in (st', respond v)

  abbrev pub submit_body : Option Bytes → T × GrpcResponse
  submit_body none = (st, grpc_response 8 false)
  submit_body (some framed) = submit_framed (read_frame framed)

  unfoldable pub handle_grpc : (b : BodyReader) → ℕ → Request b → T × GrpcResponse
  handle_grpc b max req =
      if not (bytes_eq req.method (codes "POST")) || not (bytes_eq req.path logs_export_path)
      then (st, grpc_response 12 false)
      else if not (is_grpc req.content_type)
      then (st, grpc_response 3 false)
      else submit_body (b.collect ((max + 5) % 2 ^ 64) req.body)
