-- ===== src/Tests/Servers.antt =====
-- The server on the sample request, with a spool, and a destination that is down.
use archiv_agent.Base.{
  ℕ, ◌≡◌, arith, [], ◌∷◌, ◌++◌, none, some, length, leb, Bool-cases, inl, inr, if◌then◌else◌, codes,
}
use archiv_agent.Wire.{Bytes}
use archiv_agent.Metrics as Metrics
use archiv_agent.Spool.{Spool, durable, empty}
use archiv_agent.Export.Emit.Written.{Returns}
use archiv_agent.Forward.{unsent}
use archiv_agent.Server.{AppState, Verdict, accepted, malformed, World, run}
use archiv_agent.Server.Honest.{IsServed, run-IsServed}
use archiv_agent.Server.Http.{BodyReader, IsLimited, Request, handle}
use archiv_agent.Server.Http.Acks as HttpAcks
use archiv_agent.Grpc.{logs_export_path, handle_grpc, message, read_frame}
use archiv_agent.Grpc.Frames.{frame, read_frame-frame}
use archiv_agent.Grpc.Acks as GrpcAcks
use archiv_agent.Tests.Samples.{request_bytes, sum_hash}
use archiv_agent.Tests.Pipelines.{sample_pipeline, masking_stage-IsRedaction}

abbrev empty_spool : Spool
empty_spool = record { max_bytes = 1000; state = empty; files = [] }

abbrev sample_state : AppState (Unit {0})
sample_state = record {
  pipeline = sample_pipeline;
  forward_endpoint = some (codes "https://logs/");
  metrics = Metrics.new 5;
  spool = some empty_spool;
  channel_capacity = 8;
}

-- The destination is down, the disk is not.
abbrev sample_world : World
sample_world = record { now = 7; client = λ url body. unsent; written = durable }

run-IsServed_example :
    Returns
      (λ (st', v). IsServed sum_hash sample_world request_bytes sample_state st' v)
      (run sum_hash sample_world request_bytes sample_state)
run-IsServed_example =
    run-IsServed sum_hash sample_world request_bytes sample_state masking_stage-IsRedaction

abbrev limited_reader : BodyReader
limited_reader = record {
  Body = Bytes;
  collect = λ max body. if leb (length body) max then some body else none;
}

limited_reader-IsLimited : IsLimited limited_reader
limited_reader-IsLimited max body raw e = elim (Bool-cases (leb (length body) max)) [
  | inl fits ↦ ground (arith, e, fits)
  | inr over ↦ ground (arith, e, over)
]

-- A server that accepts what is not empty, and counts the requests.
abbrev counting_submit : Bytes → ℕ × Verdict
counting_submit [] = (1, malformed)
counting_submit (b ∷ bs) = (1, accepted)

abbrev http_request : Request limited_reader
http_request = record {
  method = codes "POST";
  path = codes "/v1/logs";
  content_type = none;
  body = request_bytes;
}

handle-IsAnswered_example :
    let (st', r) = handle limited_reader 100 counting_submit http_request 0 in
    HttpAcks.IsAnswered limited_reader 100 counting_submit http_request 0 st' r
handle-IsAnswered_example =
    HttpAcks.handle-IsAnswered limited_reader 100 counting_submit limited_reader-IsLimited
      http_request 0

read_frame-frame_example : read_frame (frame request_bytes ++ 7 ∷ []) ≡ message request_bytes
read_frame-frame_example = read_frame-frame request_bytes (7 ∷ []) (omega arith)

abbrev grpc_request : Request limited_reader
grpc_request = record {
  method = codes "POST";
  path = logs_export_path;
  content_type = some (codes "application/grpc+proto");
  body = frame request_bytes;
}

handle_grpc-IsAnswered_example :
    let (st', r) = handle_grpc counting_submit 0 limited_reader 100 grpc_request in
    GrpcAcks.IsAnswered limited_reader 100 counting_submit grpc_request 0 st' r
handle_grpc-IsAnswered_example =
    GrpcAcks.handle_grpc-IsAnswered limited_reader 100 counting_submit grpc_request 0
      limited_reader-IsLimited (omega arith)
