-- ===== src/Lib.antt =====
-- A model of archiv-agent, the node agent that samples and redacts OTLP log requests on their way out.
--
-- The agent takes a protobuf buffer through fixed stages: it parses views of the records, decides
-- which records to keep, stages redaction spans, and assembles the outgoing request from pieces of
-- the original buffer. Where governance fails, it is meant to forward the original bytes.
--
-- Parts, with the files that model them:
--   Wire, Ingest      crates/archiv-ingest/src/otlp.rs and lib.rs: `WireCursor`, the walks over the
--                     messages, the parse stage
--   Envelope          crates/archiv-pipeline/src/envelope.rs: record views, trace ids, `Decisions`
--   Guard             crates/archiv-pipeline/src/guard.rs: `guarded`
--   Glob              crates/archiv-redact/src/glob.rs: `matches`
--   Redact            crates/archiv-redact/src/lib.rs: selectors, the stage; Redact/Compile has `compile`
--   Redact/Lint       crates/archiv-redact/src/lint.rs: `check_nested_repetition`
--   Config            crates/archiv-config/src/lib.rs: the sections, validation, the fingerprint
--   Sampling          crates/archiv-sampling/src/lib.rs and policy.rs: `keep`, `keep_untraced`, the
--                     policy and its rules
--   Export            crates/archiv-export/src/lib.rs: spans, the segment tree, its sizes, emission
--   Breaker           src/breaker.rs: `CircuitBreaker`
--   Metrics           crates/archiv-metrics/src/lib.rs: the counters, `record` and `flush`;
--                     Metrics/Atomics has their single accesses, interleaved
--   Metrics/Driver    src/metrics.rs: `run_flush_loop`
--   Spool             src/spool.rs: the file names, and the sections of push and drain under the lock;
--                     Spool/Recovery has `open`, and the spool with its directory and its crashes;
--                     Spool/Drain has the waits of `run_drain_loop`
--   Pipeline          src/pipeline.rs: `process`, which composes all of these; Pipeline/Building has
--                     `from_config`
--   Forward           src/forward.rs: `forward`
--   Server            src/server.rs: `run`, which calls the pipeline, the forwarder and the spool;
--                     Server/Http has `handle`, over a parameter for `submit`
--   Grpc              src/grpc.rs: the frame and `handle_grpc`
--   Base, Tests       shared helpers; runs and applications on small inputs
--
-- How the code is read. A buffer is a list of bytes, and an offset a natural number; `usize` has 64
-- bits, and wrap-around is written out where the code can reach it. `Run` is a value, an error, a
-- panic or a loop out of fuel, and `Safe` excludes the last two. A stage returns the envelope that it
-- leaves and how it ended: finished, failed or panicked. The clock is an argument, and each call that
-- takes a lock is one step. A loss of power takes the content of a file that is not synced, and leaves
-- the names in the directory.
--
-- Fuel. A field loop gets one round for each byte of its window, since every round reads a tag. A
-- varint gets eleven rounds, and is refused in the eleventh at the latest. The matcher gets
-- (key + 1) * (pattern + 1) rounds, and the scan of a redaction pattern one for each of its bytes.
--
-- Parameters. xxHash64 is a record of its operations (`Sampling.XxHash`), with the contract of the
-- streaming form as a hypothesis of the one theorem that uses it. The regex crate is a record of
-- its operations (`Redact.RegexCrate`), with the law that its matches are ranges. The redaction stage
-- is an argument of `Pipeline.process`, with the laws `IsRedaction`; Redact/Stage proves them. The HTTP
-- client is a function from a URL and a body to a reply (`Forward.HttpClient`). The reader of a request's
-- body is `Server.Http.BodyReader`, with the law that it keeps its limit.
-- The YAML parser is a function from a text to a configuration (`Config.YamlParser`).
--
-- Not modelled: the queue between receivers and workers, which is the channel of another crate, so
-- `handle` and `handle_grpc` take `submit` as a parameter; the errors of the file system when the spool
-- is opened; the accept loops and the
-- start-up of the binary; the text and JSON forms of the aggregates; logging.
pub mod Base
pub mod Wire
pub mod Envelope
pub mod Guard
pub mod Ingest
pub mod Breaker
pub mod Metrics
pub mod Export
pub mod Glob
pub mod Sampling
pub mod Redact
pub mod Spool
pub mod Pipeline
pub mod Config
pub mod Forward
pub mod Server
pub mod Grpc
mod Tests
