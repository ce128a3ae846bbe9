-- ===== src/Ingest/Bounds.antt =====
-- The bounds of the parser of crates/archiv-ingest/src/otlp.rs.
mod Fields
mod Requests
pub use Fields.{IsView, IsOptView, IsRecordView}
pub use Requests.{parse_export_logs_request-Safe}
