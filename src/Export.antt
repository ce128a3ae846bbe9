-- ===== src/Export.antt =====
-- The vectored assembly of crates/archiv-export/src/lib.rs: the segment tree and its sizes, the
-- spans of a field, the walk that builds the tree, and its emission.
pub mod Segment
pub mod Spans
pub mod Build
pub mod Emit
pub mod Assemble
