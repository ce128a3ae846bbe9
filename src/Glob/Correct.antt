-- ===== src/Glob/Correct.antt =====
-- The matcher of crates/archiv-redact/src/glob.rs against the language of its patterns.
mod Sound
mod Complete
pub use Sound.{matches-sound, matches-settles}
pub use Complete.{matches_iff, literal_star_missed}
