-- ===== src/Redact/Lint/Correct.antt =====
-- The scan of crates/archiv-redact/src/lint.rs over whole patterns.
use archiv_agent.Base.{List, ◌∷◌, Bool, if◌then◌else◌, Run, err}
use archiv_agent.Wire.{Bytes}
use archiv_agent.Redact.Lint.Scan.{scan}

-- The verdict on a pattern, when its frame and those around it are known.
abbrev outcome : Bool → Bytes → Bool → List Bool → Run (Unit {0}) (Unit {0})
outcome nested tail top frames = if nested then err tt else scan tail (top ∷ frames)
