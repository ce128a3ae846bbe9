-- ===== src/Redact/Lint/Scan.antt =====
-- Single rounds of the scan of crates/archiv-redact/src/lint.rs over the text of a pattern.
use archiv_agent.Base.{
  ℕ, ◌≤◌, ◌≡◌, ◌∙◌, refl, arith, List, [], ◌∷◌, All, Bool, false, ◌==◌, length, Option, none, some,
  Run,
}
use archiv_agent.Wire.{Bytes}
use archiv_agent.Redact.Lint.{lint_step, go_on, lint_loop}
use archiv_agent.Redact.Lint.Ends.{Shrinks, lint_step-Shrinks, lint_loop-fuel}
use archiv_agent.Redact.Lint.Syntax.{print_bytes, IsQuiet}

-- The loop with just enough fuel.
abbrev pub scan : Bytes → List Bool → Run (Unit {0}) (Unit {0})
scan s frames = lint_loop (length s) s frames

go_on-scan :
    (fuel : ℕ) (o : Option (Bytes × List Bool)) (s : Bytes)
    → length s ≤ fuel
    → Shrinks s o
    → go_on (lint_loop fuel) o ≡ go_on scan o
go_on-scan fuel none s h k = refl
go_on-scan fuel (some (rest, frames)) s h k =
    lint_loop-fuel fuel (length rest) rest frames (omega (arith, h, k)) (omega arith)

pub scan_step :
    (c : ℕ) (s : Bytes) (frames : List Bool)
    → scan (c ∷ s) frames ≡ go_on scan (lint_step c s frames)
unfolding lint_loop
scan_step c s frames =
    go_on-scan (length s) (lint_step c s frames) s (omega arith) (lint_step-Shrinks c s frames)

-- A quiet byte is passed over.
pub scan_quiet :
    (c : ℕ) (s : Bytes) (frames : List Bool) → IsQuiet c → scan (c ∷ s) frames ≡ scan s frames
unfolding lint_step
scan_quiet c s frames q =
    let backslash : (c == b'\\') ≡ false = ground (arith, q) in
    let bracket : (c == b'[') ≡ false = ground (arith, q) in
    let opens : (c == b'(') ≡ false = ground (arith, q) in
    let closes : (c == b')') ≡ false = ground (arith, q) in
    let many : (c == b'*') ≡ false = ground (arith, q) in
    let more : (c == b'+') ≡ false = ground (arith, q) in
    let brace : (c == b'{') ≡ false = ground (arith, q) in
    scan_step c s frames ∙ rw (backslash, bracket, opens, closes, many, more, brace) refl

-- So are the flags of a group.
pub scan_quiets :
    (bs s : Bytes) (frames : List Bool)
    → All IsQuiet bs
    → scan (print_bytes bs s) frames ≡ scan s frames
scan_quiets [] s frames h = refl
scan_quiets (b ∷ bs) s frames (q, h) =
    scan_quiet b (print_bytes bs s) frames q ∙ scan_quiets bs s frames h
