-- ===== src/Redact/Lint.antt =====
-- The scan for nested repetition of crates/archiv-redact/src/lint.rs. A position in the pattern is what
-- stands from it on, and a position past the end is the empty rest; the frames are the top one first.
pub mod Ends
pub mod Syntax
pub mod Scan
pub mod Quantifiers
pub mod Correct
use archiv_agent.Base.{
  ℕ, zero, suc, ◌+◌, ◌-◌, List, [], ◌∷◌, Bool, true, false, ◌&&◌, ◌||◌, ◌==◌, if◌then◌else◌, drop,
  length, Option, none, some, Run, ok, err, out_of_fuel, is_digit,
}
use archiv_agent.Wire.{Bytes}

-- The loop of `brace_quantifier`; `len` is `j - pos`.
unfoldable pub brace_loop : Bytes → Bool → ℕ → Bool × ℕ
brace_loop [] saw_comma_last len = (false, 1)
brace_loop (c ∷ s) saw_comma_last len =
    let comma = brace_loop s true (len + 1) in
    let digit = brace_loop s false (len + 1) in
    if c == b'}'
    then (saw_comma_last, len + 1)
    else if c == b','
    then comma
    else if is_digit c
    then digit
    else (false, 1)

-- `s` stands behind the `{`.
unfoldable pub brace_quantifier : Bytes → Bool × ℕ
brace_quantifier s = brace_loop s false 1

unfoldable pub quantifier_at : Bytes → Bool × ℕ
quantifier_at [] = (false, 0)
quantifier_at (c ∷ s) =
    if c == b'*' || c == b'+'
    then (true, 1)
    else if c == b'?'
    then (false, 1)
    else if c == b'{'
    then brace_quantifier s
    else (false, 0)

-- The inner loop over a class: what stands from its `]` on.
unfoldable pub class_loop : ℕ → Bytes → Bytes
class_loop zero s = s
class_loop (suc fuel) [] = []
class_loop (suc fuel) (c ∷ s) =
    let later = class_loop fuel (if c == b'\\' then drop 1 s else s) in
    if c == b']' then c ∷ s else later

abbrev pub skip_one : ℕ → Bytes → Bytes
skip_one c [] = []
skip_one c (d ∷ s) = if d == c then s else d ∷ s

-- What stands from the end of a class on, with its `]`; `s` stands behind the `[`.
unfoldable pub skip_class : Bytes → Bytes
skip_class s = let members = skip_one b']' (skip_one b'^' s) in class_loop (length members) members

-- `*top |= flag`
abbrev pub mark : Bool → List Bool → List Bool
mark flag [] = []
mark flag (top ∷ frames) = (top || flag) ∷ frames

-- `frames.pop().unwrap_or(false)`
abbrev pub popped : List Bool → Bool × List Bool
popped [] = (false, [])
popped (top ∷ frames) = (top, frames)

-- One round: the rest and the frames that it leaves, or the error.
unfoldable pub lint_step : ℕ → Bytes → List Bool → Option (Bytes × List Bool)
lint_step c s frames =
    let (inner_unbounded, outer) = popped frames in
    let (quant_unbounded, quant_len) = quantifier_at s in
    let (unbounded, len) = brace_quantifier s in
    if c == b'\\'
    then some (drop 1 s, frames)
    else if c == b'['
    then some (drop 1 (skip_class s), frames)
    else if c == b'('
    then some (s, false ∷ frames)
    else if c == b')'
    then if quant_unbounded && inner_unbounded
      then none
      else some (drop quant_len s, mark (inner_unbounded || quant_unbounded) outer)
    else if c == b'*' || c == b'+'
    then some (s, mark true frames)
    else if c == b'{'
    then some (drop (len - 1) s, mark unbounded frames)
    else some (s, frames)

abbrev pub go_on :
    (Bytes → List Bool → Run (Unit {0}) (Unit {0}))
    → Option (Bytes × List Bool)
    → Run (Unit {0}) (Unit {0})
go_on next none = err tt
go_on next (some (s, frames)) = next s frames

-- The main loop, at most one round for each byte.
unfoldable pub lint_loop : ℕ → Bytes → List Bool → Run (Unit {0}) (Unit {0})
lint_loop fuel [] frames = ok tt
lint_loop zero (c ∷ s) frames = out_of_fuel
lint_loop (suc fuel) (c ∷ s) frames = go_on (lint_loop fuel) (lint_step c s frames)

unfoldable pub check_nested_repetition : Bytes → Run (Unit {0}) (Unit {0})
check_nested_repetition pattern = lint_loop (length pattern) pattern (false ∷ [])
