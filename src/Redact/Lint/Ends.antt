-- ===== src/Redact/Lint/Ends.antt =====
-- The loop of `check_nested_repetition` in crates/archiv-redact/src/lint.rs and its fuel.
use archiv_agent.Base.{
  ℕ, zero, suc, ◌-◌, ◌≤◌, ◌≡◌, refl, arith, List, [], ◌∷◌, Bool, false, ◌&&◌, ◌||◌, ◌==◌,
  if◌then◌else◌, if_case, drop, length, length-drop, Option, none, some, Run, ok, err, ◌⊎◌, inl,
  inr,
}
use archiv_agent.Wire.{Bytes}
use archiv_agent.Redact.Lint.{
  brace_quantifier, quantifier_at, class_loop, skip_one, skip_class, popped, lint_step, go_on,
  lint_loop, check_nested_repetition,
}

-- What a round leaves is no longer than what stood behind its byte.
abbrev pub Shrinks : Bytes → Option (Bytes × List Bool) → Type 0
Shrinks s none = Unit
Shrinks s (some (rest, frames)) = length rest ≤ length s

skip_one-shrinks : (c : ℕ) (s : Bytes) → length (skip_one c s) ≤ length s
skip_one-shrinks c [] = omega arith
skip_one-shrinks c (d ∷ s) = ground arith

class_loop-shrinks : (fuel : ℕ) (s : Bytes) → length (class_loop fuel s) ≤ length s
unfolding class_loop
class_loop-shrinks zero s = omega arith
class_loop-shrinks (suc fuel) [] = omega arith
class_loop-shrinks (suc fuel) (c ∷ s) =
    let tail : Bytes = if c == b'\\' then drop 1 s else s in
    let short : length tail ≤ length s = ground (arith, length-drop 1 s) in
    let later = class_loop-shrinks fuel tail in
    if_case (λ t. length t ≤ suc (length s)) (c == b']') {x = c ∷ s} {y = class_loop fuel tail}
      (λ _. omega arith) (λ _. omega (arith, later, short))

skip_class-shrinks : (s : Bytes) → length (skip_class s) ≤ length s
unfolding skip_class
skip_class-shrinks s =
    let members = skip_one b']' (skip_one b'^' s) in
    omega (
      arith,
      class_loop-shrinks (length members) members,
      skip_one-shrinks b']' (skip_one b'^' s),
      skip_one-shrinks b'^' s,
    )

pub lint_step-Shrinks : (c : ℕ) (s : Bytes) (frames : List Bool) → Shrinks s (lint_step c s frames)
unfolding lint_step
lint_step-Shrinks c s frames =
    if_case (Shrinks s) (c == b'\\') (λ _. omega (arith, length-drop 1 s))
      (λ _.
        if_case (Shrinks s) (c == b'[')
          (λ _. omega (arith, length-drop 1 (skip_class s), skip_class-shrinks s))
          (λ _.
            if_case (Shrinks s) (c == b'(') (λ _. omega arith)
              (λ _.
                if_case (Shrinks s) (c == b')')
                  (λ _.
                    if_case (Shrinks s) ((quantifier_at s).0 && (popped frames).0) (λ _. tt)
                      (λ _. omega (arith, length-drop (quantifier_at s).1 s)))
                  (λ _.
                    if_case (Shrinks s) (c == b'*' || c == b'+') (λ _. omega arith)
                      (λ _.
                        if_case (Shrinks s) (c == b'{')
                          (λ _. omega (arith, length-drop ((brace_quantifier s).1 - 1) s))
                          (λ _. omega arith))))))

-- A run of the loop that ended.
abbrev pub Ended : Run (Unit {0}) (Unit {0}) → Type 0
Ended r = (r ≡ ok tt) ⊎ (r ≡ err tt)

lint_loop-Ended :
    (fuel : ℕ) (s : Bytes) (frames : List Bool) → length s ≤ fuel → Ended (lint_loop fuel s frames)
unfolding lint_loop
lint_loop-Ended fuel [] frames h = inl refl
lint_loop-Ended zero (c ∷ s) frames h = absurd (omega arith)
lint_loop-Ended (suc fuel) (c ∷ s) frames h =
    go _ (lint_step-Shrinks c s frames)
      λ rest frames' k. lint_loop-Ended fuel rest frames' (omega arith)
  where
    go :
        (o : Option (Bytes × List Bool))
        → Shrinks s o
        → ((rest : Bytes) (frames' : List Bool)
            → length rest ≤ length s
            → Ended (lint_loop fuel rest frames'))
        → Ended (go_on (lint_loop fuel) o)
    go none k ih = inr refl
    go (some (rest, frames')) k ih = ih rest frames' k

-- On every pattern, `check_nested_repetition` ends within its fuel, with success or with its error.
pub check_nested_repetition-Ended : (pattern : Bytes) → Ended (check_nested_repetition pattern)
unfolding check_nested_repetition
check_nested_repetition-Ended pattern =
    lint_loop-Ended (length pattern) pattern (false ∷ []) (omega arith)

-- More fuel than bytes changes nothing.
pub lint_loop-fuel :
    (fuel more : ℕ) (s : Bytes) (frames : List Bool)
    → length s ≤ fuel
    → length s ≤ more
    → lint_loop fuel s frames ≡ lint_loop more s frames
unfolding lint_loop
lint_loop-fuel fuel more [] frames h k = refl
lint_loop-fuel zero more (c ∷ s) frames h k = absurd (omega arith)
lint_loop-fuel (suc fuel) zero (c ∷ s) frames h k = absurd (omega arith)
lint_loop-fuel (suc fuel) (suc more) (c ∷ s) frames h k =
    go _ (lint_step-Shrinks c s frames)
      λ rest frames' b. lint_loop-fuel fuel more rest frames' (omega arith) (omega arith)
  where
    go :
        (o : Option (Bytes × List Bool))
        → Shrinks s o
        → ((rest : Bytes) (frames' : List Bool)
            → length rest ≤ length s
            → lint_loop fuel rest frames' ≡ lint_loop more rest frames')
        → go_on (lint_loop fuel) o ≡ go_on (lint_loop more) o
    go none b ih = refl
    go (some (rest, frames')) b ih = ih rest frames' b
