-- ===== src/Sampling/Policy/Resolve.antt =====
-- The resolved target of crates/archiv-sampling/src/policy.rs against a relation that picks the
-- rule.
use archiv_agent.Base.{ℕ, ◌≡◌, ◌↔◌, refl, arith, List, [], ◌∷◌, Option, none, some, Bool, true}
use archiv_agent.Base.{◌&&◌, Bool-cases, inl, inr, leb→le, le→leb}
use archiv_agent.Base.Int.{ℤ, ◌≤ℤ◌}
use archiv_agent.Wire.{Bytes}
use archiv_agent.Glob.Language.{Matches, IsStarFree}
use archiv_agent.Glob.Correct.{matches_iff}
use archiv_agent.Sampling.Policy.{Rule, SamplingPolicy, glob_matches, namespace_ok, severity_ok}
use archiv_agent.Sampling.Policy.{rule_matches, resolve_rules, resolve}

-- A condition that a rule makes is met by a field that the record has.
abbrev pub Meets : {A B : Type 0} → (A → B → Type 0) → Option A → Option B → Type 0
Meets R none field = Unit
Meets R (some a) none = ⊥
Meets R (some a) (some b) = R a b

-- The rule applies: its namespace pattern matches, and the severity is at most its bound.
abbrev pub Applies : Rule → Option Bytes → Option ℤ → Type 0
Applies rule namespace severity =
    Meets Matches rule.namespace_glob namespace
    × Meets (λ threshold sev. sev ≤ℤ threshold) rule.severity_lte severity

-- The target of the first rule that applies, or the default.
pub data Resolves (default : ℕ) (namespace : Option Bytes) (severity : Option ℤ)
    : List Rule → ℕ → Type 0 where
  by_default : Resolves default namespace severity [] default
  here :
      {rule : Rule} {rules : List Rule}
      → Applies rule namespace severity
      → Resolves default namespace severity (rule ∷ rules) rule.target
  later :
      {rule : Rule} {rules : List Rule} {target : ℕ}
      → ¬ Applies rule namespace severity
      → Resolves default namespace severity rules target
      → Resolves default namespace severity (rule ∷ rules) target

abbrev pub IsStarFreeOpt : Option Bytes → Type 0
IsStarFreeOpt none = Unit
IsStarFreeOpt (some ns) = IsStarFree ns

namespace_ok_iff :
    (glob namespace : Option Bytes)
    → IsStarFreeOpt namespace
    → (namespace_ok glob namespace ≡ true) ↔ Meets Matches glob namespace
unfolding glob_matches
namespace_ok_iff none namespace h = (λ _. tt, λ _. refl)
namespace_ok_iff (some glob) none h = (λ e. cc, λ b. absurd b)
namespace_ok_iff (some glob) (some ns) h = matches_iff glob ns h

severity_ok_iff :
    (bound severity : Option ℤ)
    → (severity_ok bound severity ≡ true) ↔ Meets (λ threshold sev. sev ≤ℤ threshold) bound severity
severity_ok_iff none severity = (λ _. tt, λ _. refl)
severity_ok_iff (some threshold) none = (λ e. cc, λ b. absurd b)
severity_ok_iff (some threshold) (some sev) = (leb→le _ _, le→leb _ _)

and_iff : (a b : Bool) → (a && b ≡ true) ↔ ((a ≡ true) × (b ≡ true))
and_iff a b = ground arith

-- On a record whose namespace has no `*` byte, a rule matches exactly when it applies.
rule_matches_iff :
    (rule : Rule) (namespace : Option Bytes) (severity : Option ℤ)
    → IsStarFreeOpt namespace
    → (rule_matches rule namespace severity ≡ true) ↔ Applies rule namespace severity
unfolding rule_matches
rule_matches_iff rule namespace severity h =
    let ns = namespace_ok_iff rule.namespace_glob namespace h in
    let sev = severity_ok_iff rule.severity_lte severity in
    let both =
      and_iff (namespace_ok rule.namespace_glob namespace)
        (severity_ok rule.severity_lte severity) in
    (λ e. (ns.0 (both.0 e).0, sev.0 (both.0 e).1), λ a. both.1 (ns.1 a.0, sev.1 a.1))

-- The policy's answer is the target of the first rule that applies, or the default if none does, for
-- every record whose namespace, where it has one, contains no `*` byte.
pub resolve-Resolves :
    (policy : SamplingPolicy) (namespace : Option Bytes) (severity : Option ℤ)
    → IsStarFreeOpt namespace
    → Resolves policy.default_target namespace severity policy.rules
        (resolve policy namespace severity)
unfolding resolve
resolve-Resolves policy namespace severity h = go policy.rules
  where
    go :
        (rules : List Rule)
        → Resolves policy.default_target namespace severity rules
            (resolve_rules rules policy.default_target namespace severity)
    go [] = by_default
    go (rule ∷ rules) = elim (Bool-cases (rule_matches rule namespace severity)) [
      | inl e ↦ rw e (here ((rule_matches_iff rule namespace severity h).0 e))
      | inr e ↦
          rw e (later (λ a. cc (e, (rule_matches_iff rule namespace severity h).1 a)) (go rules))
    ]
