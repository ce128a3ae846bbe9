-- ===== src/Config/Valid.antt =====
-- What validation in crates/archiv-config/src/lib.rs accepts.
use archiv_agent.Base.{
  ℕ, ◌+◌, ◌≤◌, ◌≡◌, refl, ap, arith, List, [], ◌∷◌, All, Option, none, some, false, ltb, Bool-cases,
  ◌↔◌, inl, inr, ok, err, ◌>>=◌, bind-ok,
}
use archiv_agent.Wire.{Bytes}
use archiv_agent.Config.{
  AgentConfig, SamplingRule, RegexRuleConfig, YamlParser, validate_targets, parse_selectors,
  validate_selectors, validate_rest, validate, validated, from_yaml,
}
use archiv_agent.Config.Selectors.{
  IsSelective, parse_selectors-IsSelective, IsSelective-parse_selectors,
}

-- A target is a percentage.
abbrev pub InRange : SamplingRule → Type 0
InRange rule = rule.target ≤ 100

validate_targets_iff :
    (i : ℕ) (rules : List SamplingRule) → (validate_targets i rules ≡ ok tt) ↔ All InRange rules
unfolding validate_targets
validate_targets_iff i [] = (λ _. tt, λ _. refl)
validate_targets_iff i (rule ∷ rules) =
    let ih = validate_targets_iff (i + 1) rules in
    (
      λ e. elim (Bool-cases (ltb 100 rule.target)) [
        | inl over ↦ absurd (let g : err _ ≡ ok tt = rw over at e in cc)
        | inr fits ↦ (ground arith, ih.0 (rw fits at e))
      ],
      λ (low, h). ground (arith, ih.1 h),
    )

validate_selectors_iff :
    (rules : List RegexRuleConfig) → (validate_selectors rules ≡ ok tt) ↔ All IsSelective rules
unfolding validate_selectors
validate_selectors_iff [] = (λ _. tt, λ _. refl)
validate_selectors_iff (rule ∷ rules) =
    let ih = validate_selectors_iff rules in
    (
      λ e.
          let (out, g, h) = bind-ok (parse_selectors rule) _ _ e in
          (parse_selectors-IsSelective rule out g, ih.0 h),
      λ (s, h). let (out, g) = IsSelective-parse_selectors rule s in rw (g, ih.1 h) refl,
    )

-- What a configuration has to be.
pub record IsValid (cfg : AgentConfig) : Type 0 where
  pub default_target : cfg.sampling.default_target ≤ 100
  pub targets : All InRange cfg.sampling.rules
  pub channel_capacity : 1 ≤ cfg.ingest.channel_capacity
  pub max_body_bytes : 1 ≤ cfg.limits.max_body_bytes
  pub redaction : All IsSelective cfg.redaction.regex_rules

validate_rest-ok :
    (cfg : AgentConfig)
    → validate_rest cfg ≡ ok tt
    → (1 ≤ cfg.ingest.channel_capacity)
      × (1 ≤ cfg.limits.max_body_bytes)
      × (validate_selectors cfg.redaction.regex_rules ≡ ok tt)
validate_rest-ok cfg e = (ground arith, ground arith, ground arith)

validate_rest-valid :
    (cfg : AgentConfig)
    → 1 ≤ cfg.ingest.channel_capacity
    → 1 ≤ cfg.limits.max_body_bytes
    → validate_selectors cfg.redaction.regex_rules ≡ ok tt
    → validate_rest cfg ≡ ok tt
validate_rest-valid cfg capacity size e = ground (arith, e)

-- Validation accepts exactly the configurations that are valid.
pub validate_iff : (cfg : AgentConfig) → (validate cfg ≡ ok tt) ↔ IsValid cfg
unfolding validate
validate_iff cfg = (
  λ e. elim (Bool-cases (ltb 100 cfg.sampling.default_target)) [
    | inl over ↦ absurd (let g : err _ ≡ ok tt = rw over at e in cc)
    | inr fits ↦
        let g : (validate_targets 0 cfg.sampling.rules >>= λ _. validate_rest cfg) ≡ ok tt =
          rw fits at e in
        let (u, t, h) = bind-ok (validate_targets 0 cfg.sampling.rules) _ _ g in
        let (capacity, size, selectors) = validate_rest-ok cfg h in
        record {
          default_target = ground arith;
          targets = (validate_targets_iff 0 cfg.sampling.rules).0 t;
          channel_capacity = capacity;
          max_body_bytes = size;
          redaction = (validate_selectors_iff cfg.redaction.regex_rules).0 selectors;
        }
  ],
  λ v.
      let fits : ltb 100 cfg.sampling.default_target ≡ false = ground (arith, v.default_target) in
      rw (fits, (validate_targets_iff 0 cfg.sampling.rules).1 v.targets)
        (validate_rest-valid cfg v.channel_capacity v.max_body_bytes
          ((validate_selectors_iff cfg.redaction.regex_rules).1 v.redaction)),
)

-- A text loads as a configuration exactly when the parser reads that configuration from it, and the
-- configuration is valid: its targets are percentages, its capacity and its limit are not zero, and
-- every redaction rule has fields, each `body` or `attributes.` with a pattern behind it.
pub from_yaml_iff :
    (from_str : YamlParser) (yaml : Bytes) (cfg : AgentConfig)
    → (from_yaml from_str yaml ≡ ok cfg) ↔ ((from_str yaml ≡ some cfg) × IsValid cfg)
unfolding from_yaml
from_yaml_iff from_str yaml cfg =
    (λ e. read (from_str yaml) e, λ (e, v). rw (e, (validate_iff cfg).1 v) refl)
  where
    read : (o : Option AgentConfig) → validated o ≡ ok cfg → (o ≡ some cfg) × IsValid cfg
    read none e = absurd cc
    read (some cfg') e =
        let (u, v, h) = bind-ok (validate cfg') _ _ e in
        let same : cfg' ≡ cfg = cc in (ap some same, (validate_iff cfg).0 (rw (← same) v))
