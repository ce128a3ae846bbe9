-- ===== src/Pipeline/Building/Rules.antt =====
-- The rules that `from_config` of src/pipeline.rs compiles, against the configured ones.
use archiv_agent.Base.{
  ◌≡◌, refl, arith, List, [], ◌∷◌, All, Option, none, some, length, Run, ok, err, ◌>>=◌,
}
use archiv_agent.Base.Int.{ℤ}
use archiv_agent.Wire.{Bytes}
use archiv_agent.Sampling.Policy.{Rule, severity_band_max}
use archiv_agent.Redact.Compile.{RuleSpec}
use archiv_agent.Config.{
  SamplingRule, RegexRuleConfig, parse_selectors, into_rule_spec, into_rule_specs,
}
use archiv_agent.Config.Selectors.{IsSelective, IsSelective-parse_selectors}
use archiv_agent.Config.Valid.{InRange}
use archiv_agent.Pipeline.Building.{
  BuildError, unknown_severity, known_severity, compile_severity, narrow, compile_sampling,
}

-- A compiled sampling rule is the rule as it was configured, with the band of its severity.
pub record IsCompiledRule (r : SamplingRule) (rule : Rule) : Type 0 where
  pub namespace : rule.namespace_glob ≡ r.selector.namespace
  pub severity : compile_severity r.selector.severity_lte ≡ ok rule.severity_lte
  pub target : rule.target ≡ r.target

unfoldable pub AreCompiled : List SamplingRule → List Rule → Type 0
AreCompiled [] [] = Unit
AreCompiled [] (rule ∷ rules) = ⊥
AreCompiled (r ∷ rs) [] = ⊥
AreCompiled (r ∷ rs) (rule ∷ rules) = IsCompiledRule r rule × AreCompiled rs rules

-- Some rule of the configuration names no severity.
pub data IsUnknown (name : Bytes) : List SamplingRule → Type 0 where
  here :
      {r : SamplingRule} {rs : List SamplingRule}
      → r.selector.severity_lte ≡ some name
      → severity_band_max name ≡ none
      → IsUnknown name (r ∷ rs)
  there : {r : SamplingRule} {rs : List SamplingRule} → IsUnknown name rs → IsUnknown name (r ∷ rs)

pub data IsSampled (rs : List SamplingRule) : Run BuildError (List Rule) → Type 0 where
  sampled : {rules : List Rule} → AreCompiled rs rules → IsSampled rs (ok rules)
  unknown : {name : Bytes} → IsUnknown name rs → IsSampled rs (err (unknown_severity name))

data IsBand (o : Option Bytes) : Run BuildError (Option ℤ) → Type 0 where
  band : {b : Option ℤ} → compile_severity o ≡ ok b → IsBand o (ok b)
  no_band :
      {name : Bytes}
      → o ≡ some name
      → severity_band_max name ≡ none
      → IsBand o (err (unknown_severity name))

compile_severity-IsBand : (o : Option Bytes) → IsBand o (compile_severity o)
unfolding compile_severity
compile_severity-IsBand none = band refl
compile_severity-IsBand (some name) = go (severity_band_max name) refl
  where
    go : (b : Option ℤ) → severity_band_max name ≡ b → IsBand (some name) (known_severity name b)
    go none e = no_band refl e
    go (some x) e = band (rw e refl)

pub compile_sampling-IsSampled :
    (rs : List SamplingRule) → All InRange rs → IsSampled rs (compile_sampling rs)
unfolding compile_sampling AreCompiled
compile_sampling-IsSampled [] h = sampled tt
compile_sampling-IsSampled (r ∷ rs) (low, h) =
    go _ (compile_severity-IsBand r.selector.severity_lte) _ (compile_sampling-IsSampled rs h)
  where
    go :
        (b : Run BuildError (Option ℤ))
        → IsBand r.selector.severity_lte b
        → (q : Run BuildError (List Rule)) → IsSampled rs q
        → IsSampled (r ∷ rs) (
            b >>= λ severity_lte. q >>= λ rules. ok (
              record {
                namespace_glob = r.selector.namespace;
                severity_lte = severity_lte;
                target = narrow r.target;
              }
              ∷ rules))
    go _ (band e) _ (sampled k) =
        let same : narrow r.target ≡ r.target = omega (arith, low) in
        sampled (record { namespace = refl; severity = e; target = same }, k)
    go _ (band e) _ (unknown u) = unknown (there u)
    go _ (no_band e u) q k = unknown (here e u)

-- The specs are the configured rules, with their selectors parsed.
pub record IsSpec (rule : RegexRuleConfig) (spec : RuleSpec) : Type 0 where
  pub name : spec.name ≡ rule.name
  pub pattern : spec.pattern ≡ rule.pattern
  pub mask : spec.mask ≡ rule.mask
  pub fields : parse_selectors rule ≡ ok spec.fields

unfoldable pub AreSpecs : List RegexRuleConfig → List RuleSpec → Type 0
AreSpecs [] [] = Unit
AreSpecs [] (spec ∷ specs) = ⊥
AreSpecs (rule ∷ rules) [] = ⊥
AreSpecs (rule ∷ rules) (spec ∷ specs) = IsSpec rule spec × AreSpecs rules specs

pub into_rule_specs-AreSpecs :
    (rules : List RegexRuleConfig)
    → All IsSelective rules
    → (specs : List RuleSpec) × (into_rule_specs rules ≡ ok specs) × AreSpecs rules specs
unfolding into_rule_specs into_rule_spec AreSpecs
into_rule_specs-AreSpecs [] h = ([], refl, tt)
into_rule_specs-AreSpecs (rule ∷ rules) (s, h) =
    let (fields, e) = IsSelective-parse_selectors rule s in
    let (specs, g, k) = into_rule_specs-AreSpecs rules h in
    let spec : RuleSpec = record {
      name = rule.name;
      pattern = rule.pattern;
      mask = rule.mask;
      fields = fields;
    } in
    (
      spec ∷ specs,
      rw (e, g) refl,
      (record { name = refl; pattern = refl; mask = refl; fields = e }, k),
    )

pub length-AreSpecs :
    (rules : List RegexRuleConfig) (specs : List RuleSpec)
    → AreSpecs rules specs
    → length specs ≡ length rules
unfolding AreSpecs
length-AreSpecs [] [] h = refl
length-AreSpecs [] (s ∷ specs) h = absurd h
length-AreSpecs (r ∷ rules) [] h = absurd h
length-AreSpecs (r ∷ rules) (s ∷ specs) (i, h) = omega (arith, length-AreSpecs rules specs h)
