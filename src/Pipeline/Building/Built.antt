-- ===== src/Pipeline/Building/Built.antt =====
-- What `from_config` of src/pipeline.rs builds from a valid configuration.
use archiv_agent.Base.{ℕ, ◌≤◌, ◌^◌, ◌≡◌, refl, arith, List, length, Run, ok, err, ◌>>=◌, map_err}
use archiv_agent.Wire.{Bytes}
use archiv_agent.Sampling.{XxHash}
use archiv_agent.Sampling.Policy.{Rule}
use archiv_agent.Export.Emit.Written.{Returns}
use archiv_agent.Redact.{RegexCrate, RedactEngine, redact_stage}
use archiv_agent.Redact.Stage.{FindsRanges, redact_stage-IsRedaction}
use archiv_agent.Redact.Compile.{RuleSpec, CompileError, default_limits, compile}
use archiv_agent.Redact.Compile.Engine.{
  AreRules, IsCompiled, compiled, rejected, set_rejected, compile-IsCompiled,
}
use archiv_agent.Config.{AgentConfig, into_rule_specs}
use archiv_agent.Config.Valid.{IsValid}
use archiv_agent.Pipeline.{Pipeline, process}
use archiv_agent.Pipeline.FailOpen.{IsRedaction, IsProcessed, process-IsProcessed}
use archiv_agent.Pipeline.Building.{
  BuildError, config, redact, unknown_severity, with_engine, from_config,
}
use archiv_agent.Pipeline.Building.Rules.{
  AreCompiled, IsUnknown, IsSampled, sampled, unknown, compile_sampling-IsSampled, AreSpecs,
  into_rule_specs-AreSpecs, length-AreSpecs,
}
use archiv_agent.Config.{YamlParser, from_yaml}
use archiv_agent.Config.Valid.{from_yaml_iff}

-- What `from_config` makes of a configuration.
pub data IsBuilt (rx : RegexCrate) (cfg : AgentConfig)
    : Run BuildError (Pipeline (List ℕ)) → Type 1 where
  -- The pipeline does what the configuration says: nothing is lost where the targets are narrowed.
  built :
      {p : Pipeline (List ℕ)} (specs : List RuleSpec) (engine : RedactEngine rx)
      → p.policy.default_target ≡ cfg.sampling.default_target
      → AreCompiled cfg.sampling.rules p.policy.rules
      → p.max_body_bytes ≡ cfg.limits.max_body_bytes
      → AreSpecs cfg.redaction.regex_rules specs
      → AreRules rx default_limits engine.masks specs engine.rules
      → p.redact ≡ redact_stage rx engine
      → p.masks.masks ≡ engine.masks
      → IsBuilt rx cfg (ok p)
  -- A sampling rule names a severity that there is not.
  no_severity :
      {name : Bytes}
      → IsUnknown name cfg.sampling.rules
      → IsBuilt rx cfg (err (unknown_severity name))
  -- `compile` refuses the redaction rules.
  no_engine :
      {e : CompileError} (specs : List RuleSpec)
      → AreSpecs cfg.redaction.regex_rules specs
      → IsCompiled rx default_limits specs (err e)
      → IsBuilt rx cfg (err (redact e))

with_engine-IsBuilt :
    (rx : RegexCrate) (now : ℕ) (cfg : AgentConfig) (rules : List Rule) (specs : List RuleSpec)
    (r : Run CompileError (RedactEngine rx))
    → IsValid cfg
    → AreCompiled cfg.sampling.rules rules
    → AreSpecs cfg.redaction.regex_rules specs
    → IsCompiled rx default_limits specs r
    → IsBuilt rx cfg (map_err redact r >>= with_engine rx now cfg rules)
with_engine-IsBuilt rx now cfg rules specs _ v a s (compiled {engine} accepted k set) =
    built specs engine (omega (arith, v.default_target)) a refl s k refl refl
with_engine-IsBuilt rx now cfg rules specs _ v a s (rejected j) = no_engine specs s (rejected j)
with_engine-IsBuilt rx now cfg rules specs _ v a s (set_rejected h e) =
    no_engine specs s (set_rejected h e)

-- From a valid configuration with at most 2 ^ 32 redaction rules, `from_config` builds a pipeline that
-- has its targets, its rules in their order and its limit, each redaction rule with the regex of its
-- pattern and its own mask, or it fails for a severity that there is not, or for the redaction rules
-- that `compile` refuses; no other error is possible.
pub from_config-IsBuilt :
    (rx : RegexCrate) (now : ℕ) (cfg : AgentConfig)
    → IsValid cfg
    → length cfg.redaction.regex_rules ≤ 2 ^ 32
    → IsBuilt rx cfg (from_config rx now cfg)
unfolding from_config
from_config-IsBuilt rx now cfg v small =
    go _ (compile_sampling-IsSampled cfg.sampling.rules v.targets)
  where
    go :
        (r : Run BuildError (List Rule))
        → IsSampled cfg.sampling.rules r
        → IsBuilt rx cfg (
            r >>= λ rules. map_err config (into_rule_specs cfg.redaction.regex_rules) >>= λ specs.
            map_err redact (compile rx specs default_limits) >>= with_engine rx now cfg rules)
    go _ (unknown u) = no_severity u
    go _ (sampled {rules} a) =
        let (specs, e, s) = into_rule_specs-AreSpecs cfg.redaction.regex_rules v.redaction in
        let few : length specs ≤ 2 ^ 32 =
          omega (arith, length-AreSpecs cfg.redaction.regex_rules specs s, small) in
        rw e (
          with_engine-IsBuilt rx now cfg rules specs _ v a s
            (compile-IsCompiled rx default_limits specs few))

Built-IsRedaction :
    (rx : RegexCrate) (cfg : AgentConfig) (r : Run BuildError (Pipeline (List ℕ)))
    (p : Pipeline (List ℕ))
    → FindsRanges rx
    → IsBuilt rx cfg r
    → r ≡ ok p
    → IsRedaction p.redact
Built-IsRedaction rx cfg _ p law (built {p = made} specs engine d a m s k e f) same =
    let q : made ≡ p = cc in
    let g : p.redact ≡ redact_stage rx engine = rw (← q) e in
    rw g (redact_stage-IsRedaction rx law engine)
Built-IsRedaction rx cfg _ p law (no_severity u) same = absurd cc
Built-IsRedaction rx cfg _ p law (no_engine specs s c) same = absurd cc

-- From the text of a configuration to a payload: with a regex crate whose matches are ranges, where
-- the text loads, has at most 2 ^ 32 redaction rules and builds a pipeline, that pipeline returns a
-- payload for all bytes and clocks, and never panics: each parsed record is counted as kept or dropped,
-- the payload has as many bytes as its length says where that fits in 64 bits, and a payload whose
-- assembly failed is the original.
pub from_yaml-process :
    (rx : RegexCrate) (x : XxHash) (from_str : YamlParser) (yaml : Bytes) (cfg : AgentConfig)
    (start now : ℕ) (p : Pipeline (List ℕ)) (raw : Bytes)
    → FindsRanges rx
    → from_yaml from_str yaml ≡ ok cfg
    → length cfg.redaction.regex_rules ≤ 2 ^ 32
    → from_config rx start cfg ≡ ok p
    → Returns (λ r. IsProcessed raw r.1) (process x now raw p)
from_yaml-process rx x from_str yaml cfg start now p raw law loads small builds =
    let v : IsValid cfg = ((from_yaml_iff from_str yaml cfg).0 loads).1 in
    process-IsProcessed x now raw p
      (Built-IsRedaction rx cfg _ p law (from_config-IsBuilt rx start cfg v small) builds)
