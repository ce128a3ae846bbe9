-- ===== src/Pipeline/Building.antt =====
-- `from_config` of src/pipeline.rs: a pipeline from a configuration.
pub mod Rules
pub mod Built
use archiv_agent.Base.{ℕ, ◌%◌, List, [], ◌∷◌, map, Option, none, some, Run, ok, err, ◌>>=◌, map_err}
use archiv_agent.Base.Int.{ℤ}
use archiv_agent.Wire.{Bytes}
use archiv_agent.Sampling.Policy.{Rule, severity_band_max}
use archiv_agent.Redact.{RegexCrate, RedactEngine, redact_stage}
use archiv_agent.Redact.Compile.{CompileError, default_limits, compile}
use archiv_agent.Config.{AgentConfig, ConfigError, SamplingRule, into_rule_specs}
use archiv_agent.Breaker.{with_defaults}
use archiv_agent.Pipeline.{Pipeline}

pub data BuildError : Type 0 where
  config : ConfigError → BuildError
  redact : CompileError → BuildError
  unknown_severity : Bytes → BuildError

abbrev pub known_severity : Bytes → Option ℤ → Run BuildError (Option ℤ)
known_severity name none = err (unknown_severity name)
known_severity name (some band) = ok (some band)

unfoldable pub compile_severity : Option Bytes → Run BuildError (Option ℤ)
compile_severity none = ok none
compile_severity (some name) = known_severity name (severity_band_max name)

-- `as u8`
abbrev pub narrow : ℕ → ℕ
narrow target = target % 256

unfoldable pub compile_sampling : List SamplingRule → Run BuildError (List Rule)
compile_sampling [] = ok []
compile_sampling (r ∷ rs) = do
  severity_lte ← compile_severity r.selector.severity_lte
  rules ← compile_sampling rs
  ok (
      record {
        namespace_glob = r.selector.namespace;
        severity_lte = severity_lte;
        target = narrow r.target;
      }
      ∷ rules)

-- `RedactStage::new` starts one counter for each rule.
abbrev pub zero_counts : {A : Type 0} → List A → List ℕ
zero_counts rules = map (λ _. 0) rules

module _ (rx : RegexCrate) (now : ℕ) (cfg : AgentConfig) where
  abbrev pub with_engine : List Rule → RedactEngine rx → Run BuildError (Pipeline (List ℕ))
  with_engine rules engine = ok (record {
    redact = redact_stage rx engine;
    masks = record { masks = engine.masks };
    policy = record { rules = rules; default_target = narrow cfg.sampling.default_target };
    max_body_bytes = cfg.limits.max_body_bytes;
    redact_state = zero_counts engine.rules;
    redact_breaker = with_defaults now;
  })

  -- `from_config` at the instant `now`.
  unfoldable pub from_config : Run BuildError (Pipeline (List ℕ))
  from_config = do
    rules ← compile_sampling cfg.sampling.rules
    specs ← map_err config (into_rule_specs cfg.redaction.regex_rules)
    engine ← map_err redact (compile rx specs default_limits)
    with_engine rules engine
