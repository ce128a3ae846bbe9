-- ===== src/Tests/Configs.antt =====
-- A configuration with a sampling rule and a redaction rule, from its text to a pipeline.
use archiv_agent.Base.{ℕ, ◌≡◌, ◌↔◌, refl, arith, List, [], ◌∷◌, none, some, true, codes, ok}
use archiv_agent.Base.Int.{pos}
use archiv_agent.Export.Emit.Written.{Returns}
use archiv_agent.Redact.{body, attrs, redact_stage}
use archiv_agent.Redact.Lint.{check_nested_repetition}
use archiv_agent.Redact.Lint.Syntax.{
  Pattern, empty, byte, class, group, plain, once, plus, at_least,
}
use archiv_agent.Redact.Compile.{RuleSpec, default_limits, compile}
use archiv_agent.Redact.Compile.Engine.{IsCompiled, compile-IsCompiled}
use archiv_agent.Config.{
  AgentConfig, YamlParser, default_ingest, default_export, default_body_limits, from_yaml,
}
use archiv_agent.Config.Valid.{IsValid, from_yaml_iff}
use archiv_agent.Config.Selectors.{body_selector, attrs_selector}
use archiv_agent.Breaker.{with_defaults}
use archiv_agent.Pipeline.{Pipeline, process}
use archiv_agent.Pipeline.FailOpen.{IsProcessed}
use archiv_agent.Pipeline.Building.{from_config}
use archiv_agent.Pipeline.Building.Built.{IsBuilt, from_config-IsBuilt, from_yaml-process}
use archiv_agent.Tests.Samples.{request_bytes, sum_hash}
use archiv_agent.Tests.Redactions.{first_byte_crate, first_byte_crate-FindsRanges}

-- `(?:a+|[^b]){2,}`
abbrev nested_pattern : Pattern
nested_pattern =
    group (codes "?:") (byte b'a' plus (byte b'|' once (class true (plain b'b') [] once empty)))
      (at_least (b'2' ∷ [])) empty

abbrev sample_specs : List RuleSpec
sample_specs =
    record {
      name = codes "r";
      pattern = codes "a+";
      mask = codes "#";
      fields = body ∷ attrs (codes "k*") ∷ [];
    }
    ∷ []

compile-IsCompiled_example :
    IsCompiled first_byte_crate default_limits sample_specs
      (compile first_byte_crate sample_specs default_limits)
compile-IsCompiled_example =
    compile-IsCompiled first_byte_crate default_limits sample_specs (omega arith)

abbrev sample_config : AgentConfig
sample_config = record {
  ingest = default_ingest;
  sampling = record {
    default_target = 50;
    rules =
        record {
          selector = record { namespace = none; severity_lte = some (codes "debug") };
          target = 10;
        }
        ∷ [];
  };
  redaction = record {
    regex_rules =
        record {
          name = codes "r";
          pattern = codes "a+";
          mask = codes "#";
          fields = codes "body" ∷ codes "attributes.k*" ∷ [];
        }
        ∷ [];
  };
  export = default_export;
  limits = default_body_limits;
}

abbrev sample_parser : YamlParser
sample_parser text = some sample_config

from_yaml_iff_example :
    (from_yaml sample_parser [] ≡ ok sample_config)
    ↔ ((sample_parser [] ≡ some sample_config) × IsValid sample_config)
from_yaml_iff_example = from_yaml_iff sample_parser [] sample_config

sample_config-IsValid : IsValid sample_config
sample_config-IsValid = record {
  default_target = omega arith;
  targets = (omega arith, tt);
  channel_capacity = omega arith;
  max_body_bytes = omega arith;
  redaction = (
    record {
      some_fields = λ e. cc;
      selectors = (body_selector refl, (attrs_selector b'k' (b'*' ∷ []) refl, tt));
    },
    tt,
  );
}

from_config-IsBuilt_example :
    IsBuilt first_byte_crate sample_config (from_config first_byte_crate 0 sample_config)
from_config-IsBuilt_example =
    from_config-IsBuilt first_byte_crate 0 sample_config sample_config-IsValid (omega arith)

sample_config-loads : from_yaml sample_parser [] ≡ ok sample_config
sample_config-loads = (from_yaml_iff sample_parser [] sample_config).1 (refl, sample_config-IsValid)

abbrev built_pipeline : Pipeline (List ℕ)
built_pipeline = record {
  redact = redact_stage first_byte_crate (record {
    prefilter = tt;
    rules =
        record { name = codes "r"; regex = tt; mask = 0; fields = body ∷ attrs (codes "k*") ∷ [] }
        ∷ [];
    masks = codes "#" ∷ [];
  });
  masks = record { masks = codes "#" ∷ [] };
  policy = record {
    rules = record { namespace_glob = none; severity_lte = some (pos 8); target = 10 } ∷ [];
    default_target = 50;
  };
  max_body_bytes = 4194304;
  redact_state = 0 ∷ [];
  redact_breaker = with_defaults 0;
}

built_pipeline-built : from_config first_byte_crate 0 sample_config ≡ ok built_pipeline
unfolding from_config archiv_agent.Pipeline.Building.compile_sampling
    archiv_agent.Pipeline.Building.compile_severity archiv_agent.Sampling.Policy.severity_band_max
    archiv_agent.Config.into_rule_specs archiv_agent.Config.into_rule_spec
    archiv_agent.Config.parse_selectors archiv_agent.Config.parse_some
    archiv_agent.Config.parse_fields archiv_agent.Redact.parse archiv_agent.Redact.strip_prefix
    compile archiv_agent.Redact.Compile.build_rules archiv_agent.Redact.Compile.build_rule
    archiv_agent.Redact.Compile.number_rules archiv_agent.Redact.intern_mask
    archiv_agent.Redact.position check_nested_repetition archiv_agent.Redact.Lint.lint_loop
    archiv_agent.Redact.Lint.lint_step archiv_agent.Redact.Lint.quantifier_at
    archiv_agent.Redact.Lint.brace_quantifier archiv_agent.Redact.Lint.brace_loop
    archiv_agent.Redact.Lint.skip_class
built_pipeline-built = refl

from_yaml-process_example :
    Returns (λ r. IsProcessed request_bytes r.1) (process sum_hash 7 request_bytes built_pipeline)
from_yaml-process_example =
    from_yaml-process first_byte_crate sum_hash sample_parser [] sample_config 0 7 built_pipeline
      request_bytes first_byte_crate-FindsRanges sample_config-loads (omega arith)
      built_pipeline-built
