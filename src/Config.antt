-- ===== src/Config.antt =====
-- The configuration of crates/archiv-config/src/lib.rs: its sections with their defaults, validation, the
-- rules' selectors, and the fingerprint of the policy. The YAML parser is a parameter.
pub mod Selectors
pub mod Valid
use archiv_agent.Base.{
  ℕ, zero, suc, ◌+◌, ◌*◌, ◌/◌, ◌%◌, ◌^◌, List, [], ◌∷◌, ◌++◌, Option, none, some, Bool, ltb, ◌==◌,
  if◌then◌else◌, Run, ok, err, ◌>>=◌, codes,
}
use archiv_agent.Wire.{Bytes}
use archiv_agent.Sampling.{XxHash}
use archiv_agent.Redact.{FieldSelector}
use archiv_agent.Redact.Compile.{RuleSpec}

pub record IngestConfig : Type 0 where
  pub grpc_endpoint : Bytes
  pub http_endpoint : Bytes
  pub channel_capacity : ℕ

pub record SamplingMatch : Type 0 where
  pub namespace : Option Bytes
  pub severity_lte : Option Bytes

pub record SamplingRule : Type 0 where
  pub selector : SamplingMatch
  pub target : ℕ

pub record SamplingConfig : Type 0 where
  pub default_target : ℕ
  pub rules : List SamplingRule

pub record RegexRuleConfig : Type 0 where
  pub name : Bytes
  pub pattern : Bytes
  pub mask : Bytes
  pub fields : List Bytes

pub record RedactionConfig : Type 0 where
  pub regex_rules : List RegexRuleConfig

pub record ExportConfig : Type 0 where
  pub otlp_endpoint : Option Bytes
  pub spool_dir : Bytes
  pub spool_max_bytes : ℕ

pub record Limits : Type 0 where
  pub max_body_bytes : ℕ

pub record AgentConfig : Type 0 where
  pub ingest : IngestConfig
  pub sampling : SamplingConfig
  pub redaction : RedactionConfig
  pub export : ExportConfig
  pub limits : Limits

abbrev pub default_ingest : IngestConfig
default_ingest = record {
  grpc_endpoint = codes "0.0.0.0:4317";
  http_endpoint = codes "0.0.0.0:4318";
  channel_capacity = 8192;
}

abbrev pub default_sampling : SamplingConfig
default_sampling = record { default_target = 100; rules = [] }

abbrev pub default_export : ExportConfig
default_export = record {
  otlp_endpoint = none;
  spool_dir = codes "/var/lib/archiv/spool";
  spool_max_bytes = 512 * 1024 * 1024;
}

abbrev pub default_body_limits : Limits
default_body_limits = record { max_body_bytes = 4 * 1024 * 1024 }

abbrev pub default_config : AgentConfig
default_config = record {
  ingest = default_ingest;
  sampling = default_sampling;
  redaction = record { regex_rules = [] };
  export = default_export;
  limits = default_body_limits;
}

-- The errors of the parser and of the file system are only told apart from the others.
pub data ConfigError : Type 0 where
  io : Bytes → ConfigError
  unparsed : ConfigError
  target_out_of_range : Bytes → ℕ → ConfigError
  zero_channel_capacity : ConfigError
  zero_max_body_bytes : ConfigError
  empty_fields : Bytes → ConfigError
  invalid_field_selector : Bytes → Bytes → ConfigError

-- `serde_norway::from_str`
abbrev pub YamlParser : Type 0
YamlParser = Bytes → Option AgentConfig

-- The decimal text of a `usize`, which has at most twenty digits.
abbrev pub decimal : ℕ → ℕ → Bytes
decimal zero n = []
decimal (suc k) n =
    let high = decimal k (n / 10) in (if ltb n 10 then [] else high) ++ (b'0' + n % 10) ∷ []

-- `format!("rules[{i}]")`
abbrev pub rule_label : ℕ → Bytes
rule_label i = codes "rules[" ++ decimal 20 i ++ codes "]"

unfoldable pub validate_targets : ℕ → List SamplingRule → Run ConfigError (Unit {0})
validate_targets i [] = ok tt
validate_targets i (rule ∷ rules) =
    let later = validate_targets (i + 1) rules in
    if ltb 100 rule.target then err (target_out_of_range (rule_label i) rule.target) else later

abbrev pub selected : Bytes → Bytes → Option FieldSelector → Run ConfigError FieldSelector
selected name f none = err (invalid_field_selector name f)
selected name f (some sel) = ok sel

unfoldable pub parse_fields : Bytes → List Bytes → Run ConfigError (List FieldSelector)
parse_fields name [] = ok []
parse_fields name (f ∷ fields) = do
  sel ← selected name f (archiv_agent.Redact.parse f)
  out ← parse_fields name fields
  ok (sel ∷ out)

unfoldable pub parse_some : Bytes → List Bytes → Run ConfigError (List FieldSelector)
unfolding parse_fields
parse_some name [] = err (empty_fields name)
parse_some name (f ∷ fields) = parse_fields name (f ∷ fields)

unfoldable pub parse_selectors : RegexRuleConfig → Run ConfigError (List FieldSelector)
parse_selectors rule = parse_some rule.name rule.fields

unfoldable pub validate_selectors : List RegexRuleConfig → Run ConfigError (Unit {0})
validate_selectors [] = ok tt
validate_selectors (rule ∷ rules) = do _ ← parse_selectors rule; validate_selectors rules

-- The checks behind those of the targets.
abbrev pub validate_rest : AgentConfig → Run ConfigError (Unit {0})
validate_rest cfg =
    if cfg.ingest.channel_capacity == 0
    then err zero_channel_capacity
    else if cfg.limits.max_body_bytes == 0
    then err zero_max_body_bytes
    else validate_selectors cfg.redaction.regex_rules

unfoldable pub validate : AgentConfig → Run ConfigError (Unit {0})
validate cfg =
    if ltb 100 cfg.sampling.default_target
    then err (target_out_of_range (codes "default") cfg.sampling.default_target)
    else (validate_targets 0 cfg.sampling.rules >>= λ _. validate_rest cfg)

abbrev pub validated : Option AgentConfig → Run ConfigError AgentConfig
validated none = err unparsed
validated (some cfg) = do _ ← validate cfg; ok cfg

unfoldable pub from_yaml : YamlParser → Bytes → Run ConfigError AgentConfig
from_yaml from_str yaml = validated (from_str yaml)

-- `load`; the text is what `read_to_string` returns for the path.
unfoldable pub load : YamlParser → Bytes → Option Bytes → Run ConfigError AgentConfig
load from_str path none = err (io path)
load from_str path (some text) = from_yaml from_str text

unfoldable pub into_rule_spec : RegexRuleConfig → Run ConfigError RuleSpec
into_rule_spec rule = do
  fields ← parse_selectors rule
  ok (record { name = rule.name; pattern = rule.pattern; mask = rule.mask; fields = fields })

unfoldable pub into_rule_specs : List RegexRuleConfig → Run ConfigError (List RuleSpec)
into_rule_specs [] = ok []
into_rule_specs (rule ∷ rules) = do
  spec ← into_rule_spec rule
  specs ← into_rule_specs rules
  ok (spec ∷ specs)

abbrev pub into_redaction_rule_specs : AgentConfig → Run ConfigError (List RuleSpec)
into_redaction_rule_specs cfg = into_rule_specs cfg.redaction.regex_rules

-- `as_deref().unwrap_or("")`
abbrev pub or_empty : Option Bytes → Bytes
or_empty none = []
or_empty (some s) = s

-- `u16::to_le_bytes`
abbrev pub to_le_bytes : ℕ → Bytes
to_le_bytes n = n % 256 ∷ n / 256 % 256 ∷ []

module _ (x : XxHash) where
  abbrev pub update_terminated : Bytes → x.Hasher → x.Hasher
  update_terminated s h = x.update (0 ∷ []) (x.update s h)

  abbrev pub hash_target_rules : List SamplingRule → x.Hasher → x.Hasher
  hash_target_rules [] h = h
  hash_target_rules (r ∷ rules) h =
      let h1 = update_terminated (or_empty r.selector.namespace) h in
      let h2 = update_terminated (or_empty r.selector.severity_lte) h1 in
      hash_target_rules rules (x.update (to_le_bytes r.target) h2)

  abbrev pub hash_fields : List Bytes → x.Hasher → x.Hasher
  hash_fields [] h = h
  hash_fields (f ∷ fields) h = hash_fields fields (update_terminated f h)

  abbrev pub hash_regex_rules : List RegexRuleConfig → x.Hasher → x.Hasher
  hash_regex_rules [] h = h
  hash_regex_rules (r ∷ rules) h =
      let h1 =
        update_terminated r.mask (update_terminated r.pattern (update_terminated r.name h)) in
      hash_regex_rules rules (x.update (0xFE ∷ []) (hash_fields r.fields h1))

  unfoldable pub policy_fingerprint : AgentConfig → ℕ
  policy_fingerprint cfg =
      let h = x.update (to_le_bytes cfg.sampling.default_target) (x.new 0) in
      let h1 = x.update (0xFF ∷ []) (hash_target_rules cfg.sampling.rules h) in
      x.digest (hash_regex_rules cfg.redaction.regex_rules h1)
