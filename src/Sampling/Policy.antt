-- ===== src/Sampling/Policy.antt =====
-- The policy of crates/archiv-sampling/src/policy.rs: the first rule that matches gives the target.
pub mod Resolve
use archiv_agent.Base.{ℕ, ◌-◌, List, [], ◌∷◌, map, Option, none, some, Bool, true, false, leb, ◌&&◌}
use archiv_agent.Base.{if◌then◌else◌, bytes_eq, codes, ◌||◌}
use archiv_agent.Base.Int.{ℤ, pos, leb_ℤ}
use archiv_agent.Wire.{Bytes}
use archiv_agent.Glob.{matches}

pub record Rule : Type 0 where
  pub namespace_glob : Option Bytes
  pub severity_lte : Option ℤ
  pub target : ℕ

pub record SamplingPolicy : Type 0 where
  pub rules : List Rule
  pub default_target : ℕ

-- Line for line the matcher of the redaction rules.
unfoldable pub glob_matches : Bytes → Bytes → Bool
unfolding matches
glob_matches pattern key = matches pattern key

-- `match namespace { Some(ns) if glob_matches(glob, ns) => {} _ => return false }`
abbrev pub namespace_ok : Option Bytes → Option Bytes → Bool
namespace_ok none namespace = true
namespace_ok (some glob) none = false
namespace_ok (some glob) (some ns) = glob_matches glob ns

abbrev pub severity_ok : Option ℤ → Option ℤ → Bool
severity_ok none severity = true
severity_ok (some threshold) none = false
severity_ok (some threshold) (some sev) = leb_ℤ sev threshold

unfoldable pub rule_matches : Rule → Option Bytes → Option ℤ → Bool
rule_matches rule namespace severity =
    namespace_ok rule.namespace_glob namespace && severity_ok rule.severity_lte severity

unfoldable pub resolve_rules : List Rule → ℕ → Option Bytes → Option ℤ → ℕ
resolve_rules [] default namespace severity = default
resolve_rules (rule ∷ rules) default namespace severity =
    let later = resolve_rules rules default namespace severity in
    if rule_matches rule namespace severity then rule.target else later

unfoldable pub resolve : SamplingPolicy → Option Bytes → Option ℤ → ℕ
unfolding resolve_rules
resolve policy namespace severity =
    resolve_rules policy.rules policy.default_target namespace severity

-- `to_ascii_uppercase`
abbrev pub upper : ℕ → ℕ
upper c = if leb b'a' c && leb c b'z' then c - 32 else c

abbrev pub band_of : Bytes → Option ℤ
band_of name =
    if bytes_eq name (codes "TRACE")
    then some (pos 4)
    else if bytes_eq name (codes "DEBUG")
    then some (pos 8)
    else if bytes_eq name (codes "INFO")
    then some (pos 12)
    else if bytes_eq name (codes "WARN") || bytes_eq name (codes "WARNING")
    then some (pos 16)
    else if bytes_eq name (codes "ERROR")
    then some (pos 20)
    else if bytes_eq name (codes "FATAL")
    then some (pos 24)
    else none

unfoldable pub severity_band_max : Bytes → Option ℤ
severity_band_max name = band_of (map upper name)
