-- ===== src/Redact/Compile.antt =====
-- `compile` of crates/archiv-redact/src/lib.rs: the rules are validated and built one by one, then the
-- set, then the masks get their ids.
pub mod Rules
pub mod Engine
use archiv_agent.Base.{
  ℕ, ◌*◌, ◌-◌, ◌^◌, min, max, List, [], ◌∷◌, map, Option, none, some, length, Run, ok, err, ◌>>=◌,
  map_err, codes,
}
use archiv_agent.Wire.{Bytes}
use archiv_agent.Redact.{RegexCrate, FieldSelector, CompiledRule, RedactEngine, intern_mask}
use archiv_agent.Redact.Lint.{check_nested_repetition}

pub record RuleSpec : Type 0 where
  pub name : Bytes
  pub pattern : Bytes
  pub mask : Bytes
  pub fields : List FieldSelector

pub record CompileLimits : Type 0 where
  pub size_limit : ℕ

abbrev pub default_limits : CompileLimits
default_limits = record { size_limit = 2 ^ 20 }

-- The texts that the errors carry for a reader are left out.
pub data CompileError : Type 0 where
  nested_repetition : Bytes → CompileError
  bad_regex : Bytes → CompileError
  bad_selector : Bytes → Bytes → CompileError
  no_fields : Bytes → CompileError

abbrev pub built : {A : Type 0} → Bytes → Option A → Run CompileError A
built name none = err (bad_regex name)
built name (some a) = ok a

abbrev pub check_fields : Bytes → List FieldSelector → Run CompileError (Unit {0})
check_fields name [] = err (no_fields name)
check_fields name (f ∷ fields) = ok tt

-- `usize::saturating_mul`
abbrev pub set_limit : CompileLimits → ℕ → ℕ
set_limit limits n = min (limits.size_limit * max n 1) (2 ^ 64 - 1)

module _ (rx : RegexCrate) where
  -- One round of the first loop.
  unfoldable pub build_rule : CompileLimits → RuleSpec → Run CompileError rx.Regex
  build_rule limits spec = do
    _ ← check_fields spec.name spec.fields
    _ ← map_err (λ _. nested_repetition spec.name) (check_nested_repetition spec.pattern)
    built spec.name (rx.build limits.size_limit spec.pattern)

  unfoldable pub build_rules : CompileLimits → List RuleSpec → Run CompileError (List rx.Regex)
  build_rules limits [] = ok []
  build_rules limits (spec ∷ specs) = do
    regex ← build_rule limits spec
    regexes ← build_rules limits specs
    ok (regex ∷ regexes)

  -- The last loop, over the specs zipped with the regexes.
  unfoldable pub number_rules :
      List RuleSpec → List rx.Regex → List Bytes → List (CompiledRule rx) × List Bytes
  unfolding intern_mask
  number_rules (spec ∷ specs) (regex ∷ regexes) table =
      let (mask, table1) = intern_mask spec.mask table in
      let (rules, table2) = number_rules specs regexes table1 in
      (
        record { name = spec.name; regex = regex; mask = mask; fields = spec.fields } ∷ rules,
        table2,
      )
  number_rules _ _ table = ([], table)

  unfoldable pub compile : List RuleSpec → CompileLimits → Run CompileError (RedactEngine rx)
  compile specs limits = do
    regexes ← build_rules limits specs
    prefilter ←
        built (codes "<set>")
          (rx.build_set (set_limit limits (length specs)) (map (λ spec. spec.pattern) specs))
    let (rules, masks) = number_rules specs regexes []
    ok (record { prefilter = prefilter; rules = rules; masks = masks })
