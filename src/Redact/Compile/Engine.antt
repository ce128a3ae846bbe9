-- ===== src/Redact/Compile/Engine.antt =====
-- The engine that `compile` of crates/archiv-redact/src/lib.rs returns, rule by rule.
use archiv_agent.Base.{
  ◌≤◌, ◌^◌, ◌≡◌, refl, arith, List, [], ◌∷◌, map, All, Option, none, some, length, get_elem?, codes,
  Run, ok, err, ◌>>=◌,
}
use archiv_agent.Wire.{Bytes}
use archiv_agent.Redact.{RegexCrate, CompiledRule, RedactEngine, intern_mask, intern_masks}
use archiv_agent.Redact.Masks.{StandAt, intern_masks-StandAt}
use archiv_agent.Redact.Compile.{
  RuleSpec, CompileLimits, CompileError, bad_regex, built, set_limit, number_rules, compile,
}
use archiv_agent.Redact.Compile.Rules.{
  IsAccepted, BuiltFrom, IsRejected, AreBuilt, all_built, one_rejected, build_rules-AreBuilt,
}

module _ (rx : RegexCrate) (limits : CompileLimits) where
  -- A compiled rule is the rule as it was configured, with the regex of its pattern, and its mask at its
  -- id in the table.
  pub record IsRule (masks : List Bytes) (spec : RuleSpec) (rule : CompiledRule rx) : Type 0 where
    pub name : rule.name ≡ spec.name
    pub fields : rule.fields ≡ spec.fields
    pub regex : rx.build limits.size_limit spec.pattern ≡ some rule.regex
    pub mask : get_elem? masks rule.mask ≡ some spec.mask

  pub AreRules : List Bytes → List RuleSpec → List (CompiledRule rx) → Type 0
  AreRules masks [] [] = Unit
  AreRules masks [] (rule ∷ rules) = ⊥
  AreRules masks (spec ∷ specs) [] = ⊥
  AreRules masks (spec ∷ specs) (rule ∷ rules) = IsRule masks spec rule × AreRules masks specs rules

  abbrev masks_of : List RuleSpec → List Bytes
  masks_of specs = map (λ spec. spec.mask) specs

  number_rules-masks :
      (specs : List RuleSpec) (regexes : List rx.Regex) (table : List Bytes)
      → BuiltFrom rx limits specs regexes
      → (number_rules rx specs regexes table).1 ≡ (intern_masks (masks_of specs) table).1
  unfolding number_rules intern_masks intern_mask BuiltFrom
  number_rules-masks [] [] table b = refl
  number_rules-masks [] (r ∷ rs) table b = absurd b
  number_rules-masks (spec ∷ specs) [] table b = absurd b
  number_rules-masks (spec ∷ specs) (r ∷ rs) table (e, b) =
      number_rules-masks specs rs (intern_mask spec.mask table).1 b

  number_rules-AreRules :
      (specs : List RuleSpec) (regexes : List rx.Regex) (table final : List Bytes)
      → BuiltFrom rx limits specs regexes
      → StandAt final (masks_of specs) (intern_masks (masks_of specs) table).0
      → AreRules final specs (number_rules rx specs regexes table).0
  unfolding number_rules intern_masks intern_mask BuiltFrom AreRules StandAt
  number_rules-AreRules [] [] table final b s = tt
  number_rules-AreRules [] (r ∷ rs) table final b s = absurd b
  number_rules-AreRules (spec ∷ specs) [] table final b s = absurd b
  number_rules-AreRules (spec ∷ specs) (r ∷ rs) table final (e, b) (stands, s) = (
    record { name = refl; fields = refl; regex = e; mask = stands },
    number_rules-AreRules specs rs (intern_mask spec.mask table).1 final b s,
  )

  -- What `compile` returns for a list of rules.
  pub data IsCompiled (specs : List RuleSpec) : Run CompileError (RedactEngine rx) → Type 0 where
    compiled :
        {engine : RedactEngine rx}
        → All (IsAccepted rx limits) specs
        → AreRules engine.masks specs engine.rules
        → rx.build_set (set_limit limits (length specs)) (map (λ spec. spec.pattern) specs)
          ≡ some engine.prefilter
        → IsCompiled specs (ok engine)
    rejected : {e : CompileError} → IsRejected rx limits specs e → IsCompiled specs (err e)
    set_rejected :
        All (IsAccepted rx limits) specs
        → rx.build_set (set_limit limits (length specs)) (map (λ spec. spec.pattern) specs) ≡ none
        → IsCompiled specs (err (bad_regex (codes "<set>")))

  length-map : (specs : List RuleSpec) → length (masks_of specs) ≡ length specs
  length-map [] = refl
  length-map (spec ∷ specs) = omega (arith, length-map specs)

  close_set :
      List RuleSpec → List rx.Regex → Option rx.RegexSet → Run CompileError (RedactEngine rx)
  close_set specs regexes o = do
    prefilter ← built (codes "<set>") o
    let (rules, masks) = number_rules rx specs regexes []
    ok (record { prefilter = prefilter; rules = rules; masks = masks })

  close_set-IsCompiled :
      (specs : List RuleSpec) (regexes : List rx.Regex) (o : Option rx.RegexSet)
      → length specs ≤ 2 ^ 32
      → All (IsAccepted rx limits) specs
      → BuiltFrom rx limits specs regexes
      → rx.build_set (set_limit limits (length specs)) (map (λ spec. spec.pattern) specs) ≡ o
      → IsCompiled specs (close_set specs regexes o)
  unfolding close_set
  close_set-IsCompiled specs regexes none h a b e = set_rejected a e
  close_set-IsCompiled specs regexes (some prefilter) h a b e =
      let stand = intern_masks-StandAt (masks_of specs) (omega (arith, length-map specs)) in
      let same = number_rules-masks specs regexes [] b in
      compiled a
        (rw same
          (number_rules-AreRules specs regexes [] (intern_masks (masks_of specs) []).1 b stand))
        e

  -- For at most 2 ^ 32 rules, `compile` either returns an engine whose rules are the configured ones in
  -- their order, each with the regex of its pattern and its own mask at its id in the table, or the error
  -- of the first rule that is faulty, for its fields, for its nested repetition or for its regex, or that
  -- of the set.
  pub compile-IsCompiled :
      (specs : List RuleSpec) → length specs ≤ 2 ^ 32 → IsCompiled specs (compile rx specs limits)
  unfolding compile close_set
  compile-IsCompiled specs h = go _ (build_rules-AreBuilt rx limits specs)
    where
      go :
          (r : Run CompileError (List rx.Regex))
          → AreBuilt rx limits specs r
          → IsCompiled specs (
              r >>= λ regexes.
              close_set specs regexes
                (rx.build_set (set_limit limits (length specs)) (map (λ spec. spec.pattern) specs)))
      go _ (all_built {regexes} a b) = close_set-IsCompiled specs regexes _ h a b refl
      go _ (one_rejected j) = rejected j
