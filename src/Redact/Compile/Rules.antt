-- ===== src/Redact/Compile/Rules.antt =====
-- What an engine that `compile` of crates/archiv-redact/src/lib.rs has built has for each rule, and why
-- it builds none.
use archiv_agent.Base.{
  ◌≡◌, ◌≢◌, ◌∙◌, refl, sym, ap, List, [], ◌∷◌, ◌++◌, All, Option, none, some, inl, inr, Run, ok,
  err, ◌>>=◌, map_err,
}
use archiv_agent.Redact.{RegexCrate, FieldSelector}
use archiv_agent.Redact.Lint.{check_nested_repetition}
use archiv_agent.Redact.Lint.Ends.{Ended, check_nested_repetition-Ended}
use archiv_agent.Redact.Compile.{
  RuleSpec, CompileLimits, CompileError, nested_repetition, bad_regex, no_fields, built,
  check_fields, build_rule, build_rules,
}

module _ (rx : RegexCrate) (limits : CompileLimits) where
  -- A rule that the first loop lets through.
  pub record IsAccepted (spec : RuleSpec) : Type 0 where
    pub some_fields : spec.fields ≢ []
    pub flat : check_nested_repetition spec.pattern ≡ ok tt
    pub regex : rx.Regex
    pub builds : rx.build limits.size_limit spec.pattern ≡ some regex

  -- What is wrong with a rule, with the error that says so.
  pub data IsFaulty (spec : RuleSpec) : CompileError → Type 0 where
    fieldless : spec.fields ≡ [] → IsFaulty spec (no_fields spec.name)
    nested :
        spec.fields ≢ []
        → check_nested_repetition spec.pattern ≡ err tt
        → IsFaulty spec (nested_repetition spec.name)
    unbuilt :
        spec.fields ≢ []
        → check_nested_repetition spec.pattern ≡ ok tt
        → rx.build limits.size_limit spec.pattern ≡ none
        → IsFaulty spec (bad_regex spec.name)

  data IsBuilt (spec : RuleSpec) : Run CompileError rx.Regex → Type 0 where
    accepted : (a : IsAccepted spec) → IsBuilt spec (ok a.regex)
    faulty : {e : CompileError} → IsFaulty spec e → IsBuilt spec (err e)

  build_regex-IsBuilt :
      (spec : RuleSpec) (o : Option rx.Regex)
      → spec.fields ≢ []
      → check_nested_repetition spec.pattern ≡ ok tt
      → rx.build limits.size_limit spec.pattern ≡ o
      → IsBuilt spec (built spec.name o)
  build_regex-IsBuilt spec none f l e = faulty (unbuilt f l e)
  build_regex-IsBuilt spec (some regex) f l e =
      accepted (record { some_fields = f; flat = l; regex = regex; builds = e })

  build_flat-IsBuilt :
      (spec : RuleSpec)
      → spec.fields ≢ []
      → Ended (check_nested_repetition spec.pattern)
      → IsBuilt spec (
          map_err (λ _. nested_repetition spec.name) (check_nested_repetition spec.pattern) >>= λ _.
          built spec.name (rx.build limits.size_limit spec.pattern))
  build_flat-IsBuilt spec f (inl l) = rw l (build_regex-IsBuilt spec _ f l refl)
  build_flat-IsBuilt spec f (inr l) = rw l (faulty (nested f l))

  build_rule-IsBuilt : (spec : RuleSpec) → IsBuilt spec (build_rule rx limits spec)
  unfolding build_rule
  build_rule-IsBuilt spec = go spec.fields refl
    where
      go :
          (fields : List FieldSelector)
          → spec.fields ≡ fields
          → IsBuilt spec (
              check_fields spec.name fields >>= λ _.
              map_err (λ _. nested_repetition spec.name) (check_nested_repetition spec.pattern)
              >>= λ _. built spec.name (rx.build limits.size_limit spec.pattern))
      go [] e = faulty (fieldless e)
      go (x ∷ xs) e =
          build_flat-IsBuilt spec (λ z. let g : x ∷ xs ≡ [] = sym e ∙ z in cc)
            (check_nested_repetition-Ended spec.pattern)

  -- Each regex is that of its rule's pattern.
  unfoldable pub BuiltFrom : List RuleSpec → List rx.Regex → Type 0
  BuiltFrom [] [] = Unit
  BuiltFrom [] (r ∷ rs) = ⊥
  BuiltFrom (spec ∷ specs) [] = ⊥
  BuiltFrom (spec ∷ specs) (r ∷ rs) =
      (rx.build limits.size_limit spec.pattern ≡ some r) × BuiltFrom specs rs

  -- The first faulty rule gives the error.
  pub record IsRejected (specs : List RuleSpec) (e : CompileError) : Type 0 where
    pub before : List RuleSpec
    pub spec : RuleSpec
    pub after : List RuleSpec
    pub found : specs ≡ before ++ spec ∷ after
    pub accepted_before : All IsAccepted before
    pub fault : IsFaulty spec e

  pub data AreBuilt (specs : List RuleSpec) : Run CompileError (List rx.Regex) → Type 0 where
    all_built :
        {regexes : List rx.Regex}
        → All IsAccepted specs
        → BuiltFrom specs regexes
        → AreBuilt specs (ok regexes)
    one_rejected : {e : CompileError} → IsRejected specs e → AreBuilt specs (err e)

  prepend :
      (spec : RuleSpec) (specs : List RuleSpec) (a : IsAccepted spec)
      (r : Run CompileError (List rx.Regex))
      → AreBuilt specs r
      → AreBuilt (spec ∷ specs) (r >>= λ regexes. ok (a.regex ∷ regexes))
  unfolding BuiltFrom
  prepend spec specs a _ (all_built others b) = all_built (a, others) (a.builds, b)
  prepend spec specs a _ (one_rejected j) = one_rejected (record {
    before = spec ∷ j.before;
    spec = j.spec;
    after = j.after;
    found = ap (λ t. spec ∷ t) j.found;
    accepted_before = (a, j.accepted_before);
    fault = j.fault;
  })

  pub build_rules-AreBuilt : (specs : List RuleSpec) → AreBuilt specs (build_rules rx limits specs)
  unfolding build_rules BuiltFrom
  build_rules-AreBuilt [] = all_built tt tt
  build_rules-AreBuilt (spec ∷ specs) = go _ (build_rule-IsBuilt spec) (build_rules-AreBuilt specs)
    where
      go :
          (r : Run CompileError rx.Regex)
          → IsBuilt spec r
          → AreBuilt specs (build_rules rx limits specs)
          → AreBuilt
              (spec ∷ specs)
              (r >>= λ regex. build_rules rx limits specs >>= λ regexes. ok (regex ∷ regexes))
      go _ (accepted a) h = prepend spec specs a _ h
      go _ (faulty f) h = one_rejected (record {
        before = [];
        spec = spec;
        after = specs;
        found = refl;
        accepted_before = tt;
        fault = f;
      })
