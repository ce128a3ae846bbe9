-- ===== src/Redact/Stage.antt =====
-- The redaction stage of crates/archiv-redact/src/lib.rs against the laws of the guard and the
-- pipeline.
use archiv_agent.Base.{
  ℕ, ◌+◌, ◌≤◌, ◌≡◌, ◌∙◌, refl, sym, ap, arith, List, [], ◌∷◌, ◌++◌, Option, none, some, All,
  All-append, append-nil, append_assoc, get_elem?, Bool-cases, inl, inr,
}
use archiv_agent.Wire.{Bytes, Range, get_range}
use archiv_agent.Envelope.{
  MaskId, AttrView, RecordView, Decisions, Envelope, StageRedaction, push_redaction,
}
use archiv_agent.Envelope.Staging.{IsOf}
use archiv_agent.Guard.Bypass.{Added}
use archiv_agent.Pipeline.FailOpen.{IsGoverned, IsRedaction}
use archiv_agent.Redact.{
  RegexCrate, stage_redact_regex, CompiledRule, RedactEngine, applies, Progress, going, stopped,
}
use archiv_agent.Redact.{
  and_then, push_matches, run_rule, run_rules, redact_field, redact_body, redact_attr,
}
use archiv_agent.Redact.{redact_attrs, redact_records, close, redact_apply, redact_stage, shifted}

abbrev pub IsRange : Range → Type 0
IsRange m = m.start ≤ m.end

-- The matches that a regex finds are ranges, as the crate documents of `Match`.
abbrev pub FindsRanges : RegexCrate → Type 0
FindsRanges rx = (regex : rx.Regex) (text : Bytes) → All IsRange (rx.find_iter regex text)

abbrev IsOrderedOf : StageRedaction → Type 0
IsOrderedOf r = IsOf stage_redact_regex r × (r.redaction.target.start ≤ r.redaction.target.end)

-- `d'` is `d` with spans of this stage behind, each a range in order.
record Grown (d d' : Decisions) : Type 0 where
  pub sampling : d'.sampling ≡ d.sampling
  pub spans : List StageRedaction
  pub added : d'.redactions ≡ d.redactions ++ spans
  pub own : All IsOrderedOf spans

Grown-refl : (d : Decisions) → Grown d d
Grown-refl d = record {
  sampling = refl;
  spans = [];
  added = sym (append-nil d.redactions);
  own = tt;
}

Grown-trans : {a b c : Decisions} → Grown a b → Grown b c → Grown a c
Grown-trans {a} {b} {c} p q = record {
  sampling = q.sampling ∙ p.sampling;
  spans = p.spans ++ q.spans;
  added = q.added ∙ ap (λ t. t ++ q.spans) p.added ∙ append_assoc a.redactions p.spans q.spans;
  own = All-append _ p.spans q.spans p.own q.own;
}

module _ (rx : RegexCrate) (law : FindsRanges rx) where
  -- The decisions only grew, whether the loop goes on or was stopped.
  data Grows (d : Decisions) : Progress rx → Type 0 where
    grew : {counts : List ℕ} {d' : Decisions} → Grown d d' → Grows d (going counts d')
    grew_stopped : {counts : List ℕ} {d' : Decisions} → Grown d d' → Grows d (stopped counts d')

  Grows-from : {a b : Decisions} {p : Progress rx} → Grown a b → Grows b p → Grows a p
  Grows-from g (grew h) = grew (Grown-trans g h)
  Grows-from g (grew_stopped h) = grew_stopped (Grown-trans g h)

  and_then-Grows :
      (d : Decisions) (p : Progress rx) (f : List ℕ → Decisions → Progress rx)
      → Grows d p
      → ((counts : List ℕ) (d' : Decisions) → Grows d' (f counts d'))
      → Grows d (and_then rx p f)
  and_then-Grows d p f (grew h) k = Grows-from h (k _ _)
  and_then-Grows d p f (grew_stopped h) k = grew_stopped h

  push_matches-Grows :
      (base idx rule_idx : ℕ) (mask : MaskId) (ms : List Range) (counts : List ℕ) (d : Decisions)
      → All IsRange ms
      → Grows d (push_matches rx base idx rule_idx mask ms counts d)
  unfolding push_matches push_redaction
  push_matches-Grows base idx rule_idx mask [] counts d h = grew (Grown-refl d)
  push_matches-Grows base idx rule_idx mask (m ∷ ms) counts d h =
      Grows-from
        (record {
          sampling = refl;
          spans =
              record {
                stage = stage_redact_regex;
                record_idx = idx;
                redaction = record { target = shifted rx base m; mask = mask };
              }
              ∷ [];
          added = refl;
          own = ((refl, omega (arith, h.0)), tt);
        })
        (push_matches-Grows base idx rule_idx mask ms _ _ h.1)

  run_rule-Grows :
      (field : Bytes) (base idx : ℕ) (key : Option Bytes) (rule_idx : ℕ)
      (rule : Option (CompiledRule rx)) (counts : List ℕ) (d : Decisions)
      → Grows d (run_rule rx field base idx key rule_idx rule counts d)
  unfolding run_rule
  run_rule-Grows field base idx key rule_idx none counts d = grew_stopped (Grown-refl d)
  run_rule-Grows field base idx key rule_idx (some rule) counts d =
      elim (Bool-cases (applies rx rule key)) [
        | inl e ↦
            rw e (push_matches-Grows base idx rule_idx rule.mask _ counts d (law rule.regex field))
        | inr e ↦ rw e (grew (Grown-refl d))
      ]

  module _ (engine : RedactEngine rx) where
    run_rules-Grows :
        (field : Bytes) (base idx : ℕ) (key : Option Bytes) (rules : List ℕ) (counts : List ℕ)
        (d : Decisions)
        → Grows d (run_rules rx engine field base idx key rules counts d)
    unfolding run_rules
    run_rules-Grows field base idx key [] counts d = grew (Grown-refl d)
    run_rules-Grows field base idx key (i ∷ rules) counts d =
        and_then-Grows d _ _
          (run_rule-Grows field base idx key i (get_elem? engine.rules i) counts d)
          (run_rules-Grows field base idx key rules)

    redact_field-Grows :
        (field : Bytes) (base idx : ℕ) (key : Option Bytes) (counts : List ℕ) (d : Decisions)
        → Grows d (redact_field rx engine field base idx key counts d)
    unfolding redact_field
    redact_field-Grows [] base idx key counts d = grew (Grown-refl d)
    redact_field-Grows (b ∷ field) base idx key counts d =
        run_rules-Grows (b ∷ field) base idx key _ counts d

    redact_body-Grows :
        (field : Option Bytes) (base idx : ℕ) (counts : List ℕ) (d : Decisions)
        → Grows d (redact_body rx engine field base idx counts d)
    redact_body-Grows none base idx counts d = grew (Grown-refl d)
    redact_body-Grows (some field) base idx counts d =
        redact_field-Grows field base idx none counts d

    redact_attr-Grows :
        (key val : Option Bytes) (base idx : ℕ) (counts : List ℕ) (d : Decisions)
        → Grows d (redact_attr rx engine key val base idx counts d)
    redact_attr-Grows (some key) (some val) base idx counts d =
        redact_field-Grows val base idx (some key) counts d
    redact_attr-Grows (some key) none base idx counts d = grew (Grown-refl d)
    redact_attr-Grows none val base idx counts d = grew (Grown-refl d)

    redact_attrs-Grows :
        (raw : Bytes) (idx : ℕ) (as_ : List AttrView) (counts : List ℕ) (d : Decisions)
        → Grows d (redact_attrs rx engine raw idx as_ counts d)
    unfolding redact_attrs
    redact_attrs-Grows raw idx [] counts d = grew (Grown-refl d)
    redact_attrs-Grows raw idx (a ∷ rest) counts d =
        and_then-Grows d _ _
          (redact_attr-Grows (get_range raw a.key) (get_range raw a.value) a.value.start idx counts
            d)
          (redact_attrs-Grows raw idx rest)

    redact_records-Grows :
        (raw : Bytes) (idx : ℕ) (recs : List RecordView) (counts : List ℕ) (d : Decisions)
        → Grows d (redact_records rx engine raw idx recs counts d)
    unfolding redact_records
    redact_records-Grows raw idx [] counts d = grew (Grown-refl d)
    redact_records-Grows raw idx (rec ∷ recs) counts d =
        and_then-Grows d _ _
          (redact_body-Grows (get_range raw rec.body) rec.body.start idx counts d)
          λ counts1 d1.
            and_then-Grows d1 _ _ (redact_attrs-Grows raw idx rec.attrs counts1 d1)
              (redact_records-Grows raw (idx + 1) recs)

    own_spans : (rs : List StageRedaction) → All IsOrderedOf rs → All (IsOf stage_redact_regex) rs
    own_spans [] h = tt
    own_spans (r ∷ rs) h = (h.0.0, own_spans rs h.1)

    close-Added :
        (env : Envelope) {p : Progress rx}
        → Grows env.decisions p
        → Added stage_redact_regex env (close rx engine env p).1 (close rx engine env p).2
    close-Added env (grew g) = record {
      raw = refl;
      records = λ _. refl;
      sampling = g.sampling;
      spans = g.spans;
      added = g.added;
      own = own_spans g.spans g.own;
    }
    close-Added env (grew_stopped g) = record {
      raw = refl;
      records = λ _. refl;
      sampling = g.sampling;
      spans = g.spans;
      added = g.added;
      own = own_spans g.spans g.own;
    }

    -- With a regex crate whose matches are ranges, `apply` only adds spans of its own, also when an
    -- index is out of range half way, and changes nothing else in the envelope.
    pub redact_apply-Added :
        (counts : List ℕ) (env : Envelope)
        → let (_, env', e) = redact_apply rx engine counts env in
          Added stage_redact_regex env env' e
    unfolding redact_apply
    redact_apply-Added counts env =
        close-Added env (redact_records-Grows env.raw 0 env.records counts env.decisions)

    ordered_spans :
        (rs : List StageRedaction)
        → All IsOrderedOf rs
        → All (λ r. r.redaction.target.start ≤ r.redaction.target.end) rs
    ordered_spans [] h = tt
    ordered_spans (r ∷ rs) h = (h.0.1, ordered_spans rs h.1)

    Grown-IsGoverned :
        (raw : Bytes) (env : Envelope) {d : Decisions}
        → Grown env.decisions d
        → IsGoverned raw env
        → IsGoverned raw (record env { decisions = d })
    Grown-IsGoverned raw env g h = record {
      same_raw = h.same_raw;
      ordered =
          rw g.added
            (All-append _ env.decisions.redactions g.spans h.ordered (ordered_spans g.spans g.own));
    }

    close-IsGoverned :
        (raw : Bytes) (env : Envelope) {p : Progress rx}
        → Grows env.decisions p
        → IsGoverned raw env
        → IsGoverned raw (close rx engine env p).1
    close-IsGoverned raw env (grew g) h = Grown-IsGoverned raw env g h
    close-IsGoverned raw env (grew_stopped g) h = Grown-IsGoverned raw env g h

    redact_records_none :
        (raw : Bytes) (recs : List RecordView) (counts : List ℕ) (d : Decisions)
        → recs ≡ []
        → redact_records rx engine raw 0 recs counts d ≡ going counts d
    unfolding redact_records
    redact_records_none raw [] counts d e = refl
    redact_records_none raw (r ∷ recs) counts d e = absurd cc

    -- The laws that the pipeline relies on.
    pub redact_stage-IsRedaction : IsRedaction (redact_stage rx engine)
    unfolding redact_apply
    redact_stage-IsRedaction = record {
      governed = λ counts raw env h.
          close-IsGoverned raw env (redact_records-Grows env.raw 0 env.records counts env.decisions)
            h;
      idle = λ counts env h.
          rw (redact_records_none env.raw env.records counts env.decisions h.no_records) h;
    }
