-- ===== src/Redact.antt =====
-- The regex redaction of crates/archiv-redact/src/lib.rs: selectors, compiled rules, and the stage. The
-- regex crate is a parameter. Strings are their bytes; a counter is an `AtomicU64`.
pub mod Stage
pub mod Masks
pub mod Lint
pub mod Compile
use archiv_agent.Base.{
  ℕ, zero, suc, ◌+◌, ◌-◌, ◌%◌, ◌^◌, List, [], ◌∷◌, ◌++◌, map, Option, none, some, Bool, true, false,
  ◌||◌,
}
use archiv_agent.Base.{if◌then◌else◌, length, get_elem?, codes, bytes_eq, ◌==◌}
use archiv_agent.Wire.{Bytes, Range, get_range}
use archiv_agent.Envelope.{
  MaskId, Redaction, AttrView, RecordView, Decisions, Envelope, StageId, push_redaction,
}
use archiv_agent.Glob.{matches}
use archiv_agent.Guard.{Ending, finished, panicked}

-- `regex::bytes`: the matches of a regex in a text, and the rules of a set that match it; building a
-- regex, and a set, with a size limit.
pub record RegexCrate : Type 1 where
  pub Regex : Type 0
  pub RegexSet : Type 0
  pub find_iter : Regex → Bytes → List Range
  pub matching : RegexSet → Bytes → List ℕ
  pub build : ℕ → Bytes → Option Regex
  pub build_set : ℕ → List Bytes → Option RegexSet

abbrev pub stage_redact_regex : StageId
stage_redact_regex = "redact-regex"

pub data FieldSelector : Type 0 where
  body : FieldSelector
  attrs : Bytes → FieldSelector

-- `strip_prefix`
unfoldable pub strip_prefix : Bytes → Bytes → Option Bytes
strip_prefix [] s = some s
strip_prefix (p ∷ ps) [] = none
strip_prefix (p ∷ ps) (c ∷ s) = let rest = strip_prefix ps s in if p == c then rest else none

-- `.filter(|glob| !glob.is_empty()).map(Self::Attrs)`
abbrev pub non_empty_attrs : Option Bytes → Option FieldSelector
non_empty_attrs none = none
non_empty_attrs (some []) = none
non_empty_attrs (some (b ∷ glob)) = some (attrs (b ∷ glob))

unfoldable pub parse : Bytes → Option FieldSelector
parse s =
    if bytes_eq s (codes "body")
    then some body
    else non_empty_attrs (strip_prefix (codes "attributes.") s)

abbrev pub one_on : Option ℕ → Option ℕ
one_on none = none
one_on (some i) = some (i + 1)

-- `masks.iter().position(|m| *m == spec.mask)`
unfoldable pub position : Bytes → List Bytes → Option ℕ
position mask [] = none
position mask (m ∷ masks) =
    let later = position mask masks in if bytes_eq m mask then some 0 else one_on later

-- The id of a mask, and the table with it.
abbrev pub intern_at : Bytes → List Bytes → Option ℕ → MaskId × List Bytes
intern_at mask masks (some i) = (i % 2 ^ 32, masks)
intern_at mask masks none = (length masks % 2 ^ 32, masks ++ mask ∷ [])

unfoldable pub intern_mask : Bytes → List Bytes → MaskId × List Bytes
unfolding position
intern_mask mask masks = intern_at mask masks (position mask masks)

-- The ids that the last loop of `compile` gives to the masks of the rules, and the table.
unfoldable pub intern_masks : List Bytes → List Bytes → List MaskId × List Bytes
unfolding intern_mask
intern_masks [] table = ([], table)
intern_masks (mask ∷ masks) table =
    let (id, table1) = intern_mask mask table in
    let (ids, table2) = intern_masks masks table1 in (id ∷ ids, table2)

module _ (rx : RegexCrate) where
  pub record CompiledRule : Type 0 where
    pub name : Bytes
    pub regex : rx.Regex
    pub mask : MaskId
    pub fields : List FieldSelector

  pub record RedactEngine : Type 0 where
    pub prefilter : rx.RegexSet
    pub rules : List CompiledRule
    pub masks : List Bytes

  abbrev pub has_body : List FieldSelector → Bool
  has_body [] = false
  has_body (body ∷ fields) = true
  has_body (attrs _ ∷ fields) = has_body fields

  abbrev pub has_attr : Bytes → List FieldSelector → Bool
  has_attr key [] = false
  has_attr key (body ∷ fields) = has_attr key fields
  has_attr key (attrs glob ∷ fields) = matches glob key || has_attr key fields

  -- `applies_to_body` for the body, `applies_to_attr` for a value under a key.
  unfoldable pub applies : CompiledRule → Option Bytes → Bool
  applies rule none = has_body rule.fields
  applies rule (some key) = has_attr key rule.fields

  -- The counters and the decisions, as the loops leave them: they go on, or an index was out of range.
  pub data Progress : Type 0 where
    going : List ℕ → Decisions → Progress
    stopped : List ℕ → Decisions → Progress

  abbrev pub and_then : Progress → (List ℕ → Decisions → Progress) → Progress
  and_then (going counts d) f = f counts d
  and_then (stopped counts d) f = stopped counts d

  -- `fetch_add(1)` on one counter.
  unfoldable pub bump : ℕ → List ℕ → List ℕ
  bump i [] = []
  bump zero (c ∷ counts) = (c + 1) % 2 ^ 64 ∷ counts
  bump (suc i) (c ∷ counts) = c ∷ bump i counts

  abbrev pub shifted : ℕ → Range → Range
  shifted base m = record { start = base + m.start; end = base + m.end }

  -- The loop over the matches of one rule.
  unfoldable pub push_matches : ℕ → ℕ → ℕ → MaskId → List Range → List ℕ → Decisions → Progress
  push_matches base idx rule_idx mask [] counts d = going counts d
  push_matches base idx rule_idx mask (m ∷ ms) counts d =
      push_matches base idx rule_idx mask ms (bump rule_idx counts)
        (push_redaction stage_redact_regex idx (record { target = shifted base m; mask = mask }) d)

  -- What one rule that the prefilter names does; `self.engine.rules[rule_idx]` may be out of range.
  unfoldable pub run_rule :
      Bytes → ℕ → ℕ → Option Bytes → ℕ → Option CompiledRule → List ℕ → Decisions → Progress
  run_rule field base idx key rule_idx none counts d = stopped counts d
  run_rule field base idx key rule_idx (some rule) counts d =
      if applies rule key
      then push_matches base idx rule_idx rule.mask (rx.find_iter rule.regex field) counts d
      else going counts d

  module _ (engine : RedactEngine) where
    unfoldable pub run_rules : Bytes → ℕ → ℕ → Option Bytes → List ℕ → List ℕ → Decisions → Progress
    run_rules field base idx key [] counts d = going counts d
    run_rules field base idx key (i ∷ is) counts d =
        and_then (run_rule field base idx key i (get_elem? engine.rules i) counts d)
          (run_rules field base idx key is)

    unfoldable pub redact_field : Bytes → ℕ → ℕ → Option Bytes → List ℕ → Decisions → Progress
    redact_field [] base idx key counts d = going counts d
    redact_field (b ∷ field) base idx key counts d =
        run_rules (b ∷ field) base idx key (rx.matching engine.prefilter (b ∷ field)) counts d

    abbrev pub redact_body : Option Bytes → ℕ → ℕ → List ℕ → Decisions → Progress
    redact_body none base idx counts d = going counts d
    redact_body (some field) base idx counts d = redact_field field base idx none counts d

    -- One attribute, whose key and value are read by `raw.get`.
    abbrev pub redact_attr : Option Bytes → Option Bytes → ℕ → ℕ → List ℕ → Decisions → Progress
    redact_attr (some key) (some val) base idx counts d =
        redact_field val base idx (some key) counts d
    redact_attr _ _ base idx counts d = going counts d

    unfoldable pub redact_attrs : Bytes → ℕ → List AttrView → List ℕ → Decisions → Progress
    redact_attrs raw idx [] counts d = going counts d
    redact_attrs raw idx (a ∷ rest) counts d =
        and_then
          (redact_attr (get_range raw a.key) (get_range raw a.value) a.value.start idx counts d)
          (redact_attrs raw idx rest)

    unfoldable pub redact_records : Bytes → ℕ → List RecordView → List ℕ → Decisions → Progress
    redact_records raw idx [] counts d = going counts d
    redact_records raw idx (rec ∷ recs) counts d =
        and_then (redact_body (get_range raw rec.body) rec.body.start idx counts d) λ counts1 d1.
          and_then (redact_attrs raw idx rec.attrs counts1 d1) (redact_records raw (idx + 1) recs)

    abbrev pub close : Envelope → Progress → List ℕ × Envelope × Ending
    close env (going counts d) = (counts, record env { decisions = d }, finished)
    close env (stopped counts d) = (counts, record env { decisions = d }, panicked)

    unfoldable pub redact_apply : List ℕ → Envelope → List ℕ × Envelope × Ending
    redact_apply counts env = close env (redact_records env.raw 0 env.records counts env.decisions)

    abbrev pub redact_stage : archiv_agent.Guard.Stage (List ℕ)
    redact_stage = record { id = stage_redact_regex; apply = redact_apply }
