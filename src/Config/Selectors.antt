-- ===== src/Config/Selectors.antt =====
-- The selectors that crates/archiv-config/src/lib.rs accepts.
use archiv_agent.Base.{
  ℕ, ◌≡◌, ◌≢◌, ◌∙◌, refl, sym, arith, List, [], ◌∷◌, ◌++◌, All, Option, none, some, ==_self,
  bytes_eq, bytes_eq_iff, Bool-cases, inl, inr, codes, ok, bind-ok,
}
use archiv_agent.Wire.{Bytes}
use archiv_agent.Redact.{FieldSelector, body, attrs, strip_prefix, non_empty_attrs}
use archiv_agent.Config.{RegexRuleConfig, selected, parse_fields, parse_some, parse_selectors}

-- The selectors: `body`, and `attributes.` with a pattern behind it.
pub data IsSelector (f : Bytes) : Type 0 where
  body_selector : f ≡ codes "body" → IsSelector f
  attrs_selector : (c : ℕ) (glob : Bytes) → f ≡ codes "attributes." ++ c ∷ glob → IsSelector f

strip_prefix-some : (pre s rest : Bytes) → strip_prefix pre s ≡ some rest → s ≡ pre ++ rest
unfolding strip_prefix
strip_prefix-some [] s rest e = let h : s ≡ rest = cc in h
strip_prefix-some (p ∷ pre) [] rest e = absurd cc
strip_prefix-some (p ∷ pre) (c ∷ s) rest e = ground (arith, e, strip_prefix-some pre s rest)

strip_prefix-append : (pre rest : Bytes) → strip_prefix pre (pre ++ rest) ≡ some rest
unfolding strip_prefix
strip_prefix-append [] rest = refl
strip_prefix-append (p ∷ pre) rest = rw (==_self p, strip_prefix-append pre rest) refl

no_option : {A : Type 0} (a : A) → none ≢ some a
no_option a e = cc

non_empty_attrs-some :
    (f : Bytes) (o : Option Bytes) (sel : FieldSelector)
    → strip_prefix (codes "attributes.") f ≡ o
    → non_empty_attrs o ≡ some sel
    → IsSelector f
non_empty_attrs-some f none sel e h = absurd (no_option sel h)
non_empty_attrs-some f (some []) sel e h = absurd (no_option sel h)
non_empty_attrs-some f (some (c ∷ glob)) sel e h =
    attrs_selector c glob (strip_prefix-some (codes "attributes.") f (c ∷ glob) e)

parse-IsSelector :
    (f : Bytes) (sel : FieldSelector) → archiv_agent.Redact.parse f ≡ some sel → IsSelector f
unfolding archiv_agent.Redact.parse
parse-IsSelector f sel e = elim (Bool-cases (bytes_eq f (codes "body"))) [
  | inl same ↦ body_selector ((bytes_eq_iff f (codes "body")).0 same)
  | inr other ↦ non_empty_attrs-some f _ sel refl (rw other at e)
]

IsSelector-parse :
    (f : Bytes) → IsSelector f → (sel : FieldSelector) × (archiv_agent.Redact.parse f ≡ some sel)
unfolding archiv_agent.Redact.parse
IsSelector-parse f (body_selector e) = (body, rw ((bytes_eq_iff f (codes "body")).1 e) refl)
IsSelector-parse f (attrs_selector c glob e) =
    (attrs (c ∷ glob), rw (e, strip_prefix-append (codes "attributes.") (c ∷ glob)) refl)

parse_fields-All :
    (name : Bytes) (fields : List Bytes) (out : List FieldSelector)
    → parse_fields name fields ≡ ok out
    → All IsSelector fields
unfolding parse_fields
parse_fields-All name [] out e = tt
parse_fields-All name (f ∷ fields) out e =
    let (sel, g, h) = bind-ok _ _ _ e in
    let (rest, k, _) = bind-ok _ _ _ h in
    (head (archiv_agent.Redact.parse f) sel refl g, parse_fields-All name fields rest k)
  where
    head :
        (o : Option FieldSelector) (sel : FieldSelector)
        → archiv_agent.Redact.parse f ≡ o
        → selected name f o ≡ ok sel
        → IsSelector f
    head none sel e g = absurd cc
    head (some sel') sel e g = parse-IsSelector f sel' e

All-parse_fields :
    (name : Bytes) (fields : List Bytes)
    → All IsSelector fields
    → (out : List FieldSelector) × (parse_fields name fields ≡ ok out)
unfolding parse_fields
All-parse_fields name [] h = ([], refl)
All-parse_fields name (f ∷ fields) (s, h) =
    let (sel, e) = IsSelector-parse f s in
    let (out, g) = All-parse_fields name fields h in (sel ∷ out, rw (e, g) refl)

-- A rule that has fields, each of them a selector.
pub record IsSelective (rule : RegexRuleConfig) : Type 0 where
  pub some_fields : rule.fields ≢ []
  pub selectors : All IsSelector rule.fields

pub parse_selectors-IsSelective :
    (rule : RegexRuleConfig) (out : List FieldSelector)
    → parse_selectors rule ≡ ok out
    → IsSelective rule
unfolding parse_selectors parse_some
parse_selectors-IsSelective rule out e = go rule.fields refl e
  where
    go :
        (fields : List Bytes)
        → rule.fields ≡ fields
        → parse_some rule.name fields ≡ ok out
        → IsSelective rule
    go [] f e = absurd cc
    go (x ∷ xs) f e = record {
      some_fields = λ z. let g : x ∷ xs ≡ [] = sym f ∙ z in cc;
      selectors = rw f (parse_fields-All rule.name (x ∷ xs) out e);
    }

pub IsSelective-parse_selectors :
    (rule : RegexRuleConfig)
    → IsSelective rule
    → (out : List FieldSelector) × (parse_selectors rule ≡ ok out)
unfolding parse_selectors parse_some
IsSelective-parse_selectors rule h = go rule.fields refl h.selectors
  where
    go :
        (fields : List Bytes)
        → rule.fields ≡ fields
        → All IsSelector fields
        → (out : List FieldSelector) × (parse_some rule.name fields ≡ ok out)
    go [] f a = absurd (h.some_fields f)
    go (x ∷ xs) f a = All-parse_fields rule.name (x ∷ xs) a
