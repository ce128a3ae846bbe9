-- ===== src/Ingest/Bounds/Fields.antt =====
-- Views of a buffer, and the leaves of the walk: values, key-values, resource attributes.
use archiv_agent.Base.{codes, ℕ, ◌≤◌, refl, arith, Option, none, some}
use archiv_agent.Base.{◌==◌, ◌&&◌, length, All, Run, ◌>>=◌}
use archiv_agent.Base.{Safe, safe_ok, Safe-bind, Safe-if, bytes_eq, Bool-cases, inl, inr}
use archiv_agent.Wire.{Bytes, Range, get_range, ParseError, WireCursor, new, len_range}
use archiv_agent.Wire.Safety.{IsInside, Moved, At, Onward, Kept, kept_next, kept_stop, Delimited}
use archiv_agent.Wire.Safety.{skip-Safe, len_range-Safe, walk-Safe}
use archiv_agent.Envelope.{AttrView, RecordView}
use archiv_agent.Ingest.{same, skip_field, any_value_field, any_value_string, KeyValue, attr_of}
use archiv_agent.Ingest.{key_value_field, parse_key_value, ResourceAttrs, note_attr, no_attrs}
use archiv_agent.Ingest.{match_key, resource_field, parse_resource_attrs}

-- A range in order, inside a buffer of `n` bytes.
abbrev pub IsView : ℕ → Range → Type 0
IsView n r = (r.start ≤ r.end) × (r.end ≤ n)

abbrev pub IsOptView : ℕ → Option Range → Type 0
IsOptView n none = Unit
IsOptView n (some r) = IsView n r

abbrev pub IsAttrView : ℕ → AttrView → Type 0
IsAttrView n a = IsView n a.key × IsView n a.value

abbrev pub IsOptAttr : ℕ → Option AttrView → Type 0
IsOptAttr n none = Unit
IsOptAttr n (some a) = IsAttrView n a

abbrev pub IsResource : ℕ → ResourceAttrs → Type 0
IsResource n r = IsOptView n r.namespace × IsOptView n r.service_name

-- Every range of a record view lies in the buffer.
pub record IsRecordView (n : ℕ) (r : RecordView) : Type 0 where
  pub body : IsView n r.body
  pub trace_id : IsOptView n r.trace_id
  pub attrs : All (IsAttrView n) r.attrs
  pub namespace : IsOptView n r.namespace
  pub service_name : IsOptView n r.service_name

pub Moved-Onward : {c c' : WireCursor} → Moved c c' → Onward c c'
Moved-Onward m = ground arith

pub At-IsInside :
    {buf : Bytes} {limit : ℕ} {c : WireCursor} → At buf limit c → limit ≤ length buf → IsInside c
At-IsInside a h = ground arith

-- Every walk starts at its window.
pub new-At : (buf : Bytes) (window : Range) → At buf window.end (new buf window)
unfolding new
new-At buf window = record { same_buf = refl; same_end = refl }

module _ {S A : Type 0} (I : S → Type 0) (P : A → Type 0) (c : WireCursor) where
  pub skip_field-Safe :
      (s : S) (wire : ℕ) → IsInside c → I s → Safe (Kept I P c) (skip_field s wire c)
  skip_field-Safe s wire h i =
      Safe-bind _ _ (skip-Safe wire c h) λ c' m. safe_ok (kept_next i (Moved-Onward m))

-- A delimited field is a view of the buffer, and the loop goes on behind it.
pub Delimited-IsView :
    {buf : Bytes} {limit : ℕ} {c c' : WireCursor} {r : Range}
    → At buf limit c
    → limit ≤ length buf
    → Delimited c r c'
    → IsView (length buf) r × Onward c c'
Delimited-IsView a h d = ground arith

-- What follows a `len_range` may assume a view of the buffer, and a cursor behind it.
pub delimited-Safe :
    {B : Type 0} (Q : B → Type 0) {buf : Bytes} {limit : ℕ} (c : WireCursor)
    → At buf limit c
    → limit ≤ length buf
    → (f : Range × WireCursor → Run ParseError B)
    → ((r : Range) (c' : WireCursor) → IsView (length buf) r → Onward c c' → Safe Q (f (r, c')))
    → Safe Q (len_range c >>= f)
delimited-Safe Q c a h f k =
    Safe-bind Q f (len_range-Safe c (At-IsInside a h))
      λ (r, c') d. k r c' (Delimited-IsView a h d).0 (Delimited-IsView a h d).1

IsOptAttr-attr_of :
    (n : ℕ) (kv : KeyValue) → IsOptView n kv.0 × IsOptView n kv.1 → IsOptAttr n (attr_of kv)
IsOptAttr-attr_of n (some k, some v) h = h
IsOptAttr-attr_of n (some k, none) h = tt
IsOptAttr-attr_of n (none, v) h = tt

IsResource-note_attr :
    (buf : Bytes) (a : Option AttrView) (r : ResourceAttrs)
    → IsOptAttr (length buf) a
    → IsResource (length buf) r
    → IsResource (length buf) (note_attr buf a r)
IsResource-note_attr buf none r h i = i
IsResource-note_attr buf (some a) r h i = go (get_range buf a.key)
  where
    go : (k : Option Bytes) → IsResource (length buf) (match_key k a r)
    go none = i
    go (some k) = elim (Bool-cases (bytes_eq k (codes "k8s.namespace.name"))) [
      | inl e ↦ rw e (h.1, i.1)
      | inr e ↦ elim (Bool-cases (bytes_eq k (codes "service.name"))) [
        | inl e' ↦ rw (e, e') (i.0, h.1)
        | inr e' ↦ rw (e, e') i
      ]
    ]

module _ (buf : Bytes) (window : Range) (h : IsView (length buf) window) where
  -- An `AnyValue` ends in a view of its string, or in none, or in an error.
  pub any_value_string-Safe : Safe (IsOptView (length buf)) (any_value_string buf window)
  unfolding any_value_string
  any_value_string-Safe =
      walk-Safe same (λ _. Unit {0}) (IsOptView (length buf)) buf window.end h.1 any_value_field
        (λ _. none) tt (new buf window) (λ _ _. tt)
        (λ s start field wire c i a _.
          Safe-if _ (field == 1 && wire == 2)
            (λ _. delimited-Safe _ c a h.1 _ λ r c' v o. safe_ok (kept_stop v))
            (λ _. skip_field-Safe _ _ c s wire (At-IsInside a h.1) tt))
        (new-At buf window) tt

module _ (buf : Bytes) (window : Range) (h : IsView (length buf) window) where
  pub parse_key_value-Safe : Safe (IsOptAttr (length buf)) (parse_key_value buf window)
  unfolding parse_key_value
  parse_key_value-Safe =
      walk-Safe same (λ kv. IsOptView (length buf) kv.0 × IsOptView (length buf) kv.1)
        (IsOptAttr (length buf)) buf window.end h.1 (key_value_field buf) attr_of (none, none)
        (new buf window) (IsOptAttr-attr_of (length buf))
        (λ (key, value) start field wire c i a _.
          Safe-if _ (field == 1 && wire == 2)
            (λ _. delimited-Safe _ c a h.1 _ λ r c' v o. safe_ok (kept_next (v, i.1) o))
            λ _.
              Safe-if _ (field == 2 && wire == 2)
                (λ _. delimited-Safe _ c a h.1 _ λ r c' v o.
                  Safe-bind _ _ (any_value_string-Safe buf r v)
                    λ s w. safe_ok (kept_next (i.0, w) o))
                (λ _. skip_field-Safe _ _ c (key, value) wire (At-IsInside a h.1) i))
        (new-At buf window) (tt, tt)

module _ (buf : Bytes) (window : Range) (h : IsView (length buf) window) where
  pub parse_resource_attrs-Safe : Safe (IsResource (length buf)) (parse_resource_attrs buf window)
  unfolding parse_resource_attrs
  parse_resource_attrs-Safe =
      walk-Safe same (IsResource (length buf)) (IsResource (length buf)) buf window.end h.1
        (resource_field buf) (λ r. r) no_attrs (new buf window) (λ _ i. i)
        (λ r start field wire c i a _.
          Safe-if _ (field == 1 && wire == 2)
            (λ _. delimited-Safe _ c a h.1 _ λ kv c' v o.
              Safe-bind _ _ (parse_key_value-Safe buf kv v)
                λ attr w. safe_ok (kept_next (IsResource-note_attr buf attr r w i) o))
            (λ _. skip_field-Safe _ _ c r wire (At-IsInside a h.1) i))
        (new-At buf window) (tt, tt)
