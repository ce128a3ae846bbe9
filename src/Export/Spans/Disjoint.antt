-- ===== src/Export/Spans/Disjoint.antt =====
-- The order of the spans of `effective_spans` in crates/archiv-export/src/lib.rs.
use archiv_agent.Base.{ℕ, ◌≤◌, arith, List, [], ◌∷◌, All, ltb}
use archiv_agent.Base.{Bool-cases, inl, inr}
use archiv_agent.Wire.{Range}
use archiv_agent.Envelope.{Redaction, StageRedaction, Envelope, select, redactions_for}
use archiv_agent.Export.Spans.{Span, spans_in, before, insert_span, sort_spans, resolve_overlaps}
use archiv_agent.Export.Spans.{effective_spans}

-- A span whose range is in order and ends inside the window.
abbrev pub FitsSpan : ℕ → Span → Type 0
FitsSpan limit (r, m) = (r.start ≤ r.end) × (r.end ≤ limit)

-- From the cursor on, each span begins where the one before has ended, or later.
abbrev pub Chain : ℕ → ℕ → List Span → Type 0
Chain cursor limit [] = Unit
Chain cursor limit ((r, m) ∷ spans) =
    (cursor ≤ r.start) × (r.start ≤ r.end) × (r.end ≤ limit) × Chain r.end limit spans

abbrev pub IsOrdered : Redaction → Type 0
IsOrdered r = r.target.start ≤ r.target.end

-- The spans that the stages pushed are ranges in order, as matches of a regex are.
abbrev pub AreOrdered : Envelope → Type 0
AreOrdered env =
    All (λ r. r.redaction.target.start ≤ r.redaction.target.end) env.decisions.redactions

select-IsOrdered :
    (idx : ℕ) (rs : List StageRedaction)
    → All (λ r. r.redaction.target.start ≤ r.redaction.target.end) rs
    → All IsOrdered (select idx rs)
select-IsOrdered idx [] h = tt
select-IsOrdered idx (r ∷ rs) h = ground (arith, select-IsOrdered idx rs h.1)

spans_in-fits :
    (window : Range) (rs : List Redaction)
    → All IsOrdered rs
    → All (FitsSpan window.end) (spans_in window rs)
spans_in-fits window [] h = tt
spans_in-fits window (r ∷ rs) h = ground (arith, spans_in-fits window rs h.1)

insert_span-fits :
    (limit : ℕ) (x : Span) (ys : List Span)
    → FitsSpan limit x
    → All (FitsSpan limit) ys
    → All (FitsSpan limit) (insert_span x ys)
unfolding insert_span
insert_span-fits limit x [] h k = (h, tt)
insert_span-fits limit x (y ∷ ys) h k = elim (Bool-cases (before x y)) [
  | inl e ↦ rw e (h, k)
  | inr e ↦ rw e (k.0, insert_span-fits limit x ys h k.1)
]

sort_spans-fits :
    (limit : ℕ) (xs : List Span) → All (FitsSpan limit) xs → All (FitsSpan limit) (sort_spans xs)
unfolding sort_spans
sort_spans-fits limit [] h = tt
sort_spans-fits limit (x ∷ xs) h =
    insert_span-fits limit x (sort_spans xs) h.0 (sort_spans-fits limit xs h.1)

resolve_overlaps-Chain :
    (cursor limit : ℕ) (xs : List Span)
    → All (FitsSpan limit) xs
    → Chain cursor limit (resolve_overlaps cursor xs)
unfolding resolve_overlaps
resolve_overlaps-Chain cursor limit [] h = tt
resolve_overlaps-Chain cursor limit ((r, m) ∷ xs) h = elim (Bool-cases (ltb r.start cursor)) [
  | inl e ↦ rw e (resolve_overlaps-Chain cursor limit xs h.1)
  | inr e ↦ rw e (ground arith, h.0.0, h.0.1, resolve_overlaps-Chain r.end limit xs h.1)
]

-- When every redaction is a range in order, the spans that take effect in a field start inside it,
-- follow one another without overlap, and end inside it.
pub effective_spans-Chain :
    (env : Envelope) (idx : ℕ) (window : Range)
    → AreOrdered env
    → Chain window.start window.end (effective_spans env idx window)
unfolding effective_spans redactions_for
effective_spans-Chain env idx window h = resolve_overlaps-Chain window.start window.end _ (
    sort_spans-fits window.end _
      (spans_in-fits window _ (select-IsOrdered idx env.decisions.redactions h)))
