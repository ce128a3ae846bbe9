-- ===== src/Export/Spans.antt =====
-- The redaction spans that take effect in one string field.
pub mod Disjoint
use archiv_agent.Base.{ℕ, List, [], ◌∷◌, map, Bool, leb, ltb, ◌==◌, if◌then◌else◌, ◌&&◌, ◌||◌}
use archiv_agent.Wire.{Range}
use archiv_agent.Envelope.{MaskId, Redaction, Envelope, redactions_for}

abbrev pub Span : Type 0
Span = Range × MaskId

-- `r.target.start >= window.start && r.target.end <= window.end`
abbrev pub spans_in : Range → List Redaction → List Span
spans_in window [] = []
spans_in window (r ∷ rs) =
    if leb window.start r.target.start && leb r.target.end window.end
    then (r.target, r.mask) ∷ spans_in window rs
    else spans_in window rs

-- `sort_by_key(|(r, _)| (r.start, r.end))`, a stable sort.
abbrev pub before : Span → Span → Bool
before (a, _) (b, _) = ltb a.start b.start || a.start == b.start && leb a.end b.end

unfoldable pub insert_span : Span → List Span → List Span
insert_span x [] = x ∷ []
insert_span x (y ∷ ys) = if before x y then x ∷ y ∷ ys else y ∷ insert_span x ys

unfoldable pub sort_spans : List Span → List Span
sort_spans [] = []
sort_spans (x ∷ xs) = insert_span x (sort_spans xs)

-- The loop: a span that starts before the cursor overlaps an earlier one.
unfoldable pub resolve_overlaps : ℕ → List Span → List Span
resolve_overlaps cursor [] = []
resolve_overlaps cursor ((r, m) ∷ spans) =
    let skipped = resolve_overlaps cursor spans in
    let taken = (r, m) ∷ resolve_overlaps r.end spans in
    if ltb r.start cursor then skipped else taken

unfoldable pub effective_spans : Envelope → ℕ → Range → List Span
effective_spans env idx window =
    resolve_overlaps window.start (sort_spans (spans_in window (redactions_for env.decisions idx)))
