-- ===== src/Export/Build/Masked.antt =====
-- A string field as bytes: `build_scalar` of crates/archiv-export/src/lib.rs, and its masked text.
use archiv_agent.Base.{
  ℕ, ◌≤◌, ◌≡◌, ◌∙◌, refl, sym, ap, arith, List, [], ◌∷◌, ◌++◌, append_assoc, append-nil,
}
use archiv_agent.Base.{length, Option, none, some, ltb, Bool-cases, inl, inr}
use archiv_agent.Base.{Safe, safe_ok, Run, ok, err, ◌>>=◌, All, ◌≢◌}
use archiv_agent.Wire.{Bytes, Range, slice}
use archiv_agent.Envelope.{MaskId, Envelope}
use archiv_agent.Export.Segment.{
  MaskTable, bytes, Part, raw, mask, Seg, scalar, AssembleError, unknown_mask,
}
use archiv_agent.Export.Spans.{Span, effective_spans}
use archiv_agent.Export.Spans.Disjoint.{Chain, AreOrdered, effective_spans-Chain}
use archiv_agent.Export.Build.{
  Splice, raw_up_to, push_mask, known_mask, splice_loop, splice_spans, build_scalar,
}
use archiv_agent.Export.Build.Wellformed.{Spliced, splice_loop-Spliced, raw_up_to-Spliced}
use archiv_agent.Export.Emit.Rendered.{or_empty, header, render_parts, parts_len, render_seg, done}
use archiv_agent.Export.Emit.Written.{slice-empty}
use archiv_agent.Export.Emit.Sizes.{length-render_parts}

module _ (buf : Bytes) (masks : MaskTable) where
  -- The bytes from `cursor` to `limit` with each span replaced by its mask.
  unfoldable pub masked_text : ℕ → ℕ → List Span → Bytes
  masked_text cursor limit [] = slice buf (record { start = cursor; end = limit })
  masked_text cursor limit ((r, m) ∷ spans) =
      slice buf (record { start = cursor; end = r.start })
      ++ or_empty (bytes masks m)
      ++ masked_text r.end limit spans

  render_parts-append :
      (ps qs : List Part)
      → render_parts buf masks (ps ++ qs) ≡ render_parts buf masks ps ++ render_parts buf masks qs
  unfolding render_parts
  render_parts-append [] qs = refl
  render_parts-append (raw r ∷ ps) qs =
      ap (λ t. slice buf r ++ t) (render_parts-append ps qs) ∙ sym (append_assoc (slice buf r) _ _)
  render_parts-append (mask m ∷ ps) qs =
      ap (λ t. or_empty (bytes masks m) ++ t) (render_parts-append ps qs)
      ∙ sym (append_assoc (or_empty (bytes masks m)) _ _)

  rendered : Splice → Bytes
  rendered s = render_parts buf masks s.parts

  raw_up_to-rendered :
      (to : ℕ) (s : Splice)
      → rendered (raw_up_to to s) ≡ rendered s ++ slice buf (record { start = s.cursor; end = to })
  unfolding rendered render_parts
  raw_up_to-rendered to s =
      let r : Range = record { start = s.cursor; end = to } in
      elim (Bool-cases (ltb s.cursor to)) [
        | inl e ↦ rw (e, render_parts-append s.parts (raw r ∷ []), append-nil (slice buf r)) refl
        | inr e ↦
            rw (e, slice-empty buf r (ground arith), append-nil (render_parts buf masks s.parts))
              refl
      ]

  push_mask-rendered :
      (m : MaskId) (b : Bytes) (end : ℕ) (s : Splice)
      → bytes masks m ≡ some b
      → rendered (push_mask m b end s) ≡ rendered s ++ or_empty (bytes masks m)
  unfolding rendered render_parts
  push_mask-rendered m b end s e =
      rw (render_parts-append s.parts (mask m ∷ []), append-nil (or_empty (bytes masks m))) refl

  -- One round of the splice, with the rest of the field behind it.
  splice_step-rendered :
      (r : Range) (m : MaskId) (b : Bytes) (s : Splice) (rest : Bytes)
      → bytes masks m ≡ some b
      → rendered (push_mask m b r.end (raw_up_to r.start s)) ++ rest
        ≡ rendered s
          ++ (slice buf (record { start = s.cursor; end = r.start })
              ++ or_empty (bytes masks m)
              ++ rest)
  splice_step-rendered r m b s rest e =
      let gap = slice buf (record { start = s.cursor; end = r.start }) in
      ap (λ t. t ++ rest)
        (push_mask-rendered m b r.end (raw_up_to r.start s) e
          ∙ ap (λ t. t ++ or_empty (bytes masks m)) (raw_up_to-rendered r.start s)
          ∙ append_assoc (rendered s) gap _)
      ∙ append_assoc (rendered s) (gap ++ or_empty (bytes masks m)) rest

  -- Each span's mask is in the table.
  abbrev pub IsKnown : Span → Type 0
  IsKnown (r, m) = (b : Bytes) × (bytes masks m ≡ some b)

  -- The first span whose mask the table does not have.
  pub record IsUnknown (spans : List Span) (m : MaskId) : Type 0 where
    pub before : List Span
    pub range : Range
    pub after : List Span
    pub found : spans ≡ before ++ (range, m) ∷ after
    pub known : All IsKnown before
    pub absent : bytes masks m ≡ none

  IsUnknown-cons :
      (x : Span) (spans : List Span) (m : MaskId)
      → IsKnown x
      → IsUnknown spans m
      → IsUnknown (x ∷ spans) m
  IsUnknown-cons x spans m k u = record {
    before = x ∷ u.before;
    range = u.range;
    after = u.after;
    found = ap (λ t. x ∷ t) u.found;
    known = (k, u.known);
    absent = u.absent;
  }

  -- How the splice ends: with the masked text, or at the first mask that is not there.
  data IsSpliced (limit : ℕ) (spans : List Span) (s : Splice)
      : Run AssembleError Splice → Type 0 where
    spliced :
        {s' : Splice}
        → All IsKnown spans
        → rendered (raw_up_to limit s') ≡ rendered s ++ masked_text s.cursor limit spans
        → IsSpliced limit spans s (ok s')
    stuck : {m : MaskId} → IsUnknown spans m → IsSpliced limit spans s (err (unknown_mask m))

  splice_loop-IsSpliced :
      (limit : ℕ) (spans : List Span) (s : Splice)
      → IsSpliced limit spans s (splice_loop masks spans s)
  unfolding splice_loop masked_text
  splice_loop-IsSpliced limit [] s = spliced tt (raw_up_to-rendered limit s)
  splice_loop-IsSpliced limit ((r, m) ∷ spans) s =
      go (bytes masks m) refl
        (λ b. splice_loop-IsSpliced limit spans (push_mask m b r.end (raw_up_to r.start s)))
    where
      later :
          (b : Bytes) (q : Run AssembleError Splice)
          → bytes masks m ≡ some b
          → IsSpliced limit spans (push_mask m b r.end (raw_up_to r.start s)) q
          → IsSpliced limit ((r, m) ∷ spans) s q
      later b _ e (spliced k h) = spliced ((b, e), k) (h ∙ splice_step-rendered r m b s _ e)
      later b _ e (stuck u) = stuck (IsUnknown-cons (r, m) spans _ (b, e) u)

      go :
          (o : Option Bytes)
          → bytes masks m ≡ o
          → ((b : Bytes)
              → IsSpliced limit spans
                  (push_mask m b r.end (raw_up_to r.start s))
                  (splice_loop masks spans (push_mask m b r.end (raw_up_to r.start s))))
          → IsSpliced limit ((r, m) ∷ spans) s (
              known_mask m o >>= λ b.
              splice_loop masks spans (push_mask m b r.end (raw_up_to r.start s)))
      go none e ih =
          stuck
            (record { before = []; range = r; after = spans; found = refl; known = tt; absent = e })
      go (some b) e ih = later b _ e (ih b)

  -- What becomes of a field: it is left alone where no span takes effect in it; it is rebuilt where the
  -- masks of all that do are in the table; and otherwise the first mask that is not is the error.
  pub data IsMasked (field : ℕ) (window : Range) (spans : List Span)
      : Run AssembleError (Option Seg) → Type 0 where
    left_alone : spans ≡ [] → IsMasked field window spans (ok none)
    masked :
        {seg : Seg}
        → spans ≢ []
        → All IsKnown spans
        → render_seg buf masks seg
          ≡ header field (length (masked_text window.start window.end spans))
            ++ masked_text window.start window.end spans
        → IsMasked field window spans (ok (some seg))
    unknown : {m : MaskId} → IsUnknown spans m → IsMasked field window spans (err (unknown_mask m))

  splice_spans-IsMasked :
      (field : ℕ) (window : Range) (spans : List Span)
      → window.end ≤ length buf
      → Chain window.start window.end spans
      → IsMasked field window spans (splice_spans field window masks spans)
  unfolding splice_spans rendered render_seg render_parts parts_len
  splice_spans-IsMasked field window [] inside c = left_alone refl
  splice_spans-IsMasked field window (x ∷ spans) inside c =
      let s : Splice = record { parts = []; size = 0; cursor = window.start } in
      go _ (splice_loop-IsSpliced window.end (x ∷ spans) s) (
        splice_loop-Spliced buf masks window.start window.end (x ∷ spans) s inside c
          (record { all_good = done; sized = refl }))
    where
      go :
          (q : Run AssembleError Splice)
          → IsSpliced window.end
              (x ∷ spans)
              (record { parts = []; size = 0; cursor = window.start })
              q
          → Safe (Spliced buf masks) q
          → IsMasked field window (x ∷ spans) (
              q >>= λ s'.
              let s'' = raw_up_to window.end s' in ok (some (scalar field s''.size s''.parts)))
      go _ (stuck u) h = unknown u
      go _ (spliced {s'} k text) (safe_ok h) =
          let h' = raw_up_to-Spliced buf masks window.end s' inside h in
          let size =
            h'.sized ∙ sym (length-render_parts buf masks _ h'.all_good) ∙ ap length text in
          let whole = masked_text window.start window.end (x ∷ spans) in
          masked (λ z. cc) k
            (ap (λ n. header field n ++ rendered (raw_up_to window.end s')) size
              ∙ ap (λ t. header field (length whole) ++ t) text)

  -- For a field inside the buffer, and where the redactions are ranges in order: a string field in which
  -- none takes effect is left alone; one in which some do, with all their masks in the table, is rebuilt as
  -- its tag, the exact length of its masked text, and that text, which is the bytes between the
  -- effective spans with each span's mask in its place; and where a mask is not in the table, the error
  -- names the first that is not.
  pub build_scalar-IsMasked :
      (field : ℕ) (window : Range) (idx : ℕ) (env : Envelope)
      → window.end ≤ length buf
      → AreOrdered env
      → IsMasked field window
          (effective_spans env idx window)
          (build_scalar field window idx env masks)
  unfolding build_scalar
  build_scalar-IsMasked field window idx env inside ordered =
      splice_spans-IsMasked field window _ inside (effective_spans-Chain env idx window ordered)
