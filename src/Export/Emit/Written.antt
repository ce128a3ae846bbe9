-- ===== src/Export/Emit/Written.antt =====
-- What the emission of crates/archiv-export/src/lib.rs writes, piece by piece.
use archiv_agent.Base.{
  ℕ, ◌+◌, ◌-◌, ◌≤◌, ◌≡◌, ◌∙◌, refl, sym, ap, arith, List, [], ◌∷◌, ◌++◌, append_assoc,
}
use archiv_agent.Base.{append-nil, length}
use archiv_agent.Base.{some, leb, le→leb, Bool-cases, inl, inr}
use archiv_agent.Base.{Run, ok, ◌>>=◌, Safe, safe_ok, leb→le}
use archiv_agent.Wire.{Bytes, Range, range_len, slice, get_range}
use archiv_agent.Export.Segment.{
  AssembleError, MaskTable, Part, raw, mask, Seg, Segs, verbatim, nested, scalar,
}
use archiv_agent.Export.Segment.{nil, cons, header_len, delimited_tag, put_varint}
use archiv_agent.Export.Segment.{seg_encoded_len, segs_encoded_len}
use archiv_agent.Export.Segment.VarintLen.{put_varint-append}
use archiv_agent.Export.Emit.{Assembler, concat, contiguous, new, flush_scratch}
use archiv_agent.Export.Emit.{push_raw, push_header, push_mask, emit_parts, emit_seg}
use archiv_agent.Export.Emit.{emit_segs, finish, push_scratch, push_chunk}
use archiv_agent.Export.Emit.Rendered.{
  header, InBuffer, render_parts, render_seg, render_segs, parts_len, AllGood, more, Good, GoodAll,
  good_verbatim, good_nested, good_scalar, good_cons,
}

-- What the assembler has written so far.
unfoldable pub written : Assembler → Bytes
written a = concat a.chunks ++ a.scratch

-- `a'` is `a` with `text` written, and its length counted on by `n`.
pub record Wrote (a : Assembler) (text : Bytes) (n : ℕ) (a' : Assembler) : Type 0 where
  pub same_raw : a'.raw ≡ a.raw
  pub text_added : written a' ≡ written a ++ text
  pub len_added : a'.len ≡ a.len + n

Wrote-trans :
    {a b c : Assembler} {s t : Bytes} {n m : ℕ}
    → Wrote a s n b
    → Wrote b t m c
    → Wrote a (s ++ t) (n + m) c
Wrote-trans {a} {b} {c} {s} {t} p q = record {
  same_raw = q.same_raw ∙ p.same_raw;
  text_added = q.text_added ∙ ap (λ w. w ++ t) p.text_added ∙ append_assoc (written a) s t;
  len_added = omega arith;
}

concat-append : (xs ys : List Bytes) → concat (xs ++ ys) ≡ concat xs ++ concat ys
concat-append [] ys = refl
concat-append (x ∷ xs) ys =
    ap (λ t. x ++ t) (concat-append xs ys) ∙ sym (append_assoc x (concat xs) (concat ys))

-- Flushed, everything stands in the chunks, and the length and the raw buffer are the same.
record Flushed (a f : Assembler) : Type 0 where
  pub all_there : concat f.chunks ≡ written a
  pub nothing_left : f.scratch ≡ []
  pub len_same : f.len ≡ a.len
  pub raw_same : f.raw ≡ a.raw

push_scratch-Flushed : (s : Bytes) (a : Assembler) → a.scratch ≡ s → Flushed a (push_scratch s a)
unfolding written
push_scratch-Flushed [] a e = record {
  all_there = rw (e, append-nil (concat a.chunks)) refl;
  nothing_left = e;
  len_same = refl;
  raw_same = refl;
}
push_scratch-Flushed (b ∷ s) a e = record {
  all_there = rw (concat-append a.chunks ((b ∷ s) ∷ []), e, append-nil (b ∷ s)) refl;
  nothing_left = refl;
  len_same = refl;
  raw_same = refl;
}

flush_scratch-Flushed : (a : Assembler) → Flushed a (flush_scratch a)
unfolding flush_scratch
flush_scratch-Flushed a = push_scratch-Flushed a.scratch a refl

-- A chunk behind what is flushed.
push_chunk-Wrote :
    (a f : Assembler) (b : Bytes) (n : ℕ)
    → Flushed (record a { len = a.len + n }) f
    → Wrote a b n (push_chunk b f)
unfolding written
push_chunk-Wrote a f b n h = record {
  same_raw = h.raw_same;
  text_added =
      rw
        (
          h.nothing_left,
          concat-append f.chunks (b ∷ []),
          append-nil b,
          append-nil (concat f.chunks ++ b),
        )
        (ap (λ t. t ++ b) h.all_there);
  len_added = h.len_same;
}

push_mask-Wrote : (b : Bytes) (a : Assembler) → Wrote a b (length b) (push_mask b a)
unfolding push_mask
push_mask-Wrote b a = push_chunk-Wrote a _ b (length b) (flush_scratch-Flushed _)

-- The run returns a value, with `P`.
pub data Returns {A : Type 0} (P : A → Type 0) : Run AssembleError A → Type 0 where
  returns : {a : A} → P a → Returns P (ok a)

pub Returns-bind :
    {A B : Type 0} {P : A → Type 0} (Q : B → Type 0) {r : Run AssembleError A}
    (f : A → Run AssembleError B)
    → Returns P r
    → ((a : A) → P a → Returns Q (f a))
    → Returns Q (r >>= f)
Returns-bind Q f (returns {a} h) k = k a h

pub Returns-Safe : {A : Type 0} {P : A → Type 0} {r : Run AssembleError A} → Returns P r → Safe P r
Returns-Safe (returns h) = safe_ok h

pub Returns-map :
    {A : Type 0} {P Q : A → Type 0} {r : Run AssembleError A}
    → Returns P r
    → ((a : A) → P a → Q a)
    → Returns Q r
Returns-map (returns {a} h) k = returns (k a h)

-- An empty range is no bytes at all.
pub slice-empty : (buf : Bytes) (r : Range) → r.end ≤ r.start → slice buf r ≡ []
slice-empty buf r h = let e : r.end - r.start ≡ 0 = omega arith in rw e refl

get_range-InBuffer :
    (buf : Bytes) (r : Range) → InBuffer buf r → get_range buf r ≡ some (slice buf r)
get_range-InBuffer buf r (ordered, inside) = rw (le→leb _ _ ordered, le→leb _ _ inside) refl

Wrote-nothing : (a : Assembler) → Wrote a [] 0 a
Wrote-nothing a = record {
  same_raw = refl;
  text_added = sym (append-nil (written a));
  len_added = omega arith;
}

push_raw-Wrote :
    (r : Range) (a : Assembler)
    → InBuffer a.raw r
    → Returns (Wrote a (slice a.raw r) (range_len r)) (push_raw r a)
unfolding push_raw
push_raw-Wrote r a h = elim (Bool-cases (leb r.end r.start)) [
  | inl e ↦
      let none_left : r.end - r.start ≡ 0 = omega (arith, leb→le _ _ e) in
      rw (e, slice-empty a.raw r (leb→le _ _ e), none_left) (returns (Wrote-nothing a))
  | inr e ↦
      rw (e, get_range-InBuffer a.raw r h)
        (returns (push_chunk-Wrote a _ (slice a.raw r) (range_len r) (flush_scratch-Flushed _)))
]

push_header-Wrote :
    (field size : ℕ) (a : Assembler)
    → Wrote a (header field size) (header_len field size) (push_header field size a)
unfolding push_header written header
push_header-Wrote field size a = record {
  same_raw = refl;
  text_added =
      let tag_bytes = put_varint-append (delimited_tag field) a.scratch in
      ap (λ t. concat a.chunks ++ t)
        (put_varint-append size _
          ∙ ap (λ t. t ++ put_varint size []) tag_bytes
          ∙ append_assoc a.scratch _ _
          ∙ ap (λ t. a.scratch ++ t) (sym (put_varint-append size _)))
      ∙ sym (append_assoc (concat a.chunks) a.scratch _);
  len_added = refl;
}

-- One piece of output behind another.
Wrote-then :
    {a : Assembler} {s t : Bytes} {n m : ℕ} {r : Run AssembleError Assembler}
    (f : Assembler → Run AssembleError Assembler)
    → Returns (Wrote a s n) r
    → ((b : Assembler) → b.raw ≡ a.raw → Returns (Wrote b t m) (f b))
    → Returns (Wrote a (s ++ t) (n + m)) (r >>= f)
Wrote-then f h k = Returns-bind _ f h λ b w. Returns-map (k b w.same_raw) λ c w'. Wrote-trans w w'

Wrote-behind :
    {a b : Assembler} {s t : Bytes} {n m : ℕ} {r : Run AssembleError Assembler}
    → Wrote a s n b
    → (m' : ℕ) → m' ≡ m
    → Returns (Wrote b t m) r
    → Returns (Wrote a (s ++ t) (n + m')) r
Wrote-behind w m' e h = Returns-map h λ c w'. rw e (Wrote-trans w w')

module _ (buf : Bytes) (masks : MaskTable) where
  push_raw-at :
      (r : Range) (a : Assembler)
      → a.raw ≡ buf
      → InBuffer buf r
      → Returns (Wrote a (slice buf r) (range_len r)) (push_raw r a)
  push_raw-at r a e (ordered, inside) = rw (sym e) (push_raw-Wrote r a (ordered, rw e inside))

  emit_parts-Wrote :
      (parts : List Part) (a : Assembler)
      → a.raw ≡ buf
      → AllGood buf masks parts
      → Returns
          (Wrote a (render_parts buf masks parts) (parts_len buf masks parts))
          (emit_parts masks parts a)
  unfolding emit_parts render_parts parts_len
  emit_parts-Wrote [] a e h = returns (Wrote-nothing a)
  emit_parts-Wrote (raw r ∷ parts) a e (more g h) =
      Wrote-then _ (push_raw-at r a e g) λ b e'. emit_parts-Wrote parts b (e' ∙ e) h
  emit_parts-Wrote (mask m ∷ parts) a e (more (b, known) h) =
      Wrote-then _ (rw known (returns (push_mask-Wrote b a)))
        λ c e'. emit_parts-Wrote parts c (e' ∙ e) h

  mutual
    unfolding emit_seg render_seg seg_encoded_len segs_encoded_len push_header

    emit_seg-Wrote :
        (seg : Seg) (a : Assembler)
        → a.raw ≡ buf
        → Good buf masks seg
        → Returns (Wrote a (render_seg buf masks seg) (seg_encoded_len seg)) (emit_seg masks seg a)
    emit_seg-Wrote (verbatim r) a e (good_verbatim g) = push_raw-at r a e g
    emit_seg-Wrote (nested field size segs) a e (good_nested f n g) =
        Wrote-behind (push_header-Wrote field size a) size n
          (emit_segs-Wrote segs (push_header field size a) e g)
    emit_seg-Wrote (scalar field size parts) a e (good_scalar f n g) =
        Wrote-behind (push_header-Wrote field size a) size n
          (emit_parts-Wrote parts (push_header field size a) e g)

    emit_segs-Wrote :
        (segs : Segs) (a : Assembler)
        → a.raw ≡ buf
        → GoodAll buf masks segs
        → Returns
            (Wrote a (render_segs buf masks segs) (segs_encoded_len segs))
            (emit_segs masks segs a)
    emit_segs-Wrote nil a e h = returns (Wrote-nothing a)
    emit_segs-Wrote (cons seg segs) a e (good_cons g h) =
        Wrote-then _ (emit_seg-Wrote seg a e g) λ b e'. emit_segs-Wrote segs b (e' ∙ e) h

  -- The whole emission: it always succeeds on well-formed segments, and hands over their bytes.
  pub emit_segs-Rendered :
      (segs : Segs)
      → GoodAll buf masks segs
      → Returns
          (λ a.
            (contiguous (finish a) ≡ render_segs buf masks segs)
            × ((finish a).len ≡ segs_encoded_len segs))
          (emit_segs masks segs (new buf))
  unfolding new contiguous finish written
  emit_segs-Rendered segs h = Returns-map (emit_segs-Wrote segs (new buf) refl h) λ a w.
      let f = flush_scratch-Flushed a in
      (f.all_there ∙ w.text_added, omega (arith, f.len_same, w.len_added))
