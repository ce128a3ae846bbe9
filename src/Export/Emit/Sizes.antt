-- ===== src/Export/Emit/Sizes.antt =====
-- The sizes computed bottom-up in crates/archiv-export/src/lib.rs, against the bytes.
use archiv_agent.Base.{ℕ, ◌-◌, ◌^◌, ◌<◌, ◌≡◌, refl, arith, List, [], ◌∷◌}
use archiv_agent.Base.{length, length-append, length-take, length-drop, drop}
use archiv_agent.Wire.{Bytes, Range, range_len, slice}
use archiv_agent.Export.Segment.{
  MaskTable, bytes, Part, raw, mask, Seg, Segs, verbatim, nested, scalar,
}
use archiv_agent.Export.Segment.{nil, cons, header_len, delimited_tag, put_varint}
use archiv_agent.Export.Segment.{seg_encoded_len, segs_encoded_len}
use archiv_agent.Export.Segment.VarintLen.{varint_len-put_varint, delimited_tag-lt}
use archiv_agent.Export.Emit.Rendered.{
  or_empty, header, InBuffer, render_parts, render_seg, render_segs, parts_len,
}
use archiv_agent.Export.Emit.Rendered.{
  AllGood, more, Good, GoodAll, good_verbatim, good_nested, good_scalar,
}
use archiv_agent.Export.Emit.Rendered.{good_cons}

length-slice : (buf : Bytes) (r : Range) → InBuffer buf r → length (slice buf r) ≡ range_len r
length-slice buf r (ordered, inside) =
    omega (arith, length-take (r.end - r.start) (drop r.start buf), length-drop r.start buf)

length-header :
    (field size : ℕ)
    → field < 2 ^ 32
    → size < 2 ^ 64
    → length (header field size) ≡ header_len field size
unfolding header header_len
length-header field size f n =
    let tag_bytes = put_varint (delimited_tag field) [] in
    let whole = (varint_len-put_varint size tag_bytes n).0 in
    let tag_part = (varint_len-put_varint (delimited_tag field) [] (delimited_tag-lt field f)).0 in
    omega (arith, whole, tag_part)

module _ (buf : Bytes) (masks : MaskTable) where
  pub length-render_parts :
      (parts : List Part)
      → AllGood buf masks parts
      → length (render_parts buf masks parts) ≡ parts_len buf masks parts
  unfolding render_parts parts_len
  length-render_parts [] h = refl
  length-render_parts (raw r ∷ parts) (more g h) = omega (
    arith,
    length-append (slice buf r) (render_parts buf masks parts),
    length-slice buf r g,
    length-render_parts parts h,
  )
  length-render_parts (mask m ∷ parts) (more g h) = omega (
    arith,
    length-append (or_empty (bytes masks m)) (render_parts buf masks parts),
    length-render_parts parts h,
  )

  mutual
    unfolding render_seg seg_encoded_len segs_encoded_len

    pub length-render_seg :
        (seg : Seg)
        → Good buf masks seg
        → seg_encoded_len seg < 2 ^ 64
        → length (render_seg buf masks seg) ≡ seg_encoded_len seg
    length-render_seg (verbatim r) (good_verbatim g) b = length-slice buf r g
    length-render_seg (nested field size segs) (good_nested f n g) b = omega (
      arith,
      length-append (header field size) (render_segs buf masks segs),
      length-header field size f (omega arith),
      n,
      length-render_segs segs g (omega arith),
    )
    length-render_seg (scalar field size parts) (good_scalar f n g) b = omega (
      arith,
      length-append (header field size) (render_parts buf masks parts),
      length-header field size f (omega arith),
      n,
      length-render_parts parts g,
    )

    pub length-render_segs :
        (segs : Segs)
        → GoodAll buf masks segs
        → segs_encoded_len segs < 2 ^ 64
        → length (render_segs buf masks segs) ≡ segs_encoded_len segs
    length-render_segs nil h b = refl
    length-render_segs (cons seg segs) (good_cons g h) b = omega (
      arith,
      length-append (render_seg buf masks seg) (render_segs buf masks segs),
      length-render_seg seg g (omega arith),
      length-render_segs segs h (omega arith),
    )
