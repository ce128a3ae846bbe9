-- ===== src/Export/Emit/Rendered.antt =====
-- What a segment tree of crates/archiv-export/src/lib.rs stands for as bytes, and when it is good.
use archiv_agent.Base.{ℕ, ◌+◌, ◌^◌, ◌≤◌, ◌<◌, ◌≡◌, List, [], ◌∷◌, ◌++◌}
use archiv_agent.Base.{length}
use archiv_agent.Base.{Option, none, some}
use archiv_agent.Wire.{Bytes, Range, range_len, slice}
use archiv_agent.Export.Segment.{
  MaskTable, bytes, Part, raw, mask, Seg, Segs, verbatim, nested, scalar,
}
use archiv_agent.Export.Segment.{nil, cons, delimited_tag, put_varint, push_seg}
use archiv_agent.Export.Segment.{segs_encoded_len}

abbrev pub or_empty : Option Bytes → Bytes
or_empty none = []
or_empty (some b) = b

-- Tag and length of a delimited field.
unfoldable pub header : ℕ → ℕ → Bytes
header field size = put_varint size (put_varint (delimited_tag field) [])

abbrev pub InBuffer : Bytes → Range → Type 0
InBuffer buf r = (r.start ≤ r.end) × (r.end ≤ length buf)

module _ (buf : Bytes) (masks : MaskTable) where
  unfoldable pub render_parts : List Part → Bytes
  render_parts [] = []
  render_parts (raw r ∷ parts) = slice buf r ++ render_parts parts
  render_parts (mask m ∷ parts) = or_empty (bytes masks m) ++ render_parts parts

  unfoldable mutual
    unfolding render_parts

    pub render_seg : Seg → Bytes
    render_seg (verbatim r) = slice buf r
    render_seg (nested field size segs) = header field size ++ render_segs segs
    render_seg (scalar field size parts) = header field size ++ render_parts parts

    pub render_segs : Segs → Bytes
    render_segs nil = []
    render_segs (cons seg segs) = render_seg seg ++ render_segs segs

  unfoldable pub parts_len : List Part → ℕ
  parts_len [] = 0
  parts_len (raw r ∷ parts) = range_len r + parts_len parts
  parts_len (mask m ∷ parts) = length (or_empty (bytes masks m)) + parts_len parts

  abbrev pub GoodPart : Part → Type 0
  GoodPart (raw r) = InBuffer buf r
  GoodPart (mask m) = (b : Bytes) × (bytes masks m ≡ some b)

  pub data AllGood : List Part → Type 0 where
    done : AllGood []
    more : {p : Part} {parts : List Part} → GoodPart p → AllGood parts → AllGood (p ∷ parts)

  -- Ranges are inside the buffer, masks are known, and each size is that of the content.
  mutual
    pub data Good : Seg → Type 0 where
      good_verbatim : {r : Range} → InBuffer buf r → Good (verbatim r)
      good_nested :
          {field size : ℕ} {segs : Segs}
          → field < 2 ^ 32
          → size ≡ segs_encoded_len segs
          → GoodAll segs
          → Good (nested field size segs)
      good_scalar :
          {field size : ℕ} {parts : List Part}
          → field < 2 ^ 32
          → size ≡ parts_len parts
          → AllGood parts
          → Good (scalar field size parts)

    pub data GoodAll : Segs → Type 0 where
      good_nil : GoodAll nil
      good_cons : {seg : Seg} {segs : Segs} → Good seg → GoodAll segs → GoodAll (cons seg segs)

  pub GoodAll-push_seg :
      {segs : Segs} (seg : Seg) → Good seg → GoodAll segs → GoodAll (push_seg seg segs)
  unfolding push_seg
  GoodAll-push_seg seg g good_nil = good_cons g good_nil
  GoodAll-push_seg seg g (good_cons h hs) = good_cons h (GoodAll-push_seg seg g hs)
