-- ===== src/Export/Emit.antt =====
-- Emission: the segment tree as chunks of the raw buffer, headers and masks.
pub mod Rendered
pub mod Sizes
pub mod Written
use archiv_agent.Base.{
  ℕ, ◌+◌, ◌-◌, List, [], ◌∷◌, ◌++◌, Option, none, some, leb, if◌then◌else◌, length,
}
use archiv_agent.Base.{Run, ok, err, panic, ◌>>=◌}
use archiv_agent.Wire.{Bytes, Range, range_len, get_range}
use archiv_agent.Envelope.{MaskId}
use archiv_agent.Export.Segment.{AssembleError, unknown_mask, MaskTable, bytes, Part, raw, mask}
use archiv_agent.Export.Segment.{Seg, Segs, verbatim, nested, scalar, nil, cons, header_len}
use archiv_agent.Export.Segment.{delimited_tag, put_varint}

pub record AssembledPayload : Type 0 where
  pub chunks : List Bytes
  pub len : ℕ

unfoldable pub passthrough : Bytes → AssembledPayload
passthrough raw_bytes = record { chunks = raw_bytes ∷ []; len = length raw_bytes }

abbrev pub concat : List Bytes → Bytes
concat [] = []
concat (c ∷ cs) = c ++ concat cs

unfoldable pub contiguous : AssembledPayload → Bytes
contiguous p = concat p.chunks

pub record Assembler : Type 0 where
  pub raw : Bytes
  pub chunks : List Bytes
  pub scratch : Bytes
  pub len : ℕ

unfoldable pub new : Bytes → Assembler
new buf = record { raw = buf; chunks = []; scratch = []; len = 0 }

abbrev pub push_scratch : Bytes → Assembler → Assembler
push_scratch [] a = a
push_scratch (b ∷ bs) a = record a { chunks = a.chunks ++ (b ∷ bs) ∷ []; scratch = [] }

unfoldable pub flush_scratch : Assembler → Assembler
flush_scratch a = push_scratch a.scratch a

abbrev pub push_chunk : Bytes → Assembler → Assembler
push_chunk b a = record a { chunks = a.chunks ++ b ∷ [] }

-- `self.raw.slice(r)`, which panics out of range.
abbrev pub push_slice : Option Bytes → Assembler → Run AssembleError Assembler
push_slice none a = panic
push_slice (some b) a = ok (push_chunk b a)

-- An empty range is skipped.
unfoldable pub push_raw : Range → Assembler → Run AssembleError Assembler
push_raw r a =
    if leb r.end r.start
    then ok a
    else push_slice (get_range a.raw r) (flush_scratch (record a { len = a.len + range_len r }))

unfoldable pub push_header : ℕ → ℕ → Assembler → Assembler
push_header field size a = record a {
  scratch = put_varint size (put_varint (delimited_tag field) a.scratch);
  len = a.len + header_len field size;
}

unfoldable pub push_mask : Bytes → Assembler → Assembler
push_mask b a = push_chunk b (flush_scratch (record a { len = a.len + length b }))

abbrev pub payload_of : Assembler → AssembledPayload
payload_of a = record { chunks = a.chunks; len = a.len }

unfoldable pub finish : Assembler → AssembledPayload
finish a = payload_of (flush_scratch a)

abbrev pub emit_mask : MaskId → Option Bytes → Assembler → Run AssembleError Assembler
emit_mask m none a = err (unknown_mask m)
emit_mask m (some b) a = ok (push_mask b a)

module _ (masks : MaskTable) where
  unfoldable pub emit_parts : List Part → Assembler → Run AssembleError Assembler
  emit_parts [] a = ok a
  emit_parts (raw r ∷ parts) a = do a' ← push_raw r a; emit_parts parts a'
  emit_parts (mask m ∷ parts) a = do a' ← emit_mask m (bytes masks m) a; emit_parts parts a'

  unfoldable mutual
    unfolding emit_parts

    pub emit_seg : Seg → Assembler → Run AssembleError Assembler
    emit_seg (verbatim r) a = push_raw r a
    emit_seg (nested field size segs) a = emit_segs segs (push_header field size a)
    emit_seg (scalar field size parts) a = emit_parts parts (push_header field size a)

    pub emit_segs : Segs → Assembler → Run AssembleError Assembler
    emit_segs nil a = ok a
    emit_segs (cons seg segs) a = do a' ← emit_seg seg a; emit_segs segs a'
