-- ===== src/Export/Segment.antt =====
-- Mask tables, the segment tree, encoded lengths, and varints as they are written.
pub mod VarintLen
pub mod RoundTrip
use archiv_agent.Base.{
  ℕ, zero, suc, ◌+◌, ◌-◌, ◌*◌, ◌/◌, ◌%◌, ◌^◌, bit_and, bit_or, List, [], ◌∷◌, ◌++◌,
}
use archiv_agent.Base.{Option, none, some, ◌==◌, if◌then◌else◌, length, get_elem?}
use archiv_agent.Wire.{Bytes, Range, range_len, ParseError}
use archiv_agent.Envelope.{MaskId}

pub data AssembleError : Type 0 where
  wire : ParseError → AssembleError
  record_count_mismatch : ℕ → ℕ → AssembleError
  unknown_mask : ℕ → AssembleError

pub record MaskTable : Type 0 where
  pub masks : List Bytes

unfoldable pub bytes : MaskTable → MaskId → Option Bytes
bytes t id = get_elem? t.masks id

pub data Part : Type 0 where
  raw : Range → Part
  mask : MaskId → Part

-- `Vec<Seg>` inside `Seg` is `Segs`.
mutual
  pub data Seg : Type 0 where
    verbatim : Range → Seg
    nested : ℕ → ℕ → Segs → Seg
    scalar : ℕ → ℕ → List Part → Seg

  pub data Segs : Type 0 where
    nil : Segs
    cons : Seg → Segs → Segs

-- `segs.push(seg)`
unfoldable pub push_seg : Seg → Segs → Segs
push_seg seg nil = cons seg nil
push_seg seg (cons s segs) = cons s (push_seg seg segs)

-- `u64::leading_zeros`, by the number of binary digits.
unfoldable pub bit_length : ℕ → ℕ → ℕ
bit_length zero v = 0
bit_length (suc bits) v = let rest = bit_length bits (v / 2) in if v == 0 then 0 else rest + 1

abbrev pub leading_zeros : ℕ → ℕ
leading_zeros v = 64 - bit_length 64 v

-- `usize::div_ceil`
abbrev pub div_ceil : ℕ → ℕ → ℕ
div_ceil a b = if a % b == 0 then a / b else a / b + 1

unfoldable pub varint_len : ℕ → ℕ
varint_len v = div_ceil (64 - leading_zeros (bit_or v 1)) 7

-- `u64::from(field) << 3 | 2`
abbrev pub delimited_tag : ℕ → ℕ
delimited_tag field = bit_or (field * 8 % 2 ^ 64) 2

unfoldable pub header_len : ℕ → ℕ → ℕ
header_len field size = varint_len (delimited_tag field) + varint_len size

unfoldable pub seg_encoded_len : Seg → ℕ
seg_encoded_len (verbatim r) = range_len r
seg_encoded_len (nested field size segs) = header_len field size + size
seg_encoded_len (scalar field size parts) = header_len field size + size

unfoldable pub segs_encoded_len : Segs → ℕ
segs_encoded_len nil = 0
segs_encoded_len (cons s segs) = seg_encoded_len s + segs_encoded_len segs

-- The loop of `put_varint`; a `u64` takes ten rounds at most.
unfoldable pub put_varint_loop : ℕ → ℕ → Bytes → Bytes
put_varint_loop zero v out = out
put_varint_loop (suc rounds) v out =
    let b = bit_and v 0x7f in
    let more = put_varint_loop rounds (v / 128) (out ++ bit_or b 0x80 ∷ []) in
    if v / 128 == 0 then out ++ b ∷ [] else more

unfoldable pub put_varint : ℕ → Bytes → Bytes
put_varint v out = put_varint_loop 10 v out
