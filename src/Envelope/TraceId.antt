-- ===== src/Envelope/TraceId.antt =====
-- Trace ids, binary and as hex text: `trace_id_bytes` of crates/archiv-pipeline/src/envelope.rs.
use archiv_agent.Base.{ℕ, suc, ◌+◌, ◌-◌, ◌*◌, ◌/◌, ◌%◌, ◌<◌, ◌≤◌, ◌≡◌, refl, arith, Bool}
use archiv_agent.Base.{
  [], ◌∷◌, Option, none, some, Option-cases, inl, inr, length, All, ltb, if◌then◌else◌,
}
use archiv_agent.Base.Bits.{join_nibbles}
use archiv_agent.Wire.{Bytes}
use archiv_agent.Envelope.{
  nibble, hex_pair, cons_pair, decode_pairs, decode_hex_16, decode_trace_id,
}
use archiv_agent.Envelope.{RecordView, trace_id_bytes, get_view}

abbrev pub IsByte : ℕ → Type 0
IsByte b = b < 256

-- The digit of a nibble, in upper or lower case.
pub hex_digit : Bool → ℕ → ℕ
hex_digit upper v =
    if ltb v 10 then b'0' + v else if upper then b'A' + (v - 10) else b'a' + (v - 10)

-- The hex text of a byte string.
pub hex_text : Bool → Bytes → Bytes
hex_text upper [] = []
hex_text upper (b ∷ bs) = hex_digit upper (b / 16) ∷ hex_digit upper (b % 16) ∷ hex_text upper bs

nibble-hex_digit : (upper : Bool) (v : ℕ) → v < 16 → nibble (hex_digit upper v) ≡ some v
unfolding nibble hex_digit
nibble-hex_digit upper v h = ground arith

hex_pair-hex_digit :
    (upper : Bool) (b : ℕ)
    → b < 256
    → hex_pair (hex_digit upper (b / 16)) (hex_digit upper (b % 16)) ≡ some b
unfolding hex_pair
hex_pair-hex_digit upper b h = rw (
  hex_pair,
  nibble-hex_digit upper (b / 16) (omega arith),
  nibble-hex_digit upper (b % 16) (omega arith),
  join_nibbles b h,
)

decode_pairs-hex_text :
    (upper : Bool) (bs : Bytes) → All IsByte bs → decode_pairs (hex_text upper bs) ≡ some bs
unfolding decode_pairs hex_text
decode_pairs-hex_text upper [] h = refl
decode_pairs-hex_text upper (b ∷ bs) h =
    rw (decode_pairs, hex_pair-hex_digit upper b h.0, decode_pairs-hex_text upper bs h.1)

length-hex_text : (upper : Bool) (bs : Bytes) → length (hex_text upper bs) ≡ 2 * length bs
unfolding hex_text
length-hex_text upper [] = omega arith
length-hex_text upper (b ∷ bs) = omega (arith, length-hex_text upper bs)

-- A trace id of 16 bytes is read back from its binary form and from its hex text, in either case.
pub decode_trace_id-hex_text :
    (upper : Bool) (id : Bytes)
    → All IsByte id
    → length id ≡ 16
    → (decode_trace_id (some id) ≡ some id) × (decode_trace_id (some (hex_text upper id)) ≡ some id)
unfolding decode_hex_16
decode_trace_id-hex_text upper id h n =
    (rw n, rw (length-hex_text upper id, n, decode_pairs-hex_text upper id h))

-- Only whole pairs make a byte each.
length-decode_pairs :
    (hex out : Bytes)
    → decode_pairs hex ≡ some out
    → (2 * length out ≤ length hex) × (length hex ≤ 2 * length out + 1)
unfolding decode_pairs
length-decode_pairs [] out e = ground arith
length-decode_pairs (a ∷ []) out e = ground arith
length-decode_pairs (a ∷ b ∷ hex) out e = elim (Option-cases (decode_pairs hex)) [
  | inl f ↦ absurd (no_pairs (hex_pair a b) (rw (decode_pairs, f) at e))
  | inr (rest, f) ↦
      let n = length-cons_pair (hex_pair a b) rest (rw (decode_pairs, f) at e) in
      omega (arith, n, length-decode_pairs hex rest f)
]
  where
    no_pairs : (p : Option ℕ) → ¬ (cons_pair p none ≡ some out)
    no_pairs none g = cc
    no_pairs (some v) g = cc

    length-cons_pair :
        (p : Option ℕ) (rest : Bytes)
        → cons_pair p (some rest) ≡ some out
        → length out ≡ suc (length rest)
    length-cons_pair none rest g = cc
    length-cons_pair (some v) rest g = ground arith

length-decode_trace_id :
    (src : Option Bytes) (id : Bytes) → decode_trace_id src ≡ some id → length id ≡ 16
unfolding decode_hex_16
length-decode_trace_id none id e = cc
length-decode_trace_id (some src) id e = ground (arith, length-decode_pairs src id)

-- Every trace id that `trace_id_bytes` returns has 16 bytes, whatever the view and the buffer.
pub length-trace_id_bytes :
    (rec : RecordView) (raw id : Bytes) → trace_id_bytes rec raw ≡ some id → length id ≡ 16
unfolding trace_id_bytes
length-trace_id_bytes rec raw id e = length-decode_trace_id (get_view raw rec.trace_id) id e
