-- ===== src/Export/Segment/VarintLen.antt =====
-- `varint_len` and `put_varint` of crates/archiv-export/src/lib.rs, by way of groups of seven bits.
use archiv_agent.Base.{
  ℕ, zero, suc, ◌+◌, ◌-◌, ◌*◌, ◌/◌, ◌%◌, ◌^◌, ◌<◌, ◌≤◌, ◌≡◌, ◌∙◌, refl, ap, arith,
}
use archiv_agent.Base.{
  [], ◌∷◌, ◌++◌, append_assoc, append-nil, bit_or, sym, bit_and, length, length-append, ltb,
  Bool-cases, inl, inr,
}
use archiv_agent.Base.{if◌then◌else◌}
use archiv_agent.Base.Bits.{bit_and_group, set_top_bit, bit_or-one, bit_or_two}
use archiv_agent.Wire.{Bytes}
use archiv_agent.Export.Segment.{bit_length, div_ceil, varint_len, put_varint_loop}
use archiv_agent.Export.Segment.{put_varint, delimited_tag}
use native.Mathlib.Nat.{pow-suc}

-- The groups of seven bits, lowest first, of a number below 128 ^ (k + 1).
unfoldable pub groups : ℕ → ℕ → Bytes
groups zero v = v ∷ []
groups (suc k) v =
    let rest = groups k (v / 128) in if ltb v 128 then v ∷ [] else (v % 128 + 128) ∷ rest

put_varint_loop-groups :
    (k v : ℕ) (out : Bytes) → v < 128 ^ suc k → put_varint_loop (suc k) v out ≡ out ++ groups k v
unfolding put_varint_loop groups
put_varint_loop-groups zero v out h = ground (arith, bit_and_group v)
put_varint_loop-groups (suc k) v out h = ground (
  arith,
  bit_and_group v,
  set_top_bit (v % 128),
  put_varint_loop-groups k (v / 128) (out ++ (v % 128 + 128) ∷ []),
  append_assoc out ((v % 128 + 128) ∷ []) (groups k (v / 128)),
)

bit_length_step : (b v : ℕ) → 0 < v → bit_length (suc b) v ≡ bit_length b (v / 2) + 1
unfolding bit_length
bit_length_step b v h = ground arith

bit_length-le : (b k v : ℕ) → v < 2 ^ k → bit_length b v ≤ k
unfolding bit_length
bit_length-le zero k v h = omega arith
bit_length-le (suc b) zero v h = ground arith
bit_length-le (suc b) (suc k) v h = ground (arith, bit_length-le b k (v / 2), pow-suc 2 k)

bit_length_seven :
    (b v : ℕ)
    → 128 ≤ v
    → bit_length (suc (suc (suc (suc (suc (suc (suc b))))))) v ≡ bit_length b (v / 128) + 7
bit_length_seven b v h =
    rw (bit_length_step _ v (omega arith), bit_length_step _ (v / 2) (omega arith))
      (omega (
        arith,
        bit_length_step (suc (suc (suc (suc b)))) (v / 2 / 2) (omega arith),
        bit_length_step (suc (suc (suc b))) (v / 2 / 2 / 2) (omega arith),
        bit_length_step (suc (suc b)) (v / 2 / 2 / 2 / 2) (omega arith),
        bit_length_step (suc b) (v / 2 / 2 / 2 / 2 / 2) (omega arith),
        bit_length_step b (v / 2 / 2 / 2 / 2 / 2 / 2) (omega arith),
        ap (bit_length b) halves,
      ))
  where
    halves : v / 2 / 2 / 2 / 2 / 2 / 2 / 2 ≡ v / 128
    halves = omega arith

bit_length-pos : (b v : ℕ) → 0 < v → 1 ≤ bit_length (suc b) v
bit_length-pos b v h = omega (arith, bit_length_step b v h)

bit_length-zero : (b : ℕ) → bit_length b 0 ≡ 0
bit_length-zero b = omega (arith, bit_length-le b 0 0 (omega arith))

seven_more : (n k : ℕ) → n ≡ 7 * suc k + 1 → n ≡ suc (suc (suc (suc (suc (suc (suc (7 * k + 1)))))))
seven_more n k h = omega arith

div_ceil_seven : (n : ℕ) → div_ceil (n + 7) 7 ≡ suc (div_ceil n 7)
div_ceil_seven n = ground arith

div_ceil_one : (n : ℕ) → 1 ≤ n → n ≤ 7 → div_ceil n 7 ≡ 1
div_ceil_one n h k = ground arith

bit_length-le_bits : (b v : ℕ) → bit_length b v ≤ b
unfolding bit_length
bit_length-le_bits zero v = omega arith
bit_length-le_bits (suc b) v = ground (arith, bit_length-le_bits b (v / 2))

-- A positive number of up to 7 k + 1 binary digits has as many groups as sevens of digits.
length-groups : (k v : ℕ) → 0 < v → div_ceil (bit_length (7 * k + 1) v) 7 ≡ length (groups k v)
unfolding groups
length-groups zero v h =
    div_ceil_one (bit_length 1 v) (bit_length-pos 0 v h) (omega (arith, bit_length-le_bits 1 v))
length-groups (suc k) v h = elim (Bool-cases (ltb v 128)) [
  | inl small ↦ rw small (
      div_ceil_one (bit_length (7 * suc k + 1) v)
        (rw (seven_more (7 * suc k + 1) k refl) (bit_length-pos _ v h))
        (bit_length-le (7 * suc k + 1) 7 v (ground arith)))
  | inr large ↦ rw (
    large,
    seven_more (7 * suc k + 1) k refl,
    bit_length_seven (7 * k + 1) v (ground arith),
    div_ceil_seven (bit_length (7 * k + 1) (v / 128)),
    length-groups k (v / 128) (ground arith),
  )
]

-- Setting the lowest bit leaves the number of groups.
length-groups_odd : (k v : ℕ) → length (groups k (v - v % 2 + 1)) ≡ length (groups k v)
unfolding groups
length-groups_odd zero v = refl
length-groups_odd (suc k) v =
    let e : (v - v % 2 + 1) / 128 ≡ v / 128 = omega arith in
    ground (arith, ap (λ w. length (groups k w)) e)

pub put_varint-groups : (v : ℕ) (out : Bytes) → v < 2 ^ 64 → put_varint v out ≡ out ++ groups 9 v
unfolding put_varint
put_varint-groups v out h = put_varint_loop-groups 9 v out (omega arith)

varint_len-groups : (v : ℕ) → varint_len v ≡ length (groups 9 v)
unfolding varint_len
varint_len-groups v =
    let w = v - v % 2 + 1 in
    let digits : 64 - (64 - bit_length 64 w) ≡ bit_length 64 w =
      omega (arith, bit_length-le_bits 64 w) in
    rw (bit_or-one v, digits) (length-groups 9 w (omega arith) ∙ length-groups_odd 9 v)

-- On every `u64`, `varint_len` is the number of bytes that `put_varint` appends, and what is already
-- in the output stays in front.
pub varint_len-put_varint :
    (v : ℕ) (out : Bytes)
    → v < 2 ^ 64
    → (length (put_varint v out) ≡ length out + varint_len v)
      × (put_varint v out ≡ out ++ put_varint v [])
varint_len-put_varint v out h =
    let e = put_varint-groups v out h in
    (rw (e, varint_len-groups v) (length-append out (groups 9 v)), rw (e, put_varint-groups v [] h))

put_varint_loop-append :
    (rounds v : ℕ) (out : Bytes) → put_varint_loop rounds v out ≡ out ++ put_varint_loop rounds v []
unfolding put_varint_loop
put_varint_loop-append zero v out = sym (append-nil out)
put_varint_loop-append (suc rounds) v out =
    let b : ℕ = bit_or (bit_and v 0x7f) 0x80 in
    ground (
      arith,
      put_varint_loop-append rounds (v / 128) (out ++ b ∷ []),
      put_varint_loop-append rounds (v / 128) (b ∷ []),
      append_assoc out (b ∷ []) (put_varint_loop rounds (v / 128) []),
    )

-- `put_varint` keeps what is already in the output, in front.
pub put_varint-append : (v : ℕ) (out : Bytes) → put_varint v out ≡ out ++ put_varint v []
unfolding put_varint
put_varint-append v out = put_varint_loop-append 10 v out

-- The tag of a length-delimited field.
pub delimited_tag-lt : (field : ℕ) → field < 2 ^ 32 → delimited_tag field < 2 ^ 64
delimited_tag-lt field h =
    let low : field * 8 % 2 ^ 64 ≡ field * 8 = omega arith in
    rw low (omega (arith, bit_or_two (field * 8) (omega arith)))
