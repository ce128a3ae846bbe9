-- ===== src/Export/Segment/RoundTrip.antt =====
-- `put_varint` of crates/archiv-export/src/lib.rs against `varint` of
-- crates/archiv-ingest/src/otlp.rs.
use archiv_agent.Base.{ℕ, zero, suc, ◌+◌, ◌*◌, ◌/◌, ◌%◌, ◌^◌, ◌<◌, ◌≤◌, ◌≡◌, ◌∙◌, ap, arith}
use archiv_agent.Base.{[], ◌∷◌, ◌++◌, length, ltb, ◌==◌, drop}
use archiv_agent.Base.{if◌then◌else◌, bit_and, Bool-cases, inl, inr, get_elem?, some, ok}
use archiv_agent.Base.{lt→leb, lt→ltb, ltb→lt, false}
use archiv_agent.Base.Bits.{bit_and_group, top_bit, bit_or_shifted}
use archiv_agent.Wire.{Bytes, WireCursor, byte, or_group, varint_loop, varint}
use archiv_agent.Export.Segment.{put_varint}
use archiv_agent.Export.Segment.VarintLen.{groups, put_varint-groups}
use native.Mathlib.Numerals.{towards_suc, add-one}

-- The bytes in front of the cursor are `text`, inside the window.
pub record Ahead (c : WireCursor) (text rest : Bytes) : Type 0 where
  pub reads : drop c.pos c.buf ≡ text ++ rest
  pub room : c.pos + length text ≤ c.end

drop_head :
    (xs : Bytes) (i x : ℕ) (rest : Bytes)
    → drop i xs ≡ x ∷ rest
    → (get_elem? xs i ≡ some x) × (drop (suc i) xs ≡ rest)
drop_head [] zero x rest e = cc
drop_head [] (suc i) x rest e = cc
drop_head (y ∷ xs) zero x rest e = (cc, cc)
drop_head (y ∷ xs) (suc i) x rest e = drop_head xs i x rest e

byte-Ahead :
    (c : WireCursor) (b : ℕ) (text rest : Bytes)
    → Ahead c (b ∷ text) rest
    → (byte c ≡ ok (b, record c { pos = c.pos + 1 }))
      × Ahead (record c { pos = c.pos + 1 }) text rest
unfolding byte
byte-Ahead c b text rest a =
    let (front, behind) = drop_head c.buf c.pos b (text ++ rest) a.reads in
    (
      rw (lt→leb c.end c.pos (omega arith), front),
      record { reads = rw (add-one c.pos) behind; room = omega arith },
    )

-- One round of the loop on the byte `b`, with the shift in range.
abbrev moved : WireCursor → ℕ → WireCursor
moved c n = record c { pos = c.pos + n }

round :
    (fuel start acc shift : ℕ) (c : WireCursor) (b : ℕ) (text rest : Bytes)
    → Ahead c (b ∷ text) rest
    → shift ≤ 63
    → varint_loop (suc fuel) start acc shift c ≡ (
        if bit_and b 0x80 == 0
        then ok (or_group acc b shift, moved c 1)
        else varint_loop fuel start (or_group acc b shift) (shift + 7) (moved c 1))
unfolding varint_loop
round fuel start acc shift c b text rest a h =
    rw ((byte-Ahead c b text rest a).0, lt→leb 64 shift (omega arith))

group_added :
    (acc b g shift : ℕ)
    → b % 128 ≡ g
    → acc < 2 ^ shift
    → g * 2 ^ shift < 2 ^ 64
    → or_group acc b shift ≡ acc + g * 2 ^ shift
group_added acc b g shift e h k =
    let masked : bit_and b 0x7f ≡ g = bit_and_group b ∙ e in
    let fits : g * 2 ^ shift % 2 ^ 64 ≡ g * 2 ^ shift = omega arith in
    rw (masked, fits) (bit_or_shifted shift acc g h)

-- A number at a shift is its lowest group there, and the other groups seven places on.
shifted_groups : (v s : ℕ) → v * 2 ^ s ≡ v % 128 * 2 ^ s + v / 128 * 2 ^ (s + 7)
shifted_groups v s =
    let wider : 2 ^ (s + 7) ≡ 128 * 2 ^ s = simp towards_suc (omega arith) in
    let whole : v ≡ v % 128 + v / 128 * 128 = omega arith in
    omega (arith, ap (λ (t : ℕ). t * 2 ^ s) whole, ap (λ (t : ℕ). v / 128 * t) wider)

last_round :
    (fuel start acc v shift : ℕ) (c : WireCursor) (rest : Bytes)
    → Ahead c (v ∷ []) rest
    → v < 128
    → shift ≤ 63
    → acc < 2 ^ shift
    → acc + v * 2 ^ shift < 2 ^ 64
    → varint_loop (suc fuel) start acc shift c ≡ ok (acc + v * 2 ^ shift, moved c 1)
last_round fuel start acc v shift c rest a small h k fits =
    round fuel start acc shift c v [] rest a h
    ∙ rw (top_bit v (omega arith), group_added acc v v shift (omega arith) k (omega arith))
        (ground arith)

groups_small : (k v : ℕ) → v < 128 → groups (suc k) v ≡ v ∷ []
unfolding groups
groups_small k v h = rw (lt→ltb v 128 h)

groups_large :
    (k v : ℕ) → ltb v 128 ≡ false → groups (suc k) v ≡ (v % 128 + 128) ∷ groups k (v / 128)
unfolding groups
groups_large k v h = rw h

acc_grows : (acc g s : ℕ) → acc < 2 ^ s → g < 128 → acc + g * 2 ^ s < 2 ^ (s + 7)
acc_grows acc g s h k =
    let wider : 2 ^ (s + 7) ≡ 128 * 2 ^ s = simp towards_suc (omega arith) in grind arith

loop-groups :
    (k fuel start acc v shift : ℕ) (c : WireCursor) (rest : Bytes)
    → Ahead c (groups k v) rest
    → v < 128 ^ suc k
    → k < fuel
    → shift + 7 * k ≤ 63
    → acc < 2 ^ shift
    → acc + v * 2 ^ shift < 2 ^ 64
    → varint_loop fuel start acc shift c ≡ ok (acc + v * 2 ^ shift, moved c (length (groups k v)))
loop-groups k zero start acc v shift c rest a hv hf hs ha fits = absurd (omega arith)
loop-groups zero (suc fuel) start acc v shift c rest a hv hf hs ha fits =
    unfold groups in last_round fuel start acc v shift c rest a (omega arith) (omega arith) ha fits
loop-groups (suc k) (suc fuel) start acc v shift c rest a hv hf hs ha fits =
    elim (Bool-cases (ltb v 128)) [
      | inl small ↦ rw (groups_small k v (ltb→lt v 128 small)) (
          last_round fuel start acc v shift c rest (rw (groups_small k v (ltb→lt v 128 small)) at a)
            (ltb→lt v 128 small) (omega arith) ha fits)
      | inr large ↦
          let b : ℕ = v % 128 + 128 in
          let a' : Ahead c (b ∷ groups k (v / 128)) rest = rw (groups_large k v large) at a in
          let split = shifted_groups v shift in
          let added : or_group acc b shift ≡ acc + v % 128 * 2 ^ shift =
            group_added acc b (v % 128) shift (omega arith) ha (omega arith) in
          rw (groups_large k v large) (
            round fuel start acc shift c b (groups k (v / 128)) rest a' (omega arith)
            ∙ rw (top_bit b (omega arith), added)
                (ground (
                  arith,
                  loop-groups k fuel start (acc + v % 128 * 2 ^ shift) (v / 128) (shift + 7)
                      (moved c 1) rest (byte-Ahead c b (groups k (v / 128)) rest a').1 (omega arith)
                      (omega arith) (omega arith) (acc_grows acc (v % 128) shift ha (omega arith))
                      (omega arith),
                )))
    ]

-- Where the bytes ahead in the window are those that `put_varint` writes for a `u64`, the cursor
-- reads that number and stops behind them.
pub varint-put_varint :
    (v : ℕ) (c : WireCursor) (rest : Bytes)
    → v < 2 ^ 64
    → Ahead c (put_varint v []) rest
    → varint c ≡ ok (v, record c { pos = c.pos + length (put_varint v []) })
unfolding varint
varint-put_varint v c rest h a =
    let e = put_varint-groups v [] h in
    let same : 0 + v * 2 ^ 0 ≡ v = omega arith in
    rw e (
      loop-groups 9 11 c.pos 0 v 0 c rest (rw e at a) (omega arith) (omega arith) (omega arith)
        (omega arith) (omega arith)
      ∙ ap (λ t. ok (t, moved c (length (groups 9 v)))) same)
