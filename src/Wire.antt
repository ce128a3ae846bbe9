-- ===== src/Wire.antt =====
-- The cursor over one window of a protobuf buffer: `WireCursor` of
-- crates/archiv-ingest/src/otlp.rs. A buffer is a list of bytes, an offset is a number, and `usize`
-- has 64 bits. A read past the end of the buffer itself would panic.
pub mod Safety
use archiv_agent.Base.{ℕ, zero, suc, ◌+◌, ◌-◌, ◌*◌, ◌/◌, ◌%◌, ◌^◌, ◌≤◌, bit_and, bit_or}
use archiv_agent.Base.{List, Option, none, some, Bool, leb, ltb, ◌==◌, if◌then◌else◌, get_elem?}
use archiv_agent.Base.{Run, ok, err, panic, out_of_fuel, ◌>>=◌, map_err, length, take, drop, ◌&&◌}

abbrev pub Bytes : Type 0
Bytes = List ℕ

-- Rust's `Range<usize>`.
pub record Range : Type 0 where
  pub start : ℕ
  pub end : ℕ

-- `r.len()` of a range, which is empty when it is reversed.
abbrev pub range_len : Range → ℕ
range_len r = r.end - r.start

abbrev pub slice : Bytes → Range → Bytes
slice buf r = take (r.end - r.start) (drop r.start buf)

-- `buf.get(r.start..r.end)`.
abbrev pub get_range : Bytes → Range → Option Bytes
get_range buf r = if leb r.start r.end && leb r.end (length buf) then some (slice buf r) else none

pub data ParseError : Type 0 where
  truncated : ℕ → ParseError
  varint_overflow : ℕ → ParseError
  unsupported_wire : ℕ → ℕ → ParseError
  length_overrun : ℕ → ParseError

pub record WireCursor : Type 0 where
  pub buf : Bytes
  pub pos : ℕ
  pub end : ℕ

-- What a cursor's method returns: its value and the moved cursor.
abbrev pub Read : Type 0 → Type 0
Read A = Run ParseError (A × WireCursor)

unfoldable pub new : Bytes → Range → WireCursor
new buf window = record { buf = buf; pos = window.start; end = window.end }

unfoldable pub done : WireCursor → Bool
done c = leb c.end c.pos

-- `self.buf[self.pos]`, which panics out of bounds.
abbrev index : Option ℕ → WireCursor → Read ℕ
index none c = panic
index (some b) c = ok (b, record c { pos = c.pos + 1 })

unfoldable pub byte : WireCursor → Read ℕ
byte c = if leb c.end c.pos then err (truncated c.pos) else index (get_elem? c.buf c.pos) c

-- `v |= u64::from(b & 0x7F) << shift`, for a shift below 64.
abbrev pub or_group : ℕ → ℕ → ℕ → ℕ
or_group v b shift = bit_or v (bit_and b 0x7f * 2 ^ shift % 2 ^ 64)

unfoldable pub varint_loop : ℕ → ℕ → ℕ → ℕ → WireCursor → Read ℕ
varint_loop zero start v shift c = out_of_fuel
varint_loop (suc fuel) start v shift c = do
  (b, c') ← byte c
  let v' = or_group v b shift
  let rest = varint_loop fuel start v' (shift + 7) c'
  (if leb 64 shift
      then err (varint_overflow start)
      else if bit_and b 0x80 == 0
      then ok (v', c')
      else rest)

-- The shift passes 63 in the eleventh round, so eleven rounds are enough.
unfoldable pub varint : WireCursor → Read ℕ
varint c = varint_loop 11 c.pos 0 0 c

-- `((t >> 3) as u32, (t & 0x7) as u8)`
unfoldable pub tag : WireCursor → Read (ℕ × ℕ)
tag c = do (t, c') ← varint c; ok ((t / 8 % 2 ^ 32, bit_and t 7), c')

unfoldable pub len_range : WireCursor → Read Range
len_range c = do
  (len, c') ← varint c
  let start = c'.pos
  (if leb (2 ^ 64) (start + len)
      then err (length_overrun c.pos)
      else if ltb c'.end (start + len)
      then err (length_overrun c.pos)
      else ok (record { start = start; end = start + len }, record c' { pos = start + len }))

unfoldable pub advance : ℕ → WireCursor → Run ParseError WireCursor
advance n c =
    if leb (2 ^ 64) (c.pos + n)
    then err (truncated c.pos)
    else if ltb c.end (c.pos + n)
    then err (truncated c.pos)
    else ok (record c { pos = c.pos + n })

unfoldable pub skip : ℕ → WireCursor → Run ParseError WireCursor
skip wire c =
    if wire == 0
    then (do (_, c') ← varint c; ok c')
    else if wire == 1
    then advance 8 c
    else if wire == 2
    then (do (_, c') ← len_range c; ok c')
    else if wire == 5
    then advance 4 c
    else err (unsupported_wire wire c.pos)

-- One round of a field loop goes on with a new state behind the field, or returns at once.
pub data Flow (S A : Type 0) : Type 0 where
  next : S → WireCursor → Flow S A
  stop : A → Flow S A

abbrev pub resume : {S A E : Type 0} → Flow S A → (S → WireCursor → Run E A) → Run E A
resume (next s c) go_on = go_on s c
resume (stop a) go_on = ok a

-- The body of a field loop: the state, where the tag began, the field, the wire type, the cursor.
abbrev pub Body : Type 0 → Type 0 → Type 0 → Type 0
Body E S A = S → ℕ → ℕ → ℕ → WireCursor → Run E (Flow S A)

-- `while !cur.done() { let tag_start = cur.pos(); let (field, wire) = cur.tag()?; … }`, the loop of
-- every walk over a message: `on` is the body behind the tag, `from` the conversion of `?`, and
-- `finish` what follows the loop.
module _ {S A E : Type 0} (from : ParseError → E) where
  unfoldable pub walk_loop : Body E S A → (S → A) → ℕ → S → WireCursor → Run E A
  walk_loop on finish zero s c = if done c then ok (finish s) else out_of_fuel
  walk_loop on finish (suc fuel) s c = if done c then ok (finish s) else (do
    ((field, wire), c') ← map_err from (tag c)
    flow ← on s c.pos field wire c'
    resume flow (walk_loop on finish fuel))

  -- A round takes a byte at least, so the window's length bounds the rounds.
  unfoldable pub walk : Body E S A → (S → A) → S → WireCursor → Run E A
  unfolding walk_loop
  walk on finish s c = walk_loop on finish (c.end - c.pos) s c
