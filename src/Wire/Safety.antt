-- ===== src/Wire/Safety.antt =====
-- The reads of `WireCursor` in crates/archiv-ingest/src/otlp.rs, and the rule for a field loop.
use archiv_agent.Base.{ℕ, zero, suc, ◌+◌, ◌-◌, ◌*◌, ◌≤◌, ◌<◌, ◌^◌, ◌≡◌, refl, arith}
use archiv_agent.Base.{leb, ltb, ◌==◌, length, get_elem?_lt}
use archiv_agent.Base.{
  bit_and, Safe, safe_ok, safe_err, Safe-bind, Safe-map, Safe-map_err, Run, Safe-if,
}
use archiv_agent.Wire.{Bytes, Range, WireCursor, done, byte, varint_loop, varint}
use archiv_agent.Wire.{
  tag, len_range, advance, skip, ParseError, Flow, next, stop, resume, Body, walk_loop, walk,
}

-- The window lies in the buffer.
abbrev pub IsInside : WireCursor → Type 0
IsInside c = c.end ≤ length c.buf

-- `c'` is `c` after a read of at least one byte, still in the window.
pub record Moved (c c' : WireCursor) : Type 0 where
  pub same_buf : c'.buf ≡ c.buf
  pub same_end : c'.end ≡ c.end
  pub forward : c.pos < c'.pos
  pub within : c'.pos ≤ c.end

pub Moved-trans : {a b c : WireCursor} → Moved a b → Moved b c → Moved a c
Moved-trans p q = ground arith

pub Moved-IsInside : {c c' : WireCursor} → IsInside c → Moved c c' → IsInside c'
Moved-IsInside h m = ground arith

pub byte-Safe : (c : WireCursor) → IsInside c → Safe (λ r. Moved c r.1) (byte c)
unfolding byte
byte-Safe c h =
    Safe-if _ (leb c.end c.pos) (λ _. safe_err)
      λ open_ended.
        let (b, e) = get_elem?_lt c.buf c.pos (ground arith) in
        rw e (
          safe_ok (record {
            same_buf = refl;
            same_end = refl;
            forward = omega arith;
            within = ground arith;
          }))

-- With `fuel` rounds left for the groups up to shift 63 and one more, the loop ends.
varint_loop-Safe :
    (fuel start v shift : ℕ) (c : WireCursor)
    → IsInside c
    → 71 ≤ shift + 7 * fuel
    → 1 ≤ fuel
    → Safe (λ r. Moved c r.1) (varint_loop fuel start v shift c)
unfolding varint_loop
varint_loop-Safe zero start v shift c h f g = absurd (omega arith)
varint_loop-Safe (suc fuel) start v shift c h f g = Safe-bind _ _ (byte-Safe c h) λ (b, c') m.
    Safe-if _ (leb 64 shift) (λ _. safe_err)
      λ small.
        Safe-if _ (bit_and b 0x80 == 0) (λ _. safe_ok m)
          λ _.
            Safe-map
              (varint_loop-Safe fuel start _ (shift + 7) c' (Moved-IsInside h m) (ground arith)
                (ground arith))
              (λ _ n. Moved-trans m n)

pub varint-Safe : (c : WireCursor) → IsInside c → Safe (λ r. Moved c r.1) (varint c)
unfolding varint
varint-Safe c h = varint_loop-Safe 11 c.pos 0 0 c h (omega arith) (omega arith)

pub tag-Safe : (c : WireCursor) → IsInside c → Safe (λ r. Moved c r.1) (tag c)
unfolding tag
tag-Safe c h = Safe-bind _ _ (varint-Safe c h) λ (t, c') m. safe_ok m

-- The range that `len_range` returns: behind the length, in the window, up to the new position.
pub record Delimited (c : WireCursor) (r : Range) (c' : WireCursor) : Type 0 where
  pub moved : Moved c c'
  pub behind : c.pos < r.start
  pub ordered : r.start ≤ r.end
  pub ends_at : r.end ≡ c'.pos

pub len_range-Safe : (c : WireCursor) → IsInside c → Safe (λ r. Delimited c r.0 r.1) (len_range c)
unfolding len_range
len_range-Safe c h = Safe-bind _ _ (varint-Safe c h) λ (len, c') m.
    Safe-if _ (leb (2 ^ 64) (c'.pos + len)) (λ _. safe_err)
      λ _.
        Safe-if _ (ltb c'.end (c'.pos + len)) (λ _. safe_err)
          λ fits. safe_ok (record {
            moved = ground arith;
            behind = omega arith;
            ordered = omega arith;
            ends_at = refl;
          })

pub advance-Safe :
    (n : ℕ) (c : WireCursor) → IsInside c → 0 < n → Safe (λ c'. Moved c c') (advance n c)
unfolding advance
advance-Safe n c h pos =
    Safe-if _ (leb (2 ^ 64) (c.pos + n)) (λ _. safe_err)
      λ _. Safe-if _ (ltb c.end (c.pos + n)) (λ _. safe_err) λ fits. safe_ok (ground arith)

pub skip-Safe : (wire : ℕ) (c : WireCursor) → IsInside c → Safe (λ c'. Moved c c') (skip wire c)
unfolding skip
skip-Safe wire c h =
    Safe-if _ (wire == 0) (λ _. Safe-bind _ _ (varint-Safe c h) λ (_, c') m. safe_ok m)
      λ _.
        Safe-if _ (wire == 1) (λ _. advance-Safe 8 c h (omega arith))
          λ _.
            Safe-if _ (wire == 2)
              (λ _. Safe-bind _ _ (len_range-Safe c h) λ (_, c') d. safe_ok d.moved)
              λ _. Safe-if _ (wire == 5) (λ _. advance-Safe 4 c h (omega arith)) (λ _. safe_err)

-- The cursor is still in the window of `c`, perhaps with nothing read.
pub record Onward (c c' : WireCursor) : Type 0 where
  pub same_buf : c'.buf ≡ c.buf
  pub same_end : c'.end ≡ c.end
  pub forward : c.pos ≤ c'.pos

-- A cursor over the window of `buf` that ends at `limit`.
pub record At (buf : Bytes) (limit : ℕ) (c : WireCursor) : Type 0 where
  pub same_buf : c.buf ≡ buf
  pub same_end : c.end ≡ limit

-- What a round must establish: the invariant behind the field, or the result.
pub data Kept {S A : Type 0} (I : S → Type 0) (P : A → Type 0) (c : WireCursor)
    : Flow S A → Type 0 where
  kept_next : {s : S} {c' : WireCursor} → I s → Onward c c' → Kept I P c (next s c')
  kept_stop : {a : A} → P a → Kept I P c (stop a)

-- The rule for a field loop: an invariant of the state that each round keeps, whatever the field.
module _ {S A E : Type 0} (from : ParseError → E) (I : S → Type 0) (P : A → Type 0) where
  resume-Safe :
      (c : WireCursor) {flow : Flow S A} (go_on : S → WireCursor → Run E A)
      → Kept I P c flow
      → ((s : S) (c' : WireCursor) → I s → Onward c c' → Safe P (go_on s c'))
      → Safe P (resume flow go_on)
  resume-Safe c go_on (kept_next {s} {c'} i m) k = k s c' i m
  resume-Safe c go_on (kept_stop p) k = safe_ok p

  module _ (buf : Bytes) (limit : ℕ) (inside : limit ≤ length buf) (on : Body E S A) where
    -- The body keeps the invariant, at every cursor of the window.
    abbrev pub Keeps : Type 0
    Keeps =
        (s : S) (start field wire : ℕ) (c : WireCursor)
        → I s
        → At buf limit c
        → start ≤ limit
        → Safe (Kept I P c) (on s start field wire c)

    walk_loop-Safe :
        (finish : S → A) (fuel : ℕ) (s : S) (c : WireCursor)
        → ((s' : S) → I s' → P (finish s'))
        → Keeps
        → At buf limit c
        → limit ≤ c.pos + fuel
        → I s
        → Safe P (walk_loop from on finish fuel s c)
    unfolding walk_loop done
    walk_loop-Safe finish zero s c fin keep h f i =
        Safe-if _ (leb c.end c.pos) (λ _. safe_ok (fin s i)) λ e. absurd (ground arith)
    walk_loop-Safe finish (suc fuel) s c fin keep h f i =
        Safe-if _ (leb c.end c.pos) (λ _. safe_ok (fin s i))
          λ e.
            Safe-bind _ _ (Safe-map_err from (tag-Safe c (ground arith))) λ ((field, wire), c') m.
              Safe-bind _ _ (keep s c.pos field wire c' i (ground arith) (ground arith)) λ flow k.
                resume-Safe c' _ k λ s' c'' i' o.
                  walk_loop-Safe finish fuel s' c'' fin keep (ground arith) (ground arith) i'

    pub walk-Safe :
        (finish : S → A) (s : S) (c : WireCursor)
        → ((s' : S) → I s' → P (finish s'))
        → Keeps
        → At buf limit c
        → I s
        → Safe P (walk from on finish s c)
    unfolding walk
    walk-Safe finish s c fin keep h i =
        walk_loop-Safe finish (c.end - c.pos) s c fin keep h (ground arith) i
