-- ===== src/Spool/Names.antt =====
-- The file names of src/spool.rs, written and parsed.
use archiv_agent.Base.{
  ℕ, zero, suc, ◌+◌, ◌-◌, ◌*◌, ◌/◌, ◌%◌, ◌^◌, ◌<◌, ◌≡◌, refl, arith, [], ◌∷◌, ◌++◌, true, some,
  length, length-append, take-append, drop-append, leb, bytes_eq_iff, lt→ltb, codes,
}
use archiv_agent.Wire.{Bytes}
use archiv_agent.Base.{is_digit}
use archiv_agent.Spool.{digits, otlp_name, all_digits, value, strip_suffix, parse_seq}

pow10 : ℕ → ℕ
pow10 zero = 1
pow10 (suc k) = pow10 k * 10

pub length-digits : (k v : ℕ) → length (digits k v) ≡ k
unfolding digits
length-digits zero v = refl
length-digits (suc k) v =
    omega
      (arith, length-append (digits k (v / 10)) ((b'0' + v % 10) ∷ []), length-digits k (v / 10))

all_digits-snoc :
    (xs : Bytes) (b : ℕ)
    → all_digits xs ≡ true
    → is_digit b ≡ true
    → all_digits (xs ++ b ∷ []) ≡ true
all_digits-snoc [] b h k = rw k refl
all_digits-snoc (x ∷ xs) b h k = ground (arith, all_digits-snoc xs b)

all_digits-digits : (k v : ℕ) → all_digits (digits k v) ≡ true
unfolding digits
all_digits-digits zero v = refl
all_digits-digits (suc k) v =
    all_digits-snoc (digits k (v / 10)) _ (all_digits-digits k (v / 10)) (ground arith)

value-snoc : (xs : Bytes) (b acc : ℕ) → value acc (xs ++ b ∷ []) ≡ value acc xs * 10 + (b - b'0')
unfolding value
value-snoc [] b acc = refl
value-snoc (x ∷ xs) b acc = value-snoc xs b (acc * 10 + (x - b'0'))

value-digits : (k v : ℕ) → v < pow10 k → value 0 (digits k v) ≡ v
unfolding digits value pow10
value-digits zero v h = omega arith
value-digits (suc k) v h =
    omega (
      arith,
      value-snoc (digits k (v / 10)) (b'0' + v % 10) 0,
      value-digits k (v / 10) (omega arith),
    )

strip_suffix-append : (xs suffix : Bytes) → strip_suffix suffix (xs ++ suffix) ≡ some xs
strip_suffix-append xs suffix =
    let n : length (xs ++ suffix) - length suffix ≡ length xs =
      omega (arith, length-append xs suffix) in
    let long : leb (length suffix) (length (xs ++ suffix)) ≡ true =
      ground (arith, length-append xs suffix) in
    rw (n, long, drop-append xs suffix, (bytes_eq_iff suffix suffix).1 refl, take-append xs suffix)
      refl

-- The file name that a payload is published under is read back, on recovery, as its sequence number,
-- for every `u64`.
pub parse_seq-otlp_name : (seq : ℕ) → seq < 2 ^ 64 → parse_seq (otlp_name seq) ≡ some seq
unfolding parse_seq otlp_name pow10
parse_seq-otlp_name seq h =
    rw
      (
        strip_suffix-append (digits 20 seq) (codes ".otlp"),
        length-digits 20 seq,
        all_digits-digits 20 seq,
        value-digits 20 seq small,
        lt→ltb _ _ h,
      )
      refl
  where
    small : seq < pow10 20
    small = omega arith
