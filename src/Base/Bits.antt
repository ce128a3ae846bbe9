-- ===== src/Base/Bits.antt =====
-- Bit operations as arithmetic: masks of a byte by tables, and `|` of numbers with no common bit.
use Prim.Native.Nat.{
  ℕ, zero, suc, ◌+◌, ◌-◌, ◌*◌, ◌/◌, ◌%◌, ◌^◌, ◌≤◌, ◌<◌, min, max, bit_and, bit_or,
}
use Prim.Native.Nat.{digits, bit_and-bitwise, bit_or-bitwise}
use native.Mathlib.Nat.{pow-suc}
use mathlib.Core.Path.{◌≡◌, refl, ap}
use mathlib.Core.Bool.{Bool, true, ◌&&◌}
use native.Mathlib.Omega.{arith}
use archiv_agent.Base.Tests.{◌==◌}

module _ (f g : ℕ → ℕ) where
  agree_below : ℕ → Bool
  agree_below zero = true
  agree_below (suc n) = f n == g n && agree_below n

  agree_below→eq : (n : ℕ) → agree_below n ≡ true → (i : ℕ) → i < n → f i ≡ g i
  unfolding agree_below
  agree_below→eq zero e i h = absurd (omega arith)
  agree_below→eq (suc n) e i h = ground (arith, agree_below→eq n (ground arith) i)

pub low_bits : (b : ℕ) → b < 256 → bit_and b 0x7f ≡ b % 128
unfolding agree_below
low_bits = agree_below→eq _ _ 256 refl

pub top_bit : (b : ℕ) → b < 256 → bit_and b 0x80 ≡ b / 128 * 128
unfolding agree_below
top_bit = agree_below→eq _ _ 256 refl

pub set_top_bit : (b : ℕ) → b < 128 → bit_or b 0x80 ≡ b + 128
unfolding agree_below
set_top_bit = agree_below→eq _ _ 128 refl

-- The recursion behind `bit_or` does not depend on its count once that is large enough.
abbrev or_digits : ℕ → ℕ → ℕ → ℕ
or_digits n a b = digits (λ y. y) max n a b

or_digits_enough : (n m a b : ℕ) → a ≤ n → a ≤ m → or_digits n a b ≡ or_digits m a b
or_digits_enough zero zero a b p q = refl
or_digits_enough zero (suc m) zero b p q = refl
or_digits_enough zero (suc m) (suc a) b p q = absurd (omega arith)
or_digits_enough (suc n) zero zero b p q = refl
or_digits_enough (suc n) zero (suc a) b p q = absurd (omega arith)
or_digits_enough (suc n) (suc m) zero b p q = refl
or_digits_enough (suc n) (suc m) (suc a) b p q =
    omega (arith, or_digits_enough n m (suc a / 2) (b / 2) (omega arith) (omega arith))

bit_or_digit : (a b : ℕ) → bit_or a b ≡ bit_or (a / 2) (b / 2) * 2 + max (a % 2) (b % 2)
bit_or_digit zero b = omega (arith, bit_or-bitwise 0 b, bit_or-bitwise 0 (b / 2))
bit_or_digit (suc a) b = omega (
  arith,
  bit_or-bitwise (suc a) b,
  bit_or-bitwise (suc a / 2) (b / 2),
  or_digits_enough a (suc a / 2) (suc a / 2) (b / 2) (omega arith) (omega arith),
)

pow_double : (x s : ℕ) → x * 2 ^ suc s ≡ 2 * (x * 2 ^ s)
pow_double x s = omega (arith, ap (λ (t : ℕ). x * t) (pow-suc 2 s))

-- `v | (x << s)` adds, when `v` fits `s` bits.
pub bit_or_shifted : (s v x : ℕ) → v < 2 ^ s → bit_or v (x * 2 ^ s) ≡ v + x * 2 ^ s
bit_or_shifted zero zero x h = omega (arith, bit_or-bitwise 0 (x * 2 ^ 0))
bit_or_shifted zero (suc v) x h = absurd (omega arith)
bit_or_shifted (suc s) v x h =
    ground (
      arith,
      bit_or_digit v (x * 2 ^ suc s),
      pow_double x s,
      pow-suc 2 s,
      bit_or_shifted s (v / 2) x,
    )

-- A byte from its two halves.
pub join_nibbles : (b : ℕ) → b < 256 → bit_or (b / 16 * 16 % 256) (b % 16) ≡ b
unfolding agree_below
join_nibbles = agree_below→eq (λ b. bit_or (b / 16 * 16 % 256) (b % 16)) (λ b. b) 256 refl

bit_or-zero_below : (n a : ℕ) → a ≤ n → bit_or a 0 ≡ a
bit_or-zero_below n zero h = bit_or-bitwise 0 0
bit_or-zero_below zero (suc a) h = absurd (omega arith)
bit_or-zero_below (suc n) (suc a) h =
    omega (arith, bit_or_digit (suc a) 0, bit_or-zero_below n (suc a / 2) (omega arith))

-- `v | 1` sets the lowest bit.
pub bit_or-one : (v : ℕ) → bit_or v 1 ≡ v - v % 2 + 1
bit_or-one v = omega (arith, bit_or_digit v 1, bit_or-zero_below (v / 2) (v / 2) (omega arith))

pub bit_or_two : (v : ℕ) → v % 4 ≡ 0 → bit_or v 2 ≡ v + 2
bit_or_two v h = omega (arith, bit_or_digit v 2, bit_or-one (v / 2))

abbrev and_digits : ℕ → ℕ → ℕ → ℕ
and_digits n a b = digits (λ _. 0) min n a b

and_digits_enough : (n m a b : ℕ) → a ≤ n → a ≤ m → and_digits n a b ≡ and_digits m a b
and_digits_enough zero zero a b p q = refl
and_digits_enough zero (suc m) zero b p q = refl
and_digits_enough zero (suc m) (suc a) b p q = absurd (omega arith)
and_digits_enough (suc n) zero zero b p q = refl
and_digits_enough (suc n) zero (suc a) b p q = absurd (omega arith)
and_digits_enough (suc n) (suc m) zero b p q = refl
and_digits_enough (suc n) (suc m) (suc a) b p q =
    omega (arith, and_digits_enough n m (suc a / 2) (b / 2) (omega arith) (omega arith))

bit_and_digit : (a b : ℕ) → bit_and a b ≡ bit_and (a / 2) (b / 2) * 2 + min (a % 2) (b % 2)
bit_and_digit zero b = omega (arith, bit_and-bitwise 0 b, bit_and-bitwise 0 (b / 2))
bit_and_digit (suc a) b = omega (
  arith,
  bit_and-bitwise (suc a) b,
  bit_and-bitwise (suc a / 2) (b / 2),
  and_digits_enough a (suc a / 2) (suc a / 2) (b / 2) (omega arith) (omega arith),
)

bit_and-zero_below : (n a : ℕ) → a ≤ n → bit_and a 0 ≡ 0
bit_and-zero_below n zero h = bit_and-bitwise 0 0
bit_and-zero_below zero (suc a) h = absurd (omega arith)
bit_and-zero_below (suc n) (suc a) h =
    omega (arith, bit_and_digit (suc a) 0, bit_and-zero_below n (suc a / 2) (omega arith))

-- `v & n` for a mask of ones is a remainder.
bit_and_one : (v : ℕ) → bit_and v 1 ≡ v % 2
bit_and_one v = omega (arith, bit_and_digit v 1, bit_and-zero_below (v / 2) (v / 2) (omega arith))

bit_and_three : (v : ℕ) → bit_and v 3 ≡ v % 4
bit_and_three v = omega (arith, bit_and_digit v 3, bit_and_one (v / 2))

pub bit_and_seven : (v : ℕ) → bit_and v 7 ≡ v % 8
bit_and_seven v = omega (arith, bit_and_digit v 7, bit_and_three (v / 2))

bit_and_fifteen : (v : ℕ) → bit_and v 15 ≡ v % 16
bit_and_fifteen v = omega (arith, bit_and_digit v 15, bit_and_seven (v / 2))

bit_and_low_five : (v : ℕ) → bit_and v 31 ≡ v % 32
bit_and_low_five v = omega (arith, bit_and_digit v 31, bit_and_fifteen (v / 2))

bit_and_low_six : (v : ℕ) → bit_and v 63 ≡ v % 64
bit_and_low_six v = omega (arith, bit_and_digit v 63, bit_and_low_five (v / 2))

pub bit_and_group : (v : ℕ) → bit_and v 127 ≡ v % 128
bit_and_group v = omega (arith, bit_and_digit v 127, bit_and_low_six (v / 2))
