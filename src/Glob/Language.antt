-- ===== src/Glob/Language.antt =====
-- What it means for a key to match a pattern, with no search order in it.
use archiv_agent.Base.{ℕ, ◌≡◌, ◌≢◌, refl, arith, Bool, true, false, ◌==◌, if◌then◌else◌}
use archiv_agent.Base.{[], ◌∷◌, All}
use archiv_agent.Wire.{Bytes}

-- `*` stands for any run of bytes, every other byte for itself.
pub data Matches : Bytes → Bytes → Type 0 where
  empty : Matches [] []
  byte : {x c : ℕ} {p s : Bytes} → x ≡ c → x ≢ b'*' → Matches p s → Matches (x ∷ p) (c ∷ s)
  leave : {x : ℕ} {p s : Bytes} → x ≡ b'*' → Matches p s → Matches (x ∷ p) s
  take : {x c : ℕ} {p s : Bytes} → x ≡ b'*' → Matches (x ∷ p) s → Matches (x ∷ p) (c ∷ s)

abbrev pub only_stars : Bytes → Bool
only_stars [] = true
only_stars (x ∷ p) = if x == b'*' then only_stars p else false

-- No byte of the key is a `*`.
abbrev pub IsStarFree : Bytes → Type 0
IsStarFree = All (λ c. c ≢ b'*')

pub byte_inv : {x c : ℕ} {p s : Bytes} → Matches (x ∷ p) (c ∷ s) → x ≢ b'*' → (x ≡ c) × Matches p s
byte_inv (byte e n d) h = (e, d)
byte_inv (leave e d) h = absurd (h e)
byte_inv (take e d) h = absurd (h e)

pub star_at_end : {x : ℕ} {p : Bytes} → x ≡ b'*' → Matches (x ∷ p) [] → Matches p []
star_at_end h (leave e d) = d

pub must_take :
    {x c : ℕ} {p s : Bytes}
    → x ≡ b'*'
    → Matches (x ∷ p) (c ∷ s)
    → ¬ Matches p (c ∷ s)
    → Matches (x ∷ p) s
must_take h (byte e n d) no_match = absurd (n h)
must_take h (leave e d) no_match = absurd (no_match d)
must_take h (take e d) no_match = d

pub two_stars :
    {x y : ℕ} {p s : Bytes} → y ≡ b'*' → x ≡ b'*' → Matches (x ∷ y ∷ p) s → Matches (y ∷ p) s
two_stars h g (byte e n d) = absurd (n g)
two_stars h g (leave e d) = d
two_stars h g (take e d) = take h (two_stars h g d)

-- Wherever the byte `x` matches behind a star, `p` begins after the first byte of the key.
pub drop_byte :
    {x y c : ℕ} {p : Bytes} (s : Bytes)
    → x ≡ b'*'
    → y ≢ b'*'
    → Matches (x ∷ y ∷ p) (c ∷ s)
    → Matches (x ∷ p) s
drop_byte s h n (byte e m d) = absurd (m h)
drop_byte s h n (leave e d) = leave h (byte_inv d n).1
drop_byte [] h n (take e d) = absurd (no_byte_at_end n (star_at_end h d))
  where
    no_byte_at_end : {y : ℕ} {p : Bytes} → y ≢ b'*' → ¬ Matches (y ∷ p) []
    no_byte_at_end m (leave e d) = m e
drop_byte (c ∷ s) h n (take e d) = take h (drop_byte s h n d)

pub only_stars→Matches : (p : Bytes) → only_stars p ≡ true → Matches p []
only_stars→Matches [] h = empty
only_stars→Matches (x ∷ p) h = leave (ground arith) (only_stars→Matches p (ground arith))

pub Matches→only_stars : (p : Bytes) → Matches p [] → only_stars p ≡ true
Matches→only_stars [] d = refl
Matches→only_stars (x ∷ p) (leave e d) = ground (arith, Matches→only_stars p d)
