-- ===== src/Glob/Scan.antt =====
-- The matcher over what is left of the pattern and of the key, in place of two indices.
use archiv_agent.Base.{lt→ltb, ℕ, zero, suc, ◌+◌, ◌≡◌, refl, arith, Bool, false, ◌==◌, ◌≤◌, ◌<◌}
use archiv_agent.Base.{Option, none, some, [], ◌∷◌, length, get_elem?, drop, if◌then◌else◌}
use archiv_agent.Wire.{Bytes}
use native.Mathlib.Numerals.{add-one}
use archiv_agent.Glob.{rest_is_stars, Star, backtrack, match_loop}
use archiv_agent.Glob.Language.{only_stars}

abbrev pub Saved : Type 0
Saved = Option (Bytes × Bytes)

abbrev pub tail : Bytes → Bytes
tail [] = []
tail (_ ∷ s) = s

abbrev pub again : Saved → (Bytes → Bytes → Saved → Option Bool) → Option Bool
again none next = some false
again (some (bp, bs)) next = next bp (tail bs) (some (bp, tail bs))

unfoldable pub scan : ℕ → Bytes → Bytes → Saved → Option Bool
scan zero p s back = none
scan (suc fuel) p [] back = some (only_stars p)
scan (suc fuel) [] (c ∷ s) back = again back (scan fuel)
scan (suc fuel) (x ∷ p) (c ∷ s) back =
    let literal = scan fuel p s back in
    let at_star = scan fuel p (c ∷ s) (some (p, c ∷ s)) in
    let retry = again back (scan fuel) in
    if x == c then literal else if x == b'*' then at_star else retry

-- The views of the loop's variables.
abbrev saved_at : Bytes → Bytes → Star → Saved
saved_at pattern key none = none
saved_at pattern key (some (sp, sk)) = some (drop sp pattern, drop sk key)

-- The saved pattern index is in range.
abbrev pub StarInside : ℕ → Star → Type 0
StarInside n none = Unit
StarInside n (some (sp, sk)) = sp ≤ n

drop-suc : (i : ℕ) (xs : Bytes) → drop (suc i) xs ≡ tail (drop i xs)
drop-suc zero [] = refl
drop-suc zero (x ∷ xs) = refl
drop-suc (suc i) [] = refl
drop-suc (suc i) (x ∷ xs) = drop-suc i xs

drop_next : (i : ℕ) (xs : Bytes) → drop (i + 1) xs ≡ tail (drop i xs)
drop_next i xs = rw add-one (drop-suc i xs)

-- What an index sees is the head of what is left.
data Front (xs : Bytes) (i : ℕ) : Type 0 where
  at_end : drop i xs ≡ [] → get_elem? xs i ≡ none → length xs ≤ i → Front xs i
  at_byte :
      (x : ℕ)
      → drop i xs ≡ x ∷ drop (i + 1) xs
      → get_elem? xs i ≡ some x
      → i < length xs
      → Front xs i

Front-suc : {x : ℕ} {xs : Bytes} {i : ℕ} → Front xs i → Front (x ∷ xs) (suc i)
Front-suc (at_end d g h) = at_end d g (omega arith)
Front-suc {xs} {i} (at_byte y d g h) =
    at_byte y (rw (add-one (suc i)) (rw (add-one i) at d)) g (omega arith)

front : (xs : Bytes) (i : ℕ) → Front xs i
front [] zero = at_end refl refl (omega arith)
front [] (suc i) = at_end refl refl (omega arith)
front (x ∷ xs) zero = at_byte x refl refl (omega arith)
front (x ∷ xs) (suc i) = Front-suc (front xs i)

rest_is_stars-only_stars :
    (rounds : ℕ) (pattern : Bytes) (p : ℕ)
    → length pattern ≤ rounds + p
    → p ≤ length pattern
    → rest_is_stars rounds pattern p ≡ only_stars (drop p pattern)
unfolding rest_is_stars
rest_is_stars-only_stars zero pattern p h k = elim (front pattern p) [
  | at_end d g l ↦ rw d (ground arith)
  | at_byte x d g l ↦ absurd (omega arith)
]
rest_is_stars-only_stars (suc rounds) pattern p h k = elim (front pattern p) [
  | at_end d g l ↦ rw (d, g) (ground arith)
  | at_byte x d g l ↦
      rw (d, g)
        (ground
          (arith, rest_is_stars-only_stars rounds pattern (p + 1) (omega arith) (omega arith)))
]

module _ (pattern key : Bytes) where
  -- Back to the last star: the continuations agree, so the answers do.
  backtrack-again :
      (star : Star) (f : ℕ → ℕ → Star → Option Bool) (g : Bytes → Bytes → Saved → Option Bool)
      → StarInside (length pattern) star
      → ((p k : ℕ) (st : Star)
          → p ≤ length pattern
          → StarInside (length pattern) st
          → f p k st ≡ g (drop p pattern) (drop k key) (saved_at pattern key st))
      → backtrack star f ≡ again (saved_at pattern key star) g
  backtrack-again none f g i same = refl
  backtrack-again (some (sp, sk)) f g i same = rw (← drop_next sk key) (same sp (sk + 1) _ i i)

  -- With the indices in range, the loop sees what the scan of the rests sees.
  pub match_loop-scan :
      (fuel p k : ℕ) (star : Star)
      → p ≤ length pattern
      → StarInside (length pattern) star
      → match_loop fuel pattern key p k star
        ≡ scan fuel (drop p pattern) (drop k key) (saved_at pattern key star)
  unfolding match_loop scan
  match_loop-scan zero p k star h i = refl
  match_loop-scan (suc fuel) p k star h i = elim (front key k) [
    | at_end d g l ↦
        rw d (ground (arith, rest_is_stars-only_stars (length pattern) pattern p (omega arith) h))
    | at_byte c d g l ↦ elim (front pattern p) [
      | at_end d' g' l' ↦
          rw (d, d', g, g', lt→ltb _ _ l)
            (backtrack-again star (match_loop fuel pattern key) (scan fuel) i
              (match_loop-scan fuel))
      | at_byte x d' g' l' ↦
          rw (d, d', g, g', lt→ltb _ _ l)
            (ground (
              arith,
              match_loop-scan fuel (p + 1) (k + 1) star (omega arith) i,
              match_loop-scan fuel (p + 1) k (some (p + 1, k)) (omega arith) (omega arith),
              backtrack-again star (match_loop fuel pattern key) (scan fuel) i
                  (match_loop-scan fuel),
            ))
    ]
  ]
