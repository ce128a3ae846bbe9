-- ===== src/Glob/Correct/Sound.antt =====
-- The scan of crates/archiv-redact/src/glob.rs: its fuel, and what it accepts.
use archiv_agent.Base.{ℕ, zero, suc, ◌+◌, ◌*◌, ◌≡◌, refl, arith, Bool, true, ◌==◌, ◌≤◌, ◌<◌}
use archiv_agent.Base.{Option, none, some, [], ◌∷◌, length, ==_iff, Bool-cases}
use archiv_agent.Base.{inl, inr}
use archiv_agent.Wire.{Bytes}
use archiv_agent.Glob.{matches, match_loop, answer}
use archiv_agent.Glob.Language.{Matches, byte, leave, take, only_stars→Matches}
use archiv_agent.Glob.Scan.{Saved, again, scan, match_loop-scan}

-- An answer, and a right one if it is yes.
data Accepts (G : Type 0) : Option Bool → Type 0 where
  accepts : {b : Bool} → (b ≡ true → G) → Accepts G (some b)

-- Equal bytes match, also two stars.
literal_step : {x c : ℕ} {p s : Bytes} → x ≡ c → Matches p s → Matches (x ∷ p) (c ∷ s)
literal_step {x} e d = elim (Bool-cases (x == b'*')) [
  | inl star ↦ take ((==_iff x _).0 star) (leave ((==_iff x _).0 star) d)
  | inr other ↦ byte e (λ star. cc (other, (==_iff x _).1 star)) d
]

-- `G` is the question asked at the start; every rest of the pattern is shorter than `n`.
module _ (G : Type 0) (n : ℕ) where
  -- A saved star can be entered again: what matches behind it answers the question.
  abbrev IsSaved : ℕ → Bytes → Saved → Type 0
  IsSaved m s none = Unit
  IsSaved m s (some (bp, bs)) =
      (Matches (b'*' ∷ bp) bs → G) × (length s ≤ length bs) × (length bs ≤ m) × (length bp < n)

  record Inv (fuel m : ℕ) (p s : Bytes) (back : Saved) : Type 0 where
    now : Matches p s → G
    saved : IsSaved m s back
    text_bound : length s ≤ m
    pattern_bound : length p < n
    enough : m * n + length p < fuel

  IsSaved-shorter : (m c : ℕ) (s : Bytes) (back : Saved) → IsSaved m (c ∷ s) back → IsSaved m s back
  IsSaved-shorter m c s none h = tt
  IsSaved-shorter m c s (some (bp, bs)) h = (h.0, omega arith, h.2, h.3)

  again-Accepts :
      (m : ℕ) (fuel : ℕ) (p s : Bytes) (c : ℕ) (back : Saved)
      → (next : Bytes → Bytes → Saved → Option Bool) → Inv (suc fuel) m p (c ∷ s) back
      → ((m' : ℕ) (p' s' : Bytes) (b : Saved) → Inv fuel m' p' s' b → Accepts G (next p' s' b))
      → Accepts G (again back next)
  again-Accepts m fuel p s c none next i ih = accepts (λ e. cc)
  again-Accepts m fuel p s c (some (bp, [])) next i ih = absurd (omega arith)
  again-Accepts zero fuel p s c (some (bp, x ∷ bs)) next i ih = absurd (omega arith)
  again-Accepts (suc m) fuel p s c (some (bp, x ∷ bs)) next i ih =
      let (entry, _, _, _) = i.saved in
      ih m bp bs (some (bp, bs)) (record {
        now = λ d. entry (take refl (leave refl d));
        saved = (λ d. entry (take refl d), omega arith, omega arith, omega arith);
        text_bound = omega arith;
        pattern_bound = omega arith;
        enough = grind arith;
      })

  Inv-literal :
      {fuel m x c : ℕ} {p s : Bytes} {back : Saved}
      → x ≡ c
      → Inv (suc fuel) m (x ∷ p) (c ∷ s) back
      → Inv fuel m p s back
  Inv-literal {m} {c} {s} {back} e i = record {
    now = λ d. i.now (literal_step e d);
    saved = IsSaved-shorter m c s back i.saved;
    text_bound = omega arith;
    pattern_bound = omega arith;
    enough = omega arith;
  }

  Inv-star :
      {fuel m x c : ℕ} {p s : Bytes} {back : Saved}
      → x ≡ b'*'
      → Inv (suc fuel) m (x ∷ p) (c ∷ s) back
      → Inv fuel m p (c ∷ s) (some (p, c ∷ s))
  Inv-star {p} {s} e i = record {
    now = λ d. i.now (leave e d);
    saved = (λ d. i.now (rw e d), omega arith, i.text_bound, omega arith);
    text_bound = i.text_bound;
    pattern_bound = omega arith;
    enough = omega arith;
  }

  scan-Accepts :
      (fuel m : ℕ) (p s : Bytes) (back : Saved)
      → Inv fuel m p s back
      → Accepts G (scan fuel p s back)
  unfolding scan
  scan-Accepts zero m p s back i = absurd (omega arith)
  scan-Accepts (suc fuel) m [] [] back i = accepts (λ e. i.now (only_stars→Matches [] e))
  scan-Accepts (suc fuel) m (x ∷ p) [] back i = accepts (λ e. i.now (only_stars→Matches (x ∷ p) e))
  scan-Accepts (suc fuel) m [] (c ∷ s) back i =
      again-Accepts m fuel [] s c back (scan fuel) i (scan-Accepts fuel)
  scan-Accepts (suc fuel) m (x ∷ p) (c ∷ s) back i = elim (Bool-cases (x == c)) [
    | inl e ↦ rw e (scan-Accepts fuel m p s back (Inv-literal ((==_iff x c).0 e) i))
    | inr e ↦ elim (Bool-cases (x == b'*')) [
      | inl star ↦
          rw (e, star)
            (scan-Accepts fuel m p (c ∷ s) (some (p, c ∷ s)) (Inv-star ((==_iff x _).0 star) i))
      | inr other ↦
          rw (e, other) (again-Accepts m fuel (x ∷ p) s c back (scan fuel) i (scan-Accepts fuel))
    ]
  ]

answer_of : {G : Type 0} {o : Option Bool} → Accepts G o → answer o ≡ true → G
answer_of (accepts h) e = h e

started :
    (pattern key : Bytes)
    → Inv
        (Matches pattern key)
        (length pattern + 1)
        ((length key + 1) * (length pattern + 1))
        (length key)
        pattern
        key
        none
started pattern key = record {
  now = λ d. d;
  saved = tt;
  text_bound = omega arith;
  pattern_bound = omega arith;
  enough = grind arith;
}

settled : {G : Type 0} {o : Option Bool} → Accepts G o → (b : Bool) × (o ≡ some b) × (b ≡ true → G)
settled (accepts {b} h) = (b, refl, h)

-- With fuel for each byte that a star may absorb, a scan answers, and soundly.
pub scan-settles :
    (fuel : ℕ) (p s : Bytes)
    → length s * (length p + 1) + length p < fuel
    → (b : Bool) × (scan fuel p s none ≡ some b) × (b ≡ true → Matches p s)
scan-settles fuel p s h = settled (
    scan-Accepts (Matches p s) (length p + 1) fuel (length s) p s none (record {
      now = λ d. d;
      saved = tt;
      text_bound = omega arith;
      pattern_bound = omega arith;
      enough = h;
    }))

loop-Accepts :
    (pattern key : Bytes)
    → Accepts
        (Matches pattern key)
        (match_loop ((length key + 1) * (length pattern + 1)) pattern key 0 0 none)
loop-Accepts pattern key =
    rw
      (match_loop-scan pattern key ((length key + 1) * (length pattern + 1)) 0 0 none (omega arith)
        tt)
      (scan-Accepts (Matches pattern key) (length pattern + 1) _ _ pattern key none
        (started pattern key))

-- The matching loop ends with an answer within the fuel that `matches` gives it.
pub matches-settles :
    (pattern key : Bytes)
    → (b : Bool) × (match_loop ((length key + 1) * (length pattern + 1)) pattern key 0 0 none
        ≡ some b)
matches-settles pattern key = let (b, e, _) = settled (loop-Accepts pattern key) in (b, e)

-- A key that `matches` accepts matches the pattern.
pub matches-sound : (pattern key : Bytes) → matches pattern key ≡ true → Matches pattern key
unfolding matches
matches-sound pattern key e = answer_of (loop-Accepts pattern key) e
