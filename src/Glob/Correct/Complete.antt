-- ===== src/Glob/Correct/Complete.antt =====
-- The scan of crates/archiv-redact/src/glob.rs on what matches.
use archiv_agent.Base.{ℕ, zero, suc, ◌+◌, ◌*◌, ◌≡◌, ◌≢◌, refl, arith, Bool, true, false, ◌==◌, ◌≤◌}
use archiv_agent.Base.{Option, none, some, [], ◌∷◌, length, ==_iff, Bool-cases}
use archiv_agent.Base.{inl, inr, ◌↔◌, sym, ap, ◌-◌, ◌<◌, ◌∙◌, ◌++◌, length-append}
use mathlib.Core.Path.{ap₂}
use archiv_agent.Wire.{Bytes}
use archiv_agent.Glob.{matches}
use archiv_agent.Glob.Language.{Matches, empty, byte, leave, take, Matches→only_stars}
use archiv_agent.Glob.Language.{IsStarFree, byte_inv, star_at_end, must_take, two_stars, drop_byte}
use archiv_agent.Glob.Scan.{Saved, again, scan, match_loop-scan}
use archiv_agent.Glob.Correct.Sound.{matches-sound, matches-settles, scan-settles}

module _ (G : Type 0) where
  -- What the saved star keeps: the question is still open behind it, and `p` is its pattern's rest.
  abbrev IsSaved : Bytes → Bytes → Saved → Type 0
  IsSaved p s none = G → Matches p s
  IsSaved p s (some (bp, bs)) =
      (G → Matches (b'*' ∷ bp) bs)
      × (Matches bp bs → Matches p s)
      × (length s ≤ length bs)
      × IsStarFree bs

  record Inv (p s : Bytes) (back : Saved) : Type 0 where
    later : G → Matches (b'*' ∷ p) s
    saved : IsSaved p s back
    star_free : IsStarFree s

  IsSaved-byte :
      (x c : ℕ) (p s : Bytes) (back : Saved)
      → x ≢ b'*'
      → IsSaved (x ∷ p) (c ∷ s) back
      → IsSaved p s back
  IsSaved-byte x c p s none n h = λ g. (byte_inv (h g) n).1
  IsSaved-byte x c p s (some (bp, bs)) n (later, down, shorter, free) =
      (later, λ d. (byte_inv (down d) n).1, omega arith, free)

  again-rejects :
      {c : ℕ} {p s : Bytes} (back : Saved) (next : Bytes → Bytes → Saved → Option Bool)
      → Inv p (c ∷ s) back
      → ¬ Matches p (c ∷ s)
      → ((p' s' : Bytes) (b : Saved) → Inv p' s' b → next p' s' b ≡ some false → ¬ G)
      → again back next ≡ some false
      → ¬ G
  again-rejects none next i miss ih e = λ g. miss (i.saved g)
  again-rejects (some (bp, [])) next i miss ih e = absurd (omega arith)
  again-rejects (some (bp, x ∷ bs)) next i miss ih e =
      let (later, down, _, free) = i.saved in
      let still : G → Matches (b'*' ∷ bp) bs = λ g. must_take refl (later g) (λ d. miss (down d)) in
      ih bp bs (some (bp, bs))
        (record { later = still; saved = (still, λ d. d, omega arith, free.1); star_free = free.1 })
        e

  Inv-byte :
      {x c : ℕ} {p s : Bytes} {back : Saved} → x ≢ b'*' → Inv (x ∷ p) (c ∷ s) back → Inv p s back
  Inv-byte {x} {c} {p} {s} {back} n i = record {
    later = λ g. drop_byte s refl n (i.later g);
    saved = IsSaved-byte x c p s back n i.saved;
    star_free = i.star_free.1;
  }

  Inv-star :
      {x c : ℕ} {p s : Bytes} {back : Saved}
      → x ≡ b'*'
      → Inv (x ∷ p) (c ∷ s) back
      → Inv p (c ∷ s) (some (p, c ∷ s))
  Inv-star {c} {p} {s} h i =
      let still : G → Matches (b'*' ∷ p) (c ∷ s) = λ g. rw h at (two_stars h refl (i.later g)) in
      record {
        later = still;
        saved = (still, λ d. d, omega arith, i.star_free);
        star_free = i.star_free;
      }

  scan-rejects :
      (fuel : ℕ) (p s : Bytes) (back : Saved) → Inv p s back → scan fuel p s back ≡ some false → ¬ G
  unfolding scan
  scan-rejects zero p s back i e = cc
  scan-rejects (suc fuel) [] [] back i e = cc
  scan-rejects (suc fuel) (x ∷ p) [] back i e =
      λ g. cc (e, Matches→only_stars (x ∷ p) (star_at_end refl (i.later g)))
  scan-rejects (suc fuel) [] (c ∷ s) back i e =
      again-rejects back (scan fuel) i (λ d. elim d [ ]) (scan-rejects fuel) e
  scan-rejects (suc fuel) (x ∷ p) (c ∷ s) back i e = elim (Bool-cases (x == c)) [
    | inl same ↦
        scan-rejects fuel p s back (Inv-byte (λ h. i.star_free.0 (sym ((==_iff x c).0 same) ∙ h)) i)
          (rw same at e)
    | inr differs ↦ elim (Bool-cases (x == b'*')) [
      | inl star ↦
          scan-rejects fuel p (c ∷ s) (some (p, c ∷ s)) (Inv-star ((==_iff x _).0 star) i)
            (rw (differs, star) at e)
      | inr other ↦
          again-rejects back (scan fuel) i
            (λ d. cc (differs, (==_iff x c).1 (byte_inv d (λ h. cc (other, (==_iff x _).1 h))).0))
            (scan-rejects fuel) (rw (differs, other) at e)
    ]
  ]

-- On a key with no `*` byte, `matches` accepts exactly the keys that match the pattern.
pub matches_iff :
    (pattern key : Bytes) → IsStarFree key → (matches pattern key ≡ true) ↔ Matches pattern key
unfolding matches
matches_iff pattern key free = (matches-sound pattern key, complete)
  where
    start : Inv (Matches pattern key) pattern key none
    start = record { later = leave refl; saved = λ g. g; star_free = free }

    complete : Matches pattern key → matches pattern key ≡ true
    complete d =
        let (b, e) = matches-settles pattern key in
        elim (Bool-cases b) [
          | inl yes_answer ↦ rw (e, yes_answer)
          | inr no_answer ↦ absurd (
              scan-rejects (Matches pattern key) _ pattern key none start
                (rw (match_loop-scan pattern key _ 0 0 none (omega arith) tt, no_answer) at e) d)
        ]

-- A pattern without `*` matches itself only.
plain_unique : (p s : Bytes) → IsStarFree p → Matches p s → s ≡ p
plain_unique [] s free empty = refl
plain_unique (x ∷ p) _ free (byte {s = s'} e n d) = ap₂ ◌∷◌ (sym e) (plain_unique p s' free.1 d)
plain_unique (x ∷ p) s free (leave e d) = absurd (free.0 e)
plain_unique (x ∷ p) s free (take e d) = absurd (free.0 e)

plain_self : (p : Bytes) → IsStarFree p → Matches p p
plain_self [] free = empty
plain_self (x ∷ p) free = byte refl free.0 (plain_self p free.1)

star_absorbs : (t p : Bytes) → IsStarFree p → Matches (b'*' ∷ p) (t ++ p)
star_absorbs [] p free = leave refl (plain_self p free)
star_absorbs (c ∷ t) p free = take refl (star_absorbs t p free)

-- A scan of a longer text for a plain pattern answers no.
plain_rejects :
    (fuel : ℕ) (p s : Bytes)
    → IsStarFree p
    → length p < length s
    → length s * (length p + 1) + length p < fuel
    → scan fuel p s none ≡ some false
plain_rejects fuel p s free longer h =
    let (b, e, sound) = scan-settles fuel p s h in
    elim (Bool-cases b) [
      | inl yes_answer ↦
          absurd (omega (arith, ap length (plain_unique p s free (sound yes_answer))))
      | inr no_answer ↦ rw (e, no_answer)
    ]

fuel_pos : (n m : ℕ) → (n + 1) * (m + 1) ≡ suc ((n + 1) * (m + 1) - 1)
fuel_pos n m = grind arith

-- The scan takes a `*` of the key under the `*` of the pattern for a literal, and saves no star.
scan_past_star :
    (fuel : ℕ) (p s : Bytes) → scan (suc fuel) (b'*' ∷ p) (b'*' ∷ s) none ≡ scan fuel p s none
unfolding scan
scan_past_star fuel p s = refl

-- The pattern `*p`, with a plain `p`, matches each key that ends in `p`; yet `matches` rejects every
-- such key that begins with a `*` byte and is longer than the pattern.
pub literal_star_missed :
    (t p : Bytes) (c : ℕ)
    → IsStarFree p
    → (matches (b'*' ∷ p) (b'*' ∷ c ∷ (t ++ p)) ≡ false) × Matches (b'*' ∷ p) (b'*' ∷ c ∷ (t ++ p))
unfolding matches
literal_star_missed t p c free =
    let pattern : Bytes = b'*' ∷ p in
    let key : Bytes = b'*' ∷ c ∷ (t ++ p) in
    let fuel : ℕ = (length key + 1) * (length pattern + 1) in
    let longer : length p < length (c ∷ (t ++ p)) = omega (arith, length-append t p) in
    let rejected : scan fuel pattern key none ≡ some false =
      rw (fuel_pos (length key) (length pattern)) (
        scan_past_star (fuel - 1) p (c ∷ (t ++ p))
        ∙ plain_rejects (fuel - 1) p (c ∷ (t ++ p)) free longer (grind arith)) in
    (
      rw (match_loop-scan pattern key fuel 0 0 none (omega arith) tt, rejected),
      star_absorbs (b'*' ∷ c ∷ t) p free,
    )
