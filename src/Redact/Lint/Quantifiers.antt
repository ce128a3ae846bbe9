-- ===== src/Redact/Lint/Quantifiers.antt =====
-- How the scan of crates/archiv-redact/src/lint.rs reads a quantifier.
use archiv_agent.Base.{
  ℕ, suc, ◌+◌, ◌-◌, ◌≡◌, ◌∙◌, refl, ap, arith, List, [], ◌∷◌, All, Bool, true, false, ◌&&◌, ◌||◌,
  ◌==◌, if◌then◌else◌, drop, length, none, some, err, not,
}
use archiv_agent.Wire.{Bytes}
use archiv_agent.Redact.Lint.{brace_loop, brace_quantifier, quantifier_at, lint_step, go_on}
use archiv_agent.Redact.Lint.Syntax.{
  Quantifier, once, optional, star, plus, exactly, at_least, between, is_unbounded, print_bytes,
  print_quantifier, IsDigit, HasDigits,
}
use archiv_agent.Redact.Lint.Scan.{scan, scan_step, scan_quiet}

-- Digits inside braces are counted.
brace_loop-digits :
    (ds s : Bytes) (n : ℕ)
    → All IsDigit ds
    → brace_loop (print_bytes ds s) false n ≡ brace_loop s false (length ds + n)
unfolding brace_loop
brace_loop-digits [] s n h = let z : n ≡ 0 + n = omega arith in ap (λ t. brace_loop s false t) z
brace_loop-digits (d ∷ ds) s n (q, h) =
    let no_end : (d == b'}') ≡ false = ground (arith, q) in
    let no_comma : (d == b',') ≡ false = ground (arith, q) in
    let count : length ds + (n + 1) ≡ suc (length ds) + n = omega arith in
    let later = brace_loop-digits ds s (n + 1) h in
    rw (no_end, no_comma, q) (later ∙ ap (λ t. brace_loop s false t) count)

drop-print_bytes : (ds s : Bytes) (k : ℕ) → drop (length ds + k) (print_bytes ds s) ≡ drop k s
drop-print_bytes [] s k = let z : 0 + k ≡ k = omega arith in ap (λ t. drop t s) z
drop-print_bytes (d ∷ ds) s k =
    let z : suc (length ds) + k ≡ suc (length ds + k) = omega arith in
    rw z (drop-print_bytes ds s k)

-- What stands behind a `{` is a count that `brace_quantifier` reads, up to `s`.
pub record IsCount (text : Bytes) (unbounded : Bool) (s : Bytes) : Type 0 where
  pub n : ℕ
  pub counted : brace_quantifier text ≡ (unbounded, suc n)
  pub rest : drop n text ≡ s

exactly-IsCount : (ds s : Bytes) → All IsDigit ds → IsCount (print_bytes ds (b'}' ∷ s)) false s
unfolding brace_quantifier brace_loop
exactly-IsCount ds s h =
    let z : length ds + 1 + 1 ≡ suc (length ds + 1) = omega arith in
    record {
      n = length ds + 1;
      counted = brace_loop-digits ds (b'}' ∷ s) 1 h ∙ ap (λ t. (false, t)) z;
      rest = drop-print_bytes ds (b'}' ∷ s) 1;
    }

at_least-IsCount :
    (ds s : Bytes) → All IsDigit ds → IsCount (print_bytes ds (b',' ∷ b'}' ∷ s)) true s
unfolding brace_quantifier brace_loop
at_least-IsCount ds s h =
    let z : length ds + 1 + 1 + 1 ≡ suc (length ds + 2) = omega arith in
    record {
      n = length ds + 2;
      counted = brace_loop-digits ds (b',' ∷ b'}' ∷ s) 1 h ∙ ap (λ t. (true, t)) z;
      rest = drop-print_bytes ds (b',' ∷ b'}' ∷ s) 2;
    }

between-IsCount :
    (ds : Bytes) (d : ℕ) (es s : Bytes)
    → All IsDigit ds
    → IsDigit d
    → All IsDigit es
    → IsCount (print_bytes ds (b',' ∷ d ∷ print_bytes es (b'}' ∷ s))) false s
unfolding brace_quantifier brace_loop
between-IsCount ds d es s h q k =
    let no_end : (d == b'}') ≡ false = ground (arith, q) in
    let no_comma : (d == b',') ≡ false = ground (arith, q) in
    let tail = print_bytes es (b'}' ∷ s) in
    let m = length ds + 1 + 1 + 1 in
    let z : length es + m + 1 ≡ suc (length ds + suc (suc (length es + 1))) = omega arith in
    let step : brace_loop (b',' ∷ d ∷ tail) false (length ds + 1) ≡ brace_loop tail false m =
      rw (no_end, no_comma, q) refl in
    record {
      n = length ds + suc (suc (length es + 1));
      counted =
          brace_loop-digits ds (b',' ∷ d ∷ tail) 1 h
          ∙ step
          ∙ brace_loop-digits es (b'}' ∷ s) m k
          ∙ ap (λ t. (false, t)) z;
      rest =
          drop-print_bytes ds (b',' ∷ d ∷ tail) (suc (suc (length es + 1)))
          ∙ drop-print_bytes es (b'}' ∷ s) 1;
    }

scan-IsCount :
    (text : Bytes) (b : Bool) (s : Bytes) (top : Bool) (frames : List Bool)
    → IsCount text b s
    → scan (b'{' ∷ text) (top ∷ frames) ≡ scan s ((top || b) ∷ frames)
unfolding lint_step
scan-IsCount text b s top frames h =
    let z : suc h.n - 1 ≡ h.n = omega arith in
    scan_step b'{' text (top ∷ frames) ∙ rw (h.counted, z, h.rest) refl

or_false : (b : Bool) → (b || false) ≡ b
or_false true = refl
or_false false = refl

-- The quantifier of an atom marks the frame that it stands in.
pub scan-print_quantifier :
    (q : Quantifier) (s : Bytes) (top : Bool) (frames : List Bool)
    → HasDigits q
    → scan (print_quantifier q s) (top ∷ frames) ≡ scan s ((top || is_unbounded q) ∷ frames)
unfolding lint_step
scan-print_quantifier once s top frames h = rw (or_false top) refl
scan-print_quantifier optional s top frames h =
    rw (or_false top) (scan_quiet b'?' s (top ∷ frames) refl)
scan-print_quantifier star s top frames h = scan_step b'*' s (top ∷ frames)
scan-print_quantifier plus s top frames h = scan_step b'+' s (top ∷ frames)
scan-print_quantifier (exactly ds) s top frames h =
    scan-IsCount _ false s top frames (exactly-IsCount ds s h)
scan-print_quantifier (at_least ds) s top frames h =
    scan-IsCount _ true s top frames (at_least-IsCount ds s h)
scan-print_quantifier (between ds d es) s top frames (h, (q, k)) =
    scan-IsCount _ false s top frames (between-IsCount ds d es s h q k)

-- No quantifier stands in front.
unfoldable pub is_settled : Bytes → Bool
is_settled [] = true
is_settled (c ∷ s) = not (c == b'*') && (not (c == b'+') && (not (c == b'?') && not (c == b'{')))

-- How `quantifier_at` reads the quantifier of a group.
pub record IsQuantifier (text : Bytes) (unbounded : Bool) (s : Bytes) : Type 0 where
  pub n : ℕ
  pub read : quantifier_at text ≡ (unbounded, n)
  pub rest : drop n text ≡ s

settled-IsQuantifier : (s : Bytes) → is_settled s ≡ true → IsQuantifier s false s
unfolding quantifier_at is_settled
settled-IsQuantifier [] h = record { n = 0; read = refl; rest = refl }
settled-IsQuantifier (c ∷ s) h =
    let many : (c == b'*') ≡ false = ground (arith, h) in
    let more : (c == b'+') ≡ false = ground (arith, h) in
    let maybe : (c == b'?') ≡ false = ground (arith, h) in
    let brace : (c == b'{') ≡ false = ground (arith, h) in
    record { n = 0; read = rw (many, more, maybe, brace) refl; rest = refl }

count-IsQuantifier :
    (text : Bytes) (b : Bool) (s : Bytes) → IsCount text b s → IsQuantifier (b'{' ∷ text) b s
unfolding quantifier_at
count-IsQuantifier text b s h = record { n = suc h.n; read = h.counted; rest = h.rest }

print_quantifier-IsQuantifier :
    (q : Quantifier) (s : Bytes)
    → HasDigits q
    → is_settled s ≡ true
    → IsQuantifier (print_quantifier q s) (is_unbounded q) s
unfolding quantifier_at
print_quantifier-IsQuantifier once s h k = settled-IsQuantifier s k
print_quantifier-IsQuantifier optional s h k = record { n = 1; read = refl; rest = refl }
print_quantifier-IsQuantifier star s h k = record { n = 1; read = refl; rest = refl }
print_quantifier-IsQuantifier plus s h k = record { n = 1; read = refl; rest = refl }
print_quantifier-IsQuantifier (exactly ds) s h k =
    count-IsQuantifier _ false s (exactly-IsCount ds s h)
print_quantifier-IsQuantifier (at_least ds) s h k =
    count-IsQuantifier _ true s (at_least-IsCount ds s h)
print_quantifier-IsQuantifier (between ds d es) s (h, (q, j)) k =
    count-IsQuantifier _ false s (between-IsCount ds d es s h q j)

-- The end of a group with its quantifier.
pub scan_close :
    (q : Quantifier) (s : Bytes) (inner top : Bool) (frames : List Bool)
    → HasDigits q
    → is_settled s ≡ true
    → scan (b')' ∷ print_quantifier q s) (inner ∷ top ∷ frames) ≡ (
        if is_unbounded q && inner
        then err tt
        else scan s ((top || (inner || is_unbounded q)) ∷ frames))
unfolding lint_step
scan_close q s inner top frames h k =
    let r = print_quantifier-IsQuantifier q s h k in
    scan_step b')' (print_quantifier q s) (inner ∷ top ∷ frames)
    ∙ rw r.read (go (is_unbounded q && inner) r.n r.rest)
  where
    go :
        (b : Bool) (n : ℕ)
        → drop n (print_quantifier q s) ≡ s
        → go_on scan (
            if b
            then none
            else some (drop n (print_quantifier q s), (top || (inner || is_unbounded q)) ∷ frames))
          ≡ (if b then err tt else scan s ((top || (inner || is_unbounded q)) ∷ frames))
    go true n e = refl
    go false n e = rw e refl
