-- ===== src/Spool/Recovery/Numbers.antt =====
-- The next number that `open` of src/spool.rs goes on with, against the numbers in the directory.
use archiv_agent.Base.{
  ℕ, ◌≤◌, ◌<◌, ◌≡◌, ◌≢◌, refl, max, arith, List, [], ◌∷◌, All, Option, none, some, if_case, length,
  map,
}
use archiv_agent.Spool.Recovery.{
  Backlog, raise, scan_dir, next_number, no_backlog, recover, File, entry_of,
}
use archiv_agent.Spool.Recovery.Entries.{IsNumbered, scan_entry-name_of}

-- No number up to the highest one that was seen is above the limit.
abbrev Under : ℕ → Option ℕ → Type 0
Under n o = (m : ℕ) → o ≡ some m → m < n

raise-Under : (n seq : ℕ) (o : Option ℕ) → seq < n → Under n o → Under n (some (raise seq o))
raise-Under n seq none h k m e = let same : seq ≡ m = cc in omega (arith, h, same)
raise-Under n seq (some x) h k m e =
    let same : max x seq ≡ m = cc in omega (arith, h, k x refl, same)

scan_dir-Under :
    (n : ℕ) (fs : List File) (b : Backlog)
    → All IsNumbered fs
    → All (λ f. f.seq < n) fs
    → Under n b.max_seq
    → Under n (scan_dir (map entry_of fs) b).max_seq
unfolding scan_dir
scan_dir-Under n [] b h u k = k
scan_dir-Under n (f ∷ fs) b (h, hs) (u, us) k = scan_dir-Under n fs _ hs us (
    rw (scan_entry-name_of f.published f.seq (length f.content) b h) (
      if_case {A = Backlog} (λ r. Under n r.max_seq) f.published
        (λ _. raise-Under n f.seq b.max_seq u k) (λ _. k)))

next-Under : (n : ℕ) (o : Option ℕ) → Under n o → next_number o ≤ n
next-Under n none k = omega arith
next-Under n (some m) k = omega (arith, k m refl)

-- Where all numbers in the directory are below a bound, the next number is not above it.
pub recover_next :
    (n : ℕ) (fs : List File)
    → All IsNumbered fs
    → All (λ f. f.seq < n) fs
    → (recover (map entry_of fs)).next_seq ≤ n
unfolding recover
recover_next n fs h u =
    next-Under n _ (scan_dir-Under n fs no_backlog h u (λ m e. absurd (no_option m e)))
  where
    no_option : (m : ℕ) → none ≢ some m
    no_option m e = cc
