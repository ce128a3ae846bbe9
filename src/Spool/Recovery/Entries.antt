-- ===== src/Spool/Recovery/Entries.antt =====
-- The entries of the directory of src/spool.rs, one by one.
use archiv_agent.Base.{
  ℕ, ◌+◌, ◌-◌, ◌^◌, ◌<◌, ◌≡◌, ◌≢◌, refl, sym, arith, List, [], ◌∷◌, ◌++◌, append_assoc, Option,
  none, some, Bool, true, false, ◌&&◌, if◌then◌else◌, leb, ◌==◌, ==_self, length, length-append,
  bytes_eq_iff, codes,
}
use archiv_agent.Wire.{Bytes}
use archiv_agent.Spool.{Pending, insert, digits, otlp_name}
use archiv_agent.Base.{drop-append}
use archiv_agent.Spool.Names.{parse_seq-otlp_name}
use archiv_agent.Spool.Recovery.{tmp_name, ends_with, Backlog, note_file, scan_entry, File, name_of}

-- The length that the map has for a number.
unfoldable pub length_of : ℕ → Pending → Option ℕ
length_of seq [] = none
length_of seq ((s, l) ∷ pending) =
    let later = length_of seq pending in if s == seq then some l else later

pub length_of-insert :
    (seq len : ℕ) (pending : Pending) → length_of seq (insert seq len pending) ≡ some len
unfolding length_of insert
length_of-insert seq len [] = rw (==_self seq) refl
length_of-insert seq len ((s, l) ∷ pending) =
    ground (arith, length_of-insert seq len pending, ==_self seq)

pub length_of-insert_other :
    (q seq len : ℕ) (pending : Pending)
    → q ≢ seq
    → length_of q (insert seq len pending) ≡ length_of q pending
unfolding length_of insert
length_of-insert_other q seq len [] h = ground (arith, h)
length_of-insert_other q seq len ((s, l) ∷ pending) h =
    ground (arith, h, length_of-insert_other q seq len pending h)

ends_with-append : (xs suffix : Bytes) → ends_with suffix (xs ++ suffix) ≡ true
unfolding ends_with
ends_with-append xs suffix =
    let n : length (xs ++ suffix) - length suffix ≡ length xs =
      omega (arith, length-append xs suffix) in
    let long : leb (length suffix) (length (xs ++ suffix)) ≡ true =
      ground (arith, length-append xs suffix) in
    rw (n, long, drop-append xs suffix, (bytes_eq_iff suffix suffix).1 refl) refl

ends_with-otlp_name : (seq : ℕ) → ends_with (codes ".tmp") (otlp_name seq) ≡ false
unfolding ends_with otlp_name
ends_with-otlp_name seq =
    let stem = digits 20 seq ++ b'.' ∷ [] in
    let split : digits 20 seq ++ codes ".otlp" ≡ stem ++ codes "otlp" =
      sym (append_assoc (digits 20 seq) (b'.' ∷ []) (codes "otlp")) in
    let n : length (stem ++ codes "otlp") - 4 ≡ length stem =
      omega (arith, length-append stem (codes "otlp")) in
    let long : leb 4 (length (stem ++ codes "otlp")) ≡ true =
      ground (arith, length-append stem (codes "otlp")) in
    rw (split, n, long, drop-append stem (codes "otlp")) refl

-- The numbers of a directory are those of a `u64`, less its last.
abbrev pub IsNumbered : File → Type 0
IsNumbered f = f.seq + 1 < 2 ^ 64

pub scan_entry-name_of :
    (published : Bool) (seq len : ℕ) (b : Backlog)
    → seq + 1 < 2 ^ 64
    → scan_entry (name_of published seq) len b
      ≡ (if published then note_file len b (some seq) else b)
unfolding scan_entry tmp_name
scan_entry-name_of true seq len b h =
    rw (ends_with-otlp_name seq, parse_seq-otlp_name seq (omega arith)) refl
scan_entry-name_of false seq len b h = rw (ends_with-append (otlp_name seq) (codes ".tmp")) refl

-- Every published file of a number has this length.
abbrev pub Agrees : ℕ → ℕ → File → Type 0
Agrees seq len f = f.published ≡ true → f.seq ≡ seq → length f.content ≡ len

-- A published file of the number stands in the directory.
unfoldable pub is_there : ℕ → List File → Bool
is_there seq [] = false
is_there seq (f ∷ fs) =
    let rest = is_there seq fs in if f.published && f.seq == seq then true else rest
