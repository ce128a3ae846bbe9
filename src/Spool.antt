-- ===== src/Spool.antt =====
-- The disk spool of src/spool.rs: the state under its lock, and the names of the files. Each section
-- that holds the lock is one step, so a push is a reservation and, later, a publication or a release.
pub mod Names
pub mod Accounting
pub mod Reachable
pub mod Recovery
pub mod Drain
use archiv_agent.Base.{
  ℕ, zero, suc, ◌+◌, ◌-◌, ◌*◌, ◌/◌, ◌%◌, ◌^◌, List, [], ◌∷◌, ◌++◌, Option, none, some, Bool, true,
  false, ◌&&◌,
}
use archiv_agent.Base.{if◌then◌else◌, ltb, leb, ◌==◌, length, bytes_eq, codes, is_digit, take, drop}
use archiv_agent.Wire.{Bytes}

-- `{seq:020}`: at least twenty decimal digits, and a `u64` has no more.
unfoldable pub digits : ℕ → ℕ → Bytes
digits zero v = []
digits (suc k) v = digits k (v / 10) ++ (b'0' + v % 10) ∷ []

unfoldable pub otlp_name : ℕ → Bytes
otlp_name seq = digits 20 seq ++ codes ".otlp"

abbrev pub all_digits : Bytes → Bool
all_digits [] = true
all_digits (b ∷ bs) = is_digit b && all_digits bs

unfoldable pub value : ℕ → Bytes → ℕ
value acc [] = acc
value acc (b ∷ bs) = value (acc * 10 + (b - b'0')) bs

-- `str::parse::<u64>` on digits: it fails where the number is too large.
abbrev pub parse_u64 : Bytes → Option ℕ
parse_u64 s = let v = value 0 s in if ltb v (2 ^ 64) then some v else none

-- `strip_suffix`
abbrev pub strip_suffix : Bytes → Bytes → Option Bytes
strip_suffix suffix s =
    let n = length s - length suffix in
    if leb (length suffix) (length s) && bytes_eq (drop n s) suffix then some (take n s) else none

abbrev pub seq_of_stem : Option Bytes → Option ℕ
seq_of_stem none = none
seq_of_stem (some stem) = if length stem == 20 && all_digits stem then parse_u64 stem else none

unfoldable pub parse_seq : Bytes → Option ℕ
parse_seq name = seq_of_stem (strip_suffix (codes ".otlp") name)

-- A `BTreeMap<u64, u64>`, ordered by its keys.
abbrev pub Pending : Type 0
Pending = List (ℕ × ℕ)

pub record State : Type 0 where
  pub next_seq : ℕ
  pub total_bytes : ℕ
  pub pending : Pending

unfoldable pub insert : ℕ → ℕ → Pending → Pending
insert seq len [] = (seq, len) ∷ []
insert seq len ((s, l) ∷ pending) =
    let later = (s, l) ∷ insert seq len pending in
    if ltb seq s
    then (seq, len) ∷ (s, l) ∷ pending
    else if seq == s
    then (seq, len) ∷ pending
    else later

unfoldable pub contains : ℕ → Pending → Bool
contains seq [] = false
contains seq ((s, l) ∷ pending) =
    let later = contains seq pending in if s == seq then true else later

unfoldable pub remove : ℕ → Pending → Pending
remove seq [] = []
remove seq ((s, l) ∷ pending) =
    let later = (s, l) ∷ remove seq pending in if s == seq then pending else later

pub data SpoolError : Type 0 where
  full : ℕ → ℕ → SpoolError
  io : SpoolError

pub data Reserved : Type 0 where
  refused : SpoolError → Reserved
  granted : ℕ → State → Reserved

-- The first section of `push`: `u64` sums, as they wrap.
unfoldable pub reserve : ℕ → ℕ → State → Reserved
reserve max_bytes len s =
    if ltb max_bytes ((s.total_bytes + len) % 2 ^ 64)
    then refused (full s.total_bytes max_bytes)
    else granted s.next_seq (record s {
      next_seq = (s.next_seq + 1) % 2 ^ 64;
      total_bytes = (s.total_bytes + len) % 2 ^ 64;
    })

-- The last section of `push`, when the file is on disk, and when writing it failed.
unfoldable pub publish : ℕ → ℕ → State → State
publish seq len s = record s { pending = insert seq len s.pending }

unfoldable pub release : ℕ → State → State
release len s = record s { total_bytes = s.total_bytes - len }

abbrev pub first : Pending → Option (ℕ × ℕ)
first [] = none
first (x ∷ pending) = some x

-- The first section of `drain_once`.
unfoldable pub oldest : State → Option (ℕ × ℕ)
oldest s = first s.pending

-- Its last section, behind a delivery.
unfoldable pub delivered : ℕ → ℕ → State → State
delivered seq len s =
    if contains seq s.pending
    then record s { pending = remove seq s.pending; total_bytes = s.total_bytes - len }
    else s

-- How the write of a reserved payload ends, and what `push` returns.
pub data Written : Type 0 where
  durable : Written
  write_error : Written

pub data Pushed : Type 0 where
  spooled : ℕ → Pushed
  rejected : SpoolError → Pushed

abbrev pub settle_push : ℕ → Written → State → Reserved → Pushed × State
settle_push len written s (refused e) = (rejected e, s)
settle_push len durable s (granted seq s') = (spooled seq, publish seq len s')
settle_push len write_error s (granted seq s') = (rejected io, release len s')

-- `push`, with no other call in between.
unfoldable pub push : ℕ → ℕ → Written → State → Pushed × State
push max_bytes len written s = settle_push len written s (reserve max_bytes len s)

pub data DrainOutcome : Type 0 where
  delivered_one : DrainOutcome
  idle : DrainOutcome
  retry : DrainOutcome

-- How the read of the file and its forwarding end.
pub data Attempt : Type 0 where
  unreadable : Attempt
  undelivered : Attempt
  accepted : Attempt

abbrev pub settle_drain : Attempt → State → Option (ℕ × ℕ) → DrainOutcome × State
settle_drain attempt s none = (idle, s)
settle_drain unreadable s (some x) = (retry, s)
settle_drain undelivered s (some x) = (retry, s)
settle_drain accepted s (some (seq, len)) = (delivered_one, delivered seq len s)

-- `drain_once`, with no other call in between.
unfoldable pub drain_once : Attempt → State → DrainOutcome × State
drain_once attempt s = settle_drain attempt s (oldest s)

unfoldable pub empty : State
empty = record { next_seq = 0; total_bytes = 0; pending = [] }

-- `Spool`, with the published files as they stand in its directory.
pub record Spool : Type 0 where
  pub max_bytes : ℕ
  pub state : State
  pub files : List (ℕ × Bytes)

-- `rename` puts the file under its name; a failed write leaves no published file.
abbrev pub keep_file : Pushed → Bytes → List (ℕ × Bytes) → List (ℕ × Bytes)
keep_file (spooled seq) payload files = (seq, payload) ∷ files
keep_file (rejected e) payload files = files

unfoldable pub push_payload : Bytes → Written → Spool → Pushed × Spool
push_payload payload written sp =
    let (r, s) = push sp.max_bytes (length payload) written sp.state in
    (r, record sp { state = s; files = keep_file r payload sp.files })
