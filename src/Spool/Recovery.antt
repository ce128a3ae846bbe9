-- ===== src/Spool/Recovery.antt =====
-- `open` of src/spool.rs: the state that is recovered from what stands in the directory, where the calls
-- of the file system succeed.
pub mod Entries
pub mod Backlogs
pub mod Crashes
pub mod Files
pub mod Durable
pub mod Writing
pub mod Renames
pub mod Sections
pub mod Numbers
pub mod Outages
pub mod Promise
use archiv_agent.Base.{
  ℕ, ◌+◌, ◌-◌, ◌%◌, ◌^◌, max, List, [], ◌∷◌, ◌++◌, Option, none, some, Bool, true, false, ◌&&◌,
  if◌then◌else◌, leb, length, bytes_eq, codes, drop, map,
}
use archiv_agent.Wire.{Bytes}
use archiv_agent.Spool.{State, Pending, insert, parse_seq, otlp_name}

unfoldable pub tmp_name : ℕ → Bytes
tmp_name seq = otlp_name seq ++ codes ".tmp"

unfoldable pub ends_with : Bytes → Bytes → Bool
ends_with suffix s =
    leb (length suffix) (length s) && bytes_eq (drop (length s - length suffix) s) suffix

-- What the loop has collected.
pub record Backlog : Type 0 where
  pub pending : Pending
  pub total_bytes : ℕ
  pub max_seq : Option ℕ

-- `max_seq.map_or(seq, |m| m.max(seq))`
abbrev pub raise : ℕ → Option ℕ → ℕ
raise seq none = seq
raise seq (some m) = max m seq

abbrev pub note_file : ℕ → Backlog → Option ℕ → Backlog
note_file len b none = b
note_file len b (some seq) = record {
  pending = insert seq len b.pending;
  total_bytes = (b.total_bytes + len) % 2 ^ 64;
  max_seq = some (raise seq b.max_seq);
}

-- One entry, with its name and its length.
unfoldable pub scan_entry : Bytes → ℕ → Backlog → Backlog
scan_entry name len b =
    if ends_with (codes ".tmp") name then b else note_file len b (parse_seq name)

unfoldable pub scan_dir : List (Bytes × ℕ) → Backlog → Backlog
unfolding scan_entry
scan_dir [] b = b
scan_dir ((name, len) ∷ entries) b = scan_dir entries (scan_entry name len b)

-- `max_seq.map_or(0, |m| m + 1)`
abbrev pub next_number : Option ℕ → ℕ
next_number none = 0
next_number (some m) = (m + 1) % 2 ^ 64

abbrev pub no_backlog : Backlog
no_backlog = record { pending = []; total_bytes = 0; max_seq = none }

unfoldable pub recover : List (Bytes × ℕ) → State
unfolding scan_dir
recover entries =
    let b = scan_dir entries no_backlog in
    record { next_seq = next_number b.max_seq; total_bytes = b.total_bytes; pending = b.pending }

-- A file that the spool writes: the published payload of a number, or the `.tmp` in front of it; durable
-- where a `sync_all` behind the last write has returned.
pub record File : Type 0 where
  pub published : Bool
  pub seq : ℕ
  pub content : Bytes
  pub durable : Bool

abbrev pub name_of : Bool → ℕ → Bytes
name_of true seq = otlp_name seq
name_of false seq = tmp_name seq

abbrev pub entry_of : File → Bytes × ℕ
entry_of f = (name_of f.published f.seq, length f.content)

-- The directory without its `.tmp` files.
unfoldable pub sweep : List File → List File
sweep [] = []
sweep (f ∷ fs) = let rest = sweep fs in if f.published then f ∷ rest else rest
