-- ===== src/Spool/Recovery/Crashes.antt =====
-- The spool of src/spool.rs with its directory, when the agent may crash, and the
-- machine lose its power, at any time. The calls of
-- `push` and `drain_once` are interleaved as the lock and the calls of the file system leave it open.
use archiv_agent.Base.{
  ℕ, ◌+◌, ◌≡◌, List, [], ◌∷◌, ◌++◌, some, Bool, true, false, ◌==◌, if◌then◌else◌, length, map,
}
use archiv_agent.Wire.{Bytes}
use archiv_agent.Spool.{State, granted, reserve, publish, release, oldest, delivered}
use archiv_agent.Spool.Recovery.{File, entry_of, recover, sweep}

-- The directory, the state under the lock, how many pushes were granted a number, the pushes that write
-- their file, those whose file is synced, those whose file is renamed, and the payloads whose push has
-- returned and that are not delivered yet.
pub record System : Type 0 where
  pub files : List File
  pub live : State
  pub begun : ℕ
  pub writing : List (ℕ × Bytes)
  pub synced : List (ℕ × Bytes)
  pub renamed : List (ℕ × Bytes)
  pub acknowledged : List (ℕ × Bytes)

abbrev pub same_flag : Bool → Bool → Bool
same_flag true b = b
same_flag false true = false
same_flag false false = true

-- What is not under that name.
unfoldable pub unlink : Bool → ℕ → List File → List File
unlink published seq [] = []
unlink published seq (f ∷ fs) =
    let rest = unlink published seq fs in
    if same_flag published f.published then (if f.seq == seq then rest else f ∷ rest) else f ∷ rest

unfoldable pub forget : ℕ → List (ℕ × Bytes) → List (ℕ × Bytes)
forget seq [] = []
forget seq ((s, p) ∷ xs) = let rest = forget seq xs in if s == seq then rest else (s, p) ∷ rest

-- A file that is not synced.
abbrev pub file : Bool → ℕ → Bytes → File
file published seq content = record {
  published = published;
  seq = seq;
  content = content;
  durable = false;
}

-- What a crash or a loss of power leaves: a file that was not synced may have any content, or be gone.
pub data Survives : List File → List File → Type 0 where
  none_left : Survives [] []
  kept : {fs gs : List File} (f : File) → Survives fs gs → Survives (f ∷ fs) (f ∷ gs)
  torn :
      {fs gs : List File} (f : File) (content : Bytes)
      → f.durable ≡ false
      → Survives fs gs
      → Survives (f ∷ fs) (record f { content = content } ∷ gs)
  lost : {fs gs : List File} (f : File) → f.durable ≡ false → Survives fs gs → Survives (f ∷ fs) gs

pub data Step (max_bytes : ℕ) (p q : System) : Type 0 where
  -- The first section of `push`.
  begin :
      (payload : Bytes) (seq : ℕ) (s : State)
      → reserve max_bytes (length payload) p.live ≡ granted seq s
      → q ≡ record p { live = s; begun = p.begun + 1; writing = (seq, payload) ∷ p.writing }
      → Step max_bytes p q
  -- `File::create` and `write_all`, as far as they have come.
  write :
      (before after : List (ℕ × Bytes)) (seq : ℕ) (payload content : Bytes)
      → p.writing ≡ before ++ (seq, payload) ∷ after
      → q ≡ record p { files = file false seq content ∷ unlink false seq p.files }
      → Step max_bytes p q
  -- `sync_all`, behind a `write_all` that has returned.
  sync :
      (before after : List (ℕ × Bytes)) (seq : ℕ) (payload : Bytes) (front back : List File)
      → p.writing ≡ before ++ (seq, payload) ∷ after
      → p.files ≡ front ++ file false seq payload ∷ back
      → q ≡ record p {
        files = record (file false seq payload) { durable = true } ∷ unlink false seq p.files;
        writing = before ++ after;
        synced = (seq, payload) ∷ p.synced;
      }
      → Step max_bytes p q
  -- `rename` of the file that has the `.tmp` name, behind a `sync_all` that has returned.
  rename :
      (before after : List (ℕ × Bytes)) (seq : ℕ) (payload : Bytes) (front back : List File)
      (f : File)
      → p.synced ≡ before ++ (seq, payload) ∷ after
      → p.files ≡ front ++ f ∷ back
      → f.published ≡ false
      → f.seq ≡ seq
      → q ≡ record p {
        files = record f { published = true } ∷ unlink true seq (unlink false seq p.files);
        synced = before ++ after;
        renamed = (seq, payload) ∷ p.renamed;
      }
      → Step max_bytes p q
  -- The last section of `push`, and its return.
  finish :
      (before after : List (ℕ × Bytes)) (seq : ℕ) (payload : Bytes)
      → p.renamed ≡ before ++ (seq, payload) ∷ after
      → q ≡ record p {
        live = publish seq (length payload) p.live;
        renamed = before ++ after;
        acknowledged = (seq, payload) ∷ p.acknowledged;
      }
      → Step max_bytes p q
  -- `create`, `write_all` or `sync_all` has failed.
  fail :
      (before after : List (ℕ × Bytes)) (seq : ℕ) (payload : Bytes)
      → p.writing ≡ before ++ (seq, payload) ∷ after
      → q ≡ record p { live = release (length payload) p.live; writing = before ++ after }
      → Step max_bytes p q
  -- `rename` has failed.
  fail_rename :
      (before after : List (ℕ × Bytes)) (seq : ℕ) (payload : Bytes)
      → p.synced ≡ before ++ (seq, payload) ∷ after
      → q ≡ record p { live = release (length payload) p.live; synced = before ++ after }
      → Step max_bytes p q
  -- The destination has taken the oldest payload: `remove_file`, whose error is ignored, and the last
  -- section of `drain_once`. They are one step: there is one loop that drains, and a push in between
  -- touches another number.
  deliver :
      (removed : Bool) (seq len : ℕ)
      → oldest p.live ≡ some (seq, len)
      → q ≡ record p {
        files = if removed then unlink true seq p.files else p.files;
        live = delivered seq len p.live;
        acknowledged = forget seq p.acknowledged;
      }
      → Step max_bytes p q
  -- A directory has no order.
  reorder :
      (before after : List File) (f : File)
      → p.files ≡ before ++ f ∷ after
      → q ≡ record p { files = f ∷ before ++ after }
      → Step max_bytes p q
  -- The agent stops, or the machine loses its power, and the agent starts again with `open`. The names
  -- in the directory are taken to be kept, although `push` does not sync the directory.
  crash :
      (left : List File)
      → Survives p.files left
      → q ≡ record p {
        files = sweep left;
        live = recover (map entry_of left);
        writing = [];
        synced = [];
        renamed = [];
      }
      → Step max_bytes p q

abbrev pub new_spool : System
new_spool = record {
  files = [];
  live = archiv_agent.Spool.empty;
  begun = 0;
  writing = [];
  synced = [];
  renamed = [];
  acknowledged = [];
}

pub data Reaches (max_bytes : ℕ) : System → Type 0 where
  start : Reaches max_bytes new_spool
  step : {p q : System} → Reaches max_bytes p → Step max_bytes p q → Reaches max_bytes q
