-- ===== src/Spool/Recovery/Durable.antt =====
-- What src/spool.rs keeps of the payloads that it has acknowledged, when the agent crashes at any time.
use archiv_agent.Base.{
  ℕ, ◌+◌, ◌≤◌, ◌<◌, ◌%◌, ◌^◌, ◌≡◌, ◌≢◌, ◌∙◌, refl, sym, ap, arith, List, [], ◌∷◌, All, Bool, none,
  some, true, false, length, Bool-cases, inl, inr, ltb,
}
use archiv_agent.Wire.{Bytes}
use archiv_agent.Spool.{State, Pending, SpoolError, refused, granted, reserve}
use archiv_agent.Spool.Recovery.{File}
use archiv_agent.Spool.Recovery.Entries.{is_there, length_of}
use archiv_agent.Spool.Recovery.Crashes.{System}
use archiv_agent.Spool.Recovery.Files.{copies}

-- A file that is published, or is not, under this number has this content, and is synced.
abbrev pub IsKept : Bool → ℕ → Bytes → File → Type 0
IsKept published seq payload f =
    f.published ≡ published → f.seq ≡ seq → (f.content ≡ payload) × (f.durable ≡ true)

-- The payload stands in a published file.
pub record IsStored (files : List File) (x : ℕ × Bytes) : Type 0 where
  pub there : is_there x.0 files ≡ true
  pub content : All (IsKept true x.0 x.1) files

-- The `.tmp` file of a push has all of its payload, and is synced.
abbrev pub IsSynced : List File → ℕ × Bytes → Type 0
IsSynced files x = All (IsKept false x.0 x.1) files

-- The number of a push that has not returned.
pub record IsOpen (live : State) (x : ℕ × Bytes) : Type 0 where
  pub below : x.0 < live.next_seq
  pub absent : length_of x.0 live.pending ≡ none

-- The payload waits to be drained.
pub record IsHeld (live : State) (x : ℕ × Bytes) : Type 0 where
  pub below : x.0 < live.next_seq
  pub waits : length_of x.0 live.pending ≡ some (length x.1)

pub record IsDurable (p : System) : Type 0 where
  pub numbered : All (λ f. f.seq < p.begun) p.files
  pub next : p.live.next_seq ≤ p.begun
  pub below : All (λ x. x.0 < p.live.next_seq) p.live.pending
  pub writing_open : All (IsOpen p.live) p.writing
  pub synced_open : All (IsOpen p.live) p.synced
  pub synced_kept : All (IsSynced p.files) p.synced
  pub renamed_open : All (IsOpen p.live) p.renamed
  pub renamed_stored : All (IsStored p.files) p.renamed
  pub held : All (IsHeld p.live) p.acknowledged
  pub stored : All (IsStored p.files) p.acknowledged
  pub unique :
      (q : ℕ)
      → copies q p.writing + copies q p.synced + copies q p.renamed + copies q p.acknowledged ≤ 1

pub length_of-above :
    (n : ℕ) (pending : Pending) → All (λ x. x.0 < n) pending → length_of n pending ≡ none
unfolding length_of
length_of-above n [] h = refl
length_of-above n (x ∷ pending) (h, hs) = ground (arith, h, length_of-above n pending hs)

-- A granted push takes the next number.
pub record IsGranted (seq : ℕ) (s s' : State) : Type 0 where
  pub number : seq ≡ s.next_seq
  pub next : s'.next_seq ≡ s.next_seq + 1
  pub same : s'.pending ≡ s.pending

no_grant : (e : SpoolError) (seq : ℕ) (s : State) → refused e ≢ granted seq s
no_grant e seq s h = cc

pub reserve-IsGranted :
    (max_bytes len seq : ℕ) (s s' : State)
    → reserve max_bytes len s ≡ granted seq s'
    → s.next_seq + 1 < 2 ^ 64
    → IsGranted seq s s'
unfolding reserve
reserve-IsGranted max_bytes len seq s s' e h =
    elim (Bool-cases (ltb max_bytes ((s.total_bytes + len) % 2 ^ 64))) [
      | inl over ↦ absurd (no_grant _ seq s' (rw over at e))
      | inr fits ↦
          let taken : State = record s {
            next_seq = (s.next_seq + 1) % 2 ^ 64;
            total_bytes = (s.total_bytes + len) % 2 ^ 64;
          } in
          let g : granted s.next_seq taken ≡ granted seq s' = rw fits at e in
          let t : taken ≡ s' = cc in
          let n : (s.next_seq + 1) % 2 ^ 64 ≡ s.next_seq + 1 = omega arith in
          let same_number : seq ≡ s.next_seq = cc in
          record {
            number = same_number;
            next = sym (ap (λ u. u.next_seq) t) ∙ n;
            same = sym (ap (λ u. u.pending) t);
          }
    ]
