-- ===== src/Spool/Recovery/Backlogs.antt =====
-- What `open` of src/spool.rs recovers of each published file.
use archiv_agent.Base.{
  ℕ, ◌+◌, ◌%◌, ◌^◌, ◌≤◌, ◌<◌, ◌≡◌, ◌≢◌, ◌∙◌, refl, sym, ap, arith, max, List, [], ◌∷◌, All, Option,
  none, some, true, ◌&&◌, if_case, ltb, ◌==◌, ==_iff, length, map, Bool-cases, inl, inr,
}
use archiv_agent.Spool.{Pending, insert}
use archiv_agent.Spool.Recovery.{
  Backlog, raise, note_file, scan_entry, scan_dir, next_number, no_backlog, recover, File, name_of,
  entry_of,
}
use archiv_agent.Spool.Recovery.Entries.{
  IsNumbered, Agrees, is_there, length_of, length_of-insert, length_of-insert_other,
  scan_entry-name_of,
}

-- The backlog has the number, with its length, below the next number.
record Has (seq len : ℕ) (b : Backlog) : Type 0 where
  pub found : length_of seq b.pending ≡ some len
  pub highest : ℕ
  pub raised : b.max_seq ≡ some highest
  pub above : seq ≤ highest
  pub small : highest + 1 < 2 ^ 64

abbrev Small : Backlog → Type 0
Small b = (m : ℕ) → b.max_seq ≡ some m → m + 1 < 2 ^ 64

raise-small :
    (seq : ℕ) (o : Option ℕ)
    → seq + 1 < 2 ^ 64
    → ((m : ℕ) → o ≡ some m → m + 1 < 2 ^ 64)
    → raise seq o + 1 < 2 ^ 64
raise-small seq none h k = h
raise-small seq (some m) h k = omega (arith, h, k m refl)

raise-above : (seq : ℕ) (o : Option ℕ) → seq ≤ raise seq o
raise-above seq none = omega arith
raise-above seq (some m) = omega arith

note-Small :
    (seq len : ℕ) (b : Backlog) → seq + 1 < 2 ^ 64 → Small b → Small (note_file len b (some seq))
note-Small seq len b h k m e =
    let same : raise seq b.max_seq ≡ m = cc in rw (← same) (raise-small seq b.max_seq h k)

note-Has_same :
    (q n seq len : ℕ) (b : Backlog)
    → seq ≡ q
    → len ≡ n
    → seq + 1 < 2 ^ 64
    → Small b
    → Has q n (note_file len b (some seq))
note-Has_same q n seq len b e g h k = record {
  found =
      ap (λ t. length_of t (insert seq len b.pending)) (sym e)
      ∙ length_of-insert seq len b.pending
      ∙ ap some g;
  highest = raise seq b.max_seq;
  raised = refl;
  above = omega (arith, raise-above seq b.max_seq, e);
  small = raise-small seq b.max_seq h k;
}

note-Has_other :
    (q seq len n : ℕ) (b : Backlog)
    → q ≢ seq
    → seq + 1 < 2 ^ 64
    → Has q n b
    → Has q n (note_file len b (some seq))
note-Has_other q seq len n b d h k =
    let e : raise seq b.max_seq ≡ max k.highest seq = rw k.raised refl in
    record {
      found = length_of-insert_other q seq len b.pending d ∙ k.found;
      highest = max k.highest seq;
      raised = ap some e;
      above = omega (arith, k.above);
      small = omega (arith, k.small, h);
    }

scan_entry-Has :
    (q n : ℕ) (f : File) (b : Backlog)
    → IsNumbered f
    → Agrees q n f
    → Small b
    → Has q n b
    → Has q n (scan_entry (name_of f.published f.seq) (length f.content) b)
scan_entry-Has q n f b h a k has =
    rw (scan_entry-name_of f.published f.seq (length f.content) b h) (
      if_case (Has q n) f.published
        (λ p. elim (Bool-cases (f.seq == q)) [
          | inl e ↦
              let same : f.seq ≡ q = (==_iff f.seq q).0 e in
              note-Has_same q n f.seq (length f.content) b same (a p same) h k
          | inr e ↦ note-Has_other q f.seq (length f.content) n b (λ z. ground (arith, z, e)) h has
        ])
        (λ _. has))

scan_entry-Small :
    (f : File) (b : Backlog)
    → IsNumbered f
    → Small b
    → Small (scan_entry (name_of f.published f.seq) (length f.content) b)
scan_entry-Small f b h k =
    rw (scan_entry-name_of f.published f.seq (length f.content) b h)
      (if_case Small f.published (λ _. note-Small f.seq (length f.content) b h k) (λ _. k))

scan_entry_finds :
    (q n : ℕ) (f : File) (b : Backlog)
    → IsNumbered f
    → Agrees q n f
    → Small b
    → f.published ≡ true
    → f.seq ≡ q
    → Has q n (scan_entry (name_of f.published f.seq) (length f.content) b)
scan_entry_finds q n f b h a k p e =
    rw (scan_entry-name_of f.published f.seq (length f.content) b h, p)
      (note-Has_same q n f.seq (length f.content) b e (a p e) h k)

scan_dir-Has :
    (q n : ℕ) (fs : List File) (b : Backlog)
    → All IsNumbered fs
    → All (Agrees q n) fs
    → Small b
    → Has q n b
    → Has q n (scan_dir (map entry_of fs) b)
unfolding scan_dir
scan_dir-Has q n [] b h a k has = has
scan_dir-Has q n (f ∷ fs) b (h, hs) (a, others) k has =
    scan_dir-Has q n fs _ hs others (scan_entry-Small f b h k) (scan_entry-Has q n f b h a k has)

scan_dir_finds :
    (q n : ℕ) (fs : List File) (b : Backlog)
    → All IsNumbered fs
    → All (Agrees q n) fs
    → Small b
    → is_there q fs ≡ true
    → Has q n (scan_dir (map entry_of fs) b)
unfolding scan_dir is_there
scan_dir_finds q n [] b h a k t = absurd cc
scan_dir_finds q n (f ∷ fs) b (h, hs) (a, others) k t =
    elim (Bool-cases (f.published && f.seq == q)) [
      | inl e ↦
          let p : f.published ≡ true = ground (arith, e) in
          let s : (f.seq == q) ≡ true = ground (arith, e) in
          scan_dir-Has q n fs _ hs others (scan_entry-Small f b h k)
            (scan_entry_finds q n f b h a k p ((==_iff f.seq q).0 s))
      | inr e ↦ scan_dir_finds q n fs _ hs others (scan_entry-Small f b h k) (rw e at t)
    ]

-- Where all published files of a number have one length, and one stands in the directory, recovery has
-- the number with that length, and the next number is above it.
pub recover_finds :
    (q n : ℕ) (fs : List File)
    → All IsNumbered fs
    → All (Agrees q n) fs
    → is_there q fs ≡ true
    → let s = recover (map entry_of fs) in (length_of q s.pending ≡ some n) × (q < s.next_seq)
unfolding recover
recover_finds q n fs h a t =
    let has = scan_dir_finds q n fs no_backlog h a (λ m e. absurd (no_option m e)) t in
    let small : (has.highest + 1) % 2 ^ 64 ≡ has.highest + 1 = omega (arith, has.small) in
    (has.found, rw (has.raised, small) (omega (arith, has.above)))
  where
    no_option : (m : ℕ) → none ≢ some m
    no_option m e = cc

-- No number in the map is above the highest that was seen.
abbrev Below : Option ℕ → ℕ × ℕ → Type 0
Below none x = ⊥
Below (some m) x = x.0 ≤ m

pub All-insert {ℓ} :
    (P : ℕ × ℕ → Type ℓ) (seq len : ℕ) (pending : Pending)
    → All P pending
    → P (seq, len)
    → All P (insert seq len pending)
unfolding insert
All-insert P seq len [] h k = (k, tt)
All-insert P seq len ((s, l) ∷ pending) (h, hs) k =
    if_case (All P) (ltb seq s) (λ _. (k, (h, hs)))
      (λ _. if_case (All P) (seq == s) (λ _. (k, hs)) (λ _. (h, All-insert P seq len pending hs k)))

All-raise :
    (seq : ℕ) (o : Option ℕ) (pending : Pending)
    → All (Below o) pending
    → All (Below (some (raise seq o))) pending
All-raise seq o [] h = tt
All-raise seq none (x ∷ pending) (h, hs) = absurd h
All-raise seq (some m) (x ∷ pending) (h, hs) = (omega (arith, h), All-raise seq (some m) pending hs)

scan_dir-Below :
    (fs : List File) (b : Backlog)
    → All IsNumbered fs
    → Small b
    → All (Below b.max_seq) b.pending
    → let r = scan_dir (map entry_of fs) b in Small r × All (Below r.max_seq) r.pending
unfolding scan_dir
scan_dir-Below [] b h k a = (k, a)
scan_dir-Below (f ∷ fs) b (h, hs) k a = scan_dir-Below fs _ hs (scan_entry-Small f b h k) (
    rw (scan_entry-name_of f.published f.seq (length f.content) b h) (
      if_case {A = Backlog} (λ r. All (Below r.max_seq) r.pending) f.published
        (λ _.
          All-insert (Below (some (raise f.seq b.max_seq))) f.seq (length f.content) b.pending
            (All-raise f.seq b.max_seq b.pending a) (raise-above f.seq b.max_seq))
        (λ _. a)))

under_next :
    (o : Option ℕ) (pending : Pending)
    → ((m : ℕ) → o ≡ some m → m + 1 < 2 ^ 64)
    → All (Below o) pending
    → All (λ x. x.0 < next_number o) pending
under_next o [] k h = tt
under_next none (x ∷ pending) k (h, hs) = absurd h
under_next (some m) (x ∷ pending) k (h, hs) =
    (omega (arith, h, k m refl), under_next (some m) pending k hs)

-- Every number that recovery has found is below the next one.
pub recover_under :
    (fs : List File)
    → All IsNumbered fs
    → let s = recover (map entry_of fs) in All (λ x. x.0 < s.next_seq) s.pending
unfolding recover
recover_under fs h =
    let (k, a) = scan_dir-Below fs no_backlog h (λ m e. absurd (no_option m e)) tt in
    under_next _ _ k a
  where
    no_option : (m : ℕ) → none ≢ some m
    no_option m e = cc
