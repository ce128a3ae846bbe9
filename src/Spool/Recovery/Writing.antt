-- ===== src/Spool/Recovery/Writing.antt =====
-- The steps of `push` in src/spool.rs, up to the rename of its file.
use archiv_agent.Base.{
  ℕ, ◌+◌, ◌<◌, ◌≡◌, ◌≢◌, ◌∙◌, refl, sym, ap, arith, List, [], ◌∷◌, ◌++◌, All, Bool, true, false,
  if◌then◌else◌, if_case, ◌==◌, ==_iff, ==_self, length,
}
use archiv_agent.Wire.{Bytes}
use archiv_agent.Spool.{State, release}
use archiv_agent.Spool.Recovery.{File}
use archiv_agent.Spool.Recovery.Entries.{is_there}
use archiv_agent.Spool.Recovery.Crashes.{System, same_flag, unlink, file}
use archiv_agent.Spool.Recovery.Files.{
  copies, copies-split, copies-below, All-map, All-split, All-others, All-unlink,
  is_there-unlink_tmp,
}
use archiv_agent.Spool.Recovery.Durable.{
  IsKept, IsStored, IsSynced, IsOpen, IsDurable, IsGranted, length_of-above,
}

same_flag_self : (b : Bool) → same_flag b b ≡ true
same_flag_self true = refl
same_flag_self false = refl

-- No file is left where its name is discarded.
pub unlink-vacuous :
    (published : Bool) (seq : ℕ) (payload : Bytes) (fs : List File)
    → All (IsKept published seq payload) (unlink published seq fs)
unfolding unlink
unlink-vacuous b seq payload [] = tt
unlink-vacuous b seq payload (f ∷ fs) =
    let rest = unlink-vacuous b seq payload fs in
    if_case (All (IsKept b seq payload)) (same_flag b f.published)
      (λ _.
        if_case (All (IsKept b seq payload)) (f.seq == seq) (λ _. rest)
          (λ e. (
            (λ _ z.
                let g : (f.seq == seq) ≡ true = (==_iff f.seq seq).1 z in
                absurd (apart (sym e ∙ g))),
            rest,
          )))
      (λ e. ((λ z _. absurd (apart (sym e ∙ ap (same_flag b) z ∙ same_flag_self b))), rest))
  where
    apart : false ≢ true
    apart z = cc

-- A `.tmp` file takes the place of the one of the same number.
module _ (seq : ℕ) (content : Bytes) (durable : Bool) (fs : List File) where
  abbrev put : List File
  put = record (file false seq content) { durable = durable } ∷ unlink false seq fs

  put-IsStored : (x : ℕ × Bytes) → IsStored fs x → IsStored put x
  unfolding is_there
  put-IsStored x k = record {
    there = is_there-unlink_tmp x.0 seq fs ∙ k.there;
    content = ((λ z. absurd cc), All-unlink (IsKept true x.0 x.1) false seq fs k.content);
  }

  put-IsSynced : (x : ℕ × Bytes) → x.0 ≢ seq → IsSynced fs x → IsSynced put x
  put-IsSynced x d k =
      ((λ _ z. absurd (d (sym z))), All-unlink (IsKept false x.0 x.1) false seq fs k)

pub copies-in :
    (before after : List (ℕ × Bytes)) (seq : ℕ) (payload : Bytes) (xs : List (ℕ × Bytes))
    → xs ≡ before ++ (seq, payload) ∷ after
    → (q : ℕ) → copies q xs ≡ (if seq == q then 1 else 0) + copies q (before ++ after)
copies-in before after seq payload xs e q =
    ap (copies q) e ∙ copies-split q before after (seq, payload)

module _ (p : System) (h : IsDurable p) where
  pub begin-IsDurable :
      (payload : Bytes) (seq : ℕ) (s : State)
      → IsGranted seq p.live s
      → IsDurable (record p { live = s; begun = p.begun + 1; writing = (seq, payload) ∷ p.writing })
  unfolding copies
  begin-IsDurable payload seq s g =
      let new_writing : copies seq p.writing ≡ 0 = rw g.number (
        copies-below p.live.next_seq p.writing
          (All-map p.writing h.writing_open (λ x k. k.below))) in
      let new_synced : copies seq p.synced ≡ 0 =
        rw g.number (
          copies-below p.live.next_seq p.synced
            (All-map p.synced h.synced_open (λ x k. k.below))) in
      let new_renamed : copies seq p.renamed ≡ 0 = rw g.number (
        copies-below p.live.next_seq p.renamed
          (All-map p.renamed h.renamed_open (λ x k. k.below))) in
      let new_acknowledged : copies seq p.acknowledged ≡ 0 = rw g.number (
        copies-below p.live.next_seq p.acknowledged
          (All-map p.acknowledged h.held (λ x k. k.below))) in
      let grow : (x : ℕ × Bytes) → IsOpen p.live x → IsOpen s x =
        λ x k. record { below = omega (arith, k.below, g.next); absent = rw g.same k.absent } in
      record {
        numbered = All-map p.files h.numbered (λ f k. omega (arith, k));
        next = omega (arith, h.next, g.next);
        below = rw g.same (All-map p.live.pending h.below (λ x k. omega (arith, k, g.next)));
        writing_open = (
          record {
            below = omega (arith, g.next, g.number);
            absent = rw (g.same, g.number) (length_of-above p.live.next_seq p.live.pending h.below);
          },
          All-map p.writing h.writing_open grow,
        );
        synced_open = All-map p.synced h.synced_open grow;
        synced_kept = h.synced_kept;
        renamed_open = All-map p.renamed h.renamed_open grow;
        renamed_stored = h.renamed_stored;
        held =
            All-map p.acknowledged h.held
              (λ x k. record { below = omega (arith, k.below, g.next); waits = rw g.same k.waits });
        stored = h.stored;
        unique =
            λ q. ground (arith, h.unique q, new_writing, new_synced, new_renamed, new_acknowledged);
      }

  pub write-IsDurable :
      (before after : List (ℕ × Bytes)) (seq : ℕ) (payload content : Bytes)
      → p.writing ≡ before ++ (seq, payload) ∷ after
      → IsDurable (record p { files = file false seq content ∷ unlink false seq p.files })
  write-IsDurable before after seq payload content e =
      let (o, _) = All-split (IsOpen p.live) before after (seq, payload) (rw e at h.writing_open) in
      let split = copies-in before after seq payload p.writing e seq in
      let one : (seq == seq) ≡ true = ==_self seq in
      let no_synced : copies seq p.synced ≡ 0 = ground (arith, split, h.unique seq, one) in
      let stored = put-IsStored seq content false p.files in
      record {
        numbered = (
          omega (arith, o.below, h.next),
          All-unlink (λ f. f.seq < p.begun) false seq p.files h.numbered,
        );
        next = h.next;
        below = h.below;
        writing_open = h.writing_open;
        synced_open = h.synced_open;
        synced_kept =
            All-others seq p.synced no_synced h.synced_kept
              (put-IsSynced seq content false p.files);
        renamed_open = h.renamed_open;
        renamed_stored = All-map p.renamed h.renamed_stored stored;
        held = h.held;
        stored = All-map p.acknowledged h.stored stored;
        unique = h.unique;
      }

  pub sync-IsDurable :
      (before after : List (ℕ × Bytes)) (seq : ℕ) (payload : Bytes)
      → p.writing ≡ before ++ (seq, payload) ∷ after
      → IsDurable (record p {
        files = record (file false seq payload) { durable = true } ∷ unlink false seq p.files;
        writing = before ++ after;
        synced = (seq, payload) ∷ p.synced;
      })
  unfolding copies
  sync-IsDurable before after seq payload e =
      let (o, others) =
        All-split (IsOpen p.live) before after (seq, payload) (rw e at h.writing_open) in
      let split = copies-in before after seq payload p.writing e in
      let one : (seq == seq) ≡ true = ==_self seq in
      let no_synced : copies seq p.synced ≡ 0 = ground (arith, split seq, h.unique seq, one) in
      let stored = put-IsStored seq payload true p.files in
      record {
        numbered = (
          omega (arith, o.below, h.next),
          All-unlink (λ f. f.seq < p.begun) false seq p.files h.numbered,
        );
        next = h.next;
        below = h.below;
        writing_open = others;
        synced_open = (o, h.synced_open);
        synced_kept = (
          ((λ _ _. (refl, refl)), unlink-vacuous false seq payload p.files),
          All-others seq p.synced no_synced h.synced_kept (put-IsSynced seq payload true p.files),
        );
        renamed_open = h.renamed_open;
        renamed_stored = All-map p.renamed h.renamed_stored stored;
        held = h.held;
        stored = All-map p.acknowledged h.stored stored;
        unique = λ q. omega (arith, split q, h.unique q);
      }

  fail-IsOpen : (len : ℕ) (x : ℕ × Bytes) → IsOpen p.live x → IsOpen (release len p.live) x
  unfolding release
  fail-IsOpen len x k = record { below = k.below; absent = k.absent }

  pub fail-IsDurable :
      (before after : List (ℕ × Bytes)) (seq : ℕ) (payload : Bytes)
      → p.writing ≡ before ++ (seq, payload) ∷ after
      → IsDurable (record p { live = release (length payload) p.live; writing = before ++ after })
  unfolding release
  fail-IsDurable before after seq payload e =
      let (o, others) =
        All-split (IsOpen p.live) before after (seq, payload) (rw e at h.writing_open) in
      let split = copies-in before after seq payload p.writing e in
      let same = fail-IsOpen (length payload) in
      record {
        numbered = h.numbered;
        next = h.next;
        below = h.below;
        writing_open = All-map (before ++ after) others same;
        synced_open = All-map p.synced h.synced_open same;
        synced_kept = h.synced_kept;
        renamed_open = All-map p.renamed h.renamed_open same;
        renamed_stored = h.renamed_stored;
        held = All-map p.acknowledged h.held (λ x k. record { below = k.below; waits = k.waits });
        stored = h.stored;
        unique = λ q. omega (arith, split q, h.unique q);
      }

  pub fail_rename-IsDurable :
      (before after : List (ℕ × Bytes)) (seq : ℕ) (payload : Bytes)
      → p.synced ≡ before ++ (seq, payload) ∷ after
      → IsDurable (record p { live = release (length payload) p.live; synced = before ++ after })
  unfolding release
  fail_rename-IsDurable before after seq payload e =
      let (o, others) =
        All-split (IsOpen p.live) before after (seq, payload) (rw e at h.synced_open) in
      let (_, others_kept) =
        All-split (IsSynced p.files) before after (seq, payload) (rw e at h.synced_kept) in
      let split = copies-in before after seq payload p.synced e in
      let same = fail-IsOpen (length payload) in
      record {
        numbered = h.numbered;
        next = h.next;
        below = h.below;
        writing_open = All-map p.writing h.writing_open same;
        synced_open = All-map (before ++ after) others same;
        synced_kept = others_kept;
        renamed_open = All-map p.renamed h.renamed_open same;
        renamed_stored = h.renamed_stored;
        held = All-map p.acknowledged h.held (λ x k. record { below = k.below; waits = k.waits });
        stored = h.stored;
        unique = λ q. omega (arith, split q, h.unique q);
      }
