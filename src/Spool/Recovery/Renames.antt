-- ===== src/Spool/Recovery/Renames.antt =====
-- The rename of the file of a push in src/spool.rs, which publishes its payload.
use archiv_agent.Base.{
  ℕ, ◌<◌, ◌≡◌, ◌≢◌, ◌∙◌, refl, sym, arith, List, ◌∷◌, ◌++◌, All, true, false, ◌==◌, ==_iff, ==_self,
}
use archiv_agent.Wire.{Bytes}
use archiv_agent.Spool.Recovery.{File}
use archiv_agent.Spool.Recovery.Entries.{is_there}
use archiv_agent.Spool.Recovery.Crashes.{System, unlink}
use archiv_agent.Spool.Recovery.Files.{
  copies, All-map, All-split, All-others, All-unlink, is_there-unlink_tmp, is_there-unlink,
}
use archiv_agent.Spool.Recovery.Durable.{IsKept, IsStored, IsSynced, IsOpen, IsDurable}
use archiv_agent.Spool.Recovery.Writing.{unlink-vacuous, copies-in}

-- A file is published under its number, in the place of what had its name.
module _ (f : File) (seq : ℕ) (named : f.seq ≡ seq) (fs : List File) where
  abbrev published : List File
  published = record f { published = true } ∷ unlink true seq (unlink false seq fs)

  published-All : (P : File → Type 0) → All P fs → All P (unlink true seq (unlink false seq fs))
  published-All P k = All-unlink P true seq _ (All-unlink P false seq fs k)

  published-IsSynced : (x : ℕ × Bytes) → IsSynced fs x → IsSynced published x
  published-IsSynced x k = ((λ z. absurd cc), published-All (IsKept false x.0 x.1) k)

  published_other : (x : ℕ × Bytes) → x.0 ≢ seq → IsStored fs x → IsStored published x
  unfolding is_there
  published_other x d k =
      let there : is_there x.0 (unlink true seq (unlink false seq fs)) ≡ true =
        is_there-unlink x.0 seq (unlink false seq fs) d
        ∙ is_there-unlink_tmp x.0 seq fs
        ∙ k.there in
      record {
        there = rw there (ground arith);
        content =
            ((λ _ z. absurd (d (sym z ∙ named))), published-All (IsKept true x.0 x.1) k.content);
      }

  published-IsStored :
      (payload : Bytes)
      → (f.content ≡ payload) × (f.durable ≡ true)
      → IsStored published (seq, payload)
  unfolding is_there
  published-IsStored payload k =
      let one : (f.seq == seq) ≡ true = (==_iff f.seq seq).1 named in
      record {
        there = rw one refl;
        content = ((λ _ _. k), unlink-vacuous true seq payload (unlink false seq fs));
      }

module _ (p : System) (h : IsDurable p) where
  pub rename-IsDurable :
      (before after : List (ℕ × Bytes)) (seq : ℕ) (payload : Bytes) (front back : List File)
      (f : File)
      → p.synced ≡ before ++ (seq, payload) ∷ after
      → p.files ≡ front ++ f ∷ back
      → f.published ≡ false
      → f.seq ≡ seq
      → IsDurable (record p {
        files = record f { published = true } ∷ unlink true seq (unlink false seq p.files);
        synced = before ++ after;
        renamed = (seq, payload) ∷ p.renamed;
      })
  unfolding copies
  rename-IsDurable before after seq payload front back f e g tmp named =
      let (o, others) =
        All-split (IsOpen p.live) before after (seq, payload) (rw e at h.synced_open) in
      let (k, others_kept) =
        All-split (IsSynced p.files) before after (seq, payload) (rw e at h.synced_kept) in
      let (kept, _) = All-split (IsKept false seq payload) front back f (rw g at k) in
      let split = copies-in before after seq payload p.synced e in
      let one : (seq == seq) ≡ true = ==_self seq in
      let no_renamed : copies seq p.renamed ≡ 0 = ground (arith, split seq, h.unique seq, one) in
      let no_acknowledged : copies seq p.acknowledged ≡ 0 =
        ground (arith, split seq, h.unique seq, one) in
      record {
        numbered = (
          omega (arith, named, o.below, h.next),
          published-All f seq named p.files (λ x. x.seq < p.begun) h.numbered,
        );
        next = h.next;
        below = h.below;
        writing_open = h.writing_open;
        synced_open = others;
        synced_kept =
            All-map (before ++ after) others_kept (published-IsSynced f seq named p.files);
        renamed_open = (o, h.renamed_open);
        renamed_stored = (
          published-IsStored f seq named p.files payload (kept tmp named),
          All-others seq p.renamed no_renamed h.renamed_stored
              (published_other f seq named p.files),
        );
        held = h.held;
        stored =
            All-others seq p.acknowledged no_acknowledged h.stored
              (published_other f seq named p.files);
        unique = λ q. omega (arith, split q, h.unique q);
      }
