-- ===== src/Spool/Recovery/Sections.antt =====
-- The last sections of `push` and `drain_once` in src/spool.rs, with the directory.
use archiv_agent.Base.{
  ℕ, ◌+◌, ◌<◌, ◌≡◌, ◌≢◌, ◌∙◌, refl, sym, ap, arith, List, [], ◌∷◌, ◌++◌, All, none, some, true,
  false, if◌then◌else◌, ◌==◌, ==_self, length, Bool-cases, inl, inr,
}
use archiv_agent.Wire.{Bytes}
use archiv_agent.Spool.{State, Pending, publish, oldest, first, delivered, contains, remove}
use archiv_agent.Spool.Recovery.{File}
use archiv_agent.Spool.Recovery.Entries.{
  is_there, length_of, length_of-insert, length_of-insert_other,
}
use archiv_agent.Spool.Recovery.Backlogs.{All-insert}
use archiv_agent.Spool.Recovery.Crashes.{System, forget}
use archiv_agent.Spool.Recovery.Files.{
  copies, copies-split, copies-forget, All-map, All-split, All-others, All-forget,
}
use archiv_agent.Spool.Recovery.Durable.{IsKept, IsStored, IsOpen, IsDurable}

-- The oldest of the map is taken off.
pub record IsOldest (seq len : ℕ) (s : State) : Type 0 where
  pub rest : Pending
  pub whole : s.pending ≡ (seq, len) ∷ rest
  pub next : (delivered seq len s).next_seq ≡ s.next_seq
  pub left : (delivered seq len s).pending ≡ rest

pub oldest-IsOldest : (seq len : ℕ) (s : State) → oldest s ≡ some (seq, len) → IsOldest seq len s
unfolding oldest delivered contains remove
oldest-IsOldest seq len s e = go s.pending refl e
  where
    go :
        (pending : Pending)
        → s.pending ≡ pending
        → first pending ≡ some (seq, len)
        → IsOldest seq len s
    go [] f e = absurd cc
    go ((q, l) ∷ rest) f e =
        let sq : q ≡ seq = cc in
        let sl : l ≡ len = cc in
        let g : s.pending ≡ (seq, len) ∷ rest = f ∙ rw (sq, sl) refl in
        record {
          rest = rest;
          whole = g;
          next = rw (g, ==_self seq) refl;
          left = rw (g, ==_self seq) refl;
        }

-- A number that the map does not have is not its first one.
absent-cons :
    (q seq len : ℕ) (rest : Pending)
    → length_of q ((seq, len) ∷ rest) ≡ none
    → (q ≢ seq) × (length_of q rest ≡ none)
unfolding length_of
absent-cons q seq len rest e = elim (Bool-cases (seq == q)) [
  | inl same ↦ absurd (no_length len (rw same at e))
  | inr other ↦ ((λ z. ground (arith, z, other)), rw other at e)
]
  where
    no_length : (l : ℕ) → some l ≢ none
    no_length l z = cc

length_of-cons :
    (q seq len : ℕ) (rest : Pending) → q ≢ seq → length_of q ((seq, len) ∷ rest) ≡ length_of q rest
unfolding length_of
length_of-cons q seq len rest h = ground (arith, h)

module _ (p : System) (h : IsDurable p) where
  pub finish-IsDurable :
      (before after : List (ℕ × Bytes)) (seq : ℕ) (payload : Bytes)
      → p.renamed ≡ before ++ (seq, payload) ∷ after
      → IsDurable (record p {
        live = publish seq (length payload) p.live;
        renamed = before ++ after;
        acknowledged = (seq, payload) ∷ p.acknowledged;
      })
  unfolding publish copies
  finish-IsDurable before after seq payload e =
      let len = length payload in
      let (o, others) =
        All-split (IsOpen p.live) before after (seq, payload) (rw e at h.renamed_open) in
      let (s, others_stored) =
        All-split (IsStored p.files) before after (seq, payload) (rw e at h.renamed_stored) in
      let split : (q : ℕ)
          → copies q p.renamed ≡ (if seq == q then 1 else 0) + copies q (before ++ after) =
        λ q. ap (copies q) e ∙ copies-split q before after (seq, payload) in
      let one : (seq == seq) ≡ true = ==_self seq in
      let no_writing : copies seq p.writing ≡ 0 = ground (arith, split seq, h.unique seq, one) in
      let no_synced : copies seq p.synced ≡ 0 = ground (arith, split seq, h.unique seq, one) in
      let no_renamed : copies seq (before ++ after) ≡ 0 =
        ground (arith, split seq, h.unique seq, one) in
      let no_acknowledged : copies seq p.acknowledged ≡ 0 =
        ground (arith, split seq, h.unique seq, one) in
      let keep : (x : ℕ × Bytes) → x.0 ≢ seq → IsOpen p.live x → IsOpen (publish seq len p.live) x =
        λ x d k. record {
          below = k.below;
          absent = length_of-insert_other x.0 seq len p.live.pending d ∙ k.absent;
        } in
      record {
        numbered = h.numbered;
        next = h.next;
        below = All-insert (λ x. x.0 < p.live.next_seq) seq len p.live.pending h.below o.below;
        writing_open = All-others seq p.writing no_writing h.writing_open keep;
        synced_open = All-others seq p.synced no_synced h.synced_open keep;
        synced_kept = h.synced_kept;
        renamed_open = All-others seq (before ++ after) no_renamed others keep;
        renamed_stored = others_stored;
        held = (
          record { below = o.below; waits = length_of-insert seq len p.live.pending },
          All-others seq p.acknowledged no_acknowledged h.held (λ x d k. record {
            below = k.below;
            waits = length_of-insert_other x.0 seq len p.live.pending d ∙ k.waits;
          }),
        );
        stored = (s, h.stored);
        unique = λ q. omega (arith, split q, h.unique q);
      }

  pub deliver-IsDurable :
      (seq len : ℕ) (left : List File)
      → IsOldest seq len p.live
      → ((P : File → Type 0) → All P p.files → All P left)
      → ((q : ℕ) → q ≢ seq → is_there q left ≡ is_there q p.files)
      → IsDurable (record p {
        files = left;
        live = delivered seq len p.live;
        acknowledged = forget seq p.acknowledged;
      })
  deliver-IsDurable seq len left o all there =
      let whole : length_of seq p.live.pending ≡ length_of seq ((seq, len) ∷ o.rest) =
        ap (length_of seq) o.whole in
      let apart : (x : ℕ × Bytes) → IsOpen p.live x → (x.0 ≢ seq) × (length_of x.0 o.rest ≡ none) =
        λ x k. absent-cons x.0 seq len o.rest (rw o.whole at k.absent) in
      let keep : (x : ℕ × Bytes) → IsOpen p.live x → IsOpen (delivered seq len p.live) x =
        λ x k. record { below = rw o.next k.below; absent = rw o.left (apart x k).1 } in
      let kept : (x : ℕ × Bytes) → x.0 ≢ seq → IsStored p.files x → IsStored left x = λ x d k.
        record { there = there x.0 d ∙ k.there; content = all (IsKept true x.0 x.1) k.content } in
      let (_, below) : (seq < p.live.next_seq) × All (λ x. x.0 < p.live.next_seq) o.rest =
        rw o.whole at h.below in
      record {
        numbered = all (λ f. f.seq < p.begun) h.numbered;
        next = rw o.next h.next;
        below = rw (o.left, o.next) below;
        writing_open = All-map p.writing h.writing_open keep;
        synced_open = All-map p.synced h.synced_open keep;
        synced_kept = All-map p.synced h.synced_kept (λ x k. all (IsKept false x.0 x.1) k);
        renamed_open = All-map p.renamed h.renamed_open keep;
        renamed_stored =
            All-map p.renamed
              (All-both (IsOpen p.live) (IsStored p.files) p.renamed h.renamed_open
                h.renamed_stored)
              (λ x (k, s). kept x (apart x k).0 s);
        held = All-forget seq p.acknowledged h.held (λ x d k. record {
          below = rw o.next k.below;
          waits = rw o.left (sym (length_of-cons x.0 seq len o.rest d) ∙ rw o.whole at k.waits);
        });
        stored = All-forget seq p.acknowledged h.stored kept;
        unique = λ q. omega (arith, copies-forget q seq p.acknowledged, h.unique q);
      }
    where
      All-both :
          (P Q : ℕ × Bytes → Type 0) (xs : List (ℕ × Bytes))
          → All P xs
          → All Q xs
          → All (λ x. P x × Q x) xs
      All-both P Q [] a b = tt
      All-both P Q (x ∷ xs) (a, others) (b, rest) = ((a, b), All-both P Q xs others rest)
