-- ===== src/Spool/Recovery/Promise.antt =====
-- The promise of `push` in src/spool.rs: what it has acknowledged survives a crash.
use archiv_agent.Base.{
  ℕ, ◌+◌, ◌<◌, ◌≤◌, ◌^◌, ◌≡◌, ◌∙◌, refl, ap, arith, List, [], ◌∷◌, ◌++◌, map, All, Bool, true,
  false, length, if◌then◌else◌,
}
use archiv_agent.Wire.{Bytes}
use archiv_agent.Spool.{
  State, Pending, Reserved, SpoolError, refused, granted, reserve, publish, release, oldest, first,
  delivered, contains, remove, insert,
}
use archiv_agent.Spool.Recovery.{File, entry_of, recover, sweep}
use archiv_agent.Spool.Recovery.Entries.{IsNumbered, Agrees}
use archiv_agent.Spool.Recovery.Backlogs.{recover_finds, recover_under}
use archiv_agent.Spool.Recovery.Numbers.{recover_next}
use archiv_agent.Spool.Recovery.Outages.{All-Survives, IsKept-Survives, is_there-Survives}
use archiv_agent.Spool.Recovery.Crashes.{
  System, Step, begin, write, sync, rename, finish, fail, fail_rename, deliver, reorder, crash,
  Survives, Reaches, start, step, unlink, forget,
}
use archiv_agent.Spool.Recovery.Files.{
  copies, All-map, All-split, All-sweep, All-unlink, is_there-sweep, is_there-split,
  is_there-unlink,
}
use archiv_agent.Spool.Recovery.Durable.{IsKept, IsStored, IsDurable, reserve-IsGranted}
use archiv_agent.Spool.Recovery.Writing.{
  begin-IsDurable, write-IsDurable, sync-IsDurable, fail-IsDurable, fail_rename-IsDurable,
}
use archiv_agent.Spool.Recovery.Renames.{rename-IsDurable}
use archiv_agent.Spool.Recovery.Sections.{
  IsOldest, oldest-IsOldest, finish-IsDurable, deliver-IsDurable,
}

module _ (p : System) (h : IsDurable p) where
  remove-IsDurable :
      (removed : Bool) (seq len : ℕ)
      → IsOldest seq len p.live
      → IsDurable (record p {
        files = if removed then unlink true seq p.files else p.files;
        live = delivered seq len p.live;
        acknowledged = forget seq p.acknowledged;
      })
  remove-IsDurable true seq len o =
      deliver-IsDurable p h seq len (unlink true seq p.files) o
        (λ P k. All-unlink P true seq p.files k) (λ q d. is_there-unlink q seq p.files d)
  remove-IsDurable false seq len o =
      deliver-IsDurable p h seq len p.files o (λ P k. k) (λ q d. refl)

  reorder-IsDurable :
      (before after : List File) (f : File)
      → p.files ≡ before ++ f ∷ after
      → IsDurable (record p { files = f ∷ before ++ after })
  reorder-IsDurable before after f e =
      let keep : (x : ℕ × Bytes) → IsStored p.files x → IsStored (f ∷ before ++ after) x = λ x k.
        record {
          there = is_there-split x.0 before after f (rw e at k.there);
          content = All-split (IsKept true x.0 x.1) before after f (rw e at k.content);
        } in
      record {
        numbered = All-split (λ x. x.seq < p.begun) before after f (rw e at h.numbered);
        next = h.next;
        below = h.below;
        writing_open = h.writing_open;
        synced_open = h.synced_open;
        synced_kept =
            All-map p.synced h.synced_kept
              (λ x k. All-split (IsKept false x.0 x.1) before after f (rw e at k));
        renamed_open = h.renamed_open;
        renamed_stored = All-map p.renamed h.renamed_stored keep;
        held = h.held;
        stored = All-map p.acknowledged h.stored keep;
        unique = h.unique;
      }

  left-IsStored :
      {left : List File}
      → Survives p.files left
      → (x : ℕ × Bytes) → IsStored p.files x
      → IsStored left x
  left-IsStored s x k = record {
    there = is_there-Survives x.0 x.1 s k.content k.there;
    content = IsKept-Survives x.0 x.1 s k.content;
  }

  crash-IsDurable :
      (left : List File)
      → Survives p.files left
      → p.begun < 2 ^ 64
      → IsDurable (record p {
        files = sweep left;
        live = recover (map entry_of left);
        writing = [];
        synced = [];
        renamed = [];
      })
  unfolding copies
  crash-IsDurable left s small =
      let under : All (λ f. f.seq < p.begun) left = All-Survives (λ q. q < p.begun) s h.numbered in
      let numbered : All IsNumbered left = All-map left under (λ f k. omega (arith, k, small)) in
      let stored = All-map p.acknowledged h.stored (left-IsStored s) in
      record {
        numbered = All-sweep (λ f. f.seq < p.begun) left under;
        next = recover_next p.begun left numbered under;
        below = recover_under left numbered;
        writing_open = tt;
        synced_open = tt;
        synced_kept = tt;
        renamed_open = tt;
        renamed_stored = tt;
        held = All-map p.acknowledged stored (λ x k.
            let lengths : All (Agrees x.0 (length x.1)) left =
              All-map left k.content (λ f c u v. ap length (c u v).0) in
            let (found, below) = recover_finds x.0 (length x.1) left numbered lengths k.there in
            record { below = below; waits = found });
        stored = All-map p.acknowledged stored (λ x k. record {
          there = is_there-sweep x.0 left ∙ k.there;
          content = All-sweep (IsKept true x.0 x.1) left k.content;
        });
        unique = λ q. omega (arith, h.unique q);
      }

Step-begun : {max_bytes : ℕ} {p q : System} → Step max_bytes p q → p.begun ≤ q.begun
Step-begun (begin _ _ _ _ g) = rw g (omega arith)
Step-begun (write _ _ _ _ _ _ g) = rw g (omega arith)
Step-begun (sync _ _ _ _ _ _ _ _ g) = rw g (omega arith)
Step-begun (rename _ _ _ _ _ _ _ _ _ _ _ g) = rw g (omega arith)
Step-begun (finish _ _ _ _ _ g) = rw g (omega arith)
Step-begun (fail _ _ _ _ _ g) = rw g (omega arith)
Step-begun (fail_rename _ _ _ _ _ g) = rw g (omega arith)
Step-begun (deliver _ _ _ _ g) = rw g (omega arith)
Step-begun (reorder _ _ _ _ g) = rw g (omega arith)
Step-begun (crash _ _ g) = rw g (omega arith)

begin_small : (n m : ℕ) → n ≤ m → m + 1 < 2 ^ 64 → n + 1 < 2 ^ 64
begin_small n m h k = omega (arith, h, k)

Step-IsDurable :
    {max_bytes : ℕ} {p q : System}
    → Step max_bytes p q
    → q.begun < 2 ^ 64
    → IsDurable p
    → IsDurable q
Step-IsDurable {max_bytes} {p} {q} (begin payload seq s e g) small h =
    let begun : q.begun ≡ p.begun + 1 = ap (λ x. x.begun) g in
    let room = begin_small p.live.next_seq p.begun h.next (rw (← begun) small) in
    rw g (begin-IsDurable p h payload seq s (reserve-IsGranted max_bytes _ seq p.live s e room))
Step-IsDurable {p = p} (write before after seq payload content e g) small h =
    rw g (write-IsDurable p h before after seq payload content e)
Step-IsDurable {p = p} (sync before after seq payload front back e w g) small h =
    rw g (sync-IsDurable p h before after seq payload e)
Step-IsDurable {p = p} (rename before after seq payload front back f e w t n g) small h =
    rw g (rename-IsDurable p h before after seq payload front back f e w t n)
Step-IsDurable {p = p} (finish before after seq payload e g) small h =
    rw g (finish-IsDurable p h before after seq payload e)
Step-IsDurable {p = p} (fail before after seq payload e g) small h =
    rw g (fail-IsDurable p h before after seq payload e)
Step-IsDurable {p = p} (fail_rename before after seq payload e g) small h =
    rw g (fail_rename-IsDurable p h before after seq payload e)
Step-IsDurable {p = p} (deliver removed seq len e g) small h =
    rw g (remove-IsDurable p h removed seq len (oldest-IsOldest seq len p.live e))
Step-IsDurable {p = p} (reorder before after f e g) small h =
    rw g (reorder-IsDurable p h before after f e)
Step-IsDurable {p = p} (crash left s g) small h =
    let begun = ap (λ x. x.begun) g in rw g (crash-IsDurable p h left s (rw begun at small))

-- However pushes, deliveries, crashes and losses of power are interleaved, at any point of the writing
-- of a file, with less than 2 ^ 64 pushes granted, where the names in the directory are kept: every
-- payload whose push has returned, and that the destination has not taken, stands in a published and
-- synced file with just its bytes, and waits to be drained under its number with its length, behind a
-- crash as before it; the numbers of all these and of the pushes under way are different.
pub Reaches-IsDurable :
    {max_bytes : ℕ} {p : System} → Reaches max_bytes p → p.begun < 2 ^ 64 → IsDurable p
unfolding archiv_agent.Spool.empty copies
Reaches-IsDurable start small = record {
  numbered = tt;
  next = omega arith;
  below = tt;
  writing_open = tt;
  synced_open = tt;
  synced_kept = tt;
  renamed_open = tt;
  renamed_stored = tt;
  held = tt;
  stored = tt;
  unique = λ q. omega arith;
}
Reaches-IsDurable (step r s) small =
    Step-IsDurable s small (Reaches-IsDurable r (omega (arith, Step-begun s, small)))
