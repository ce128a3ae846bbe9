-- ===== src/Spool/Reachable.antt =====
-- The state of src/spool.rs under a sequence of pushes and drains.
use archiv_agent.Base.{
  ℕ, ◌+◌, ◌%◌, ◌^◌, ◌<◌, ◌≤◌, ◌≡◌, ◌∙◌, refl, ap, arith, [], ◌∷◌, ◌++◌, All-append, ltb, ==_self,
  Bool-cases, inl, inr,
}
use archiv_agent.Spool.{
  Pending, State, contains, remove, reserve, publish, release, oldest, delivered, push, settle_push,
  Written, durable, write_error, drain_once, settle_drain, Attempt, unreadable, undelivered,
  accepted, empty, granted, first,
}
use archiv_agent.Spool.Accounting.{IsAbove, insert-above}

unfoldable pub sum_bytes : Pending → ℕ
sum_bytes [] = 0
sum_bytes ((seq, len) ∷ pending) = len + sum_bytes pending

sum_bytes-append : (xs ys : Pending) → sum_bytes (xs ++ ys) ≡ sum_bytes xs + sum_bytes ys
unfolding sum_bytes
sum_bytes-append [] ys = omega arith
sum_bytes-append ((s, l) ∷ xs) ys = omega (arith, sum_bytes-append xs ys)

-- The bytes counted are those of the payloads, under the cap, and the next number is new.
pub record IsAccounted (max_bytes : ℕ) (s : State) : Type 0 where
  pub counted : s.total_bytes ≡ sum_bytes s.pending
  pub capped : s.total_bytes ≤ max_bytes
  pub numbered : IsAbove s.next_seq s.pending

-- Calls that follow one another; sizes and numbers stay below 2 ^ 64.
pub data Reach (max_bytes : ℕ) : State → Type 0 where
  start : Reach max_bytes empty
  pushed :
      {s : State} (len : ℕ) (written : Written)
      → max_bytes + len < 2 ^ 64
      → s.next_seq + 1 < 2 ^ 64
      → Reach max_bytes s
      → Reach max_bytes (push max_bytes len written s).1
  drained :
      {s : State} (attempt : Attempt) → Reach max_bytes s → Reach max_bytes (drain_once attempt s).1

IsAbove-suc : (n : ℕ) (pending : Pending) → IsAbove n pending → IsAbove (n + 1) pending
IsAbove-suc n [] h = tt
IsAbove-suc n (x ∷ pending) h = (omega (arith, h.0), IsAbove-suc n pending h.1)

push-IsAccounted :
    (max_bytes len : ℕ) (written : Written) (s : State)
    → max_bytes + len < 2 ^ 64
    → s.next_seq + 1 < 2 ^ 64
    → IsAccounted max_bytes s
    → IsAccounted max_bytes (push max_bytes len written s).1
unfolding push reserve publish release sum_bytes
push-IsAccounted max_bytes len written s fits n h =
    elim (Bool-cases (ltb max_bytes ((s.total_bytes + len) % 2 ^ 64))) [
      | inl e ↦ rw e h
      | inr e ↦ rw e (granted_part written (ground (arith, total)))
    ]
  where
    next : (s.next_seq + 1) % 2 ^ 64 ≡ s.next_seq + 1
    next = omega arith

    total : (s.total_bytes + len) % 2 ^ 64 ≡ s.total_bytes + len
    total = omega (arith, h.capped)

    later : IsAbove (s.next_seq + 1) s.pending
    later = IsAbove-suc s.next_seq s.pending h.numbered

    granted_part :
        (w : Written)
        → s.total_bytes + len ≤ max_bytes
        → IsAccounted max_bytes
            (settle_push len w s (
              granted s.next_seq (record s {
                next_seq = (s.next_seq + 1) % 2 ^ 64;
                total_bytes = (s.total_bytes + len) % 2 ^ 64;
              }))).1
    granted_part durable small = rw (insert-above s.next_seq len s.pending h.numbered) (record {
      counted =
          omega (arith, total, h.counted, sum_bytes-append s.pending ((s.next_seq, len) ∷ []));
      capped = omega (arith, total);
      numbered = rw next (All-append _ s.pending _ later (omega arith, tt));
    })
    granted_part write_error small = record {
      counted = omega (arith, total, h.counted);
      capped = omega (arith, total);
      numbered = rw next later;
    }

settle_drain-IsAccounted :
    (max_bytes : ℕ) (attempt : Attempt) (s : State) (pending : Pending)
    → s.pending ≡ pending
    → IsAccounted max_bytes s
    → IsAccounted max_bytes (settle_drain attempt s (first pending)).1
unfolding delivered contains remove sum_bytes
settle_drain-IsAccounted max_bytes attempt s [] e h = h
settle_drain-IsAccounted max_bytes unreadable s (x ∷ rest) e h = h
settle_drain-IsAccounted max_bytes undelivered s (x ∷ rest) e h = h
settle_drain-IsAccounted max_bytes accepted s ((seq, len) ∷ rest) e h =
    let whole : s.total_bytes ≡ len + sum_bytes rest = h.counted ∙ ap sum_bytes e in
    let above : IsAbove s.next_seq ((seq, len) ∷ rest) = rw e at h.numbered in
    rw (e, ==_self seq)
      (record {
        counted = omega (arith, whole);
        capped = omega (arith, h.capped);
        numbered = above.1;
      })

-- However pushes and drains follow one another from an empty spool, the bytes that it counts are
-- those of the payloads that it holds, they stay under the cap, and the next number is above all in
-- use. Each size together with the cap, and each new number, stay below 2 ^ 64.
pub Reach-IsAccounted : (max_bytes : ℕ) {s : State} → Reach max_bytes s → IsAccounted max_bytes s
unfolding empty drain_once oldest sum_bytes
Reach-IsAccounted max_bytes start = record { counted = refl; capped = omega arith; numbered = tt }
Reach-IsAccounted max_bytes (pushed {s} len written f n r) =
    push-IsAccounted max_bytes len written s f n (Reach-IsAccounted max_bytes r)
Reach-IsAccounted max_bytes (drained {s} attempt r) =
    settle_drain-IsAccounted max_bytes attempt s s.pending refl (Reach-IsAccounted max_bytes r)
