-- ===== src/Metrics/Atomics.antt =====
-- The single accesses of `record` and `drain` in crates/archiv-metrics/src/lib.rs: a request adds to eight
-- atomics one by one, and a flush swaps them one by one, with those of other calls in between.
use archiv_agent.Base.{
  ℕ, ◌+◌, ◌%◌, ◌^◌, ◌≡◌, refl, sym, ap, ◌∙◌, arith, List, [], ◌∷◌, true, ◌==◌, ==_iff,
  if◌then◌else◌, Bool-cases, inl, inr, map,
}
use archiv_agent.Metrics.{Sample, Counters, fetch_add, bytes_dropped, record_counters}

-- The atomics of `WindowCounters`.
pub data Field : Type 0 where
  events_in : Field
  events_sampled_out : Field
  events_exported : Field
  bytes_in : Field
  dropped : Field
  bytes_exported : Field
  redaction_count : Field
  failopen_count : Field

abbrev pub slot : Field → ℕ
slot events_in = 0
slot events_sampled_out = 1
slot events_exported = 2
slot bytes_in = 3
slot dropped = 4
slot bytes_exported = 5
slot redaction_count = 6
slot failopen_count = 7

-- `fetch_add`, and `swap(0)`.
pub data Access : Type 0 where
  add : Field → ℕ → Access
  swap : Field → Access

pub data Call : Type 0 where
  record_call : Sample → Call
  drain_call : Call

-- The accesses of a call, in the order of its body.
unfoldable pub accesses : Call → List Access
accesses (record_call s) =
    add events_in s.events_in
    ∷ add events_sampled_out s.events_sampled_out
    ∷ add events_exported s.events_exported
    ∷ add bytes_in s.bytes_in
    ∷ add dropped (bytes_dropped s)
    ∷ add bytes_exported s.bytes_exported
    ∷ add redaction_count s.redaction_count
    ∷ add failopen_count (if s.failed_open then 1 else 0)
    ∷ []
accesses drain_call =
    swap events_in
    ∷ swap events_sampled_out
    ∷ swap events_exported
    ∷ swap bytes_in
    ∷ swap dropped
    ∷ swap bytes_exported
    ∷ swap redaction_count
    ∷ swap failopen_count
    ∷ []

abbrev pub write : Field → ℕ → (Field → ℕ) → Field → ℕ
write g n r f = if slot g == slot f then n else r f

-- The atomics behind the accesses, and what the swaps have taken.
unfoldable pub perform : List Access → (Field → ℕ) → (Field → ℕ) × List (Field × ℕ)
perform [] r = (r, [])
perform (add g n ∷ xs) r = perform xs (write g (fetch_add (r g) n) r)
perform (swap g ∷ xs) r = let (r', out) = perform xs (write g 0 r) in (r', (g, r g) ∷ out)

-- One list of accesses goes in between another.
pub data Shuffle : List Access → List Access → List Access → Type 0 where
  both_done : Shuffle [] [] []
  first : {a : Access} {xs ys zs : List Access} → Shuffle xs ys zs → Shuffle (a ∷ xs) ys (a ∷ zs)
  second : {a : Access} {xs ys zs : List Access} → Shuffle xs ys zs → Shuffle xs (a ∷ ys) (a ∷ zs)

-- The accesses of calls that run at the same time, each in its own order.
pub data Interleaved : List (List Access) → List Access → Type 0 where
  idle : Interleaved [] []
  beside :
      {xs ys zs : List Access} {threads : List (List Access)}
      → Shuffle xs ys zs
      → Interleaved threads ys
      → Interleaved (xs ∷ threads) zs

abbrev pub if_at : Field → Field → ℕ → ℕ
if_at f g n = if slot g == slot f then n else 0

unfoldable pub taken : Field → List (Field × ℕ) → ℕ
taken f [] = 0
taken f ((g, n) ∷ out) = if_at f g n + taken f out

unfoldable pub added : Field → List Access → ℕ
added f [] = 0
added f (add g n ∷ xs) = if_at f g n + added f xs
added f (swap g ∷ xs) = added f xs

-- What a sample has for a counter.
unfoldable pub amount : Field → Sample → ℕ
amount events_in s = s.events_in
amount events_sampled_out s = s.events_sampled_out
amount events_exported s = s.events_exported
amount bytes_in s = s.bytes_in
amount dropped s = bytes_dropped s
amount bytes_exported s = s.bytes_exported
amount redaction_count s = s.redaction_count
amount failopen_count s = if s.failed_open then 1 else 0

unfoldable pub amounts : Field → List Call → ℕ
amounts f [] = 0
amounts f (record_call s ∷ calls) = amount f s + amounts f calls
amounts f (drain_call ∷ calls) = amounts f calls

-- The counter of a slot.
of_slot : ℕ → Field
of_slot i =
    if i == 0
    then events_in
    else if i == 1
    then events_sampled_out
    else if i == 2
    then events_exported
    else if i == 3
    then bytes_in
    else if i == 4
    then dropped
    else if i == 5
    then bytes_exported
    else if i == 6
    then redaction_count
    else failopen_count

of_slot-slot : (f : Field) → of_slot (slot f) ≡ f
unfolding of_slot
of_slot-slot events_in = refl
of_slot-slot events_sampled_out = refl
of_slot-slot events_exported = refl
of_slot-slot bytes_in = refl
of_slot-slot dropped = refl
of_slot-slot bytes_exported = refl
of_slot-slot redaction_count = refl
of_slot-slot failopen_count = refl

same_slot : (f g : Field) → (slot g == slot f) ≡ true → g ≡ f
same_slot f g e =
    sym (of_slot-slot g) ∙ ap of_slot ((==_iff (slot g) (slot f)).0 e) ∙ of_slot-slot f

perform-taken :
    (f : Field) (xs : List Access) (r : Field → ℕ)
    → let (r', out) = perform xs r in (r' f + taken f out) % 2 ^ 64 ≡ (r f + added f xs) % 2 ^ 64
unfolding perform taken added
perform-taken f [] r = refl
perform-taken f (add g n ∷ xs) r = elim (Bool-cases (slot g == slot f)) [
  | inl e ↦
      let same : r g ≡ r f = ap r (same_slot f g e) in
      let rest = perform-taken f xs (write g (fetch_add (r g) n) r) in
      rw e (omega (arith, rw e at rest, same))
  | inr e ↦
      let rest = perform-taken f xs (write g (fetch_add (r g) n) r) in
      rw e (omega (arith, rw e at rest))
]
perform-taken f (swap g ∷ xs) r = elim (Bool-cases (slot g == slot f)) [
  | inl e ↦
      let same : r g ≡ r f = ap r (same_slot f g e) in
      let rest = perform-taken f xs (write g 0 r) in rw e (omega (arith, rw e at rest, same))
  | inr e ↦ let rest = perform-taken f xs (write g 0 r) in rw e (omega (arith, rw e at rest))
]

Shuffle-added :
    (f : Field) {xs ys zs : List Access} → Shuffle xs ys zs → added f zs ≡ added f xs + added f ys
unfolding added
Shuffle-added f both_done = refl
Shuffle-added f (first {a = add g n} s) = omega (arith, Shuffle-added f s)
Shuffle-added f (first {a = swap g} s) = Shuffle-added f s
Shuffle-added f (second {a = add g n} s) = omega (arith, Shuffle-added f s)
Shuffle-added f (second {a = swap g} s) = Shuffle-added f s

accesses-added : (f : Field) (c : Call) → added f (accesses c) ≡ amounts f (c ∷ [])
unfolding accesses added amounts amount
accesses-added events_in (record_call s) = omega arith
accesses-added events_sampled_out (record_call s) = omega arith
accesses-added events_exported (record_call s) = omega arith
accesses-added bytes_in (record_call s) = omega arith
accesses-added dropped (record_call s) = omega arith
accesses-added bytes_exported (record_call s) = omega arith
accesses-added redaction_count (record_call s) = omega arith
accesses-added failopen_count (record_call s) = omega arith
accesses-added f drain_call = refl

amounts-cons :
    (f : Field) (c : Call) (calls : List Call)
    → amounts f (c ∷ calls) ≡ amounts f (c ∷ []) + amounts f calls
unfolding amounts
amounts-cons f (record_call s) calls = omega arith
amounts-cons f drain_call calls = omega arith

Interleaved-added :
    (f : Field) (calls : List Call) {zs : List Access}
    → Interleaved (map accesses calls) zs
    → added f zs ≡ amounts f calls
unfolding added amounts
Interleaved-added f [] idle = refl
Interleaved-added f (c ∷ calls) (beside s rest) =
    Shuffle-added f s
    ∙ omega (arith, accesses-added f c, Interleaved-added f calls rest, amounts-cons f c calls)

-- However the single adds of requests and the single swaps of flushes that run at the same time are
-- interleaved: what the swaps have taken from a counter, and what is left in it, is modulo 2 ^ 64 what was
-- in it and what the requests have recorded for it.
pub perform-conserves :
    (f : Field) (calls : List Call) (xs : List Access) (r : Field → ℕ)
    → Interleaved (map accesses calls) xs
    → let (r', out) = perform xs r in
      (r' f + taken f out) % 2 ^ 64 ≡ (r f + amounts f calls) % 2 ^ 64
perform-conserves f calls xs r i =
    perform-taken f xs r ∙ ap (λ n. (r f + n) % 2 ^ 64) (Interleaved-added f calls i)

-- The counters of the register, one by one.
unfoldable value_of : Counters → Field → ℕ
value_of c events_in = c.events_in
value_of c events_sampled_out = c.events_sampled_out
value_of c events_exported = c.events_exported
value_of c bytes_in = c.bytes_in
value_of c dropped = c.bytes_dropped
value_of c bytes_exported = c.bytes_exported
value_of c redaction_count = c.redaction_count
value_of c failopen_count = c.failopen_count

-- A `record` with nothing in between is one step on the counters.
record_counters-perform :
    (s : Sample) (c : Counters) (f : Field)
    → let (r, out) = perform (accesses (record_call s)) (value_of c) in
      (r f ≡ value_of (record_counters s c) f) × (out ≡ [])
unfolding perform accesses record_counters value_of
record_counters-perform s c events_in = (refl, refl)
record_counters-perform s c events_sampled_out = (refl, refl)
record_counters-perform s c events_exported = (refl, refl)
record_counters-perform s c bytes_in = (refl, refl)
record_counters-perform s c dropped = (refl, refl)
record_counters-perform s c bytes_exported = (refl, refl)
record_counters-perform s c redaction_count = (refl, refl)
record_counters-perform s c failopen_count = (refl, refl)
