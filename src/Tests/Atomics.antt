-- ===== src/Tests/Atomics.antt =====
-- A request whose adds have a whole flush in between.
use archiv_agent.Base.{ℕ, ◌+◌, ◌%◌, ◌^◌, ◌≡◌, [], ◌∷◌, List, false, map, ◌++◌, drop}
use archiv_agent.Metrics.{Sample}
use archiv_agent.Metrics.Atomics.{
  Field, events_in, Access, add, Call, record_call, drain_call, accesses, perform, Shuffle,
  both_done, first, second, Interleaved, idle, beside, taken, amounts, perform-conserves,
}

abbrev late_request : Sample
late_request = record {
  events_in = 3;
  events_sampled_out = 1;
  events_exported = 2;
  bytes_in = 90;
  bytes_exported = 60;
  redaction_count = 4;
  failed_open = false;
}

abbrev calls : List Call
calls = record_call late_request ∷ drain_call ∷ []

alone : (xs : List Access) → Shuffle xs [] xs
alone [] = both_done
alone (a ∷ xs) = first (alone xs)

behind : (xs ys zs : List Access) → Shuffle xs [] zs → Shuffle xs ys (ys ++ zs)
behind xs [] zs s = s
behind xs (a ∷ ys) zs s = second (behind xs ys zs s)

-- The flush is behind the first add.
abbrev order : List Access
order = add events_in 3 ∷ accesses drain_call ++ drop 1 (accesses (record_call late_request))

order-Interleaved : Interleaved (map accesses calls) order
unfolding accesses
order-Interleaved =
    beside
      (first
        (behind _ (accesses drain_call) _ (alone (drop 1 (accesses (record_call late_request))))))
      (beside (alone (accesses drain_call)) idle)

abbrev before_request : Field → ℕ
before_request f = 5

perform-conserves_example :
    let (r, out) = perform order before_request in
    (r events_in + taken events_in out) % 2 ^ 64 ≡ (5 + amounts events_in calls) % 2 ^ 64
perform-conserves_example = perform-conserves events_in calls order before_request order-Interleaved
