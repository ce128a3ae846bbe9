-- ===== src/Tests/Spools.antt =====
-- The spool with two payloads in it.
use archiv_agent.Base.{◌-◌, ◌≡◌, refl, arith, [], ◌∷◌, ◌++◌, some}
use archiv_agent.Spool.{
  State, parse_seq, otlp_name, reserve, publish, oldest, delivered, push, drain_once, empty,
  durable, accepted,
}
use archiv_agent.Spool.Reachable.{IsAccounted, start, pushed, drained, Reach-IsAccounted}
use archiv_agent.Spool.Names.{parse_seq-otlp_name}
use archiv_agent.Spool.Accounting.{IsReserved, reserve-IsReserved, delivered-publish}

abbrev two_payloads : State
two_payloads = record { next_seq = 9; total_bytes = 70; pending = (7, 40) ∷ (8, 30) ∷ [] }

reserve-IsReserved_example : IsReserved 100 25 two_payloads (reserve 100 25 two_payloads)
reserve-IsReserved_example = reserve-IsReserved 100 25 two_payloads (omega arith)

delivered-publish_example :
    (oldest (publish 9 25 two_payloads) ≡ some (7, 40))
    × ((delivered 7 40 (publish 9 25 two_payloads)).pending ≡ ((8, 30) ∷ []) ++ (9, 25) ∷ [])
    × ((delivered 7 40 (publish 9 25 two_payloads)).total_bytes ≡ 70 - 40)
delivered-publish_example =
    delivered-publish 9 25 7 40 ((8, 30) ∷ []) two_payloads refl (omega arith, (omega arith, tt))

parse_seq-otlp_name_example : parse_seq (otlp_name 42) ≡ some 42
parse_seq-otlp_name_example = parse_seq-otlp_name 42 (omega arith)

Reach-IsAccounted_example : IsAccounted 100 (drain_once accepted (push 100 40 durable empty).1).1
unfolding empty
Reach-IsAccounted_example =
    Reach-IsAccounted 100 (drained accepted (pushed 40 durable (omega arith) (omega arith) start))
