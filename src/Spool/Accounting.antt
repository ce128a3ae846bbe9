-- ===== src/Spool/Accounting.antt =====
-- The byte cap and the order of src/spool.rs, one step at a time.
use archiv_agent.Base.{
  ℕ, ◌+◌, ◌-◌, ◌^◌, ◌<◌, ◌≤◌, ◌≡◌, refl, arith, [], ◌∷◌, ◌++◌, All, some, ==_self,
}
use archiv_agent.Spool.{
  Pending, State, insert, contains, remove, Reserved, refused, granted, full, reserve, publish,
  release, oldest, delivered,
}

-- What a reservation gives: a refusal only where the bytes do not fit, and otherwise the bytes under
-- the cap and a number of its own.
pub IsReserved : ℕ → ℕ → State → Reserved → Type 0
IsReserved max_bytes len s (refused e) =
    (max_bytes < s.total_bytes + len) × (e ≡ full s.total_bytes max_bytes)
IsReserved max_bytes len s (granted seq s') =
    (s'.total_bytes ≤ max_bytes)
    × (s'.total_bytes ≡ s.total_bytes + len)
    × (seq ≡ s.next_seq)
    × ((release len s').total_bytes ≡ s.total_bytes)
    × ((release len s').pending ≡ s.pending)

-- A push is refused exactly where its bytes would exceed the cap; a granted one stays under the cap,
-- and releasing it, when its file could not be written, gives back its bytes and leaves what is
-- spooled alone. The sum of the spooled and the new bytes fits in 64 bits.
pub reserve-IsReserved :
    (max_bytes len : ℕ) (s : State)
    → s.total_bytes + len < 2 ^ 64
    → IsReserved max_bytes len s (reserve max_bytes len s)
unfolding reserve release IsReserved
reserve-IsReserved max_bytes len s h = ground arith

-- The number is larger than that of everything in the map.
abbrev pub IsAbove : ℕ → Pending → Type 0
IsAbove seq = All (λ x. x.0 < seq)

-- A payload published under a number above all others waits behind them.
pub insert-above :
    (seq len : ℕ) (pending : Pending)
    → IsAbove seq pending
    → insert seq len pending ≡ pending ++ (seq, len) ∷ []
unfolding insert
insert-above seq len [] h = refl
insert-above seq len ((s, l) ∷ pending) h = ground (arith, insert-above seq len pending)

-- First in, first out: where the payloads are numbered upwards, a new one is published behind all
-- others, so the oldest stays the oldest, and a delivery takes off just the oldest and its bytes.
pub delivered-publish :
    (seq len old size : ℕ) (rest : Pending) (s : State)
    → s.pending ≡ (old, size) ∷ rest
    → IsAbove seq s.pending
    → (oldest (publish seq len s) ≡ some (old, size))
      × ((delivered old size (publish seq len s)).pending ≡ rest ++ (seq, len) ∷ [])
      × ((delivered old size (publish seq len s)).total_bytes ≡ s.total_bytes - size)
unfolding oldest publish delivered contains remove
delivered-publish seq len old size rest s e h =
    rw (insert-above seq len s.pending h, e, ==_self old) (refl, refl, refl)
