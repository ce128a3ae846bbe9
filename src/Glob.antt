-- ===== src/Glob.antt =====
-- The `*`-wildcard matcher of crates/archiv-redact/src/glob.rs. The same text stands once more as
-- `glob_matches` in crates/archiv-sampling/src/policy.rs.
pub mod Language
pub mod Scan
pub mod Correct
use archiv_agent.Base.{ℕ, zero, suc, ◌+◌, ◌*◌, Bool, true, false, ltb, ◌==◌, if◌then◌else◌}
use archiv_agent.Base.{Option, none, some, List, length, get_elem?}
use archiv_agent.Wire.{Bytes}

-- `p < pattern.len() && pattern[p] == key[k]`, for a `k` below `key.len()`
abbrev pub is_literal : Option ℕ → Option ℕ → Bool
is_literal (some x) (some c) = x == c
is_literal _ _ = false

-- `p < pattern.len() && pattern[p] == b'*'`
abbrev pub is_star : Option ℕ → Bool
is_star (some x) = x == b'*'
is_star none = false

-- The second loop and the final test; `rounds` bounds what is left of the pattern.
unfoldable pub rest_is_stars : ℕ → Bytes → ℕ → Bool
rest_is_stars zero pattern p = p == length pattern
rest_is_stars (suc rounds) pattern p =
    let more = rest_is_stars rounds pattern (p + 1) in
    if is_star (get_elem? pattern p) then more else p == length pattern

abbrev pub Star : Type 0
Star = Option (ℕ × ℕ)

-- The last two branches: back to the last star, or fail.
abbrev pub backtrack : Star → (ℕ → ℕ → Star → Option Bool) → Option Bool
backtrack none next = some false
backtrack (some (sp, sk)) next = next sp (sk + 1) (some (sp, sk + 1))

-- The main loop; `none` means that the fuel ran out.
unfoldable pub match_loop : ℕ → Bytes → Bytes → ℕ → ℕ → Star → Option Bool
match_loop zero pattern key p k star = none
match_loop (suc fuel) pattern key p k star =
    let literal = match_loop fuel pattern key (p + 1) (k + 1) star in
    let at_star = match_loop fuel pattern key (p + 1) k (some (p + 1, k)) in
    let again = backtrack star (match_loop fuel pattern key) in
    if ltb k (length key)
    then (if is_literal (get_elem? pattern p) (get_elem? key k)
        then literal
        else if is_star (get_elem? pattern p)
        then at_star
        else again)
    else some (rest_is_stars (length pattern) pattern p)

abbrev pub answer : Option Bool → Bool
answer none = false
answer (some b) = b

-- Every round takes a byte of the pattern, or lowers what the last star can still absorb.
unfoldable pub matches : Bytes → Bytes → Bool
unfolding match_loop rest_is_stars
matches pattern key =
    answer (match_loop ((length key + 1) * (length pattern + 1)) pattern key 0 0 none)
