-- ===== src/Antennas.antt =====
-- full_custom/common.c, updateAntenna and getAntIndex: the table of the antenna numbers seen so
-- far. An entry is a uint32_t; the entry -1 is free.
pub mod Laws
use volt_rec.Base.{
  ℕ, zero, suc, ◌+◌, ◌-◌, ◌^◌, Option, none, some, List, [], ◌∷◌, ◌==◌, if◌then◌else◌,
}
use volt_rec.Base.Int.{ℤ, pos, negsuc}

-- (uint32_t) -1
abbrev pub free : ℕ
free = 2 ^ 32 - 1

-- The loop over the first `max_ants` entries: its result, and the table after it. The array is at
-- least that long; the clause for a shorter list is not reached.
unfoldable pub update_antenna : List ℕ → ℕ → ℕ → ℤ × List ℕ
update_antenna ants curr zero = (negsuc 0, ants)
update_antenna [] curr (suc left) = (negsuc 0, [])
update_antenna (a ∷ ants) curr (suc left) =
    let (result, rest) = update_antenna ants curr left in
    if a == curr
    then (pos 0, a ∷ ants)
    else if a == free
    then (pos 1, curr ∷ ants)
    else (result, a ∷ rest)

-- The loop from index `k` on, with `left` entries to go; `none` is the return value -1.
unfoldable pub ant_index_from : List ℕ → ℕ → ℕ → ℕ → Option ℕ
ant_index_from ants curr zero k = none
ant_index_from [] curr (suc left) k = none
ant_index_from (a ∷ ants) curr (suc left) k =
    let rest = ant_index_from ants curr left (k + 1) in if a == curr then some k else rest

unfoldable pub get_ant_index : List ℕ → ℕ → ℕ → Option ℕ
unfolding ant_index_from
get_ant_index ants curr max_ants = ant_index_from ants curr max_ants 0
