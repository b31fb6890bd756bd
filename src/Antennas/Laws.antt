-- ===== src/Antennas/Laws.antt =====
-- The table after updateAntenna: what its three results mean, and what stays.
use volt_rec.Base.{ℕ, zero, suc, ◌+◌, ◌≡◌, ◌≢◌, ◌⊎◌, none, some, List, [], ◌∷◌, arith, ◌<◌, set}
use volt_rec.Base.Int.{pos, negsuc}
use volt_rec.Antennas.{free, update_antenna, ant_index_from, get_ant_index}

-- What updateAntenna has done, seen through the search from index `k`.
abbrev Updated : List ℕ → ℕ → ℕ → ℕ → Type 0
Updated ants curr left k =
    ((update_antenna ants curr left ≡ (negsuc 0, ants))
      × (ant_index_from ants curr left k ≡ none)
      × (ant_index_from ants free left k ≡ none))
    ⊎ ((update_antenna ants curr left ≡ (pos 0, ants)) × (ant_index_from ants curr left k ≢ none))
    ⊎ ((i : ℕ) × (ant_index_from ants free left k ≡ some (k + i))
        × (update_antenna ants curr left ≡ (pos 1, set ants i curr))
        × (ant_index_from (set ants i curr) curr left k ≢ none))

ant_index_from-lt :
    (ants : List ℕ) (curr left k : ℕ) {i : ℕ}
    → ant_index_from ants curr left k ≡ some i
    → i < k + left
unfolding ant_index_from
ant_index_from-lt ants curr zero k h = absurd (ground arith)
ant_index_from-lt [] curr (suc left) k h = absurd (ground arith)
ant_index_from-lt (a ∷ ants) curr (suc left) k {i} h =
    ground (arith, ant_index_from-lt ants curr left (k + 1) {i = i})

-- The index of an antenna is below the number of antennas.
pub get_ant_index-lt :
    (ants : List ℕ) (curr max_ants : ℕ) {i : ℕ}
    → get_ant_index ants curr max_ants ≡ some i
    → i < max_ants
unfolding get_ant_index
get_ant_index-lt ants curr max_ants h = omega (arith, ant_index_from-lt ants curr max_ants 0 h)
