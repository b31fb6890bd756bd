-- ===== src/Hashpipe/ObsInfo/Index.antt =====
-- The index that get_ata_ant_index finds.
use volt_rec.Base.{
  ℕ, zero, suc, ◌+◌, ◌<◌, ◌≤◌, ◌≡◌, refl, ap, ◌∙◌, ◌≢◌, ◌⊎◌, inl, inr, none, some, List, [], ◌∷◌,
  arith, length, get_elem?, leb, leb→le, ==→eq, ◌==◌, Bool-cases, some_inj,
}
use volt_rec.Antennas.{ant_index_from}
use volt_rec.Hashpipe.ObsInfo.{ObsInfo, max_ants, get_ata_ant_index}

abbrev Found : List ℕ → ℕ → ℕ → ℕ → Type 0
Found ants curr left k =
    ((ant_index_from ants curr left k ≡ none) × ((i : ℕ) → i < left → get_elem? ants i ≢ some curr))
    ⊎ ((i : ℕ) × (ant_index_from ants curr left k ≡ some (k + i))
        × (i < left)
        × (get_elem? ants i ≡ some curr)
        × ((j : ℕ) → j < i → get_elem? ants j ≢ some curr))

not_before :
    (a : ℕ) (ants : List ℕ) (curr left : ℕ)
    → a ≢ curr
    → ((i : ℕ) → i < left → get_elem? ants i ≢ some curr)
    → (i : ℕ) → i < suc left
    → get_elem? (a ∷ ants) i ≢ some curr
not_before a ants curr left ne absent zero lt = λ q. ne (some_inj q)
not_before a ants curr left ne absent (suc j) lt = absent j (omega arith)

ant_index_from-Found :
    (ants : List ℕ) (curr left k : ℕ) → left ≤ length ants → Found ants curr left k
unfolding ant_index_from
ant_index_from-Found ants curr zero k h = inl (refl, λ i lt. absurd (omega arith))
ant_index_from-Found [] curr (suc left) k h = absurd (omega arith)
ant_index_from-Found (a ∷ ants) curr (suc left) k h = elim (Bool-cases (a == curr)) [
  | inl here ↦
      let same : k ≡ k + 0 = omega arith in
      inr (
        0,
        rw here (ap some same),
        omega arith,
        ap some (==→eq a curr here),
        λ j lt. absurd (omega arith),
      )
  | inr away ↦
      let ne : a ≢ curr = λ e. ground (arith, away) in
      elim (ant_index_from-Found ants curr left (k + 1) (omega arith)) [
        | inl (e, absent) ↦ inl (rw away e, not_before a ants curr left ne absent)
        | inr (i, e, lt, at_i, first) ↦
            let same : k + 1 + i ≡ k + suc i = omega arith in
            inr (
              suc i,
              rw away (e ∙ ap some same),
              omega arith,
              at_i,
              not_before a ants curr i ne first,
            )
      ]
]

-- For the four antenna numbers of an observation: with four antennas or more no index is found;
-- with fewer, the index that get_ata_ant_index returns is that of the first of them that has the
-- number, and when none is returned none of them has it.
pub get_ata_ant_index_lem :
    (info : ObsInfo) (antid : ℕ)
    → length info.antids ≡ max_ants
    → ((max_ants ≤ info.nants) × (get_ata_ant_index info antid ≡ none))
      ⊎ ((info.nants < max_ants)
          × (get_ata_ant_index info antid ≡ none)
          × ((i : ℕ) → i < info.nants → get_elem? info.antids i ≢ some antid))
      ⊎ ((i : ℕ) × (get_ata_ant_index info antid ≡ some i)
          × (i < info.nants)
          × (get_elem? info.antids i ≡ some antid)
          × ((j : ℕ) → j < i → get_elem? info.antids j ≢ some antid))
unfolding get_ata_ant_index
get_ata_ant_index_lem info antid h = elim (Bool-cases (leb max_ants info.nants)) [
  | inl many ↦ inl (leb→le max_ants info.nants many, rw many refl)
  | inr few ↦
      let lt : info.nants < max_ants = ground (arith, few) in
      elim (ant_index_from-Found info.antids antid info.nants 0 (omega (arith, h))) [
        | inl (e, absent) ↦ inr (inl (lt, rw few e, absent))
        | inr (i, e, lt', at_i, first) ↦
            let same : 0 + i ≡ i = omega arith in
            inr (inr (i, rw few (e ∙ ap some same), lt', at_i, first))
      ]
]
