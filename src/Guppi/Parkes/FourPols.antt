-- ===== src/Guppi/Parkes/FourPols.antt =====
-- The order of the values of four polarizations.
use volt_rec.Base.{
  ℕ, zero, suc, ◌+◌, ◌-◌, ◌*◌, ◌<◌, ◌≤◌, ◌≡◌, refl, ap, ◌∙◌, ◌⊎◌, inl, inr, Memory, arith, copy,
  ◌≢◌, copy_outside, below_or,
}
use volt_rec.Guppi.Parkes.{four_pols}

copy_one :
    (dst : Memory) (to : ℕ) (src : Memory) (from i : ℕ)
    → i ≡ to
    → copy dst to src from 1 i ≡ src from
copy_one dst to src from i h =
    let start : src (from + (i - to)) ≡ src from = ap src (omega arith) in ground arith

-- One round puts the value `i` of each polarization.
abbrev four_values : Memory → ℕ → ℕ → Memory → ℕ → Memory
four_values tmp n i payload from =
    let first = copy tmp i payload from 1 in
    let second = copy first (n + i) payload (from + 1) 1 in
    let third = copy second (2 * n + i) payload (from + 2) 1 in
    copy third (3 * n + i) payload (from + 3) 1

four_values-same :
    (tmp : Memory) (n i : ℕ) (payload : Memory) (from p : ℕ)
    → i < n
    → p < 4
    → four_values tmp n i payload from (p * n + i) ≡ payload (from + p)
four_values-same tmp n i payload from zero h l =
    let first = copy tmp i payload from 1 in
    let second = copy first (n + i) payload (from + 1) 1 in
    let third = copy second (2 * n + i) payload (from + 2) 1 in
    copy_outside third (3 * n + i) payload (from + 3) 1 (0 * n + i) (inl (omega arith))
    ∙ copy_outside second (2 * n + i) payload (from + 2) 1 (0 * n + i) (inl (omega arith))
    ∙ copy_outside first (n + i) payload (from + 1) 1 (0 * n + i) (inl (omega arith))
    ∙ copy_one tmp i payload from (0 * n + i) (omega arith)
    ∙ ap payload (omega arith)
four_values-same tmp n i payload from (suc zero) h l =
    let first = copy tmp i payload from 1 in
    let second = copy first (n + i) payload (from + 1) 1 in
    let third = copy second (2 * n + i) payload (from + 2) 1 in
    copy_outside third (3 * n + i) payload (from + 3) 1 (1 * n + i) (inl (omega arith))
    ∙ copy_outside second (2 * n + i) payload (from + 2) 1 (1 * n + i) (inl (omega arith))
    ∙ copy_one first (n + i) payload (from + 1) (1 * n + i) (omega arith)
four_values-same tmp n i payload from (suc (suc zero)) h l =
    let first = copy tmp i payload from 1 in
    let second = copy first (n + i) payload (from + 1) 1 in
    let third = copy second (2 * n + i) payload (from + 2) 1 in
    copy_outside third (3 * n + i) payload (from + 3) 1 (2 * n + i) (inl (omega arith))
    ∙ copy_one second (2 * n + i) payload (from + 2) (2 * n + i) (omega arith)
four_values-same tmp n i payload from (suc (suc (suc zero))) h l =
    let first = copy tmp i payload from 1 in
    let second = copy first (n + i) payload (from + 1) 1 in
    let third = copy second (2 * n + i) payload (from + 2) 1 in
    copy_one third (3 * n + i) payload (from + 3) (3 * n + i) (omega arith)
four_values-same tmp n i payload from (suc (suc (suc (suc p)))) h l = absurd (omega arith)

value_apart : (x s i : ℕ) → s ≢ i → (x + s < x + i) ⊎ (x + i + 1 ≤ x + s)
value_apart x s i ne = elim (below_or i s) [
  | inl less ↦ inl (omega arith)
  | inr more ↦ inr (omega arith)
]

values_apart :
    (n p m s i : ℕ) → s < n → i < n → s ≢ i → (p * n + s < m * n + i) ⊎ (m * n + i + 1 ≤ p * n + s)
values_apart n zero zero s i h l ne = value_apart (0 * n) s i ne
values_apart n zero (suc m) s i h l ne = inl (grind arith)
values_apart n (suc p) zero s i h l ne = inr (grind arith)
values_apart n (suc p) (suc m) s i h l ne = elim (values_apart n p m s i h l ne) [
  | inl less ↦ inl (grind arith)
  | inr more ↦ inr (grind arith)
]

-- The place of the value `i` of the polarization `m` is not one of the values `s`.
place_apart :
    (n p m s i to : ℕ)
    → s < n
    → i < n
    → s ≢ i
    → to ≡ m * n + i
    → (p * n + s < to) ⊎ (to + 1 ≤ p * n + s)
place_apart n p m s i to h l ne e = elim (values_apart n p m s i h l ne) [
  | inl less ↦ inl (omega arith)
  | inr more ↦ inr (omega arith)
]

four_values-other :
    (tmp : Memory) (n i : ℕ) (payload : Memory) (from p s : ℕ)
    → i < n
    → s < n
    → s ≢ i
    → p < 4
    → four_values tmp n i payload from (p * n + s) ≡ tmp (p * n + s)
four_values-other tmp n i payload from p s h k ne l =
    let first = copy tmp i payload from 1 in
    let second = copy first (n + i) payload (from + 1) 1 in
    let third = copy second (2 * n + i) payload (from + 2) 1 in
    let away = λ (m to : ℕ) (e : to ≡ m * n + i). place_apart n p m s i to k h ne e in
    copy_outside third (3 * n + i) payload (from + 3) 1 (p * n + s) (away 3 (3 * n + i) refl)
    ∙ copy_outside second (2 * n + i) payload (from + 2) 1 (p * n + s) (away 2 (2 * n + i) refl)
    ∙ copy_outside first (n + i) payload (from + 1) 1 (p * n + s) (away 1 (n + i) (omega arith))
    ∙ copy_outside tmp i payload from 1 (p * n + s) (away 0 i (omega arith))

-- The pointers move on together.
next_values :
    (left : ℕ) (tmp : Memory) (n i : ℕ) (payload : Memory) (from x : ℕ)
    → four_pols left tmp (i + 1) (n + i + 1) (2 * n + i + 1) (3 * n + i + 1) payload from x
      ≡ four_pols left tmp (i + 1) (n + (i + 1)) (2 * n + (i + 1)) (3 * n + (i + 1)) payload from x
next_values left tmp n i payload from x =
    let one : n + i + 1 ≡ n + (i + 1) = omega arith in
    let two : 2 * n + i + 1 ≡ 2 * n + (i + 1) = omega arith in
    let three : 3 * n + i + 1 ≡ 3 * n + (i + 1) = omega arith in rw one (rw two (rw three))

four_pols-before :
    (left : ℕ) (tmp : Memory) (n i : ℕ) (payload : Memory) (from p s : ℕ)
    → i + left ≤ n
    → s < i
    → p < 4
    → four_pols left tmp i (n + i) (2 * n + i) (3 * n + i) payload from (p * n + s)
      ≡ tmp (p * n + s)
unfolding four_pols
four_pols-before zero tmp n i payload from p s room h l = refl
four_pols-before (suc left) tmp n i payload from p s room h l =
    let after = four_values tmp n i payload from in
    next_values left after n i payload (from + 4) (p * n + s)
    ∙ four_pols-before left after n (i + 1) payload (from + 4) p s (omega arith) (omega arith) l
    ∙ four_values-other tmp n i payload from p s (omega arith) (omega arith) (λ e. omega arith) l

four_pols-in :
    (left : ℕ) (tmp : Memory) (n i : ℕ) (payload : Memory) (from p s : ℕ)
    → i + left ≤ n
    → s < left
    → p < 4
    → four_pols left tmp i (n + i) (2 * n + i) (3 * n + i) payload from (p * n + (i + s))
      ≡ payload (from + 4 * s + p)
unfolding four_pols
four_pols-in zero tmp n i payload from p s room h l = absurd (omega arith)
four_pols-in (suc left) tmp n i payload from p zero room h l =
    let after = four_values tmp n i payload from in
    let here : p * n + (i + 0) ≡ p * n + i = omega arith in
    next_values left after n i payload (from + 4) (p * n + (i + 0))
    ∙ ap
        (four_pols left after (i + 1) (n + (i + 1)) (2 * n + (i + 1)) (3 * n + (i + 1)) payload
          (from + 4))
        here
    ∙ four_pols-before left after n (i + 1) payload (from + 4) p i (omega arith) (omega arith) l
    ∙ four_values-same tmp n i payload from p (omega arith) l
    ∙ ap payload (omega arith)
four_pols-in (suc left) tmp n i payload from p (suc s) room h l =
    let after = four_values tmp n i payload from in
    let here : p * n + (i + suc s) ≡ p * n + (i + 1 + s) = omega arith in
    next_values left after n i payload (from + 4) (p * n + (i + suc s))
    ∙ ap
        (four_pols left after (i + 1) (n + (i + 1)) (2 * n + (i + 1)) (3 * n + (i + 1)) payload
          (from + 4))
        here
    ∙ four_pols-in left after n (i + 1) payload (from + 4) p s (omega arith) (omega arith) l
    ∙ ap payload (omega arith)

-- All of the values.
pub four_pols-all :
    (tmp : Memory) (n : ℕ) (payload : Memory) (from p s : ℕ)
    → s < n
    → p < 4
    → four_pols n tmp 0 n (2 * n) (3 * n) payload from (p * n + s) ≡ payload (from + (4 * s + p))
four_pols-all tmp n payload from p s h l =
    let place = p * n + s in
    let one : n ≡ n + 0 = omega arith in
    let two : 2 * n ≡ 2 * n + 0 = omega arith in
    let three : 3 * n ≡ 3 * n + 0 = omega arith in
    let value : s ≡ 0 + s = omega arith in
    ap (λ x. four_pols n tmp 0 x (2 * n) (3 * n) payload from place) one
    ∙ ap (λ x. four_pols n tmp 0 (n + 0) x (3 * n) payload from place) two
    ∙ ap (λ x. four_pols n tmp 0 (n + 0) (2 * n + 0) x payload from place) three
    ∙ ap (λ x. four_pols n tmp 0 (n + 0) (2 * n + 0) (3 * n + 0) payload from (p * n + x)) value
    ∙ four_pols-in n tmp n 0 payload from p s (omega arith) h l
    ∙ ap payload (omega arith)
