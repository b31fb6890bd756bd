-- ===== src/Guppi/Parkes/TwoPols.antt =====
-- The order of the values of two polarizations.
use volt_rec.Base.{
  ℕ, zero, suc, ◌+◌, ◌*◌, ◌/◌, ◌%◌, ◌<◌, ◌≤◌, ◌≡◌, refl, ap, ◌∙◌, inl, inr, Memory, arith, copy,
  copy_inside, copy_outside,
}
use volt_rec.Guppi.Parkes.{two_pols}

-- One round of the two polarizations.
abbrev two_values : Memory → ℕ → ℕ → Memory → ℕ → Memory
two_values tmp n i payload from =
    copy (copy tmp (2 * i) payload from 2) (n + 2 * i) payload (from + 2) 2

two_values-same :
    (tmp : Memory) (n i : ℕ) (payload : Memory) (from p j : ℕ)
    → 2 * i + 2 ≤ n
    → p < 2
    → j < 2
    → two_values tmp n i payload from (p * n + (2 * i + j)) ≡ payload (from + 2 * p + j)
two_values-same tmp n i payload from zero j room h l =
    let first = copy tmp (2 * i) payload from 2 in
    let here : 0 * n + (2 * i + j) ≡ 2 * i + j = omega arith in
    ap (two_values tmp n i payload from) here
    ∙ copy_outside first (n + 2 * i) payload (from + 2) 2 (2 * i + j) (inl (omega arith))
    ∙ copy_inside tmp (2 * i) payload from 2 j l
    ∙ ap payload (omega arith)
two_values-same tmp n i payload from (suc zero) j room h l =
    let first = copy tmp (2 * i) payload from 2 in
    let here : 1 * n + (2 * i + j) ≡ n + 2 * i + j = omega arith in
    ap (two_values tmp n i payload from) here
    ∙ copy_inside first (n + 2 * i) payload (from + 2) 2 j l
two_values-same tmp n i payload from (suc (suc p)) j room h l = absurd (omega arith)

-- A round keeps the values before it.
two_values-before :
    (tmp : Memory) (n i : ℕ) (payload : Memory) (from p u : ℕ)
    → 2 * i + 2 ≤ n
    → p < 2
    → u < 2 * i
    → two_values tmp n i payload from (p * n + u) ≡ tmp (p * n + u)
two_values-before tmp n i payload from zero u room h l =
    let first = copy tmp (2 * i) payload from 2 in
    copy_outside first (n + 2 * i) payload (from + 2) 2 (0 * n + u) (inl (omega arith))
    ∙ copy_outside tmp (2 * i) payload from 2 (0 * n + u) (inl (omega arith))
two_values-before tmp n i payload from (suc zero) u room h l =
    let first = copy tmp (2 * i) payload from 2 in
    copy_outside first (n + 2 * i) payload (from + 2) 2 (1 * n + u) (inl (omega arith))
    ∙ copy_outside tmp (2 * i) payload from 2 (1 * n + u) (inr (omega arith))
two_values-before tmp n i payload from (suc (suc p)) u room h l = absurd (omega arith)

next_pairs :
    (left : ℕ) (tmp : Memory) (n i : ℕ) (payload : Memory) (from x : ℕ)
    → two_pols left tmp (2 * i + 2) (n + 2 * i + 2) payload from x
      ≡ two_pols left tmp (2 * (i + 1)) (n + 2 * (i + 1)) payload from x
next_pairs left tmp n i payload from x =
    let first : 2 * i + 2 ≡ 2 * (i + 1) = omega arith in
    let second : n + 2 * i + 2 ≡ n + 2 * (i + 1) = omega arith in rw second (rw first)

two_pols-before :
    (left : ℕ) (tmp : Memory) (n i : ℕ) (payload : Memory) (from p u : ℕ)
    → 2 * (i + left) ≤ n
    → p < 2
    → u < 2 * i
    → two_pols left tmp (2 * i) (n + 2 * i) payload from (p * n + u) ≡ tmp (p * n + u)
unfolding two_pols
two_pols-before zero tmp n i payload from p u room h l = refl
two_pols-before (suc left) tmp n i payload from p u room h l =
    let after = two_values tmp n i payload from in
    next_pairs left after n i payload (from + 4) (p * n + u)
    ∙ two_pols-before left after n (i + 1) payload (from + 4) p u (omega arith) h (omega arith)
    ∙ two_values-before tmp n i payload from p u (omega arith) h l

two_pols-in :
    (left : ℕ) (tmp : Memory) (n i : ℕ) (payload : Memory) (from p s j : ℕ)
    → 2 * (i + left) ≤ n
    → s < left
    → p < 2
    → j < 2
    → two_pols left tmp (2 * i) (n + 2 * i) payload from (p * n + (2 * (i + s) + j))
      ≡ payload (from + 4 * s + 2 * p + j)
unfolding two_pols
two_pols-in zero tmp n i payload from p s j room h l m = absurd (omega arith)
two_pols-in (suc left) tmp n i payload from p zero j room h l m =
    let after = two_values tmp n i payload from in
    let here : p * n + (2 * (i + 0) + j) ≡ p * n + (2 * i + j) = omega arith in
    next_pairs left after n i payload (from + 4) (p * n + (2 * (i + 0) + j))
    ∙ ap (two_pols left after (2 * (i + 1)) (n + 2 * (i + 1)) payload (from + 4)) here
    ∙ two_pols-before left after n (i + 1) payload (from + 4) p (2 * i + j) (omega arith) l
        (omega arith)
    ∙ two_values-same tmp n i payload from p j (omega arith) l m
    ∙ ap payload (omega arith)
two_pols-in (suc left) tmp n i payload from p (suc s) j room h l m =
    let after = two_values tmp n i payload from in
    let here : p * n + (2 * (i + suc s) + j) ≡ p * n + (2 * (i + 1 + s) + j) = omega arith in
    next_pairs left after n i payload (from + 4) (p * n + (2 * (i + suc s) + j))
    ∙ ap (two_pols left after (2 * (i + 1)) (n + 2 * (i + 1)) payload (from + 4)) here
    ∙ two_pols-in left after n (i + 1) payload (from + 4) p s j (omega arith) (omega arith) l m
    ∙ ap payload (omega arith)

-- All of the values of an even number of channels.
pub two_pols-all :
    (tmp : Memory) (n : ℕ) (payload : Memory) (from p s : ℕ)
    → n % 2 ≡ 0
    → s < n
    → p < 2
    → two_pols (n / 2) tmp 0 n payload from (p * n + s)
      ≡ payload (from + (4 * (s / 2) + 2 * p + s % 2))
two_pols-all tmp n payload from p s even h l =
    let start : n ≡ n + 2 * 0 = omega arith in
    let value : s ≡ 2 * (0 + s / 2) + s % 2 = omega arith in
    ap (λ x. two_pols (n / 2) tmp 0 x payload from (p * n + s)) start
    ∙ ap (λ x. two_pols (n / 2) tmp (2 * 0) (n + 2 * 0) payload from (p * n + x)) value
    ∙ two_pols-in (n / 2) tmp n 0 payload from p (s / 2) (s % 2) (omega arith) (omega arith) l
        (omega arith)
    ∙ ap payload (omega arith)
