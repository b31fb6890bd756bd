-- ===== src/Hashpipe/ObsInfo/Sizes.antt =====
-- The sizes of a block of the hashpipe thread.
use volt_rec.Base.{
  ℕ, zero, suc, ◌+◌, ◌*◌, ◌/◌, ◌%◌, ◌^◌, ◌<◌, ◌≤◌, ◌≡◌, refl, sym, ap, ◌∙◌, some, arith, ltb,
  Bool-cases, ltb→lt, inl, inr, ◌≢◌, ==_of_ne,
}
use native.Mathlib.Nat
use mathlib.Core.Path.{subst}
use volt_rec.Hashpipe.ObsInfo.{
  ObsInfo, leading_zeros, prevpow2, bytes_per_pktidx, ata_pktidx_per_block, ata_block_size,
}

abbrev Above : ℕ → ℕ → Type 0
Above p x = (p ≤ x) × (x < 2 * p) × (k : ℕ) × (p ≡ 2 ^ k)

leading_zeros-high : (w x : ℕ) → 2 ^ w ≤ x → leading_zeros (suc w) x ≡ 0
unfolding leading_zeros
leading_zeros-high w x h = ground arith

leading_zeros-low : (w x : ℕ) → x < 2 ^ w → leading_zeros (suc w) x ≡ suc (leading_zeros w x)
unfolding leading_zeros
leading_zeros-low w x h = ground arith

half_pow : (v c : ℕ) → 2 ^ suc v / 2 ^ suc c ≡ 2 ^ v / 2 ^ c
half_pow v c =
    ap (λ a. a / 2 ^ suc c) (Nat.pow-suc 2 v ∙ Nat.mul_comm (2 ^ v) 2)
    ∙ ap (λ b. (2 * 2 ^ v) / b) (Nat.pow-suc 2 c ∙ Nat.mul_comm (2 ^ c) 2)
    ∙ Nat.mul-div-mul_left (2 ^ v) (2 ^ c) (omega arith)

leading_zeros-Above :
    (v x : ℕ) → 0 < x → x < 2 ^ suc v → Above (2 ^ v / 2 ^ leading_zeros (suc v) x) x
leading_zeros-Above zero x h l =
    subst (λ c. Above (2 ^ 0 / 2 ^ c) x) (sym (leading_zeros-high 0 x (omega arith)))
      (omega arith, omega arith, 0, refl)
leading_zeros-Above (suc v) x h l = elim (Bool-cases (ltb x (2 ^ suc v))) [
  | inl low ↦
      subst (λ c. Above (2 ^ suc v / 2 ^ c) x)
        (sym (leading_zeros-low (suc v) x (ltb→lt x (2 ^ suc v) low)))
        (subst (λ p. Above p x) (sym (half_pow v (leading_zeros (suc v) x)))
          (leading_zeros-Above v x h (ltb→lt x (2 ^ suc v) low)))
  | inr high ↦
      subst (λ c. Above (2 ^ suc v / 2 ^ c) x) (sym (leading_zeros-high (suc v) x (ground arith)))
        (subst (λ p. Above p x) (sym (Nat.div-one (2 ^ suc v)))
          (ground arith, omega (arith, Nat.pow-suc 2 (suc v)), suc v, refl))
]

-- prevpow2 of a positive 32-bit word is the greatest power of two that is not above it, and
-- prevpow2 of 0 is 0.
pub prevpow2_lem :
    (x : ℕ)
    → 0 < x
    → x < 2 ^ 32
    → (prevpow2 0 ≡ 0) × (k : ℕ) × (prevpow2 x ≡ 2 ^ k) × (2 ^ k ≤ x) × (x < 2 ^ suc k)
unfolding prevpow2
prevpow2_lem x pos h =
    let ne : x ≢ 0 = λ e. omega arith in
    let (le, lt, k, same) = leading_zeros-Above 31 x pos h in
    (
      refl,
      k,
      rw (==_of_ne x 0 ne) same,
      rw (sym same) le,
      rw (Nat.pow-suc 2 k ∙ Nat.mul_comm (2 ^ k) 2) (rw (sym same) lt),
    )

pktidx_of_row :
    (block_size : ℕ) (info : ObsInfo) {n : ℕ}
    → bytes_per_pktidx info ≢ 0
    → prevpow2 (block_size / bytes_per_pktidx info % 2 ^ 32) ≡ n
    → ata_pktidx_per_block block_size info ≡ some n
unfolding ata_pktidx_per_block
pktidx_of_row block_size info ne same = rw (==_of_ne (bytes_per_pktidx info) 0 ne) (ap some same)

size_of_pktidx :
    (block_size : ℕ) (info : ObsInfo) {n : ℕ}
    → ata_pktidx_per_block block_size info ≡ some n
    → n * bytes_per_pktidx info < 2 ^ 32
    → ata_block_size block_size info ≡ some (n * bytes_per_pktidx info)
unfolding ata_block_size
size_of_pktidx block_size info {n} pkts h =
    let whole : n * bytes_per_pktidx info % 2 ^ 32 ≡ n * bytes_per_pktidx info = omega arith in
    rw (pkts, ata_block_size) (ap some whole)

up : (k q : ℕ) → q < 2 ^ suc k → q + 1 ≤ 2 * 2 ^ k
up k q h = omega (arith, Nat.two-pow-succ k)

-- For a 32-bit packet index of at least one byte in a buffer of fewer than 2^32 bytes that holds
-- one, both sizes exist, and a block is a power of two of packet indices that fits the buffer and
-- fills more than a half of it.
pub ata_block_size_lem :
    (block_size : ℕ) (info : ObsInfo)
    → 0 < bytes_per_pktidx info
    → bytes_per_pktidx info ≤ block_size
    → block_size < 2 ^ 32
    → (k : ℕ) × (ata_pktidx_per_block block_size info ≡ some (2 ^ k))
      × (ata_block_size block_size info ≡ some (2 ^ k * bytes_per_pktidx info))
      × (2 ^ k * bytes_per_pktidx info ≤ block_size)
      × (block_size < 2 * (2 ^ k * bytes_per_pktidx info))
ata_block_size_lem block_size info pos fits h =
    let row = bytes_per_pktidx info in
    let q = block_size / row in
    let ne : row ≢ 0 = λ e. omega arith in
    let some_rows : 1 ≤ q =
      (Nat.le-div_iff_mul-le {k = row} {x = 1} {y = block_size} pos).1 (omega arith) in
    let small : q < 2 ^ 32 = omega (arith, Nat.div-le_self block_size row) in
    let whole : q % 2 ^ 32 ≡ q = omega arith in
    let (none_left, k, same, le, lt) = prevpow2_lem q some_rows small in
    let fit : 2 ^ k * row ≤ block_size =
      omega (arith, Nat.mul-le-mul_right row le, Nat.div-mul-le_self block_size row) in
    let half : block_size < 2 * (2 ^ k * row) =
      grind (
        arith,
        Nat.lt-mul-div-succ block_size {b = row} pos,
        Nat.mul-le-mul_left row (up k q lt),
      ) in
    let pkts = pktidx_of_row block_size info ne (ap prevpow2 whole ∙ same) in
    (k, pkts, size_of_pktidx block_size info pkts (omega arith), fit, half)
