-- ===== src/Guppi/Parkes/Conversion.antt =====
-- The index and the values of a packet that is changed from the Parkes format.
use volt_rec.Base.{
  ℕ, zero, suc, ◌+◌, ◌-◌, ◌*◌, ◌/◌, ◌%◌, ◌^◌, ◌<◌, ◌≤◌, ◌≡◌, refl, ap, ◌∙◌, ◌⊎◌, inl, inr, Memory,
  arith, store, load, byte_of, copy, ltb, ◌==◌, ==_of_ne, false, if◌then◌else◌, some, big_endian,
  copy_inside, copy_outside, store_inside, store_outside,
}
use native.Mathlib.Omega.{div_any}
use volt_rec.Guppi.Packets.{change_endian64}
use volt_rec.Guppi.Packets.Parts.{IsBytes, change_endian64-load, byte_of-load}
use volt_rec.Guppi.Parkes.{
  counts_per_packet, divide_index, reorder_pols, parkes_to_guppi, max_packet_size,
}
use volt_rec.Guppi.Parkes.TwoPols.{two_pols-all}
use volt_rec.Guppi.Parkes.FourPols.{four_pols-all}
use volt_rec.Guppi.Packets.Parts.{digits, change_endian64-digits, big_endian-digits, byte_of-lt}

big_endian-same :
    (m m' : Memory) (from n acc : ℕ)
    → ((k : ℕ) → k < n → m (from + k) ≡ m' (from + k))
    → big_endian m from n acc ≡ big_endian m' from n acc
big_endian-same m m' from zero acc same = refl
big_endian-same m m' from (suc n) acc same =
    let first : m from ≡ m' from =
      ap m (omega arith) ∙ same 0 (omega arith) ∙ ap m' (omega arith) in
    let step = λ (k : ℕ) (h : k < n).
      ap m (omega arith) ∙ same (suc k) (omega arith) ∙ ap m' (omega arith) in
    ap (λ v. big_endian m (from + 1) n (acc * 256 + v)) first
    ∙ big_endian-same m m' (from + 1) n (acc * 256 + m' from) step

-- The bytes of change_endian64 are those of the number, the highest first.
change_endian64-stored :
    (m : Memory) (v : ℕ) → v < 2 ^ 64 → big_endian (store m 0 8 (change_endian64 v)) 0 8 0 ≡ v
change_endian64-stored m v h =
    big_endian-same (store m 0 8 (change_endian64 v)) (digits v) 0 8 0 (λ k l.
      store_inside m 0 8 (change_endian64 v) k l
      ∙ ap (λ w. byte_of w k) (change_endian64-digits v)
      ∙ byte_of-load (digits v) 0 8 k (λ i. byte_of-lt v (7 - i)) l)
    ∙ big_endian-digits v h

big_endian-lt : (m : Memory) → IsBytes m → big_endian m 0 8 0 < 2 ^ 64
big_endian-lt m b = omega (arith, b 0, b 1, b 2, b 3, b 4, b 5, b 6, b 7)

quotient_small : (v c n : ℕ) → 0 < c → v < n → v / c < n
quotient_small v zero n h l = absurd (omega arith)
quotient_small v (suc c) n h l = let parts = div_any v (suc c) in grind arith

divide_index-index :
    (payload : Memory) (counts : ℕ)
    → IsBytes payload
    → 0 < counts
    → big_endian (divide_index payload counts) 0 8 0 ≡ big_endian payload 0 8 0 / counts
unfolding divide_index
divide_index-index payload counts b h =
    let read = change_endian64-load payload b in
    let quotient : change_endian64 (load payload 0 8) / counts ≡ big_endian payload 0 8 0 / counts =
      ap (λ v. v / counts) read in
    let small : big_endian payload 0 8 0 / counts < 2 ^ 64 =
      quotient_small (big_endian payload 0 8 0) counts (2 ^ 64) h (big_endian-lt payload b) in
    change_endian64-stored payload (change_endian64 (load payload 0 8) / counts) (rw quotient small)
    ∙ quotient

-- Where the value `s` of the polarization `p` stands in the Parkes order.
abbrev pub parkes_place : ℕ → ℕ → ℕ → ℕ
parkes_place npol p s = if npol == 2 then 4 * (s / 2) + 2 * p + s % 2 else 4 * s + p

reorder_pols-place :
    (tmp : Memory) (npol nchan : ℕ) (payload : Memory) (p s : ℕ)
    → (npol ≡ 2) ⊎ (npol ≡ 4)
    → nchan % 2 ≡ 0
    → p < npol
    → s < nchan
    → reorder_pols tmp npol nchan payload (p * nchan + s) ≡ payload (8 + parkes_place npol p s)
unfolding reorder_pols
reorder_pols-place tmp npol nchan payload p s (inl two) even h l =
    rw two (two_pols-all tmp nchan payload 8 p s even l (omega arith))
reorder_pols-place tmp npol nchan payload p s (inr four) even h l =
    rw four (four_pols-all tmp nchan payload 8 p s l (omega arith))

divide_index-values :
    (payload : Memory) (counts i : ℕ) → divide_index payload counts (8 + i) ≡ payload (8 + i)
unfolding divide_index
divide_index-values payload counts i =
    store_outside payload 0 8 (change_endian64 (change_endian64 (load payload 0 8) / counts))
      (8 + i) (inr (omega arith))

value_within : (p npol n s : ℕ) → p < npol → s < n → p * n + s < npol * n
value_within p zero n s h l = absurd (omega arith)
value_within zero (suc npol) n s h l =
    let rows : suc npol * n ≡ n + npol * n = grind arith in omega arith
value_within (suc p) (suc npol) n s h l =
    let before = value_within p npol n s (omega arith) l in grind arith

-- A packet in the Parkes format, whose values fit into the packet of the largest size, gets its
-- index divided by the counts of a packet, and the values of each of its 2 or 4 polarizations one
-- behind another.
pub parkes_to_guppi_lem :
    (tmp payload : Memory) (acc_len npol nchan p s : ℕ)
    → IsBytes payload
    → 0 < counts_per_packet nchan acc_len
    → npol * nchan ≤ max_packet_size
    → (npol ≡ 2) ⊎ (npol ≡ 4)
    → nchan % 2 ≡ 0
    → p < npol
    → s < nchan
    → (out : Memory) × (parkes_to_guppi tmp payload acc_len npol nchan ≡ some out)
      × (big_endian out 0 8 0 ≡ big_endian payload 0 8 0 / counts_per_packet nchan acc_len)
      × (out (8 + (p * nchan + s)) ≡ payload (8 + parkes_place npol p s))
unfolding parkes_to_guppi
parkes_to_guppi_lem tmp payload acc_len npol nchan p s b h room pols even l m =
    let counts = counts_per_packet nchan acc_len in
    let indexed = divide_index payload counts in
    let values = reorder_pols tmp npol nchan indexed in
    let out = copy indexed 8 values 0 (npol * nchan) in
    let small : ltb max_packet_size (npol * nchan) ≡ false = ground arith in
    let runs : parkes_to_guppi tmp payload acc_len npol nchan ≡ some out =
      rw (==_of_ne counts 0 (omega arith)) (rw small) in
    let index : big_endian out 0 8 0 ≡ big_endian payload 0 8 0 / counts =
      big_endian-same out indexed 0 8 0
        (λ k e. copy_outside indexed 8 values 0 (npol * nchan) (0 + k) (inl (omega arith)))
      ∙ divide_index-index payload counts b h in
    let within : p * nchan + s < npol * nchan = value_within p npol nchan s l m in
    let value : out (8 + (p * nchan + s)) ≡ payload (8 + parkes_place npol p s) =
      copy_inside indexed 8 values 0 (npol * nchan) (p * nchan + s) within
      ∙ ap values (omega arith)
      ∙ reorder_pols-place tmp npol nchan indexed p s pols even l m
      ∙ divide_index-values payload counts (parkes_place npol p s) in
    (out, runs, index, value)
