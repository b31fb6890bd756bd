-- ===== src/Converter/EightBits/Rows.antt =====
-- Where the eight-bit convert puts the two bytes of each sample.
use volt_rec.Base.{
  ℕ, zero, suc, ◌+◌, ◌*◌, ◌%◌, ◌^◌, ◌≤◌, ◌<◌, ◌≡◌, refl, ◌≢◌, ◌⊎◌, inl, inr, List, [], ◌∷◌, arith,
  ap, sym, ◌∙◌, Memory, get_or, length, ◌==◌, if◌then◌else◌,
}
use native.Mathlib.Decide.{dec_lt, ℕ_discrete}
use volt_rec.Formats.{rx_data_len, samples_per_packet}
use volt_rec.Converter.{row_len, split_sample}
use volt_rec.Converter.CornerTurn.{later_row, other_chan}
use volt_rec.Converter.EightBits.{store_pair, split_row, split_samples, split_chans, convert_eight}

-- The first or the second of two bytes.
abbrev pub half : ℕ → ℕ × ℕ → ℕ
half e pair = if e == 0 then pair.0 else pair.1

store_pair-there :
    (out : Memory) (at e : ℕ) (pair : ℕ × ℕ) → e < 2 → store_pair out at pair (at + e) ≡ half e pair
store_pair-there out at e pair h = ground arith

store_pair-off :
    (out : Memory) (at x : ℕ) (pair : ℕ × ℕ)
    → (x < at) ⊎ (at + 2 ≤ x)
    → store_pair out at pair x ≡ out x
store_pair-off out at x pair h = ground arith

-- Below these bounds the offsets do not wrap.
offsets_fit :
    (n_chan ik il im i_n : ℕ)
    → n_chan ≤ 32
    → ik < 4
    → il < n_chan
    → im < 16
    → i_n < row_len
    → (2 * (il * row_len + im * n_chan * row_len + i_n) % 2 ^ 32
        ≡ 2 * ((im * n_chan + il) * row_len + i_n))
      × ((ik * (rx_data_len * n_chan) + il * rx_data_len + im * row_len + i_n) % 2 ^ 32
          ≡ ik * (rx_data_len * n_chan) + il * rx_data_len + im * row_len + i_n)
offsets_fit n_chan ik il im i_n hn ha hl hm hi =
    let p : im * n_chan ≤ 15 * 32 = grind arith in
    let q : ik * n_chan ≤ 3 * 32 = grind arith in (omega arith, omega arith)

-- Different rows of the output do not overlap.
rows_apart :
    (p q b e : ℕ)
    → p ≢ q
    → b < row_len
    → e < 2
    → (2 * (q * row_len + b) + e < 2 * (p * row_len + 0))
      ⊎ (2 * (p * row_len + row_len) ≤ 2 * (q * row_len + b) + e)
rows_apart p q b e ne hb he = elim (dec_lt q p) [
  | yes below ↦ inl (omega arith)
  | no above ↦ inr (omega arith)
]

module _ (input : Memory) (n_chan ik : ℕ) (few_chans : n_chan ≤ 32) (few_ants : ik < 4) where
  row_outside :
      (il im left i_n x : ℕ) (out : Memory)
      → il < n_chan
      → im < 16
      → i_n + left ≤ row_len
      → (x < 2 * ((im * n_chan + il) * row_len + i_n))
        ⊎ (2 * ((im * n_chan + il) * row_len + row_len) ≤ x)
      → split_row input n_chan ik il im left i_n out x ≡ out x
  unfolding split_row
  row_outside il im zero i_n x out hl hm hi away = refl
  row_outside il im (suc left) i_n x out hl hm hi away =
      let to = (offsets_fit n_chan ik il im i_n few_chans few_ants hl hm (omega arith)).0 in
      let later : (x < 2 * ((im * n_chan + il) * row_len + (i_n + 1)))
          ⊎ (2 * ((im * n_chan + il) * row_len + row_len) ≤ x) =
        ground arith in
      row_outside il im left (i_n + 1) x _ hl hm (omega arith) later
      ∙ rw to (store_pair-off out (2 * ((im * n_chan + il) * row_len + i_n)) x _ (ground arith))

  row_inside :
      (il im left i_n b e : ℕ) (out : Memory)
      → il < n_chan
      → im < 16
      → i_n + left ≤ row_len
      → i_n ≤ b
      → b < i_n + left
      → e < 2
      → split_row input n_chan ik il im left i_n out (2 * ((im * n_chan + il) * row_len + b) + e)
        ≡ half e (
            split_sample
              (input (ik * (rx_data_len * n_chan) + il * rx_data_len + im * row_len + b)))
  unfolding split_row
  row_inside il im zero i_n b e out hl hm hi lo up he = absurd (omega arith)
  row_inside il im (suc left) i_n b e out hl hm hi lo up he = elim (ℕ_discrete i_n b) [
    | yes same ↦
        let (to, from) = offsets_fit n_chan ik il im i_n few_chans few_ants hl hm (omega arith) in
        rw (← same) (
          row_outside il im left (i_n + 1) (2 * ((im * n_chan + il) * row_len + i_n) + e) _ hl hm
            (omega arith) (inl (omega arith))
          ∙ rw (to, from) (store_pair-there out (2 * ((im * n_chan + il) * row_len + i_n)) e _ he))
    | no ne ↦
        row_inside il im left (i_n + 1) b e _ hl hm (omega arith) (omega arith) (omega arith) he
  ]

  -- The row `q` of the output is none of those that the loop over the samples writes.
  samples_outside :
      (il left im q b e : ℕ) (out : Memory)
      → il < n_chan
      → im + left ≤ 16
      → b < row_len
      → e < 2
      → ((m : ℕ) → im ≤ m → m < im + left → m * n_chan + il ≢ q)
      → split_samples input n_chan ik il left im out (2 * (q * row_len + b) + e)
        ≡ out (2 * (q * row_len + b) + e)
  unfolding split_samples
  samples_outside il zero im q b e out hl hm hb he away = refl
  samples_outside il (suc left) im q b e out hl hm hb he away =
      samples_outside il left (im + 1) q b e _ hl (omega arith) hb he
        (λ m lo up. away m (omega arith) (omega arith))
      ∙ row_outside il im row_len 0 (2 * (q * row_len + b) + e) out hl (omega arith) (omega arith)
          (rows_apart (im * n_chan + il) q b e (away im (omega arith) (omega arith)) hb he)

  samples_inside :
      (il left im t b e : ℕ) (out : Memory)
      → il < n_chan
      → im + left ≤ 16
      → b < row_len
      → e < 2
      → im ≤ t
      → t < im + left
      → split_samples input n_chan ik il left im out (2 * ((t * n_chan + il) * row_len + b) + e)
        ≡ half e (
            split_sample (input (ik * (rx_data_len * n_chan) + il * rx_data_len + t * row_len + b)))
  unfolding split_samples
  samples_inside il zero im t b e out hl hm hb he lo up = absurd (omega arith)
  samples_inside il (suc left) im t b e out hl hm hb he lo up = elim (ℕ_discrete im t) [
    | yes same ↦ rw (← same) (
        samples_outside il left (im + 1) (im * n_chan + il) b e _ hl (omega arith) hb he
          (λ m later _. later_row im m n_chan il (omega arith) (omega arith))
        ∙ row_inside il im row_len 0 b e out hl (omega arith) (omega arith) (omega arith)
            (omega arith) he)
    | no ne ↦
        samples_inside il left (im + 1) t b e _ hl (omega arith) hb he (omega arith) (omega arith)
  ]

  chans_outside :
      (left il c t b e : ℕ) (out : Memory)
      → il + left ≤ n_chan
      → c < il
      → t < 16
      → b < row_len
      → e < 2
      → split_chans input n_chan ik left il out (2 * ((t * n_chan + c) * row_len + b) + e)
        ≡ out (2 * ((t * n_chan + c) * row_len + b) + e)
  unfolding split_chans
  chans_outside zero il c t b e out hl hc ht hb he = refl
  chans_outside (suc left) il c t b e out hl hc ht hb he =
      chans_outside left (il + 1) c t b e _ (omega arith) (omega arith) ht hb he
      ∙ samples_outside il samples_per_packet 0 (t * n_chan + c) b e out (omega arith) (omega arith)
          hb he (λ m _ _. other_chan t m n_chan il c (omega arith) (omega arith) (omega arith))

  chan_first :
      (left il t b e : ℕ) (out : Memory)
      → il + suc left ≤ n_chan
      → t < 16
      → b < row_len
      → e < 2
      → split_chans input n_chan ik (suc left) il out (2 * ((t * n_chan + il) * row_len + b) + e)
        ≡ half e (
            split_sample (input (ik * (rx_data_len * n_chan) + il * rx_data_len + t * row_len + b)))
  unfolding split_chans
  chan_first left il t b e out hl ht hb he =
      chans_outside left (il + 1) il t b e _ (omega arith) (omega arith) ht hb he
      ∙ samples_inside il samples_per_packet 0 t b e out (omega arith) (omega arith) hb he
          (omega arith) (omega arith)

  chans_inside :
      (left il c t b e : ℕ) (out : Memory)
      → il + left ≤ n_chan
      → il ≤ c
      → c < il + left
      → t < 16
      → b < row_len
      → e < 2
      → split_chans input n_chan ik left il out (2 * ((t * n_chan + c) * row_len + b) + e)
        ≡ half e
            (split_sample (input (ik * (rx_data_len * n_chan) + c * rx_data_len + t * row_len + b)))
  unfolding split_chans
  chans_inside zero il c t b e out hl lo up ht hb he = absurd (omega arith)
  chans_inside (suc left) il c t b e out hl lo up ht hb he = elim (ℕ_discrete il c) [
    | yes same ↦
        ap
          (λ (n : ℕ).
            split_chans input n_chan ik (suc left) il out
              (2 * ((t * n_chan + n) * row_len + b) + e))
          (sym same)
        ∙ chan_first left il t b e out hl ht hb he
        ∙ ap
            (λ (n : ℕ). half e (
              split_sample
                (input (ik * (rx_data_len * n_chan) + n * rx_data_len + t * row_len + b))))
            same
    | no ne ↦
        chans_inside left (il + 1) c t b e _ (omega arith) (omega arith) (omega arith) ht hb he
  ]

convert_at :
    (input : Memory) (n_chan k : ℕ) (outs : List Memory) (ik : ℕ)
    → ik < length outs
    → get_or (convert_eight input n_chan k outs) ik (λ _. 0)
      ≡ split_chans input n_chan (k + ik) n_chan 0 (get_or outs ik (λ _. 0))
unfolding convert_eight
convert_at input n_chan k [] ik h = absurd (omega arith)
convert_at input n_chan k (out ∷ outs) zero h =
    ap (λ (n : ℕ). split_chans input n_chan n n_chan 0 out) (omega arith)
convert_at input n_chan k (out ∷ outs) (suc ik) h =
    convert_at input n_chan (k + 1) outs ik (omega arith)
    ∙ ap (λ (n : ℕ). split_chans input n_chan n n_chan 0 (get_or outs ik (λ _. 0))) (omega arith)

-- The two bytes of each byte of the input are its halves, as split_sample makes them.
pub placed :
    (input : Memory) (n_chan : ℕ) (outs : List Memory) (ik c t b e : ℕ)
    → n_chan ≤ 32
    → length outs ≤ 4
    → ik < length outs
    → c < n_chan
    → t < samples_per_packet
    → b < row_len
    → e < 2
    → get_or
        (convert_eight input n_chan 0 outs)
        ik
        (λ _. 0)
        (2 * ((t * n_chan + c) * row_len + b) + e)
      ≡ half e (split_sample (input ((ik * n_chan + c) * rx_data_len + t * row_len + b)))
placed input n_chan outs ik c t b e hn ha hi hc ht hb he =
    ap (λ (m : Memory). m (2 * ((t * n_chan + c) * row_len + b) + e))
      (convert_at input n_chan 0 outs ik hi)
    ∙ chans_inside input n_chan (0 + ik) hn (omega arith) n_chan 0 c t b e _ (omega arith)
        (omega arith) (omega arith) ht hb he
    ∙ ap (λ (x : ℕ). half e (split_sample (input x))) (omega arith)
