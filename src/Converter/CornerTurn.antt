-- ===== src/Converter/CornerTurn.antt =====
-- Where convert puts each row of samples.
use volt_rec.Base.{
  ℕ, zero, suc, ◌+◌, ◌*◌, ◌%◌, ◌^◌, ◌≤◌, ◌<◌, ◌≡◌, refl, ◌≢◌, ◌⊎◌, inl, inr, List, [], ◌∷◌, arith,
  ap, ◌∙◌, Memory, copy_inside, copy_outside, get_or, length,
}
use native.Mathlib.Decide.{dec_lt, ℕ_discrete}
use volt_rec.Formats.{rx_data_len, samples_per_packet}
use volt_rec.Converter.{convert_samples, convert_chans, convert, row_len}

-- Below these bounds the offsets do not wrap.
offsets_fit :
    (n_chan ik il im : ℕ)
    → n_chan ≤ 32
    → ik < 4
    → il < n_chan
    → im < 16
    → ((il * row_len + im * n_chan * row_len) % 2 ^ 32 ≡ (im * n_chan + il) * row_len)
      × ((ik * (rx_data_len * n_chan) + il * rx_data_len + im * row_len) % 2 ^ 32
          ≡ ik * (rx_data_len * n_chan) + il * rx_data_len + im * row_len)
offsets_fit n_chan ik il im hn ha hl hm =
    let p : im * n_chan ≤ 15 * 32 = grind arith in
    let q : ik * n_chan ≤ 3 * 32 = grind arith in (omega arith, omega arith)

-- Different rows of the output do not overlap.
rows_apart :
    (p q b : ℕ)
    → p ≢ q
    → b < row_len
    → (q * row_len + b < p * row_len) ⊎ (p * row_len + row_len ≤ q * row_len + b)
rows_apart p q b ne h = elim (dec_lt q p) [
  | yes below ↦ inl (omega arith)
  | no above ↦ inr (omega arith)
]

pub later_row : (t m n_chan il : ℕ) → t < m → 0 < n_chan → m * n_chan + il ≢ t * n_chan + il
later_row t m n_chan il lt some_chan e =
    let above : t * n_chan + n_chan ≤ m * n_chan = grind arith in omega arith

-- Rows of different channel packets differ.
pub other_chan :
    (t m n_chan il c : ℕ) → il < n_chan → c < n_chan → il ≢ c → m * n_chan + il ≢ t * n_chan + c
other_chan t m n_chan il c hl hc ne e = elim (dec_lt t m) [
  | yes lt ↦ let above : t * n_chan + n_chan ≤ m * n_chan = grind arith in omega arith
  | no ge ↦ elim (dec_lt m t) [
    | yes lt ↦ let above : m * n_chan + n_chan ≤ t * n_chan = grind arith in omega arith
    | no le ↦
        let same : m ≡ t = omega arith in
        let rows : m * n_chan ≡ t * n_chan = ap (λ (x : ℕ). x * n_chan) same in omega arith
  ]
]

module _ (input : Memory) (n_chan ik : ℕ) (few_chans : n_chan ≤ 32) (few_ants : ik < 4) where
  -- The row `q` of the output is none of those that the loop over the samples writes.
  samples_outside :
      (il left im q b : ℕ) (out : Memory)
      → il < n_chan
      → im + left ≤ 16
      → b < row_len
      → ((m : ℕ) → im ≤ m → m < im + left → m * n_chan + il ≢ q)
      → convert_samples input n_chan ik il left im out (q * row_len + b) ≡ out (q * row_len + b)
  unfolding convert_samples
  samples_outside il zero im q b out hl hm hb away = refl
  samples_outside il (suc left) im q b out hl hm hb away =
      samples_outside il left (im + 1) q b _ hl (omega arith) hb
        (λ m lo hi. away m (omega arith) (omega arith))
      ∙ copy_outside out _ input _ row_len (q * row_len + b) (
          rw ((offsets_fit n_chan ik il im few_chans few_ants hl (omega arith)).0)
            (rows_apart (im * n_chan + il) q b (away im (omega arith) (omega arith)) hb))

  samples_inside :
      (il left im t b : ℕ) (out : Memory)
      → il < n_chan
      → im + left ≤ 16
      → b < row_len
      → im ≤ t
      → t < im + left
      → convert_samples input n_chan ik il left im out ((t * n_chan + il) * row_len + b)
        ≡ input (ik * (rx_data_len * n_chan) + il * rx_data_len + t * row_len + b)
  unfolding convert_samples
  samples_inside il zero im t b out hl hm hb lo hi = absurd (omega arith)
  samples_inside il (suc left) im t b out hl hm hb lo hi = elim (ℕ_discrete im t) [
    | yes e ↦
        let (to, from) = offsets_fit n_chan ik il im few_chans few_ants hl (omega arith) in
        rw (← e) (
          samples_outside il left (im + 1) (im * n_chan + il) b _ hl (omega arith) hb
            (λ m later _. later_row im m n_chan il (omega arith) (omega arith))
          ∙ rw (to, from)
              (copy_inside out ((im * n_chan + il) * row_len) input
                (ik * (rx_data_len * n_chan) + il * rx_data_len + im * row_len) row_len b hb))
    | no ne ↦ samples_inside il left (im + 1) t b _ hl (omega arith) hb (omega arith) (omega arith)
  ]

  chans_outside :
      (left il c t b : ℕ) (out : Memory)
      → il + left ≤ n_chan
      → c < il
      → t < 16
      → b < row_len
      → convert_chans input n_chan ik left il out ((t * n_chan + c) * row_len + b)
        ≡ out ((t * n_chan + c) * row_len + b)
  unfolding convert_chans
  chans_outside zero il c t b out hl hc ht hb = refl
  chans_outside (suc left) il c t b out hl hc ht hb =
      chans_outside left (il + 1) c t b _ (omega arith) (omega arith) ht hb
      ∙ samples_outside il samples_per_packet 0 (t * n_chan + c) b out (omega arith) (omega arith)
          hb (λ m _ _. other_chan t m n_chan il c (omega arith) (omega arith) (omega arith))

  pub chans_inside :
      (left il c t b : ℕ) (out : Memory)
      → il + left ≤ n_chan
      → il ≤ c
      → c < il + left
      → t < 16
      → b < row_len
      → convert_chans input n_chan ik left il out ((t * n_chan + c) * row_len + b)
        ≡ input (ik * (rx_data_len * n_chan) + c * rx_data_len + t * row_len + b)
  unfolding convert_chans
  chans_inside zero il c t b out hl lo hi ht hb = absurd (omega arith)
  chans_inside (suc left) il c t b out hl lo hi ht hb = elim (ℕ_discrete il c) [
    | yes e ↦ rw (← e) (
        chans_outside left (il + 1) il t b _ (omega arith) (omega arith) ht hb
        ∙ samples_inside il samples_per_packet 0 t b out (omega arith) (omega arith) hb
            (omega arith) (omega arith))
    | no ne ↦ chans_inside left (il + 1) c t b _ (omega arith) (omega arith) (omega arith) ht hb
  ]

convert_at :
    (input : Memory) (n_chan k : ℕ) (outs : List Memory) (ik : ℕ)
    → ik < length outs
    → get_or (convert input n_chan k outs) ik (λ _. 0)
      ≡ convert_chans input n_chan (k + ik) n_chan 0 (get_or outs ik (λ _. 0))
unfolding convert
convert_at input n_chan k [] ik h = absurd (omega arith)
convert_at input n_chan k (out ∷ outs) zero h =
    ap (λ (n : ℕ). convert_chans input n_chan n n_chan 0 out) (omega arith)
convert_at input n_chan k (out ∷ outs) (suc ik) h =
    convert_at input n_chan (k + 1) outs ik (omega arith)
    ∙ ap (λ (n : ℕ). convert_chans input n_chan n n_chan 0 (get_or outs ik (λ _. 0))) (omega arith)

-- For at most four antennas and 32 channel packets: in the output of antenna `ik`, byte `b` of the
-- row of time `t` and channel packet `c` is byte `b` of sample `t` of that antenna's and channel
-- packet's payload in the input. The output runs over time first, then over all channels.
pub convert_lem :
    (input : Memory) (n_chan : ℕ) (outs : List Memory) (ik c t b : ℕ)
    → n_chan ≤ 32
    → length outs ≤ 4
    → ik < length outs
    → c < n_chan
    → t < samples_per_packet
    → b < row_len
    → get_or (convert input n_chan 0 outs) ik (λ _. 0) ((t * n_chan + c) * row_len + b)
      ≡ input ((ik * n_chan + c) * rx_data_len + t * row_len + b)
convert_lem input n_chan outs ik c t b hn ha hi hc ht hb =
    ap (λ (m : Memory). m ((t * n_chan + c) * row_len + b)) (convert_at input n_chan 0 outs ik hi)
    ∙ chans_inside input n_chan (0 + ik) hn (omega arith) n_chan 0 c t b _ (omega arith)
        (omega arith) (omega arith) ht hb
    ∙ ap input (omega arith)
