-- ===== src/Converter/EightBits/Halves.antt =====
-- The real and the imaginary parts in the eight-bit output.
use volt_rec.Base.{
  ℕ, ◌+◌, ◌*◌, ◌%◌, ◌^◌, ◌≤◌, ◌<◌, ◌≡◌, List, arith, ap, ◌∙◌, Memory, get_or, length, if◌then◌else◌,
  ltb, ◌/◌, ◌-◌,
}
use volt_rec.Formats.{rx_data_len, samples_per_packet}
use volt_rec.Converter.{row_len, split_sample}
use volt_rec.Converter.EightBits.{convert_eight}
use volt_rec.Converter.EightBits.Rows.{half, placed}

-- The byte that stands, as an int8_t, for the value of a half byte with its sign: n from 0 to 7,
-- and n - 16 from 8 to 15.
abbrev pub signed_nibble : ℕ → ℕ
signed_nibble n = if ltb n 8 then n else 2 ^ 8 - (16 - n)

split_sample-signed :
    (x : ℕ) → x < 256 → split_sample x ≡ (signed_nibble (x / 16), signed_nibble (x % 16))
split_sample-signed x h =
    let re : (split_sample x).0 ≡ signed_nibble (x / 16) = ground arith in
    let im : (split_sample x).1 ≡ signed_nibble (x % 16) = ground arith in λ d. (re d, im d)

-- For at most four antennas and 32 channel packets: let `x` be the byte `b` of sample `t` of the
-- payload of antenna `ik` and channel packet `c`. In the eight-bit output of that antenna the two
-- bytes at the place of time `t`, channel packet `c` and `b` are the signed values of the high half
-- of `x`, its real part, and of the low half, its imaginary part.
pub convert_eight_lem :
    (input : Memory) (n_chan : ℕ) (outs : List Memory) (ik c t b x : ℕ)
    → n_chan ≤ 32
    → length outs ≤ 4
    → ik < length outs
    → c < n_chan
    → t < samples_per_packet
    → b < row_len
    → input ((ik * n_chan + c) * rx_data_len + t * row_len + b) ≡ x
    → x < 256
    → (get_or
          (convert_eight input n_chan 0 outs)
          ik
          (λ _. 0)
          (2 * ((t * n_chan + c) * row_len + b) + 0)
        ≡ signed_nibble (x / 16))
      × (get_or
            (convert_eight input n_chan 0 outs)
            ik
            (λ _. 0)
            (2 * ((t * n_chan + c) * row_len + b) + 1)
          ≡ signed_nibble (x % 16))
convert_eight_lem input n_chan outs ik c t b x hn ha hi hc ht hb sample byte =
    let parts = ap split_sample sample ∙ split_sample-signed x byte in
    (
      placed input n_chan outs ik c t b 0 hn ha hi hc ht hb (omega arith) ∙ ap (half 0) parts,
      placed input n_chan outs ik c t b 1 hn ha hi hc ht hb (omega arith) ∙ ap (half 1) parts,
    )
