-- ===== src/Converter/EightBits.antt =====
-- full_custom/converter.c: convert in the variant that widens each sample to two bytes
-- (MY_DO_EIGHTBITS).
pub mod Rows
pub mod Halves
use volt_rec.Base.{ℕ, zero, suc, ◌+◌, ◌*◌, ◌%◌, ◌^◌, List, [], ◌∷◌, Memory, ◌==◌, if◌then◌else◌}
use volt_rec.Formats.{rx_data_len, samples_per_packet}
use volt_rec.Converter.{row_len, split_sample}

-- dataout[iK][indexout] = datare; dataout[iK][indexout+1] = dataim
abbrev pub store_pair : Memory → ℕ → ℕ × ℕ → Memory
store_pair out at pair i = if i == at then pair.0 else (if i == at + 1 then pair.1 else out i)

-- The loop over a row, with `left` bytes to go from byte `iN`. Offsets are computed in uint32_t.
unfoldable pub split_row : Memory → ℕ → ℕ → ℕ → ℕ → ℕ → ℕ → Memory → Memory
split_row input n_chan ik il im zero i_n out = out
split_row input n_chan ik il im (suc left) i_n out =
    split_row input n_chan ik il im left (i_n + 1) (
      store_pair out (2 * (il * row_len + im * n_chan * row_len + i_n) % 2 ^ 32) (
        split_sample
          (input ((ik * (rx_data_len * n_chan) + il * rx_data_len + im * row_len + i_n) % 2 ^ 32))))

unfoldable pub split_samples : Memory → ℕ → ℕ → ℕ → ℕ → ℕ → Memory → Memory
unfolding split_row
split_samples input n_chan ik il zero im out = out
split_samples input n_chan ik il (suc left) im out =
    split_samples input n_chan ik il left (im + 1) (split_row input n_chan ik il im row_len 0 out)

unfoldable pub split_chans : Memory → ℕ → ℕ → ℕ → ℕ → Memory → Memory
unfolding split_samples
split_chans input n_chan ik zero il out = out
split_chans input n_chan ik (suc left) il out =
    split_chans input n_chan ik left (il + 1)
      (split_samples input n_chan ik il samples_per_packet 0 out)

unfoldable pub convert_eight : Memory → ℕ → ℕ → List Memory → List Memory
unfolding split_chans
convert_eight input n_chan ik [] = []
convert_eight input n_chan ik (out ∷ outs) =
    split_chans input n_chan ik n_chan 0 out ∷ convert_eight input n_chan (ik + 1) outs
