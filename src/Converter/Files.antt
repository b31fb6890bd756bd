-- ===== src/Converter/Files.antt =====
-- full_custom/converter.c: what main writes to the file of each antenna, the header of the optional
-- second argument and the converted data (four bits). An open file that is read is the list of the
-- bytes that are left, and one that is written the list of the bytes written; every write succeeds.
pub mod Lengths
pub mod Bytes
pub mod Turned
use volt_rec.Base.{
  ℕ, zero, suc, ◌+◌, ◌*◌, List, [], ◌∷◌, ◌++◌, Option, none, some, Memory, ltb, length, take, drop,
  get_or, if◌then◌else◌,
}
use volt_rec.Formats.{rx_data_len}
use volt_rec.Converter.{convert}

abbrev pub my_buffer_size : ℕ
my_buffer_size = 4096

-- The loop of write_ext_header, on fuel: what is written, and what is left of the header.
unfoldable pub write_ext_header : ℕ → List ℕ → List ℕ → Option (List ℕ × List ℕ)
write_ext_header fuel out [] = some (out, [])
write_ext_header zero out (b ∷ header) = none
write_ext_header (suc fuel) out (b ∷ header) =
    write_ext_header fuel (out ++ take my_buffer_size (b ∷ header))
      (drop my_buffer_size (b ∷ header))

-- The loop that opens the file of each antenna, `left` of them: all read the one open header.
unfoldable pub open_outputs : ℕ → ℕ → List ℕ → Option (List (List ℕ))
unfolding write_ext_header
open_outputs fuel zero header = some []
open_outputs fuel (suc left) header = elim (write_ext_header fuel [] header) [
  | none ↦ none
  | some (out, rest) ↦ elim (open_outputs fuel left rest) [
    | none ↦ none
    | some outs ↦ some (out ∷ outs)
  ]
]

abbrev pub in_buffer_len : ℕ → ℕ → ℕ
in_buffer_len n_ants n_chan_pkts = rx_data_len * n_ants * n_chan_pkts

abbrev pub out_buffer_len : ℕ → ℕ
out_buffer_len n_chan_pkts = rx_data_len * n_chan_pkts

-- The input buffer after a read of these bytes; what stands behind them is not looked at.
abbrev pub buffer_of : List ℕ → Memory
buffer_of bytes i = get_or bytes i 0

-- The `n` bytes of a buffer from `from` on.
abbrev pub bytes_from : Memory → ℕ → ℕ → List ℕ
bytes_from m from zero = []
bytes_from m from (suc n) = m from ∷ bytes_from m (from + 1) n

-- Each output buffer is written to its file.
unfoldable pub write_outputs : ℕ → List Memory → List (List ℕ) → List (List ℕ)
write_outputs n (data_out ∷ buffers) (out ∷ outs) =
    (out ++ bytes_from data_out 0 n) ∷ write_outputs n buffers outs
write_outputs n buffers outs = outs

-- The loop of main over the data, on fuel: the files of the antennas at its end. A read that gets
-- less than a buffer ends it.
unfoldable pub convert_file :
    ℕ → ℕ → ℕ → List ℕ → List Memory → List (List ℕ) → Option (List (List ℕ))
unfolding write_outputs convert
convert_file zero n_ants n_chan_pkts recorded buffers outs =
    if ltb (length recorded) (in_buffer_len n_ants n_chan_pkts) then some outs else none
convert_file (suc fuel) n_ants n_chan_pkts recorded buffers outs =
    let converted =
      convert (buffer_of (take (in_buffer_len n_ants n_chan_pkts) recorded)) n_chan_pkts 0
        buffers in
    let rest =
      convert_file fuel n_ants n_chan_pkts (drop (in_buffer_len n_ants n_chan_pkts) recorded)
        converted (write_outputs (out_buffer_len n_chan_pkts) converted outs) in
    if ltb (length recorded) (in_buffer_len n_ants n_chan_pkts) then some outs else rest
