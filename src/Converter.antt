-- ===== src/Converter.antt =====
-- full_custom/converter.c: the program that splits a recording into a file for each antenna.
pub mod Header
pub mod Files
pub mod EightBits
pub mod CornerTurn
use volt_rec.Base.{
  ℕ, zero, suc, ◌+◌, ◌-◌, ◌*◌, ◌/◌, ◌%◌, ◌^◌, Bool, true, false, ◌&&◌, List, [], ◌∷◌, Result, ok,
  err, ◌>>=◌, io, out_of_bounds, Memory, copy, ltb, leb, ◌==◌, if◌then◌else◌, take, drop, length,
}
use volt_rec.Formats.{
  max_no_ants, rx_data_len, pols_per_packet, chans_per_packet, samples_per_packet,
}

-- The number of the bytes, in the byte order of the machine.
abbrev pub from_le : List ℕ → ℕ
from_le [] = 0
from_le (b ∷ bytes) = b + 256 * from_le bytes

-- read(in_fd, &field, n) != n ends the program; otherwise the field and what follows it.
unfoldable pub read_field : ℕ → List ℕ → Result (ℕ × List ℕ)
read_field n file =
    if length (take n file) == n then ok (from_le (take n file), drop n file) else err io

abbrev pub read_ids : ℕ → List ℕ → List ℕ
read_ids zero bytes = []
read_ids (suc n) bytes = from_le (take 4 bytes) ∷ read_ids n (drop 4 bytes)

-- read(in_fd, antIDs, sizeof(uint32_t)*nAnts): more than MAX_NO_ANTS numbers do not fit the array.
unfoldable pub read_ant_ids : ℕ → List ℕ → Result (List ℕ × List ℕ)
read_ant_ids n_ants file =
    let bytes = take (4 * n_ants) file in
    if ltb (4 * max_no_ants) (length bytes)
    then err out_of_bounds
    else if length bytes == 4 * n_ants
    then ok (read_ids n_ants bytes, drop (4 * n_ants) file)
    else err io

-- The variables that main reads from the header of a recording.
pub record RecordingHeader : Type 0 where
  pub n_ants : ℕ
  pub ant_ids : List ℕ
  pub n_chan_pkts : ℕ
  pub chan_start : ℕ
  pub pkt_start : ℕ

-- The header is refused, or main goes on with it and the rest of the file.
pub data Opening : Type 0 where
  too_many_ants : RecordingHeader → Opening
  opened : (header : RecordingHeader) (rest : List ℕ) → Opening

unfoldable pub read_header : List ℕ → Result Opening
read_header file = do
  (n_ants, after_n) ← read_field 4 file
  (ant_ids, after_ids) ← read_ant_ids n_ants after_n
  (n_chan_pkts, after_chans) ← read_field 4 after_ids
  (chan_start, after_first) ← read_field 4 after_chans
  (pkt_start, rest) ← read_field 8 after_first
  let header : RecordingHeader = record {
    n_ants = n_ants;
    ant_ids = ant_ids;
    n_chan_pkts = n_chan_pkts;
    chan_start = chan_start;
    pkt_start = pkt_start;
  }
  ok (if leb max_no_ants n_ants then too_many_ants header else opened header rest)

abbrev pub row_len : ℕ
row_len = pols_per_packet * chans_per_packet

-- The innermost loop of convert (four-bit data), with `left` samples to go from sample `im`, for
-- antenna `ik` and channel packet `il`. Offsets are computed in uint32_t.
unfoldable pub convert_samples : Memory → ℕ → ℕ → ℕ → ℕ → ℕ → Memory → Memory
convert_samples input n_chan ik il zero im out = out
convert_samples input n_chan ik il (suc left) im out =
    convert_samples input n_chan ik il left (im + 1) (
      copy out ((il * row_len + im * n_chan * row_len) % 2 ^ 32) input
        ((ik * (rx_data_len * n_chan) + il * rx_data_len + im * row_len) % 2 ^ 32) row_len)

-- The loop over the channel packets.
unfoldable pub convert_chans : Memory → ℕ → ℕ → ℕ → ℕ → Memory → Memory
unfolding convert_samples
convert_chans input n_chan ik zero il out = out
convert_chans input n_chan ik (suc left) il out =
    convert_chans input n_chan ik left (il + 1)
      (convert_samples input n_chan ik il samples_per_packet 0 out)

-- The loop over the antennas: each has its output buffer.
unfoldable pub convert : Memory → ℕ → ℕ → List Memory → List Memory
unfolding convert_chans
convert input n_chan ik [] = []
convert input n_chan ik (out ∷ outs) =
    convert_chans input n_chan ik n_chan 0 out ∷ convert input n_chan (ik + 1) outs

-- The eight-bit variant of one byte: the real and the imaginary part as the bits of an int8_t.
-- The shift of a negative sample fills in ones.
abbrev pub extend_nibble : ℕ → ℕ
extend_nibble n = if n / 8 % 2 == 1 then n % 16 + 240 else n

abbrev pub split_sample : ℕ → ℕ × ℕ
split_sample sample =
    let datare = if leb 128 sample then sample / 16 + 240 else sample / 16 in
    (extend_nibble datare, extend_nibble (sample % 16))
