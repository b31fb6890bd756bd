-- ===== src/Tests/Converting.antt =====
-- full_custom/converter.c at concrete inputs: the header of a recording of two antennas, and the
-- loop over a short recording of one antenna, and the eight-bit samples.
use volt_rec.Converter.Files.{in_buffer_len, out_buffer_len, convert_file}
use volt_rec.Converter.Files.Lengths.{Converted, convert_file_lem}
use volt_rec.Converter.Files.Bytes.{Holds}
use volt_rec.Converter.Files.Turned.{convert_file_turned}
use volt_rec.Base.{
  ◌/◌, ◌%◌, ℕ, ◌+◌, ◌*◌, ◌<◌, ◌≤◌, ◌≡◌, refl, ◌⊎◌, List, [], ◌∷◌, ◌++◌, arith, Memory, ok, get_or,
  replicate, length, length-replicate,
}
use volt_rec.Formats.{rx_data_len}
use volt_rec.Pool.{Pool}
use volt_rec.Worker.State.{FileBuff}
use volt_rec.FileWriter.{write_header}
use volt_rec.Converter.{read_header, opened, too_many_ants, row_len}
use volt_rec.Converter.EightBits.{convert_eight}
use volt_rec.Converter.EightBits.Halves.{signed_nibble, convert_eight_lem}
use volt_rec.Converter.Header.{full_counts, header_of, header_round_trip}

abbrev no_pool : Pool
no_pool = record { store = []; data_len = []; order_no = []; n_ready = 0; no_buffers = 0 }

abbrev recording : FileBuff
recording = record {
  n_ants = 2;
  ant_numbers = 7 ∷ 9 ∷ [];
  n_chans = 2;
  first_chan = 256;
  packet_start = 1280;
  pool = no_pool;
}

header_example :
    (bytes : List ℕ) × (write_header (full_counts recording) recording ≡ ok bytes)
    × (((recording.n_ants < 4)
          × (read_header (bytes ++ (5 ∷ [])) ≡ ok (opened (header_of recording) (5 ∷ []))))
        ⊎ ((recording.n_ants ≡ 4)
            × (read_header (bytes ++ (5 ∷ [])) ≡ ok (too_many_ants (header_of recording)))))
header_example =
    header_round_trip recording (5 ∷ []) (omega arith) (omega arith, (omega arith, tt))
      (omega arith) (omega arith) (omega arith)

-- A recording of one antenna and one channel packet: one buffer, and a rest of 808 bytes.
abbrev recorded_bytes : List ℕ
recorded_bytes = replicate 9000 7

recorded_bytes-fit : length recorded_bytes ≤ 9000
recorded_bytes-fit = omega (arith, length-replicate {A = ℕ} 9000 7)

abbrev raw_output : Memory
raw_output i = 0

convert_file_example :
    Converted
      (in_buffer_len 1 1)
      (out_buffer_len 1)
      recorded_bytes
      ([] ∷ [])
      (convert_file 9000 1 1 recorded_bytes (raw_output ∷ []) ([] ∷ []))
convert_file_example =
    convert_file_lem 9000 1 1 recorded_bytes (raw_output ∷ []) ([] ∷ []) (omega arith)
      recorded_bytes-fit refl

-- Byte 20 of sample 3 in the file of the antenna, which held two bytes before.
convert_file_turned_example :
    Holds
      (convert_file 9000 1 1 recorded_bytes (raw_output ∷ []) ((1 ∷ 2 ∷ []) ∷ []))
      0
      (2 + (0 * out_buffer_len 1 + ((3 * 1 + 0) * row_len + 20)))
      (get_or recorded_bytes
        (0 * in_buffer_len 1 1 + ((0 * 1 + 0) * rx_data_len + 3 * row_len + 20))
        0)
convert_file_turned_example =
    convert_file_turned 9000 1 1 recorded_bytes (raw_output ∷ []) ((1 ∷ 2 ∷ []) ∷ []) 0 0 0 3 20
      (omega arith) (omega arith) refl refl (omega arith) (omega arith) (omega arith) (omega arith)
      recorded_bytes-fit (omega (arith, length-replicate {A = ℕ} 9000 7))

abbrev nibbles : Memory
nibbles i = i % 256

-- Byte 20 of sample 3 of the second channel packet of the second antenna is 20: the high half is 1,
-- and the low half 4.
convert_eight_example :
    (get_or
        (convert_eight nibbles 2 0 (raw_output ∷ raw_output ∷ []))
        1
        (λ _. 0)
        (2 * ((3 * 2 + 1) * row_len + 20) + 0)
      ≡ signed_nibble (20 / 16))
    × (get_or
          (convert_eight nibbles 2 0 (raw_output ∷ raw_output ∷ []))
          1
          (λ _. 0)
          (2 * ((3 * 2 + 1) * row_len + 20) + 1)
        ≡ signed_nibble (20 % 16))
convert_eight_example =
    convert_eight_lem nibbles 2 (raw_output ∷ raw_output ∷ []) 1 1 3 20 20 (omega arith)
      (omega arith) (omega arith) (omega arith) (omega arith) (omega arith) refl (omega arith)
