-- ===== src/Tests/GuppiPackets.antt =====
-- half_hashpipe/hpguppi_udp.c at concrete inputs: packets whose bytes count up.
use volt_rec.Base.{◌+◌, ◌-◌, ◌*◌, ◌/◌, ◌%◌, ◌≡◌, refl, inr, arith, Memory, some, big_endian}
use volt_rec.Guppi.Packets.{packet_data, packet_datasize}
use volt_rec.Guppi.Packets.Parts.{IsBytes}
use volt_rec.Guppi.Transpose.{packet_data_copy_transpose, previous_transpose, samples_per_packet}
use volt_rec.Guppi.Transpose.Orders.{
  packet_data_copy_transpose_lem, packet_data_copy_transpose-previous_transpose,
}
use volt_rec.Guppi.S6.{
  s6_packet_data_copy, s6_packet_data_copy_transpose, copy_start, transposed_start, chan_per_packet,
}
use volt_rec.Guppi.S6.Channels.{s6_packet_data_copy_lem, s6_packet_data_copy_transpose_lem}
use volt_rec.Guppi.Parkes.{parkes_to_guppi, counts_per_packet}
use volt_rec.Guppi.Parkes.Conversion.{parkes_to_guppi_lem, parkes_place}

abbrev counting : Memory
counting i = i % 256

counting-IsBytes : IsBytes counting
counting-IsBytes i = omega arith

abbrev zeros : Memory
zeros i = 0

-- Packets of 48 bytes: two channels of four samples, three packets in a block.
transpose_example :
    (out : Memory) × (packet_data_copy_transpose zeros 2 1 3 counting 48 ≡ some out)
    × (out (4 * (1 * samples_per_packet 2 48) + 1 * (4 * (3 * samples_per_packet 2 48)) + 2 * 4 + 3)
        ≡ counting (packet_data 48 + 1 * 4 + 2 * (2 * 4) + 3))
unfolding samples_per_packet packet_datasize
transpose_example =
    packet_data_copy_transpose_lem zeros 2 1 3 counting 48 1 2 3 (omega arith) (omega arith)
      (omega arith) (omega arith) (omega arith)

previous_transpose_example :
    packet_data_copy_transpose zeros 2 1 3 counting 48 ≡ previous_transpose zeros 2 1 3 counting 48
unfolding samples_per_packet packet_datasize
previous_transpose_example =
    packet_data_copy_transpose-previous_transpose zeros 2 1 3 counting 48 (omega arith)
      (omega arith)

s6_copy_example :
    s6_packet_data_copy zeros 4 2 16 counting 32 (copy_start 4 2 16 + 1 * 8 + (4 * 1 + 2 * 0 + 1))
    ≡ counting (8 + 1 * 8 + (4 * 0 + 2 * 1 + 1))
unfolding chan_per_packet
s6_copy_example =
    s6_packet_data_copy_lem zeros 4 2 16 counting 32 1 1 0 1 counting-IsBytes (omega arith)
      (omega arith) (omega arith) (omega arith)

s6_transpose_example :
    s6_packet_data_copy_transpose zeros 4 2 16 counting 32
      (transposed_start 4 2 16 + 1 * (16 * 8) + 0 * (16 * 4) + (2 * 1 + 0))
    ≡ counting (8 + 1 * 8 + (4 * 1 + 2 * (1 - 0) + 0))
unfolding chan_per_packet
s6_transpose_example =
    s6_packet_data_copy_transpose_lem zeros 4 2 16 counting 32 1 0 1 0 counting-IsBytes
      (omega arith) (omega arith) (omega arith) (omega arith) (omega arith)

parkes_example :
    (out : Memory) × (parkes_to_guppi zeros counting 3 4 8 ≡ some out)
    × (big_endian out 0 8 0 ≡ big_endian counting 0 8 0 / counts_per_packet 8 3)
    × (out (8 + (2 * 8 + 5)) ≡ counting (8 + parkes_place 4 2 5))
unfolding counts_per_packet
parkes_example =
    parkes_to_guppi_lem zeros counting 3 4 8 2 5 counting-IsBytes (omega arith) (omega arith)
      (inr refl) refl (omega arith) (omega arith)
