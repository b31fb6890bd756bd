-- ===== src/Guppi/S6.antt =====
-- half_hashpipe/hpguppi_udp.c: the copies of the packets of S6, whose words hold two channels of
-- two polarizations in the order X0 X1 Y0 Y1, and of its packets of many samples. A block_chan is not
-- negative.
pub mod Words
pub mod Channels
use volt_rec.Base.{ℕ, zero, suc, ◌+◌, ◌-◌, ◌*◌, ◌/◌, ◌%◌, ◌^◌, Memory, copy_strided, load, store}

unfoldable pub chan_per_packet : ℕ → ℕ
chan_per_packet payload_size = (payload_size + 2 ^ 64 - 16) % 2 ^ 64 / 4 % 2 ^ 32

-- The word of *optr++ : the middle pairs of bytes are exchanged.
unfoldable pub unpack : ℕ → ℕ
unpack d =
    d / 2 ^ 48 * 2 ^ 48
    + d % 2 ^ 16
    + d * 2 ^ 16 % 2 ^ 64 / 2 ^ 32 % 2 ^ 16 * 2 ^ 32
    + d / 2 ^ 16 / 2 ^ 16 % 2 ^ 16 * 2 ^ 16

unfoldable pub unpack_words : ℕ → Memory → ℕ → Memory → ℕ → Memory
unpack_words zero databuf optr payload iptr = databuf
unpack_words (suc left) databuf optr payload iptr =
    unpack_words left (store databuf optr 8 (unpack (load payload iptr 8))) (optr + 8) payload
      (iptr + 8)

abbrev pub copy_start : ℕ → ℕ → ℕ → ℕ
copy_start block_chan block_time obsnchan = block_time * obsnchan % 2 ^ 32 * 4 + block_chan * 4

unfoldable pub s6_packet_data_copy : Memory → ℕ → ℕ → ℕ → Memory → ℕ → Memory
unfolding unpack_words chan_per_packet
s6_packet_data_copy databuf block_chan block_time obsnchan payload payload_size =
    unpack_words (chan_per_packet payload_size / 2) databuf
      (copy_start block_chan block_time obsnchan) payload 8

-- The words of the two statements `*optr =` of the transposed copy.
unfoldable pub first_row_word : ℕ → ℕ
first_row_word d = d / 2 ^ 32 / 2 ^ 16 % 2 ^ 16 * 2 ^ 16 + d / 2 ^ 16 % 2 ^ 16

unfoldable pub second_row_word : ℕ → ℕ
second_row_word d = d / 2 ^ 16 / 2 ^ 16 % 2 ^ 16 * 2 ^ 16 + d % 2 ^ 16

-- The body of the loop: one word goes to two rows, which are `row` bytes apart.
unfoldable pub split_word : Memory → ℕ → ℕ → ℕ → Memory
unfolding first_row_word second_row_word
split_word databuf optr row d =
    store (store databuf optr 4 (first_row_word d)) (optr + row) 4 (second_row_word d)

unfoldable pub split_words : ℕ → ℕ → Memory → ℕ → Memory → ℕ → Memory
unfolding split_word
split_words zero row databuf optr payload iptr = databuf
split_words (suc left) row databuf optr payload iptr =
    split_words left row (split_word databuf optr row (load payload iptr 8)) (optr + row + row)
      payload (iptr + 8)

abbrev pub transposed_start : ℕ → ℕ → ℕ → ℕ
transposed_start block_chan block_time ntime_per_block =
    block_chan * ntime_per_block % 2 ^ 32 * 4 + block_time * 4

unfoldable pub s6_packet_data_copy_transpose : Memory → ℕ → ℕ → ℕ → Memory → ℕ → Memory
unfolding split_words chan_per_packet
s6_packet_data_copy_transpose databuf block_chan block_time ntime_per_block payload payload_size =
    split_words (chan_per_packet payload_size / 2) (ntime_per_block * 4 / 4 * 4) databuf
      (transposed_start block_chan block_time ntime_per_block) payload 8

unfoldable pub s6mb_packet_data_copy : Memory → ℕ → ℕ → ℕ → Memory → Memory
s6mb_packet_data_copy databuf block_chan block_time ntime_per_block payload =
    copy_strided 4 (512 * 4) (ntime_per_block * 4) (512 * 4) databuf
      (transposed_start block_chan block_time ntime_per_block) payload 8
