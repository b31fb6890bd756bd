-- ===== src/Guppi/Transpose.antt =====
-- half_hashpipe/hpguppi_udp.c: the partial corner turn of the baseband data, the routine in use and
-- the previous one. The number of channels is not negative. A pointer into the data buffer or the packet is the offset from its start.
pub mod Cells
pub mod Orders
use volt_rec.Base.{
  ℕ, zero, suc, ◌+◌, ◌-◌, ◌*◌, ◌/◌, ◌%◌, ◌^◌, Memory, copy_strided, ◌==◌, if◌then◌else◌, Option,
  none, some,
}
use volt_rec.Guppi.Packets.{packet_datasize, packet_data}

-- The loop over the channels, each with its loop over the samples; `gap` is
-- samp_per_block-samp_per_packet.
unfoldable pub turn_channels : ℕ → ℕ → ℕ → ℕ → ℕ → Memory → ℕ → Memory → ℕ → Memory
turn_channels zero ichan chans samps gap databuf optr payload from = databuf
turn_channels (suc left) ichan chans samps gap databuf optr payload from =
    turn_channels left (ichan + 1) chans samps gap
      (copy_strided samps 4 4 (chans * 4) databuf optr payload (from + ichan * 4))
      (optr + samps * 4 + 4 * gap) payload from

unfoldable pub samples_per_packet : ℕ → ℕ → ℕ
samples_per_packet nchan payload_size = packet_datasize payload_size / 4 / nchan % 2 ^ 32

-- A packet of no channels divides by zero.
unfoldable pub packet_data_copy_transpose : Memory → ℕ → ℕ → ℕ → Memory → ℕ → Option Memory
unfolding turn_channels samples_per_packet packet_data
packet_data_copy_transpose databuf nchan block_pkt_idx packets_per_block payload payload_size =
    if nchan == 0
    then none
    else (let samps = samples_per_packet nchan payload_size in
        let samp_per_block = packets_per_block * samps % 2 ^ 32 in
        some (
          turn_channels nchan 0 nchan samps ((samp_per_block + 2 ^ 32 - samps) % 2 ^ 32) databuf
            (4 * (block_pkt_idx * samps % 2 ^ 32)) payload (packet_data payload_size)))

-- The loop over the samples of the previous routine, each with its loop over the channels.
unfoldable pub turn_samples : ℕ → ℕ → ℕ → ℕ → ℕ → Memory → Memory → ℕ → Memory
turn_samples zero isamp chans first samp_per_block databuf payload iptr = databuf
turn_samples (suc left) isamp chans first samp_per_block databuf payload iptr =
    turn_samples left (isamp + 1) chans first samp_per_block
      (copy_strided chans 4 (4 * samp_per_block) 4 databuf (4 * ((first + isamp) % 2 ^ 32)) payload
        iptr)
      payload (iptr + chans * 4)

-- The previous routine, which the preprocessor leaves out.
unfoldable pub previous_transpose : Memory → ℕ → ℕ → ℕ → Memory → ℕ → Option Memory
unfolding turn_samples samples_per_packet packet_data
previous_transpose databuf nchan block_pkt_idx packets_per_block payload payload_size =
    if nchan == 0
    then none
    else (let samps = samples_per_packet nchan payload_size in
        some (
          turn_samples samps 0 nchan (block_pkt_idx * samps % 2 ^ 32)
            (packets_per_block * samps % 2 ^ 32) databuf payload (packet_data payload_size)))
