-- ===== src/Guppi/Packets.antt =====
-- half_hashpipe/hpguppi_udp.c: the parts of a packet, and the copy of its data. A pointer into the
-- packet is the offset from its start.
pub mod Parts
use volt_rec.Base.{
  ℕ, zero, suc, ◌+◌, ◌-◌, ◌*◌, ◌/◌, ◌%◌, ◌^◌, Option, none, some, ltb, Memory, copy, fill, load,
  byte_of, ◌==◌, if◌then◌else◌,
}

-- The loop of change_endian64 from byte `i` of the result on.
unfoldable pub swap_from : ℕ → ℕ → ℕ → ℕ
swap_from d zero i = 0
swap_from d (suc left) i = byte_of d (7 - i) + 256 * swap_from d left (i + 1)

unfoldable pub change_endian64 : ℕ → ℕ
unfolding swap_from
change_endian64 d = swap_from d 8 0

unfoldable pub packet_seq_num : Memory → ℕ
unfolding change_endian64
packet_seq_num payload = change_endian64 (load payload 0 8) % 2 ^ 56

abbrev pub packet_size_short : ℕ
packet_size_short = 544

abbrev pub packet_size_1sfa : ℕ
packet_size_1sfa = 8224

abbrev pub packet_size_1sfa_old : ℕ
packet_size_1sfa_old = 8160

abbrev pub packet_size_pasp : ℕ
packet_size_pasp = 528

unfoldable pub packet_datasize : ℕ → ℕ
packet_datasize packet_size =
    if packet_size == packet_size_1sfa
    then 8192
    else if packet_size == packet_size_short
    then 512
    else (packet_size + 2 ^ 64 - 16) % 2 ^ 64

unfoldable pub parkes_udp_packet_datasize : ℕ → ℕ
parkes_udp_packet_datasize packet_size = (packet_size + 2 ^ 64 - 8) % 2 ^ 64

unfoldable pub packet_data : ℕ → ℕ
packet_data payload_size = if payload_size == packet_size_pasp then 16 else 8

-- A packet of fewer than eight bytes has none: the C code reads before its start.
unfoldable pub packet_flags : Memory → ℕ → Option ℕ
packet_flags payload payload_size =
    if ltb payload_size 8 then none else some (load payload (payload_size - 8) 8)

abbrev pub pad : ℕ
pad = 16

abbrev pub spec_data_size : ℕ
spec_data_size = 4096 - 2 * pad

-- The branch of the old 1SFA packets: two spectra, each with room for its missing channels.
unfoldable pub expand_spectra : Memory → Memory → ℕ → Memory
expand_spectra out payload from =
    let first = copy (fill out 0 0 pad) pad payload from spec_data_size in
    let between = fill first (pad + spec_data_size) 0 (2 * pad) in
    let second =
      copy between (pad + spec_data_size + pad + pad) payload (from + spec_data_size)
        spec_data_size in
    fill second (pad + spec_data_size + pad + pad + spec_data_size) 0 pad

unfoldable pub packet_data_copy : Memory → Memory → ℕ → Memory
unfolding packet_data packet_datasize expand_spectra
packet_data_copy out payload payload_size =
    if payload_size == packet_size_1sfa_old
    then expand_spectra out payload (packet_data payload_size)
    else copy out 0 payload (packet_data payload_size) (packet_datasize payload_size)
