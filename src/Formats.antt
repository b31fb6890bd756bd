-- ===== src/Formats.antt =====
-- full_custom/data_formats.h: the sizes of packets and buffers, and the fields of the header word
-- of a packet. A word is the number of its 64 bits; `x >> k` is written `x / 2 ^ k`, and `x & m`
-- for a mask m of k ones is written `x % 2 ^ k`.
pub mod Layout
use volt_rec.Base.{ℕ, ◌+◌, ◌-◌, ◌*◌, ◌/◌, ◌%◌, ◌^◌, Bool, ◌==◌}

abbrev pub n_reads_default : ℕ
n_reads_default = 32 * 5

abbrev pub n_udp_buffers : ℕ
n_udp_buffers = 10

abbrev pub n_file_buffers : ℕ
n_file_buffers = 20

abbrev pub n_file_buffers_at_a_time : ℕ
n_file_buffers_at_a_time = 6

abbrev pub udp_buffer_size : ℕ
udp_buffer_size = 1000000000

abbrev pub file_buffer_size : ℕ
file_buffer_size = 1000000000

abbrev pub max_order_misses : ℕ
max_order_misses = 200

abbrev pub time_int_per_buffer : ℕ
time_int_per_buffer = 128

abbrev pub rx_data_len : ℕ
rx_data_len = 8192

abbrev pub rx_buff_len : ℕ
rx_buff_len = 8

abbrev pub rx_msg_len : ℕ
rx_msg_len = rx_data_len + rx_buff_len

abbrev pub max_no_ants : ℕ
max_no_ants = 4

abbrev pub max_channel_packets : ℕ
max_channel_packets = 32

abbrev pub samples_per_packet : ℕ
samples_per_packet = 16

abbrev pub pols_per_packet : ℕ
pols_per_packet = 2

abbrev pub chans_per_packet : ℕ
chans_per_packet = 256

-- PCKT_NO_MASK + 1: packet numbers have 38 bits.
abbrev pub packet_modulus : ℕ
packet_modulus = 2 ^ 38

-- ANT_NO_MASK
abbrev pub get_ant_no : ℕ → ℕ
get_ant_no x = x % 2 ^ 6

-- CHAN_NO_MASK
abbrev pub get_chan_no : ℕ → ℕ
get_chan_no x = x / 2 ^ 6 % 2 ^ 12

abbrev pub get_pckt_no : ℕ → ℕ
get_pckt_no x = x / 2 ^ 18 % packet_modulus

-- VERSION_NO_MASK
abbrev pub get_version_no : ℕ → ℕ
get_version_no x = x / 2 ^ 56 % 2 ^ 8

-- VOLT_VERSION_MASK is the bit 0x80 of the version byte.
abbrev pub is_version_volt : ℕ → Bool
is_version_volt x = x / 2 ^ 56 / 2 ^ 7 % 2 == 1

-- `x & ~(0x07f)`: the low seven bits are cleared.
abbrev pub get_packet_filter : ℕ → ℕ
get_packet_filter x = x - x % time_int_per_buffer

abbrev pub get_packet_rest : ℕ → ℕ
get_packet_rest x = x % time_int_per_buffer
