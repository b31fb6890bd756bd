-- ===== src/Formats/Layout.antt =====
-- The header word against its layout in README.md, and the two parts of a packet number.
use volt_rec.Base.{ℕ, ◌+◌, ◌*◌, ◌%◌, ◌^◌, ◌<◌, ◌≤◌, ◌≡◌, arith, ◌↔◌, true}
use volt_rec.Formats.{
  get_ant_no, get_chan_no, get_pckt_no, get_version_no, is_version_volt, get_packet_filter,
  get_packet_rest, time_int_per_buffer,
}

-- The word of the layout "[0-5] antenna, [6-17] channel, [18-55] packet, [56-63] version".
abbrev pub header_word : ℕ → ℕ → ℕ → ℕ → ℕ
header_word ant chan pkt version = ant + 2 ^ 6 * chan + 2 ^ 18 * pkt + 2 ^ 56 * version

-- For fields that fit their 6, 12, 38 and 8 bits, the macros of data_formats.h read from the word
-- of the layout of README.md exactly these fields, and the word is a voltage packet exactly when
-- its version is 128 or more.
pub header_word_fields :
    (ant chan pkt version : ℕ)
    → ant < 2 ^ 6
    → chan < 2 ^ 12
    → pkt < 2 ^ 38
    → version < 2 ^ 8
    → (get_ant_no (header_word ant chan pkt version) ≡ ant)
      × (get_chan_no (header_word ant chan pkt version) ≡ chan)
      × (get_pckt_no (header_word ant chan pkt version) ≡ pkt)
      × (get_version_no (header_word ant chan pkt version) ≡ version)
      × ((is_version_volt (header_word ant chan pkt version) ≡ true) ↔ (128 ≤ version))
header_word_fields ant chan pkt version ha hc hp hv =
    (omega arith, omega arith, omega arith, omega arith, (λ h. ground arith, λ h. ground arith))

-- A packet number is the first packet of its block and its place in the block, and the first
-- packet of a block is a multiple of the packets per block.
pub filter-add-rest :
    (x : ℕ)
    → (get_packet_filter x + get_packet_rest x ≡ x)
      × (get_packet_filter x % time_int_per_buffer ≡ 0)
      × (get_packet_rest x < time_int_per_buffer)
filter-add-rest x = omega arith
