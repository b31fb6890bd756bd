-- ===== src/Guppi/Parkes.antt =====
-- half_hashpipe/hpguppi_udp.c: the change of a packet of the Parkes format in place. Its int
-- arguments are not negative.
pub mod TwoPols
pub mod FourPols
pub mod Conversion
use volt_rec.Base.{
  ℕ, zero, suc, ◌+◌, ◌-◌, ◌*◌, ◌/◌, ◌%◌, ◌^◌, Memory, copy, load, store, ltb, ◌==◌, if◌then◌else◌,
  Option, none, some,
}
use volt_rec.Guppi.Packets.{change_endian64}

abbrev pub max_packet_size : ℕ
max_packet_size = 9000

-- Each round handles 2 values of each of 2 polarizations.
unfoldable pub two_pols : ℕ → Memory → ℕ → ℕ → Memory → ℕ → Memory
two_pols zero tmp pol0 pol1 payload from = tmp
two_pols (suc left) tmp pol0 pol1 payload from =
    two_pols left (copy (copy tmp pol0 payload from 2) pol1 payload (from + 2) 2) (pol0 + 2)
      (pol1 + 2) payload (from + 4)

-- Each round handles one value of each of 4 polarizations.
unfoldable pub four_pols : ℕ → Memory → ℕ → ℕ → ℕ → ℕ → Memory → ℕ → Memory
four_pols zero tmp pol0 pol1 pol2 pol3 payload from = tmp
four_pols (suc left) tmp pol0 pol1 pol2 pol3 payload from =
    let first = copy tmp pol0 payload from 1 in
    let second = copy first pol1 payload (from + 1) 1 in
    let third = copy second pol2 payload (from + 2) 1 in
    let fourth = copy third pol3 payload (from + 3) 1 in
    four_pols left fourth (pol0 + 1) (pol1 + 1) (pol2 + 1) (pol3 + 1) payload (from + 4)

unfoldable pub counts_per_packet : ℕ → ℕ → ℕ
counts_per_packet nchan acc_len = nchan / 2 * acc_len % 2 ^ 32

-- The packet index at the start of the packet is divided.
unfoldable pub divide_index : Memory → ℕ → Memory
divide_index payload counts =
    store payload 0 8 (change_endian64 (change_endian64 (load payload 0 8) / counts))

unfoldable pub reorder_pols : Memory → ℕ → ℕ → Memory → Memory
unfolding two_pols four_pols
reorder_pols tmp npol nchan payload =
    if npol == 2
    then two_pols (nchan / 2) tmp 0 nchan payload 8
    else if npol == 4
    then four_pols nchan tmp 0 nchan (2 * nchan) (3 * nchan) payload 8
    else tmp

-- `tmp` is what stands on the stack. A division by zero, and values behind the end of `tmp`, give
-- none.
unfoldable pub parkes_to_guppi : Memory → Memory → ℕ → ℕ → ℕ → Option Memory
unfolding divide_index reorder_pols counts_per_packet
parkes_to_guppi tmp payload acc_len npol nchan =
    if counts_per_packet nchan acc_len == 0
    then none
    else if ltb max_packet_size (npol * nchan)
    then none
    else (let indexed = divide_index payload (counts_per_packet nchan acc_len) in
        some (copy indexed 8 (reorder_pols tmp npol nchan indexed) 0 (npol * nchan)))
