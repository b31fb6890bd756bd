-- ===== src/Worker/Packets.antt =====
-- full_custom/processing_thread.c: what worker_work does with the packets of one input buffer.
use volt_rec.Base.{
  ℕ, zero, suc, ◌+◌, ◌-◌, ◌*◌, ◌/◌, ◌%◌, ◌^◌, Bool, true, ◌&&◌, List, [], ◌∷◌, Option, none, some,
  ltb, ◌==◌, Memory, copy, big_endian, get_elem?, set, if◌then◌else◌, min,
}
use volt_rec.Base.Int.{pos, ◌-ℤ◌}
use volt_rec.Formats.{
  rx_msg_len, rx_buff_len, rx_data_len, chans_per_packet, max_no_ants, time_int_per_buffer,
  packet_modulus, get_ant_no, get_chan_no, get_pckt_no, is_version_volt, get_packet_filter,
  get_packet_rest, n_file_buffers_at_a_time,
}
use volt_rec.Antennas.{update_antenna, get_ant_index}
use volt_rec.Worker.State.{FileBuff, Slot, Worker, on_buffer}

-- be64toh of the first eight bytes of message `k`.
abbrev pub header_at : Memory → ℕ → ℕ
header_at input k = big_endian input (k * rx_msg_len) rx_buff_len 0

-- The scan of the first buffer: the lowest packet number, and the antennas. An antenna too many is
-- reported and otherwise ignored.
unfoldable pub scan_headers : Memory → ℕ → ℕ → ℕ → ℕ → List ℕ → ℕ × List ℕ
scan_headers input n_ants zero k pkt_start ants = (pkt_start, ants)
scan_headers input n_ants (suc left) k pkt_start ants =
    let h = header_at input k in
    scan_headers input n_ants left (k + 1) (min pkt_start (get_pckt_no h))
      (update_antenna ants (get_ant_no h) n_ants).1

-- localStruct[iK].packetNo = pkt_start + iK * TIME_INT_PER_BUFFER
unfoldable pub number_slots : ℕ → ℕ → List Slot → List Slot
number_slots pkt_start k [] = []
number_slots pkt_start k (s ∷ slots) =
    record s { packet_no = pkt_start + k * time_int_per_buffer }
    ∷ number_slots pkt_start (k + 1) slots

-- The first `n` entries of `from`, and behind them those of `to`.
unfoldable pub copy_ants : ℕ → List ℕ → List ℕ → List ℕ
copy_ants zero from to = to
copy_ants (suc n) (a ∷ from) (b ∷ to) = a ∷ copy_ants n from to
copy_ants (suc n) from to = to

-- The block under `!first_loop_done`; LONG_MAX is 2^63 - 1.
unfoldable pub first_loop : Memory → ℕ → Worker → Worker
unfolding scan_headers number_slots copy_ants update_antenna
first_loop input n_of_packets w =
    let (lowest, ants) = scan_headers input w.file.n_ants n_of_packets 0 (2 ^ 63 - 1) w.ants in
    let pkt_start = get_packet_filter lowest in
    record w {
      ants = ants;
      file = record (w.file) {
        packet_start = pkt_start;
        ant_numbers = copy_ants w.file.n_ants ants w.file.ant_numbers;
      };
      slots = number_slots pkt_start 0 w.slots;
      next_packet_no =
          (pkt_start + n_file_buffers_at_a_time * time_int_per_buffer) % packet_modulus;
      first_loop_done = true;
    }

-- The 32 bits of `int currChanNo`: the difference is taken in 64 bits without sign, divided, and
-- cut to an int.
abbrev pub curr_chan_no : ℕ → ℕ → ℕ
curr_chan_no h first_chan =
    (get_chan_no h + 2 ^ 64 - first_chan) % 2 ^ 64 / chans_per_packet % 2 ^ 32

-- (currChanNo >= 0) && (currChanNo < nchans)
abbrev pub chan_in_range : ℕ → ℕ → ℕ → Bool
chan_in_range h first_chan n_chans =
    ltb (curr_chan_no h first_chan) (2 ^ 31) && ltb (curr_chan_no h first_chan) n_chans

-- Where a packet goes: its place in the block, its antenna's index and its channel packet.
pub record Place : Type 0 where
  pub rest : ℕ
  pub ant : ℕ
  pub chan : ℕ

-- The test on the header: `none` where the packet is ignored.
unfoldable pub accept : FileBuff → List ℕ → ℕ → Option Place
unfolding get_ant_index
accept f ants h = elim (get_ant_index ants (get_ant_no h) f.n_ants) [
  | none ↦ none
  | some ant ↦
      if is_version_volt h && ltb ant max_no_ants && chan_in_range h f.first_chan f.n_chans
      then some (record {
        rest = get_packet_rest (get_pckt_no h);
        ant = ant;
        chan = curr_chan_no h f.first_chan;
      })
      else none
]

-- Computed in uint32_t.
abbrev pub offset : FileBuff → Place → ℕ
offset f p = (p.rest * f.n_ants * f.n_chans + p.ant * f.n_chans + p.chan) * rx_data_len % 2 ^ 32

unfoldable pub struct_index_from : List Slot → ℕ → ℕ → Option ℕ
struct_index_from [] curr k = none
struct_index_from (s ∷ slots) curr k =
    let rest = struct_index_from slots curr (k + 1) in if s.packet_no == curr then some k else rest

-- `none` is the return value -1.
unfoldable pub find_struct_index : List Slot → ℕ → Option ℕ
unfolding struct_index_from
find_struct_index slots curr = struct_index_from slots curr 0

-- The payload of message `k` is copied into the slot's buffer, and the slot wants one packet less.
unfoldable pub store_packet : Memory → ℕ → Place → ℕ → Slot → Worker → Worker
store_packet input k place j s w = record w {
  file = record (w.file) {
    pool =
        on_buffer w.file.pool s.index
          (λ m. copy m (offset w.file place) input (k * rx_msg_len + rx_buff_len) rx_data_len);
  };
  slots = set w.slots j (record s { n_to_full = s.n_to_full -ℤ pos 1 });
}

-- One round of the loop over the packets.
unfoldable pub process_packet : Memory → ℕ → Worker → Worker
unfolding accept find_struct_index store_packet ◌-ℤ◌
process_packet input k w = elim (accept w.file w.ants (header_at input k)) [
  | none ↦ w
  | some place ↦
      elim (find_struct_index w.slots (get_packet_filter (get_pckt_no (header_at input k)))) [
        | none ↦ w
        | some j ↦ elim (get_elem? w.slots j) [
          | none ↦ w
          | some s ↦ store_packet input k place j s w
        ]
      ]
]

-- The loop over the packets, with `left` rounds to go from message `k`.
unfoldable pub process_packets : Memory → ℕ → ℕ → Worker → Worker
unfolding process_packet
process_packets input zero k w = w
process_packets input (suc left) k w = process_packets input left (k + 1) (process_packet input k w)
