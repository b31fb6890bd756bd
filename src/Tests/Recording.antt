-- ===== src/Tests/Recording.antt =====
-- full_custom/processing_thread.c and file_thread.c at concrete inputs: the start of a recording of
-- two antennas and three channel packets.
use volt_rec.Base.{
  ℕ, ◌+◌, ◌*◌, ◌/◌, ◌<◌, ◌≤◌, ◌≡◌, refl, sym, ap, ◌∙◌, none, Option, ltb, ◌==◌, ◌≢◌, ◌⊎◌, ◌↔◌, some,
  [], ◌∷◌, arith, Memory, Safe, Returns, true, get_elem?, get_or, replicate, if◌then◌else◌,
}
use volt_rec.Base.Int.{pos, ◌-ℤ◌}
use volt_rec.Formats.{
  rx_data_len, rx_buff_len, rx_msg_len, file_buffer_size, get_chan_no, get_ant_no, get_pckt_no,
  get_version_no, is_version_volt, get_packet_filter,
}
use volt_rec.Formats.Layout.{header_word, header_word_fields}
use volt_rec.Pool.{Pool, init_udp_buff, fetch_empty_buffer, find_empty, empty_from}
use volt_rec.Antennas.{free, get_ant_index}
use volt_rec.Worker.State.{
  FileBuff, Slot, Worker, bad_config, start_worker, open_slots, data_len_out,
}
use volt_rec.Worker.Packets.{
  header_at, scan_headers, first_loop, Place, accept, offset, find_struct_index, store_packet,
}
use volt_rec.Worker.Round.{worker_round}
use volt_rec.Worker.Placement.{packet_index, offset_lem, offset_apart}
use volt_rec.Worker.Invariant.{Inv}
use volt_rec.Worker.Start.{Opened, start_worker-Opened, first_loop-Inv}
use volt_rec.Worker.Steps.{worker_round-Inv}
use volt_rec.Worker.Room.{count_empty}
use volt_rec.Worker.Progress.{worker_round-Returns}
use volt_rec.Worker.Copying.{Lands, store_packet_lem}
use volt_rec.FileWriter.{Disk, Writer}
use volt_rec.Converter.Header.{full_counts}

abbrev blank : Memory
blank i = 0

abbrev fresh : Pool
fresh = record {
  store = replicate 20 blank;
  data_len = replicate 20 0;
  order_no = replicate 20 (pos 0);
  n_ready = 0;
  no_buffers = 20;
}

abbrev two_ants : FileBuff
two_ants = record {
  n_ants = 2;
  ant_numbers = [];
  n_chans = 3;
  first_chan = 256;
  packet_start = 0;
  pool = fresh;
}

abbrev raw_slot : Slot
raw_slot = record { packet_no = 0; index = 0; order = 0; n_to_full = pos 0 }

start_worker_example : (w : Worker) × (start_worker fresh two_ants raw_slot 0 0 ≡ some w) × Opened w
unfolding init_udp_buff bad_config
start_worker_example = start_worker-Opened fresh fresh two_ants raw_slot 0 0 0 blank refl refl

-- The thread after the start, and after an input buffer with one message of zeros.
unfoldable started : Worker
started = start_worker_example.0

unfoldable numbered : Worker
unfolding first_loop
numbered = first_loop blank 1 started

first_loop_example :
    (k : ℕ) × (k < 1)
    × ((j : ℕ) → j < 1 → get_pckt_no (header_at blank k) ≤ get_pckt_no (header_at blank j))
    × (numbered.file.packet_start ≡ get_pckt_no (header_at blank k) / 128 * 128)
    × Inv (numbered.file.packet_start) numbered
unfolding numbered started first_loop scan_headers
first_loop_example =
    first_loop-Inv blank 1 started (omega arith) start_worker_example.2 (omega arith)

numbered-Inv : Inv (numbered.file.packet_start) numbered
numbered-Inv = first_loop_example.4

worker_round_example : Safe (Inv (numbered.file.packet_start)) (worker_round true numbered)
unfolding numbered first_loop
worker_round_example = worker_round-Inv true (numbered.file.packet_start) numbered numbered-Inv refl

-- Fourteen of the twenty buffers are empty after the start.
abbrev room_of : Option Worker → ℕ
room_of none = 0
room_of (some w) = count_empty w.file.pool.order_no

room_after_start : room_of (start_worker fresh two_ants raw_slot 0 0) ≡ 14
unfolding start_worker open_slots fetch_empty_buffer find_empty empty_from bad_config
room_after_start = refl

started_room : count_empty started.file.pool.order_no ≡ 14
unfolding started
started_room = ap room_of (sym start_worker_example.1) ∙ room_after_start

worker_round-Returns_example :
    Returns (Inv (numbered.file.packet_start)) (worker_round true numbered)
unfolding numbered started first_loop
worker_round-Returns_example =
    worker_round-Returns true (numbered.file.packet_start) numbered numbered-Inv refl
      (omega (arith, started_room))

abbrev place : Place
place = record { rest = 5; ant = 1; chan = 2 }

abbrev other_place : Place
other_place = record { rest = 5; ant = 0; chan = 2 }

offset_example :
    (offset two_ants place ≡ packet_index two_ants place * rx_data_len)
    × (offset two_ants place + rx_data_len ≤ data_len_out two_ants)
    × (data_len_out two_ants ≤ file_buffer_size)
unfolding bad_config
offset_example =
    offset_lem two_ants place refl
      (record { rest_in = omega arith; ant_in = omega arith; chan_in = omega arith })

ant_of : Place → ℕ
ant_of p = p.ant

places_apart : place ≢ other_place
unfolding ant_of
places_apart e = let same = ap ant_of e in omega (arith, same)

offset_apart_example :
    (offset two_ants place + rx_data_len ≤ offset two_ants other_place)
    ⊎ (offset two_ants other_place + rx_data_len ≤ offset two_ants place)
unfolding bad_config
offset_apart_example =
    offset_apart two_ants place other_place refl
      (record { rest_in = omega arith; ant_in = omega arith; chan_in = omega arith })
      (record { rest_in = omega arith; ant_in = omega arith; chan_in = omega arith }) places_apart

header_word_example :
    (get_ant_no (header_word 9 512 640 128) ≡ 9)
    × (get_chan_no (header_word 9 512 640 128) ≡ 512)
    × (get_pckt_no (header_word 9 512 640 128) ≡ 640)
    × (get_version_no (header_word 9 512 640 128) ≡ 128)
    × ((is_version_volt (header_word 9 512 640 128) ≡ true) ↔ (128 ≤ 128))
header_word_example =
    header_word_fields 9 512 640 128 (omega arith) (omega arith) (omega arith) (omega arith)

-- A packet whose antenna has the number 0, of packet number 0, in a recording with one slot.
abbrev one_slot : Slot
one_slot = record { packet_no = 0; index = 1; order = 1; n_to_full = pos 256 }

abbrev one_ant : FileBuff
one_ant = record two_ants { first_chan = 0; n_ants = 1 }

abbrev receiving : Worker
receiving = record {
  udp = fresh;
  file = one_ant;
  ants = 0 ∷ free ∷ [];
  slots = one_slot ∷ [];
  next_order = 2;
  next_packet_no = 128;
  last_sent = 0;
  n_missing = 0;
  first_loop_done = true;
}

-- The first byte of a message is the highest byte of its header, which holds the version.
abbrev volt_message : Memory
volt_message i = if i == 0 then 128 else if ltb i 8 then 0 else 3

abbrev first_place : Place
first_place = record { rest = 0; ant = 0; chan = 0 }

accepted_here : accept one_ant (0 ∷ free ∷ []) (header_at volt_message 0) ≡ some first_place
unfolding accept get_ant_index
accepted_here = refl

found_here : find_struct_index (one_slot ∷ []) 0 ≡ some 0
unfolding find_struct_index
found_here = refl

abbrev landed : Lands volt_message 0 receiving
landed = record {
  place = first_place;
  j = 0;
  s = one_slot;
  accepted = accepted_here;
  found = found_here;
  at_j = refl;
}

abbrev after_packet : Worker
after_packet = store_packet volt_message 0 first_place 0 one_slot receiving

store_packet_example :
    (0 ≡ get_packet_filter (get_pckt_no (header_at volt_message 0)))
    × ((b : ℕ)
        → b < rx_data_len
        → get_or after_packet.file.pool.store 1 (λ _. 0) (offset one_ant first_place + b)
          ≡ volt_message (0 * rx_msg_len + rx_buff_len + b))
    × ((b : ℕ)
        → (b < offset one_ant first_place) ⊎ (offset one_ant first_place + rx_data_len ≤ b)
        → get_or after_packet.file.pool.store 1 (λ _. 0) b
          ≡ get_or receiving.file.pool.store 1 (λ _. 0) b)
    × ((i : ℕ)
        → 1 ≢ i
        → get_or after_packet.file.pool.store i (λ _. 0)
          ≡ get_or receiving.file.pool.store i (λ _. 0))
    × (after_packet.file.pool.order_no ≡ receiving.file.pool.order_no)
    × (get_elem? after_packet.slots 0 ≡ some (record one_slot { n_to_full = pos 256 -ℤ pos 1 }))
    × ((i : ℕ) → 0 ≢ i → get_elem? after_packet.slots i ≡ get_elem? receiving.slots i)
    × (after_packet ≡ record receiving {
      file = record one_ant { pool = record fresh { store = after_packet.file.pool.store } };
      slots = after_packet.slots;
    })
store_packet_example = store_packet_lem volt_message 0 receiving landed (omega arith)

-- Every call of the system succeeds in full.
abbrev disk : Disk
disk = record {
  opens = λ _. true;
  header_write = λ _. full_counts one_ant;
  data_write = λ _. pos 1000;
}

abbrev writer : Writer
writer = record {
  consec_file = 0;
  n_misses = 0;
  last_ord = 0;
  file = record one_ant {
    ant_numbers = 7 ∷ [];
    pool = record fresh { order_no = pos 1 ∷ []; data_len = 1000 ∷ []; n_ready = 1 };
  };
  files = [];
}

-- A recording that starts at packet 640 has had a gap before the order number 5, and continues at the
-- order number 9.
abbrev gap_writer : Writer
gap_writer = record writer { last_ord = 6; file = record (writer.file) { packet_start = 1279 } }
