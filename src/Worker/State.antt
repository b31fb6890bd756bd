-- ===== src/Worker/State.antt =====
-- full_custom/processing_thread.c and data_formats.h: the state of the sorting thread. It fills
-- several file buffers at a time, one for each block of 128 packet numbers.
use volt_rec.Base.{
  ℕ, zero, suc, ◌+◌, ◌*◌, Bool, false, ◌||◌, List, [], ◌∷◌, Option, none, some, ltb, Memory, clear,
  get_or, set, replicate, if◌then◌else◌,
}
use volt_rec.Base.Int.{ℤ, pos}
use volt_rec.Formats.{
  max_no_ants, max_channel_packets, time_int_per_buffer, rx_data_len, n_file_buffers_at_a_time,
}
use volt_rec.Pool.{Pool, fetch_empty_buffer}
use volt_rec.Antennas.{free}

-- `__fileBuffStruct`
pub record FileBuff : Type 0 where
  pub n_ants : ℕ
  pub ant_numbers : List ℕ
  pub n_chans : ℕ
  pub first_chan : ℕ
  pub packet_start : ℕ
  pub pool : Pool

-- `__work_local_struct`: a file buffer that is being filled. `index` names its memory too.
pub record Slot : Type 0 where
  pub packet_no : ℕ
  pub index : ℕ
  pub order : ℕ
  pub n_to_full : ℤ

-- The local variables of worker_work that live from one round of its loop to the next, and the
-- two pools. `last_sent` holds the 64 bits of the int64_t lastSentPacketNo.
pub record Worker : Type 0 where
  pub udp : Pool
  pub file : FileBuff
  pub ants : List ℕ
  pub slots : List Slot
  pub next_order : ℕ
  pub next_packet_no : ℕ
  pub last_sent : ℕ
  pub n_missing : ℕ
  pub first_loop_done : Bool

-- The test of worker_work on its arguments; the test on the two constants is false.
unfoldable pub bad_config : FileBuff → Bool
bad_config f =
    ltb f.n_ants 1
    || ltb max_no_ants f.n_ants
    || ltb f.n_chans 1
    || ltb max_channel_packets f.n_chans

abbrev pub packets_per_block : FileBuff → ℕ
packets_per_block f = f.n_ants * f.n_chans * time_int_per_buffer

abbrev pub data_len_out : FileBuff → ℕ
data_len_out f = packets_per_block f * rx_data_len

-- A function of the memory of one buffer is applied in place.
abbrev pub on_buffer : Pool → ℕ → (Memory → Memory) → Pool
on_buffer p i f = record p { store = set p.store i (f (get_or p.store i (λ _. 0))) }

-- The loop that takes the first file buffers, with `left` rounds to go from index `k`. Where no
-- buffer is empty the C loop sleeps, and goes on to the next index: that slot stays `raw`.
unfoldable pub open_slots : FileBuff → Slot → ℕ → ℕ → Pool → List Slot × Pool
open_slots f raw zero k p = ([], p)
open_slots f raw (suc left) k p = elim (fetch_empty_buffer p) [
  | none ↦ let (slots, after) = open_slots f raw left (k + 1) p in (raw ∷ slots, after)
  | some (i, p') ↦
      let (slots, after) =
        open_slots f raw left (k + 1) (on_buffer p' i (λ m. clear m (data_len_out f))) in
      (
        record {
          packet_no = raw.packet_no;
          index = i;
          order = k + 1;
          n_to_full = pos (packets_per_block f);
        }
            ∷ slots,
        after,
      )
]

-- worker_work up to its loop; `none` where it refuses its arguments. The last three parameters are
-- what the uninitialised variables hold.
unfoldable pub start_worker : Pool → FileBuff → Slot → ℕ → ℕ → Option Worker
unfolding bad_config open_slots
start_worker udp f raw raw_next raw_last =
    let (slots, pool) = open_slots f raw n_file_buffers_at_a_time 0 f.pool in
    if bad_config f
    then none
    else some (record {
      udp = udp;
      file = record f { pool = pool };
      ants = replicate max_no_ants free;
      slots = slots;
      next_order = n_file_buffers_at_a_time + 1;
      next_packet_no = raw_next;
      last_sent = raw_last;
      n_missing = 0;
      first_loop_done = false;
    })
