-- ===== src/Tests/HashpipeRuns.antt =====
-- half_hashpipe at concrete inputs: three antennas of two channel packets, blocks of four packet
-- indices, and a memory of three blocks.
use volt_rec.Base.{
  ℕ, zero, suc, ◌+◌, ◌-◌, ◌*◌, ◌/◌, ◌%◌, ◌^◌, ◌<◌, ◌≤◌, ◌≡◌, refl, ◌≢◌, ◌⊎◌, ◌↔◌, none, some, [],
  ◌∷◌, arith, Memory, ◌==◌, if◌then◌else◌, true, false, get_elem?, length-replicate,
}
use mathlib.Core.List.{◌++◌}
use volt_rec.Hashpipe.ObsInfo.{
  ObsInfo, max_ants, get_ata_ant_index, prevpow2, bytes_per_pktidx, ata_pktidx_per_block,
  ata_block_size,
}
use volt_rec.Hashpipe.ObsInfo.Sizes.{ata_block_size_lem}
use volt_rec.Hashpipe.ObsInfo.Index.{get_ata_ant_index_lem}
use volt_rec.Hashpipe.Jobs.{
  PacketJob, no_job, num_entries, PacketJobQueue, push_job, pop_job, wait_for_job_completion,
  new_queue,
}
use volt_rec.Hashpipe.Jobs.Threads.{fresh, after, push, wait_for_job_completion_iff}
use volt_rec.Hashpipe.Jobs.Fifo.{IsQueue, contents, jobs_fifo}
use volt_rec.Hashpipe.Blocks.{BlockInfo}
use volt_rec.Hashpipe.Blocks.Status.{Status, listen, record_state, check_start_stop, update_status}
use volt_rec.Hashpipe.Blocks.Status.Dwell.{dwell_lem}
use volt_rec.Hashpipe.Blocks.Packets.{Packet, Config, Run}
use volt_rec.Hashpipe.Mkfeng.{
  MkObsInfo, MkFengSpeadInfo, mk_pktidx_per_block, mk_pktidx, mk_block_chan,
  copy_packet_data_to_databuf, heapset_size,
}
use volt_rec.Hashpipe.Spead.{item_id, item_value, mk_parse_mkfeng_ibv_spead_packet}
use volt_rec.Hashpipe.Spead.Items.{field_of, timestamp_item, mk_parse_lem}
use volt_rec.Hashpipe.Mkfeng.Rows.{copy_packet_lem}

abbrev three_ants : ObsInfo
three_ants = record { nchan = 2; nants = 3; schan = 0; antids = 11 ∷ 12 ∷ 13 ∷ 65535 ∷ [] }

prevpow2_run : prevpow2 6 ≡ 4
unfolding prevpow2
prevpow2_run = refl

ata_block_size_example :
    (k : ℕ) × (ata_pktidx_per_block 1000000 three_ants ≡ some (2 ^ k))
    × (ata_block_size 1000000 three_ants ≡ some (2 ^ k * bytes_per_pktidx three_ants))
    × (2 ^ k * bytes_per_pktidx three_ants ≤ 1000000)
    × (1000000 < 2 * (2 ^ k * bytes_per_pktidx three_ants))
unfolding bytes_per_pktidx
ata_block_size_example =
    ata_block_size_lem 1000000 three_ants (omega arith) (omega arith) (omega arith)

get_ata_ant_index_example :
    ((max_ants ≤ 3) × (get_ata_ant_index three_ants 12 ≡ none))
    ⊎ ((3 < max_ants)
        × (get_ata_ant_index three_ants 12 ≡ none)
        × ((i : ℕ) → i < 3 → get_elem? (three_ants.antids) i ≢ some 12))
    ⊎ ((i : ℕ) × (get_ata_ant_index three_ants 12 ≡ some i)
        × (i < 3)
        × (get_elem? (three_ants.antids) i ≡ some 12)
        × ((j : ℕ) → j < i → get_elem? (three_ants.antids) j ≢ some 12))
get_ata_ant_index_example = get_ata_ant_index_lem three_ants 12 refl

abbrev one_job : PacketJob
one_job = record { src = 1; dst = 2; row_len = 4; ostride = 16; nbytes = 8 }

jobs_fifo_example :
    IsQueue (push_job new_queue one_job).1
    × (((0 < num_entries - 1)
          × ((push_job new_queue one_job).0 ≡ false)
          × (contents (push_job new_queue one_job).1 ≡ contents new_queue ++ (one_job ∷ [])))
        ⊎ ((0 ≡ num_entries - 1) × (push_job new_queue one_job ≡ (true, new_queue))))
    × (((contents new_queue ≡ []) × (pop_job new_queue ≡ none))
        ⊎ ((oldest : PacketJob) × (rest : PacketJobQueue) × (pop_job new_queue
              ≡ some (oldest, rest))
            × (contents new_queue ≡ oldest ∷ contents rest)
            × IsQueue rest))
jobs_fifo_example =
    jobs_fifo new_queue one_job
      (length-replicate num_entries no_job, omega arith, omega arith, omega arith)

abbrev config : Config
config = record {
  nants = 3;
  pktidx_per_block = 4;
  eff_block_size = 8192;
  n_block = 3;
  dwell_blocks = 2;
}

abbrev status : Status
status = record {
  pktidx = 0;
  pktstart = 6;
  pktstop = 0;
  ndrop = 0;
  nlate = 0;
  sttvalid = 0;
  daqstate = listen;
}

abbrev raw_block : BlockInfo
raw_block = record {
  block_idx_out = 0;
  block_num = 0;
  pktidx_per_block = 0;
  pkts_per_block = 0;
  npacket = 0;
  ndrop = 0;
}

abbrev packet : ℕ → Packet
packet seq = record { payload_size = 1024; feng_id = 1; seq_num = seq }

abbrev at_start : Run
at_start = record {
  first = record raw_block { block_num = 5; block_idx_out = 1 };
  second = record raw_block { block_num = 6; block_idx_out = 2 };
  status_seq_num = 0;
  ndrop_total = 0;
  nlate = 0;
  packet_count = 0;
  status = status;
  handed = [];
}

dwell_example :
    ((check_start_stop (update_status 4 2 0 0 8 status) (2 * 4)).0 ≡ record_state)
    ↔ ((6 / 4 ≤ 2) × (2 < 6 / 4 + 2))
dwell_example = dwell_lem 4 2 0 0 8 2 status (omega arith) (omega arith)

abbrev mk_obs : MkObsInfo
mk_obs = record {
  fenchan = 4096;
  nants = 3;
  nstrm = 1;
  hntime = 16;
  hnchan = 8;
  hclocks = 100;
  schan = 8;
}

-- Antenna 2, channel 10: eight rows of it start at the row 2 * 8 + 2 of the block.
abbrev mk_packet : MkFengSpeadInfo
mk_packet = record {
  heap_offset = 0;
  payload_size = 256;
  timestamp = 700;
  feng_id = 2;
  feng_chan = 10;
}

copy_packet_example :
    (m : Memory) × (copy_packet_data_to_databuf true 256 7000 4 mk_obs mk_packet (λ i. i) (λ _. 0)
      ≡ some m)
    × (m (((mk_block_chan mk_obs mk_packet + 0 / 64 + 1) * 4 + 7 % 4) * 64 + 5) ≡ 1 * 64 + 5)
unfolding mk_pktidx_per_block mk_pktidx mk_block_chan prevpow2 heapset_size
copy_packet_example =
    copy_packet_lem true 256 7000 4 7 1 5 mk_obs mk_packet (λ i. i) (λ _. 0) refl refl (omega arith)
      (omega arith) (omega arith) (omega arith) refl (omega arith) (omega arith) (omega arith)
      (omega arith) (omega arith)

-- One job is pushed.
wait_for_job_completion_example :
    (wait_for_job_completion (push_job new_queue one_job).1 ≡ true)
    ↔ ((contents (push_job new_queue one_job).1 ≡ []) × (zero ≡ 0))
wait_for_job_completion_example = wait_for_job_completion_iff (after fresh (push one_job))

-- A header of two items: the packet's timestamp and its antenna.
abbrev spead_header : Memory
spead_header i =
    if i == 7
    then 2
    else if i == 8
    then 150
    else if i == 15
    then 77
    else if i == 16
    then 193
    else if i == 17
    then 1
    else 0

no_later_item : (i : ℕ) → 0 < i → i < 2 → item_id spead_header (0 + 8 + 8 * i) ≢ 150
no_later_item zero low high = absurd (omega arith)
no_later_item (suc zero) low high = λ q. omega arith
no_later_item (suc (suc i)) low high = absurd (omega arith)

mk_parse_example :
    field_of timestamp_item (mk_parse_mkfeng_ibv_spead_packet spead_header 0 mk_packet)
    ≡ item_value spead_header (8 + 8 * 0)
mk_parse_example =
    mk_parse_lem timestamp_item spead_header 0 0 mk_packet (omega arith) refl no_later_item
