-- ===== src/Hashpipe/Blocks/Packets.antt =====
-- half_hashpipe/ata_volt_outer_thread.c: what run() does with a packet of an input block.
pub mod Managing
pub mod Ring
use volt_rec.Base.{
  ℕ, ◌+◌, ◌-◌, ◌*◌, ◌/◌, ◌%◌, ◌^◌, Bool, true, false, ◌&&◌, ◌||◌, not, Option, none, some, List, [],
  ◌∷◌, Result, ok, err, Fault, io, divided_by_zero, ◌>>=◌, ltb, leb, ◌==◌, if◌then◌else◌,
}
use volt_rec.Hashpipe.Blocks.{
  BlockInfo, Finalized, init_block_info, finalize_block, increment_block,
}
use volt_rec.Hashpipe.Blocks.Status.{Status, check_start_stop, update_status}

-- A packet after its parse.
pub record Packet : Type 0 where
  pub payload_size : ℕ
  pub feng_id : ℕ
  pub seq_num : ℕ

-- What is constant while the packets of an input block are processed.
pub record Config : Type 0 where
  pub nants : ℕ
  pub pktidx_per_block : ℕ
  pub eff_block_size : ℕ
  pub n_block : ℕ
  pub dwell_blocks : ℕ

-- The locals of run() that a packet changes, the status buffer and the finalized blocks.
pub record Run : Type 0 where
  pub first : BlockInfo
  pub second : BlockInfo
  pub status_seq_num : ℕ
  pub ndrop_total : ℕ
  pub nlate : ℕ
  pub packet_count : ℕ
  pub status : Status
  pub handed : List Finalized

-- The payload size of the packets that are not ignored.
abbrev pub payload : ℕ
payload = 1024

-- pkt_seq_num / pktidx_per_block: the code means to stop here where the sizes are not known.
unfoldable pub block_number : Config → ℕ → Result ℕ
block_number c seq =
    if c.pktidx_per_block == 0 then err divided_by_zero else ok (seq / c.pktidx_per_block)

-- The update of the status buffer for a packet that starts a block; the division of block_number
-- has succeeded before.
unfoldable pub start_of_block : Config → ℕ → Run → Run
start_of_block c seq r =
    if seq % c.pktidx_per_block == 0 && not (seq == r.status_seq_num)
    then record {
      first = r.first;
      second = r.second;
      status_seq_num = seq;
      ndrop_total = 0;
      nlate = 0;
      packet_count = r.packet_count;
      status = update_status c.pktidx_per_block c.dwell_blocks r.ndrop_total r.nlate seq r.status;
      handed = r.handed;
    }
    else r

-- The packet is of the block after the second working block.
unfoldable pub advance : Config → ℕ → Run → Result Run
advance c pkt_blk_num r =
    let (header, done) = finalize_block r.first in
    do
      second ← increment_block c.n_block r.second pkt_blk_num
      ok record {
        first = r.second;
        second = second;
        status_seq_num = r.status_seq_num;
        ndrop_total = (r.ndrop_total + done.ndrop) % 2 ^ 64;
        nlate = r.nlate;
        packet_count = r.packet_count;
        status = (check_start_stop r.status (r.second.block_num * c.pktidx_per_block)).1;
        handed = header ∷ r.handed;
      }

-- The packet is of no block near the working blocks.
unfoldable pub restart : Config → ℕ → Run → Run
restart c pkt_blk_num r = record {
  first = init_block_info r.first none (pkt_blk_num + 1) (c.eff_block_size / payload);
  second = init_block_info r.second none (pkt_blk_num + 2) (c.eff_block_size / payload);
  status_seq_num = r.status_seq_num;
  ndrop_total = r.ndrop_total;
  nlate = r.nlate;
  packet_count = r.packet_count;
  status = (check_start_stop r.status ((pkt_blk_num + 1) * c.pktidx_per_block)).1;
  handed = r.handed;
}

unfoldable pub late : Run → Run
late r = record {
  first = r.first;
  second = r.second;
  status_seq_num = r.status_seq_num;
  ndrop_total = r.ndrop_total;
  nlate = (r.nlate + 1) % 2 ^ 64;
  packet_count = r.packet_count;
  status = r.status;
  handed = r.handed;
}

unfoldable pub manage_blocks : Config → ℕ → Run → Result Run
unfolding advance restart late
manage_blocks c pkt_blk_num r =
    if pkt_blk_num == r.second.block_num + 1
    then advance c pkt_blk_num r
    else if ltb (pkt_blk_num + 1) r.first.block_num || ltb (r.second.block_num + 1) pkt_blk_num
    then ok (restart c pkt_blk_num r)
    else if pkt_blk_num + 1 == r.first.block_num
    then ok (late r)
    else ok r

unfoldable pub count_in : Config → BlockInfo → BlockInfo
count_in c bi = record {
  block_idx_out = bi.block_idx_out;
  block_num = bi.block_num;
  pktidx_per_block = c.pktidx_per_block;
  pkts_per_block = c.eff_block_size / payload;
  npacket = (bi.npacket + 1) % 2 ^ 32;
  ndrop = bi.ndrop;
}

-- The index of the working block of the packet is a 32-bit word; a negative one reads as 2^31 or
-- more, and is no working block either.
unfoldable pub count_packet : Config → ℕ → Run → Run
unfolding count_in
count_packet c pkt_blk_num r =
    let wblk_idx = (pkt_blk_num + 2 ^ 64 - r.first.block_num) % 2 ^ 32 in
    record {
      first = if wblk_idx == 0 then count_in c r.first else r.first;
      second = if wblk_idx == 1 then count_in c r.second else r.second;
      status_seq_num = r.status_seq_num;
      ndrop_total = r.ndrop_total;
      nlate = r.nlate;
      packet_count = r.packet_count;
      status = r.status;
      handed = r.handed;
    }

unfoldable pub counted : Run → Run
counted r = record {
  first = r.first;
  second = r.second;
  status_seq_num = r.status_seq_num;
  ndrop_total = r.ndrop_total;
  nlate = r.nlate;
  packet_count = (r.packet_count + 1) % 2 ^ 64;
  status = r.status;
  handed = r.handed;
}

-- The body of the loop over the packets of an input block.
unfoldable pub handle_packet : Config → Packet → Run → Result Run
unfolding counted block_number start_of_block manage_blocks count_packet
handle_packet c p r = if not (p.payload_size == payload) || leb c.nants p.feng_id then ok r else do
  pkt_blk_num ← block_number c p.seq_num
  managed ← manage_blocks c pkt_blk_num (start_of_block c p.seq_num (counted r))
  ok (count_packet c pkt_blk_num managed)

-- Before the first packet: the blocks 0 and 1 (`raw` is what the array holds before), with nothing
-- handed off and the counts at 0. status_seq_num is uninitialised: it is the parameter `raw_seq`.
unfoldable pub first_run : BlockInfo → ℕ → Status → Run
first_run raw raw_seq st = record {
  first = init_block_info raw (some 0) 0 0;
  second = init_block_info raw (some 1) 1 0;
  status_seq_num = raw_seq;
  ndrop_total = 0;
  nlate = 0;
  packet_count = 0;
  status = st;
  handed = [];
}

-- The loop over the packets of an input block.
unfoldable pub handle_packets : Config → List Packet → Run → Result Run
unfolding handle_packet
handle_packets c [] r = ok r
handle_packets c (p ∷ ps) r = do next ← handle_packet c p r; handle_packets c ps next
