-- ===== src/Hashpipe/Blocks.antt =====
-- half_hashpipe/ata_volt_outer_thread.c: the two working blocks, and what run() does with them for
-- each packet of an input block. A block of the shared memory is named by its index; what is handed
-- to the downstream thread is the list of finalized headers, the newest first. Packet and block
-- numbers do not leave the 64-bit words; a block number that the code compares less one is compared
-- here with the other side plus one. The parse of a packet is in the module Spead and the copy of its
-- payload in the module Mkfeng: here a packet is its payload size, antenna and packet index.
pub mod Status
pub mod Packets
use volt_rec.Base.{
  ℕ, zero, suc, ◌+◌, ◌-◌, ◌*◌, ◌/◌, ◌%◌, ◌^◌, Bool, true, false, ◌&&◌, ◌||◌, Option, none, some,
  List, [], ◌∷◌, Result, ok, err, Fault, io, ◌>>=◌, ltb, leb, ◌==◌, if◌then◌else◌,
}

-- `block_info`, without the pointers to the two shared memories. A negative block_idx_out, which
-- no caller sets, is left out.
pub record BlockInfo : Type 0 where
  pub block_idx_out : ℕ
  pub block_num : ℕ
  pub pktidx_per_block : ℕ
  pub pkts_per_block : ℕ
  pub npacket : ℕ
  pub ndrop : ℕ

-- The fields that finalize_block writes to the header of the block that it sets filled.
pub record Finalized : Type 0 where
  pub block : ℕ
  pub pktidx : ℕ
  pub npkt : ℕ
  pub dropped : ℕ
  pub expected : ℕ

unfoldable pub reset_block_info_stats : BlockInfo → BlockInfo
reset_block_info_stats bi = record {
  block_idx_out = bi.block_idx_out;
  block_num = bi.block_num;
  pktidx_per_block = bi.pktidx_per_block;
  pkts_per_block = bi.pkts_per_block;
  npacket = 0;
  ndrop = 0;
}

-- `none` for the index is the argument -1.
unfoldable pub init_block_info : BlockInfo → Option ℕ → ℕ → ℕ → BlockInfo
unfolding reset_block_info_stats
init_block_info bi idx num pkts = reset_block_info_stats record {
  block_idx_out = elim idx [ none ↦ bi.block_idx_out | some i ↦ i ];
  block_num = num;
  pktidx_per_block = bi.pktidx_per_block;
  pkts_per_block = if ltb 0 pkts then pkts else bi.pkts_per_block;
  npacket = bi.npacket;
  ndrop = bi.ndrop;
}

-- The number of missing packets is a 32-bit word. Also returned: the block's `block_info` after it.
unfoldable pub finalize_block : BlockInfo → Finalized × BlockInfo
finalize_block bi =
    let missing =
      if ltb bi.npacket bi.pkts_per_block
      then (bi.pkts_per_block - bi.npacket) % 2 ^ 32
      else bi.ndrop in
    (
      record {
        block = bi.block_idx_out;
        pktidx = bi.block_num * bi.pktidx_per_block;
        npkt = bi.npacket;
        dropped = missing;
        expected = bi.pkts_per_block;
      },
      record {
        block_idx_out = bi.block_idx_out;
        block_num = bi.block_num;
        pktidx_per_block = bi.pktidx_per_block;
        pkts_per_block = bi.pkts_per_block;
        npacket = bi.npacket;
        ndrop = missing;
      },
    )

-- `n_block` is the number of blocks of the output memory; with none the thread exits.
unfoldable pub increment_block : ℕ → BlockInfo → ℕ → Result BlockInfo
unfolding reset_block_info_stats
increment_block n_block bi num =
    if n_block == 0
    then err io
    else ok (
        reset_block_info_stats record {
          block_idx_out = (bi.block_idx_out + 1) % n_block;
          block_num = num;
          pktidx_per_block = bi.pktidx_per_block;
          pkts_per_block = bi.pkts_per_block;
          npacket = bi.npacket;
          ndrop = bi.ndrop;
        })
