-- ===== src/Hashpipe/Blocks/Packets/Managing.antt =====
-- What the working blocks are after a packet.
use volt_rec.Base.{ℕ, ◌+◌, ◌%◌, ◌^◌, ◌<◌, ◌≡◌, ◌⊎◌, ◌∷◌, List, Result, ok, ◌>>=◌}
use volt_rec.Hashpipe.Blocks.{BlockInfo, Finalized, reset_block_info_stats, finalize_block}
use volt_rec.Hashpipe.Blocks.Packets.{Config, Run, manage_blocks, count_packet}

-- What a packet of block `b` makes of the working blocks `first` and `second` and of the blocks
-- `handed` to the downstream thread.
abbrev pub Outcome : ℕ → ℕ → BlockInfo → BlockInfo → List Finalized → Run → Type 0
Outcome n_block b first second handed r =
    ((b ≡ first.block_num + 2)
      × (r.handed ≡ (finalize_block first).0 ∷ handed)
      × (r.first ≡ second)
      × (r.second.block_num ≡ b)
      × (r.second.block_idx_out ≡ (second.block_idx_out + 1) % n_block)
      × (r.second.npacket ≡ 1))
    ⊎ ((b ≡ first.block_num + 1)
        × (r.handed ≡ handed)
        × (r.first ≡ first)
        × (r.second.block_num ≡ b)
        × (r.second.block_idx_out ≡ second.block_idx_out)
        × (r.second.npacket ≡ (second.npacket + 1) % 2 ^ 32))
    ⊎ ((b ≡ first.block_num)
        × (r.handed ≡ handed)
        × (r.first.block_num ≡ b)
        × (r.first.block_idx_out ≡ first.block_idx_out)
        × (r.first.npacket ≡ (first.npacket + 1) % 2 ^ 32)
        × (r.second ≡ second))
    ⊎ ((b + 1 ≡ first.block_num) × (r.handed ≡ handed) × (r.first ≡ first) × (r.second ≡ second))
    ⊎ (((b + 1 < first.block_num) ⊎ (first.block_num + 2 < b))
        × (r.handed ≡ handed)
        × (r.first.block_num ≡ b + 1)
        × (r.second.block_num ≡ b + 2)
        × (r.first.block_idx_out ≡ first.block_idx_out)
        × (r.second.block_idx_out ≡ second.block_idx_out)
        × (r.first.npacket ≡ 0)
        × (r.second.npacket ≡ 0))

-- The two steps of a packet that is not ignored.
unfoldable managed : Config → ℕ → Run → Result Run
managed c b r = do m ← manage_blocks c b r; ok (count_packet c b m)

-- After a packet: the result, in order, and what became of the blocks.
abbrev pub After : ℕ → ℕ → BlockInfo → BlockInfo → List Finalized → Result Run → Type 0
After n_block b first second handed result =
    (r' : Run) × (result ≡ ok r')
    × (r'.second.block_num ≡ r'.first.block_num + 1)
    × Outcome n_block b first second handed r'

num : BlockInfo → ℕ
num bi = bi.block_num

-- The blocks after the working blocks have moved on by one.
unfoldable advanced : Config → ℕ → Run → BlockInfo
advanced c b r = reset_block_info_stats record {
  block_idx_out = (r.second.block_idx_out + 1) % c.n_block;
  block_num = b;
  pktidx_per_block = r.second.pktidx_per_block;
  pkts_per_block = r.second.pkts_per_block;
  npacket = r.second.npacket;
  ndrop = r.second.ndrop;
}
