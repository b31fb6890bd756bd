-- ===== src/Hashpipe/Blocks/Packets/Ring.antt =====
-- The blocks of the output memory go to the downstream thread in the order of the ring.
use volt_rec.Base.{
  ℕ, ◌+◌, ◌/◌, ◌%◌, ◌^◌, ◌<◌, ◌≤◌, ◌≡◌, refl, true, List, [], ◌∷◌, Result, ok, true,
}
use native.Mathlib.Nat
use volt_rec.Hashpipe.Blocks.{BlockInfo, Finalized, finalize_block}
use volt_rec.Hashpipe.Blocks.Status.{Status}
use volt_rec.Hashpipe.Blocks.Packets.{Packet, Config, Run}

-- The block indices of the headers, the newest first, count down around the ring to `next`.
abbrev pub InRing : ℕ → ℕ → List Finalized → Type 0
InRing n_block next [] = Unit
InRing n_block next (h ∷ hs) = (next ≡ (h.block + 1) % n_block) × InRing n_block h.block hs

-- The working blocks are consecutive blocks of the sequence and of the ring, and what is handed off
-- is the blocks of the ring before the first of them.
abbrev pub IsRun : ℕ → Run → Type 0
IsRun n_block r =
    (r.second.block_num ≡ r.first.block_num + 1)
    × (r.second.block_idx_out ≡ (r.first.block_idx_out + 1) % n_block)
    × InRing n_block r.first.block_idx_out r.handed

finalize-block : (bi : BlockInfo) → (finalize_block bi).0.block ≡ bi.block_idx_out
unfolding finalize_block
finalize-block bi = refl

-- The packets' block numbers are below 2^62.
abbrev pub InRange : Config → List Packet → Type 0
InRange c [] = Unit
InRange c (p ∷ ps) = (p.seq_num / c.pktidx_per_block < 2 ^ 62) × InRange c ps

Next : ℕ → Result Run → Type 0
Next n_block result =
    (r' : Run) × (result ≡ ok r') × (r'.first.block_num ≤ 2 ^ 62) × IsRun n_block r'
