-- ===== src/Guppi/Databuf.antt =====
-- half_hashpipe/hpguppi_databuf.{c,h}: the shared memory of the blocks. The memory starts at the
-- first block; hashpipe_databuf_create is a parameter: the memory that it attaches, if any.
pub mod Headers
use volt_rec.Base.{
  ℕ, zero, suc, ◌+◌, ◌*◌, Option, none, some, Memory, copy, fill, ltb, if◌then◌else◌, List, [], ◌∷◌,
}
use volt_rec.Base.Int.{ℤ, pos, negsuc}

abbrev pub n_input_blocks : ℕ
n_input_blocks = 24

abbrev pub block_hdr_size : ℕ
block_hdr_size = 5 * 80 * 512

abbrev pub block_data_size : ℕ
block_data_size = 128 * 1024 * 1024

abbrev pub block_size : ℕ
block_size = block_hdr_size + block_data_size

-- The range test is `n_block < block_id`; none is NULL.
unfoldable pub databuf_header : ℕ → ℤ → Option ℕ
databuf_header n_block (pos block_id) =
    if ltb n_block block_id then none else some (block_id * block_size)
databuf_header n_block (negsuc m) = none

unfoldable pub databuf_data : ℕ → ℤ → Option ℕ
databuf_data n_block (pos block_id) =
    if ltb n_block block_id then none else some (block_id * block_size + block_hdr_size)
databuf_data n_block (negsuc m) = none

-- "END", padded with spaces to 80 characters.
abbrev pub end_key : Memory
end_key zero = 69
end_key (suc zero) = 78
end_key (suc (suc zero)) = 68
end_key (suc (suc (suc k))) = if ltb k 77 then 32 else 0

unfoldable pub zero_blocks : ℕ → ℕ → Memory → Memory
zero_blocks zero i d = d
zero_blocks (suc left) i d = zero_blocks left (i + 1) (fill d (i * block_size) 0 block_size)

unfoldable pub init_headers : ℕ → ℕ → Memory → Option Memory
unfolding databuf_header
init_headers zero i d = some d
init_headers (suc left) i d = elim (databuf_header n_input_blocks (pos i)) [
  | none ↦ none
  | some hdr ↦ init_headers left (i + 1) (copy d hdr end_key 0 80)
]

unfoldable pub input_databuf_create : Option Memory → Option Memory
unfolding zero_blocks init_headers
input_databuf_create none = none
input_databuf_create (some d) = init_headers n_input_blocks 0 (zero_blocks n_input_blocks 0 d)
