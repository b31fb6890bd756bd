-- ===== src/Guppi/Databuf/Headers.antt =====
-- The headers of a new shared memory, and the range of a block number.
use volt_rec.Base.{
  ℕ, zero, suc, ◌+◌, ◌*◌, ◌%◌, ◌<◌, ◌≤◌, ◌≡◌, refl, ap, ◌∙◌, ◌⊎◌, inl, inr, arith, none, some,
  Memory, copy, fill, ltb, leb, ◌&&◌, if◌then◌else◌, copy_inside, copy_outside, below_or,
}
use volt_rec.Base.Int.{pos, negsuc}
use volt_rec.Guppi.Databuf.{
  n_input_blocks, block_hdr_size, block_size, databuf_header, databuf_data, end_key, zero_blocks,
  init_headers, input_databuf_create,
}

zero_blocks-same :
    (left i : ℕ) (d : Memory) (x : ℕ)
    → (x < i * block_size) ⊎ ((i + left) * block_size ≤ x)
    → zero_blocks left i d x ≡ d x
unfolding zero_blocks
zero_blocks-same zero i d x h = refl
zero_blocks-same (suc left) i d x h =
    zero_blocks-same left (i + 1) (fill d (i * block_size) 0 block_size) x (ground arith)
    ∙ ground arith

zero_blocks-zero :
    (left i : ℕ) (d : Memory) (x : ℕ)
    → i * block_size ≤ x
    → x < (i + left) * block_size
    → zero_blocks left i d x ≡ 0
unfolding zero_blocks
zero_blocks-zero zero i d x h l = absurd (omega arith)
zero_blocks-zero (suc left) i d x h l = elim (below_or ((i + 1) * block_size) x) [
  | inl here ↦
      zero_blocks-same left (i + 1) (fill d (i * block_size) 0 block_size) x (inl here)
      ∙ ground arith
  | inr behind ↦
      zero_blocks-zero left (i + 1) (fill d (i * block_size) 0 block_size) x behind (omega arith)
]

-- Byte `k` of the block `b`, after the header of the block `i` was set.
header_byte :
    (i b k : ℕ) (d : Memory)
    → k < block_size
    → (if leb (i + 1) b && ltb k 80
        then end_key k
        else copy d (i * block_size) end_key 0 80 (b * block_size + k))
      ≡ (if leb i b && ltb k 80 then end_key k else d (b * block_size + k))
header_byte i b k d h = elim (below_or i b) [
  | inl before ↦
      let same =
        copy_outside d (i * block_size) end_key 0 80 (b * block_size + k) (inl (omega arith)) in
      ground arith
  | inr from ↦ elim (below_or (i + 1) b) [
    | inr later ↦
        let same =
          copy_outside d (i * block_size) end_key 0 80 (b * block_size + k) (inr (omega arith)) in
        ground arith
    | inl here ↦ elim (below_or 80 k) [
      | inl key ↦
          let place : b * block_size + k ≡ i * block_size + k = omega arith in
          let start : 0 + k ≡ k = omega arith in
          let same =
            ap (copy d (i * block_size) end_key 0 80) place
            ∙ copy_inside d (i * block_size) end_key 0 80 k key
            ∙ ap end_key start in
          ground arith
      | inr rest ↦
          let same =
            copy_outside d (i * block_size) end_key 0 80 (b * block_size + k) (inr (omega arith)) in
          ground arith
    ]
  ]
]

header_inside :
    (n_block i : ℕ) → i ≤ n_block → databuf_header n_block (pos i) ≡ some (i * block_size)
unfolding databuf_header
header_inside n_block i h = ground arith

-- The headers of the blocks from `i` on.
init_headers_lem :
    (left i : ℕ) (d : Memory) (b k : ℕ)
    → i + left ≡ n_input_blocks
    → b < n_input_blocks
    → k < block_size
    → (out : Memory) × (init_headers left i d ≡ some out)
      × (out (b * block_size + k)
          ≡ (if leb i b && ltb k 80 then end_key k else d (b * block_size + k)))
      × ((x : ℕ) → n_input_blocks * block_size ≤ x → out x ≡ d x)
unfolding init_headers
init_headers_lem zero i d b k e h l = (d, refl, ground arith, λ x m. refl)
init_headers_lem (suc left) i d b k e h l =
    let next = copy d (i * block_size) end_key 0 80 in
    let inside = header_inside n_input_blocks i (omega arith) in
    let (out, runs, byte, behind) = init_headers_lem left (i + 1) next b k (omega arith) h l in
    (
      out,
      rw (inside, init_headers) runs,
      byte ∙ header_byte i b k d l,
      λ x m. behind x m ∙ copy_outside d (i * block_size) end_key 0 80 x (inr (omega arith)),
    )

-- Every block of a new shared memory starts with the 80 characters of "END", and is zero behind
-- them; what stands behind the last block is not changed.
pub input_databuf_create_lem :
    (d : Memory) (b k : ℕ)
    → b < n_input_blocks
    → k < block_size
    → (out : Memory) × (input_databuf_create (some d) ≡ some out)
      × (out (b * block_size + k) ≡ (if ltb k 80 then end_key k else 0))
      × ((x : ℕ) → n_input_blocks * block_size ≤ x → out x ≡ d x)
unfolding input_databuf_create
input_databuf_create_lem d b k h l =
    let zeroed = zero_blocks n_input_blocks 0 d in
    let (out, runs, byte, behind) = init_headers_lem n_input_blocks 0 zeroed b k refl h l in
    let nought =
      zero_blocks-zero n_input_blocks 0 d (b * block_size + k) (omega arith) (omega arith) in
    let all : leb 0 b && ltb k 80 ≡ ltb k 80 = ground arith in
    (
      out,
      runs,
      byte ∙ rw all (ap (λ v. if ltb k 80 then end_key k else v) nought),
      λ x m. behind x m ∙ zero_blocks-same n_input_blocks 0 d x (inr (omega arith)),
    )

-- A block number below the number of blocks gives a header and data inside the memory of the
-- blocks, the header at a multiple of 4096, and a negative one or one above it gives none. The
-- number of blocks itself gives the end of that memory.
pub databuf_header_lem :
    (n_block m : ℕ)
    → (databuf_header n_block (negsuc m) ≡ none)
      × (databuf_data n_block (negsuc m) ≡ none)
      × (((m < n_block)
            × ((at : ℕ) × (databuf_header n_block (pos m) ≡ some at)
                × (databuf_data n_block (pos m) ≡ some (at + block_hdr_size))
                × (at % 4096 ≡ 0)
                × (at + block_size ≤ n_block * block_size)))
          ⊎ (((m ≡ n_block) × (databuf_header n_block (pos m) ≡ some (n_block * block_size)))
              ⊎ ((n_block < m)
                  × (databuf_header n_block (pos m) ≡ none)
                  × (databuf_data n_block (pos m) ≡ none))))
unfolding databuf_header databuf_data
databuf_header_lem n_block m = (
  refl,
  refl,
  elim (below_or n_block m) [
    | inl inside ↦
        inl (inside, (m * block_size, ground arith, ground arith, omega arith, omega arith))
    | inr from ↦ elim (below_or (n_block + 1) m) [
      | inl last ↦
          let same : m ≡ n_block = omega arith in
          inr (
            inl (
              same,
              ap (λ b. databuf_header n_block (pos b)) same
                  ∙ header_inside n_block n_block (omega arith),
            ))
      | inr beyond ↦ inr (inr (omega arith, ground arith, ground arith))
    ]
  ],
)
