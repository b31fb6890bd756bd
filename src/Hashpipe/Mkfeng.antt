-- ===== src/Hashpipe/Mkfeng.antt =====
-- half_hashpipe/hpguppi_mkfeng.h: the sizes and places of the packets of an observation, and
-- copy_packet_data_to_databuf of ata_volt_outer_thread.c, which uses them. Words are 32 or 64 bits
-- wide as in the source; `schan` is the 32-bit word of the signed field, and its invalid value -1
-- is 2^32 - 1. A division by zero, which ends the process, is `none`.
pub mod Rows
use volt_rec.Base.{
  ℕ, zero, suc, ◌+◌, ◌-◌, ◌*◌, ◌/◌, ◌%◌, ◌^◌, Bool, true, false, ◌&&◌, ◌||◌, not, Option, none,
  some, Memory, ltb, leb, ◌==◌, if◌then◌else◌,
}
use volt_rec.Wide.{memcpy_nt}
use volt_rec.Hashpipe.ObsInfo.{prevpow2}

pub record MkFengSpeadInfo : Type 0 where
  pub heap_offset : ℕ
  pub payload_size : ℕ
  pub timestamp : ℕ
  pub feng_id : ℕ
  pub feng_chan : ℕ

pub record MkObsInfo : Type 0 where
  pub fenchan : ℕ
  pub nants : ℕ
  pub nstrm : ℕ
  pub hntime : ℕ
  pub hnchan : ℕ
  pub hclocks : ℕ
  pub schan : ℕ

-- MK_OBS_INFO_INVALID_SCHAN
abbrev pub invalid_schan : ℕ
invalid_schan = 2 ^ 32 - 1

abbrev pub mk_obs_info_init : MkObsInfo
mk_obs_info_init = record {
  fenchan = 0;
  nants = 0;
  nstrm = 0;
  hntime = 0;
  hnchan = 0;
  hclocks = 0;
  schan = invalid_schan;
}

unfoldable pub mk_obs_info_valid : MkObsInfo → Bool
mk_obs_info_valid oi =
    not (oi.fenchan == 0)
    && not (oi.nants == 0)
    && not (oi.nstrm == 0)
    && not (oi.hntime == 0)
    && not (oi.hnchan == 0)
    && not (oi.hclocks == 0)
    && not (oi.schan == invalid_schan)

unfoldable pub mk_pktidx : MkObsInfo → MkFengSpeadInfo → Option ℕ
mk_pktidx oi fesi = if oi.hclocks == 0 then none else some (fesi.timestamp / oi.hclocks)

unfoldable pub mk_obsnchan : MkObsInfo → ℕ
mk_obsnchan oi = oi.nants * oi.nstrm * oi.hnchan % 2 ^ 32

-- The subtraction of the start channel is on 64-bit words.
unfoldable pub mk_block_chan : MkObsInfo → MkFengSpeadInfo → ℕ
mk_block_chan oi fesi =
    (fesi.feng_id * oi.nstrm * oi.hnchan + (fesi.feng_chan + 2 ^ 64 - oi.schan)) % 2 ^ 64

-- The bytes of one packet index.
unfoldable pub heapset_size : MkObsInfo → ℕ
unfolding mk_obsnchan
heapset_size oi = 4 * mk_obsnchan oi * oi.hntime % 2 ^ 32

unfoldable pub mk_pktidx_per_block : ℕ → MkObsInfo → Option ℕ
unfolding heapset_size prevpow2
mk_pktidx_per_block block_size oi =
    let row = heapset_size oi in
    if row == 0 then none else some (prevpow2 (block_size / row % 2 ^ 32))

unfoldable pub mk_ntime : ℕ → MkObsInfo → Option ℕ
unfolding mk_pktidx_per_block
mk_ntime block_size oi = elim (mk_pktidx_per_block block_size oi) [
  | none ↦ none
  | some n ↦ some (oi.hntime * n % 2 ^ 32)
]

unfoldable pub mk_block_size : ℕ → MkObsInfo → Option ℕ
unfolding mk_pktidx_per_block heapset_size
mk_block_size block_size oi = elim (mk_pktidx_per_block block_size oi) [
  | none ↦ none
  | some n ↦ some (heapset_size oi * n % 2 ^ 32)
]

-- The loop counter `int bytes_to_copy`, from its 32-bit word on: the number of rounds until it is not
-- positive, on fuel. Each round takes `istride` off, with the wrap of the word.
unfoldable pub row_count : ℕ → ℕ → ℕ → Option ℕ
row_count zero istride bytes_to_copy =
    if bytes_to_copy == 0 || leb (2 ^ 31) bytes_to_copy then some 0 else none
row_count (suc fuel) istride bytes_to_copy =
    let rest = row_count fuel istride ((bytes_to_copy + 2 ^ 32 - istride) % 2 ^ 32) in
    if bytes_to_copy == 0 || leb (2 ^ 31) bytes_to_copy
    then some 0
    else elim rest [ none ↦ none | some rows ↦ some (suc rows) ]

-- What the loop copies, with `rows` rounds to go: the whole words of `istride` bytes to the address
-- `d` of the block, then on by `ostride`.
unfoldable pub copy_rows : Bool → ℕ → ℕ → ℕ → Memory → ℕ → Memory → ℕ → Memory
unfolding memcpy_nt
copy_rows avx512f zero istride ostride dst d payload s = dst
copy_rows avx512f (suc rows) istride ostride dst d payload s =
    copy_rows avx512f rows istride ostride (memcpy_nt avx512f dst d payload s istride) (d + ostride)
      payload (s + istride)

-- The bytes of a row of a heap.
abbrev pub istride_of : MkObsInfo → ℕ
istride_of oi = 4 * oi.hntime % 2 ^ 32

-- `none` where a size is divided by zero, where the channel is negative as an int and the copy
-- leaves the block, or where the fuel is used up.
unfoldable pub copy_packet_data_to_databuf :
    Bool → ℕ → ℕ → ℕ → MkObsInfo → MkFengSpeadInfo → Memory → Memory → Option Memory
unfolding mk_ntime mk_pktidx mk_block_chan row_count copy_rows
copy_packet_data_to_databuf avx512f fuel block_data_size pktidx_per_block oi fesi payload dst =
    elim (mk_ntime block_data_size oi) [
      | none ↦ none
      | some ntime ↦ elim (mk_pktidx oi fesi) [
        | none ↦ none
        | some pktidx ↦
            let istride = istride_of oi in
            let ostride = 4 * ntime % 2 ^ 32 in
            let block_chan = mk_block_chan oi fesi % 2 ^ 32 in
            let d =
              pktidx % pktidx_per_block * istride
              + block_chan * ostride
              + fesi.heap_offset / istride * ostride in
            if pktidx_per_block == 0 || istride == 0 || leb (2 ^ 31) block_chan
            then none
            else elim (row_count fuel istride (fesi.payload_size % 2 ^ 32)) [
              | none ↦ none
              | some rows ↦ some (copy_rows avx512f rows istride ostride dst d payload 0)
            ]
      ]
    ]
