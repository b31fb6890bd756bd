-- ===== src/Hashpipe/ObsInfo.antt =====
-- half_hashpipe/ata_volt_outer_thread.h and .c: ata_obs_info, the index of an antenna, and the
-- sizes of a block. The fields are 32-bit words; the parameter `antid` is the word that the
-- comparison converts it to. A division by zero, which ends the process, is `none`.
pub mod Sizes
pub mod Index
use volt_rec.Base.{
  ℕ, zero, suc, ◌+◌, ◌-◌, ◌*◌, ◌/◌, ◌%◌, ◌^◌, Option, none, some, List, replicate, Bool, ltb, leb,
  ◌==◌, if◌then◌else◌,
}
use volt_rec.Antennas.{ant_index_from}

abbrev pub max_ants : ℕ
max_ants = 4

abbrev pub samples_per_packet : ℕ
samples_per_packet = 16

abbrev pub pols_per_packet : ℕ
pols_per_packet = 2

abbrev pub chans_per_packet : ℕ
chans_per_packet = 256

abbrev pub bytes_per_complex_sample : ℕ
bytes_per_complex_sample = 1

-- ATA_ANT_NOT_INITED
abbrev pub ant_not_inited : ℕ
ant_not_inited = 2 ^ 16 - 1

pub record ObsInfo : Type 0 where
  pub nchan : ℕ
  pub nants : ℕ
  pub schan : ℕ
  pub antids : List ℕ

abbrev pub ata_obs_info_init : ObsInfo
ata_obs_info_init = record {
  nchan = 0;
  nants = 0;
  schan = 0;
  antids = replicate max_ants ant_not_inited;
}

-- `none` is the return value -1. The loop is the one of getAntIndex.
unfoldable pub get_ata_ant_index : ObsInfo → ℕ → Option ℕ
unfolding ant_index_from
get_ata_ant_index info antid =
    if leb max_ants info.nants then none else ant_index_from info.antids antid info.nants 0

-- __builtin_clz on a word of `width` bits: the number of leading zeros.
unfoldable pub leading_zeros : ℕ → ℕ → ℕ
leading_zeros zero x = 0
leading_zeros (suc width) x =
    let rest = leading_zeros width x in if ltb x (2 ^ width) then 1 + rest else 0

unfoldable pub prevpow2 : ℕ → ℕ
unfolding leading_zeros
prevpow2 x = if x == 0 then 0 else 2 ^ 31 / 2 ^ leading_zeros 32 x

-- The bytes of one packet index, computed on 32-bit words.
unfoldable pub bytes_per_pktidx : ObsInfo → ℕ
bytes_per_pktidx info =
    info.nants
    * info.nchan
    * samples_per_packet
    * pols_per_packet
    * chans_per_packet
    * bytes_per_complex_sample
    % 2 ^ 32

unfoldable pub ata_pktidx_per_block : ℕ → ObsInfo → Option ℕ
unfolding bytes_per_pktidx prevpow2
ata_pktidx_per_block block_size info =
    let row = bytes_per_pktidx info in
    if row == 0 then none else some (prevpow2 (block_size / row % 2 ^ 32))

-- The source declares the parameter as a mk_obs_info, which has no nchan; the observation that it
-- hands on is the one of ata_pktidx_per_block.
unfoldable pub ata_block_size : ℕ → ObsInfo → Option ℕ
unfolding ata_pktidx_per_block bytes_per_pktidx
ata_block_size block_size info = elim (ata_pktidx_per_block block_size info) [
  | none ↦ none
  | some n ↦ some (n * bytes_per_pktidx info % 2 ^ 32)
]
