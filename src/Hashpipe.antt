-- ===== src/Hashpipe.antt =====
-- half_hashpipe/ata_volt_outer_thread.{c,h}: the thread that sorts packets into blocks of the
-- shared memory of the recorder that is built on hashpipe.
pub mod ObsInfo
pub mod Jobs
pub mod Blocks
pub mod Mkfeng
pub mod Spead
pub mod Streams
pub mod Waiting
