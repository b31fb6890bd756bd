-- ===== src/Rawspec.antt =====
-- half_hashpipe/hpguppi_rawspec.c: the threads that write the power spectra to files.
pub mod Writing
pub mod Products
