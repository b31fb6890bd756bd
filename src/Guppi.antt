-- ===== src/Guppi.antt =====
-- half_hashpipe/hpguppi_udp.{c,h}: packets of the GUPPI instruments and of those that share its
-- format. A packet is the memory of its bytes, and its size.
pub mod Packets
pub mod Transpose
pub mod S6
pub mod Parkes
pub mod Databuf
pub mod Receiving
