-- ===== src/Lib.antt =====
-- The voltage recorder and its converter, and the packet side of the recorder built on hashpipe.
--
-- The recorder (full_custom/recorder.c) runs three threads that share two pools of buffers
-- (common.c). The receiving thread (udp_thread.c) fills buffers of 160 UDP messages of 8200 bytes;
-- the sorting thread (processing_thread.c) takes them in their order and copies each payload to its
-- place in one of six file buffers, each a block of 128 packet numbers; the file writing thread
-- (file_thread.c) writes the full file buffers in their order. The converter (converter.c) reads
-- the files back and turns them into one time series for each antenna. The thread of half_hashpipe
-- (ata_volt_outer_thread.c) does the same sorting for blocks of a shared memory.
--
-- The modules and the code they are about:
--   Base         helpers: Boolean tests, lists, integers, outcomes, memories.
--   Formats      full_custom/data_formats.h: constants and the header macros.
--   Pool         full_custom/common.c: init_udpBuff, findEmpty, findLowest, fetchEmptyBuffer,
--                returnBuffer, returnEmptyBuffer, fetchBuffer, anyBufFull. Pool/Sharing has the
--                critical sections as steps that threads take in any order.
--   Antennas     full_custom/common.c: updateAntenna, getAntIndex.
--   Worker       full_custom/processing_thread.c: worker_work and findStructIndex. State is its
--                variables and its start, Packets the first input and the placement, Sending the
--                two passes that hand blocks on, Round one round of the loop and the end.
--   Receiver     full_custom/udp_thread.c: udp_recv_work.
--   FileWriter   full_custom/file_thread.c: file_writer_work and writeHeader.
--   Converter    full_custom/converter.c: the header and convert (four bits), EightBits its other
--                variant, Files write_ext_header and the loops of main.
--   Recorder     full_custom/recorder.c: the arguments of main.
--   Hashpipe     half_hashpipe: ObsInfo (ata_obs_info and the block sizes), Jobs (the queue of copy
--                jobs and its threads), Blocks (the working blocks and the loop over the packets),
--                Mkfeng (hpguppi_mkfeng.h and copy_packet_data_to_databuf) and Spead (its parsers).
--                Streams is the change of DESTIP with the flows that it sets, and Waiting is
--                wait_for_block_free.
--   Guppi        half_hashpipe/hpguppi_udp.c and hpguppi_databuf.{c,h}: Packets (the parts of a packet
--                and the copy of its data), Transpose (the corner turn in use, and the previous one),
--                S6 and Parkes (the packets of these instruments), Receiving (the results of
--                hpguppi_udp_wait and hpguppi_udp_recv) and Databuf (the blocks of the shared memory).
--   Rawspec      half_hashpipe/hpguppi_rawspec.c: Writing is write_all, Products are
--                rawspec_dump_callback and rawspec_stop.
--   Wide         half_hashpipe/hpguppi_util.c: bzero_nt and memcpy_nt.
--   Paths        half_hashpipe/hpguppi_util.c: mkdir_p.
--   Tests        the theorems at concrete inputs.
--
-- A memory is a function from addresses to bytes. An outcome is a value, or the reason why a function
-- does not return: an exit through error(), an access outside an array, a division by zero, or a busy
-- wait that no step of the function itself can end. What the network, the file system and atoi answer are parameters.
-- Words keep their wrap-around. The loops of the C code run over arrays, over the 160 messages of a
-- buffer, or over the rows of a packet, and are recursions on the entries that are left; an endless
-- thread loop is a function for one round of it. Only write_all, the reading loops of the converter
-- and the rounds of copy_packet_data_to_databuf have fuel, as many rounds as there are bytes: each
-- round but the last takes at least one.
--
-- Not modelled: sockets, signals, sleeping, scheduling, the creation of threads and text files, which
-- are calls of the system; times and bandwidths in floating point; the status buffer of hashpipe
-- beyond the fields of Blocks/Status and Waiting, with the defaults of init() and hpguppi_params, which
-- only copy its fields; the filterbank headers of hpguppi_rawspec and hpguppi_time, which are floating
-- point; sla.c, a copy of SLALIB; the build files.
pub mod Base
pub mod Formats
pub mod Pool
pub mod Antennas
pub mod Worker
pub mod Receiver
pub mod FileWriter
pub mod Converter
pub mod Recorder
pub mod Hashpipe
pub mod Guppi
pub mod Rawspec
pub mod Wide
pub mod Paths
pub mod Tests
