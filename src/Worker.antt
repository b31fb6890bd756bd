-- ===== src/Worker.antt =====
-- full_custom/processing_thread.c: the thread that sorts packets into file buffers. `State` has
-- its variables and its start, `Packets` the copying of packets, `Sending` the buffers that are
-- handed on, and `Round` the body of its loop.
pub mod State
pub mod Packets
pub mod Sending
pub mod Round
pub mod Placement
pub mod Invariant
pub mod Copying
pub mod Steps
pub mod Room
pub mod Progress
pub mod Start
