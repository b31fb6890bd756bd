-- ===== src/Hashpipe/Blocks/Status.antt =====
-- half_hashpipe/ata_volt_outer_thread.c: the fields of the status buffer that say when to record,
-- their update at the start of a block, and check_start_stop. The number of blocks of the dwell
-- time and the start time of the recording are computed in floating point: the first is the
-- parameter `dwell_blocks`, the second is left out.
pub mod Dwell
use volt_rec.Base.{
  ℕ, ◌+◌, ◌-◌, ◌*◌, ◌%◌, ◌^◌, Bool, true, false, ◌&&◌, ltb, leb, ◌==◌, if◌then◌else◌,
}

pub data RunState : Type 0 where
  idle listen record_state : RunState

pub record Status : Type 0 where
  pub pktidx : ℕ
  pub pktstart : ℕ
  pub pktstop : ℕ
  pub ndrop : ℕ
  pub nlate : ℕ
  pub sttvalid : ℕ
  pub daqstate : RunState

unfoldable pub check_start_stop : Status → ℕ → RunState × Status
check_start_stop st pktidx =
    if leb st.pktstart pktidx && ltb pktidx st.pktstop
    then (
      record_state,
      record {
        pktidx = st.pktidx;
        pktstart = st.pktstart;
        pktstop = st.pktstop;
        ndrop = st.ndrop;
        nlate = st.nlate;
        sttvalid = if st.sttvalid == 1 then st.sttvalid else 1;
        daqstate = record_state;
      },
    )
    else (
      listen,
      record {
        pktidx = st.pktidx;
        pktstart = st.pktstart;
        pktstop = st.pktstop;
        ndrop = st.ndrop;
        nlate = st.nlate;
        sttvalid = if st.sttvalid == 0 then st.sttvalid else 0;
        daqstate = listen;
      },
    )

-- The update at a packet that starts a block; `ndrop_total` and `nlate` are the counts since the
-- last one.
unfoldable pub update_status : ℕ → ℕ → ℕ → ℕ → ℕ → Status → Status
update_status pktidx_per_block dwell_blocks ndrop_total nlate pkt_seq_num st =
    let start_seq_num = st.pktstart - st.pktstart % pktidx_per_block in
    record {
      pktidx = pkt_seq_num;
      pktstart = start_seq_num;
      pktstop = (start_seq_num + pktidx_per_block * dwell_blocks) % 2 ^ 64;
      ndrop = (st.ndrop + ndrop_total) % 2 ^ 64;
      nlate = (st.nlate + nlate) % 2 ^ 64;
      sttvalid = st.sttvalid;
      daqstate = st.daqstate;
    }
