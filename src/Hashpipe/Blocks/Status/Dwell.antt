-- ===== src/Hashpipe/Blocks/Status/Dwell.antt =====
-- Which blocks the status buffer says to record.
use volt_rec.Base.{ℕ, ◌+◌, ◌-◌, ◌*◌, ◌/◌, ◌%◌, ◌^◌, ◌<◌, ◌≤◌, ◌≡◌, arith, ◌↔◌}
use native.Mathlib.Nat
use volt_rec.Hashpipe.Blocks.Status.{record_state, Status, check_start_stop, update_status}

start_multiple : (x n : ℕ) → x - x % n ≡ n * (x / n)
start_multiple x n = omega (arith, Nat.div-add-mod x n)

window :
    (n s d b : ℕ) → 0 < n → ((n * s ≤ b * n) × (b * n < n * s + n * d)) ↔ ((s ≤ b) × (b < s + d))
window n s d b pos =
    let c = Nat.mul_comm b n in
    let m = Nat.mul-add n s d in
    (
      λ h. (
        Nat.le_of_mul-le-mul_left {k = n} (omega (arith, h.0, c)) pos,
        Nat.lt_of_mul-lt-mul_left n (omega (arith, h.1, c, m)),
      ),
      λ h. (
        omega (arith, c, Nat.mul-le-mul_left n h.0),
        omega (arith, c, m, Nat.mul-lt-mul_of_pos_left h.1 pos),
      ),
    )

recorded :
    (st : Status) (pktidx : ℕ)
    → ((check_start_stop st pktidx).0 ≡ record_state)
      ↔ ((st.pktstart ≤ pktidx) × (pktidx < st.pktstop))
unfolding check_start_stop
recorded st pktidx = (λ h. ground arith, λ h. ground arith)

-- After the update of the status buffer, with at least one packet index per block and a stop below
-- 2^64: the first packet index of a block is within the recording exactly when the block is among
-- the `dwell_blocks` blocks from the one on that holds the requested start.
pub dwell_lem :
    (n dwell_blocks drops lates seq block : ℕ) (st : Status)
    → 0 < n
    → st.pktstart + n * dwell_blocks < 2 ^ 64
    → ((check_start_stop (update_status n dwell_blocks drops lates seq st) (block * n)).0
        ≡ record_state)
      ↔ ((st.pktstart / n ≤ block) × (block < st.pktstart / n + dwell_blocks))
unfolding update_status
dwell_lem n dwell_blocks drops lates seq block st pos h =
    let first = start_multiple st.pktstart n in
    let stop : (st.pktstart - st.pktstart % n + n * dwell_blocks) % 2 ^ 64
        ≡ n * (st.pktstart / n) + n * dwell_blocks =
      omega arith in
    let updated = update_status n dwell_blocks drops lates seq st in
    let test = recorded updated (block * n) in
    let blocks = window n (st.pktstart / n) dwell_blocks block pos in
    (
      λ r.
          let (low, high) = test.0 r in
          blocks.0 (omega (arith, low, first), omega (arith, high, stop)),
      λ inside.
          let (low, high) = blocks.1 inside in
          test.1 (omega (arith, low, first), omega (arith, high, stop)),
    )
