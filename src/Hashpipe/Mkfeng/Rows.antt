-- ===== src/Hashpipe/Mkfeng/Rows.antt =====
-- Where the rows of a packet land in the block.
use volt_rec.Base.{
  ℕ, zero, suc, ◌+◌, ◌-◌, ◌*◌, ◌/◌, ◌%◌, ◌^◌, ◌≢◌, ==_of_ne, some, false, leb, ◌<◌, ◌≤◌, ◌≡◌, refl,
  sym, ap, ◌∙◌, Memory, copy, copy_inside, copy_outside, arith, Bool, ◌==◌, ◌||◌, next_row,
}
use native.Mathlib.Decide.{dec_lt}
use volt_rec.Wide.{word_bytes, memcpy_nt}
use volt_rec.Wide.Whole.{wide_copies_lem}
use native.Mathlib.Nat
use volt_rec.Hashpipe.Mkfeng.{
  MkObsInfo, MkFengSpeadInfo, row_count, copy_rows, mk_ntime, mk_pktidx_per_block, mk_pktidx,
  mk_block_chan, istride_of, copy_packet_data_to_databuf,
}

-- A length of whole words is copied to its end.
copy_words :
    (avx512f : Bool) (dst : Memory) (d : ℕ) (src : Memory) (s len i : ℕ)
    → len % word_bytes avx512f ≡ 0
    → memcpy_nt avx512f dst d src s len i ≡ copy dst d src s len i
copy_words avx512f dst d src s len i whole =
    (wide_copies_lem avx512f dst d src s len i).0
    ∙ ap (λ (n : ℕ). copy dst d src s n i) (omega arith)

-- For rows of whole words.
module _ (avx512f : Bool) (istride ostride : ℕ) (whole : istride % word_bytes avx512f ≡ 0) where
  copy_rows-before :
      (rows : ℕ) (dst : Memory) (d : ℕ) (src : Memory) (s i : ℕ)
      → i < d
      → copy_rows avx512f rows istride ostride dst d src s i ≡ dst i
  unfolding copy_rows
  copy_rows-before zero dst d src s i h = refl
  copy_rows-before (suc rows) dst d src s i h =
      copy_rows-before rows (memcpy_nt avx512f dst d src s istride) (d + ostride) src (s + istride)
        i (omega arith)
      ∙ copy_words avx512f dst d src s istride i whole
      ∙ copy_outside dst d src s istride i (omega arith)

  -- The byte `k` of a row of the payload is at the byte `k` of its row in the block, `ostride` bytes
  -- after the row before it, where the rows of the block are not shorter than those of the payload.
  copy_rows_lem :
      (rows : ℕ) (dst : Memory) (d : ℕ) (src : Memory) (s r k : ℕ)
      → istride ≤ ostride
      → r < rows
      → k < istride
      → copy_rows avx512f rows istride ostride dst d src s (d + r * ostride + k)
        ≡ src (s + r * istride + k)
  unfolding copy_rows
  copy_rows_lem zero dst d src s r k w h l = absurd (omega arith)
  copy_rows_lem (suc rows) dst d src s zero k w h l =
      let here : d + 0 * ostride + k ≡ d + k = omega arith in
      let there : s + k ≡ s + 0 * istride + k = omega arith in
      ap (copy_rows avx512f (suc rows) istride ostride dst d src s) here
      ∙ copy_rows-before rows (memcpy_nt avx512f dst d src s istride) (d + ostride) src
          (s + istride) (d + k) (omega arith)
      ∙ copy_words avx512f dst d src s istride (d + k) whole
      ∙ copy_inside dst d src s istride k l
      ∙ ap src there
  copy_rows_lem (suc rows) dst d src s (suc r) k w h l =
      ap
        (copy_rows avx512f rows istride ostride (memcpy_nt avx512f dst d src s istride)
          (d + ostride) src (s + istride))
        (next_row d r ostride k)
      ∙ copy_rows_lem rows (memcpy_nt avx512f dst d src s istride) (d + ostride) src (s + istride) r
          k w (omega arith) l
      ∙ ap src (sym (next_row s r istride k))

-- A round of the loop more, the last round, and the end behind it.
counted :
    (r rows istride bytes : ℕ)
    → istride < bytes
    → ((q : ℕ) → q * istride < bytes - istride → q < rows)
    → r * istride < bytes
    → r < suc rows
counted zero rows istride bytes later all h = omega arith
counted (suc q) rows istride bytes later all h =
    let split : suc q * istride ≡ istride + q * istride = grind arith in
    let before = all q (omega arith) in omega arith

only : (r istride bytes : ℕ) → bytes ≤ istride → r * istride < bytes → r < 1
only zero istride bytes last h = omega arith
only (suc q) istride bytes last h =
    let split : suc q * istride ≡ istride + q * istride = grind arith in absurd (omega arith)

ended :
    (fuel istride bytes : ℕ)
    → 0 < bytes
    → bytes ≤ istride
    → istride < 2 ^ 31
    → row_count fuel istride ((bytes + 2 ^ 32 - istride) % 2 ^ 32) ≡ some 0
unfolding row_count
ended zero istride bytes more last small_stride = ground arith
ended (suc fuel) istride bytes more last small_stride = ground arith

row_count-next :
    (fuel istride bytes left rows : ℕ)
    → (bytes == 0 || leb (2 ^ 31) bytes) ≡ false
    → (bytes + 2 ^ 32 - istride) % 2 ^ 32 ≡ left
    → row_count fuel istride left ≡ some rows
    → row_count (suc fuel) istride bytes ≡ some (suc rows)
unfolding row_count
row_count-next fuel istride bytes left rows going next e = rw (going, next) (rw (e, row_count) refl)

-- The loop ends with every row begun, where neither number of bytes is negative as an int: the row
-- `r` is one of its rounds where it begins inside the payload.
row_count_lem :
    (fuel istride bytes : ℕ)
    → 0 < istride
    → istride < 2 ^ 31
    → bytes < 2 ^ 31
    → bytes ≤ fuel
    → (rows : ℕ) × (row_count fuel istride bytes ≡ some rows)
      × ((r : ℕ) → r * istride < bytes → r < rows)
unfolding row_count
row_count_lem zero istride bytes pos_stride small_stride small enough =
    let none_left : bytes ≡ 0 = omega arith in (0, rw none_left refl, λ r h. absurd (omega arith))
row_count_lem (suc fuel) istride bytes pos_stride small_stride small enough =
    elim (dec_lt 0 bytes) [
      | no empty ↦
          let none_left : bytes ≡ 0 = omega arith in
          (0, rw none_left refl, λ r h. absurd (omega arith))
      | yes more ↦
          let going : (bytes == 0 || leb (2 ^ 31) bytes) ≡ false = ground arith in
          elim (dec_lt istride bytes) [
            | yes later ↦
                let next : (bytes + 2 ^ 32 - istride) % 2 ^ 32 ≡ bytes - istride = omega arith in
                let (rows, e, all) =
                  row_count_lem fuel istride (bytes - istride) pos_stride small_stride (omega arith)
                    (omega arith) in
                (
                  suc rows,
                  row_count-next fuel istride bytes (bytes - istride) rows going next e,
                  λ r h. counted r rows istride bytes later all h,
                )
            | no last ↦
                let rest = ended fuel istride bytes (omega arith) (omega arith) small_stride in
                (
                  1,
                  row_count-next fuel istride bytes _ 0 going refl rest,
                  λ r h. only r istride bytes (omega arith) h,
                )
          ]
    ]

-- The address of the row `r` of a heap whose slot and first channel row are given.
cell :
    (slot chan off r n w : ℕ)
    → slot * w + chan * (w * n) + off * (w * n) + r * (w * n) ≡ ((chan + off + r) * n + slot) * w
cell slot chan off r n w = grind arith

mk_ntime-eq :
    (size : ℕ) (oi : MkObsInfo) (n : ℕ)
    → mk_pktidx_per_block size oi ≡ some n
    → 4 * oi.hntime * n < 2 ^ 32
    → (ntime : ℕ) × (mk_ntime size oi ≡ some ntime) × (4 * ntime % 2 ^ 32 ≡ 4 * oi.hntime * n)
unfolding mk_ntime
mk_ntime-eq size oi n pkts h =
    let assoc = Nat.mul_assoc 4 oi.hntime n in
    (oi.hntime * n % 2 ^ 32, rw (pkts, mk_ntime) refl, omega (arith, assoc))

-- The address where the copy of a packet begins.
start_of : ℕ → ℕ → ℕ → ℕ → ℕ → MkFengSpeadInfo → ℕ
start_of n idx chan w v fesi = idx % n * w + chan * v + fesi.heap_offset / w * v

copy_packet-copied :
    (avx512f : Bool) (fuel size n idx ntime rows : ℕ) (oi : MkObsInfo) (fesi : MkFengSpeadInfo)
    (payload dst : Memory)
    → mk_ntime size oi ≡ some ntime
    → mk_pktidx oi fesi ≡ some idx
    → n ≢ 0
    → istride_of oi ≢ 0
    → mk_block_chan oi fesi < 2 ^ 31
    → row_count fuel (istride_of oi) (fesi.payload_size % 2 ^ 32) ≡ some rows
    → copy_packet_data_to_databuf avx512f fuel size n oi fesi payload dst
      ≡ some (
          copy_rows avx512f rows
            (istride_of oi)
            (4 * ntime % 2 ^ 32)
            dst
            (start_of n idx (mk_block_chan oi fesi) (istride_of oi) (4 * ntime % 2 ^ 32) fesi)
            payload
            0)
unfolding copy_packet_data_to_databuf start_of
copy_packet-copied avx512f fuel size n idx ntime rows oi fesi payload dst e at n0 w0 chan count =
    let small : leb (2 ^ 31) (mk_block_chan oi fesi) ≡ false = ground (arith, chan) in
    let whole : mk_block_chan oi fesi % 2 ^ 32 ≡ mk_block_chan oi fesi = omega arith in
    rw (e, copy_packet_data_to_databuf)
      (rw (at, copy_packet_data_to_databuf)
        (rw whole (
          rw (==_of_ne n 0 n0) (
            rw (==_of_ne (istride_of oi) 0 w0) (
              rw small (
                rw (count, copy_packet_data_to_databuf)
                  (ap
                    (λ (c : ℕ). some (
                      copy_rows avx512f rows (istride_of oi) (4 * ntime % 2 ^ 32) dst
                        (idx % n * istride_of oi
                          + c * (4 * ntime % 2 ^ 32)
                          + fesi.heap_offset / istride_of oi * (4 * ntime % 2 ^ 32))
                        payload 0))
                    whole)))))))

copied_lem :
    (avx512f : Bool) (rows n idx chan w r k : ℕ) (fesi : MkFengSpeadInfo) (payload dst : Memory)
    → w % word_bytes avx512f ≡ 0
    → 0 < n
    → r < rows
    → k < w
    → copy_rows avx512f rows w
        (w * n)
        dst
        (start_of n idx chan w (w * n) fesi)
        payload
        0
        (((chan + fesi.heap_offset / w + r) * n + idx % n) * w + k)
      ≡ payload (r * w + k)
unfolding start_of
copied_lem avx512f rows n idx chan w r k fesi payload dst whole some_n row byte =
    let wide : w ≤ w * n = grind arith in
    let start : 0 + r * w + k ≡ r * w + k = omega arith in
    ap
      (copy_rows avx512f rows w (w * n) dst
        (idx % n * w + chan * (w * n) + fesi.heap_offset / w * (w * n)) payload 0)
      (ap (λ x. x + k) (sym (cell (idx % n) chan (fesi.heap_offset / w) r n w)))
    ∙ copy_rows_lem avx512f w (w * n) whole rows dst
        (idx % n * w + chan * (w * n) + fesi.heap_offset / w * (w * n)) payload 0 r k wide row byte
    ∙ ap payload start

-- The same where the widths of the rows are known.
copy_packet-rows :
    (avx512f : Bool) (fuel size n idx rows : ℕ) (oi : MkObsInfo) (fesi : MkFengSpeadInfo)
    (payload dst : Memory)
    → mk_pktidx_per_block size oi ≡ some n
    → mk_pktidx oi fesi ≡ some idx
    → 0 < oi.hntime
    → 0 < n
    → 4 * oi.hntime * n < 2 ^ 32
    → 4 * oi.hntime < 2 ^ 31
    → mk_block_chan oi fesi < 2 ^ 31
    → fesi.payload_size < 2 ^ 31
    → row_count fuel (4 * oi.hntime) fesi.payload_size ≡ some rows
    → copy_packet_data_to_databuf avx512f fuel size n oi fesi payload dst
      ≡ some (
          copy_rows avx512f rows
            (4 * oi.hntime)
            (4 * oi.hntime * n)
            dst
            (start_of n idx (mk_block_chan oi fesi) (4 * oi.hntime) (4 * oi.hntime * n) fesi)
            payload
            0)
copy_packet-rows avx512f fuel size n idx rows oi fesi payload dst pkts at time some_n fits narrow
      chan small count =
    let (ntime, e, stride) = mk_ntime-eq size oi n pkts fits in
    let width : istride_of oi ≡ 4 * oi.hntime = omega arith in
    let bytes : fesi.payload_size % 2 ^ 32 ≡ fesi.payload_size = omega arith in
    let count_here =
      ap (λ (w : ℕ). row_count fuel w (fesi.payload_size % 2 ^ 32)) width
      ∙ ap (λ (b : ℕ). row_count fuel (4 * oi.hntime) b) bytes
      ∙ count in
    let copy_eq =
      copy_packet-copied avx512f fuel size n idx ntime rows oi fesi payload dst e at
        (λ z. omega arith) (λ z. omega arith) chan count_here in
    rw width at (rw stride at copy_eq)

-- For an observation whose rows in the block have fewer than 2^32 bytes, with `n` packet indices
-- per block, where the `4 * hntime` bytes of a row of a packet are whole words of memcpy_nt and, as
-- those of the payload, fewer than 2^31, and for a packet whose channel in the block is below 2^31:
-- with the bytes of the payload as fuel the copy is made, and the byte `k` of a row `r` that begins
-- in the payload is at the row of the packet's channel, heap offset and `r`, in the cell of the
-- packet's slot.
pub copy_packet_lem :
    (avx512f : Bool) (fuel size n idx r k : ℕ) (oi : MkObsInfo) (fesi : MkFengSpeadInfo)
    (payload dst : Memory)
    → mk_pktidx_per_block size oi ≡ some n
    → mk_pktidx oi fesi ≡ some idx
    → 0 < oi.hntime
    → 0 < n
    → 4 * oi.hntime * n < 2 ^ 32
    → 4 * oi.hntime < 2 ^ 31
    → 4 * oi.hntime % word_bytes avx512f ≡ 0
    → mk_block_chan oi fesi < 2 ^ 31
    → fesi.payload_size < 2 ^ 31
    → fesi.payload_size ≤ fuel
    → r * (4 * oi.hntime) < fesi.payload_size
    → k < 4 * oi.hntime
    → (m : Memory) × (copy_packet_data_to_databuf avx512f fuel size n oi fesi payload dst ≡ some m)
      × (m (
            ((mk_block_chan oi fesi + fesi.heap_offset / (4 * oi.hntime) + r) * n + idx % n)
              * (4 * oi.hntime)
            + k)
          ≡ payload (r * (4 * oi.hntime) + k))
copy_packet_lem avx512f fuel size n idx r k oi fesi payload dst pkts at time some_n fits narrow
      whole chan small enough row byte =
    let (rows, count, all) =
      row_count_lem fuel (4 * oi.hntime) fesi.payload_size (omega arith) narrow small enough in
    (
      copy_rows avx512f rows (4 * oi.hntime) (4 * oi.hntime * n) dst
          (start_of n idx (mk_block_chan oi fesi) (4 * oi.hntime) (4 * oi.hntime * n) fesi) payload
          0,
      copy_packet-rows avx512f fuel size n idx rows oi fesi payload dst pkts at time some_n fits
          narrow chan small count,
      copied_lem avx512f rows n idx (mk_block_chan oi fesi) (4 * oi.hntime) r k fesi payload dst
          whole some_n (all r row) byte,
    )
