-- ===== src/Guppi/Transpose/Orders.antt =====
-- The place of every sample after the corner turn, and the equality of the two routines.
use volt_rec.Base.{
  ℕ, zero, suc, ◌+◌, ◌-◌, ◌*◌, ◌%◌, ◌^◌, ◌<◌, ◌≤◌, ◌≡◌, refl, sym, ap, ◌∙◌, ◌≢◌, inl, inr, Memory,
  arith, copy_strided, copy_strided_lem, copy_strided-off, some, ==_of_ne,
}
use volt_rec.Guppi.Packets.{packet_data}
use volt_rec.Guppi.Transpose.{
  turn_channels, turn_samples, packet_data_copy_transpose, previous_transpose, samples_per_packet,
}
use volt_rec.Guppi.Transpose.Cells.{turn_channels-in, turn_channels-off, OffChannels, channel_cases}

-- Two samples of a block are apart.
samples_apart :
    (c e per_block s t k l : ℕ)
    → s < t
    → t < per_block
    → k < 4
    → l < 4
    → c * (4 * per_block) + s * 4 + k ≢ e * (4 * per_block) + t * 4 + l
samples_apart zero e per_block s t k l h h' m n eq = absurd (omega arith)
samples_apart (suc c) zero per_block s t k l h h' m n eq =
    let row : suc c * (4 * per_block) ≡ 4 * per_block + c * (4 * per_block) = grind arith in
    absurd (omega arith)
samples_apart (suc c) (suc e) per_block s t k l h h' m n eq =
    samples_apart c e per_block s t k l h h' m n (grind arith)

pub turn_samples-off :
    (left isamp chans first per_block : ℕ) (databuf payload : Memory) (iptr i : ℕ)
    → first + isamp + left ≤ 2 ^ 32
    → OffChannels chans (4 * per_block) left (4 * (first + isamp)) i
    → turn_samples left isamp chans first per_block databuf payload iptr i ≡ databuf i
unfolding turn_samples
turn_samples-off zero isamp chans first per_block databuf payload iptr i fits off = refl
turn_samples-off (suc left) isamp chans first per_block databuf payload iptr i fits off =
    let small : (first + isamp) % 2 ^ 32 ≡ first + isamp = omega arith in
    turn_samples-off left (isamp + 1) chans first per_block
      (copy_strided chans 4 (4 * per_block) 4 databuf (4 * ((first + isamp) % 2 ^ 32)) payload iptr)
      payload (iptr + chans * 4) i (omega arith)
      (λ c s k h l m e. off c (suc s) k h (omega arith) m (omega arith))
    ∙ copy_strided-off chans 4 (4 * per_block) 4 databuf (4 * ((first + isamp) % 2 ^ 32)) payload
        iptr i (λ c k h m e. off c 0 k h (omega arith) m (omega arith))

pub turn_samples-in :
    (left isamp chans first per_block : ℕ) (databuf payload : Memory) (iptr c s k : ℕ)
    → first + isamp + left ≤ 2 ^ 32
    → left ≤ per_block
    → c < chans
    → s < left
    → k < 4
    → turn_samples left isamp chans first per_block databuf payload iptr
        (4 * (first + isamp) + c * (4 * per_block) + s * 4 + k)
      ≡ payload (iptr + c * 4 + s * (chans * 4) + k)
unfolding turn_samples
turn_samples-in zero isamp chans first per_block databuf payload iptr c s k fits room h l m =
    absurd (omega arith)
turn_samples-in (suc left) isamp chans first per_block databuf payload iptr c zero k fits room h l
      m =
    let place = 4 * (first + isamp) + c * (4 * per_block) + 0 + k in
    let small : (first + isamp) % 2 ^ 32 ≡ first + isamp = omega arith in
    let after =
      copy_strided chans 4 (4 * per_block) 4 databuf (4 * ((first + isamp) % 2 ^ 32)) payload
        iptr in
    let here : place ≡ 4 * ((first + isamp) % 2 ^ 32) + c * (4 * per_block) + k = omega arith in
    turn_samples-off left (isamp + 1) chans first per_block after payload (iptr + chans * 4) place
      (omega arith)
      (λ e s l h' m' n eq.
        samples_apart c e per_block 0 (suc s) k l (omega arith) (omega arith) m n (omega arith))
    ∙ ap after here
    ∙ copy_strided_lem chans 4 (4 * per_block) 4 databuf (4 * ((first + isamp) % 2 ^ 32)) payload
        iptr c k (omega arith) h m
    ∙ ap payload (omega arith)
turn_samples-in (suc left) isamp chans first per_block databuf payload iptr c (suc s) k fits room h
      l m =
    let place : 4 * (first + isamp) + c * (4 * per_block) + suc s * 4 + k
        ≡ 4 * (first + (isamp + 1)) + c * (4 * per_block) + s * 4 + k =
      omega arith in
    let source : iptr + chans * 4 + c * 4 + s * (chans * 4) + k
        ≡ iptr + c * 4 + suc s * (chans * 4) + k =
      grind arith in
    let after =
      copy_strided chans 4 (4 * per_block) 4 databuf (4 * ((first + isamp) % 2 ^ 32)) payload
        iptr in
    ap (turn_samples left (isamp + 1) chans first per_block after payload (iptr + chans * 4)) place
    ∙ turn_samples-in left (isamp + 1) chans first per_block after payload (iptr + chans * 4) c s k
        (omega arith) (omega arith) h (omega arith) m
    ∙ ap payload source

-- The loops of both routines put the same bytes.
loops_agree :
    (nchan samps gap first : ℕ) (databuf payload : Memory) (from i : ℕ)
    → first + samps ≤ 2 ^ 32
    → turn_channels nchan 0 nchan samps gap databuf (4 * first) payload from i
      ≡ turn_samples samps 0 nchan first (samps + gap) databuf payload from i
loops_agree nchan samps gap first databuf payload from i fits =
    elim (channel_cases nchan (samps * 4 + 4 * gap) samps (4 * first) i) [
      | inl (c, h, (s, k, l, m, e)) ↦
          let row : c * (samps * 4 + 4 * gap) ≡ c * (4 * (samps + gap)) = grind arith in
          let there : i ≡ 4 * (first + 0) + c * (4 * (samps + gap)) + s * 4 + k = omega arith in
          ap (turn_channels nchan 0 nchan samps gap databuf (4 * first) payload from) e
          ∙ turn_channels-in nchan 0 nchan samps gap databuf (4 * first) payload from c s k h l m
          ∙ ap (λ e. payload (from + e * 4 + s * (nchan * 4) + k)) (omega arith)
          ∙ sym (
              ap (turn_samples samps 0 nchan first (samps + gap) databuf payload from) there
              ∙ turn_samples-in samps 0 nchan first (samps + gap) databuf payload from c s k
                  (omega arith) (omega arith) h l m)
      | inr off ↦
          turn_channels-off nchan 0 nchan samps gap databuf (4 * first) payload from i off
          ∙ sym (
              turn_samples-off samps 0 nchan first (samps + gap) databuf payload from i
                (omega arith)
                (λ c s k h l m e.
                  let row : c * (samps * 4 + 4 * gap) ≡ c * (4 * (samps + gap)) = grind arith in
                  off c s k h l m (omega arith)))
    ]

-- A packet that is inside its block ends in it.
packet_fits : (idx per_block samps : ℕ) → idx < per_block → idx * samps + samps ≤ per_block * samps
packet_fits idx zero samps h = absurd (omega arith)
packet_fits zero (suc per_block) samps h =
    let row : suc per_block * samps ≡ samps + per_block * samps = grind arith in omega arith
packet_fits (suc idx) (suc per_block) samps h =
    let before = packet_fits idx per_block samps (omega arith) in grind arith

-- The arguments of the two loops, where no number wraps.
transpose_arguments :
    (databuf : Memory) (nchan idx per_block : ℕ) (payload : Memory) (size : ℕ)
    → 0 < nchan
    → idx < per_block
    → per_block * samples_per_packet nchan size < 2 ^ 32
    → packet_data_copy_transpose databuf nchan idx per_block payload size
      ≡ some (
          turn_channels nchan 0 nchan
            (samples_per_packet nchan size)
            (per_block * samples_per_packet nchan size - samples_per_packet nchan size)
            databuf
            (4 * (idx * samples_per_packet nchan size))
            payload
            (packet_data size))
unfolding packet_data_copy_transpose
transpose_arguments databuf nchan idx per_block payload size some_channel h small =
    let samps = samples_per_packet nchan size in
    let fits = packet_fits idx per_block samps h in
    let first : idx * samps % 2 ^ 32 ≡ idx * samps = omega arith in
    let gap : (per_block * samps % 2 ^ 32 + 2 ^ 32 - samps) % 2 ^ 32 ≡ per_block * samps - samps =
      omega arith in
    rw (==_of_ne nchan 0 (omega arith)) (rw first (rw gap))

previous_arguments :
    (databuf : Memory) (nchan idx per_block : ℕ) (payload : Memory) (size : ℕ)
    → 0 < nchan
    → idx < per_block
    → per_block * samples_per_packet nchan size < 2 ^ 32
    → previous_transpose databuf nchan idx per_block payload size
      ≡ some (
          turn_samples
            (samples_per_packet nchan size)
            0
            nchan
            (idx * samples_per_packet nchan size)
            (per_block * samples_per_packet nchan size)
            databuf
            payload
            (packet_data size))
unfolding previous_transpose
previous_arguments databuf nchan idx per_block payload size some_channel h small =
    let samps = samples_per_packet nchan size in
    let fits = packet_fits idx per_block samps h in
    let first : idx * samps % 2 ^ 32 ≡ idx * samps = omega arith in
    let block : per_block * samps % 2 ^ 32 ≡ per_block * samps = omega arith in
    rw (==_of_ne nchan 0 (omega arith)) (rw first (rw block))

-- For a packet that is inside its block, of fewer than 2^32 samples of all packets: after the corner
-- turn, byte `k` of its sample `s` of the channel `c` stands with the samples of its channel in the
-- block, behind those of the packets before it.
pub packet_data_copy_transpose_lem :
    (databuf : Memory) (nchan idx per_block : ℕ) (payload : Memory) (size c s k : ℕ)
    → idx < per_block
    → per_block * samples_per_packet nchan size < 2 ^ 32
    → c < nchan
    → s < samples_per_packet nchan size
    → k < 4
    → (out : Memory) × (packet_data_copy_transpose databuf nchan idx per_block payload size
        ≡ some out)
      × (out (
            4 * (idx * samples_per_packet nchan size)
            + c * (4 * (per_block * samples_per_packet nchan size))
            + s * 4
            + k)
          ≡ payload (packet_data size + c * 4 + s * (nchan * 4) + k))
packet_data_copy_transpose_lem databuf nchan idx per_block payload size c s k h small l m n =
    let samps = samples_per_packet nchan size in
    let fits = packet_fits idx per_block samps h in
    let gap = per_block * samps - samps in
    let out =
      turn_channels nchan 0 nchan samps gap databuf (4 * (idx * samps)) payload
        (packet_data size) in
    let width : samps * 4 + 4 * gap ≡ 4 * (per_block * samps) = omega arith in
    let byte =
      ap (λ w. out (4 * (idx * samps) + c * w + s * 4 + k)) (sym width)
      ∙ turn_channels-in nchan 0 nchan samps gap databuf (4 * (idx * samps)) payload
          (packet_data size) c s k l m n
      ∙ ap (λ e. payload (packet_data size + e * 4 + s * (nchan * 4) + k)) (omega arith) in
    let runs = transpose_arguments databuf nchan idx per_block payload size (omega arith) h small in
    (out, runs, byte)

-- For a packet that is inside its block, of fewer than 2^32 samples of all packets, the corner turn
-- leaves the same data buffer as the previous routine, whatever the sizes of the packet.
pub packet_data_copy_transpose-previous_transpose :
    (databuf : Memory) (nchan idx per_block : ℕ) (payload : Memory) (size : ℕ)
    → idx < per_block
    → per_block * samples_per_packet nchan size < 2 ^ 32
    → packet_data_copy_transpose databuf nchan idx per_block payload size
      ≡ previous_transpose databuf nchan idx per_block payload size
unfolding packet_data_copy_transpose previous_transpose
packet_data_copy_transpose-previous_transpose databuf zero idx per_block payload size h small = refl
packet_data_copy_transpose-previous_transpose databuf (suc more) idx per_block payload size h
      small =
    let samps = samples_per_packet (suc more) size in
    let fits = packet_fits idx per_block samps h in
    let block : samps + (per_block * samps - samps) ≡ per_block * samps = omega arith in
    transpose_arguments databuf (suc more) idx per_block payload size (omega arith) h small
    ∙ ap some (λ j i.
      loops_agree (suc more) samps (per_block * samps - samps) (idx * samps) databuf payload
        (packet_data size) i (omega arith) j)
    ∙ ap
        (λ b.
          some (turn_samples samps 0 (suc more) (idx * samps) b databuf payload (packet_data size)))
        block
    ∙ sym (previous_arguments databuf (suc more) idx per_block payload size (omega arith) h small)
