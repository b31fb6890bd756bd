-- ===== src/Guppi/S6/Channels.antt =====
-- The place of every sample after the copies of S6 packets.
use volt_rec.Base.{
  ℕ, zero, suc, ◌+◌, ◌-◌, ◌*◌, ◌/◌, ◌<◌, ◌≤◌, ◌≡◌, refl, ap, ◌∙◌, inl, Memory, arith, store, load,
  byte_of, store_inside, store_outside, copy_strided_lem, next_row,
}
use volt_rec.Guppi.Packets.Parts.{IsBytes, byte_of-load}
use volt_rec.Guppi.S6.{
  unpack, split_word, first_row_word, second_row_word, unpack_words, split_words, chan_per_packet,
  s6_packet_data_copy, s6_packet_data_copy_transpose, s6mb_packet_data_copy, copy_start,
  transposed_start,
}
use volt_rec.Guppi.S6.Words.{unpack-byte, first_row_word-byte, second_row_word-byte}

unpack_words-before :
    (left : ℕ) (databuf : Memory) (optr : ℕ) (payload : Memory) (iptr i : ℕ)
    → i < optr
    → unpack_words left databuf optr payload iptr i ≡ databuf i
unfolding unpack_words
unpack_words-before zero databuf optr payload iptr i h = refl
unpack_words-before (suc left) databuf optr payload iptr i h =
    let d = unpack (load payload iptr 8) in
    unpack_words-before left (store databuf optr 8 d) (optr + 8) payload (iptr + 8) i (omega arith)
    ∙ store_outside databuf optr 8 d i (inl h)

unpack_words-in :
    (left : ℕ) (databuf : Memory) (optr : ℕ) (payload : Memory) (iptr w k : ℕ)
    → w < left
    → k < 8
    → unpack_words left databuf optr payload iptr (optr + w * 8 + k)
      ≡ byte_of (unpack (load payload (iptr + w * 8) 8)) k
unfolding unpack_words
unpack_words-in zero databuf optr payload iptr w k h l = absurd (omega arith)
unpack_words-in (suc left) databuf optr payload iptr zero k h l =
    let d = unpack (load payload iptr 8) in
    let here : optr + 0 * 8 + k ≡ optr + k = omega arith in
    let source : iptr ≡ iptr + 0 * 8 = omega arith in
    ap (unpack_words (suc left) databuf optr payload iptr) here
    ∙ unpack_words-before left (store databuf optr 8 d) (optr + 8) payload (iptr + 8) (optr + k)
        (omega arith)
    ∙ store_inside databuf optr 8 d k l
    ∙ ap (λ s. byte_of (unpack (load payload s 8)) k) source
unpack_words-in (suc left) databuf optr payload iptr (suc w) k h l =
    let after = store databuf optr 8 (unpack (load payload iptr 8)) in
    ap (unpack_words left after (optr + 8) payload (iptr + 8)) (next_row optr w 8 k)
    ∙ unpack_words-in left after (optr + 8) payload (iptr + 8) w k (omega arith) l
    ∙ ap (λ s. byte_of (unpack (load payload s 8)) k) (omega arith)

split_word-before :
    (databuf : Memory) (optr row d i : ℕ) → i < optr → split_word databuf optr row d i ≡ databuf i
unfolding split_word
split_word-before databuf optr row d i h =
    let first = store databuf optr 4 (first_row_word d) in
    store_outside first (optr + row) 4 (second_row_word d) i (inl (omega arith))
    ∙ store_outside databuf optr 4 (first_row_word d) i (inl h)

-- The row `e` of the two has the bytes of one half of the word.
abbrev row_word : ℕ → ℕ → ℕ
row_word zero d = first_row_word d
row_word (suc e) d = second_row_word d

split_word-rows :
    (databuf : Memory) (optr row d e k : ℕ)
    → 4 ≤ row
    → e < 2
    → k < 4
    → split_word databuf optr row d (optr + e * row + k) ≡ byte_of (row_word e d) k
unfolding split_word
split_word-rows databuf optr row d zero k apart h l =
    let first = store databuf optr 4 (first_row_word d) in
    ap (split_word databuf optr row d) (omega arith)
    ∙ store_outside first (optr + row) 4 (second_row_word d) (optr + k) (inl (omega arith))
    ∙ store_inside databuf optr 4 (first_row_word d) k l
split_word-rows databuf optr row d (suc zero) k apart h l =
    let first = store databuf optr 4 (first_row_word d) in
    ap (split_word databuf optr row d) (omega arith)
    ∙ store_inside first (optr + row) 4 (second_row_word d) k l
split_word-rows databuf optr row d (suc (suc e)) k apart h l = absurd (omega arith)

row_inside : (row e k : ℕ) → 4 ≤ row → e < 2 → k < 4 → e * row + k < row + row
row_inside row zero k apart h l = omega arith
row_inside row (suc zero) k apart h l = omega arith
row_inside row (suc (suc e)) k apart h l = absurd (omega arith)

split_words-before :
    (left row : ℕ) (databuf : Memory) (optr : ℕ) (payload : Memory) (iptr i : ℕ)
    → i < optr
    → split_words left row databuf optr payload iptr i ≡ databuf i
unfolding split_words
split_words-before zero row databuf optr payload iptr i h = refl
split_words-before (suc left) row databuf optr payload iptr i h =
    let d = load payload iptr 8 in
    split_words-before left row (split_word databuf optr row d) (optr + row + row) payload
      (iptr + 8) i (omega arith)
    ∙ split_word-before databuf optr row d i h

split_words-in :
    (left row : ℕ) (databuf : Memory) (optr : ℕ) (payload : Memory) (iptr w e k : ℕ)
    → 4 ≤ row
    → w < left
    → e < 2
    → k < 4
    → split_words left row databuf optr payload iptr (optr + w * (row + row) + e * row + k)
      ≡ byte_of (row_word e (load payload (iptr + w * 8) 8)) k
unfolding split_words
split_words-in zero row databuf optr payload iptr w e k apart h l m = absurd (omega arith)
split_words-in (suc left) row databuf optr payload iptr zero e k apart h l m =
    let d = load payload iptr 8 in
    let source : iptr ≡ iptr + 0 * 8 = omega arith in
    let inside : e * row + k < row + row = row_inside row e k apart l m in
    ap (split_words (suc left) row databuf optr payload iptr) (omega arith)
    ∙ split_words-before left row (split_word databuf optr row d) (optr + row + row) payload
        (iptr + 8) (optr + e * row + k) (omega arith)
    ∙ split_word-rows databuf optr row d e k apart l m
    ∙ ap (λ s. byte_of (row_word e (load payload s 8)) k) source
split_words-in (suc left) row databuf optr payload iptr (suc w) e k apart h l m =
    let after = split_word databuf optr row (load payload iptr 8) in
    let place : optr + suc w * (row + row) + e * row + k
        ≡ optr + row + row + w * (row + row) + e * row + k =
      grind arith in
    ap (split_words left row after (optr + row + row) payload (iptr + 8)) place
    ∙ split_words-in left row after (optr + row + row) payload (iptr + 8) w e k apart (omega arith)
        l m
    ∙ ap (λ s. byte_of (row_word e (load payload s 8)) k) (omega arith)

row_word-byte :
    (d e p r : ℕ)
    → e < 2
    → p < 2
    → r < 2
    → byte_of (row_word e d) (2 * p + r) ≡ byte_of d (4 * p + 2 * (1 - e) + r)
row_word-byte d zero p r h l m = first_row_word-byte d p r l m
row_word-byte d (suc zero) p r h l m = second_row_word-byte d p r l m
row_word-byte d (suc (suc e)) p r h l m = absurd (omega arith)

-- The copy of an S6 packet of bytes puts the byte `r` of the polarization `p` of the channel `e` of a word
-- behind the other polarization of the same channel.
pub s6_packet_data_copy_lem :
    (databuf : Memory) (chan time obsnchan : ℕ) (payload : Memory) (size w e p r : ℕ)
    → IsBytes payload
    → w < chan_per_packet size / 2
    → e < 2
    → p < 2
    → r < 2
    → s6_packet_data_copy databuf chan time obsnchan payload size
        (copy_start chan time obsnchan + w * 8 + (4 * e + 2 * p + r))
      ≡ payload (8 + w * 8 + (4 * p + 2 * e + r))
unfolding s6_packet_data_copy
s6_packet_data_copy_lem databuf chan time obsnchan payload size w e p r b h l m n =
    unpack_words-in (chan_per_packet size / 2) databuf (copy_start chan time obsnchan) payload 8 w
      (4 * e + 2 * p + r) h (omega arith)
    ∙ unpack-byte (load payload (8 + w * 8) 8) e p r l m n
    ∙ byte_of-load payload (8 + w * 8) 8 (4 * p + 2 * e + r) b (omega arith)

-- The transposed copy of an S6 packet of bytes, with at least one sample in a block, gives the row of
-- a channel the sample of the other channel of its word.
pub s6_packet_data_copy_transpose_lem :
    (databuf : Memory) (chan time ntime : ℕ) (payload : Memory) (size w e p r : ℕ)
    → IsBytes payload
    → 0 < ntime
    → w < chan_per_packet size / 2
    → e < 2
    → p < 2
    → r < 2
    → s6_packet_data_copy_transpose databuf chan time ntime payload size
        (transposed_start chan time ntime + w * (ntime * 8) + e * (ntime * 4) + (2 * p + r))
      ≡ payload (8 + w * 8 + (4 * p + 2 * (1 - e) + r))
unfolding s6_packet_data_copy_transpose
s6_packet_data_copy_transpose_lem databuf chan time ntime payload size w e p r b some_time h l m n =
    let row : ntime * 4 / 4 * 4 ≡ ntime * 4 = omega arith in
    let start = transposed_start chan time ntime in
    let rows : ntime * 8 ≡ ntime * 4 + ntime * 4 = omega arith in
    rw row (
      rw rows (
        split_words-in (chan_per_packet size / 2) (ntime * 4) databuf start payload 8 w e
          (2 * p + r) (omega arith) h l (omega arith)
        ∙ row_word-byte (load payload (8 + w * 8) 8) e p r l m n
        ∙ byte_of-load payload (8 + w * 8) 8 (4 * p + 2 * (1 - e) + r) b (omega arith)))

-- Each of the four channels of an S6 packet of many samples is copied whole to its row, where a row
-- has room for its 512 samples.
pub s6mb_packet_data_copy_lem :
    (databuf : Memory) (chan time ntime : ℕ) (payload : Memory) (c k : ℕ)
    → 512 ≤ ntime
    → c < 4
    → k < 512 * 4
    → s6mb_packet_data_copy databuf chan time ntime payload
        (transposed_start chan time ntime + c * (ntime * 4) + k)
      ≡ payload (8 + c * (512 * 4) + k)
unfolding s6mb_packet_data_copy
s6mb_packet_data_copy_lem databuf chan time ntime payload c k room h l =
    copy_strided_lem 4 (512 * 4) (ntime * 4) (512 * 4) databuf (transposed_start chan time ntime)
      payload 8 c k (omega arith) h l
