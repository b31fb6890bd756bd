-- ===== src/Converter/Files/Turned.antt =====
-- The files of the antennas hold the recorded samples, antenna by antenna, in the order of time.
use volt_rec.Base.{
  ℕ, zero, suc, ◌+◌, ◌*◌, ◌<◌, ◌≤◌, ◌≡◌, refl, sym, ap, ◌∙◌, inl, inr, arith, List, [], Memory, ltb,
  length, take, drop, length-drop, get_or, Bool-cases, ltb→lt, lt→ltb, get_or-take, get_or-drop,
}
use volt_rec.Formats.{rx_data_len, samples_per_packet}
use volt_rec.Converter.{convert, row_len}
use volt_rec.Converter.CornerTurn.{convert_lem}
use volt_rec.Converter.Files.{in_buffer_len, out_buffer_len, buffer_of, write_outputs, convert_file}
use volt_rec.Converter.Files.Lengths.{length-convert, length-write_outputs}
use volt_rec.Converter.Files.Bytes.{
  Holds, Holds-moved, in_output, in_input, write_outputs-length, write_outputs-before,
  write_outputs-there,
}

-- What stands in a file stays there.
convert_file-kept :
    (fuel n_ants n_chan : ℕ) (recorded : List ℕ) (buffers : List Memory) (outs : List (List ℕ))
    (ik p : ℕ)
    → 0 < in_buffer_len n_ants n_chan
    → length recorded ≤ fuel
    → length buffers ≡ length outs
    → ik < length buffers
    → p < length (get_or outs ik [])
    → Holds
        (convert_file fuel n_ants n_chan recorded buffers outs)
        ik
        p
        (get_or (get_or outs ik []) p 0)
unfolding convert_file
convert_file-kept zero n_ants n_chan recorded buffers outs ik p some_bytes h same inside old =
    rw (lt→ltb (length recorded) (in_buffer_len n_ants n_chan) (omega arith)) (outs, refl, refl)
convert_file-kept (suc fuel) n_ants n_chan recorded buffers outs ik p some_bytes h same inside old =
    let len = in_buffer_len n_ants n_chan in
    elim (Bool-cases (ltb (length recorded) len)) [
      | inl short ↦ rw short (outs, refl, refl)
      | inr whole ↦
          let input = buffer_of (take len recorded) in
          let converted = convert input n_chan 0 buffers in
          let out_len = out_buffer_len n_chan in
          let next = write_outputs out_len converted outs in
          let room : len ≤ length recorded = ground arith in
          let left = length-drop len recorded in
          let count = length-convert input n_chan 0 buffers in
          let files = length-write_outputs out_len converted outs in
          let grown = write_outputs-length out_len converted outs ik (omega arith) (count ∙ same) in
          let (done, ends, here) =
            convert_file-kept fuel n_ants n_chan (drop len recorded) converted next ik p some_bytes
              (omega arith) (count ∙ same ∙ sym files) (omega arith) (omega arith) in
          rw whole (
            done,
            ends,
            here
                ∙ write_outputs-before out_len converted outs ik (omega arith) (count ∙ same) p old,
          )
    ]

-- A round of the loop that reads a whole buffer.
convert_file-round :
    (fuel n_ants n_chan : ℕ) (recorded : List ℕ) (buffers : List Memory) (outs : List (List ℕ))
    → in_buffer_len n_ants n_chan ≤ length recorded
    → convert_file (suc fuel) n_ants n_chan recorded buffers outs ≡ (
        let converted =
          convert (buffer_of (take (in_buffer_len n_ants n_chan) recorded)) n_chan 0 buffers in
        convert_file fuel n_ants n_chan
          (drop (in_buffer_len n_ants n_chan) recorded)
          converted
          (write_outputs (out_buffer_len n_chan) converted outs))
unfolding convert_file
convert_file-round fuel n_ants n_chan recorded buffers outs room =
    elim (Bool-cases (ltb (length recorded) (in_buffer_len n_ants n_chan))) [
      | inl short ↦
          let few = ltb→lt (length recorded) (in_buffer_len n_ants n_chan) short in
          absurd (omega arith)
      | inr whole ↦ rw whole refl
    ]

-- What one round writes: the bytes of the first buffer of the recording.
written_byte :
    (n_ants n_chan : ℕ) (recorded : List ℕ) (buffers : List Memory) (outs : List (List ℕ))
    (ik c t b : ℕ)
    → n_chan ≤ 32
    → n_ants ≤ 4
    → length buffers ≡ n_ants
    → length outs ≡ n_ants
    → ik < n_ants
    → c < n_chan
    → t < samples_per_packet
    → b < row_len
    → (let converted =
          convert (buffer_of (take (in_buffer_len n_ants n_chan) recorded)) n_chan 0 buffers in
        get_or
          (get_or (write_outputs (out_buffer_len n_chan) converted outs) ik [])
          (length (get_or outs ik []) + ((t * n_chan + c) * row_len + b))
          0)
      ≡ get_or recorded ((ik * n_chan + c) * rx_data_len + t * row_len + b) 0
written_byte n_ants n_chan recorded buffers outs ik c t b hn ha counted filed hi hc ht hb =
    let len = in_buffer_len n_ants n_chan in
    let input = buffer_of (take len recorded) in
    let count = length-convert input n_chan 0 buffers in
    write_outputs-there (out_buffer_len n_chan) (convert input n_chan 0 buffers) outs ik
      (omega arith) (omega arith) ((t * n_chan + c) * row_len + b)
      (in_output n_ants n_chan ik c t b hi hc ht hb)
    ∙ convert_lem input n_chan buffers ik c t b hn (omega arith) (omega arith) hc ht hb
    ∙ get_or-take len recorded ((ik * n_chan + c) * rx_data_len + t * row_len + b) 0
        (in_input n_ants n_chan ik c t b hi hc ht hb)

-- With at most four antennas and 32 channel packets, all the bytes as fuel, and a recording that has
-- the whole buffer `k`: the loop ends, and in the file of antenna `ik`, behind what it held before,
-- byte `b` of the row of time `t` and channel packet `c` of buffer `k` is byte `b` of sample `t` of
-- that antenna's and channel packet's payload in buffer `k` of the recording.
pub convert_file_turned :
    (fuel n_ants n_chan : ℕ) (recorded : List ℕ) (buffers : List Memory) (outs : List (List ℕ))
    (k ik c t b : ℕ)
    → n_chan ≤ 32
    → n_ants ≤ 4
    → length buffers ≡ n_ants
    → length outs ≡ n_ants
    → ik < n_ants
    → c < n_chan
    → t < samples_per_packet
    → b < row_len
    → length recorded ≤ fuel
    → suc k * in_buffer_len n_ants n_chan ≤ length recorded
    → Holds
        (convert_file fuel n_ants n_chan recorded buffers outs)
        ik
        (length (get_or outs ik [])
          + (k * out_buffer_len n_chan + ((t * n_chan + c) * row_len + b)))
        (get_or recorded
          (k * in_buffer_len n_ants n_chan + ((ik * n_chan + c) * rx_data_len + t * row_len + b))
          0)
convert_file_turned zero n_ants n_chan recorded buffers outs k ik c t b hn ha counted filed hi hc ht
      hb h room =
    let from = in_input n_ants n_chan ik c t b hi hc ht hb in
    let len = in_buffer_len n_ants n_chan in
    let whole : len ≤ suc k * len = grind arith in absurd (omega arith)
convert_file_turned (suc fuel) n_ants n_chan recorded buffers outs zero ik c t b hn ha counted filed
      hi hc ht hb h room =
    let len = in_buffer_len n_ants n_chan in
    let out_len = out_buffer_len n_chan in
    let from = in_input n_ants n_chan ik c t b hi hc ht hb in
    let to = in_output n_ants n_chan ik c t b hi hc ht hb in
    let input = buffer_of (take len recorded) in
    let converted = convert input n_chan 0 buffers in
    let next = write_outputs out_len converted outs in
    let left = length-drop len recorded in
    let count = length-convert input n_chan 0 buffers in
    let files = length-write_outputs out_len converted outs in
    let old = length (get_or outs ik []) in
    let grown = write_outputs-length out_len converted outs ik (omega arith) (omega arith) in
    let at = (t * n_chan + c) * row_len + b in
    let source = (ik * n_chan + c) * rx_data_len + t * row_len + b in
    rw (convert_file-round fuel n_ants n_chan recorded buffers outs (omega arith)) (
      Holds-moved (convert_file fuel n_ants n_chan (drop len recorded) converted next) ik (old + at)
        (old + (0 * out_len + at)) (get_or (get_or next ik []) (old + at) 0)
        (get_or recorded (0 * len + source) 0) (omega arith)
        (written_byte n_ants n_chan recorded buffers outs ik c t b hn ha counted filed hi hc ht hb
          ∙ ap (λ (x : ℕ). get_or recorded x 0) (omega arith))
        (convert_file-kept fuel n_ants n_chan (drop len recorded) converted next ik (old + at)
          (omega arith) (omega arith) (omega arith) (omega arith) (omega arith)))
convert_file_turned (suc fuel) n_ants n_chan recorded buffers outs (suc k) ik c t b hn ha counted
      filed hi hc ht hb h room =
    let len = in_buffer_len n_ants n_chan in
    let out_len = out_buffer_len n_chan in
    let from = in_input n_ants n_chan ik c t b hi hc ht hb in
    let to = in_output n_ants n_chan ik c t b hi hc ht hb in
    let first : len + suc k * len ≡ suc (suc k) * len = grind arith in
    let rows : out_len + k * out_len ≡ suc k * out_len = grind arith in
    let buffers_in : len + k * len ≡ suc k * len = grind arith in
    let input = buffer_of (take len recorded) in
    let converted = convert input n_chan 0 buffers in
    let next = write_outputs out_len converted outs in
    let left = length-drop len recorded in
    let count = length-convert input n_chan 0 buffers in
    let files = length-write_outputs out_len converted outs in
    let old = length (get_or outs ik []) in
    let grown = write_outputs-length out_len converted outs ik (omega arith) (omega arith) in
    let at = (t * n_chan + c) * row_len + b in
    let source = (ik * n_chan + c) * rx_data_len + t * row_len + b in
    rw (convert_file-round fuel n_ants n_chan recorded buffers outs (omega arith)) (
      Holds-moved (convert_file fuel n_ants n_chan (drop len recorded) converted next) ik
        (length (get_or next ik []) + (k * out_len + at)) (old + (suc k * out_len + at))
        (get_or (drop len recorded) (k * len + source) 0) (get_or recorded (suc k * len + source) 0)
        (omega arith)
        (get_or-drop len recorded (k * len + source) 0
          ∙ ap (λ (x : ℕ). get_or recorded x 0) (omega arith))
        (convert_file_turned fuel n_ants n_chan (drop len recorded) converted next k ik c t b hn ha
          (omega arith) (omega arith) hi hc ht hb (omega arith) (omega arith)))
