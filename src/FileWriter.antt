-- ===== src/FileWriter.antt =====
-- full_custom/file_thread.c: the thread that writes filled buffers to files in order.
pub mod Order
pub mod Putting
pub mod Gap
pub mod Shifting
use volt_rec.Base.{
  ℕ, zero, suc, ◌+◌, ◌-◌, ◌*◌, ◌%◌, ◌^◌, Bool, true, false, not, ◌&&◌, ◌||◌, List, [], ◌∷◌, ◌++◌,
  Result, ok, err, ◌>>=◌, io, Memory, ltb, leb, ◌==◌, if◌then◌else◌, le_bytes, take, get_or, length,
}
use volt_rec.Base.Int.{ℤ, pos, negsuc, pos_part}
use volt_rec.Formats.{max_order_misses, time_int_per_buffer}
use volt_rec.Pool.{
  Pool, fetch_buffer, got, failed, waiting, return_buffer, return_empty_buffer, any_buf_full,
}
use volt_rec.Worker.State.{FileBuff}

-- What was written of one buffer: its order number, the length asked for, the count that write
-- returned, and the memory it came from.
pub record Chunk : Type 0 where
  pub order : ℕ
  pub len : ℕ
  pub count : ℤ
  pub bytes : Memory

-- An output file: the number in its name, its header and its chunks, the newest first.
pub record OutFile : Type 0 where
  pub number : ℕ
  pub header : List ℕ
  pub chunks : List Chunk

-- What the system answers: whether open succeeds for a file number, the result of each of the five
-- writes of a file's header, and of the write of a buffer with its order number.
pub record Disk : Type 0 where
  pub opens : ℕ → Bool
  pub header_write : ℕ → ℕ → ℤ
  pub data_write : ℕ → ℤ

-- The 64 bits of a ssize_t.
abbrev pub as_unsigned : ℤ → ℕ
as_unsigned (pos n) = n
as_unsigned (negsuc n) = 2 ^ 64 - 1 - n

-- The test `write(...) < len`: `len` is a size_t, so the result is compared without its sign.
abbrev pub short_write : ℤ → ℕ → Bool
short_write count len = ltb (as_unsigned count) len

-- One write of the header: the bytes that reach the file.
unfoldable pub write_field : ℤ → List ℕ → Result (List ℕ)
write_field count bytes =
    if short_write count (length bytes) then err io else ok (take (pos_part count) bytes)

abbrev pub ant_bytes : ℕ → List ℕ → List ℕ
ant_bytes zero ants = []
ant_bytes (suc n) [] = []
ant_bytes (suc n) (a ∷ ants) = le_bytes 4 a ++ ant_bytes n ants

-- `counts` are the results of the five calls of write.
unfoldable pub write_header : (ℕ → ℤ) → FileBuff → Result (List ℕ)
write_header counts f = do
  n_ants ← write_field (counts 0) (le_bytes 4 f.n_ants)
  ants ← write_field (counts 1) (ant_bytes f.n_ants f.ant_numbers)
  n_chans ← write_field (counts 2) (le_bytes 4 f.n_chans)
  first_chan ← write_field (counts 3) (le_bytes 4 f.first_chan)
  packet_start ← write_field (counts 4) (le_bytes 8 f.packet_start)
  ok (n_ants ++ (ants ++ (n_chans ++ (first_chan ++ packet_start))))

-- The local variables of file_writer_work, the shared buffers, and the files so far, the newest
-- first. `file_int` is the newest file.
pub record Writer : Type 0 where
  pub consec_file : ℕ
  pub n_misses : ℕ
  pub last_ord : ℕ
  pub file : FileBuff
  pub files : List OutFile

-- open and writeHeader for the file number consec_file.
unfoldable pub open_file : Disk → Writer → Result Writer
unfolding write_header
open_file disk w =
    if disk.opens w.consec_file
    then write_header (disk.header_write w.consec_file) w.file >>= (λ header. ok (record w {
      files = record { number = w.consec_file; header = header; chunks = [] } ∷ w.files;
    }))
    else err io

-- The newest file after a write that returned `count`: nothing reaches it where that is an error.
abbrev pub add_counted : ℤ → Chunk → List OutFile → List OutFile
add_counted count c [] = []
add_counted (pos n) c (f ∷ files) = record f { chunks = c ∷ f.chunks } ∷ files
add_counted (negsuc n) c (f ∷ files) = f ∷ files

abbrev pub add_chunk : Chunk → List OutFile → List OutFile
add_chunk c files = add_counted c.count c files

abbrev pub with_pool : Writer → Pool → Writer
with_pool w p = record w { file = record (w.file) { pool = p } }

abbrev pub chunk_of : Disk → ℕ → ℕ → ℕ → Writer → Chunk
chunk_of disk index order len w = record {
  order = order;
  len = len;
  count = disk.data_write order;
  bytes = get_or w.file.pool.store index (λ _. 0);
}

-- The end of a round: the first file is opened, the buffer is written and given back.
unfoldable pub write_buffer : Disk → ℕ → ℕ → ℕ → Writer → Result Writer
unfolding open_file
write_buffer disk index order len w = do
  opened ← elim (w.last_ord == 0) [ true ↦ open_file disk w | false ↦ ok w ]
  elim (short_write (disk.data_write order) len) [
    | true ↦ err io
    | false ↦ return_empty_buffer opened.file.pool index >>= λ p. ok (
        with_pool
          (record opened {
            last_ord = order;
            files = add_chunk (chunk_of disk index order len w) opened.files;
          })
          p)
  ]

-- A gap that has lasted too long: a new file begins at the order number that is there.
unfoldable pub next_file : Disk → ℕ → Writer → Result Writer
unfolding open_file
next_file disk order w = open_file disk (record w {
  n_misses = 0;
  consec_file = w.consec_file + 1;
  last_ord = order - 1;
  file = record (w.file) {
    packet_start = (order * time_int_per_buffer + w.file.packet_start + 2 ^ 64 - 1) % 2 ^ 64;
  };
})

-- The claimed buffer `index`, of order number `order` and length `len`.
unfoldable pub handle_buffer : Disk → ℕ → ℕ → ℕ → Writer → Result Writer
unfolding write_buffer next_file
handle_buffer disk index order len w = elim (w.last_ord + 1 == order) [
  | true ↦ write_buffer disk index order len (record w { n_misses = 0 })
  | false ↦ elim (leb order w.last_ord) [
    | true ↦ return_empty_buffer w.file.pool index >>= λ p. ok (with_pool w p)
    | false ↦ elim (not (w.last_ord == 0) && ltb max_order_misses (w.n_misses + 1)) [
      | true ↦ next_file disk order w >>= write_buffer disk index order len
      | false ↦ return_buffer w.file.pool index (pos order) len >>= λ p.
          ok (with_pool (record w { n_misses = w.n_misses + 1 }) p)
    ]
  ]
]

-- The test of the loop.
unfoldable pub writer_goes_on : Bool → Writer → Bool
unfolding any_buf_full
writer_goes_on keep_going w = keep_going || not (any_buf_full w.file.pool == 0)

-- One round of the loop. fetchBuffer returns positive order numbers only.
unfoldable pub writer_round : Bool → Disk → Writer → Result Writer
unfolding handle_buffer
writer_round keep_going disk w = elim (fetch_buffer keep_going w.file.pool) [
  | got index order len p ↦ handle_buffer disk index (pos_part order) len (with_pool w p)
  | failed p ↦ ok (with_pool w p)
  | waiting ↦ ok w
]
