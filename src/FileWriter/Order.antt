-- ===== src/FileWriter/Order.antt =====
-- The order of the buffers in the files that are written.
use volt_rec.Base.{ℕ, ◌+◌, ◌<◌, ◌≤◌, ◌≡◌, List, [], ◌∷◌}
use volt_rec.Base.Int.{pos, negsuc}
use volt_rec.FileWriter.{Chunk, OutFile, Disk, Writer}

-- All bytes of the buffer are in the file.
abbrev pub IsWhole : Chunk → Type 0
IsWhole c = (n : ℕ) × (c.count ≡ pos n) × (c.len ≤ n)

-- The write of the buffer returned an error.
abbrev pub IsLost : Disk → ℕ → Type 0
IsLost disk order = (n : ℕ) × (disk.data_write order ≡ negsuc n)

-- The chunks of a file, newest first, are whole and have the order numbers from `top` down to
-- `bottom`, one after the other, but for those of the buffers that were lost.
pub data Consecutive (disk : Disk) : List Chunk → ℕ → ℕ → Type 0 where
  one : {c : Chunk} {top : ℕ} → c.order ≡ top → IsWhole c → Consecutive disk (c ∷ []) top top
  lost_first : {top : ℕ} → IsLost disk top → Consecutive disk [] top top
  more :
      {c : Chunk} {cs : List Chunk} {top below bottom : ℕ}
      → c.order ≡ top
      → IsWhole c
      → top ≡ below + 1
      → Consecutive disk cs below bottom
      → Consecutive disk (c ∷ cs) top bottom
  lost :
      {cs : List Chunk} {top below bottom : ℕ}
      → IsLost disk top
      → top ≡ below + 1
      → Consecutive disk cs below bottom
      → Consecutive disk cs top bottom

-- Every file, newest first, holds consecutive order numbers, all above those of the older files;
-- the newest ends at `last`, and `last` is 0 before the first file.
pub data Ordered (disk : Disk) : List OutFile → ℕ → Type 0 where
  nothing : Ordered disk [] 0
  file :
      {f : OutFile} {fs : List OutFile} {top bottom before : ℕ}
      → Consecutive disk f.chunks top bottom
      → before < bottom
      → Ordered disk fs before
      → Ordered disk (f ∷ fs) top

abbrev InOrder : Disk → Writer → Type 0
InOrder disk w = Ordered disk w.files w.last_ord
