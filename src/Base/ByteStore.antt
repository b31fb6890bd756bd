-- ===== src/Base/ByteStore.antt =====
-- Byte memories: a buffer is the function from an offset to the byte that stands there.
use Prim.Native.Nat.{ℕ, zero, suc, ◌+◌, ◌-◌, ◌*◌, ◌≤◌, ◌<◌}
use mathlib.Core.Path.{◌≡◌}
use mathlib.Core.Logic.{◌⊎◌}
use mathlib.Core.Bool.{◌&&◌}
use native.Mathlib.Omega.{arith}
use Prim.Native.Nat.{◌/◌, ◌%◌}
use mathlib.Core.List.{List, [], ◌∷◌}
use volt_rec.Base.Tests.{ltb, leb, if◌then◌else◌}

abbrev pub Memory : Type 0
Memory = ℕ → ℕ

-- memset(m, 0, n)
abbrev pub clear : Memory → ℕ → Memory
clear m n i = if ltb i n then 0 else m i

-- memcpy(dst + to, src + from, n)
abbrev pub copy : Memory → ℕ → Memory → ℕ → ℕ → Memory
copy dst to src from n i = if leb to i && ltb i (to + n) then src (from + (i - to)) else dst i

-- The `n` bytes at offset `from`, read as a big-endian number behind the digits `acc`.
abbrev pub big_endian : Memory → ℕ → ℕ → ℕ → ℕ
big_endian m from zero acc = acc
big_endian m from (suc n) acc = big_endian m (from + 1) n (acc * 256 + m from)

-- The number of `n` bytes in the byte order of the recording machine (x86: little-endian).
abbrev pub le_bytes : ℕ → ℕ → List ℕ
le_bytes zero v = []
le_bytes (suc n) v = (v % 256) ∷ le_bytes n (v / 256)

pub copy_inside :
    (dst : Memory) (to : ℕ) (src : Memory) (from n k : ℕ)
    → k < n
    → copy dst to src from n (to + k) ≡ src (from + k)
copy_inside dst to src from n k h = ground arith

pub copy_outside :
    (dst : Memory) (to : ℕ) (src : Memory) (from n i : ℕ)
    → (i < to) ⊎ (to + n ≤ i)
    → copy dst to src from n i ≡ dst i
copy_outside dst to src from n i h = ground arith
