-- ===== src/Guppi/Packets/Parts.antt =====
-- The sequence number of a packet, and where its data are.
use volt_rec.Base.{
  ℕ, zero, suc, ◌+◌, ◌-◌, ◌*◌, ◌/◌, ◌%◌, ◌^◌, ◌<◌, ◌≤◌, ◌≡◌, refl, ap, ◌∙◌, Memory, arith, load,
  byte_of, big_endian, ltb, leb, ◌&&◌, if◌then◌else◌, ◌==◌,
}
use volt_rec.Guppi.Packets.{
  swap_from, change_endian64, packet_seq_num, packet_datasize, packet_data, packet_data_copy,
  expand_spectra, packet_size_1sfa_old,
}

-- The bytes of a memory are bytes.
abbrev pub IsBytes : Memory → Type 0
IsBytes m = (i : ℕ) → m i < 256

pub byte_of-load :
    (m : Memory) (from n k : ℕ) → IsBytes m → k < n → byte_of (load m from n) k ≡ m (from + k)
byte_of-load m from zero k b h = absurd (omega arith)
byte_of-load m from (suc n) zero b h =
    let here : m from ≡ m (from + 0) = ap m (omega arith) in omega (arith, b from)
byte_of-load m from (suc n) (suc k) b h =
    let tail : (m from + 256 * load m (from + 1) n) / 256 ≡ load m (from + 1) n =
      omega (arith, b from) in
    let shift : from + 1 + k ≡ from + suc k = omega arith in
    ap (λ v. byte_of v k) tail ∙ byte_of-load m (from + 1) n k b (omega arith) ∙ ap m shift

change_endian64-bytes :
    (d : ℕ) (m : Memory)
    → byte_of d 0 ≡ m 0
    → byte_of d 1 ≡ m 1
    → byte_of d 2 ≡ m 2
    → byte_of d 3 ≡ m 3
    → byte_of d 4 ≡ m 4
    → byte_of d 5 ≡ m 5
    → byte_of d 6 ≡ m 6
    → byte_of d 7 ≡ m 7
    → change_endian64 d ≡ big_endian m 0 8 0
unfolding change_endian64 swap_from
change_endian64-bytes d m e0 e1 e2 e3 e4 e5 e6 e7 = omega arith

pub byte_of-lt : (v k : ℕ) → byte_of v k < 256
byte_of-lt v zero = omega arith
byte_of-lt v (suc k) = byte_of-lt (v / 256) k

-- The highest byte comes first in network order.
head_byte : (m : Memory) → IsBytes m → big_endian m 0 8 0 % 2 ^ 56 ≡ big_endian m 1 7 0
head_byte m b = omega (arith, b 1, b 2, b 3, b 4, b 5, b 6, b 7)

-- change_endian64 of a loaded word is the word in network order.
pub change_endian64-load :
    (m : Memory) → IsBytes m → change_endian64 (load m 0 8) ≡ big_endian m 0 8 0
change_endian64-load m b =
    let byte = λ (k : ℕ) (h : k < 8). byte_of-load m 0 8 k b h in
    change_endian64-bytes (load m 0 8) m (byte 0 (omega arith)) (byte 1 (omega arith))
      (byte 2 (omega arith)) (byte 3 (omega arith)) (byte 4 (omega arith)) (byte 5 (omega arith))
      (byte 6 (omega arith)) (byte 7 (omega arith))

-- The bytes of a number, the highest first.
abbrev pub digits : ℕ → Memory
digits d i = byte_of d (7 - i)

pub change_endian64-digits : (d : ℕ) → change_endian64 d ≡ load (digits d) 0 8
unfolding change_endian64 swap_from
change_endian64-digits d = refl

pub big_endian-digits : (d : ℕ) → d < 2 ^ 64 → big_endian (digits d) 0 8 0 ≡ d
big_endian-digits d h = omega arith

pub change_endian64_twice : (d : ℕ) → d < 2 ^ 64 → change_endian64 (change_endian64 d) ≡ d
change_endian64_twice d h =
    ap change_endian64 (change_endian64-digits d)
    ∙ change_endian64-load (digits d) (λ i. byte_of-lt d (7 - i))
    ∙ big_endian-digits d h

-- A sequence number is read in network order, without the channel information in its highest
-- byte; and swapping the bytes of a word of 64 bits twice gives the word.
pub change_endian64_lem :
    (payload : Memory) (d : ℕ)
    → IsBytes payload
    → d < 2 ^ 64
    → (packet_seq_num payload ≡ big_endian payload 1 7 0)
      × (change_endian64 (change_endian64 d) ≡ d)
unfolding packet_seq_num
change_endian64_lem payload d b h =
    (omega (arith, change_endian64-load payload b, head_byte payload b), change_endian64_twice d h)

-- The data of a packet of at least 16 bytes are inside it.
packet_data_inside :
    (size : ℕ) → 16 ≤ size → size < 2 ^ 64 → packet_data size + packet_datasize size ≤ size
unfolding packet_data packet_datasize
packet_data_inside size h h' = ground arith

packet_data_copy-byte :
    (out payload : Memory) (size i : ℕ)
    → packet_data_copy out payload size i ≡ (
        if size == packet_size_1sfa_old
        then (if ltb i 8192
            then (if leb 16 (i % 4096) && ltb (i % 4096) 4080
                then payload (8 + i / 4096 * 4064 + (i % 4096 - 16))
                else 0)
            else out i)
        else (if ltb i (packet_datasize size) then payload (packet_data size + i) else out i))
unfolding packet_data_copy expand_spectra packet_data
packet_data_copy-byte out payload size i = ground arith

-- For a packet of at least 16 bytes: the data of an old 1SFA packet are put as two spectra of 4096
-- bytes, each with 16 zero bytes on either side of its 4064 bytes; the data of any other packet are
-- put as they are, and end inside the packet. Nothing behind the 8192 bytes, or behind the data,
-- changes.
pub packet_data_copy_lem :
    (out payload : Memory) (size i : ℕ)
    → 16 ≤ size
    → size < 2 ^ 64
    → (packet_data_copy out payload size i ≡ (
        if size == packet_size_1sfa_old
        then (if ltb i 8192
            then (if leb 16 (i % 4096) && ltb (i % 4096) 4080
                then payload (8 + i / 4096 * 4064 + (i % 4096 - 16))
                else 0)
            else out i)
        else (if ltb i (packet_datasize size) then payload (packet_data size + i) else out i)))
      × (packet_data size + packet_datasize size ≤ size)
packet_data_copy_lem out payload size i h l =
    (packet_data_copy-byte out payload size i, packet_data_inside size h l)
