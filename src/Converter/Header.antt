-- ===== src/Converter/Header.antt =====
-- The header that the recorder writes, read back by the converter.
use volt_rec.Base.{
  ℕ, zero, suc, ◌*◌, ◌^◌, ◌≤◌, ◌<◌, ◌≡◌, refl, ◌⊎◌, ltb→lt, List, [], ◌∷◌, ◌++◌, arith, ok,
  Bool-cases, leb, ltb, ap, ◌∙◌, inl, inr, le_bytes, take, drop, length, if◌then◌else◌,
}
use volt_rec.Base.Int.{ℤ, pos}
use mathlib.Core.List.{append_assoc}
use mathlib.Core.Path.{ap₂}
use volt_rec.Worker.State.{FileBuff}
use volt_rec.FileWriter.{write_header, write_field, ant_bytes}
use volt_rec.Converter.{
  from_le, read_field, read_ids, read_ant_ids, RecordingHeader, too_many_ants, opened, read_header,
}

take-length_append {ℓ} : {A : Type ℓ} (xs ys : List A) → take (length xs) (xs ++ ys) ≡ xs
take-length_append [] ys = refl
take-length_append (x ∷ xs) ys = ap (λ zs. x ∷ zs) (take-length_append xs ys)

drop-length_append {ℓ} : {A : Type ℓ} (xs ys : List A) → drop (length xs) (xs ++ ys) ≡ ys
drop-length_append [] ys = refl
drop-length_append (x ∷ xs) ys = drop-length_append xs ys

from_le-le_bytes_four : (v : ℕ) → v < 2 ^ 32 → from_le (le_bytes 4 v) ≡ v
from_le-le_bytes_four v h = omega arith

from_le-le_bytes_eight : (v : ℕ) → v < 2 ^ 64 → from_le (le_bytes 8 v) ≡ v
from_le-le_bytes_eight v h = omega arith

read_field_four :
    (v : ℕ) (rest : List ℕ) → v < 2 ^ 32 → read_field 4 (le_bytes 4 v ++ rest) ≡ ok (v, rest)
unfolding read_field
read_field_four v rest h = ap (λ (n : ℕ). ok (n, rest)) (from_le-le_bytes_four v h)

read_field_eight :
    (v : ℕ) (rest : List ℕ) → v < 2 ^ 64 → read_field 8 (le_bytes 8 v ++ rest) ≡ ok (v, rest)
unfolding read_field
read_field_eight v rest h = ap (λ (n : ℕ). ok (n, rest)) (from_le-le_bytes_eight v h)

-- The first `n` entries are there, and each is a word of 32 bits.
abbrev pub Words : ℕ → List ℕ → Type 0
Words zero ants = Unit
Words (suc n) [] = ⊥
Words (suc n) (a ∷ ants) = (a < 2 ^ 32) × Words n ants

length-ant_bytes : (n : ℕ) (ants : List ℕ) → Words n ants → length (ant_bytes n ants) ≡ 4 * n
length-ant_bytes zero ants w = refl
length-ant_bytes (suc n) [] w = absurd w
length-ant_bytes (suc n) (a ∷ ants) w = omega (arith, length-ant_bytes n ants w.1)

read_ids-ant_bytes :
    (n : ℕ) (ants : List ℕ) → Words n ants → read_ids n (ant_bytes n ants) ≡ take n ants
read_ids-ant_bytes zero ants w = refl
read_ids-ant_bytes (suc n) [] w = absurd w
read_ids-ant_bytes (suc n) (a ∷ ants) w =
    ap₂ (λ (x : ℕ) (xs : List ℕ). x ∷ xs) (from_le-le_bytes_four a w.0)
      (read_ids-ant_bytes n ants w.1)

read_ant_ids_lem :
    (n : ℕ) (ants rest : List ℕ)
    → n ≤ 4
    → Words n ants
    → read_ant_ids n (ant_bytes n ants ++ rest) ≡ ok (take n ants, rest)
unfolding read_ant_ids
read_ant_ids_lem n ants rest few w = rw (← length-ant_bytes n ants w) (
    rw (take-length_append (ant_bytes n ants) rest) (
      rw (drop-length_append (ant_bytes n ants) rest, read_ids-ant_bytes n ants w)
        (ground (arith, length-ant_bytes n ants w))))

-- The results of the writes of a header where every write is complete.
abbrev pub full_counts : FileBuff → ℕ → ℤ
full_counts f zero = pos 4
full_counts f (suc zero) = pos (4 * f.n_ants)
full_counts f (suc (suc zero)) = pos 4
full_counts f (suc (suc (suc zero))) = pos 4
full_counts f (suc (suc (suc (suc k)))) = pos 8

take-length {ℓ} : {A : Type ℓ} (xs : List A) → take (length xs) xs ≡ xs
take-length [] = refl
take-length (x ∷ xs) = ap (λ ys. x ∷ ys) (take-length xs)

write_field_full :
    (n : ℕ) (bytes : List ℕ) → length bytes ≡ n → write_field (pos n) bytes ≡ ok bytes
unfolding write_field
write_field_full n bytes e = rw (← e) (rw (take-length bytes) (ground arith))

-- The bytes of a header.
abbrev pub header_bytes : FileBuff → List ℕ
header_bytes f =
    le_bytes 4 f.n_ants
    ++ (ant_bytes f.n_ants f.ant_numbers
        ++ (le_bytes 4 f.n_chans ++ (le_bytes 4 f.first_chan ++ le_bytes 8 f.packet_start)))

pub write_header_full :
    (f : FileBuff)
    → Words f.n_ants f.ant_numbers
    → write_header (full_counts f) f ≡ ok (header_bytes f)
unfolding write_header
write_header_full f w = rw (
  write_field_full 4 (le_bytes 4 f.n_ants) refl,
  write_field_full (4 * f.n_ants) (ant_bytes f.n_ants f.ant_numbers)
      (length-ant_bytes f.n_ants f.ant_numbers w),
  write_field_full 4 (le_bytes 4 f.n_chans) refl,
  write_field_full 4 (le_bytes 4 f.first_chan) refl,
  write_field_full 8 (le_bytes 8 f.packet_start) refl,
)

-- The header that the converter has after reading one.
abbrev pub header_of : FileBuff → RecordingHeader
header_of f = record {
  n_ants = f.n_ants;
  ant_ids = take f.n_ants f.ant_numbers;
  n_chan_pkts = f.n_chans;
  chan_start = f.first_chan;
  pkt_start = f.packet_start;
}

read_header_lem :
    (f : FileBuff) (rest : List ℕ)
    → f.n_ants ≤ 4
    → Words f.n_ants f.ant_numbers
    → f.n_chans < 2 ^ 32
    → f.first_chan < 2 ^ 32
    → f.packet_start < 2 ^ 64
    → read_header (header_bytes f ++ rest)
      ≡ ok (if leb 4 f.n_ants then too_many_ants (header_of f) else opened (header_of f) rest)
unfolding read_header
read_header_lem f rest few w hc hf hp = rw (
  append_assoc (le_bytes 4 f.n_ants),
  read_field_four f.n_ants _ (omega arith),
  append_assoc (ant_bytes f.n_ants f.ant_numbers),
  read_ant_ids_lem f.n_ants f.ant_numbers _ few w,
  append_assoc (le_bytes 4 f.n_chans),
  read_field_four f.n_chans _ hc,
  append_assoc (le_bytes 4 f.first_chan),
  read_field_four f.first_chan _ hf,
  read_field_eight f.packet_start rest hp,
)

-- For a configuration of at most four antennas whose fields are words of their C types, a header
-- that the recorder writes completely is read back by the converter field by field with the rest
-- of the file untouched, if there are fewer than four antennas; a recording of four antennas,
-- which the recorder makes, is refused as having too many.
pub header_round_trip :
    (f : FileBuff) (rest : List ℕ)
    → f.n_ants ≤ 4
    → Words f.n_ants f.ant_numbers
    → f.n_chans < 2 ^ 32
    → f.first_chan < 2 ^ 32
    → f.packet_start < 2 ^ 64
    → (bytes : List ℕ) × (write_header (full_counts f) f ≡ ok bytes)
      × (((f.n_ants < 4) × (read_header (bytes ++ rest) ≡ ok (opened (header_of f) rest)))
          ⊎ ((f.n_ants ≡ 4) × (read_header (bytes ++ rest) ≡ ok (too_many_ants (header_of f)))))
header_round_trip f rest few w hc hf hp =
    let back = read_header_lem f rest few w hc hf hp in
    (
      header_bytes f,
      write_header_full f w,
      elim (Bool-cases (ltb f.n_ants 4)) [
        | inl h ↦ inl (ltb→lt f.n_ants 4 h, back ∙ ground arith)
        | inr h ↦ inr (ground (arith, few), back ∙ ground arith)
      ],
    )
