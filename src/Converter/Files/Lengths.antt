-- ===== src/Converter/Files/Lengths.antt =====
-- What the files of the antennas hold after the program.
use volt_rec.Base.{
  ℕ, zero, suc, ◌+◌, ◌*◌, ◌<◌, ◌≤◌, ◌≡◌, refl, sym, ap, ◌∙◌, inl, inr, arith, List, [], ◌∷◌, ◌++◌,
  Option, some, Memory, ltb, length, take, drop, length-drop, length-append, take-append-drop,
  replicate, map, Bool-cases, ltb→lt, lt→ltb,
}
use mathlib.Core.List.{append_assoc, append-nil}
use volt_rec.Converter.{convert}
use volt_rec.Converter.Files.{
  write_ext_header, open_outputs, in_buffer_len, out_buffer_len, buffer_of, bytes_from,
  write_outputs, convert_file,
}

write_ext_header-all :
    (fuel : ℕ) (out header : List ℕ)
    → length header ≤ fuel
    → write_ext_header fuel out header ≡ some (out ++ header, [])
unfolding write_ext_header
write_ext_header-all fuel out [] h = ap (λ o. some (o, [])) (sym (append-nil out))
write_ext_header-all zero out (b ∷ header) h = absurd (omega arith)
write_ext_header-all (suc fuel) out (b ∷ header) h =
    let left = length-drop 4096 (b ∷ header) in
    write_ext_header-all fuel (out ++ take 4096 (b ∷ header)) (drop 4096 (b ∷ header)) (omega arith)
    ∙ ap (λ o. some (o, []))
        (append_assoc out (take 4096 (b ∷ header)) (drop 4096 (b ∷ header))
          ∙ ap (λ o. out ++ o) (take-append-drop 4096 (b ∷ header)))

open_outputs-empty : (fuel n : ℕ) → open_outputs fuel n [] ≡ some (replicate n [])
unfolding open_outputs write_ext_header
open_outputs-empty fuel zero = refl
open_outputs-empty fuel (suc n) = rw (open_outputs-empty fuel n, open_outputs)

-- Only the file of the first antenna gets the header of the second argument; for the others the
-- header has been read to its end.
pub open_outputs_lem :
    (fuel n : ℕ) (header : List ℕ)
    → length header ≤ fuel
    → open_outputs fuel (suc n) header ≡ some (header ∷ replicate n [])
unfolding open_outputs
open_outputs_lem fuel n header h =
    rw (write_ext_header-all fuel [] header h, open_outputs)
      (rw (open_outputs-empty fuel n, open_outputs))

pub length-bytes_from : (m : Memory) (from n : ℕ) → length (bytes_from m from n) ≡ n
length-bytes_from m from zero = refl
length-bytes_from m from (suc n) = ap suc (length-bytes_from m (from + 1) n)

pub length-convert :
    (input : Memory) (n_chan ik : ℕ) (outs : List Memory)
    → length (convert input n_chan ik outs) ≡ length outs
unfolding convert
length-convert input n_chan ik [] = refl
length-convert input n_chan ik (out ∷ outs) = ap suc (length-convert input n_chan (ik + 1) outs)

-- Every file is longer by `n` bytes.
write_outputs-longer :
    (n : ℕ) (buffers : List Memory) (outs : List (List ℕ))
    → length buffers ≡ length outs
    → map length (write_outputs n buffers outs) ≡ map (λ l. l + n) (map length outs)
unfolding write_outputs
write_outputs-longer n [] [] h = refl
write_outputs-longer n [] (out ∷ outs) h = absurd (omega arith)
write_outputs-longer n (m ∷ buffers) [] h = absurd (omega arith)
write_outputs-longer n (m ∷ buffers) (out ∷ outs) h =
    let rest = write_outputs-longer n buffers outs (omega arith) in
    let here : length (out ++ bytes_from m 0 n) ≡ length out + n =
      omega (arith, length-append out (bytes_from m 0 n), length-bytes_from m 0 n) in
    ap (λ l. l ∷ map length (write_outputs n buffers outs)) here
    ∙ ap (λ ls. (length out + n) ∷ ls) rest

pub length-write_outputs :
    (n : ℕ) (buffers : List Memory) (outs : List (List ℕ))
    → length (write_outputs n buffers outs) ≡ length outs
unfolding write_outputs
length-write_outputs n [] outs = refl
length-write_outputs n (m ∷ buffers) [] = refl
length-write_outputs n (m ∷ buffers) (out ∷ outs) = ap suc (length-write_outputs n buffers outs)

map_add_once :
    (q o : ℕ) (ls : List ℕ)
    → map (λ l. l + q * o) (map (λ l. l + o) ls) ≡ map (λ l. l + suc q * o) ls
map_add_once q o [] = refl
map_add_once q o (l ∷ ls) =
    let here : l + o + q * o ≡ l + suc q * o = grind arith in
    ap (λ x. x ∷ map (λ l. l + q * o) (map (λ l. l + o) ls)) here
    ∙ ap (λ xs. (l + suc q * o) ∷ xs) (map_add_once q o ls)

map_add_none : (o : ℕ) (ls : List ℕ) → ls ≡ map (λ l. l + 0 * o) ls
map_add_none o [] = refl
map_add_none o (l ∷ ls) =
    let here : l ≡ l + 0 * o = omega arith in
    ap (λ x. x ∷ ls) here ∙ ap (λ xs. (l + 0 * o) ∷ xs) (map_add_none o ls)

-- How the loop ends: after `q` whole buffers, and a rest of `r` bytes that no file gets.
abbrev pub Converted : ℕ → ℕ → List ℕ → List (List ℕ) → Option (List (List ℕ)) → Type 0
Converted in_len out_len recorded outs result =
    (q : ℕ) × (r : ℕ) × (done : List (List ℕ)) × (length recorded ≡ q * in_len + r)
    × (r < in_len)
    × (result ≡ some done)
    × (map length done ≡ map (λ l. l + q * out_len) (map length outs))

Converted-none :
    (in_len out_len : ℕ) (recorded : List ℕ) (outs : List (List ℕ))
    → length recorded < in_len
    → Converted in_len out_len recorded outs (some outs)
Converted-none in_len out_len recorded outs h =
    (0, length recorded, outs, omega arith, h, refl, map_add_none out_len (map length outs))

Converted-next :
    (in_len out_len : ℕ) (recorded : List ℕ) (outs next : List (List ℕ))
    (result : Option (List (List ℕ)))
    → in_len ≤ length recorded
    → map length next ≡ map (λ l. l + out_len) (map length outs)
    → Converted in_len out_len (drop in_len recorded) next result
    → Converted in_len out_len recorded outs result
Converted-next in_len out_len recorded outs next result h longer (q, r, done, e, l, ends, lengths) =
    let left = length-drop in_len recorded in
    let row : suc q * in_len ≡ in_len + q * in_len = grind arith in
    (
      suc q,
      r,
      done,
      omega arith,
      l,
      ends,
      lengths ∙ ap (map (λ l. l + q * out_len)) longer ∙ map_add_once q out_len (map length outs),
    )

-- The loop over the data ends, where a buffer is not empty: of the recorded data only the whole
-- buffers are converted, and each file has got one output buffer for each of them.
pub convert_file_lem :
    (fuel n_ants n_chan_pkts : ℕ) (recorded : List ℕ) (buffers : List Memory) (outs : List (List ℕ))
    → 0 < in_buffer_len n_ants n_chan_pkts
    → length recorded ≤ fuel
    → length buffers ≡ length outs
    → Converted
        (in_buffer_len n_ants n_chan_pkts)
        (out_buffer_len n_chan_pkts)
        recorded
        outs
        (convert_file fuel n_ants n_chan_pkts recorded buffers outs)
unfolding convert_file
convert_file_lem zero n_ants n_chan_pkts recorded buffers outs some_bytes h same =
    let len = in_buffer_len n_ants n_chan_pkts in
    rw (lt→ltb (length recorded) len (omega arith))
      (Converted-none len (out_buffer_len n_chan_pkts) recorded outs (omega arith))
convert_file_lem (suc fuel) n_ants n_chan_pkts recorded buffers outs some_bytes h same =
    let len = in_buffer_len n_ants n_chan_pkts in
    let out_len = out_buffer_len n_chan_pkts in
    elim (Bool-cases (ltb (length recorded) len)) [
      | inl short ↦
          rw short (Converted-none len out_len recorded outs (ltb→lt (length recorded) len short))
      | inr whole ↦
          let input = buffer_of (take len recorded) in
          let converted = convert input n_chan_pkts 0 buffers in
          let next = write_outputs out_len converted outs in
          let room : len ≤ length recorded = ground arith in
          let left = length-drop len recorded in
          let count = length-convert input n_chan_pkts 0 buffers in
          let files = length-write_outputs out_len converted outs in
          rw whole (
            Converted-next len out_len recorded outs next
              (convert_file fuel n_ants n_chan_pkts (drop len recorded) converted next) room
              (write_outputs-longer out_len converted outs (count ∙ same))
              (convert_file_lem fuel n_ants n_chan_pkts (drop len recorded) converted next
                some_bytes (omega arith) (count ∙ same ∙ sym files)))
    ]
