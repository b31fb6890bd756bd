-- ===== src/Converter/Files/Bytes.antt =====
-- Where the bytes of a recording stand in the files of the antennas.
use volt_rec.Base.{
  ◌*◌, ◌≤◌, sym, ℕ, zero, suc, ◌+◌, ◌<◌, ◌≡◌, refl, ap, ◌∙◌, arith, List, [], ◌∷◌, ◌++◌, Option,
  some, Memory, length, length-append, get_or, get_or-append_left, get_or-append_right,
}
use volt_rec.Formats.{rx_data_len, samples_per_packet}
use volt_rec.Converter.{row_len}
use volt_rec.Converter.Files.{in_buffer_len, out_buffer_len, bytes_from, write_outputs}
use volt_rec.Converter.Files.Lengths.{length-bytes_from}

get_or-bytes_from :
    (m : Memory) (from n i : ℕ) → i < n → get_or (bytes_from m from n) i 0 ≡ m (from + i)
get_or-bytes_from m from zero i h = absurd (omega arith)
get_or-bytes_from m from (suc n) zero h = ap m (omega arith)
get_or-bytes_from m from (suc n) (suc i) h =
    get_or-bytes_from m (from + 1) n i (omega arith) ∙ ap m (omega arith)

get_or-write_outputs :
    (n : ℕ) (buffers : List Memory) (outs : List (List ℕ)) (ik : ℕ)
    → ik < length buffers
    → length buffers ≡ length outs
    → get_or (write_outputs n buffers outs) ik []
      ≡ get_or outs ik [] ++ bytes_from (get_or buffers ik (λ _. 0)) 0 n
unfolding write_outputs
get_or-write_outputs n [] outs ik h same = absurd (omega arith)
get_or-write_outputs n (m ∷ buffers) [] ik h same = absurd (omega arith)
get_or-write_outputs n (m ∷ buffers) (out ∷ outs) zero h same = refl
get_or-write_outputs n (m ∷ buffers) (out ∷ outs) (suc ik) h same =
    get_or-write_outputs n buffers outs ik (omega arith) (omega arith)

-- The byte `p` of the file of antenna `ik` at the end of the loop.
abbrev pub Holds : Option (List (List ℕ)) → ℕ → ℕ → ℕ → Type 0
Holds result ik p byte =
    (done : List (List ℕ)) × (result ≡ some done) × (get_or (get_or done ik []) p 0 ≡ byte)

-- One buffer written: the file before it stays, and is longer by the buffer.
module _ (n : ℕ) (buffers : List Memory) (outs : List (List ℕ)) (ik : ℕ)
    (inside : ik < length buffers) (same : length buffers ≡ length outs) where
  pub write_outputs-length :
      length (get_or (write_outputs n buffers outs) ik []) ≡ length (get_or outs ik []) + n
  write_outputs-length = rw (get_or-write_outputs n buffers outs ik inside same) (
      omega (
        arith,
        length-append (get_or outs ik []) (bytes_from (get_or buffers ik (λ _. 0)) 0 n),
        length-bytes_from (get_or buffers ik (λ _. 0)) 0 n,
      ))

  pub write_outputs-before :
      (p : ℕ)
      → p < length (get_or outs ik [])
      → get_or (get_or (write_outputs n buffers outs) ik []) p 0 ≡ get_or (get_or outs ik []) p 0
  write_outputs-before p h =
      rw (get_or-write_outputs n buffers outs ik inside same)
        (get_or-append_left (get_or outs ik []) (bytes_from (get_or buffers ik (λ _. 0)) 0 n) p 0 h)

  pub write_outputs-there :
      (i : ℕ)
      → i < n
      → get_or (get_or (write_outputs n buffers outs) ik []) (length (get_or outs ik []) + i) 0
        ≡ get_or buffers ik (λ _. 0) i
  write_outputs-there i h = rw (get_or-write_outputs n buffers outs ik inside same) (
      get_or-append_right (get_or outs ik []) (bytes_from (get_or buffers ik (λ _. 0)) 0 n) i 0
      ∙ get_or-bytes_from (get_or buffers ik (λ _. 0)) 0 n i h
      ∙ ap (get_or buffers ik (λ _. 0)) (omega arith))

-- The same byte at the same place, written in another way.
pub Holds-moved :
    (result : Option (List (List ℕ))) (ik p p' byte byte' : ℕ)
    → p ≡ p'
    → byte ≡ byte'
    → Holds result ik p byte
    → Holds result ik p' byte'
Holds-moved result ik p p' byte byte' at same (done, ends, here) =
    (done, ends, ap (λ (x : ℕ). get_or (get_or done ik []) x 0) (sym at) ∙ here ∙ same)

-- The places of a byte in a buffer of either kind.
module _ (n_ants n_chan ik c t b : ℕ) (in_ants : ik < n_ants) (in_chans : c < n_chan)
    (in_samples : t < samples_per_packet) (in_row : b < row_len) where
  pub in_output : (t * n_chan + c) * row_len + b < out_buffer_len n_chan
  in_output = let rows : t * n_chan + n_chan ≤ 16 * n_chan = grind arith in omega arith

  pub in_input : (ik * n_chan + c) * rx_data_len + t * row_len + b < in_buffer_len n_ants n_chan
  in_input =
      let packets : ik * n_chan + n_chan ≤ n_ants * n_chan = grind arith in
      let all : in_buffer_len n_ants n_chan ≡ n_ants * n_chan * rx_data_len = grind arith in
      omega arith
