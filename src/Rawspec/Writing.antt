-- ===== src/Rawspec/Writing.antt =====
-- write_all of half_hashpipe/hpguppi_rawspec.c. write(2) and the file that it changes are
-- parameters. What is left of the buffer is the list of its bytes.
pub mod Ends
use volt_rec.Base.{ℕ, zero, suc, List, [], ◌∷◌, Option, none, some, length, drop}

-- What write() returns, or none for -1, and the file after it.
abbrev pub Write {ℓ} : Type ℓ → Type ℓ
Write File = File → List ℕ → Option ℕ × File

-- The loop, on fuel: what write_all returns, or none for -1, and the file.
unfoldable pub write_loop {ℓ} :
    {File : Type ℓ} → Write File → ℕ → ℕ → File → List ℕ → Option (Option ℕ × File)
write_loop write bytes_to_write fuel file [] = some (some bytes_to_write, file)
write_loop write bytes_to_write zero file (b ∷ buf) = none
write_loop write bytes_to_write (suc fuel) file (b ∷ buf) =
    let (bytes_written, after) = write file (b ∷ buf) in
    elim bytes_written [
      | none ↦ some (none, after)
      | some n ↦ write_loop write bytes_to_write fuel after (drop n (b ∷ buf))
    ]

unfoldable pub write_all {ℓ} :
    {File : Type ℓ} → Write File → ℕ → File → List ℕ → Option (Option ℕ × File)
unfolding write_loop
write_all write fuel file buf = write_loop write (length buf) fuel file buf
