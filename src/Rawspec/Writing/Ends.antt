-- ===== src/Rawspec/Writing/Ends.antt =====
-- The loop of write_all ends, and what is then in the file.
use volt_rec.Base.{
  ℕ, zero, suc, ◌≤◌, ◌<◌, ◌≡◌, refl, sym, ap, ◌∙◌, ◌⊎◌, inl, inr, arith, List, [], ◌∷◌, ◌++◌,
  Option, none, some, length, take, drop, length-drop, take-append-drop,
}
use mathlib.Core.List.{append_assoc, append-nil}
use volt_rec.Rawspec.Writing.{Write, write_loop, write_all}

-- What is relied on of write(2) for a buffer that is not empty: it appends at least one byte and
-- at most all of the buffer, and returns their number, or it returns -1 and leaves the file.
pub record WriteLaws {ℓ} {File : Type ℓ} (write : Write File) (content : File → List ℕ)
    : Type ℓ where
  pub wrote :
      (file after : File) (b : ℕ) (buf : List ℕ) (n : ℕ)
      → write file (b ∷ buf) ≡ (some n, after)
      → (0 < n) × (n ≤ length (b ∷ buf)) × (content after ≡ content file ++ take n (b ∷ buf))
  pub refused :
      (file after : File) (b : ℕ) (buf : List ℕ)
      → write file (b ∷ buf) ≡ (none, after)
      → content after ≡ content file

module _ {ℓ} {File : Type ℓ} (write : Write File) (content : File → List ℕ)
    (laws : WriteLaws write content) where
  open laws use {wrote, refused}

  -- The whole buffer is in the file, or a part of it and the result is -1.
  abbrev pub Ended : ℕ → File → List ℕ → Option ℕ × File → Type 0
  Ended total file buf (result, after) =
      ((result ≡ some total) × (content after ≡ content file ++ buf))
      ⊎ ((result ≡ none)
          × ((written : List ℕ) × (left : List ℕ) × (buf ≡ written ++ left)
              × (0 < length left)
              × (content after ≡ content file ++ written)))

  Ended-step :
      (total n : ℕ) (file next : File) (buf : List ℕ) (r : Option ℕ × File)
      → n ≤ length buf
      → content next ≡ content file ++ take n buf
      → Ended total next (drop n buf) r
      → Ended total file buf r
  Ended-step total n file next buf r room e (inl (done, all)) = inl (
    done,
    all
        ∙ ap (λ c. c ++ drop n buf) e
        ∙ append_assoc (content file) (take n buf) (drop n buf)
        ∙ ap (λ c. content file ++ c) (take-append-drop n buf),
  )
  Ended-step total n file next buf r room e (inr (failed, (written, left, split, more, part))) =
      inr (
        failed,
        (
          take n buf ++ written,
          left,
          sym (take-append-drop n buf)
              ∙ ap (λ c. take n buf ++ c) split
              ∙ sym (append_assoc (take n buf) written left),
          more,
          part ∙ ap (λ c. c ++ written) e ∙ append_assoc (content file) (take n buf) written,
        ),
      )

  write_loop_ends :
      (total fuel : ℕ) (file : File) (buf : List ℕ)
      → length buf ≤ fuel
      → (r : Option ℕ × File) × (write_loop write total fuel file buf ≡ some r)
        × Ended total file buf r
  unfolding write_loop
  write_loop_ends total fuel file [] h =
      ((some total, file), refl, inl (refl, sym (append-nil (content file))))
  write_loop_ends total zero file (b ∷ buf) h = absurd (omega arith)
  write_loop_ends total (suc fuel) file (b ∷ buf) h =
      go (λ after rest room. write_loop_ends total fuel after rest room) (write file (b ∷ buf)) refl
    where
      go :
          ((after : File) (rest : List ℕ)
            → length rest ≤ fuel
            → (r : Option ℕ × File) × (write_loop write total fuel after rest ≡ some r)
              × Ended total after rest r)
          → (w : Option ℕ × File) → write file (b ∷ buf) ≡ w
          → (r : Option ℕ × File) × (write_loop write total (suc fuel) file (b ∷ buf) ≡ some r)
            × Ended total file (b ∷ buf) r
      go next (none, after) e =
          let same = refused file after b buf e ∙ sym (append-nil (content file)) in
          (
            (none, after),
            rw (ap (λ x. x.0) e, write_loop) (ap (λ x. some (none, x.1)) e),
            inr (refl, ([], b ∷ buf, refl, omega arith, same)),
          )
      go next (some n, after) e =
          let (some_byte, most, added) = wrote file after b buf n e in
          let left = length-drop n (b ∷ buf) in
          let (r, ends, ended) = next after (drop n (b ∷ buf)) (omega arith) in
          (
            r,
            rw (ap (λ x. x.0) e, write_loop)
                (ap (λ x. write_loop write total fuel x.1 (drop n (b ∷ buf))) e ∙ ends),
            Ended-step total n file after (b ∷ buf) r most added ended,
          )

  -- write_all returns after at most as many calls of write() as the buffer has bytes: it returns
  -- the number of bytes, and the file has the whole buffer behind what it had; or it returns -1,
  -- and the file has a part of the buffer, not the whole, behind what it had.
  pub write_all_ends :
      (fuel : ℕ) (file : File) (buf : List ℕ)
      → length buf ≤ fuel
      → (r : Option ℕ × File) × (write_all write fuel file buf ≡ some r)
        × Ended (length buf) file buf r
  unfolding write_all
  write_all_ends fuel file buf h = write_loop_ends (length buf) fuel file buf h
