-- ===== src/FileWriter/Shifting.antt =====
-- The packet start between and after the gaps.
use volt_rec.Base.{
  ℕ, ◌+◌, ◌%◌, ◌^◌, ◌<◌, ◌≡◌, refl, Bool, true, false, not, ◌&&◌, List, ◌∷◌, arith, ok, OnOk,
  OnOk->>=, OnOk-all, Bool-cases, inl, inr, ◌==◌, leb, ltb, length,
}
use volt_rec.Base.Int.{pos, pos_part}
use volt_rec.Formats.{max_order_misses}
use volt_rec.Pool.{fetch_buffer, got, failed, waiting, Fetch, return_empty_buffer, return_buffer}
use volt_rec.Pool.Handing.{fetched}
use volt_rec.FileWriter.{
  Disk, Writer, open_file, write_header, write_buffer, next_file, handle_buffer, writer_round,
  short_write, with_pool,
}
use volt_rec.FileWriter.Gap.{shift}

-- In 64-bit words, the packet start is the start of the recording and what the gaps have added, as
-- many as consec_file counts.
abbrev pub IsShifted : ℕ → Writer → Type 0
IsShifted start w =
    (earlier : List ℕ) × (length earlier ≡ w.consec_file)
    × (w.file.packet_start % 2 ^ 64 ≡ (start + shift earlier) % 2 ^ 64)

open_file-IsShifted :
    (start : ℕ) (disk : Disk) (w : Writer)
    → IsShifted start w
    → OnOk (IsShifted start) (open_file disk w)
unfolding open_file
open_file-IsShifted start disk w h = elim (Bool-cases (disk.opens w.consec_file)) [
  | inl opens ↦ rw opens (
      OnOk->>= (λ _. Unit) (IsShifted start) (write_header (disk.header_write w.consec_file) w.file)
        _ (OnOk-all (λ _. Unit) _ (λ _. tt)) (λ header _. h))
  | inr fails ↦ rw fails tt
]

write_buffer-IsShifted :
    (start : ℕ) (disk : Disk) (index order len : ℕ) (w : Writer)
    → IsShifted start w
    → OnOk (IsShifted start) (write_buffer disk index order len w)
unfolding write_buffer
write_buffer-IsShifted start disk index order len w h =
    OnOk->>= (IsShifted start) (IsShifted start)
      (elim (w.last_ord == 0) [ true ↦ open_file disk w | false ↦ ok w ]) _
      (elim (Bool-cases (w.last_ord == 0)) [
        | inl first ↦ rw first (open_file-IsShifted start disk w h)
        | inr begun ↦ rw begun h
      ])
      (λ v kept. elim (Bool-cases (short_write (disk.data_write order) len)) [
        | inl short ↦ rw short tt
        | inr passed ↦ rw passed (
            OnOk->>= (λ _. Unit) (IsShifted start) (return_empty_buffer v.file.pool index) _
              (OnOk-all (λ _. Unit) _ (λ _. tt)) (λ p _. kept))
      ])

next_file-IsShifted :
    (start : ℕ) (disk : Disk) (order : ℕ) (w : Writer)
    → 0 < order
    → IsShifted start w
    → OnOk (IsShifted start) (next_file disk order w)
unfolding next_file
next_file-IsShifted start disk order w above (earlier, count, h) =
    open_file-IsShifted start disk _ (order ∷ earlier, omega arith, omega arith)

handle_buffer-IsShifted :
    (start : ℕ) (disk : Disk) (index order len : ℕ) (w : Writer)
    → 0 < order
    → IsShifted start w
    → OnOk (IsShifted start) (handle_buffer disk index order len w)
unfolding handle_buffer
handle_buffer-IsShifted start disk index order len w above h =
    elim (Bool-cases (w.last_ord + 1 == order)) [
      | inl next ↦
          rw (next, handle_buffer)
            (write_buffer-IsShifted start disk index order len (record w { n_misses = 0 }) h)
      | inr other ↦
          rw (other, handle_buffer)
            (elim (Bool-cases (leb order w.last_ord)) [
              | inl late ↦
                  rw (late, handle_buffer)
                    (OnOk->>= (λ _. Unit) (IsShifted start) (return_empty_buffer w.file.pool index)
                      _ (OnOk-all (λ _. Unit) _ (λ _. tt)) (λ p _. h))
              | inr early ↦
                  rw (early, handle_buffer)
                    (elim (Bool-cases
                      (not (w.last_ord == 0) && ltb max_order_misses (w.n_misses + 1))) [
                        | inl missed ↦
                            rw (missed, handle_buffer)
                              (OnOk->>= (IsShifted start) (IsShifted start) (next_file disk order w)
                                (write_buffer disk index order len)
                                (next_file-IsShifted start disk order w above h)
                                (λ v kept.
                                  write_buffer-IsShifted start disk index order len v kept))
                        | inr patience ↦
                            rw (patience, handle_buffer)
                              (OnOk->>= (λ _. Unit) (IsShifted start)
                                (return_buffer w.file.pool index (pos order) len) _
                                (OnOk-all (λ _. Unit) _ (λ _. tt)) (λ p _. h))
                      ])
            ])
    ]

-- Every round of the writing thread that returns keeps the packet start as the start of the recording
-- and what the gaps have added, one for each new file: nothing else changes it.
pub writer_round-IsShifted :
    (start : ℕ) (keep_going : Bool) (disk : Disk) (w : Writer)
    → IsShifted start w
    → OnOk (IsShifted start) (writer_round keep_going disk w)
writer_round-IsShifted start keep_going disk w h = go (fetch_buffer keep_going w.file.pool) refl
  where
    go :
        (f : Fetch)
        → fetch_buffer keep_going w.file.pool ≡ f
        → OnOk (IsShifted start) (writer_round keep_going disk w)
    go (got index order len p) e =
        unfold writer_round in
        rw (e, writer_round)
          (handle_buffer-IsShifted start disk index (pos_part order) len (with_pool w p)
            (fetched keep_going w.file.pool p index len order e).1 h)
    go (failed p) e = unfold writer_round in rw (e, writer_round) h
    go waiting e = unfold writer_round in rw (e, writer_round) h
