-- ===== src/Worker/Room.antt =====
-- The empty buffers of a pool, and how its operations change their number.
use volt_rec.Base.{
  ℕ, zero, suc, ◌<◌, ◌≡◌, ◌≢◌, refl, inl, inr, false, some, arith, some_inj, List, [], ◌∷◌,
  get_elem?, set, if◌then◌else◌,
}
use volt_rec.Base.Int.{ℤ, pos, negsuc}
use volt_rec.Pool.{Pool, in_use, is_empty, fetch_empty_buffer}
use volt_rec.Pool.Scan.{find_empty_lem}
use volt_rec.Worker.State.{Worker}

-- How many buffers of a pool are empty.
abbrev pub count_empty : List ℤ → ℕ
count_empty [] = 0
count_empty (o ∷ os) = if is_empty o then suc (count_empty os) else count_empty os

filled_full : (m : ℕ) → is_empty (pos (suc m)) ≡ false
filled_full m = ground arith

pub count_empty-set_filled :
    (os : List ℤ) (i m : ℕ)
    → get_elem? os i ≡ some in_use
    → count_empty (set os i (pos (suc m))) ≡ count_empty os
count_empty-set_filled [] i m h = refl
count_empty-set_filled (o ∷ os) zero m h = rw (some_inj h) (rw (filled_full m))
count_empty-set_filled (o ∷ os) (suc i) m h = let rest = count_empty-set_filled os i m h in rw rest

pub count_empty-set_taken :
    (os : List ℤ) (i : ℕ)
    → get_elem? os i ≡ some (pos 0)
    → suc (count_empty (set os i in_use)) ≡ count_empty os
count_empty-set_taken [] i h = absurd (cc)
count_empty-set_taken (o ∷ os) zero h = rw (some_inj h) (refl)
count_empty-set_taken (o ∷ os) (suc i) h = let rest = count_empty-set_taken os i h in ground arith

pub count_empty-none :
    (os : List ℤ) → ((j : ℕ) → get_elem? os j ≢ some (pos 0)) → count_empty os ≡ 0
count_empty-none [] h = refl
count_empty-none (pos zero ∷ os) h = absurd (h 0 refl)
count_empty-none (pos (suc n) ∷ os) h = rw (filled_full n) (count_empty-none os (λ j. h (suc j)))
count_empty-none (negsuc n ∷ os) h = count_empty-none os (λ j. h (suc j))

abbrev pub room : Worker → ℕ
room w = count_empty w.file.pool.order_no

pub fetch_empty-some :
    (p : Pool)
    → 0 < count_empty p.order_no
    → (i : ℕ) × (fetch_empty_buffer p ≡ some (i, record p { order_no = set p.order_no i in_use }))
      × (get_elem? p.order_no i ≡ some (pos 0))
unfolding fetch_empty_buffer
fetch_empty-some p h = elim (find_empty_lem p.order_no) [
  | inl (e, no_empty) ↦ let zero_room = count_empty-none p.order_no no_empty in absurd (omega arith)
  | inr (i, e, (here, first)) ↦ (i, rw (e, fetch_empty_buffer), here)
]
