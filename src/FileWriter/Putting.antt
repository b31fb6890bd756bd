-- ===== src/FileWriter/Putting.antt =====
-- A buffer that comes too early is put back.
use volt_rec.Base.{
  ℕ, zero, suc, ◌+◌, ◌-◌, ◌%◌, ◌^◌, ◌<◌, ◌≡◌, refl, Bool, List, [], ◌∷◌, some, arith, ok, get_elem?,
  set, get_or, ap, ◌∙◌,
}
use volt_rec.Base.Int.{ℤ}
use volt_rec.Pool.{Pool, in_use, fetch_buffer, got, return_buffer}
use volt_rec.Pool.Handing.{fetched, return_held}

set-set_same {ℓ} :
    {A : Type ℓ} (xs : List A) (i : ℕ) (u v : A)
    → get_elem? xs i ≡ some v
    → set (set xs i u) i v ≡ xs
set-set_same [] i u v h = refl
set-set_same (x ∷ xs) zero u v h = cc
set-set_same (x ∷ xs) (suc i) u v h = ap (λ ys. x ∷ ys) (set-set_same xs i u v h)

set_same {ℓ} : {A : Type ℓ} (xs : List A) (i : ℕ) (d : A) → set xs i (get_or xs i d) ≡ xs
set_same [] i d = refl
set_same (x ∷ xs) zero d = refl
set_same (x ∷ xs) (suc i) d = ap (λ ys. x ∷ ys) (set_same xs i d)

-- Returning a buffer that fetchBuffer has just handed out, with the order number and the length
-- that it reported, puts the pool back exactly as it was, for a ready count of 64 bits: the thread
-- that writes files loses nothing by waiting for an earlier buffer.
pub put_back :
    (keep_going : Bool) (p q : Pool) (i len : ℕ) (order : ℤ)
    → p.n_ready < 2 ^ 64
    → fetch_buffer keep_going p ≡ got i order len q
    → return_buffer q i order len ≡ ok p
put_back keep_going p q i len order small h =
    let (held, _, was, same, some_ready, length_was) = fetched keep_going p q i len order h in
    return_held q i order len held ∙ rw same (rw length_was (ap ok (restored was some_ready)))
  where
    restored :
        get_elem? p.order_no i ≡ some order
        → 0 < p.n_ready
        → record p {
          order_no = set (set p.order_no i in_use) i order;
          data_len = set p.data_len i (get_or p.data_len i 0);
          n_ready = (p.n_ready - 1 + 1) % 2 ^ 64;
        }
          ≡ p
    restored was some_ready =
        let orders = set-set_same p.order_no i in_use order was in
        let lens = set_same p.data_len i 0 in
        let ready : (p.n_ready - 1 + 1) % 2 ^ 64 ≡ p.n_ready = omega arith in
        λ d. record p { order_no = orders d; data_len = lens d; n_ready = ready d }
