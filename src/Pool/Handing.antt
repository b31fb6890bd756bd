-- ===== src/Pool/Handing.antt =====
-- The operations of a pool on a buffer whose state is known.
use volt_rec.Base.{
  ℕ, ◌+◌, ◌%◌, ◌^◌, ◌≡◌, ◌⊎◌, inl, inr, none, some, arith, get_elem?, set, ok, err, integrity,
  get_elem?-set_self, get_elem?-lt, ◌<◌, Bool, ◌-◌, get_or,
}
use volt_rec.Base.Int.{ℤ, pos, pos_part}
use volt_rec.Pool.{
  Pool, in_use, fetch_empty_buffer, return_buffer, return_empty_buffer, fetch_buffer, got,
  claim_lowest, ready_round,
}
use volt_rec.Pool.Scan.{find_empty_lem, find_lowest_lem}
use volt_rec.Pool.Inv.{get_or_of_get_elem?}

-- The pool hands out only an empty buffer, and marks it.
pub fetch_empty_cases :
    (p : Pool)
    → (fetch_empty_buffer p ≡ none)
      ⊎ ((i : ℕ) × (fetch_empty_buffer p
            ≡ some (i, record p { order_no = set p.order_no i in_use }))
          × (get_elem? p.order_no i ≡ some (pos 0)))
unfolding fetch_empty_buffer
fetch_empty_cases p = elim (find_empty_lem p.order_no) [
  | inl (e, _) ↦ inl (rw (e, fetch_empty_buffer))
  | inr (i, e, first) ↦ inr (i, rw (e, fetch_empty_buffer), first.0)
]

-- A buffer that was handed out empty is in use.
pub fetch_empty-held :
    (p : Pool) {q : Pool} (i : ℕ)
    → fetch_empty_buffer p ≡ some (i, q)
    → get_elem? q.order_no i ≡ some in_use
fetch_empty-held p {q} i h = elim (fetch_empty_cases p) [
  | inl e ↦ absurd (cc)
  | inr (j, e, was) ↦
      ground (arith, get_elem?-set_self p.order_no j in_use (get_elem?-lt p.order_no j was))
]

-- A buffer in use is taken back with an order number.
pub return_held :
    (p : Pool) (i : ℕ) (order : ℤ) (len : ℕ)
    → get_elem? p.order_no i ≡ some in_use
    → return_buffer p i order len
      ≡ ok (record p {
        order_no = set p.order_no i order;
        data_len = set p.data_len i len;
        n_ready = (p.n_ready + 1) % 2 ^ 64;
      })
unfolding return_buffer
return_held p i order len h = rw (h, return_buffer)

-- A buffer that is filled or empty is not taken back: the process stops.
pub return_twice :
    (p : Pool) (i n : ℕ) (order : ℤ) (len : ℕ)
    → get_elem? p.order_no i ≡ some (pos n)
    → return_buffer p i order len ≡ err integrity
unfolding return_buffer
return_twice p i n order len h = rw (h, return_buffer)

-- A buffer in use is given back empty.
pub return_empty_held :
    (p : Pool) (i : ℕ)
    → get_elem? p.order_no i ≡ some in_use
    → return_empty_buffer p i ≡ ok (record p { order_no = set p.order_no i (pos 0) })
unfolding return_empty_buffer
return_empty_held p i h = rw (h, return_empty_buffer)

-- When fetchBuffer has returned a buffer, the buffer is in use and its order number is positive;
-- the pool is the one before with that state and one credit less.
pub fetched :
    (keep_going : Bool) (p q : Pool) (i len : ℕ) (order : ℤ)
    → fetch_buffer keep_going p ≡ got i order len q
    → (get_elem? q.order_no i ≡ some in_use)
      × (0 < pos_part order)
      × (get_elem? p.order_no i ≡ some order)
      × (q ≡ record p { n_ready = p.n_ready - 1; order_no = set p.order_no i in_use })
      × (0 < p.n_ready)
      × (len ≡ get_or p.data_len i 0)
unfolding fetch_buffer claim_lowest ready_round
fetched keep_going p q i len order h = elim (find_lowest_lem p.order_no) [
  | inl (e, _) ↦ absurd (ground arith)
  | inr (j, n, e, _, lowest) ↦
      let now = get_elem?-set_self p.order_no j in_use (get_elem?-lt p.order_no j lowest.here) in
      let was = get_or_of_get_elem? p.order_no j (pos 0) lowest.here in
      (
        ground (arith, now),
        ground (arith, was),
        ground (arith, was, lowest.here),
        ground arith,
        ground arith,
        ground arith,
      )
]
