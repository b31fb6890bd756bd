-- ===== src/Pool/Sharing.antt =====
-- The pool shared by threads: every critical section of common.c is one step, in any order and by
-- any thread.
use volt_rec.Base.{
  ℕ, suc, ◌^◌, ◌<◌, ◌≡◌, some, ok, true, Bool, Memory, get_or, set, Option, sym, ◌∙◌,
}
use mathlib.Core.Path.{subst}
use volt_rec.Base.Int.{ℤ, pos}
use volt_rec.Pool.{
  Pool, int_max, in_use, init_udp_buff, fetch_empty_buffer, return_buffer, return_empty_buffer,
  took, ready_round, claim_lowest,
}
use volt_rec.Pool.Scan.{IsLowest}
use volt_rec.Pool.Inv.{
  IsValid, fetch_empty-IsValid, return-IsValid, return_empty-IsValid, ready_round-IsValid,
  claim_lowest-Claimed, Claimed, init-IsValid,
}

-- The pool, and the number of threads between the two critical sections of fetchBuffer.
pub record Shared : Type 0 where
  pub pool : Pool
  pub credits : ℕ

-- One critical section of one thread. An order number that is returned is positive and below
-- INT_MAX: the callers count from 1.
pub data Step (s : Shared) : Shared → Type 0 where
  fetch_empty :
      {p : Pool} (i : ℕ) → fetch_empty_buffer s.pool ≡ some (i, p) → Step s (record s { pool = p })
  give_back :
      {p : Pool} (i order len : ℕ)
      → suc order < int_max
      → return_buffer s.pool i (pos (suc order)) len ≡ ok p
      → Step s (record s { pool = p })
  give_back_empty :
      {p : Pool} (i : ℕ) → return_empty_buffer s.pool i ≡ ok p → Step s (record s { pool = p })
  take_credit :
      {p : Pool} (keep_going : Bool)
      → ready_round keep_going s.pool ≡ took p
      → Step s (record { pool = p; credits = suc s.credits })
  claim :
      {p : Pool} {c : ℕ} (i : ℕ) (order : ℤ) (len : ℕ)
      → s.credits ≡ suc c
      → claim_lowest s.pool ≡ some (i, order, len, p)
      → Step s (record { pool = p; credits = c })

-- The states that the threads can reach from a fresh pool of `n` buffers.
pub data Reach (raw : Memory) (raw_len n : ℕ) : Shared → Type 0 where
  start :
      {p : Pool}
      → init_udp_buff true raw raw_len n ≡ ok p
      → Reach raw raw_len n (record { pool = p; credits = 0 })
  next : {s t : Shared} → Reach raw raw_len n s → Step s t → Reach raw raw_len n t

pool_of_claim :
    {p q : Pool} {i j len k : ℕ} {o u : ℤ}
    → ◌≡◌ {A = Option (ℕ × ℤ × ℕ × Pool)} (some (i, o, len, p)) (some (j, u, k, q))
    → p ≡ q
pool_of_claim h = cc

pub Step-IsValid : {s t : Shared} → Step s t → IsValid s.pool s.credits → IsValid t.pool t.credits
Step-IsValid (fetch_empty i h) v = fetch_empty-IsValid v h
Step-IsValid (give_back i order len small h) v = return-IsValid i len v small h
Step-IsValid (give_back_empty i h) v = return_empty-IsValid i v h
Step-IsValid (take_credit keep_going h) v = ready_round-IsValid keep_going v h
Step-IsValid {s} (claim {p} {c} i order len e h) v =
    let claimed = claim_lowest-Claimed {c = c} (subst (λ k. IsValid s.pool k) e v) in
    subst (λ q. IsValid q c) (pool_of_claim (sym claimed.result ∙ h)) claimed.valid

-- In every state that threads reach from a fresh pool of fewer than 2^31 buffers, by critical
-- sections in any order that return only order numbers from 1 to INT_MAX - 1, NReady and the
-- number of threads that have taken a credit and not yet claimed their buffer add up to the
-- number of filled buffers, and there is one entry for each buffer.
pub Reach-IsValid :
    {raw : Memory} {raw_len n : ℕ} {s : Shared}
    → n < 2 ^ 31
    → Reach raw raw_len n s
    → IsValid s.pool s.credits
Reach-IsValid {raw} {raw_len} {n} few (start h) = init-IsValid raw raw_len n few h
Reach-IsValid few (next r st) = Step-IsValid st (Reach-IsValid few r)

-- No thread that has taken a credit in fetchBuffer misses its buffer: in every such state the
-- claim does not return -1, and yields the first of the filled buffers of the lowest order, which
-- it marks as in use.
pub claim_succeeds :
    {raw : Memory} {raw_len n c : ℕ} {s : Shared}
    → n < 2 ^ 31
    → Reach raw raw_len n s
    → s.credits ≡ suc c
    → (i : ℕ) × (order : ℕ) × IsLowest s.pool.order_no i order
      × (claim_lowest s.pool
          ≡ some (
            i,
            pos (suc order),
            get_or s.pool.data_len i 0,
            record (s.pool) { order_no = set s.pool.order_no i in_use },
          ))
claim_succeeds {c = c} {s = s} few r e = (k.index, k.lowest, k.is_lowest, k.result)
  where
    k : Claimed s.pool c
    k = claim_lowest-Claimed (subst (λ m. IsValid s.pool m) e (Reach-IsValid few r))
