-- ===== src/Pool/Inv.antt =====
-- The invariant of a shared pool: its ready count against the buffers that are filled.
use volt_rec.Base.{
  ℕ, zero, suc, ◌+◌, ◌^◌, ◌≤◌, ◌<◌, ◌≡◌, refl, inl, inr, Option, some, List, [], ◌∷◌, arith,
  get_elem?, set, length, length-set, ◌∙◌, ltb→lt, Option-cases, Bool-cases, ok, ap, true, Bool,
  ltb, get_or, length-replicate, replicate, Memory,
}
use volt_rec.Base.Int.{ℤ, pos, negsuc}
use mathlib.Core.Path.{subst}
use volt_rec.Pool.{
  Pool, int_max, in_use, is_in_use, init_udp_buff, fetch_empty_buffer, return_buffer,
  return_empty_buffer, took, ready_round, claim_lowest,
}
use volt_rec.Pool.Scan.{find_empty_lem, find_lowest_lem, IsLowest}

-- 1 for a filled buffer.
abbrev pub filled : ℤ → ℕ
filled (pos zero) = 0
filled (pos (suc n)) = 1
filled (negsuc n) = 0

abbrev pub count_filled : List ℤ → ℕ
count_filled [] = 0
count_filled (o ∷ os) = filled o + count_filled os

pub count_filled-set :
    (orders : List ℤ) (i : ℕ) (o v : ℤ)
    → get_elem? orders i ≡ some o
    → count_filled (set orders i v) + filled o ≡ count_filled orders + filled v
count_filled-set [] i o v h = absurd (ground arith)
count_filled-set (x ∷ os) zero o v h = ground arith
count_filled-set (x ∷ os) (suc i) o v h = omega (arith, count_filled-set os i o v h)

pub count_filled-le : (orders : List ℤ) → count_filled orders ≤ length orders
count_filled-le [] = omega arith
count_filled-le (pos zero ∷ os) = omega (arith, count_filled-le os)
count_filled-le (pos (suc n) ∷ os) = omega (arith, count_filled-le os)
count_filled-le (negsuc n ∷ os) = omega (arith, count_filled-le os)

-- Where a buffer is counted, there is one.
pub filled_exists :
    (orders : List ℤ)
    → 0 < count_filled orders
    → (j : ℕ) × (m : ℕ) × (get_elem? orders j ≡ some (pos (suc m)))
filled_exists [] h = absurd (omega arith)
filled_exists (pos (suc m) ∷ os) h = (0, m, refl)
filled_exists (pos zero ∷ os) h = let (j, m, e) = filled_exists os (omega arith) in (suc j, m, e)
filled_exists (negsuc n ∷ os) h = let (j, m, e) = filled_exists os (omega arith) in (suc j, m, e)

-- Every order number of a filled buffer is below INT_MAX.
abbrev pub AllSmall : List ℤ → Type 0
AllSmall orders = (j m : ℕ) → get_elem? orders j ≡ some (pos (suc m)) → suc m < int_max

pub AllSmall-set :
    (orders : List ℤ) (i : ℕ) (o v : ℤ)
    → get_elem? orders i ≡ some o
    → ((m : ℕ) → v ≡ pos (suc m) → suc m < int_max)
    → AllSmall orders
    → AllSmall (set orders i v)
AllSmall-set [] i o v h small all j m e = absurd (ground arith)
AllSmall-set (x ∷ os) zero o v h small all zero m e = small m (cc)
AllSmall-set (x ∷ os) zero o v h small all (suc j) m e = all (suc j) m e
AllSmall-set (x ∷ os) (suc i) o v h small all zero m e = all zero m e
AllSmall-set (x ∷ os) (suc i) o v h small all (suc j) m e =
    AllSmall-set os i o v h small (λ j' m' e'. all (suc j') m' e') j m e

-- `credits` counts the threads that have decremented NReady in fetchBuffer and have not yet
-- claimed their buffer.
pub record IsValid (p : Pool) (credits : ℕ) : Type 0 where
  pub orders_len : length p.order_no ≡ p.no_buffers
  pub lens_len : length p.data_len ≡ p.no_buffers
  pub store_len : length p.store ≡ p.no_buffers
  pub few : p.no_buffers < 2 ^ 31
  pub counted : p.n_ready + credits ≡ count_filled p.order_no
  pub small : AllSmall p.order_no

-- The state of one buffer is replaced, and the counts move with it.
restate :
    {p : Pool} {c d r : ℕ} (i : ℕ) (o v : ℤ) (lens : List ℕ)
    → IsValid p c
    → get_elem? p.order_no i ≡ some o
    → length lens ≡ p.no_buffers
    → r + d + filled o ≡ p.n_ready + c + filled v
    → ((m : ℕ) → v ≡ pos (suc m) → suc m < int_max)
    → IsValid (record p { order_no = set p.order_no i v; data_len = lens; n_ready = r }) d
restate {p} i o v lens valid here len balance small_v = record {
  orders_len = length-set p.order_no i v ∙ valid.orders_len;
  lens_len = len;
  store_len = valid.store_len;
  few = valid.few;
  counted = omega (arith, count_filled-set p.order_no i o v here, valid.counted);
  small = AllSmall-set p.order_no i o v here small_v valid.small;
}

pub pair_inj {ℓ κ} :
    {A : Type ℓ} {B : Type κ} {a a' : A} {b b' : B}
    → ◌≡◌ {A = Option (A × B)} (some (a, b)) (some (a', b'))
    → (a ≡ a') × (b ≡ b')
pair_inj h = (cc, cc)

pub ok_inj {ℓ} : {A : Type ℓ} {a b : A} → ok a ≡ ok b → a ≡ b
ok_inj h = cc

pub fetch_empty-IsValid :
    {p p' : Pool} {c i : ℕ} → IsValid p c → fetch_empty_buffer p ≡ some (i, p') → IsValid p' c
unfolding fetch_empty_buffer
fetch_empty-IsValid {p} {p'} {c} v h = elim (find_empty_lem p.order_no) [
  | inl (e, _) ↦ absurd (ground arith)
  | inr (k, e, first) ↦
      subst (λ q. IsValid q c) (pair_inj (rw (e, fetch_empty_buffer) at h)).1
        (restate k (pos 0) in_use p.data_len v first.0 v.lens_len (omega arith) (λ m e. cc))
]

is_in_use→eq : (o : ℤ) → is_in_use o ≡ true → o ≡ in_use
is_in_use→eq (pos n) h = cc
is_in_use→eq (negsuc n) h = ground arith

pub return-IsValid :
    {p p' : Pool} {c order : ℕ} (i len : ℕ)
    → IsValid p c
    → suc order < int_max
    → return_buffer p i (pos (suc order)) len ≡ ok p'
    → IsValid p' c
unfolding return_buffer
return-IsValid {p} {p'} {c} {order} i len v small h = elim (Option-cases (get_elem? p.order_no i)) [
  | inl e ↦ absurd (ground arith)
  | inr (o, e) ↦ elim (Bool-cases (is_in_use o)) [
    | inl held ↦
        subst (λ q. IsValid q c) (ok_inj (rw (e, held, return_buffer) at h))
          (restate i o (pos (suc order)) (set p.data_len i len) v e
            (length-set p.data_len i len ∙ v.lens_len)
            (omega (arith, count_filled-le p.order_no, ap filled (is_in_use→eq o held)))
            (λ m q. ground arith))
    | inr free ↦ absurd (ground arith)
  ]
]

pub return_empty-IsValid :
    {p p' : Pool} {c : ℕ} (i : ℕ) → IsValid p c → return_empty_buffer p i ≡ ok p' → IsValid p' c
unfolding return_empty_buffer
return_empty-IsValid {p} {p'} {c} i v h = elim (Option-cases (get_elem? p.order_no i)) [
  | inl e ↦ absurd (ground arith)
  | inr (o, e) ↦ elim (Bool-cases (is_in_use o)) [
    | inl held ↦
        subst (λ q. IsValid q c) (ok_inj (rw (e, held, return_empty_buffer) at h))
          (restate i o (pos 0) p.data_len v e v.lens_len
            (omega (arith, ap filled (is_in_use→eq o held))) (λ m q. cc))
    | inr free ↦ absurd (ground arith)
  ]
]

took_inj : {p q : Pool} → took p ≡ took q → p ≡ q
took_inj h = cc

pub ready_round-IsValid :
    {p p' : Pool} {c : ℕ} (keep_going : Bool)
    → IsValid p c
    → ready_round keep_going p ≡ took p'
    → IsValid p' (suc c)
unfolding ready_round
ready_round-IsValid {p} {p'} {c} keep_going v h = elim (Bool-cases (ltb 0 p.n_ready)) [
  | inl some_ready ↦
      subst (λ q. IsValid q (suc c)) (took_inj (rw (some_ready, ready_round) at h))
        (record {
          orders_len = v.orders_len;
          lens_len = v.lens_len;
          store_len = v.store_len;
          few = v.few;
          counted = let pos_ready = ltb→lt 0 p.n_ready some_ready in omega (arith, v.counted);
          small = v.small;
        })
  | inr nothing ↦ absurd (ground arith)
]

-- A claim that is backed by a credit finds a buffer, the first of the lowest order, marks it as in
-- use, and keeps the invariant with one credit less.
pub record Claimed (p : Pool) (c : ℕ) : Type 0 where
  pub index : ℕ
  pub lowest : ℕ
  pub is_lowest : IsLowest p.order_no index lowest
  pub result :
      claim_lowest p
      ≡ some (
        index,
        pos (suc lowest),
        get_or p.data_len index 0,
        record p { order_no = set p.order_no index in_use },
      )
  pub valid : IsValid (record p { order_no = set p.order_no index in_use }) c

pub get_or_of_get_elem? {ℓ} :
    {A : Type ℓ} (xs : List A) (i : ℕ) (d : A) {a : A} → get_elem? xs i ≡ some a → get_or xs i d ≡ a
get_or_of_get_elem? [] i d h = absurd (cc)
get_or_of_get_elem? (x ∷ xs) zero d h = cc
get_or_of_get_elem? (x ∷ xs) (suc i) d h = get_or_of_get_elem? xs i d h

pub claim_lowest-Claimed : {p : Pool} {c : ℕ} → IsValid p (suc c) → Claimed p c
unfolding claim_lowest
claim_lowest-Claimed {p} {c} v = elim (find_lowest_lem p.order_no) [
  | inl (e, big) ↦
      let (j, m, at_j) = filled_exists p.order_no (omega (arith, v.counted)) in
      let below = v.small j m at_j in let above = big j m at_j in absurd (omega arith)
  | inr (i, n, e, below, is_lowest) ↦ record {
    index = i;
    lowest = n;
    is_lowest = is_lowest;
    result =
        rw (e, claim_lowest)
          (ap
            (λ o.
              some (i, o, get_or p.data_len i 0, record p { order_no = set p.order_no i in_use }))
            (get_or_of_get_elem? p.order_no i (pos 0) is_lowest.here));
    valid =
        restate i (pos (suc n)) in_use p.data_len v is_lowest.here v.lens_len (omega arith)
          (λ m q. cc);
  }
]

count_filled-replicate : (n : ℕ) → count_filled (replicate n (pos 0)) ≡ 0
count_filled-replicate zero = refl
count_filled-replicate (suc n) = omega (arith, count_filled-replicate n)

AllSmall-replicate : (n : ℕ) → AllSmall (replicate n (pos 0))
AllSmall-replicate zero j m e = cc
AllSmall-replicate (suc n) zero m e = cc
AllSmall-replicate (suc n) (suc j) m e = AllSmall-replicate n j m e

pub init-IsValid :
    {p : Pool} (raw : Memory) (raw_len n : ℕ)
    → n < 2 ^ 31
    → init_udp_buff true raw raw_len n ≡ ok p
    → IsValid p 0
unfolding init_udp_buff
init-IsValid raw raw_len n few h =
    subst (λ q. IsValid q 0) (ok_inj h)
      (record {
        orders_len = length-replicate n (pos 0);
        lens_len = length-replicate n raw_len;
        store_len = length-replicate n raw;
        few = few;
        counted = omega (arith, count_filled-replicate n);
        small = AllSmall-replicate n;
      })
