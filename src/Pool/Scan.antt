-- ===== src/Pool/Scan.antt =====
-- What findEmpty and findLowest find.
use volt_rec.Base.{
  ℕ, zero, suc, ◌+◌, ◌≤◌, ◌<◌, ◌≡◌, refl, ◌≢◌, ◌⊎◌, inl, inr, Option, none, some, List, [], ◌∷◌,
  arith, some_inj, get_elem?, ◌∙◌, ap, true, false, ◌&&◌,
}
use volt_rec.Base.Int.{ℤ, pos, negsuc, ltb_ℤ}
use native.Mathlib.Decide.{dec_lt}
use volt_rec.Pool.{empty_from, find_empty, lowest_from, find_lowest, int_max, is_empty}

-- `k` is the first index of an empty buffer.
abbrev pub IsFirstEmpty : List ℤ → ℕ → Type 0
IsFirstEmpty orders k =
    (get_elem? orders k ≡ some (pos 0)) × ((j : ℕ) → j < k → get_elem? orders j ≢ some (pos 0))

-- A fact about the entries of a list holds at the head and along the tail.
forall-cons {ℓ} :
    {o : ℤ} (os : List ℤ) (P : ℕ → Option ℤ → Type ℓ)
    → P 0 (some o)
    → ((j : ℕ) → P (suc j) (get_elem? os j))
    → (j : ℕ) → P j (get_elem? (o ∷ os) j)
forall-cons os P here there zero = here
forall-cons os P here there (suc j) = there j

-- How the scan of findEmpty ends: with no empty buffer, or at the first one.
abbrev EmptyScan : List ℤ → ℕ → Type 0
EmptyScan orders k =
    ((empty_from orders k ≡ none) × ((j : ℕ) → get_elem? orders j ≢ some (pos 0)))
    ⊎ ((i : ℕ) × (empty_from orders k ≡ some (k + i)) × IsFirstEmpty orders i)

EmptyScan-skip :
    (o : ℤ) (os : List ℤ) (k : ℕ)
    → is_empty o ≡ false
    → o ≢ pos 0
    → EmptyScan os (k + 1)
    → EmptyScan (o ∷ os) k
unfolding empty_from
EmptyScan-skip o os k full ne (inl (e, away)) =
    inl (rw full e, forall-cons os (λ j x. x ≢ some (pos 0)) (λ h. ne (some_inj h)) away)
EmptyScan-skip o os k full ne (inr (i, e, (here, before))) = inr (
  suc i,
  rw full (e ∙ ap some (omega arith)),
  (
    here,
    forall-cons os (λ j x. j < suc i → x ≢ some (pos 0)) (λ _ h. ne (some_inj h))
        (λ j h. before j (omega arith)),
  ),
)

empty_from_lem : (orders : List ℤ) (k : ℕ) → EmptyScan orders k
unfolding empty_from
empty_from_lem [] k = inl (refl, λ j h. cc)
empty_from_lem (pos zero ∷ os) k =
    inr (0, ap some (omega arith), (refl, λ j h. absurd (omega arith)))
empty_from_lem (pos (suc n) ∷ os) k =
    EmptyScan-skip (pos (suc n)) os k (ground arith) (λ h. cc) (empty_from_lem os (k + 1))
empty_from_lem (negsuc n ∷ os) k =
    EmptyScan-skip (negsuc n) os k refl (λ h. cc) (empty_from_lem os (k + 1))

-- findEmpty returns -1 exactly when no buffer is empty, and the first empty buffer otherwise.
pub find_empty_lem :
    (orders : List ℤ)
    → ((find_empty orders ≡ none) × ((j : ℕ) → get_elem? orders j ≢ some (pos 0)))
      ⊎ ((i : ℕ) × (find_empty orders ≡ some i) × IsFirstEmpty orders i)
unfolding find_empty
find_empty_lem orders = elim (empty_from_lem orders 0) [
  | inl none_left ↦ inl none_left
  | inr (i, e, first) ↦ inr (i, e ∙ ap some (omega arith), first)
]

-- Every filled buffer of the list has order `low` or more.
abbrev pub AllFrom : ℕ → List ℤ → Type 0
AllFrom low orders = (j m : ℕ) → get_elem? orders j ≡ some (pos (suc m)) → low ≤ suc m

-- `k` is the first index of the lowest positive order number, `n + 1`.
pub record IsLowest (orders : List ℤ) (k n : ℕ) : Type 0 where
  pub here : get_elem? orders k ≡ some (pos (suc n))
  pub least : AllFrom (suc n) orders
  pub first : (j : ℕ) → j < k → get_elem? orders j ≢ some (pos (suc n))

-- How the scan of findLowest ends from the bound `low`: no order is lower, or the first lowest.
abbrev LowestScan : List ℤ → ℕ → ℕ → Option ℕ → Type 0
LowestScan orders k low ret =
    ((lowest_from orders k (pos low) ret ≡ ret) × AllFrom low orders)
    ⊎ ((i : ℕ) × (n : ℕ) × (lowest_from orders k (pos low) ret ≡ some (k + i))
        × (suc n < low)
        × IsLowest orders i n)

-- The entry `o` changes nothing: it is not positive, or not below `low`.
LowestScan-skip :
    (o : ℤ) (os : List ℤ) (k low : ℕ) (ret : Option ℕ)
    → (ltb_ℤ o (pos low) && ltb_ℤ (pos 0) o) ≡ false
    → ((m : ℕ) → o ≡ pos (suc m) → low ≤ suc m)
    → LowestScan os (k + 1) low ret
    → LowestScan (o ∷ os) k low ret
unfolding lowest_from
LowestScan-skip o os k low ret skip big (inl (e, from)) = inl (
  rw skip e,
  forall-cons os (λ j x. (m : ℕ) → x ≡ some (pos (suc m)) → low ≤ suc m) (λ m h. big m (some_inj h))
      from,
)
LowestScan-skip o os k low ret skip big (inr (i, n, e, below, is_lowest)) = inr (
  suc i,
  n,
  rw skip (e ∙ ap some (omega arith)),
  below,
  record {
    here = here;
    least =
        forall-cons os (λ j x. (m : ℕ) → x ≡ some (pos (suc m)) → suc n ≤ suc m)
          (λ m h. let b = big m (some_inj h) in omega arith) least;
    first =
        forall-cons os (λ j x. j < suc i → x ≢ some (pos (suc n)))
          (λ _ h. let b = big n (some_inj h) in absurd (omega arith))
          (λ j h. first j (omega arith));
  },
)
  where
    open is_lowest use {here, least, first}

smaller_test :
    (m low : ℕ)
    → suc m < low
    → (ltb_ℤ (pos (suc m)) (pos low) && ltb_ℤ (pos 0) (pos (suc m))) ≡ true
smaller_test m low h = ground arith

-- The entry `m + 1` is below `low`, and becomes the bound for the rest.
LowestScan-take :
    (m : ℕ) (os : List ℤ) (k low : ℕ) (ret : Option ℕ)
    → suc m < low
    → LowestScan os (k + 1) (suc m) (some k)
    → LowestScan (pos (suc m) ∷ os) k low ret
unfolding lowest_from
LowestScan-take m os k low ret below (inl (e, from)) = inr (
  0,
  m,
  rw (smaller_test m low below, e) (ap some (omega arith)),
  below,
  record {
    here = refl;
    least =
        forall-cons os (λ j x. (n : ℕ) → x ≡ some (pos (suc n)) → suc m ≤ suc n)
          (λ n h. ground arith) from;
    first = λ j h. absurd (omega arith);
  },
)
LowestScan-take m os k low ret below (inr (i, n, e, lower, is_lowest)) = inr (
  suc i,
  n,
  rw (smaller_test m low below) (e ∙ ap some (omega arith)),
  omega arith,
  record {
    here = here;
    least =
        forall-cons os (λ j x. (r : ℕ) → x ≡ some (pos (suc r)) → suc n ≤ suc r)
          (λ r h. ground arith) least;
    first =
        forall-cons os (λ j x. j < suc i → x ≢ some (pos (suc n))) (λ _ h. ground arith)
          (λ j h. first j (omega arith));
  },
)
  where
    open is_lowest use {here, least, first}

lowest_from_lem : (orders : List ℤ) (k low : ℕ) (ret : Option ℕ) → LowestScan orders k low ret
unfolding lowest_from
lowest_from_lem [] k low ret = inl (refl, λ j m h. cc)
lowest_from_lem (negsuc n ∷ os) k low ret =
    LowestScan-skip (negsuc n) os k low ret (ground arith) (λ m h. cc)
      (lowest_from_lem os (k + 1) low ret)
lowest_from_lem (pos zero ∷ os) k low ret =
    LowestScan-skip (pos zero) os k low ret (ground arith) (λ m h. cc)
      (lowest_from_lem os (k + 1) low ret)
lowest_from_lem (pos (suc m) ∷ os) k low ret = elim (dec_lt (suc m) low) [
  | yes below ↦ LowestScan-take m os k low ret below (lowest_from_lem os (k + 1) (suc m) (some k))
  | no above ↦
      LowestScan-skip (pos (suc m)) os k low ret (ground arith) (λ n h. ground arith)
        (lowest_from_lem os (k + 1) low ret)
]

-- findLowest returns -1 exactly when every filled buffer has an order number of INT_MAX or more;
-- otherwise it returns the first buffer with the lowest positive order number.
pub find_lowest_lem :
    (orders : List ℤ)
    → ((find_lowest orders ≡ none) × AllFrom int_max orders)
      ⊎ ((i : ℕ) × (n : ℕ) × (find_lowest orders ≡ some i)
          × (suc n < int_max)
          × IsLowest orders i n)
unfolding find_lowest
find_lowest_lem orders = elim (lowest_from_lem orders 0 int_max none) [
  | inl nothing ↦ inl nothing
  | inr (i, n, e, below, is_lowest) ↦ inr (i, n, e ∙ ap some (omega arith), below, is_lowest)
]
