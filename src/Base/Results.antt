-- ===== src/Base/Results.antt =====
-- Outcomes of code that may stop the process, and the `do` notation over them.

-- Why a function of the C code does not return normally.
-- `integrity`: error("data integrity!"); `io`: error() after a failed system call;
-- `out_of_bounds`: an access outside an array, undefined in C;
-- `blocked`: a busy wait that no step of the function itself can end;
-- `divided_by_zero`: an integer division by zero, which ends the process.
pub data Fault : Type 0 where
  integrity io out_of_bounds blocked divided_by_zero : Fault

-- A run of a C function: it stops for a reason, or returns.
pub data Result {κ} (Value : Type κ) : Type κ where
  err : (why : Fault) → Result Value
  ok : (value : Value) → Result Value

-- The function returns with `P`, or waits for another thread; it neither stops the process nor
-- leaves an array.
abbrev pub Safe {ℓ} : {A : Type ℓ} → (A → Type 0) → Result A → Type 0
Safe P (ok a) = P a
Safe P (err blocked) = Unit
Safe P (err integrity) = ⊥
Safe P (err io) = ⊥
Safe P (err out_of_bounds) = ⊥
Safe P (err divided_by_zero) = ⊥

infixl 5 ◌>>=◌
-- One C call after the other: the second is not made where the first one stops the process.
abbrev pub ◌>>=◌ {ℓ κ} : {V : Type ℓ} {W : Type κ} (run : Result V) (rest : V → Result W) → Result W
(err why) >>= rest = err why
(ok v) >>= rest = rest v

pub Safe->>= {ℓ κ} :
    {A : Type ℓ} {B : Type κ} (P : A → Type 0) (Q : B → Type 0) (m : Result A) (f : A → Result B)
    → Safe P m
    → ((a : A) → P a → Safe Q (f a))
    → Safe Q (m >>= f)
Safe->>= P Q (ok a) f h k = k a h
Safe->>= P Q (err blocked) f h k = tt
Safe->>= P Q (err integrity) f h k = absurd h
Safe->>= P Q (err io) f h k = absurd h
Safe->>= P Q (err out_of_bounds) f h k = absurd h
Safe->>= P Q (err divided_by_zero) f h k = absurd h

-- `P` holds of what the function returns, if it returns.
abbrev pub OnOk {ℓ} : {A : Type ℓ} → (A → Type 0) → Result A → Type 0
OnOk P (ok a) = P a
OnOk P (err e) = Unit

pub OnOk->>= {ℓ κ} :
    {A : Type ℓ} {B : Type κ} (P : A → Type 0) (Q : B → Type 0) (m : Result A) (f : A → Result B)
    → OnOk P m
    → ((a : A) → P a → OnOk Q (f a))
    → OnOk Q (m >>= f)
OnOk->>= P Q (ok a) f h k = k a h
OnOk->>= P Q (err e) f h k = tt

pub OnOk-all {ℓ} : {A : Type ℓ} (P : A → Type 0) (m : Result A) → ((a : A) → P a) → OnOk P m
OnOk-all P (ok a) h = h a
OnOk-all P (err e) h = tt

-- The function returns, and with `P`.
abbrev pub Returns {ℓ} : {A : Type ℓ} → (A → Type 0) → Result A → Type 0
Returns P (ok a) = P a
Returns P (err e) = ⊥

pub Returns->>= {ℓ κ} :
    {A : Type ℓ} {B : Type κ} (P : A → Type 0) (Q : B → Type 0) (m : Result A) (f : A → Result B)
    → Returns P m
    → ((a : A) → P a → Returns Q (f a))
    → Returns Q (m >>= f)
Returns->>= P Q (ok a) f h k = k a h
Returns->>= P Q (err e) f h k = absurd h

pub Returns-and {ℓ} :
    {A : Type ℓ} (P Q : A → Type 0) (m : Result A)
    → Safe P m
    → Returns Q m
    → Returns (λ a. P a × Q a) m
Returns-and P Q (ok a) safe returns = (safe, returns)
Returns-and P Q (err e) safe returns = absurd returns
