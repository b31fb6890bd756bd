-- ===== src/Base/Strided.antt =====
-- Loops of memcpy with two pointers that move on by fixed steps, and words in byte memories.
use Prim.Native.Nat.{ℕ, zero, suc, ◌+◌, ◌-◌, ◌*◌, ◌/◌, ◌%◌, ◌≤◌, ◌<◌}
use mathlib.Core.Path.{◌≡◌, refl, sym, ap, ◌∙◌}
use mathlib.Core.Logic.{◌≢◌, ◌⊎◌, inl, inr}
use mathlib.Core.Bool.{◌&&◌}
use native.Mathlib.Omega.{arith}
use volt_rec.Base.Tests.{ltb, leb, if◌then◌else◌}
use volt_rec.Base.ByteStore.{Memory, copy, copy_inside, copy_outside}

-- `rows` rounds of memcpy(dst + d, src + s, len), after which `d` moves on by `v` and `s` by `w`.
unfoldable pub copy_strided : ℕ → ℕ → ℕ → ℕ → Memory → ℕ → Memory → ℕ → Memory
copy_strided zero len v w dst d src s = dst
copy_strided (suc rows) len v w dst d src s =
    copy_strided rows len v w (copy dst d src s len) (d + v) src (s + w)

pub copy_strided-before :
    (rows len v w : ℕ) (dst : Memory) (d : ℕ) (src : Memory) (s i : ℕ)
    → i < d
    → copy_strided rows len v w dst d src s i ≡ dst i
unfolding copy_strided
copy_strided-before zero len v w dst d src s i h = refl
copy_strided-before (suc rows) len v w dst d src s i h =
    copy_strided-before rows len v w (copy dst d src s len) (d + v) src (s + w) i (omega arith)
    ∙ copy_outside dst d src s len i (inl h)

pub next_row : (d r w k : ℕ) → d + suc r * w + k ≡ d + w + r * w + k
next_row d r w k = grind arith

-- Rows that are not shorter than the step of `s` keep their place.
pub copy_strided_lem :
    (rows len v w : ℕ) (dst : Memory) (d : ℕ) (src : Memory) (s r k : ℕ)
    → len ≤ v
    → r < rows
    → k < len
    → copy_strided rows len v w dst d src s (d + r * v + k) ≡ src (s + r * w + k)
unfolding copy_strided
copy_strided_lem zero len v w dst d src s r k a h l = absurd (omega arith)
copy_strided_lem (suc rows) len v w dst d src s zero k a h l =
    let here : d + 0 * v + k ≡ d + k = omega arith in
    let there : s + k ≡ s + 0 * w + k = omega arith in
    ap (copy_strided (suc rows) len v w dst d src s) here
    ∙ copy_strided-before rows len v w (copy dst d src s len) (d + v) src (s + w) (d + k)
        (omega arith)
    ∙ copy_inside dst d src s len k l
    ∙ ap src there
copy_strided_lem (suc rows) len v w dst d src s (suc r) k a h l =
    ap (copy_strided rows len v w (copy dst d src s len) (d + v) src (s + w)) (next_row d r v k)
    ∙ copy_strided_lem rows len v w (copy dst d src s len) (d + v) src (s + w) r k a (omega arith) l
    ∙ ap src (sym (next_row s r w k))

-- Rows that touch one another fill `rows * len` bytes, and no others.
pub copy_strided-behind :
    (rows len w : ℕ) (dst : Memory) (d : ℕ) (src : Memory) (s i : ℕ)
    → d + rows * len ≤ i
    → copy_strided rows len len w dst d src s i ≡ dst i
unfolding copy_strided
copy_strided-behind zero len w dst d src s i h = refl
copy_strided-behind (suc rows) len w dst d src s i h =
    let below : d + len + rows * len ≤ i = grind arith in
    copy_strided-behind rows len w (copy dst d src s len) (d + len) src (s + w) i below
    ∙ copy_outside dst d src s len i (inr (omega arith))

pub below_or : (a i : ℕ) → (i < a) ⊎ (a ≤ i)
below_or a i = ground arith

pub below_suc : (c n : ℕ) → c < suc n → (c < n) ⊎ (c ≡ n)
below_suc c n h = ground arith

outside_range : (n x i k : ℕ) → (i < x) ⊎ (x + n ≤ i) → k < n → i ≢ x + k
outside_range n x i k away h here = ground arith

-- A place is outside `n` bytes, or is one of them.
pub range_cases : (a n i : ℕ) → ((i < a) ⊎ (a + n ≤ i)) ⊎ ((k : ℕ) × (k < n) × (i ≡ a + k))
range_cases a n i = elim (below_or a i) [
  | inl lower ↦ inl (inl lower)
  | inr upper ↦ elim (below_or (a + n) i) [
    | inl within ↦ inr (i - a, omega arith, omega arith)
    | inr behind ↦ inl (inr behind)
  ]
]

-- Byte `k` of one of `rows` rows of `len` bytes, which stand `v` apart from `d` on.
abbrev pub InRow : ℕ → ℕ → ℕ → ℕ → ℕ → Type 0
InRow rows len v d i = (r : ℕ) × (k : ℕ) × (r < rows) × (k < len) × (i ≡ d + r * v + k)

abbrev pub OffRows : ℕ → ℕ → ℕ → ℕ → ℕ → Type 0
OffRows rows len v d i = (r k : ℕ) → r < rows → k < len → i ≢ d + r * v + k

pub OffRows-head : (rows len v d i : ℕ) → OffRows (suc rows) len v d i → (i < d) ⊎ (d + len ≤ i)
OffRows-head rows len v d i off = elim (range_cases d len i) [
  | inl away ↦ away
  | inr (k, h, e) ↦ absurd (off 0 k (omega arith) h (omega arith))
]

pub OffRows-tail :
    (rows len v d i : ℕ) → OffRows (suc rows) len v d i → OffRows rows len v (d + v) i
OffRows-tail rows len v d i off r k h l e =
    off (suc r) k (omega arith) l (e ∙ sym (next_row d r v k))

pub copy_strided-off :
    (rows len v w : ℕ) (dst : Memory) (d : ℕ) (src : Memory) (s i : ℕ)
    → OffRows rows len v d i
    → copy_strided rows len v w dst d src s i ≡ dst i
unfolding copy_strided
copy_strided-off zero len v w dst d src s i off = refl
copy_strided-off (suc rows) len v w dst d src s i off =
    copy_strided-off rows len v w (copy dst d src s len) (d + v) src (s + w) i
      (OffRows-tail rows len v d i off)
    ∙ copy_outside dst d src s len i (OffRows-head rows len v d i off)

-- A place is in one of the rows, or off them all.
pub row_cases : (rows len v d i : ℕ) → InRow rows len v d i ⊎ OffRows rows len v d i
row_cases zero len v d i = inr (λ r k h. absurd (omega arith))
row_cases (suc rows) len v d i = elim (range_cases (d + rows * v) len i) [
  | inr (k, h, e) ↦ inl (rows, k, omega arith, h, e)
  | inl away ↦ elim (row_cases rows len v d i) [
    | inl (r, k, h, l, e) ↦ inl (r, k, omega arith, l, e)
    | inr others ↦ inr (λ r k h l e. elim (below_suc r rows h) [
      | inl lower ↦ others r k lower l e
      | inr last ↦ outside_range len (d + rows * v) i k away l (e ∙ ap (λ r. d + r * v + k) last)
    ])
  ]
]

-- memset(m + to, v, n)
abbrev pub fill : Memory → ℕ → ℕ → ℕ → Memory
fill m to v n i = if leb to i && ltb i (to + n) then v else m i

-- The number of `n` bytes from the offset `from` on, in the byte order of the machine.
abbrev pub load : Memory → ℕ → ℕ → ℕ
load m from zero = 0
load m from (suc n) = m from + 256 * load m (from + 1) n

-- The byte `k` of a number.
abbrev pub byte_of : ℕ → ℕ → ℕ
byte_of v zero = v % 256
byte_of v (suc k) = byte_of (v / 256) k

-- The `n` bytes of the number `v` are put from the offset `to` on.
abbrev pub store : Memory → ℕ → ℕ → ℕ → Memory
store m to n v i = if leb to i && ltb i (to + n) then byte_of v (i - to) else m i

pub store_inside : (m : Memory) (to n v k : ℕ) → k < n → store m to n v (to + k) ≡ byte_of v k
store_inside m to n v k h =
    let same : to + k - to ≡ k = omega arith in let value = ap (byte_of v) same in ground arith

pub store_outside : (m : Memory) (to n v i : ℕ) → (i < to) ⊎ (to + n ≤ i) → store m to n v i ≡ m i
store_outside m to n v i h = ground arith

-- Two copies of neighbouring stretches are one.
copy-copy :
    (dst : Memory) (to : ℕ) (src : Memory) (from n m i : ℕ)
    → copy (copy dst to src from n) (to + n) src (from + n) m i ≡ copy dst to src from (n + m) i
copy-copy dst to src from n m i = ground arith

-- Rows without gaps are one stretch.
pub copy_strided-copy :
    (rows unit : ℕ) (dst : Memory) (to : ℕ) (src : Memory) (from i : ℕ)
    → copy_strided rows unit unit unit dst to src from i ≡ copy dst to src from (rows * unit) i
unfolding copy_strided
copy_strided-copy zero unit dst to src from i = ground arith
copy_strided-copy (suc rows) unit dst to src from i =
    let size : unit + rows * unit ≡ suc rows * unit = grind arith in
    copy_strided-copy rows unit (copy dst to src from unit) (to + unit) src (from + unit) i
    ∙ copy-copy dst to src from unit (rows * unit) i
    ∙ ap (λ (n : ℕ). copy dst to src from n i) size
