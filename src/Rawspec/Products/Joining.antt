-- ===== src/Rawspec/Products/Joining.antt =====
-- Every output thread is joined once.
use volt_rec.Base.{
  ℕ, zero, suc, ◌+◌, ◌≡◌, refl, sym, ap, ◌∙◌, false, List, [], ◌∷◌, Option, none, some, ok, arith,
  get_elem?, set, if◌then◌else◌, ◌==◌, Option-cases, inl, inr, some_inj, map,
}
use mathlib.Core.Path.{subst}
use volt_rec.Rawspec.Products.{
  Product, Call, create_thread, join_thread, close_file, Outputs, Callback, pre_dump, post_dump,
  dump_product, rawspec_dump_callback, close_output, stop_product, stopped, stop_products,
  rawspec_stop,
}
use volt_rec.Rawspec.Products.Closing.{closes, open_in, dump_product-closes, stop_products-closes}

-- How often a thread was created, and how often joined.
abbrev pub created : ℕ → List Call → ℕ
created t [] = 0
created t (create_thread u ∷ calls) = if t == u then suc (created t calls) else created t calls
created t (join_thread u ∷ calls) = created t calls
created t (close_file fd ∷ calls) = created t calls

abbrev pub joined : ℕ → List Call → ℕ
joined t [] = 0
joined t (create_thread u ∷ calls) = joined t calls
joined t (join_thread u ∷ calls) = if t == u then suc (joined t calls) else joined t calls
joined t (close_file fd ∷ calls) = joined t calls

-- Whether the product has the thread, as a number.
abbrev own : ℕ → Product → ℕ
own t p = if p.output_thread_valid then (if t == p.output_thread then 1 else 0) else 0

abbrev pending : ℕ → List Product → ℕ
pending t [] = 0
pending t (p ∷ ps) = own t p + pending t ps

pending-set :
    (t : ℕ) (ps : List Product) (i : ℕ) (p q : Product)
    → get_elem? ps i ≡ some p
    → pending t (set ps i q) + own t p ≡ pending t ps + own t q
pending-set t [] i p q h = absurd (cc)
pending-set t (x ∷ ps) zero p q h = let same = ap (own t) (some_inj h) in omega (arith, same)
pending-set t (x ∷ ps) (suc i) p q h = omega (arith, pending-set t ps i p q h)

-- The callbacks of a context, in any order, from products without threads; a POST_DUMP comes only
-- where the product has no thread.
pub data Dumped (products : List Product) : Outputs → Type 0 where
  start :
      ((p : Product) (i : ℕ) → get_elem? products i ≡ some p → p.output_thread_valid ≡ false)
      → Dumped products (record { products = products; calls = [] })
  before :
      {out next : Outputs} (i : ℕ)
      → Dumped products out
      → rawspec_dump_callback out i pre_dump ≡ ok next
      → Dumped products next
  after :
      {out next : Outputs} (i : ℕ) (p : Product) (thread : Option ℕ)
      → Dumped products out
      → get_elem? out.products i ≡ some p
      → p.output_thread_valid ≡ false
      → rawspec_dump_callback out i (post_dump thread) ≡ ok next
      → Dumped products next

-- A thread was created as often as it was joined or is pending.
abbrev IsBalanced : Outputs → Type 0
IsBalanced out = (t : ℕ) → created t out.calls ≡ joined t out.calls + pending t out.products

dump_product-balance :
    (t : ℕ) (c : Callback) (p : Product) (calls : List Call)
    → ((thread : Option ℕ) → c ≡ post_dump thread → p.output_thread_valid ≡ false)
    → created t (dump_product c p calls).1 + joined t calls + own t p
      ≡ created t calls + joined t (dump_product c p calls).1 + own t (dump_product c p calls).0
unfolding dump_product
dump_product-balance t pre_dump p calls h = ground arith
dump_product-balance t (post_dump none) p calls h = omega arith
dump_product-balance t (post_dump (some thread)) p calls h =
    let idle = h (some thread) refl in ground arith

ok_inj : {a b : Outputs} → ok a ≡ ok b → a ≡ b
ok_inj h = cc

pending-none :
    (t : ℕ) (ps : List Product)
    → ((p : Product) (i : ℕ) → get_elem? ps i ≡ some p → p.output_thread_valid ≡ false)
    → pending t ps ≡ 0
pending-none t [] idle = refl
pending-none t (p ∷ ps) idle =
    let here = idle p 0 refl in
    let rest = pending-none t ps (λ q i h. idle q (suc i) h) in ground arith

IsBalanced-callback :
    (out next : Outputs) (i : ℕ) (c : Callback)
    → IsBalanced out
    → ((p : Product) (thread : Option ℕ)
        → get_elem? out.products i ≡ some p
        → c ≡ post_dump thread
        → p.output_thread_valid ≡ false)
    → rawspec_dump_callback out i c ≡ ok next
    → IsBalanced next
unfolding rawspec_dump_callback
IsBalanced-callback out next i c balanced idle e t =
    elim (Option-cases (get_elem? out.products i)) [
      | inl outside ↦ absurd (ground arith)
      | inr (p, at) ↦
          let q = (dump_product c p out.calls).0 in
          let calls = (dump_product c p out.calls).1 in
          let runs : rawspec_dump_callback out i c
              ≡ ok (record { products = set out.products i q; calls = calls }) =
            rw (at, rawspec_dump_callback) in
          let same = ok_inj (sym runs ∙ e) in
          let step = dump_product-balance t c p out.calls (λ thread h. idle p thread at h) in
          let moved = pending-set t out.products i p q at in
          let was = balanced t in
          let now : created t calls ≡ joined t calls + pending t (set out.products i q) =
            omega arith in
          subst (λ (o : Outputs). created t o.calls ≡ joined t o.calls + pending t o.products) same
            now
    ]

IsBalanced-Dumped : (products : List Product) (out : Outputs) → Dumped products out → IsBalanced out
IsBalanced-Dumped products out (start idle) = λ t. omega (arith, pending-none t products idle)
IsBalanced-Dumped products out (before {out = o} i run e) =
    IsBalanced-callback o out i pre_dump (IsBalanced-Dumped products o run)
      (λ p thread at h. absurd (cc)) e
IsBalanced-Dumped products out (after {out = o} i p thread run at idle e) =
    IsBalanced-callback o out i (post_dump thread) (IsBalanced-Dumped products o run)
      (λ q u here h. rw (some_inj (sym here ∙ at)) idle) e

stop_product-joined :
    (t : ℕ) (p : Product) (calls : List Call)
    → (created t (stop_product p calls) ≡ created t calls)
      × (joined t (stop_product p calls) ≡ joined t calls + own t p)
unfolding stop_product close_output
stop_product-joined t p calls = elim (Option-cases p.fd) [
  | inl closes ↦ ground arith
  | inr (fd, open_file) ↦ ground arith
]

stop_products-joined :
    (t : ℕ) (ps : List Product) (calls : List Call)
    → (created t (stop_products ps calls).1 ≡ created t calls)
      × (joined t (stop_products ps calls).1 ≡ joined t calls + pending t ps)
unfolding stop_products
stop_products-joined t [] calls = (refl, omega arith)
stop_products-joined t (p ∷ ps) calls =
    let (same, rest) = stop_products-joined t ps (stop_product p calls) in
    let (here, one) = stop_product-joined t p calls in (same ∙ here, omega arith)

stop_products-stopped :
    (ps : List Product) (calls : List Call) → (stop_products ps calls).0 ≡ map stopped ps
unfolding stop_products
stop_products-stopped [] calls = refl
stop_products-stopped (p ∷ ps) calls =
    ap (λ qs. stopped p ∷ qs) (stop_products-stopped ps (stop_product p calls))

closes-callback :
    (f : ℕ) (out next : Outputs) (i : ℕ) (c : Callback)
    → rawspec_dump_callback out i c ≡ ok next
    → closes f next.calls ≡ closes f out.calls
unfolding rawspec_dump_callback
closes-callback f out next i c e = elim (Option-cases (get_elem? out.products i)) [
  | inl outside ↦ absurd (ground arith)
  | inr (p, at) ↦
      let q = (dump_product c p out.calls).0 in
      let calls = (dump_product c p out.calls).1 in
      let runs : rawspec_dump_callback out i c
          ≡ ok (record { products = set out.products i q; calls = calls }) =
        rw (at, rawspec_dump_callback) in
      let same = ok_inj (sym runs ∙ e) in
      ap (λ (o : Outputs). closes f o.calls) (sym same) ∙ dump_product-closes f c p out.calls
]

-- No callback closes a file.
closes-Dumped :
    (f : ℕ) (products : List Product) (out : Outputs) → Dumped products out → closes f out.calls ≡ 0
closes-Dumped f products out (start idle) = refl
closes-Dumped f products out (before {out = o} i run e) =
    closes-callback f o out i pre_dump e ∙ closes-Dumped f products o run
closes-Dumped f products out (after {out = o} i p thread run at idle e) =
    closes-callback f o out i (post_dump thread) e ∙ closes-Dumped f products o run

-- Whatever callbacks came, each POST_DUMP for a product without a thread: after rawspec_stop every
-- thread was joined as often as it was created, every file descriptor was closed as often as
-- products had it open, and no product has a thread or a descriptor.
pub rawspec_stop-joined :
    (products : List Product) (out : Outputs)
    → Dumped products out
    → ((t : ℕ) → joined t (rawspec_stop out).calls ≡ created t (rawspec_stop out).calls)
      × ((f : ℕ) → closes f (rawspec_stop out).calls ≡ open_in f out.products)
      × ((rawspec_stop out).products ≡ map stopped out.products)
unfolding rawspec_stop
rawspec_stop-joined products out run = (
  λ t.
      let balanced = IsBalanced-Dumped products out run t in
      let (same, all) = stop_products-joined t out.products out.calls in omega arith,
  λ f.
      let before_stop = closes-Dumped f products out run in
      let all = stop_products-closes f out.products out.calls in omega arith,
  stop_products-stopped out.products out.calls,
)
