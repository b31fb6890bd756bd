-- ===== src/Rawspec/Products/Closing.antt =====
-- How often rawspec_stop closes a file.
use volt_rec.Base.{
  ℕ, suc, ◌+◌, ◌≡◌, refl, ◌∙◌, List, [], ◌∷◌, none, some, arith, if◌then◌else◌, ◌==◌, Option-cases,
  inl, inr,
}
use volt_rec.Rawspec.Products.{
  Product, Call, create_thread, join_thread, close_file, Callback, pre_dump, post_dump,
  dump_product, close_output, stop_product, stop_products,
}

-- How often a file was closed.
abbrev pub closes : ℕ → List Call → ℕ
closes f [] = 0
closes f (create_thread u ∷ calls) = closes f calls
closes f (join_thread u ∷ calls) = closes f calls
closes f (close_file fd ∷ calls) = if f == fd then suc (closes f calls) else closes f calls

-- How many products have the file open.
abbrev pub open_in : ℕ → List Product → ℕ
open_in f [] = 0
open_in f (p ∷ ps) = elim p.fd [ none ↦ 0 | some fd ↦ if f == fd then 1 else 0 ] + open_in f ps

pub dump_product-closes :
    (f : ℕ) (c : Callback) (p : Product) (calls : List Call)
    → closes f (dump_product c p calls).1 ≡ closes f calls
unfolding dump_product
dump_product-closes f pre_dump p calls = ground arith
dump_product-closes f (post_dump none) p calls = refl
dump_product-closes f (post_dump (some thread)) p calls = refl

stop_product-closes :
    (f : ℕ) (p : Product) (ps : List Product) (calls : List Call)
    → closes f (stop_product p calls) + open_in f ps ≡ closes f calls + open_in f (p ∷ ps)
unfolding stop_product close_output
stop_product-closes f p ps calls = elim (Option-cases p.fd) [
  | inl shut ↦ ground arith
  | inr (fd, open_file) ↦ ground arith
]

pub stop_products-closes :
    (f : ℕ) (ps : List Product) (calls : List Call)
    → closes f (stop_products ps calls).1 ≡ closes f calls + open_in f ps
unfolding stop_products
stop_products-closes f [] calls = omega arith
stop_products-closes f (p ∷ ps) calls =
    stop_products-closes f ps (stop_product p calls) ∙ stop_product-closes f p ps calls
