-- ===== src/Rawspec/Products.antt =====
-- rawspec_dump_callback and rawspec_stop of half_hashpipe/hpguppi_rawspec.c: the output thread and
-- the output file of each product. A callback of another type than the two does nothing. What
-- pthread_create gives is a parameter; a failing pthread_join is only reported by the code, so its
-- result is left out.
pub mod Closing
pub mod Joining
use volt_rec.Base.{
  ℕ, Bool, true, false, List, [], ◌∷◌, Option, none, some, Result, ok, err, out_of_bounds,
  get_elem?, set, if◌then◌else◌,
}

-- The fields of `rawspec_callback_data_t` that the two functions use; `none` is the descriptor -1.
pub record Product : Type 0 where
  pub output_thread_valid : Bool
  pub output_thread : ℕ
  pub fd : Option ℕ

-- The calls of the system that the two functions make.
pub data Call : Type 0 where
  create_thread : (thread : ℕ) → Call
  join_thread : (thread : ℕ) → Call
  close_file : (fd : ℕ) → Call

-- The products, and the calls made so far, the newest first.
pub record Outputs : Type 0 where
  pub products : List Product
  pub calls : List Call

-- RAWSPEC_CALLBACK_PRE_DUMP, or RAWSPEC_CALLBACK_POST_DUMP with what pthread_create gives: the
-- thread, or none for an error.
pub data Callback : Type 0 where
  pre_dump : Callback
  post_dump : (created : Option ℕ) → Callback

abbrev pub join_output : Product → Product
join_output p = record { output_thread_valid = false; output_thread = p.output_thread; fd = p.fd }

abbrev pub start_output : Product → ℕ → Product
start_output p thread = record { output_thread_valid = true; output_thread = thread; fd = p.fd }

-- The callback for the product `p`: the product and the calls after it.
unfoldable pub dump_product : Callback → Product → List Call → Product × List Call
dump_product pre_dump p calls =
    if p.output_thread_valid
    then (join_output p, join_thread p.output_thread ∷ calls)
    else (p, calls)
dump_product (post_dump none) p calls = (p, calls)
dump_product (post_dump (some thread)) p calls =
    (start_output p thread, create_thread thread ∷ calls)

unfoldable pub rawspec_dump_callback : Outputs → ℕ → Callback → Result Outputs
unfolding dump_product
rawspec_dump_callback out output_product callback = elim (get_elem? out.products output_product) [
  | none ↦ err out_of_bounds
  | some p ↦
      let (q, calls) = dump_product callback p out.calls in
      ok (record { products = set out.products output_product q; calls = calls })
]

-- close() of a file that is open.
unfoldable pub close_output : Option ℕ → List Call → List Call
close_output none calls = calls
close_output (some fd) calls = close_file fd ∷ calls

-- The body of the loop of rawspec_stop.
unfoldable pub stop_product : Product → List Call → List Call
unfolding close_output
stop_product p calls =
    close_output p.fd (if p.output_thread_valid then join_thread p.output_thread ∷ calls else calls)

abbrev pub stopped : Product → Product
stopped p = record { output_thread_valid = false; output_thread = p.output_thread; fd = none }

unfoldable pub stop_products : List Product → List Call → List Product × List Call
unfolding stop_product
stop_products [] calls = ([], calls)
stop_products (p ∷ ps) calls =
    let (rest, after) = stop_products ps (stop_product p calls) in (stopped p ∷ rest, after)

unfoldable pub rawspec_stop : Outputs → Outputs
unfolding stop_products
rawspec_stop out =
    let (products, calls) = stop_products out.products out.calls in
    record { products = products; calls = calls }
