-- ===== src/Tests/Outputs.antt =====
-- half_hashpipe/hpguppi_rawspec.c, hpguppi_util.c and the change of DESTIP at concrete inputs.
use volt_rec.Base.{
  ◌==◌, Memory, copy, ltb, leb, ◌&&◌, ◌-◌, ℕ, zero, suc, ◌+◌, ◌%◌, ◌^◌, ◌≡◌, refl, sym, ap, ◌∙◌,
  inl, arith, List, [], ◌∷◌, ◌++◌, map, Option, some, none, true, false, take, some_inj, get_elem?,
  if◌then◌else◌,
}
use volt_rec.Rawspec.Writing.{Write, write_all}
use volt_rec.Rawspec.Writing.Ends.{WriteLaws, Ended, write_all_ends}
use volt_rec.Rawspec.Products.{
  Product, Outputs, create_thread, rawspec_dump_callback, dump_product, rawspec_stop, stopped,
}
use volt_rec.Rawspec.Products.Joining.{Dumped, start, after, created, joined, rawspec_stop-joined}
use volt_rec.Rawspec.Products.Closing.{closes, open_in}
use volt_rec.Wide.Whole.{wide_copies_lem}
use volt_rec.Wide.{memcpy_nt, bzero_nt}
use volt_rec.Paths.{made, Mkdir, mkdir_p}
use volt_rec.Paths.Parents.{MkdirLaws, mkdir_p-exists}
use volt_rec.Hashpipe.Streams.{
  Streams, Network, any_address, same_string, split_plus, stream_count, dest_ip_change,
}
use volt_rec.Hashpipe.Streams.Switching.{
  Streaming, NetworkLaws, StreamingBut, dest_ip_change-StreamingBut, dest_ip_change_on_off,
}

-- A file takes one byte of each write.
abbrev byte_file : Write (List ℕ)
byte_file file [] = (some 0, file)
byte_file file (b ∷ buf) = (some 1, file ++ (b ∷ []))

byte_file-laws : WriteLaws byte_file (λ file. file)
byte_file-laws = record {
  wrote = λ file after b buf n e.
      let one : 1 ≡ n = some_inj (ap (λ x. x.0) e) in
      let content : file ++ (b ∷ []) ≡ after = ap (λ x. x.1) e in
      (omega arith, omega arith, sym content ∙ ap (λ k. file ++ take k (b ∷ buf)) one);
  refused = λ file after b buf e. absurd (cc);
}

write_all_example :
    (r : Option ℕ × List ℕ) × (write_all byte_file 3 (9 ∷ []) (1 ∷ 2 ∷ 3 ∷ []) ≡ some r)
    × Ended byte_file (λ file. file) byte_file-laws 3 (9 ∷ []) (1 ∷ 2 ∷ 3 ∷ []) r
write_all_example =
    write_all_ends byte_file (λ file. file) byte_file-laws 3 (9 ∷ []) (1 ∷ 2 ∷ 3 ∷ []) (omega arith)

abbrev one_product : List Product
one_product = record { output_thread_valid = false; output_thread = 0; fd = some 5 } ∷ []

abbrev dumped : Outputs
dumped = record {
  products = record { output_thread_valid = true; output_thread = 8; fd = some 5 } ∷ [];
  calls = create_thread 8 ∷ [];
}

one_idle : (p : Product) (i : ℕ) → get_elem? one_product i ≡ some p → p.output_thread_valid ≡ false
one_idle p zero h = sym (ap (λ (x : Product). x.output_thread_valid) (some_inj h))
one_idle p (suc i) h = absurd (cc)

dumped-Dumped : Dumped one_product dumped
unfolding rawspec_dump_callback dump_product
dumped-Dumped =
    after 0 (record { output_thread_valid = false; output_thread = 0; fd = some 5 }) (some 8)
      (start one_idle) refl refl refl

rawspec_stop_example :
    ((t : ℕ) → joined t (rawspec_stop dumped).calls ≡ created t (rawspec_stop dumped).calls)
    × ((f : ℕ) → closes f (rawspec_stop dumped).calls ≡ open_in f dumped.products)
    × ((rawspec_stop dumped).products ≡ map stopped dumped.products)
rawspec_stop_example = rawspec_stop-joined one_product dumped dumped-Dumped

-- The file system is the list of the paths that mkdir() was called with.
abbrev every_path : Mkdir (List (List ℕ))
every_path sys path = (made, path ∷ sys)

pub data IsIn (path : List ℕ) : List (List ℕ) → Type 0 where
  here : {sys : List (List ℕ)} → IsIn path (path ∷ sys)
  there : {other : List ℕ} {sys : List (List ℕ)} → IsIn path sys → IsIn path (other ∷ sys)

every_path-laws : MkdirLaws every_path (λ sys path. IsIn path sys)
every_path-laws = record {
  after_made = λ sys path e. here;
  after_exists = λ sys path e. here;
  keeps = λ sys path other h. there h;
}

-- "/a/b"
mkdir_p_example :
    IsIn (47 ∷ 97 ∷ 47 ∷ 98 ∷ []) (mkdir_p every_path [] (some (47 ∷ 97 ∷ 47 ∷ 98 ∷ []))).1
    × IsIn (47 ∷ 97 ∷ []) (mkdir_p every_path [] (some (47 ∷ 97 ∷ 47 ∷ 98 ∷ []))).1
unfolding mkdir_p
mkdir_p_example =
    mkdir_p-exists every_path (λ sys path. IsIn path sys) every_path-laws [] 47 (97 ∷ []) (98 ∷ [])
      refl

-- Every address but "0.0.0.0" is 10.0.0.1, and no call fails.
abbrev network : Network
network = record {
  inet_aton = λ ip. some (if same_string ip any_address then 0 else 167772161);
  strtoul = λ digits. 3;
  remove_fails = λ i. false;
  add_fails = λ i. false;
}

network-laws : NetworkLaws network
network-laws = record { any_is_zero = refl; removes = λ i. refl }

abbrev idle : Streams
idle = record { dest_ip_stream_str = []; nstreams = 0; flows = λ i. none }

idle-Streaming : Streaming 16 idle
idle-Streaming = record { few = omega arith; base = 0; in_place = λ i. inl refl }

-- "10+3"
abbrev four_streams : List ℕ
four_streams = 49 ∷ 48 ∷ 43 ∷ 51 ∷ []

-- The flow of slot 3 was never removed.
abbrev stuck_network : Network
stuck_network = record network { remove_fails = λ i. i == 3 }

abbrev left_over : Streams
left_over = record idle { flows = λ i. if i == 3 then some 99 else none }

left_over-StreamingBut : StreamingBut (λ i. i == 3) 16 left_over
left_over-StreamingBut = record { few = omega arith; base = 0; in_place = λ i. ground arith }

dest_ip_change_example :
    StreamingBut (λ i. i == 3) 16 (dest_ip_change stuck_network 16 four_streams left_over)
dest_ip_change_example =
    dest_ip_change-StreamingBut stuck_network (λ i. i == 3) 16 four_streams left_over refl
      (λ i h. h) left_over-StreamingBut

on_off_example :
    ((dest_ip_change network 16 four_streams idle).flows 2 ≡ some ((suc 167772160 + 2) % 2 ^ 32))
    × ((dest_ip_change network 16 any_address (dest_ip_change network 16 four_streams idle)).flows 2
        ≡ none)
unfolding split_plus stream_count
on_off_example =
    dest_ip_change_on_off network 16 four_streams idle 167772160 2 network-laws idle-Streaming refl
      refl refl refl (λ j. refl) (omega arith)

abbrev numbered : Memory
numbered i = i

-- A copy of 100 bytes in words of 64 bytes: byte 70 behind the start is not copied.
wide_copies_example :
    (memcpy_nt true (λ _. 7) 128 numbered 64 100 198
      ≡ copy (λ _. 7) 128 numbered 64 (100 - 100 % 64) 198)
    × (bzero_nt true (λ _. 7) 128 100 198
        ≡ (if leb 128 198 && ltb 198 (128 + (100 - 100 % 64)) then 0 else 7))
wide_copies_example = wide_copies_lem true (λ _. 7) 128 numbered 64 100 198
