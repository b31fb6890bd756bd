-- ===== src/Worker/Copying.antt =====
-- What one packet does to the buffers: the copy of its payload, and nothing else.
use volt_rec.Base.{
  ℕ, suc, ◌+◌, ◌*◌, ◌≤◌, ◌<◌, ◌≡◌, refl, ◌≢◌, ◌⊎◌, inl, inr, some, List, [], ◌∷◌, arith, Bool-cases,
  Option-cases, get_elem?, set, length, get_elem?-set_self, get_elem?-set_ne, get_elem?-lt, get_or,
  get_or-set_self, get_or-set_ne, sym, ◌∙◌, Memory, ◌==◌, copy, copy_inside, copy_outside, ==→eq,
  some_inj,
}
use volt_rec.Base.Int.{pos, ◌-ℤ◌}
use volt_rec.Formats.{rx_msg_len, rx_buff_len, rx_data_len, get_packet_filter, get_pckt_no}
use volt_rec.Worker.State.{Slot, Worker}
use volt_rec.Worker.Packets.{
  Place, accept, offset, header_at, struct_index_from, find_struct_index, store_packet,
  process_packet,
}

struct_index_from_lem :
    (slots : List Slot) (curr k : ℕ) {i : ℕ}
    → struct_index_from slots curr k ≡ some i
    → (j : ℕ) × (s : Slot) × (i ≡ k + j) × (get_elem? slots j ≡ some s) × (s.packet_no ≡ curr)
unfolding struct_index_from
struct_index_from_lem [] curr k h = absurd (cc)
struct_index_from_lem (s ∷ slots) curr k {i} h = elim (Bool-cases (s.packet_no == curr)) [
  | inl here ↦ (0, s, ground arith, refl, ==→eq s.packet_no curr here)
  | inr away ↦
      let (j, t, e, at_j, same) = struct_index_from_lem slots curr (k + 1) {i = i} (rw away at h) in
      (suc j, t, omega arith, at_j, same)
]

-- findStructIndex returns a slot of the packet number that is looked for.
pub find_struct_index_lem :
    (slots : List Slot) (curr : ℕ) {j : ℕ}
    → find_struct_index slots curr ≡ some j
    → (s : Slot) × (get_elem? slots j ≡ some s) × (s.packet_no ≡ curr)
unfolding find_struct_index
find_struct_index_lem slots curr {j} h =
    let (i, s, e, at_i, same) = struct_index_from_lem slots curr 0 {i = j} h in
    let here : j ≡ i = omega arith in (s, rw here at_i, same)

-- A packet whose header is accepted and whose block has the open slot `j`.
pub record Lands (input : Memory) (k : ℕ) (w : Worker) : Type 0 where
  pub place : Place
  pub j : ℕ
  pub s : Slot
  pub accepted : accept w.file w.ants (header_at input k) ≡ some place
  pub found :
      find_struct_index w.slots (get_packet_filter (get_pckt_no (header_at input k))) ≡ some j
  pub at_j : get_elem? w.slots j ≡ some s

-- A packet is ignored, or stored where it lands.
pub process_packet_cases :
    (input : Memory) (k : ℕ) (w : Worker)
    → (process_packet input k w ≡ w)
      ⊎ ((l : Lands input k w) × (process_packet input k w
            ≡ store_packet input k l.place l.j l.s w))
unfolding process_packet
process_packet_cases input k w = elim (Option-cases (accept w.file w.ants (header_at input k))) [
  | inl e ↦ inl (rw (e, process_packet))
  | inr (place, e) ↦
      elim (Option-cases
        (find_struct_index w.slots (get_packet_filter (get_pckt_no (header_at input k))))) [
          | inl e' ↦ inl (rw (e, process_packet) (rw (e', process_packet)))
          | inr (j, e') ↦
              let (s, at_j, _) = find_struct_index_lem w.slots _ e' in
              inr (
                record { place = place; j = j; s = s; accepted = e; found = e'; at_j = at_j },
                rw (e, process_packet) (rw (e', process_packet) (rw (at_j, process_packet))),
              )
        ]
]

-- A packet that lands in slot `j` of the pool's buffer `s.index` has that slot's packet number as
-- the start of its block. Afterwards the 8192 bytes at its offset of that buffer are its payload;
-- every other byte of the buffer and every other buffer are as before; the slot wants one packet
-- less and the other slots are as before. Nothing else of the thread changes but the contents of
-- the buffers and these slots: not the antennas, the counts, the numbers that come next, the rest
-- of the pool or the buffers of the input.
pub store_packet_lem :
    (input : Memory) (k : ℕ) (w : Worker) (l : Lands input k w)
    → l.s.index < length w.file.pool.store
    → (l.s.packet_no ≡ get_packet_filter (get_pckt_no (header_at input k)))
      × ((b : ℕ)
          → b < rx_data_len
          → get_or
              (store_packet input k l.place l.j l.s w).file.pool.store
              l.s.index
              (λ _. 0)
              (offset w.file l.place + b)
            ≡ input (k * rx_msg_len + rx_buff_len + b))
      × ((b : ℕ)
          → (b < offset w.file l.place) ⊎ (offset w.file l.place + rx_data_len ≤ b)
          → get_or (store_packet input k l.place l.j l.s w).file.pool.store l.s.index (λ _. 0) b
            ≡ get_or w.file.pool.store l.s.index (λ _. 0) b)
      × ((i : ℕ)
          → l.s.index ≢ i
          → get_or (store_packet input k l.place l.j l.s w).file.pool.store i (λ _. 0)
            ≡ get_or w.file.pool.store i (λ _. 0))
      × ((store_packet input k l.place l.j l.s w).file.pool.order_no ≡ w.file.pool.order_no)
      × (get_elem? (store_packet input k l.place l.j l.s w).slots l.j
          ≡ some (record (l.s) { n_to_full = l.s.n_to_full -ℤ pos 1 }))
      × ((i : ℕ)
          → l.j ≢ i
          → get_elem? (store_packet input k l.place l.j l.s w).slots i ≡ get_elem? w.slots i)
      × (store_packet input k l.place l.j l.s w ≡ record w {
        file = record (w.file) {
          pool = record (w.file.pool) {
            store = (store_packet input k l.place l.j l.s w).file.pool.store;
          };
        };
        slots = (store_packet input k l.place l.j l.s w).slots;
      })
unfolding store_packet
store_packet_lem input k w l inside = (
  block,
  λ b h. rw stored (copy_inside old at_offset input from rx_data_len b h),
  λ b h. rw stored (copy_outside old at_offset input from rx_data_len b h),
  λ i ne. get_or-set_ne w.file.pool.store l.s.index i _ (λ _. 0) ne,
  refl,
  get_elem?-set_self w.slots l.j _ (get_elem?-lt w.slots l.j l.at_j),
  λ i ne. get_elem?-set_ne w.slots _ ne,
  refl,
)
  where
    old : Memory
    old = get_or w.file.pool.store l.s.index (λ _. 0)

    at_offset : ℕ
    at_offset = offset w.file l.place

    from : ℕ
    from = k * rx_msg_len + rx_buff_len

    stored :
        get_or
          (set w.file.pool.store l.s.index (copy old at_offset input from rx_data_len))
          l.s.index
          (λ _. 0)
        ≡ copy old at_offset input from rx_data_len
    stored = get_or-set_self w.file.pool.store l.s.index _ (λ _. 0) inside

    block : l.s.packet_no ≡ get_packet_filter (get_pckt_no (header_at input k))
    block =
        let (t, at_t, same) = find_struct_index_lem w.slots _ l.found in
        let one : some t ≡ some l.s = sym at_t ∙ l.at_j in rw (some_inj one) at same
