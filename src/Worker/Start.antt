-- ===== src/Worker/Start.antt =====
-- How the invariant of the sorting thread comes about: the first six buffers, and the first input.
use volt_rec.Base.{
  ℕ, zero, suc, ◌+◌, ◌*◌, ◌/◌, ◌-◌, ◌^◌, min, inl, inr, ◌⊎◌, ◌≤◌, ◌<◌, ◌≡◌, refl, true, false, some,
  List, [], ◌∷◌, arith, get_elem?, length, get_elem?-lt, ap, sym, ◌∙◌, ok, Memory, some_inj,
  replicate,
}
use volt_rec.Base.Int.{pos}
use mathlib.Core.Path.{subst}
use volt_rec.Formats.{
  time_int_per_buffer, packet_modulus, n_file_buffers_at_a_time, n_file_buffers, max_no_ants,
  get_pckt_no, get_ant_no,
}
use volt_rec.Pool.{Pool, in_use, init_udp_buff, fetch_empty_buffer, find_empty}
use volt_rec.Pool.Inv.{ok_inj}
use volt_rec.Antennas.{free, update_antenna}
use volt_rec.Worker.State.{
  FileBuff, Slot, Worker, open_slots, start_worker, packets_per_block, bad_config,
}
use volt_rec.Worker.Packets.{header_at, scan_headers, number_slots, first_loop}
use native.Mathlib.Decide.{dec_lt, ℕ_discrete}
use volt_rec.Worker.Invariant.{Inv, Owns}

-- The slots before the first input: order numbers from 1, and no packet numbers yet.
pub record Opened (w : Worker) : Type 0 where
  pub six : length w.slots ≡ n_file_buffers_at_a_time
  pub next : w.next_order ≡ n_file_buffers_at_a_time + 1
  pub ordered : (j : ℕ) (s : Slot) → get_elem? w.slots j ≡ some s → s.order ≡ j + 1
  pub owns : Owns w.slots w.file.pool.order_no

length-number_slots : (p k : ℕ) (slots : List Slot) → length (number_slots p k slots) ≡ length slots
unfolding number_slots
length-number_slots p k [] = refl
length-number_slots p k (s ∷ slots) = ap suc (length-number_slots p (k + 1) slots)

number_slots_lem :
    (p k : ℕ) (slots : List Slot) (j : ℕ) (t : Slot)
    → get_elem? (number_slots p k slots) j ≡ some t
    → (s : Slot) × (get_elem? slots j ≡ some s)
      × (t ≡ record s { packet_no = p + (k + j) * time_int_per_buffer })
unfolding number_slots
number_slots_lem p k [] j t h = absurd (cc)
number_slots_lem p k (s ∷ slots) zero t h =
    (s, refl, sym (some_inj h) ∙ ap (λ (n : ℕ). record s { packet_no = n }) (omega arith))
number_slots_lem p k (s ∷ slots) (suc j) t h =
    let (u, at_j, e) = number_slots_lem p (k + 1) slots j t h in
    (u, at_j, e ∙ ap (λ (n : ℕ). record u { packet_no = n }) (omega arith))

-- The slots are numbered from the start of the recording on.
first_loop-numbered :
    (input : Memory) (n : ℕ) (w : Worker)
    → Opened w
    → (first_loop input n w).file.packet_start + 6 * time_int_per_buffer ≤ packet_modulus
    → Inv (first_loop input n w).file.packet_start (first_loop input n w)
unfolding first_loop
first_loop-numbered input n w opened room = record {
  six = length-number_slots start 0 w.slots ∙ opened.six;
  next_from_one = omega (arith, opened.next);
  next_of_order = rw (opened.next) (omega arith);
  numbered = λ j t h.
      let (s, at_j, e) = number_slots_lem start 0 w.slots j t h in
      let order = opened.ordered j s at_j in
      let few = get_elem?-lt w.slots j at_j in
      rw e (record {
        packet_of_order = rw order (omega (arith, opened.six));
        from_one = omega arith;
        below_next = omega (arith, opened.next, opened.six);
      });
  owns = record {
    held = λ j t h.
        let (s, at_j, e) = number_slots_lem start 0 w.slots j t h in
        rw e (opened.owns.held j s at_j);
    apart = λ j k t u ht hu e.
        let (s, at_j, es) = number_slots_lem start 0 w.slots j t ht in
        let (v, at_k, ev) = number_slots_lem start 0 w.slots k u hu in
        opened.owns.apart j k s v at_j at_k
          (sym (ap (λ (x : Slot). x.index) es) ∙ e ∙ ap (λ (x : Slot). x.index) ev);
  };
}
  where
    start : ℕ
    start = (first_loop input n w).file.packet_start

-- What the scan of the headers finds: the start value, or the packet number of one of the messages,
-- which is not above the start value nor above any of theirs.
scan_headers-lowest :
    (input : Memory) (n_ants left k top : ℕ) (ants : List ℕ)
    → ((scan_headers input n_ants left k top ants).0 ≤ top)
      × ((j : ℕ)
          → k ≤ j
          → j < k + left
          → (scan_headers input n_ants left k top ants).0 ≤ get_pckt_no (header_at input j))
      × (((scan_headers input n_ants left k top ants).0 ≡ top)
          ⊎ ((j : ℕ) × (k ≤ j)
              × (j < k + left)
              × ((scan_headers input n_ants left k top ants).0 ≡ get_pckt_no (header_at input j))))
unfolding scan_headers
scan_headers-lowest input n_ants zero k top ants =
    (omega arith, λ j low high. absurd (omega arith), inl refl)
scan_headers-lowest input n_ants (suc left) k top ants =
    let here = get_pckt_no (header_at input k) in
    let (below, all, found) =
      scan_headers-lowest input n_ants left (k + 1) (min top here)
        (update_antenna ants (get_ant_no (header_at input k)) n_ants).1 in
    (
      omega arith,
      λ j low high. elim (ℕ_discrete k j) [
        | yes same ↦ ap_le same (omega arith)
        | no other ↦ all j (omega arith) (omega arith)
      ],
      elim found [
        | inl start ↦ elim (dec_lt here top) [
          | yes lower ↦ inr (k, omega arith, omega arith, omega arith)
          | no not_lower ↦ inl (omega arith)
        ]
        | inr (j, low, high, at) ↦ inr (j, omega arith, omega arith, at)
      ],
    )
  where
    ap_le :
        {j m : ℕ}
        → k ≡ j
        → m ≤ get_pckt_no (header_at input k)
        → m ≤ get_pckt_no (header_at input j)
    ap_le {j} {m} same h = subst (λ (x : ℕ). m ≤ get_pckt_no (header_at input x)) same h

-- The first input buffer, of at least one message, numbers the six slots from the lowest packet
-- number of its messages, rounded down to a block of 128: the recording starts there, and the
-- invariant holds with that start, if the six blocks do not reach the end of the 38-bit packet
-- numbers.
pub first_loop-Inv :
    (input : Memory) (n : ℕ) (w : Worker)
    → 0 < n
    → Opened w
    → (first_loop input n w).file.packet_start + 6 * time_int_per_buffer ≤ packet_modulus
    → (k : ℕ) × (k < n)
      × ((j : ℕ) → j < n → get_pckt_no (header_at input k) ≤ get_pckt_no (header_at input j))
      × ((first_loop input n w).file.packet_start ≡ get_pckt_no (header_at input k) / 128 * 128)
      × Inv (first_loop input n w).file.packet_start (first_loop input n w)
unfolding first_loop
first_loop-Inv input n w some_messages opened room =
    let (below, all, found) = scan_headers-lowest input w.file.n_ants n 0 (2 ^ 63 - 1) w.ants in
    elim found [
      | inl untouched ↦ let first = all 0 (omega arith) (omega arith) in absurd (omega arith)
      | inr (k, low, high, at) ↦ (
        k,
        omega arith,
        λ j h. omega (arith, all j (omega arith) (omega arith)),
        omega arith,
        first_loop-numbered input n w opened room,
      )
    ]

-- The slots that are opened on a fresh pool: the first six buffers in turn.
six_slots : FileBuff → Slot → List Slot
six_slots f raw = slot 0 ∷ slot 1 ∷ slot 2 ∷ slot 3 ∷ slot 4 ∷ slot 5 ∷ []
  where
    slot : ℕ → Slot
    slot i = record {
      packet_no = raw.packet_no;
      index = i;
      order = i + 1;
      n_to_full = pos (packets_per_block f);
    }

six_slots_lem :
    (f : FileBuff) (raw : Slot) (j : ℕ) (s : Slot)
    → get_elem? (six_slots f raw) j ≡ some s
    → (s.index ≡ j) × (s.order ≡ j + 1) × (j < 6)
unfolding six_slots
six_slots_lem f raw zero s h = (cc, cc, omega arith)
six_slots_lem f raw (suc zero) s h = (cc, cc, omega arith)
six_slots_lem f raw (suc (suc zero)) s h = (cc, cc, omega arith)
six_slots_lem f raw (suc (suc (suc zero))) s h = (cc, cc, omega arith)
six_slots_lem f raw (suc (suc (suc (suc zero)))) s h = (cc, cc, omega arith)
six_slots_lem f raw (suc (suc (suc (suc (suc zero))))) s h = (cc, cc, omega arith)
six_slots_lem f raw (suc (suc (suc (suc (suc (suc j)))))) s h = absurd (cc)

module _ (f : FileBuff) (raw : Slot) (m : Memory) (raw_len : ℕ) where
  -- The pool of file buffers as init_udp_buff leaves it.
  fresh_pool : Pool
  fresh_pool = record {
    store = replicate n_file_buffers m;
    data_len = replicate n_file_buffers raw_len;
    order_no = replicate n_file_buffers (pos 0);
    n_ready = 0;
    no_buffers = n_file_buffers;
  }

  opened : List Slot × Pool
  opened = open_slots (record f { pool = fresh_pool }) raw n_file_buffers_at_a_time 0 fresh_pool

  opened_slots : opened.0 ≡ six_slots f raw
  unfolding opened open_slots fresh_pool fetch_empty_buffer find_empty six_slots
  opened_slots = refl

  opened_states : (j : ℕ) → j < 6 → get_elem? opened.1.order_no j ≡ some in_use
  unfolding opened open_slots fresh_pool fetch_empty_buffer find_empty
  opened_states zero h = refl
  opened_states (suc zero) h = refl
  opened_states (suc (suc zero)) h = refl
  opened_states (suc (suc (suc zero))) h = refl
  opened_states (suc (suc (suc (suc zero)))) h = refl
  opened_states (suc (suc (suc (suc (suc zero))))) h = refl
  opened_states (suc (suc (suc (suc (suc (suc j)))))) h = absurd (omega arith)

  opened-Owns : Owns opened.0 opened.1.order_no
  opened-Owns = record {
    held = λ j s h.
        let (index, _, few) = six_slots_lem f raw j s (rw opened_slots at h) in
        rw index (opened_states j few);
    apart = λ j k s t hs ht e.
        let (es, _, _) = six_slots_lem f raw j s (rw opened_slots at hs) in
        let (et, _, _) = six_slots_lem f raw k t (rw opened_slots at ht) in sym es ∙ e ∙ et;
  }

-- On a fresh pool of 20 buffers and with arguments that it accepts, worker_work comes to its loop
-- with six slots of order numbers 1 to 6 that fill six buffers of the pool, and with next order 7.
pub start_worker-Opened :
    (udp p : Pool) (f : FileBuff) (raw : Slot) (raw_next raw_last raw_len : ℕ) (m : Memory)
    → init_udp_buff true m raw_len n_file_buffers ≡ ok p
    → bad_config f ≡ false
    → (w : Worker) × (start_worker udp (record f { pool = p }) raw raw_next raw_last ≡ some w)
      × Opened w
unfolding start_worker init_udp_buff opened fresh_pool bad_config
start_worker-Opened udp p f raw raw_next raw_last raw_len m fresh good =
    subst
      (λ q.
        (w : Worker) × (start_worker udp (record f { pool = q }) raw raw_next raw_last ≡ some w)
        × Opened w)
      (ok_inj fresh)
      (
        record {
          udp = udp;
          file = record f { pool = (opened f raw m raw_len).1 };
          ants = replicate max_no_ants free;
          slots = (opened f raw m raw_len).0;
          next_order = n_file_buffers_at_a_time + 1;
          next_packet_no = raw_next;
          last_sent = raw_last;
          n_missing = 0;
          first_loop_done = false;
        },
        rw good,
        record {
          six = rw (opened_slots f raw m raw_len) (unfold six_slots in refl);
          next = refl;
          ordered = λ j s h. (six_slots_lem f raw j s (rw (opened_slots f raw m raw_len) at h)).1;
          owns = opened-Owns f raw m raw_len;
        },
      )
