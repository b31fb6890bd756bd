-- ===== src/Worker/Steps.antt =====
-- Every step of the sorting thread keeps its invariant, and is safe.
use volt_rec.Base.{
  ℕ, zero, suc, ◌+◌, ◌/◌, ◌<◌, ◌≡◌, refl, ltb, inl, inr, Bool, true, false, some, arith, Bool-cases,
  get_elem?, set, length-set, get_elem?_of_lt, ap, sym, ◌∙◌, ok, Safe, Safe->>=, Memory, ◌==◌,
  get_or,
}
use volt_rec.Base.Int.{pos}
use mathlib.Core.Path.{subst}
use volt_rec.Formats.{rx_msg_len}
use volt_rec.Pool.{in_use, fetch_buffer, Fetch, got, failed, waiting}
use volt_rec.Pool.Handing.{return_empty_held, fetched}
use volt_rec.Worker.State.{FileBuff, Slot, Worker}
use volt_rec.Worker.Packets.{process_packet, process_packets, store_packet}
use volt_rec.Worker.Sending.{
  send_slot, send_full, send_earlier, send_slots, mark_half, is_full, is_earlier, add_missing,
}
use volt_rec.Worker.Round.{begin_recording, sort_packets, process_buffer, worker_round}
use volt_rec.Worker.Copying.{process_packet_cases}
use volt_rec.Worker.Invariant.{Inv, set-cases, send_slot-Inv}

-- The invariant reads the slots, the two counters of the next block and the pool's states.
pub Inv-same :
    {start : ℕ} {w v : Worker}
    → Inv start w
    → v.slots ≡ w.slots
    → v.next_order ≡ w.next_order
    → v.next_packet_no ≡ w.next_packet_no
    → v.file.pool.order_no ≡ w.file.pool.order_no
    → Inv start v
Inv-same {start} {w} {v} inv slots order packet states = record {
  six = rw slots (inv.six);
  next_from_one = rw order (inv.next_from_one);
  next_of_order = rw (packet, order) (inv.next_of_order);
  numbered = rw (slots, order) (inv.numbered);
  owns = rw (slots, states) (inv.owns);
}

pub slot_at :
    {start : ℕ} (w : Worker) (j : ℕ)
    → Inv start w
    → j < 6
    → (s : Slot) × (get_elem? w.slots j ≡ some s)
slot_at w j inv h = get_elem?_of_lt w.slots j (rw (inv.six) h)

send_full-Inv :
    (start left j : ℕ) (w : Worker) (n : ℕ)
    → Inv start w
    → j + left ≡ 6
    → Safe (λ r. Inv start r.0) (send_full left j w n)
unfolding send_full
send_full-Inv start zero j w n inv h = inv
send_full-Inv start (suc left) j w n inv h =
    let (s, at_j) = slot_at w j inv (omega arith) in
    rw (at_j, send_full)
      (elim (Bool-cases (is_full s)) [
        | inl full ↦
            rw (full, send_full)
              (Safe->>= (Inv start) (λ r. Inv start r.0)
                (send_slot j s (record w { last_sent = s.packet_no }))
                (λ w'. send_full left (j + 1) w' n)
                (send_slot-Inv start j s (record w { last_sent = s.packet_no })
                  (Inv-same inv refl refl refl refl) at_j)
                (λ w' inv'. send_full-Inv start left (j + 1) w' n inv' (omega arith)))
        | inr wanting ↦
            rw (wanting, send_full) (send_full-Inv start left (j + 1) w _ inv (omega arith))
      ])

pub mark_half-Inv : (start : ℕ) (w : Worker) (n : ℕ) → Inv start w → Inv start (mark_half w n)
unfolding mark_half
mark_half-Inv start w n inv = elim (Bool-cases (ltb 4 n)) [
  | inl most ↦ rw most (Inv-same inv refl refl refl refl)
  | inr fewer ↦ rw fewer inv
]

send_earlier-Inv :
    (start left j : ℕ) (w : Worker)
    → Inv start w
    → j + left ≡ 6
    → Safe (Inv start) (send_earlier left j w)
unfolding send_earlier
send_earlier-Inv start zero j w inv h = inv
send_earlier-Inv start (suc left) j w inv h =
    let (s, at_j) = slot_at w j inv (omega arith) in
    rw (at_j, send_earlier)
      (elim (Bool-cases (is_earlier w.last_sent s.packet_no)) [
        | inl early ↦
            rw (early, send_earlier)
              (Safe->>= (Inv start) (Inv start)
                (send_slot j s (record w { n_missing = add_missing w.n_missing s.n_to_full }))
                (λ w'. send_earlier left (j + 1) w')
                (send_slot-Inv start j s
                  (record w { n_missing = add_missing w.n_missing s.n_to_full })
                  (Inv-same inv refl refl refl refl) at_j)
                (λ w' inv'. send_earlier-Inv start left (j + 1) w' inv' (omega arith)))
        | inr late ↦
            rw (late, send_earlier) (send_earlier-Inv start left (j + 1) w inv (omega arith))
      ])

pub send_slots-Inv : (start : ℕ) (w : Worker) → Inv start w → Safe (Inv start) (send_slots w)
unfolding send_slots
send_slots-Inv start w inv =
    Safe->>= (λ (r : Worker × ℕ). Inv start r.0) (Inv start) (send_full 6 0 w 0)
      (λ r. send_earlier 6 0 (mark_half r.0 r.1)) (send_full-Inv start 6 0 w 0 inv refl)
      (λ r inv'.
        send_earlier-Inv start 6 0 (mark_half r.0 r.1) (mark_half-Inv start r.0 r.1 inv') refl)

-- A slot is replaced by one with the same buffer and numbers.
recount-Inv :
    (start j : ℕ) (s t : Slot) (w : Worker) (file : FileBuff)
    → Inv start w
    → get_elem? w.slots j ≡ some s
    → t.index ≡ s.index
    → t.order ≡ s.order
    → t.packet_no ≡ s.packet_no
    → file.pool.order_no ≡ w.file.pool.order_no
    → Inv start (record w { file = file; slots = set w.slots j t })
recount-Inv start j s t w file inv at_j index order packet states = record {
  six = length-set w.slots j t ∙ inv.six;
  next_from_one = inv.next_from_one;
  next_of_order = inv.next_of_order;
  numbered = λ k u h.
      let (v, at_k, ei, eo, ep) = old k u h in
      let was = inv.numbered k v at_k in
      record {
        packet_of_order = rw (ep, eo) (was.packet_of_order);
        from_one = rw eo (was.from_one);
        below_next = rw eo (was.below_next);
      };
  owns = rw states (record {
    held = λ k u h. let (v, at_k, ei, _, _) = old k u h in rw ei (inv.owns.held k v at_k);
    apart = λ k l u x hu hx e.
        let (v, at_k, ei, _, _) = old k u hu in
        let (y, at_l, ej, _, _) = old l x hx in inv.owns.apart k l v y at_k at_l (sym ei ∙ e ∙ ej);
  });
}
  where
    old :
        (k : ℕ) (u : Slot)
        → get_elem? (set w.slots j t) k ≡ some u
        → (v : Slot) × (get_elem? w.slots k ≡ some v)
          × (u.index ≡ v.index)
          × (u.order ≡ v.order)
          × (u.packet_no ≡ v.packet_no)
    old k u h = elim (set-cases w.slots j k t h) [
      | inl (ek, eu) ↦ (s, rw (← ek) at_j, rw eu index, rw eu order, rw eu packet)
      | inr (_, at_k) ↦ (u, at_k, refl, refl, refl)
    ]

process_packet-Inv :
    (start : ℕ) (input : Memory) (k : ℕ) (w : Worker)
    → Inv start w
    → Inv start (process_packet input k w)
process_packet-Inv start input k w inv = elim (process_packet_cases input k w) [
  | inl e ↦ rw e inv
  | inr (l, e) ↦
      rw e (unfold store_packet in recount-Inv start l.j l.s _ w _ inv l.at_j refl refl refl refl)
]

pub process_packets-Inv :
    (start : ℕ) (input : Memory) (left k : ℕ) (w : Worker)
    → Inv start w
    → Inv start (process_packets input left k w)
unfolding process_packets
process_packets-Inv start input zero k w inv = inv
process_packets-Inv start input (suc left) k w inv =
    process_packets-Inv start input left (k + 1) (process_packet input k w)
      (process_packet-Inv start input k w inv)

-- The sorting of packets leaves the pool of input buffers and the mark of the first buffer.
pub process_packets-rest :
    (input : Memory) (left k : ℕ) (w : Worker) → ((process_packets input left k w).udp ≡ w.udp)
unfolding process_packets
process_packets-rest input zero k w = refl
process_packets-rest input (suc left) k w =
    process_packets-rest input left (k + 1) (process_packet input k w) ∙ one
  where
    one : (process_packet input k w).udp ≡ w.udp
    one = elim (process_packet_cases input k w) [
      | inl e ↦ rw e refl
      | inr (l, e) ↦ rw e (unfold store_packet in refl)
    ]

pub sort_packets-Inv :
    (start index n : ℕ) (w : Worker)
    → Inv start w
    → get_elem? w.udp.order_no index ≡ some in_use
    → Safe (Inv start) (sort_packets index n w)
unfolding sort_packets
sort_packets-Inv start index n w inv held =
    let input = get_or w.udp.store index (λ _. 0) in
    let sorted = process_packets input n 0 w in
    let same = process_packets-rest input n 0 w in
    rw
      (return_empty_held sorted.udp index
        (subst (λ p. get_elem? p.order_no index ≡ some in_use) (sym same) held))
      (send_slots-Inv start _
        (Inv-same (process_packets-Inv start input n 0 w inv) refl refl refl refl))

-- A claimed buffer without a whole packet is given back.
pub process_buffer-empty :
    (index len : ℕ) (w : Worker)
    → get_elem? w.udp.order_no index ≡ some in_use
    → (len / rx_msg_len == 0) ≡ true
    → process_buffer index len w
      ≡ ok (record w { udp = record (w.udp) { order_no = set w.udp.order_no index (pos 0) } })
unfolding process_buffer
process_buffer-empty index len w held e =
    rw (e, process_buffer) (rw (return_empty_held w.udp index held))

-- Once the slots are numbered, the packets of a buffer are only sorted.
pub process_buffer-sorts :
    (index len : ℕ) (w : Worker)
    → w.first_loop_done ≡ true
    → (len / rx_msg_len == 0) ≡ false
    → process_buffer index len w ≡ sort_packets index (len / rx_msg_len) w
unfolding process_buffer
process_buffer-sorts index len w begun e =
    rw (e, process_buffer)
      (ap (sort_packets index (len / rx_msg_len)) (recording _ (len / rx_msg_len)))
  where
    recording : (input : Memory) (n : ℕ) → begin_recording input n w ≡ w
    recording input n = unfold begin_recording in ground arith

process_buffer-Inv :
    (start index len : ℕ) (w : Worker)
    → Inv start w
    → w.first_loop_done ≡ true
    → get_elem? w.udp.order_no index ≡ some in_use
    → Safe (Inv start) (process_buffer index len w)
process_buffer-Inv start index len w inv begun held = elim (Bool-cases (len / rx_msg_len == 0)) [
  | inl nothing ↦
      rw (process_buffer-empty index len w held nothing) (Inv-same inv refl refl refl refl)
  | inr some_packets ↦
      rw (process_buffer-sorts index len w begun some_packets)
        (sort_packets-Inv start index (len / rx_msg_len) w inv held)
]

-- Once the thread has numbered its slots, every round of its loop, whatever its input buffer
-- holds, keeps the invariant of the slots: six of them, each with the packet number of its order
-- number counted from the start of the recording, each filling a buffer that the pool has marked
-- as in use, and no two the same. No round stops the process or leaves an array; at most it waits
-- for an empty file buffer.
pub worker_round-Inv :
    (keep_going : Bool) (start : ℕ) (w : Worker)
    → Inv start w
    → w.first_loop_done ≡ true
    → Safe (Inv start) (worker_round keep_going w)
worker_round-Inv keep_going start w inv begun = go (fetch_buffer keep_going w.udp) refl
  where
    go :
        (f : Fetch)
        → fetch_buffer keep_going w.udp ≡ f
        → Safe (Inv start) (worker_round keep_going w)
    go (got index order len udp) e =
        unfold worker_round in
        rw (e, worker_round)
          (process_buffer-Inv start index len (record w { udp = udp })
            (Inv-same inv refl refl refl refl) begun
            (fetched keep_going w.udp udp index len order e).0)
    go (failed udp) e =
        unfold worker_round in rw (e, worker_round) (Inv-same inv refl refl refl refl)
    go waiting e = unfold worker_round in rw (e, worker_round) inv
