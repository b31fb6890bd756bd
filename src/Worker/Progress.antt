-- ===== src/Worker/Progress.antt =====
-- full_custom/processing_thread.c: with enough empty file buffers no step of the sorting thread waits.
use volt_rec.Base.{
  ℕ, zero, suc, ◌+◌, ◌/◌, ◌≤◌, ◌≡◌, refl, ltb, inl, inr, Bool, true, some, arith, Bool-cases,
  get_elem?, set, sym, ◌∙◌, ok, Returns, Returns->>=, Returns-and, Memory, ◌==◌, get_or,
}
use volt_rec.Base.Int.{pos}
use mathlib.Core.Path.{subst}
use volt_rec.Formats.{rx_msg_len}
use volt_rec.Pool.{Pool, in_use, fetch_buffer, Fetch, got, failed, waiting}
use volt_rec.Pool.Handing.{return_held, return_empty_held, fetched}
use volt_rec.Worker.State.{Slot, Worker, data_len_out}
use volt_rec.Worker.Packets.{process_packet, process_packets, store_packet}
use volt_rec.Worker.Sending.{
  reopen_slot, reopened, send_slot, send_full, send_earlier, send_slots, mark_half, is_full,
  is_earlier, add_missing,
}
use volt_rec.Worker.Round.{sort_packets, process_buffer, worker_round}
use volt_rec.Worker.Copying.{process_packet_cases}
use volt_rec.Worker.Invariant.{Inv, send_slot-Inv}
use volt_rec.Worker.Steps.{
  Inv-same, slot_at, mark_half-Inv, process_packets-Inv, process_packets-rest, process_buffer-empty,
  process_buffer-sorts,
}
use volt_rec.Worker.Room.{
  count_empty, room, fetch_empty-some, count_empty-set_filled, count_empty-set_taken,
}

-- An empty buffer serves the slot: one is left less.
abbrev KeepsRoom : ℕ → Worker → Type 0
KeepsRoom m w = m ≤ room w

reopen_slot-Returns :
    (j : ℕ) (w : Worker) (p : Pool) (m : ℕ)
    → suc m ≤ count_empty p.order_no
    → Returns (KeepsRoom m) (reopen_slot j w p)
reopen_slot-Returns j w p m h =
    let (i, e, here) = fetch_empty-some p (omega arith) in
    let one_less = count_empty-set_taken p.order_no i here in
    let opens : reopen_slot j w p
        ≡ ok (reopened j w i (record p { order_no = set p.order_no i in_use })) =
      unfold reopen_slot in rw (e, reopen_slot) in
    rw opens (omega arith)

send_slot-Returns :
    (start j : ℕ) (s : Slot) (w : Worker) (m : ℕ)
    → Inv start w
    → get_elem? w.slots j ≡ some s
    → suc m ≤ room w
    → Returns (λ v. Inv start v × KeepsRoom m v) (send_slot j s w)
send_slot-Returns start j s w m inv at_j h =
    Returns-and (Inv start) (KeepsRoom m) (send_slot j s w) (send_slot-Inv start j s w inv at_j) (
      unfold send_slot in
      rw (return_held w.file.pool s.index (pos s.order) (data_len_out w.file) held)
        (reopen_slot-Returns j w _ m (rw (filled s.order from_one) h)))
  where
    held : get_elem? w.file.pool.order_no s.index ≡ some in_use
    held = inv.owns.held j s at_j

    from_one : 1 ≤ s.order
    from_one = let n = inv.numbered j s at_j in n.from_one

    filled :
        (order : ℕ)
        → 1 ≤ order
        → count_empty (set w.file.pool.order_no s.index (pos order)) ≡ room w
    filled zero h = absurd (omega arith)
    filled (suc n) h = count_empty-set_filled w.file.pool.order_no s.index n held

send_full-Returns :
    (start left j : ℕ) (w : Worker) (n m : ℕ)
    → Inv start w
    → j + left ≡ 6
    → left + m ≤ room w
    → Returns (λ (r : Worker × ℕ). Inv start r.0 × KeepsRoom m r.0) (send_full left j w n)
unfolding send_full
send_full-Returns start zero j w n m inv h l = (inv, omega arith)
send_full-Returns start (suc left) j w n m inv h l =
    let (s, at_j) = slot_at w j inv (omega arith) in
    let marked = record w { last_sent = s.packet_no } in
    rw (at_j, send_full)
      (elim (Bool-cases (is_full s)) [
        | inl full ↦
            rw (full, send_full)
              (Returns->>= (λ v. Inv start v × KeepsRoom (left + m) v)
                (λ (r : Worker × ℕ). Inv start r.0 × KeepsRoom m r.0) (send_slot j s marked)
                (λ w'. send_full left (j + 1) w' n)
                (send_slot-Returns start j s marked (left + m) (Inv-same inv refl refl refl refl)
                  at_j (omega arith))
                (λ w' (inv', l').
                  send_full-Returns start left (j + 1) w' n m inv' (omega arith) l'))
        | inr wanting ↦
            rw (wanting, send_full)
              (send_full-Returns start left (j + 1) w _ m inv (omega arith) (omega arith))
      ])

send_earlier-Returns :
    (start left j : ℕ) (w : Worker)
    → Inv start w
    → j + left ≡ 6
    → left ≤ room w
    → Returns (Inv start) (send_earlier left j w)
unfolding send_earlier
send_earlier-Returns start zero j w inv h l = inv
send_earlier-Returns start (suc left) j w inv h l =
    let (s, at_j) = slot_at w j inv (omega arith) in
    let counted = record w { n_missing = add_missing w.n_missing s.n_to_full } in
    rw (at_j, send_earlier)
      (elim (Bool-cases (is_earlier w.last_sent s.packet_no)) [
        | inl early ↦
            rw (early, send_earlier)
              (Returns->>= (λ v. Inv start v × KeepsRoom left v) (Inv start) (send_slot j s counted)
                (λ w'. send_earlier left (j + 1) w')
                (send_slot-Returns start j s counted left (Inv-same inv refl refl refl refl) at_j
                  (omega arith))
                (λ w' (inv', l'). send_earlier-Returns start left (j + 1) w' inv' (omega arith) l'))
        | inr late ↦
            rw (late, send_earlier)
              (send_earlier-Returns start left (j + 1) w inv (omega arith) (omega arith))
      ])

mark_half-room : (w : Worker) (n : ℕ) → room (mark_half w n) ≡ room w
unfolding mark_half
mark_half-room w n = elim (Bool-cases (ltb 4 n)) [ inl most ↦ rw most | inr fewer ↦ rw fewer ]

send_slots-Returns :
    (start : ℕ) (w : Worker) → Inv start w → 12 ≤ room w → Returns (Inv start) (send_slots w)
unfolding send_slots
send_slots-Returns start w inv h =
    Returns->>= (λ (r : Worker × ℕ). Inv start r.0 × KeepsRoom 6 r.0) (Inv start)
      (send_full 6 0 w 0) (λ r. send_earlier 6 0 (mark_half r.0 r.1))
      (send_full-Returns start 6 0 w 0 6 inv refl h)
      (λ r (inv', l).
        send_earlier-Returns start 6 0 (mark_half r.0 r.1) (mark_half-Inv start r.0 r.1 inv') refl
          (omega (arith, mark_half-room r.0 r.1)))

-- The sorting of packets leaves the states of the file buffers.
process_packets-room :
    (input : Memory) (left k : ℕ) (w : Worker) → room (process_packets input left k w) ≡ room w
unfolding process_packets
process_packets-room input zero k w = refl
process_packets-room input (suc left) k w =
    process_packets-room input left (k + 1) (process_packet input k w) ∙ one
  where
    one : room (process_packet input k w) ≡ room w
    one = elim (process_packet_cases input k w) [
      | inl e ↦ rw e refl
      | inr (l, e) ↦ rw e (unfold store_packet in refl)
    ]

sort_packets-Returns :
    (start index n : ℕ) (w : Worker)
    → Inv start w
    → get_elem? w.udp.order_no index ≡ some in_use
    → 12 ≤ room w
    → Returns (Inv start) (sort_packets index n w)
unfolding sort_packets
sort_packets-Returns start index n w inv held h =
    let input = get_or w.udp.store index (λ _. 0) in
    let sorted = process_packets input n 0 w in
    let same = process_packets-rest input n 0 w in
    rw
      (return_empty_held sorted.udp index
        (subst (λ p. get_elem? p.order_no index ≡ some in_use) (sym same) held))
      (send_slots-Returns start _
        (Inv-same (process_packets-Inv start input n 0 w inv) refl refl refl refl)
        (omega (arith, process_packets-room input n 0 w)))

process_buffer-Returns :
    (start index len : ℕ) (w : Worker)
    → Inv start w
    → w.first_loop_done ≡ true
    → get_elem? w.udp.order_no index ≡ some in_use
    → 12 ≤ room w
    → Returns (Inv start) (process_buffer index len w)
process_buffer-Returns start index len w inv begun held h =
    elim (Bool-cases (len / rx_msg_len == 0)) [
      | inl nothing ↦
          rw (process_buffer-empty index len w held nothing) (Inv-same inv refl refl refl refl)
      | inr some_packets ↦
          rw (process_buffer-sorts index len w begun some_packets)
            (sort_packets-Returns start index (len / rx_msg_len) w inv held h)
    ]

-- Where at least 12 file buffers are empty, a round of the sorting thread whose slots are numbered
-- does not wait for one: it returns, whatever its input buffer holds, and keeps the invariant of
-- the slots.
pub worker_round-Returns :
    (keep_going : Bool) (start : ℕ) (w : Worker)
    → Inv start w
    → w.first_loop_done ≡ true
    → 12 ≤ count_empty w.file.pool.order_no
    → Returns (Inv start) (worker_round keep_going w)
worker_round-Returns keep_going start w inv begun h = go (fetch_buffer keep_going w.udp) refl
  where
    go :
        (f : Fetch)
        → fetch_buffer keep_going w.udp ≡ f
        → Returns (Inv start) (worker_round keep_going w)
    go (got index order len udp) e =
        unfold worker_round in
        rw (e, worker_round)
          (process_buffer-Returns start index len (record w { udp = udp })
            (Inv-same inv refl refl refl refl) begun
            (fetched keep_going w.udp udp index len order e).0 h)
    go (failed udp) e =
        unfold worker_round in rw (e, worker_round) (Inv-same inv refl refl refl refl)
    go waiting e = unfold worker_round in rw (e, worker_round) inv
