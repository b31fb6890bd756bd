-- ===== src/Worker/Sending.antt =====
-- full_custom/processing_thread.c: the two passes of worker_work that hand buffers to the thread
-- that writes them, and take empty ones.
use volt_rec.Base.{
  ℕ, zero, suc, ◌+◌, ◌-◌, ◌*◌, ◌/◌, ◌%◌, ◌^◌, Bool, true, false, not, ◌&&◌, ◌||◌, none, some,
  Result, ok, err, ◌>>=◌, blocked, out_of_bounds, ltb, ◌==◌, clear, get_elem?, set, if◌then◌else◌,
}
use volt_rec.Base.Int.{ℤ, pos, negsuc, ltb_ℤ, pos_part, neg_part}
use volt_rec.Formats.{n_file_buffers_at_a_time, time_int_per_buffer, packet_modulus}
use volt_rec.Pool.{Pool, return_buffer, fetch_empty_buffer}
use volt_rec.Worker.State.{Slot, Worker, on_buffer, packets_per_block, data_len_out}

-- The slot with a new empty buffer, the next order number and the next packet number.
abbrev pub renew : Worker → ℕ → Slot
renew w index = record {
  packet_no = w.next_packet_no;
  index = index;
  order = w.next_order;
  n_to_full = pos (packets_per_block w.file);
}

-- The state with the cleared buffer `i` of the pool `p` in slot `j`.
abbrev pub reopened : ℕ → Worker → ℕ → Pool → Worker
reopened j w i p = record w {
  file = record (w.file) { pool = on_buffer p i (λ m. clear m (data_len_out w.file)) };
  slots = set w.slots j (renew w i);
  next_order = w.next_order + 1;
  next_packet_no = (w.next_packet_no + time_int_per_buffer) % packet_modulus;
}

-- An empty buffer is taken from the pool for slot `j`. The C loop tries until a buffer is empty;
-- where none is at once, only another thread can end it.
unfoldable pub reopen_slot : ℕ → Worker → Pool → Result Worker
reopen_slot j w returned = elim (fetch_empty_buffer returned) [
  | none ↦ err blocked
  | some (i, p) ↦ ok (reopened j w i p)
]

-- The slot's buffer is returned filled, and the slot is opened anew.
unfoldable pub send_slot : ℕ → Slot → Worker → Result Worker
unfolding reopen_slot
send_slot j s w =
    return_buffer w.file.pool s.index (pos s.order) (data_len_out w.file) >>= reopen_slot j w

abbrev pub is_full : Slot → Bool
is_full s = elim (s.n_to_full) [ pos n ↦ n == 0 | negsuc n ↦ false ]

abbrev pub is_started : Worker → Slot → Bool
is_started w s = ltb_ℤ s.n_to_full (pos (packets_per_block w.file))

-- The first pass, with `left` rounds to go from slot `j`: full buffers are sent, and those begun
-- are counted.
unfoldable pub send_full : ℕ → ℕ → Worker → ℕ → Result (Worker × ℕ)
send_full zero j w n_started = ok (w, n_started)
send_full (suc left) j w n_started = elim (get_elem? w.slots j) [
  | none ↦ err out_of_bounds
  | some s ↦ elim (is_full s) [
    | true ↦ send_slot j s (record w { last_sent = s.packet_no }) >>= λ w'.
        send_full left (j + 1) w' n_started
    | false ↦ send_full left (j + 1) w (if is_started w s then n_started + 1 else n_started)
  ]
]

-- With all but one slot begun, what counts as sent is half the window behind the next number.
unfoldable pub mark_half : Worker → ℕ → Worker
mark_half w n_started =
    if ltb (n_file_buffers_at_a_time - 2) n_started
    then record w {
      last_sent =
          (w.next_packet_no + 2 ^ 64 - time_int_per_buffer * n_file_buffers_at_a_time / 2)
          % 2 ^ 64
          % packet_modulus;
    }
    else w

-- lastSentPacketNo > N_FILE_BUFFERS_AT_A_TIME/2, read as signed
abbrev pub past_start : ℕ → Bool
past_start last = ltb (n_file_buffers_at_a_time / 2) last && ltb last (2 ^ 63)

-- The test for "earlier" data, with its comparisons in 64 bits without sign; PCKT_NO_MASK is
-- 2^38 - 1.
abbrev pub is_earlier : ℕ → ℕ → Bool
is_earlier last packet_no =
    past_start last && ltb packet_no last
    || not (past_start last)
      && ltb ((packet_modulus - 1) / 2) packet_no
      && ltb packet_no
          ((packet_modulus - 1 + last + 2 ^ 64 - n_file_buffers_at_a_time / 2) % 2 ^ 64)

-- noMissing += nToFull, in 64 bits
abbrev pub add_missing : ℕ → ℤ → ℕ
add_missing n d = (n + pos_part d + 2 ^ 64 - neg_part d % 2 ^ 64) % 2 ^ 64

-- The second pass, with `left` rounds to go from slot `j`.
unfoldable pub send_earlier : ℕ → ℕ → Worker → Result Worker
send_earlier zero j w = ok w
send_earlier (suc left) j w = elim (get_elem? w.slots j) [
  | none ↦ err out_of_bounds
  | some s ↦ elim (is_earlier w.last_sent s.packet_no) [
    | true ↦ send_slot j s (record w { n_missing = add_missing w.n_missing s.n_to_full }) >>= λ w'.
        send_earlier left (j + 1) w'
    | false ↦ send_earlier left (j + 1) w
  ]
]

-- Everything after the packets of a buffer are copied.
unfoldable pub send_slots : Worker → Result Worker
unfolding send_full mark_half send_earlier send_slot
send_slots w = do
  (w', n_started) ← send_full n_file_buffers_at_a_time 0 w 0
  send_earlier n_file_buffers_at_a_time 0 (mark_half w' n_started)
