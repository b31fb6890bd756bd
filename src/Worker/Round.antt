-- ===== src/Worker/Round.antt =====
-- full_custom/processing_thread.c: the body of the loop of worker_work, and what follows the loop.
use volt_rec.Base.{
  ℕ, ◌/◌, Bool, true, false, List, [], ◌∷◌, Result, ok, ◌>>=◌, ◌==◌, get_or, if◌then◌else◌, Memory,
}
use volt_rec.Formats.{rx_msg_len}
use volt_rec.Pool.{Pool, fetch_buffer, got, failed, waiting, return_empty_buffer}
use volt_rec.Worker.State.{Slot, Worker}
use volt_rec.Worker.Packets.{first_loop, process_packets}
use volt_rec.Worker.Sending.{send_slots}

-- Before its first packets the thread numbers its slots by them.
unfoldable pub begin_recording : Memory → ℕ → Worker → Worker
begin_recording input n_of_packets w =
    if w.first_loop_done then w else first_loop input n_of_packets w

-- The packets of the claimed buffer `index` are sorted, the buffer is given back, and slots are
-- sent.
unfoldable pub sort_packets : ℕ → ℕ → Worker → Result Worker
sort_packets index n_of_packets w =
    let sorted = process_packets (get_or w.udp.store index (λ _. 0)) n_of_packets 0 w in
    return_empty_buffer sorted.udp index >>= λ p. send_slots (record sorted { udp = p })

-- The claimed buffer `index` with `len` bytes.
unfoldable pub process_buffer : ℕ → ℕ → Worker → Result Worker
unfolding begin_recording sort_packets
process_buffer index len w = elim (len / rx_msg_len == 0) [
  | true ↦ return_empty_buffer w.udp index >>= λ p. ok (record w { udp = p })
  | false ↦
      sort_packets index (len / rx_msg_len)
        (begin_recording (get_or w.udp.store index (λ _. 0)) (len / rx_msg_len) w)
]

-- One round of the loop. Where no input buffer comes, the thread sleeps and goes on.
unfoldable pub worker_round : Bool → Worker → Result Worker
unfolding process_buffer
worker_round keep_going w = elim (fetch_buffer keep_going w.udp) [
  | got index order len udp ↦ process_buffer index len (record w { udp = udp })
  | failed udp ↦ ok (record w { udp = udp })
  | waiting ↦ ok w
]

-- After the loop the buffers that were being filled are given back empty.
unfoldable pub release_slots : List Slot → Pool → Result Pool
release_slots [] p = ok p
release_slots (s ∷ slots) p = return_empty_buffer p s.index >>= λ p'. release_slots slots p'
