-- ===== src/Receiver/Closing.antt =====
-- A receive of length 0.
use volt_rec.Base.{
  ℕ, zero, suc, ◌+◌, ◌<◌, ◌≡◌, refl, some, arith, get_elem?, ap, ◌∙◌, ok, err, false, integrity,
  Memory, copy, ◌%◌, ◌^◌, get_elem?-set_self, get_elem?-lt, set,
}
use volt_rec.Base.Int.{pos}
use volt_rec.Formats.{rx_msg_len, n_reads_default}
use volt_rec.Pool.{Pool, in_use, fetch_empty_buffer}
use volt_rec.Pool.Handing.{return_held, return_twice, fetch_empty-held}
use volt_rec.Worker.State.{on_buffer}
use volt_rec.Receiver.{Recv, datagram, closed, receive, Receiver, recv_round}
use volt_rec.Receiver.Filling.{receive_step}

-- The loop returns the buffer at a call of length 0, and its state is then the order number.
receive_closed :
    (net : ℕ → Recv) (bytes : ℕ → Memory) (order i n left k : ℕ) (p : Pool) (size : ℕ)
    → ((j : ℕ) → j < k + n → net j ≡ datagram (bytes j) rx_msg_len)
    → net (k + n) ≡ closed
    → n < left
    → get_elem? p.order_no i ≡ some in_use
    → (q : Pool) × (len : ℕ) × (receive net order i left k p size
        ≡ ok (record { pool = q; size = len; keep_going = false }))
      × (get_elem? q.order_no i ≡ some (pos order))
receive_closed net bytes order i n zero k p size h c lt held = absurd (omega arith)
receive_closed net bytes order i zero (suc left) k p size h c lt held =
    let here : net k ≡ closed = ap net (omega arith) ∙ c in
    (
      record p {
        order_no = set p.order_no i (pos order);
        data_len = set p.data_len i size;
        n_ready = (p.n_ready + 1) % 2 ^ 64;
      },
      size,
      unfold receive in rw (here, receive) (rw (return_held p i (pos order) size held) refl),
      get_elem?-set_self p.order_no i (pos order) (get_elem?-lt p.order_no i held),
    )
receive_closed net bytes order i (suc n) (suc left) k p size h c lt held =
    let (q, len, e, now) =
      receive_closed net bytes order i n left (k + 1)
        (on_buffer p i (λ m. copy m size (bytes k) 0 rx_msg_len)) (size + rx_msg_len)
        (λ j below. h j (omega arith)) (ap net (omega arith) ∙ c) (omega arith) held in
    (q, len, receive_step net order i left k p size (bytes k) (h k (omega arith)) ∙ e, now)

-- When an empty buffer is there and a call of recvfrom within its 160 calls returns 0, after
-- calls that each returned a whole packet, the thread returns its buffer twice: the second time
-- it is not in use any more, and the process stops with "data integrity!". No other thread acts
-- between the two returns.
pub recv_round_closed :
    (net : ℕ → Recv) (bytes : ℕ → Memory) (r : Receiver) (i n : ℕ) (p : Pool)
    → fetch_empty_buffer r.pool ≡ some (i, p)
    → n < n_reads_default
    → ((j : ℕ) → j < n → net j ≡ datagram (bytes j) rx_msg_len)
    → net n ≡ closed
    → recv_round net r ≡ err integrity
recv_round_closed net bytes r i n p fetched few all c =
    let (q, len, e, now) =
      receive_closed net bytes r.order i n n_reads_default 0 p 0 (λ j lt. all j (omega arith))
        (ap net (omega arith) ∙ c) few (fetch_empty-held r.pool i fetched) in
    unfold recv_round in
    rw (fetched, recv_round) (rw e (rw (return_twice q i r.order (pos r.order) len now) refl))
