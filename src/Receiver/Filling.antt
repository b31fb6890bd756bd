-- ===== src/Receiver/Filling.antt =====
-- A buffer that is filled by datagrams of the right size.
use volt_rec.Base.{
  ℕ, zero, suc, ◌+◌, ◌*◌, ◌<◌, ◌≡◌, refl, inl, true, some, arith, set, length, get_or,
  get_or-set_self, ap, ◌∙◌, ok, Memory, copy, copy_inside, copy_outside, length-set, ◌%◌, ◌^◌,
}
use volt_rec.Base.Int.{pos}
use mathlib.Core.Path.{ap₂}
use volt_rec.Formats.{rx_msg_len, n_reads_default}
use volt_rec.Pool.{Pool, fetch_empty_buffer}
use volt_rec.Pool.Handing.{return_held, fetch_empty-held}
use volt_rec.Worker.State.{on_buffer}
use volt_rec.Receiver.{Recv, datagram, receive, Receiver, recv_round}

-- One call that returns a datagram of the right size.
pub receive_step :
    (net : ℕ → Recv) (order i left k : ℕ) (p : Pool) (size : ℕ) (bytes : Memory)
    → net k ≡ datagram bytes rx_msg_len
    → receive net order i (suc left) k p size
      ≡ receive net order i left
          (k + 1)
          (on_buffer p i (λ m. copy m size bytes 0 rx_msg_len))
          (size + rx_msg_len)
unfolding receive
receive_step net order i left k p size bytes h = rw (h, receive) (ground arith)

-- The pool `q` is `p` with the messages `k` to `k + left - 1` in buffer `i` behind its first
-- `size` bytes.
pub record Received (bytes : ℕ → Memory) (i k left size : ℕ) (p q : Pool) : Type 0 where
  pub states : q.order_no ≡ p.order_no
  pub lens : q.data_len ≡ p.data_len
  pub ready : q.n_ready ≡ p.n_ready
  pub store_len : length q.store ≡ length p.store
  pub before : (x : ℕ) → x < size → get_or q.store i (λ _. 0) x ≡ get_or p.store i (λ _. 0) x
  pub messages :
      (j b : ℕ)
      → j < left
      → b < rx_msg_len
      → get_or q.store i (λ _. 0) (size + j * rx_msg_len + b) ≡ bytes (k + j) b

receive_all :
    (net : ℕ → Recv) (bytes : ℕ → Memory) (order i left k : ℕ) (p : Pool) (size : ℕ)
    → ((j : ℕ) → j < k + left → net j ≡ datagram (bytes j) rx_msg_len)
    → i < length p.store
    → (q : Pool) × (receive net order i left k p size
        ≡ ok (record { pool = q; size = size + left * rx_msg_len; keep_going = true }))
      × Received bytes i k left size p q
receive_all net bytes order i zero k p size h inside = (
  p,
  unfold receive in
      ap (λ (n : ℕ). ok (record { pool = p; size = n; keep_going = true })) (omega arith),
  record {
    states = refl;
    lens = refl;
    ready = refl;
    store_len = refl;
    before = λ x lt. refl;
    messages = λ j b lt _. absurd (omega arith);
  },
)
receive_all net bytes order i (suc left) k p size h inside =
    let step = on_buffer p i (λ m. copy m size (bytes k) 0 rx_msg_len) in
    let (q, e, r) =
      receive_all net bytes order i left (k + 1) step (size + rx_msg_len)
        (λ j lt. h j (omega arith)) (rw (length-set p.store i _) inside) in
    (
      q,
      receive_step net order i left k p size (bytes k) (h k (omega arith))
          ∙ e
          ∙ ap (λ (n : ℕ). ok (record { pool = q; size = n; keep_going = true })) (omega arith),
      record {
        states = r.states;
        lens = r.lens;
        ready = r.ready;
        store_len = r.store_len ∙ length-set p.store i _;
        before = λ x lt.
            r.before x (omega arith)
            ∙ at_step x
            ∙ copy_outside (get_or p.store i (λ _. 0)) size (bytes k) 0 rx_msg_len x (inl lt);
        messages = go q r;
      },
    )
  where
    at_step :
        (x : ℕ)
        → get_or
            (set p.store i (copy (get_or p.store i (λ _. 0)) size (bytes k) 0 rx_msg_len))
            i
            (λ _. 0)
            x
          ≡ copy (get_or p.store i (λ _. 0)) size (bytes k) 0 rx_msg_len x
    at_step x = ap (λ (m : Memory). m x) (get_or-set_self p.store i _ (λ _. 0) inside)

    go :
        (q : Pool)
        → Received bytes i
            (k + 1)
            left
            (size + rx_msg_len)
            (on_buffer p i (λ m. copy m size (bytes k) 0 rx_msg_len))
            q
        → (j b : ℕ) → j < suc left
        → b < rx_msg_len
        → get_or q.store i (λ _. 0) (size + j * rx_msg_len + b) ≡ bytes (k + j) b
    go q r zero b lt lb =
        ap (get_or q.store i (λ _. 0)) (omega arith)
        ∙ r.before (size + b) (omega arith)
        ∙ at_step (size + b)
        ∙ copy_inside (get_or p.store i (λ _. 0)) size (bytes k) 0 rx_msg_len b lb
        ∙ ap₂ (λ (n x : ℕ). bytes n x) (omega arith) (omega arith)
    go q r (suc j) b lt lb =
        ap (get_or q.store i (λ _. 0)) (omega arith)
        ∙ r.messages j b (omega arith) lb
        ∙ ap (λ (n : ℕ). bytes n b) (omega arith)

-- When an empty buffer is there and the next 160 calls each return a datagram of 8200 bytes, the
-- round succeeds: the first empty buffer holds the 160 messages one behind the other, its length
-- is 160 * 8200 and its state the order number of the round, the ready count is one more, and the
-- thread goes on with the next order number.
pub recv_round_filled :
    (net : ℕ → Recv) (bytes : ℕ → Memory) (r : Receiver) (i : ℕ) (p : Pool)
    → fetch_empty_buffer r.pool ≡ some (i, p)
    → i < length p.store
    → i < length p.data_len
    → ((j : ℕ) → j < n_reads_default → net j ≡ datagram (bytes j) rx_msg_len)
    → (r' : Receiver) × (recv_round net r ≡ ok r')
      × (r'.order ≡ r.order + 1)
      × (r'.keep_going ≡ true)
      × (r'.pool.order_no ≡ set p.order_no i (pos r.order))
      × (get_or r'.pool.data_len i 0 ≡ n_reads_default * rx_msg_len)
      × (r'.pool.n_ready ≡ (p.n_ready + 1) % 2 ^ 64)
      × ((j b : ℕ)
          → j < n_reads_default
          → b < rx_msg_len
          → get_or r'.pool.store i (λ _. 0) (j * rx_msg_len + b) ≡ bytes j b)
recv_round_filled net bytes r i p fetched inside inside_len all =
    let (q, e, rec) = receive_all net bytes r.order i n_reads_default 0 p 0 all inside in
    (
      record {
        pool = record q {
          order_no = set q.order_no i (pos r.order);
          data_len = set q.data_len i (n_reads_default * rx_msg_len);
          n_ready = (q.n_ready + 1) % 2 ^ 64;
        };
        order = r.order + 1;
        keep_going = true;
      },
      unfold recv_round in
          rw (fetched, recv_round)
            (rw e (
              rw
                (return_held q i (pos r.order) (n_reads_default * rx_msg_len)
                  (rw (rec.states) (fetch_empty-held r.pool i fetched)))
                refl)),
      refl,
      refl,
      rw (rec.states) refl,
      rw (rec.lens) (get_or-set_self p.data_len i _ 0 inside_len),
      rw (rec.ready) refl,
      λ j b lt lb.
          ap (get_or q.store i (λ _. 0)) (omega arith)
          ∙ rec.messages j b lt lb
          ∙ ap (λ (n : ℕ). bytes n b) (omega arith),
    )
