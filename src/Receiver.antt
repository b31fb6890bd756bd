-- ===== src/Receiver.antt =====
-- full_custom/udp_thread.c: the thread that receives datagrams into input buffers. The socket is
-- the function from the number of a call of recvfrom, within one buffer, to what the call returns.
pub mod Filling
pub mod Closing
use volt_rec.Base.{
  ℕ, zero, suc, ◌+◌, ◌*◌, Bool, true, false, not, ◌&&◌, Option, none, some, Result, ok, err, ◌>>=◌,
  io, Memory, copy, ltb, ◌==◌, if◌then◌else◌,
}
use volt_rec.Base.Int.{pos}
use volt_rec.Formats.{rx_msg_len, n_reads_default, udp_buffer_size}
use volt_rec.Pool.{Pool, fetch_empty_buffer, return_buffer}
use volt_rec.Worker.State.{on_buffer}

-- A datagram of `len` bytes, `len` positive; the result 0; a negative result.
pub data Recv : Type 0 where
  datagram : (bytes : Memory) (len : ℕ) → Recv
  closed : Recv
  broken : Recv

-- What the loop of recvfrom leaves: the pool, dataSize, and the flag keep_going.
pub record Filled : Type 0 where
  pub pool : Pool
  pub size : ℕ
  pub keep_going : Bool

-- The loop of udp_recv_work over N_READS_DEFAULT calls for buffer `i`, from call `k` with `left`
-- calls to go. The size of the very first datagram is not tested. After `kill(0,SIGINT)` the
-- handler of the recorder clears keep_going.
unfoldable pub receive : (ℕ → Recv) → ℕ → ℕ → ℕ → ℕ → Pool → ℕ → Result Filled
receive net order i zero k p size = ok (record { pool = p; size = size; keep_going = true })
receive net order i (suc left) k p size = elim (net k) [
  | datagram bytes len ↦
      let first = order == 1 && k == 0 in
      elim (first && ltb udp_buffer_size (rx_msg_len * n_reads_default)) [
        | true ↦ err io
        | false ↦ elim (not first && not (len == rx_msg_len)) [
          | true ↦ ok (record { pool = p; size = size; keep_going = false })
          | false ↦
              receive net order i left (k + 1) (on_buffer p i (λ m. copy m size bytes 0 len))
                (size + len)
        ]
      ]
  | closed ↦ return_buffer p i (pos order) size >>= λ q.
      ok (record { pool = q; size = size; keep_going = false })
  | broken ↦ ok (record { pool = p; size = size; keep_going = false })
]

-- The variables of udp_recv_work that live from one round to the next.
pub record Receiver : Type 0 where
  pub pool : Pool
  pub order : ℕ
  pub keep_going : Bool

-- One round of the outer loop. Without an empty buffer the thread sleeps and tries again.
unfoldable pub recv_round : (ℕ → Recv) → Receiver → Result Receiver
unfolding receive
recv_round net r = elim (fetch_empty_buffer r.pool) [
  | none ↦ ok r
  | some (i, p) ↦ receive net r.order i n_reads_default 0 p 0 >>= λ f.
      return_buffer f.pool i (pos r.order) f.size >>= λ q.
      ok (record { pool = q; order = r.order + 1; keep_going = f.keep_going })
]
