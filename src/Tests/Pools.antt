-- ===== src/Tests/Pools.antt =====
-- full_custom/common.c, udp_thread.c and recorder.c at concrete inputs: a pool of two buffers.
use volt_rec.Base.{
  ℕ, suc, ◌+◌, ◌-◌, ◌*◌, ◌%◌, ◌^◌, ◌<◌, ◌≡◌, refl, some, List, [], ◌∷◌, arith, Memory, ok, err,
  integrity, true, false, get_or, set,
}
use volt_rec.Base.Int.{ℤ, pos}
use volt_rec.Formats.{n_reads_default, rx_msg_len}
use volt_rec.Pool.{
  Pool, in_use, find_empty, init_udp_buff, fetch_empty_buffer, return_buffer, ready_round,
  claim_lowest,
}
use volt_rec.Pool.Inv.{IsValid}
use volt_rec.Pool.Scan.{IsLowest}
use volt_rec.Pool.Sharing.{
  Shared, Reach, fetch_empty, give_back, take_credit, start, next, Reach-IsValid, claim_succeeds,
}
use volt_rec.Receiver.{datagram, closed, Receiver, recv_round}
use volt_rec.Receiver.Filling.{recv_round_filled}
use volt_rec.Receiver.Closing.{recv_round_closed}
use volt_rec.Worker.State.{bad_config}
use volt_rec.Recorder.{parse_arguments}
use volt_rec.Recorder.Arguments.{file_buff_of, parse_arguments-accepted}

abbrev blank : Memory
blank i = 0

-- The fresh pool, the pool after a thread has taken the buffer 0, and after it has returned it
-- filled with order number 1, and after another thread has taken a credit.
abbrev pool_of : ℤ → ℕ → ℕ → Pool
pool_of order len ready = record {
  store = blank ∷ blank ∷ [];
  data_len = len ∷ 0 ∷ [];
  order_no = order ∷ pos 0 ∷ [];
  n_ready = ready;
  no_buffers = 2;
}

abbrev after_credit : Shared
after_credit = record { pool = pool_of (pos 1) 9 0; credits = 1 }

reached : Reach blank 0 2 after_credit
unfolding init_udp_buff fetch_empty_buffer return_buffer ready_round find_empty
reached =
    next
      (next
        (next (start {p = pool_of (pos 0) 0 0} refl) (fetch_empty {p = pool_of in_use 0 0} 0 refl))
        (give_back {p = pool_of (pos 1) 9 1} 0 0 9 (omega arith) refl))
      (take_credit {p = pool_of (pos 1) 9 0} true refl)

Reach_example : IsValid (pool_of (pos 1) 9 0) 1
Reach_example = Reach-IsValid (omega arith) reached

claim_example :
    (i : ℕ) × (order : ℕ) × IsLowest (pos 1 ∷ pos 0 ∷ []) i order
    × (claim_lowest (pool_of (pos 1) 9 0)
        ≡ some (
          i,
          pos (suc order),
          get_or (9 ∷ 0 ∷ []) i 0,
          record (pool_of (pos 1) 9 0) { order_no = set (pos 1 ∷ pos 0 ∷ []) i in_use },
        ))
claim_example = claim_succeeds {c = 0} (omega arith) reached refl

abbrev receiver : Receiver
receiver = record { pool = pool_of (pos 0) 0 0; order = 1; keep_going = true }

-- Every byte of the datagram `j` is `j`.
recv_round_filled_example :
    (r' : Receiver) × (recv_round (λ j. datagram (λ b. j) rx_msg_len) receiver ≡ ok r')
    × (r'.order ≡ 1 + 1)
    × (r'.keep_going ≡ true)
    × (r'.pool.order_no ≡ set (in_use ∷ pos 0 ∷ []) 0 (pos 1))
    × (get_or r'.pool.data_len 0 0 ≡ n_reads_default * rx_msg_len)
    × (r'.pool.n_ready ≡ (0 + 1) % 2 ^ 64)
    × ((j b : ℕ)
        → j < n_reads_default
        → b < rx_msg_len
        → get_or r'.pool.store 0 (λ _. 0) (j * rx_msg_len + b) ≡ j)
unfolding fetch_empty_buffer find_empty
recv_round_filled_example =
    recv_round_filled (λ j. datagram (λ b. j) rx_msg_len) (λ j b. j) receiver 0 (pool_of in_use 0 0)
      refl (omega arith) (omega arith) (λ j lt. refl)

recv_round_closed_example : recv_round (λ j. closed) receiver ≡ err integrity
unfolding fetch_empty_buffer find_empty
recv_round_closed_example =
    recv_round_closed (λ j. closed) (λ j b. 0) receiver 0 0 (pool_of in_use 0 0) refl (omega arith)
      (λ j lt. absurd (omega arith)) refl

-- An atoi for strings of one digit.
abbrev digit : List ℕ → ℤ
digit [] = pos 0
digit (c ∷ cs) = pos (c - 48)

parse_arguments_example :
    bad_config (
      file_buff_of
        (record {
          n_ants = 3;
          n_chans = 8;
          first_chan = 0;
          file_part = some (100 ∷ []);
          port = pos 7;
        })
        []
        0
        (pool_of (pos 0) 0 0))
    ≡ false
unfolding parse_arguments
parse_arguments_example =
    parse_arguments-accepted digit ((97 ∷ []) ∷ (55 ∷ []) ∷ (100 ∷ []) ∷ (51 ∷ []) ∷ (56 ∷ []) ∷ [])
      [] 0 (pool_of (pos 0) 0 0) refl
