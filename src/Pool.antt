-- ===== src/Pool.antt =====
-- full_custom/common.c: the pool of buffers that two threads share (udpBuffStruct) and its
-- operations. A buffer is named by its index: the pointer that the C functions hand out beside the
-- index is `data[index]`. The state of a buffer is its order number: 0 is empty, -1 is in use by a
-- thread, and a positive number is a filled buffer with its place in the sequence.
-- The calls of pthread_mutex_lock and pthread_mutex_unlock succeed; what stands between them is
-- one step.
pub mod Scan
pub mod Inv
pub mod Sharing
pub mod Handing
use volt_rec.Base.{
  ℕ, ◌+◌, ◌-◌, ◌%◌, ◌^◌, Bool, true, false, ◌&&◌, Option, none, some, List, [], ◌∷◌, Memory, Result,
  ok, err, Fault, integrity, io, out_of_bounds, ltb, ◌==◌, if◌then◌else◌, get_elem?, set, replicate,
  get_or,
}
use volt_rec.Base.Int.{ℤ, pos, negsuc, ltb_ℤ}

-- `__udpBuffStruct`, without its two mutexes.
pub record Pool : Type 0 where
  pub store : List Memory
  pub data_len : List ℕ
  pub order_no : List ℤ
  pub n_ready : ℕ
  pub no_buffers : ℕ

abbrev pub in_use : ℤ
in_use = negsuc 0

-- INT_MAX
abbrev pub int_max : ℕ
int_max = 2 ^ 31 - 1

-- `raw` is what malloc leaves in a buffer and in its length; `allocated` is false where a malloc
-- fails.
unfoldable pub init_udp_buff : Bool → Memory → ℕ → ℕ → Result Pool
init_udp_buff allocated raw raw_len number_of_buffers =
    if allocated
    then ok (record {
      store = replicate number_of_buffers raw;
      data_len = replicate number_of_buffers raw_len;
      order_no = replicate number_of_buffers (pos 0);
      n_ready = 0;
      no_buffers = number_of_buffers;
    })
    else err io

abbrev pub is_empty : ℤ → Bool
is_empty (pos n) = n == 0
is_empty (negsuc n) = false

abbrev pub is_in_use : ℤ → Bool
is_in_use (pos n) = false
is_in_use (negsuc n) = n == 0

-- The loop of findEmpty from index `k` on; `none` is the return value -1.
unfoldable pub empty_from : List ℤ → ℕ → Option ℕ
empty_from [] k = none
empty_from (o ∷ os) k = let rest = empty_from os (k + 1) in if is_empty o then some k else rest

unfoldable pub find_empty : List ℤ → Option ℕ
unfolding empty_from
find_empty orders = empty_from orders 0

-- The loop of findLowest from index `k` on, with its variables lowVal and retVal.
unfoldable pub lowest_from : List ℤ → ℕ → ℤ → Option ℕ → Option ℕ
lowest_from [] k low_val ret_val = ret_val
lowest_from (o ∷ os) k low_val ret_val =
    let smaller = ltb_ℤ o low_val && ltb_ℤ (pos 0) o in
    lowest_from os (k + 1) (if smaller then o else low_val) (if smaller then some k else ret_val)

unfoldable pub find_lowest : List ℤ → Option ℕ
unfolding lowest_from
find_lowest orders = lowest_from orders 0 (pos int_max) none

-- `none` is the return value -1.
unfoldable pub fetch_empty_buffer : Pool → Option (ℕ × Pool)
fetch_empty_buffer p = elim (find_empty p.order_no) [
  | none ↦ none
  | some index ↦ some (index, record p { order_no = set p.order_no index in_use })
]

unfoldable pub return_buffer : Pool → ℕ → ℤ → ℕ → Result Pool
return_buffer p index order len = elim (get_elem? p.order_no index) [
  | none ↦ err out_of_bounds
  | some o ↦
      if is_in_use o
      then ok (record p {
        order_no = set p.order_no index order;
        data_len = set p.data_len index len;
        n_ready = (p.n_ready + 1) % 2 ^ 64;
      })
      else err integrity
]

unfoldable pub return_empty_buffer : Pool → ℕ → Result Pool
return_empty_buffer p index = elim (get_elem? p.order_no index) [
  | none ↦ err out_of_bounds
  | some o ↦
      if is_in_use o
      then ok (record p { order_no = set p.order_no index (pos 0) })
      else err integrity
]

-- One round of the loop of fetchBuffer on NReady: a credit is taken, the loop gives up because
-- the program is stopping, or it sleeps and tries again.
pub data ReadyRound : Type 0 where
  took : Pool → ReadyRound
  stopped : ReadyRound
  retry : ReadyRound

unfoldable pub ready_round : Bool → Pool → ReadyRound
ready_round keep_going p =
    if ltb 0 p.n_ready
    then took (record p { n_ready = p.n_ready - 1 })
    else if keep_going
    then retry
    else stopped

-- The rest of fetchBuffer, under dataMutex: index, order and length of the buffer.
unfoldable pub claim_lowest : Pool → Option (ℕ × ℤ × ℕ × Pool)
claim_lowest p = elim (find_lowest p.order_no) [
  | none ↦ none
  | some index ↦ some (
    index,
    get_or p.order_no index (pos 0),
    get_or p.data_len index 0,
    record p { order_no = set p.order_no index in_use },
  )
]

-- What fetchBuffer does: it returns 0 with a buffer, it returns -1, or it goes on waiting.
pub data Fetch : Type 0 where
  got : (index : ℕ) (order : ℤ) (len : ℕ) (after : Pool) → Fetch
  failed : (after : Pool) → Fetch
  waiting : Fetch

unfoldable pub fetch_buffer : Bool → Pool → Fetch
fetch_buffer keep_going p = elim (ready_round keep_going p) [
  | took credited ↦ elim (claim_lowest credited) [
    | none ↦ failed credited
    | some (index, order, len, after) ↦ got index order len after
  ]
  | stopped ↦ failed p
  | retry ↦ waiting
]

-- anyBufFull takes the structure by value: its `NReady++` is on a copy, and the pool stays.
unfoldable pub any_buf_full : Pool → ℕ
any_buf_full p = p.n_ready
