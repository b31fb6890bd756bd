-- ===== src/Hashpipe/Waiting.antt =====
-- half_hashpipe/ata_volt_outer_thread.c: wait_for_block_free. Of the status buffer it has the two
-- fields that change; hgets, and what the calls of the shared memory answer, are parameters.
use volt_rec.Base.{ℕ, List, [], ◌∷◌, ◌++◌, map, Result, ok, err, io, blocked, ◌>>=◌, ◌≡◌, refl}

-- A return of hpguppi_input_databuf_wait_free: HASHPIPE_OK, HASHPIPE_TIMEOUT with the number of
-- filled blocks that is read after it, or another.
pub data WaitFree : Type 0 where
  block_free : WaitFree
  timed_out : (netbuf_full : ℕ) → WaitFree
  wait_error : WaitFree

-- The field `status_key`, and NETBUFST with its two numbers.
pub record NetStatus : Type 0 where
  pub status : List ℕ
  pub netbuf_full : ℕ
  pub n_block : ℕ

-- "waitfree"
abbrev pub waitfree : List ℕ
waitfree = 119 ∷ 97 ∷ 105 ∷ 116 ∷ 102 ∷ 114 ∷ 101 ∷ 101 ∷ []

-- "outblocked"
abbrev pub outblocked : List ℕ
outblocked = 111 ∷ 117 ∷ 116 ∷ 98 ∷ 108 ∷ 111 ∷ 99 ∷ 107 ∷ 101 ∷ 100 ∷ []

-- The loop, over what the waits return; after the last one it still waits.
unfoldable pub wait_loop : List WaitFree → NetStatus → Result NetStatus
wait_loop [] st = err blocked
wait_loop (block_free ∷ waits) st = ok st
wait_loop (timed_out full ∷ waits) st =
    wait_loop waits (record { status = outblocked; netbuf_full = full; n_block = st.n_block })
wait_loop (wait_error ∷ waits) st = err io

-- The status buffer, and the copy of it in the header of the block.
unfoldable pub wait_for_block_free :
    (List ℕ → List ℕ) → ℕ → ℕ → List WaitFree → NetStatus → Result (NetStatus × NetStatus)
unfolding wait_loop
wait_for_block_free hgets netbuf_full n_block waits st = do
  waited ←
      wait_loop waits (record { status = waitfree; netbuf_full = netbuf_full; n_block = n_block })
  let restored : NetStatus = record waited { status = hgets st.status }
  ok (restored, restored)

-- The number that was read last.
abbrev pub last_full : ℕ → List ℕ → ℕ
last_full full [] = full
last_full full (next ∷ fulls) = last_full next fulls

wait_loop_lem :
    (fulls : List ℕ) (waits : List WaitFree) (st : NetStatus)
    → (s : List ℕ) × (wait_loop (map timed_out fulls ++ (block_free ∷ waits)) st
        ≡ ok (record {
          status = s;
          netbuf_full = last_full st.netbuf_full fulls;
          n_block = st.n_block;
        }))
unfolding wait_loop
wait_loop_lem [] waits st = (st.status, refl)
wait_loop_lem (full ∷ fulls) waits st =
    wait_loop_lem fulls waits
      (record { status = outblocked; netbuf_full = full; n_block = st.n_block })

-- Where the block becomes free, after any number of timeouts, the field of the thread has again
-- what it had, the number of filled blocks is the one read last, and the header of the block is a
-- copy of the status buffer.
pub wait_for_block_free_lem :
    (hgets : List ℕ → List ℕ) (full n_block : ℕ) (fulls : List ℕ) (waits : List WaitFree)
    (st : NetStatus)
    → hgets st.status ≡ st.status
    → wait_for_block_free hgets full n_block (map timed_out fulls ++ (block_free ∷ waits)) st
      ≡ ok (
        record { status = st.status; netbuf_full = last_full full fulls; n_block = n_block },
        record { status = st.status; netbuf_full = last_full full fulls; n_block = n_block },
      )
unfolding wait_for_block_free
wait_for_block_free_lem hgets full n_block fulls waits st whole =
    let begun : NetStatus = record { status = waitfree; netbuf_full = full; n_block = n_block } in
    let (s, e) = wait_loop_lem fulls waits begun in rw (e, wait_for_block_free) (rw whole)
