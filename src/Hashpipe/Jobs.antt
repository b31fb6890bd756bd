-- ===== src/Hashpipe/Jobs.antt =====
-- half_hashpipe/ata_volt_outer_thread.c, compiled with USE_WORKER_THREADS: the queue of the copy
-- jobs that the main thread pushes and the worker threads pop. Each function runs under the mutex
-- of the queue, so it is one step; a wait on a condition is `none`.
pub mod Fifo
pub mod Threads
use volt_rec.Base.{
  ℕ, zero, suc, ◌+◌, ◌-◌, ◌%◌, ◌^◌, Bool, true, false, Option, none, some, List, [], ◌∷◌, ◌==◌,
  if◌then◌else◌, get_or, set, replicate,
}

pub record PacketJob : Type 0 where
  pub src : ℕ
  pub dst : ℕ
  pub row_len : ℕ
  pub ostride : ℕ
  pub nbytes : ℕ

abbrev pub no_job : PacketJob
no_job = record { src = 0; dst = 0; row_len = 0; ostride = 0; nbytes = 0 }

-- PJQ_NUM_ENTRIES
abbrev pub num_entries : ℕ
num_entries = 65536

pub record PacketJobQueue : Type 0 where
  pub idxnew : ℕ
  pub idxold : ℕ
  pub num_queued : ℕ
  pub num_pending : ℕ
  pub jobs : List PacketJob

-- The queue that calloc returns.
abbrev pub new_queue : PacketJobQueue
new_queue = record {
  idxnew = 0;
  idxold = 0;
  num_queued = 0;
  num_pending = 0;
  jobs = replicate num_entries no_job;
}

-- The return value (`true` is 1, the queue is full) and the queue after it.
unfoldable pub push_job : PacketJobQueue → PacketJob → Bool × PacketJobQueue
push_job q job =
    let idx_nextnew = (q.idxnew + 1) % num_entries in
    if idx_nextnew == q.idxold then (true, q) else (
      false,
      record {
        idxnew = idx_nextnew;
        idxold = q.idxold;
        num_queued = (q.num_queued + 1) % 2 ^ 32;
        num_pending = (q.num_pending + 1) % 2 ^ 32;
        jobs = set q.jobs q.idxnew job;
      },
    )

-- `none` where the caller waits for cond_queued.
unfoldable pub pop_job : PacketJobQueue → Option (PacketJob × PacketJobQueue)
pop_job q =
    if q.num_queued == 0
    then none
    else some (
      get_or q.jobs q.idxold no_job,
      record {
        idxnew = q.idxnew;
        idxold = (q.idxold + 1) % num_entries;
        num_queued = q.num_queued - 1;
        num_pending = q.num_pending;
        jobs = q.jobs;
      },
    )

unfoldable pub complete_job : PacketJobQueue → PacketJobQueue
complete_job q = record {
  idxnew = q.idxnew;
  idxold = q.idxold;
  num_queued = q.num_queued;
  num_pending = if q.num_pending == 0 then q.num_pending else q.num_pending - 1;
  jobs = q.jobs;
}

-- Whether the main thread goes on.
unfoldable pub wait_for_job_completion : PacketJobQueue → Bool
wait_for_job_completion q = q.num_pending == 0
