-- ===== src/Hashpipe/Jobs/Threads.antt =====
-- The queue of jobs between the main thread and its two worker threads.
use volt_rec.Base.{
  ℕ, zero, suc, ◌+◌, ◌%◌, ◌<◌, ◌≤◌, ◌≡◌, refl, ap, ◌↔◌, true, some, none, some_inj, List, [], arith,
  inl, inr, ◌==◌, ==→eq, length-replicate, Bool-cases,
}
use mathlib.Core.Path.{subst}
use volt_rec.Hashpipe.Jobs.{
  PacketJob, PacketJobQueue, no_job, num_entries, new_queue, push_job, pop_job, complete_job,
  wait_for_job_completion,
}
use volt_rec.Hashpipe.Jobs.Fifo.{IsQueue, contents, jobs_fifo, jobs_from}

-- N_WORKER_THREADS
abbrev pub n_worker_threads : ℕ
n_worker_threads = 2

-- The queue, and the number of worker threads between pop_job and complete_job.
pub record Jobs : Type 0 where
  pub queue : PacketJobQueue
  pub running : ℕ

-- One critical section of one thread.
pub data JobStep (s : Jobs) : Jobs → Type 0 where
  push : (job : PacketJob) → JobStep s (record s { queue = (push_job s.queue job).1 })
  pop :
      {q : PacketJobQueue} (job : PacketJob)
      → s.running < n_worker_threads
      → pop_job s.queue ≡ some (job, q)
      → JobStep s (record { queue = q; running = suc s.running })
  complete :
      {n : ℕ} → s.running ≡ suc n → JobStep s (record { queue = complete_job s.queue; running = n })

pub data JobReach : Jobs → Type 0 where
  fresh : JobReach (record { queue = new_queue; running = 0 })
  after : {s t : Jobs} → JobReach s → JobStep s t → JobReach t

abbrev Balanced : Jobs → Type 0
Balanced s =
    IsQueue s.queue
    × (s.queue.num_pending ≡ s.queue.num_queued + s.running)
    × (s.running ≤ n_worker_threads)

none-job : {x : PacketJob × PacketJobQueue} → none ≡ some x → ⊥
none-job h = absurd (cc)

push-Balanced :
    (s : Jobs) (job : PacketJob)
    → Balanced s
    → Balanced (record s { queue = (push_job s.queue job).1 })
unfolding push_job
push-Balanced s job (q, p, r) =
    elim (Bool-cases ((s.queue.idxnew + 1) % num_entries == s.queue.idxold)) [
      | inl full ↦ ((jobs_fifo s.queue job q).0, rw full p, r)
      | inr room ↦ ((jobs_fifo s.queue job q).0, rw room (omega arith), r)
    ]

-- The queue after a pop that finds a job.
pop_job-fields :
    (q q' : PacketJobQueue) (job : PacketJob)
    → IsQueue q
    → pop_job q ≡ some (job, q')
    → IsQueue q' × (q'.num_pending ≡ q.num_pending) × (q'.num_queued + 1 ≡ q.num_queued)
unfolding pop_job
pop_job-fields q q' job (l, o, n, e) h = elim (Bool-cases (q.num_queued == 0)) [
  | inl empty ↦ absurd (none-job (rw empty at h))
  | inr some_job ↦
      let same = ap (λ (x : PacketJob × PacketJobQueue). x.1) (some_inj (rw some_job at h)) in
      subst (λ x. IsQueue x × (x.num_pending ≡ q.num_pending) × (x.num_queued + 1 ≡ q.num_queued))
        same ((l, omega arith, omega arith, ground arith), refl, ground arith)
]

pop-Balanced :
    (s : Jobs) (q : PacketJobQueue) (job : PacketJob)
    → s.running < n_worker_threads
    → pop_job s.queue ≡ some (job, q)
    → Balanced s
    → Balanced (record { queue = q; running = suc s.running })
pop-Balanced s q job idle h (ok_q, p, r) =
    let (ok', pending, queued) = pop_job-fields s.queue q job ok_q h in
    (ok', omega arith, omega arith)

complete-Balanced :
    (s : Jobs) (n : ℕ)
    → s.running ≡ suc n
    → Balanced s
    → Balanced (record { queue = complete_job s.queue; running = n })
unfolding complete_job
complete-Balanced s n e (q, p, r) = (q, ground arith, omega arith)

Reach-Balanced : {s : Jobs} → JobReach s → Balanced s
Reach-Balanced fresh = (
  (length-replicate num_entries no_job, omega arith, omega arith, omega arith),
  omega arith,
  omega arith,
)
Reach-Balanced (after {s} r (push job)) = push-Balanced s job (Reach-Balanced r)
Reach-Balanced (after {s} r (pop {q} job idle h)) = pop-Balanced s q job idle h (Reach-Balanced r)
Reach-Balanced (after {s} r (complete {n} e)) = complete-Balanced s n e (Reach-Balanced r)

jobs_from-empty :
    (jobs : List PacketJob) (start count : ℕ) → (jobs_from jobs start count ≡ []) ↔ (count ≡ 0)
unfolding jobs_from
jobs_from-empty jobs start zero = (λ h. refl, λ h. refl)
jobs_from-empty jobs start (suc count) = (λ h. absurd (cc), λ h. absurd (omega arith))

contents-empty : (q : PacketJobQueue) → (contents q ≡ []) ↔ (q.num_queued ≡ 0)
unfolding contents
contents-empty q = jobs_from-empty q.jobs q.idxold q.num_queued

-- In every state that the main thread and two worker threads reach from the new queue, by pushes,
-- pops and completions in any order, wait_for_job_completion lets the main thread go on exactly when
-- no job is queued and no worker is between its pop and its completion.
pub wait_for_job_completion_iff :
    {s : Jobs}
    → JobReach s
    → (wait_for_job_completion s.queue ≡ true) ↔ ((contents s.queue ≡ []) × (s.running ≡ 0))
unfolding wait_for_job_completion
wait_for_job_completion_iff {s} r =
    let (ok_q, p, idle) = Reach-Balanced r in
    let empty = contents-empty s.queue in
    (
      λ h. let zero_pending = ==→eq s.queue.num_pending 0 h in (empty.1 (omega arith), omega arith),
      λ h. let none_queued = empty.0 h.0 in ground (arith, h.1),
    )
