-- ===== src/Hashpipe/Jobs/Fifo.antt =====
-- The queue of jobs is a first-in first-out queue with room for 65535 jobs.
use volt_rec.Base.{
  ℕ, zero, suc, ◌+◌, ◌-◌, ◌%◌, ◌^◌, ==_of_ne, ==_refl, ltb, ltb→lt, Bool-cases, ◌<◌, ◌≤◌, ◌≡◌, refl,
  ap, ◌∙◌, ◌≢◌, ◌⊎◌, inl, inr, true, false, none, some, List, [], ◌∷◌, get_or, set, length,
  length-set, get_or-set_self, get_or-set_ne, arith,
}
use mathlib.Core.List.{◌++◌}
use volt_rec.Hashpipe.Jobs.{PacketJob, no_job, num_entries, PacketJobQueue, push_job, pop_job}

-- The `count` jobs from index `start` of the ring on.
unfoldable pub jobs_from : List PacketJob → ℕ → ℕ → List PacketJob
jobs_from jobs start zero = []
jobs_from jobs start (suc count) =
    get_or jobs start no_job ∷ jobs_from jobs ((start + 1) % num_entries) count

-- The jobs in the queue, the oldest first.
unfoldable pub contents : PacketJobQueue → List PacketJob
unfolding jobs_from
contents q = jobs_from q.jobs q.idxold q.num_queued

-- The ring has its 65536 entries, and its two indices are apart by the number of queued jobs,
-- which leaves one entry free.
abbrev pub IsQueue : PacketJobQueue → Type 0
IsQueue q =
    (length q.jobs ≡ num_entries)
    × (q.idxold < num_entries)
    × (q.num_queued < num_entries)
    × (q.idxnew ≡ (q.idxold + q.num_queued) % num_entries)

jobs_from-snoc :
    (jobs : List PacketJob) (start count i : ℕ)
    → start < num_entries
    → i ≡ (start + count) % num_entries
    → jobs_from jobs start (suc count) ≡ jobs_from jobs start count ++ (get_or jobs i no_job ∷ [])
unfolding jobs_from
jobs_from-snoc jobs start zero i s e =
    let same : start ≡ i = omega arith in ap (λ k. get_or jobs k no_job ∷ []) same
jobs_from-snoc jobs start (suc count) i s e =
    ap (λ t. get_or jobs start no_job ∷ t)
      (jobs_from-snoc jobs ((start + 1) % num_entries) count i (omega arith) (omega arith))

-- A job that is put at distance `e` from `start` is not among the first `count`.
jobs_from-apart :
    (jobs : List PacketJob) (job : PacketJob) (start count i e : ℕ)
    → start < num_entries
    → count ≤ e
    → e < num_entries
    → i ≡ (start + e) % num_entries
    → jobs_from (set jobs i job) start count ≡ jobs_from jobs start count
unfolding jobs_from
jobs_from-apart jobs job start zero i e s c b h = refl
jobs_from-apart jobs job start (suc count) i e s c b h =
    let ne : i ≢ start = λ q. omega arith in
    ap (λ j. j ∷ jobs_from (set jobs i job) ((start + 1) % num_entries) count)
      (get_or-set_ne jobs i start job no_job ne)
    ∙ ap (λ t. get_or jobs start no_job ∷ t)
        (jobs_from-apart jobs job ((start + 1) % num_entries) count i (e - 1) (omega arith)
          (omega arith) (omega arith) (omega arith))

-- The queue after a push that finds room.
unfoldable pushed : PacketJobQueue → PacketJob → PacketJobQueue
pushed q job = record {
  idxnew = (q.idxnew + 1) % num_entries;
  idxold = q.idxold;
  num_queued = (q.num_queued + 1) % 2 ^ 32;
  num_pending = (q.num_pending + 1) % 2 ^ 32;
  jobs = set q.jobs q.idxnew job;
}

push_job-room :
    (q : PacketJobQueue) (job : PacketJob)
    → IsQueue q
    → q.num_queued < num_entries - 1
    → push_job q job ≡ (false, pushed q job)
unfolding push_job pushed
push_job-room q job (l, o, n, e) h =
    let ne : (q.idxnew + 1) % num_entries ≢ q.idxold = λ x. omega arith in
    rw (==_of_ne ((q.idxnew + 1) % num_entries) q.idxold ne) refl

contents-pushed :
    (q : PacketJobQueue) (job : PacketJob)
    → IsQueue q
    → contents (pushed q job) ≡ contents q ++ (job ∷ [])
unfolding contents pushed
contents-pushed q job (l, o, n, e) =
    let inside : q.idxnew < length q.jobs = omega arith in
    let count : (q.num_queued + 1) % 2 ^ 32 ≡ suc q.num_queued = omega arith in
    ap (jobs_from (set q.jobs q.idxnew job) q.idxold) count
    ∙ jobs_from-snoc (set q.jobs q.idxnew job) q.idxold q.num_queued q.idxnew o e
    ∙ ap (λ t. t ++ (get_or (set q.jobs q.idxnew job) q.idxnew no_job ∷ []))
        (jobs_from-apart q.jobs job q.idxold q.num_queued q.idxnew q.num_queued o (omega arith) n e)
    ∙ ap (λ j. jobs_from q.jobs q.idxold q.num_queued ++ (j ∷ []))
        (get_or-set_self q.jobs q.idxnew job no_job inside)

pushed-IsQueue :
    (q : PacketJobQueue) (job : PacketJob)
    → IsQueue q
    → q.num_queued < num_entries - 1
    → IsQueue (pushed q job)
unfolding pushed
pushed-IsQueue q job (l, o, n, e) h =
    (length-set q.jobs q.idxnew job ∙ l, o, omega arith, omega arith)

push_job-full :
    (q : PacketJobQueue) (job : PacketJob)
    → IsQueue q
    → q.num_queued ≡ num_entries - 1
    → push_job q job ≡ (true, q)
unfolding push_job
push_job-full q job (l, o, n, e) h =
    let same : (q.idxnew + 1) % num_entries ≡ q.idxold = omega arith in
    rw same (rw (==_refl q.idxold) refl)

-- The queue after a job is taken.
unfoldable popped : PacketJobQueue → PacketJobQueue
popped q = record {
  idxnew = q.idxnew;
  idxold = (q.idxold + 1) % num_entries;
  num_queued = q.num_queued - 1;
  num_pending = q.num_pending;
  jobs = q.jobs;
}

abbrev Popped : PacketJobQueue → Type 0
Popped q =
    ((contents q ≡ []) × (pop_job q ≡ none))
    ⊎ ((oldest : PacketJob) × (rest : PacketJobQueue) × (pop_job q ≡ some (oldest, rest))
        × (contents q ≡ oldest ∷ contents rest)
        × IsQueue rest)

pop_job-Popped : (q : PacketJobQueue) (n : ℕ) → q.num_queued ≡ n → IsQueue q → Popped q
unfolding pop_job popped contents
pop_job-Popped q zero same h = inl (ap (jobs_from q.jobs q.idxold) same, rw same refl)
pop_job-Popped q (suc m) same (l, o, n, e) =
    let ne : q.num_queued ≢ 0 = λ x. omega arith in
    let left : m ≡ q.num_queued - 1 = omega arith in
    inr (
      get_or q.jobs q.idxold no_job,
      popped q,
      rw (==_of_ne q.num_queued 0 ne) refl,
      ap (jobs_from q.jobs q.idxold) same
          ∙ ap
              (λ c.
                get_or q.jobs q.idxold no_job ∷ jobs_from q.jobs ((q.idxold + 1) % num_entries) c)
              left,
      (l, omega arith, omega arith, omega arith),
    )

abbrev Pushed : PacketJobQueue → PacketJob → Type 0
Pushed q job =
    IsQueue (push_job q job).1
    × (((q.num_queued < num_entries - 1)
          × ((push_job q job).0 ≡ false)
          × (contents (push_job q job).1 ≡ contents q ++ (job ∷ [])))
        ⊎ ((q.num_queued ≡ num_entries - 1) × (push_job q job ≡ (true, q))))

push_job-Pushed : (q : PacketJobQueue) (job : PacketJob) → IsQueue q → Pushed q job
push_job-Pushed q job h = elim (Bool-cases (ltb q.num_queued (num_entries - 1))) [
  | inl room ↦
      let lt = ltb→lt q.num_queued (num_entries - 1) room in
      rw (push_job-room q job h lt)
        (pushed-IsQueue q job h lt, inl (lt, refl, contents-pushed q job h))
  | inr full ↦
      let eq : q.num_queued ≡ num_entries - 1 = ground (arith, h) in
      let same = push_job-full q job h eq in (rw same h, inr (eq, same))
]

-- On a queue whose ring has its 65536 entries and whose indices are apart by the number of queued
-- jobs: push_job puts the job behind the queued ones and returns 0 while fewer than 65535 are
-- queued, and else returns 1 and leaves the queue; pop_job waits when no job is queued, and else
-- takes the oldest and leaves the others in their order. The queue stays of that form.
pub jobs_fifo :
    (q : PacketJobQueue) (job : PacketJob)
    → IsQueue q
    → IsQueue (push_job q job).1
      × (((q.num_queued < num_entries - 1)
            × ((push_job q job).0 ≡ false)
            × (contents (push_job q job).1 ≡ contents q ++ (job ∷ [])))
          ⊎ ((q.num_queued ≡ num_entries - 1) × (push_job q job ≡ (true, q))))
      × (((contents q ≡ []) × (pop_job q ≡ none))
          ⊎ ((oldest : PacketJob) × (rest : PacketJobQueue) × (pop_job q ≡ some (oldest, rest))
              × (contents q ≡ oldest ∷ contents rest)
              × IsQueue rest))
jobs_fifo q job h =
    ((push_job-Pushed q job h).0, (push_job-Pushed q job h).1, pop_job-Popped q q.num_queued refl h)
