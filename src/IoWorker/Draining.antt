-- ===== src/IoWorker/Draining.antt =====
-- A worker takes over all messages of its queue, in their order.
use kierki.Prelude.{
  ℕ, zero, suc, ◌<◌, List, [], ◌∷◌, ◌++◌, append_assoc, append-nil, some, ◌≡◌, ◌∙◌, sym, ap, arith,
  length, Bool,
}
use kierki.SendJob.{SendJob}
use kierki.JobQueue.{JobQueue, push_next_job, pop_next_job, has_next_job}
use kierki.IoWorker.{drain_jobs}

abbrev pub push_all : List SendJob → JobQueue → JobQueue
push_all [] q = q
push_all (job ∷ jobs) q = push_all jobs (push_next_job job q)

push_all-pending :
    (jobs : List SendJob) (q : JobQueue)
    → push_all jobs q ≡ record q { jobs_pending = q.jobs_pending ++ jobs }
unfolding push_next_job
push_all-pending [] q = ap (λ js. record q { jobs_pending = js }) (sym (append-nil q.jobs_pending))
push_all-pending (job ∷ jobs) q =
    push_all-pending jobs (push_next_job job q)
    ∙ ap (λ js. record q { jobs_pending = js }) (append_assoc q.jobs_pending (job ∷ []) jobs)

pub drain_pending :
    (pending : List SendJob) (kill : Bool) (fuel : ℕ) (out : List SendJob)
    → length pending < fuel
    → drain_jobs fuel (record { jobs_pending = pending; kill_flag = kill }) out
      ≡ some (record { jobs_pending = []; kill_flag = kill }, out ++ pending)
unfolding drain_jobs pop_next_job has_next_job
drain_pending pending kill zero out h = absurd (omega arith)
drain_pending [] kill (suc fuel) out h = rw append-nil
drain_pending (job ∷ pending) kill (suc fuel) out h =
    drain_pending pending kill fuel (out ++ job ∷ []) (omega arith)
    ∙ ap (λ js. some (record { jobs_pending = []; kill_flag = kill }, js))
        (append_assoc out (job ∷ []) pending)

-- Whatever was pushed behind what was pending is handed over in that order, with as many rounds as
-- there are messages and one more, and the order to end stays as it was.
pub drain-push_all :
    (jobs : List SendJob) (q : JobQueue) (out : List SendJob) (fuel : ℕ)
    → length (q.jobs_pending ++ jobs) < fuel
    → drain_jobs fuel (push_all jobs q) out
      ≡ some (record q { jobs_pending = [] }, out ++ (q.jobs_pending ++ jobs))
drain-push_all jobs q out fuel h =
    rw (push_all-pending jobs q) (drain_pending (q.jobs_pending ++ jobs) q.kill_flag fuel out h)
