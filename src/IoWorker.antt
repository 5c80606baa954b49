-- ===== src/IoWorker.antt =====
-- server/io_worker.cpp: the parts of a worker's loop that work on its queues.
pub mod Draining
pub mod Loop
use kierki.Prelude.{
  ℕ, zero, suc, Bool, true, false, not, ◌&&◌, List, [], ◌∷◌, ◌++◌, Option, none, some, ◌>>=◌,
  if◌then◌else◌, Bytes,
}
use kierki.SendJob.{SendJob}
use kierki.JobQueue.{JobQueue, pop_next_job, has_next_job}

-- `while (jobQueue.hasNextJob()) pendingOutgoing.push(jobQueue.popNextJob())`, on fuel; `none` is
-- an exception of the queue, or fuel that ran out.
unfoldable pub drain_jobs : ℕ → JobQueue → List SendJob → Option (JobQueue × List SendJob)
drain_jobs zero q outgoing = none
drain_jobs (suc fuel) q outgoing = elim (has_next_job q) [
  | true ↦ (pop_next_job q) >>= λ r. drain_jobs fuel r.1 (outgoing ++ r.0 ∷ [])
  | false ↦ some (q, outgoing)
]

is_empty {ℓ} : {A : Type ℓ} → List A → Bool
is_empty [] = true
is_empty (x ∷ xs) = false

-- `hasWork`.
unfoldable pub has_work : List Bytes → List SendJob → Bool → Bool
unfolding is_empty
has_work pending_incoming pending_outgoing closed_fd =
    if not (is_empty pending_incoming)
    then true
    else if not (is_empty pending_outgoing) && not closed_fd
    then true
    else false
