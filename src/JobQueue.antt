-- ===== src/JobQueue.antt =====
-- server/job_queue.h and server/job_queue.cpp: the queue of messages for one worker. Each method
-- holds the mutex for its whole body, so it is one step.
use kierki.Prelude.{Bool, true, false, not, List, [], ◌∷◌, ◌++◌, Option, none, some}
use kierki.SendJob.{SendJob}

pub record JobQueue : Type 0 where
  pub jobs_pending : List SendJob
  pub kill_flag : Bool

abbrev pub job_queue : JobQueue
job_queue = record { jobs_pending = []; kill_flag = false }

pop_from : List SendJob → JobQueue → Option (SendJob × JobQueue)
pop_from [] q = none
pop_from (job ∷ rest) q = some (job, record q { jobs_pending = rest })

-- `none` is the exception.
unfoldable pub pop_next_job : JobQueue → Option (SendJob × JobQueue)
unfolding pop_from
pop_next_job q = pop_from q.jobs_pending q

is_empty : List SendJob → Bool
is_empty [] = true
is_empty (job ∷ rest) = false

unfoldable pub has_next_job : JobQueue → Bool
unfolding is_empty
has_next_job q = not (is_empty q.jobs_pending)

unfoldable pub has_kill_order : JobQueue → Bool
has_kill_order q = q.kill_flag

unfoldable pub set_kill_order : JobQueue → JobQueue
set_kill_order q = record q { kill_flag = true }

unfoldable pub push_next_job : SendJob → JobQueue → JobQueue
push_next_job job q = record q { jobs_pending = q.jobs_pending ++ job ∷ [] }
