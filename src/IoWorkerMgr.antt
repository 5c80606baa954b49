-- ===== src/IoWorkerMgr.antt =====
-- server/io_worker_mgr.h and server/io_worker_mgr.cpp: the workers, their roles and their removal.
-- Of a worker the manager uses its job queue; the rest of it belongs to the worker's own thread.
-- A pipe is the number of bytes written to it. A write to a pipe is taken to succeed, and so is
-- `pipe` itself. `none` is an exception, `clear_once` aside.
pub mod Shape
use kierki.Prelude.{
  ℕ, suc, ◌+◌, ◌-◌, Bool, true, false, ◌&&◌, List, [], ◌∷◌, Option, none, some, ◌==◌, if◌then◌else◌,
  ◌>>=◌, any, Map, lookup, insert, emplace, erase, has,
}
use kierki.SendJob.{SendJob}
use kierki.JobQueue.{JobQueue, job_queue, push_next_job, set_kill_order}

pub data WorkerStatus : Type 0 where
  serving_unknown serving_active serving_proxy cleanup cleanup_unknown shutdown : WorkerStatus

-- `clear_permits` is the count of `clearThreadsSemaphore`.
pub record IoWorkerMgr : Type 0 where
  pub workers : Map JobQueue
  pub pipes : Map ℕ
  pub threads : Map (Unit {0})
  pub roles : Map WorkerStatus
  pub clear_permits : ℕ
  pub to_erase : List ℕ
  pub finish_flag : Bool
  pub next_ix : ℕ

abbrev pub io_worker_mgr : IoWorkerMgr
io_worker_mgr = record {
  workers = [];
  pipes = [];
  threads = [];
  roles = [];
  clear_permits = 0;
  to_erase = [];
  finish_flag = false;
  next_ix = 0;
}

unfoldable pub spawn_new_worker : WorkerStatus → IoWorkerMgr → IoWorkerMgr × ℕ
spawn_new_worker role m = (
  record m {
    next_ix = suc m.next_ix;
    pipes = emplace m.next_ix 0 m.pipes;
    workers = emplace m.next_ix job_queue m.workers;
    threads = emplace m.next_ix tt m.threads;
    roles = emplace m.next_ix role m.roles;
  },
  m.next_ix,
)

-- `pipes[ix]` makes an entry for a key that is missing.
unfoldable pub written : Option ℕ → ℕ
written none = 0
written (some n) = n

unfoldable pub signal : ℕ → IoWorkerMgr → IoWorkerMgr
unfolding written
signal ix m = record m { pipes = insert ix (suc (written (lookup ix m.pipes))) m.pipes }

unfoldable pub send_kill : ℕ → IoWorkerMgr → Option IoWorkerMgr
unfolding signal
send_kill ix m = do
  worker ← lookup ix m.workers
  some (signal ix (record m { workers = insert ix (set_kill_order worker) m.workers }))

abbrev pub to_be_erased : ℕ → IoWorkerMgr → Bool
to_be_erased ix m = any (λ j. j == ix) m.to_erase

-- The loop of `finish` over the workers.
unfoldable pub kill_all : Map JobQueue → IoWorkerMgr → Option IoWorkerMgr
unfolding send_kill
kill_all [] m = some m
kill_all ((ix, w) ∷ rest) m = do
  m' ← if to_be_erased ix m then some m else send_kill ix m
  kill_all rest m'

unfoldable pub finish : IoWorkerMgr → Option IoWorkerMgr
unfolding kill_all
finish m = kill_all m.workers m

unfoldable pub send_job : SendJob → ℕ → IoWorkerMgr → Option IoWorkerMgr
unfolding signal
send_job job ix m = do
  worker ← lookup ix m.workers
  some (signal ix (record m { workers = insert ix (push_next_job job worker) m.workers }))

unfoldable pub erase_worker : ℕ → IoWorkerMgr → IoWorkerMgr
erase_worker ix m =
    if to_be_erased ix m
    then m
    else record m { to_erase = ix ∷ m.to_erase; clear_permits = suc m.clear_permits }

erase_all : List ℕ → IoWorkerMgr → IoWorkerMgr
erase_all [] m = record m { to_erase = [] }
erase_all (ix ∷ rest) m =
    erase_all rest (record m { threads = erase ix m.threads; workers = erase ix m.workers })

no_workers : Map JobQueue → Bool
no_workers [] = true
no_workers (w ∷ rest) = false

-- One round of the loop of `waitForClearing`, with its `exitFlag`; `none` is a thread that waits at
-- the semaphore.
unfoldable pub clear_once : IoWorkerMgr → Option (IoWorkerMgr × Bool)
unfolding erase_all no_workers
clear_once m =
    if m.clear_permits == 0
    then none
    else (let m' = erase_all m.to_erase (record m { clear_permits = m.clear_permits - 1 }) in
        some (m', m'.finish_flag && no_workers m'.workers))

unfoldable pub release_cleaner : IoWorkerMgr → IoWorkerMgr
release_cleaner m = record m { finish_flag = true }

unfoldable pub set_role : ℕ → WorkerStatus → IoWorkerMgr → Option IoWorkerMgr
set_role ix role m =
    if has ix m.roles then some (record m { roles = insert ix role m.roles }) else none

unfoldable pub get_role : ℕ → IoWorkerMgr → Option WorkerStatus
get_role ix m = lookup ix m.roles

abbrev pub status_code : WorkerStatus → ℕ
status_code serving_unknown = 0
status_code serving_active = 1
status_code serving_proxy = 2
status_code cleanup = 3
status_code cleanup_unknown = 4
status_code shutdown = 5

-- The loop of `signalRole` over the roles.
unfoldable pub signal_each : WorkerStatus → Map WorkerStatus → IoWorkerMgr → IoWorkerMgr
signal_each role [] m = m
signal_each role ((ix, r) ∷ rest) m =
    signal_each role rest (if status_code r == status_code role then signal ix m else m)

unfoldable pub signal_role : WorkerStatus → IoWorkerMgr → IoWorkerMgr
unfolding signal_each
signal_role role m = signal_each role m.roles m
