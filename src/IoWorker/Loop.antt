-- ===== src/IoWorker/Loop.antt =====
-- server/io_worker.cpp: `run`, `handlePipe` and `handleQueue`. What the system calls answer is an
-- argument: a poll, the end of the pipe, a message that is sent as a whole or not. Closing a socket
-- is taken to succeed, and the log is left out. Times are in milliseconds.
pub mod Sending
pub mod Failing
pub mod Kill
use kierki.Prelude.{
  ℕ, suc, ◌+◌, ◌*◌, ◌-◌, Bool, true, false, List, [], ◌∷◌, ◌++◌, Option, none, some, ◌>>=◌,
  if◌then◌else◌, Bytes, ltb, length,
}
use kierki.Types.{IoErrClass, io_err_internal}
use kierki.SendJob.{SendJob, gen_msg}
use kierki.JobQueue.{JobQueue, push_next_job, set_kill_order, has_kill_order}
use kierki.IoWorker.{drain_jobs, has_work}
use kierki.IoWorkerHandler.{Handler, close_conn}

-- What a worker is given and what it calls, over a state `σ` that it shares with the server's other
-- threads. A call may also let the others go on before it takes the mutex. `exec_cb` says whether
-- the callable is run, `send` whether `sendNoBlockN` returned the size of the message, where its first argument says
-- whether `mainFd` has been closed before the call, and `socket_action` is the virtual method. `none`
-- is an exception.
pub record Links (σ : Type 0) : Type 0 where
  pub exit_cb : List IoErrClass → Bool → σ → Option (σ × Bool)
  pub timeout_cb : σ → Option σ
  pub exec_cb : σ → σ × Bool
  pub socket_action : Handler → σ → Option (Handler × σ)
  pub send : Bool → Bytes → σ → σ × Bool
  pub queue : σ → JobQueue
  pub put_queue : JobQueue → σ → σ
  pub now : σ → ℕ
  pub timeout : ℕ
  pub main_sock_err : IoErrClass

pub data PollResp : Type 0 where
  timed_out poll_failed ready : PollResp

-- What the last `read` of the pipe answers: no byte, or an error.
pub data PipeEnd : Type 0 where
  pipe_empty pipe_failed : PipeEnd

-- `handlePipe`.
unfoldable pub handle_pipe : PipeEnd → Handler → Handler
handle_pipe pipe_empty h = h
handle_pipe pipe_failed h = record h { errs = h.errs ++ io_err_internal ∷ []; terminate = true }

module _ {σ : Type 0} (links : Links σ) where
  -- `newJob` and `scheduleDeath`.
  unfoldable pub new_job : SendJob → σ → σ
  new_job job st = links.put_queue (push_next_job job (links.queue st)) st

  unfoldable pub schedule_death : σ → σ
  schedule_death st = links.put_queue (set_kill_order (links.queue st)) st

  -- What follows `sendNoBlockN` in the callable of `handleQueue`.
  unfoldable pub after_send : Bool → Handler → σ → Handler
  unfolding close_conn
  after_send true h st = record h {
    response_timeout = some (links.now st + links.timeout * 1000);
    next_timeout = some (links.timeout * 1000);
  }
  after_send false h st =
      record (close_conn (record h { errs = h.errs ++ links.main_sock_err ∷ [] })) {
        terminate = true;
      }

  -- The loop of `handleQueue` over the messages; it goes on when a message was not sent.
  unfoldable pub send_loop : List SendJob → Handler → σ → Handler × σ
  unfolding after_send
  send_loop [] h st = (h, st)
  send_loop (job ∷ rest) h st = elim (links.exec_cb st).1 [
    | false ↦ (h, (links.exec_cb st).0)
    | true ↦
        let (st', sent) = links.send h.closed_fd (gen_msg job) (links.exec_cb st).0 in
        send_loop rest (after_send sent (record h { pending_outgoing = rest }) st') st'
  ]

  -- `handleQueue`.
  unfoldable pub handle_queue : Handler → σ → Handler × σ
  unfolding send_loop
  handle_queue h st = if h.closed_fd then (h, st) else send_loop h.pending_outgoing h st

  -- `while (jobQueue.hasNextJob()) pendingOutgoing.push(jobQueue.popNextJob())`.
  unfoldable pub take_jobs : Handler → σ → Option (Handler × σ)
  take_jobs h st = do
    let q = links.queue st
    (q', out) ← drain_jobs (suc (length q.jobs_pending)) q h.pending_outgoing
    some (record h { pending_outgoing = out }, links.put_queue q' st)

  -- `hasKillOrder`: the last messages go out and the connection is closed.
  unfoldable pub obey_kill : Handler → σ → Option (Handler × σ)
  unfolding take_jobs handle_queue close_conn
  obey_kill h st =
      if has_kill_order (links.queue st)
      then (do
        (h1, st1) ← take_jobs h st
        let (h2, st2) = handle_queue h1 st1
        some (close_conn h2, st2))
      else some (h, st)

  -- The next timeout, at the end of a turn.
  unfoldable pub arm_at : Option ℕ → Handler → σ → Option (Handler × σ)
  arm_at none h st = some (h, st)
  arm_at (some deadline) h st =
      if ltb deadline (links.now st)
      then (do st' ← links.timeout_cb st; some (record h { next_timeout = none }, st'))
      else some (record h { next_timeout = some (deadline - links.now st) }, st)

  unfoldable pub arm_timer : Handler → σ → Option (Handler × σ)
  unfolding arm_at
  arm_timer h st = elim h.next_timeout [
    | some t ↦ some (h, st)
    | none ↦ if ltb 0 links.timeout then arm_at h.response_timeout h st else some (h, st)
  ]

  -- `exitCb(errs, id, hasWork())`, and `terminate` where it returns true.
  unfoldable pub ask_exit : Handler → σ → Option (Handler × σ)
  ask_exit h st = do
    (st', ok) ← links.exit_cb h.errs (has_work h.pending_incoming h.pending_outgoing h.closed_fd) st
    some (if ok then record h { terminate = true } else h, st')

  -- The end of a turn: the worker leaves, or it sets its timer.
  unfoldable pub leave_or_arm : Handler → σ → Option (Handler × σ)
  unfolding arm_timer
  leave_or_arm h st =
      if h.want_to_quit
      then (do
        (st', ok) ←
            links.exit_cb h.errs (has_work h.pending_incoming h.pending_outgoing h.closed_fd) st
        if ok then some (record h { terminate = true }, st') else arm_timer h st')
      else arm_timer h st

  -- A step unless the worker is told to end: `if (terminate) break`.
  abbrev pub unless_done : (Handler → σ → Option (Handler × σ)) → Handler → σ → Option (Handler × σ)
  unless_done step h st = if h.terminate then some (h, st) else step h st

  unfoldable pub after_queue : Handler → σ → Option (Handler × σ)
  unfolding obey_kill leave_or_arm
  after_queue h st = do (h1, st1) ← obey_kill h st; leave_or_arm h1 st1

  unfoldable pub after_socket : Handler → σ → Option (Handler × σ)
  unfolding take_jobs handle_queue after_queue
  after_socket h st = do
    (h1, st1) ← take_jobs h st
    let (h2, st2) = handle_queue h1 st1
    unless_done after_queue h2 st2

  -- One round of the loop of `run`, for what `poll` and the pipe answer.
  unfoldable pub turn : PollResp → PipeEnd → Handler → σ → Option (Handler × σ)
  unfolding ask_exit close_conn handle_pipe after_socket
  turn timed_out pipe h st = do
    st' ← links.timeout_cb st
    some (record h { next_timeout = none; response_timeout = none }, st')
  turn poll_failed pipe h st =
      ask_exit
        (close_conn (record h { next_timeout = none; errs = h.errs ++ links.main_sock_err ∷ [] }))
        st
  turn ready pipe h st =
      unless_done
        (λ h1 st1. do (h2, st2) ← links.socket_action h1 st1; unless_done after_socket h2 st2)
        (handle_pipe pipe (record h { next_timeout = none })) st

  -- The two calls of `fcntl` in front of the loop, which may fail.
  unfoldable pub set_flag : Bool → Handler → Handler
  set_flag failed h =
      if failed then record h { errs = h.errs ++ links.main_sock_err ∷ []; terminate = true } else h

  -- The call of `exitCb` behind the loop, whose answer is not used.
  unfoldable pub last_exit : Handler → σ → Option (Handler × σ × Bool)
  last_exit h st = do
    (st', ok) ← links.exit_cb h.errs (has_work h.pending_incoming h.pending_outgoing h.closed_fd) st
    some (h, st', true)

  -- The loop of `run`, for a list of answers of `poll`, and what is behind it. The last result says
  -- whether `run` has returned; if not, the worker waits for one more answer.
  unfoldable pub run_loop : List (PollResp × PipeEnd) → Handler → σ → Option (Handler × σ × Bool)
  unfolding last_exit turn
  run_loop [] h st = if h.terminate then last_exit h st else some (h, st, false)
  run_loop ((resp, pipe) ∷ rest) h st = elim h.terminate [
    | true ↦ last_exit h st
    | false ↦ (turn resp pipe h st) >>= λ r. run_loop rest r.0 r.1
  ]

  unfoldable pub run :
      Bool → Bool → List (PollResp × PipeEnd) → Handler → σ → Option (Handler × σ × Bool)
  unfolding set_flag run_loop
  run pipe_flag main_flag turns h st = run_loop turns (set_flag main_flag (set_flag pipe_flag h)) st
