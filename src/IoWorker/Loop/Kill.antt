-- ===== src/IoWorker/Loop/Kill.antt =====
-- A worker that is told to die sends what is left first.
use kierki.Prelude.{
  Bool, suc, true, false, List, [], ◌∷◌, ◌++◌, append_assoc, append-nil, some, none, Bytes, ◌≡◌,
  refl, sym, ap, ◌∙◌, arith, length, ◌>>=◌, if◌then◌else◌,
}
use kierki.SendJob.{SendJob, gen_msg}
use kierki.JobQueue.{JobQueue, has_kill_order}
use kierki.IoWorker.Draining.{drain_pending}
use kierki.IoWorkerHandler.{Handler, close_conn}
use kierki.IoWorker.Loop.{
  Links, after_send, send_loop, handle_queue, take_jobs, obey_kill, leave_or_arm, after_queue,
  after_socket, turn, ready, pipe_empty, handle_pipe, unless_done,
}
use kierki.IoWorker.Loop.Sending.{all_bytes, send_loop-first, handle_queue-open}

module _ {σ : Type 0} (links : Links σ) where
  -- The worker and the state behind the loop that takes the jobs over.
  abbrev pub taking : Handler → σ → Handler
  taking h st = record h { pending_outgoing = h.pending_outgoing ++ (links.queue st).jobs_pending }

  abbrev pub emptied : σ → σ
  emptied st = links.put_queue (record (links.queue st) { jobs_pending = [] }) st

  abbrev pub flushed : Handler → σ → Handler × σ
  flushed h st = handle_queue links (taking h st) (emptied st)

  take_jobs-all : (h : Handler) (st : σ) → take_jobs links h st ≡ some (taking h st, emptied st)
  unfolding take_jobs
  take_jobs-all h st =
      let q = links.queue st in
      rw
        (drain_pending q.jobs_pending q.kill_flag (suc (length q.jobs_pending)) h.pending_outgoing
          (omega arith))
        refl

  obey_kill-flushed :
      (h : Handler) (st : σ)
      → has_kill_order (links.queue st) ≡ true
      → obey_kill links h st ≡ some (close_conn (flushed h st).0, (flushed h st).1)
  unfolding obey_kill
  obey_kill-flushed h st e = rw (e, take_jobs-all h st) refl

  after_socket-flushed :
      (h : Handler) (st : σ)
      → (flushed h st).0.terminate ≡ false
      → has_kill_order (links.queue (flushed h st).1) ≡ true
      → after_socket links h st
        ≡ leave_or_arm links
            (close_conn (flushed (flushed h st).0 (flushed h st).1).0)
            (flushed (flushed h st).0 (flushed h st).1).1
  unfolding after_socket after_queue
  after_socket-flushed h st runs kill =
      let p = flushed h st in
      ap
        (λ x. x >>= λ r.
          unless_done links (after_queue links) (handle_queue links r.0 r.1).0
            (handle_queue links r.0 r.1).1)
        (take_jobs-all h st)
      ∙ ap (λ b. if b then some p else after_queue links p.0 p.1) runs
      ∙ ap (λ x. x >>= λ r. leave_or_arm links r.0 r.1) (obey_kill-flushed p.0 p.1 kill)

  turn-silent :
      (h0 : Handler) (st : σ)
      → h0.terminate ≡ false
      → links.socket_action (record h0 { next_timeout = none }) st
        ≡ some (record h0 { next_timeout = none }, st)
      → turn links ready pipe_empty h0 st
        ≡ after_socket links (record h0 { next_timeout = none }) st
  unfolding turn handle_pipe
  turn-silent h0 st runs silent =
      let h = record h0 { next_timeout = none } in
      ap
        (λ b.
          if b
          then some (h, st)
          else (links.socket_action h st >>= λ r. unless_done links (after_socket links) r.0 r.1))
        runs
      ∙ ap (λ x. x >>= λ r. unless_done links (after_socket links) r.0 r.1) silent
      ∙ ap (λ b. if b then some (h, st) else after_socket links h st) runs

  -- The mutex is given at once, each message is sent as a whole on the open socket, the
  -- peer gets it, and nobody else
  -- writes to the queue.
  pub record IsQuiet (wire : σ → Bytes) : Type 0 where
    pub granted : (st : σ) → links.exec_cb st ≡ (st, true)
    pub sends : (msg : Bytes) (st : σ) → (links.send false msg st).1 ≡ true
    pub on_wire : (msg : Bytes) (st : σ) → wire (links.send false msg st).0 ≡ wire st ++ msg
    pub same_queue :
        (msg : Bytes) (st : σ) → links.queue (links.send false msg st).0 ≡ links.queue st
    pub put_get : (q : JobQueue) (st : σ) → links.queue (links.put_queue q st) ≡ q
    pub put_wire : (q : JobQueue) (st : σ) → wire (links.put_queue q st) ≡ wire st

  -- All messages went out and nothing else of the worker's end has changed.
  pub record Flushed (wire : σ → Bytes) (jobs : List SendJob) (h : Handler) (st : σ) (h' : Handler)
      (st' : σ) : Type 0 where
    pub none_left : h'.pending_outgoing ≡ []
    pub all_written : wire st' ≡ wire st ++ all_bytes jobs
    pub queue_kept : links.queue st' ≡ links.queue st
    pub still_open : h'.closed_fd ≡ h.closed_fd
    pub still_runs : h'.terminate ≡ h.terminate
    pub lines_kept : h'.pending_incoming ≡ h.pending_incoming

  -- The worker and the state behind a message that was sent.
  abbrev sent_state : SendJob → σ → σ
  sent_state job st = (links.send false (gen_msg job) st).0

  abbrev sent_worker : SendJob → List SendJob → Handler → σ → Handler
  sent_worker job rest h st =
      after_send links true (record h { pending_outgoing = rest }) (sent_state job st)

  module _ (wire : σ → Bytes) (w : IsQuiet wire) where
    send_loop-sent :
        (job : SendJob) (rest : List SendJob) (h : Handler) (st : σ)
        → h.closed_fd ≡ false
        → send_loop links (job ∷ rest) h st
          ≡ send_loop links rest (sent_worker job rest h st) (sent_state job st)
    send_loop-sent job rest h st open_fd =
        let g = record h { pending_outgoing = rest } in
        let step : Bool → σ → Handler × σ = λ c s.
          let r = links.send c (gen_msg job) s in
          send_loop links rest (after_send links r.1 g r.0) r.0 in
        let t = sent_state job st in
        send_loop-first links job rest h st (ap (λ p. p.1) (w.granted st))
        ∙ ap (λ p. step h.closed_fd p.0) (w.granted st)
        ∙ ap (λ c. step c st) open_fd
        ∙ ap (λ b. send_loop links rest (after_send links b g t) t) (w.sends (gen_msg job) st)

    send_loop-Flushed :
        (jobs : List SendJob) (h : Handler) (st : σ)
        → h.pending_outgoing ≡ jobs
        → h.closed_fd ≡ false
        → Flushed wire jobs h st (send_loop links jobs h st).0 (send_loop links jobs h st).1
    unfolding send_loop after_send
    send_loop-Flushed [] h st e open_fd = record {
      none_left = e;
      all_written = sym (append-nil (wire st));
      queue_kept = refl;
      still_open = refl;
      still_runs = refl;
      lines_kept = refl;
    }
    send_loop-Flushed (job ∷ rest) h st e open_fd = rw (send_loop-sent job rest h st open_fd) (
        one_more
          (send_loop-Flushed rest (sent_worker job rest h st) (sent_state job st) refl open_fd))
      where
        one_more :
            {h' : Handler} {st' : σ}
            → Flushed wire rest (sent_worker job rest h st) (sent_state job st) h' st'
            → Flushed wire (job ∷ rest) h st h' st'
        one_more f = record {
          none_left = f.none_left;
          all_written =
              f.all_written
              ∙ ap (λ b. b ++ all_bytes rest) (w.on_wire (gen_msg job) st)
              ∙ append_assoc (wire st) (gen_msg job) (all_bytes rest);
          queue_kept = f.queue_kept ∙ w.same_queue (gen_msg job) st;
          still_open = f.still_open;
          still_runs = f.still_runs;
          lines_kept = f.lines_kept;
        }

    flushed-Flushed :
        (h : Handler) (st : σ)
        → h.closed_fd ≡ false
        → Flushed wire
            (taking h st).pending_outgoing
            (taking h st)
            (emptied st)
            (flushed h st).0
            (flushed h st).1
    flushed-Flushed h st e =
        rw (handle_queue-open links (taking h st) (emptied st) e)
          (send_loop-Flushed (taking h st).pending_outgoing (taking h st) (emptied st) refl e)

    -- When nothing disturbs a worker whose queue has the order to end, a turn without news from the
    -- socket writes the messages that were left and then those of the queue to the peer, in this
    -- order, leaves none behind, closes the connection, and comes to the question whether to leave.
    pub turn-killed :
        (h : Handler) (st : σ)
        → h.closed_fd ≡ false
        → h.terminate ≡ false
        → has_kill_order (links.queue st) ≡ true
        → links.socket_action (record h { next_timeout = none }) st
          ≡ some (record h { next_timeout = none }, st)
        → (h' : Handler) × (st' : σ) × (turn links ready pipe_empty h st
            ≡ leave_or_arm links h' st')
          × (h'.pending_outgoing ≡ [])
          × (h'.closed_fd ≡ true)
          × (h'.want_to_quit ≡ true)
          × (wire st' ≡ wire st ++ all_bytes (h.pending_outgoing ++ (links.queue st).jobs_pending))
    unfolding has_kill_order close_conn
    turn-killed h0 st open_fd runs kill silent =
        let h = record h0 { next_timeout = none } in
        let p = flushed h st in
        let f = flushed-Flushed h st open_fd in
        let r = flushed p.0 p.1 in
        let g = flushed-Flushed p.0 p.1 (f.still_open ∙ open_fd) in
        let same_q = f.queue_kept ∙ w.put_get (record (links.queue st) { jobs_pending = [] }) st in
        let none_more : (taking p.0 p.1).pending_outgoing ≡ [] =
          ap (λ js. js ++ (links.queue p.1).jobs_pending) f.none_left
          ∙ ap (λ q. q.jobs_pending) same_q in
        let kill1 : has_kill_order (links.queue p.1) ≡ true = ap (λ q. q.kill_flag) same_q ∙ kill in
        (
          close_conn r.0,
          r.1,
          turn-silent h0 st runs silent ∙ after_socket-flushed h st (f.still_runs ∙ runs) kill1,
          g.none_left,
          refl,
          refl,
          g.all_written
              ∙ ap (λ js. wire (emptied p.1) ++ all_bytes js) none_more
              ∙ append-nil (wire (emptied p.1))
              ∙ w.put_wire (record (links.queue p.1) { jobs_pending = [] }) p.1
              ∙ f.all_written
              ∙ ap (λ b. b ++ all_bytes (taking h st).pending_outgoing)
                  (w.put_wire (record (links.queue st) { jobs_pending = [] }) st),
        )
