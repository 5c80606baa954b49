-- ===== src/IoWorker/Loop/Failing.antt =====
-- What `handleQueue` does when a message cannot be sent.
use kierki.Prelude.{
  Bool, true, false, List, [], ◌∷◌, ◌++◌, append_assoc, append-nil, Bytes, ◌≡◌, refl, sym, ap, ◌∙◌,
  arith, map,
}
use kierki.SendJob.{SendJob, gen_msg}
use kierki.IoWorkerHandler.{Handler, close_conn}
use kierki.IoWorker.Loop.{Links, after_send, send_loop, handle_queue}
use kierki.IoWorker.Loop.Sending.{sent_first, send_loop-first, handle_queue-open, kept_pending}

module _ {σ : Type 0} (links : Links σ) where
  -- The calls of `sendNoBlockN`, each with whether the socket was closed before it, and with the
  -- message, whatever the call answered; and the mutex is always given.
  pub record IsTried (tried : σ → List (Bool × Bytes)) : Type 0 where
    pub granted : (st : σ) → (links.exec_cb st).1 ≡ true
    pub tried_exec : (st : σ) → tried (links.exec_cb st).0 ≡ tried st
    pub tried_send :
        (closed : Bool) (msg : Bytes) (st : σ)
        → tried (links.send closed msg st).0 ≡ tried st ++ (closed, msg) ∷ []

  -- No message is kept, and these are the calls that were made.
  pub record AllTried (tried : σ → List (Bool × Bytes)) (calls : List (Bool × Bytes)) (st : σ)
      (h : Handler) (st' : σ) : Type 0 where
    pub none_kept : h.pending_outgoing ≡ []
    pub all_tried : tried st' ≡ tried st ++ calls

  -- The calls for messages that are sent on a closed socket.
  abbrev pub on_closed : List SendJob → List (Bool × Bytes)
  on_closed jobs = map (λ j. (true, gen_msg j)) jobs

  abbrev pub HasEnded : Handler → Type 0
  HasEnded h = (h.closed_fd ≡ true) × (h.terminate ≡ true) × (h.want_to_quit ≡ true)

  after_send-HasEnded :
      (sent : Bool) (h : Handler) (st : σ) → HasEnded h → HasEnded (after_send links sent h st)
  unfolding after_send close_conn
  after_send-HasEnded true h st e = e
  after_send-HasEnded false h st e = (refl, refl, refl)

  after_send-failed :
      (sent : Bool) (h : Handler) (st : σ) → sent ≡ false → HasEnded (after_send links sent h st)
  unfolding after_send close_conn
  after_send-failed true h st e = absurd (ground arith)
  after_send-failed false h st e = (refl, refl, refl)

  module _ (tried : σ → List (Bool × Bytes)) (w : IsTried tried) where
    after_first :
        (job : SendJob) (rest : List SendJob) (h : Handler) (st : σ) (closed : Bool)
        → h.closed_fd ≡ closed
        → tried (sent_first links job rest h st).1 ≡ tried st ++ (closed, gen_msg job) ∷ []
    after_first job rest h st closed e =
        w.tried_send h.closed_fd (gen_msg job) (links.exec_cb st).0
        ∙ ap (λ ms. ms ++ (h.closed_fd, gen_msg job) ∷ []) (w.tried_exec st)
        ∙ ap (λ c. tried st ++ (c, gen_msg job) ∷ []) e

    -- One call, and then those of the rest of the loop.
    first_AllTried :
        (job : SendJob) (rest : List SendJob) (calls : List (Bool × Bytes)) (h : Handler) (st : σ)
        (closed : Bool)
        → h.closed_fd ≡ closed
        → (let r =
              send_loop links rest
                (sent_first links job rest h st).0
                (sent_first links job rest h st).1 in
            AllTried tried calls (sent_first links job rest h st).1 r.0 r.1 × HasEnded r.0)
        → (let r = send_loop links (job ∷ rest) h st in
            AllTried tried ((closed, gen_msg job) ∷ calls) st r.0 r.1 × HasEnded r.0)
    first_AllTried job rest calls h st closed e (more, ended) =
        rw (send_loop-first links job rest h st (w.granted st)) (
          record {
            none_kept = more.none_kept;
            all_tried =
                more.all_tried
                ∙ ap (λ ms. ms ++ calls) (after_first job rest h st closed e)
                ∙ append_assoc (tried st) ((closed, gen_msg job) ∷ []) calls;
          },
          ended,
        )

    send_loop-AllTried :
        (jobs : List SendJob) (h : Handler) (st : σ)
        → h.pending_outgoing ≡ jobs
        → HasEnded h
        → (let r = send_loop links jobs h st in
            AllTried tried (on_closed jobs) st r.0 r.1 × HasEnded r.0)
    unfolding send_loop
    send_loop-AllTried [] h st e ended =
        (record { none_kept = e; all_tried = sym (append-nil (tried st)) }, ended)
    send_loop-AllTried (job ∷ rest) h st e ended =
        let r = links.send h.closed_fd (gen_msg job) (links.exec_cb st).0 in
        let g = record h { pending_outgoing = rest } in
        first_AllTried job rest (on_closed rest) h st true ended.0 (
          send_loop-AllTried rest (sent_first links job rest h st).0 r.0
            (kept_pending links r.1 g r.0) (after_send-HasEnded r.1 g r.0 ended))

  -- When the first message of the queue is not sent and the mutex is always given, the connection is
  -- closed and the worker ends; but all the other messages are handed to `send` as well, each after
  -- the socket was closed, in their order, and none of them is kept.
  pub handle_queue-AllTried :
      (tried : σ → List (Bool × Bytes)) (job : SendJob) (rest : List SendJob) (h : Handler) (st : σ)
      → IsTried tried
      → h.pending_outgoing ≡ job ∷ rest
      → h.closed_fd ≡ false
      → (links.send false (gen_msg job) (links.exec_cb st).0).1 ≡ false
      → AllTried tried
          ((false, gen_msg job) ∷ on_closed rest)
          st
          (handle_queue links h st).0
          (handle_queue links h st).1
        × HasEnded (handle_queue links h st).0
  handle_queue-AllTried tried job rest h st w e open_fd failed =
      let s0 = (links.exec_cb st).0 in
      let r = links.send h.closed_fd (gen_msg job) s0 in
      let g = record h { pending_outgoing = rest } in
      let fails = ap (λ c. (links.send c (gen_msg job) s0).1) open_fd ∙ failed in
      rw (handle_queue-open links h st open_fd ∙ ap (λ jobs. send_loop links jobs h st) e) (
        first_AllTried tried w job rest (on_closed rest) h st false open_fd (
          send_loop-AllTried tried w rest (sent_first links job rest h st).0 r.0
            (kept_pending links r.1 g r.0) (after_send-failed r.1 g r.0 fails)))
