-- ===== src/IoWorker/Loop/Sending.antt =====
-- What `handleQueue` hands to the socket.
use kierki.Prelude.{
  if◌then◌else◌, Bool, true, false, List, [], ◌∷◌, ◌++◌, append_assoc, append-nil, Bytes, ◌≡◌, refl,
  arith, sym, ap, ◌∙◌, inl, inr, Bool-cases,
}
use kierki.SendJob.{SendJob, gen_msg}
use kierki.IoWorkerHandler.{Handler}
use kierki.IoWorker.Loop.{Links, after_send, send_loop, handle_queue}

-- The bytes of some messages, in their order.
abbrev pub all_bytes : List SendJob → Bytes
all_bytes [] = []
all_bytes (job ∷ jobs) = gen_msg job ++ all_bytes jobs

module _ {σ : Type 0} (links : Links σ) where
  -- The bytes that the peer gets: a message that `send` took as a whole, on the open socket, is
  -- behind those before, and
  -- nothing else writes to this socket.
  pub record IsWire (wire : σ → Bytes) : Type 0 where
    pub wire_exec : (st : σ) → wire (links.exec_cb st).0 ≡ wire st
    pub wire_send :
        (msg : Bytes) (st : σ)
        → (links.send false msg st).1 ≡ true
        → wire (links.send false msg st).0 ≡ wire st ++ msg

  -- What has been passed on from a list of messages, and what is left.
  pub record Delivered (wire : σ → Bytes) (jobs : List SendJob) (st : σ) (h : Handler) (st' : σ)
      : Type 0 where
    pub done : List SendJob
    pub split : jobs ≡ done ++ h.pending_outgoing
    pub written : wire st' ≡ wire st ++ all_bytes done

  -- The worker behind the message in front, and the state that `send` leaves.
  abbrev pub sent_first : SendJob → List SendJob → Handler → σ → Handler × σ
  sent_first job rest h st =
      let r = links.send h.closed_fd (gen_msg job) (links.exec_cb st).0 in
      (after_send links r.1 (record h { pending_outgoing = rest }) r.0, r.0)

  pub send_loop-blocked :
      (job : SendJob) (rest : List SendJob) (h : Handler) (st : σ)
      → (links.exec_cb st).1 ≡ false
      → send_loop links (job ∷ rest) h st ≡ (h, (links.exec_cb st).0)
  unfolding send_loop
  send_loop-blocked job rest h st e = rw (send_loop, e) refl

  pub send_loop-first :
      (job : SendJob) (rest : List SendJob) (h : Handler) (st : σ)
      → (links.exec_cb st).1 ≡ true
      → send_loop links (job ∷ rest) h st
        ≡ send_loop links rest (sent_first job rest h st).0 (sent_first job rest h st).1
  unfolding send_loop
  send_loop-first job rest h st e = rw (send_loop, e) refl

  -- A worker that ends stays at its end.
  send_loop-terminate :
      (jobs : List SendJob) (h : Handler) (st : σ)
      → h.terminate ≡ true
      → (send_loop links jobs h st).0.terminate ≡ true
  unfolding send_loop after_send
  send_loop-terminate [] h st e = e
  send_loop-terminate (job ∷ rest) h st e = elim (Bool-cases (links.exec_cb st).1) [
    | inr f ↦ rw (send_loop-blocked job rest h st f) e
    | inl f ↦
        let r = links.send h.closed_fd (gen_msg job) (links.exec_cb st).0 in
        rw (send_loop-first job rest h st f)
          (send_loop-terminate rest _ r.0 (ended r.1 (record h { pending_outgoing = rest }) r.0 e))
  ]
    where
      ended :
          (sent : Bool) (g : Handler) (s : σ)
          → g.terminate ≡ true
          → (after_send links sent g s).terminate ≡ true
      ended true g s e = e
      ended false g s e = refl

  pub handle_queue-closed :
      (h : Handler) (st : σ) → h.closed_fd ≡ true → handle_queue links h st ≡ (h, st)
  unfolding handle_queue
  handle_queue-closed h st e =
      ap (λ b. if b then (h, st) else send_loop links h.pending_outgoing h st) e

  pub handle_queue-open :
      (h : Handler) (st : σ)
      → h.closed_fd ≡ false
      → handle_queue links h st ≡ send_loop links h.pending_outgoing h st
  unfolding handle_queue
  handle_queue-open h st e =
      ap (λ b. if b then (h, st) else send_loop links h.pending_outgoing h st) e

  pub kept_pending :
      (sent : Bool) (g : Handler) (s : σ)
      → (after_send links sent g s).pending_outgoing ≡ g.pending_outgoing
  unfolding after_send
  kept_pending true g s = refl
  kept_pending false g s = refl

  stays_open :
      (sent : Bool) (g : Handler) (s : σ)
      → sent ≡ true
      → g.closed_fd ≡ false
      → (after_send links sent g s).closed_fd ≡ false
  unfolding after_send
  stays_open true g s e o = o
  stays_open false g s e o = absurd (ground arith)

  sent_if_alive :
      (sent : Bool) (g : Handler) (s : σ) (rest : List SendJob)
      → (send_loop links rest (after_send links sent g s) s).0.terminate ≡ false
      → sent ≡ true
  unfolding after_send
  sent_if_alive true g s rest alive = refl
  sent_if_alive false g s rest alive =
      let ended = send_loop-terminate rest (after_send links false g s) s refl in cc

  module _ (wire : σ → Bytes) (w : IsWire wire) where
    wire_open :
        (closed : Bool) (msg : Bytes) (st : σ)
        → closed ≡ false
        → (links.send closed msg st).1 ≡ true
        → wire (links.send closed msg st).0 ≡ wire st ++ msg
    wire_open true msg st o e = absurd (ground arith)
    wire_open false msg st o e = w.wire_send msg st e

    behind_first :
        (job : SendJob) (rest : List SendJob) (st s : σ) (h : Handler) (st' : σ)
        → wire s ≡ wire st ++ gen_msg job
        → Delivered wire rest s h st'
        → Delivered wire (job ∷ rest) st h st'
    behind_first job rest st s h st' e d = record {
      done = job ∷ d.done;
      split = ap (λ js. job ∷ js) d.split;
      written =
          d.written
          ∙ ap (λ b. b ++ all_bytes d.done) e
          ∙ append_assoc (wire st) (gen_msg job) (all_bytes d.done);
    }

    send_loop-Delivered :
        (jobs : List SendJob) (h : Handler) (st : σ)
        → h.pending_outgoing ≡ jobs
        → h.closed_fd ≡ false
        → (send_loop links jobs h st).0.terminate ≡ false
        → Delivered wire jobs st (send_loop links jobs h st).0 (send_loop links jobs h st).1
    unfolding send_loop after_send
    send_loop-Delivered [] h st e open_fd alive = record {
      done = [];
      split = sym e;
      written = sym (append-nil (wire st));
    }
    send_loop-Delivered (job ∷ rest) h st e open_fd alive = elim (Bool-cases (links.exec_cb st).1) [
      | inr f ↦ rw (send_loop-blocked job rest h st f) (record {
        done = [];
        split = sym e;
        written = w.wire_exec st ∙ sym (append-nil (wire st));
      })
      | inl f ↦
          let s0 = (links.exec_cb st).0 in
          let r = links.send h.closed_fd (gen_msg job) s0 in
          let g = record h { pending_outgoing = rest } in
          let alive1 = sym (ap (λ p. p.0.terminate) (send_loop-first job rest h st f)) ∙ alive in
          let sent = sent_if_alive r.1 g r.0 rest alive1 in
          let on_wire =
            wire_open h.closed_fd (gen_msg job) s0 open_fd sent
            ∙ ap (λ b. b ++ gen_msg job) (w.wire_exec st) in
          rw (send_loop-first job rest h st f) (
            behind_first job rest st r.0 _ _ on_wire (
              send_loop-Delivered rest (sent_first job rest h st).0 r.0 (kept_pending r.1 g r.0)
                (stays_open r.1 g r.0 sent open_fd) alive1))
    ]

    -- A worker that still runs behind `handleQueue` has handed messages from the front of its queue
    -- to the peer, each as a whole and in their order, and keeps those that are left in their order.
    pub handle_queue-Delivered :
        (h : Handler) (st : σ)
        → (handle_queue links h st).0.terminate ≡ false
        → Delivered wire h.pending_outgoing st
            (handle_queue links h st).0
            (handle_queue links h st).1
    handle_queue-Delivered h st alive = elim (Bool-cases h.closed_fd) [
      | inl e ↦
          rw (handle_queue-closed h st e)
            (record { done = []; split = refl; written = sym (append-nil (wire st)) })
      | inr e ↦
          let f = handle_queue-open h st e in
          rw f (
            send_loop-Delivered h.pending_outgoing h st refl e
              (sym (ap (λ p. p.0.terminate) f) ∙ alive))
    ]
