-- ===== src/Examples/Workers.antt =====
-- The loop of a worker on a small network.
use kierki.Prelude.{Bool, true, false, List, [], ◌∷◌, ◌++◌, none, some, Bytes, ◌≡◌, refl}
use kierki.Types.{io_err_external}
use kierki.SendJob.{wrong, gen_msg}
use kierki.JobQueue.{JobQueue, has_kill_order}
use kierki.IoWorkerHandler.{Handler}
use kierki.IoWorker.Loop.{
  Links, handle_queue, leave_or_arm, turn, ready, pipe_empty, send_loop, after_send,
}
use kierki.IoWorker.Loop.Sending.{all_bytes, Delivered, handle_queue-Delivered}
use kierki.IoWorker.Loop.Failing.{AllTried, HasEnded, handle_queue-AllTried}
use kierki.IoWorker.Loop.Kill.{IsQuiet, turn-killed}

-- The queue of the worker, the messages handed to `send`, and those that the peer
-- got.
record Net : Type 0 where
  jobs : JobQueue
  tried : List (Bool × Bytes)
  wire : Bytes

abbrev waiting : Handler
waiting = record {
  next_incoming = [];
  pending_incoming = [];
  pending_outgoing = wrong 2 ∷ [];
  errs = [];
  next_timeout = some 5000;
  response_timeout = none;
  want_to_quit = false;
  terminate = false;
  closed_fd = false;
  peer_corrupted = false;
}

abbrev always_open : Links Net
always_open = record {
  exit_cb = λ errs work st. some (st, true);
  timeout_cb = λ st. some st;
  exec_cb = λ st. (st, true);
  socket_action = λ h st. some (h, st);
  send = λ closed msg st.
      (record st { tried = st.tried ++ (closed, msg) ∷ []; wire = st.wire ++ msg }, true);
  queue = λ st. st.jobs;
  put_queue = λ q st. record st { jobs = q };
  now = λ st. 0;
  timeout = 5;
  main_sock_err = io_err_external;
}

-- No message goes out.
abbrev never_open : Links Net
never_open = record always_open {
  send = λ closed msg st. (record st { tried = st.tried ++ (closed, msg) ∷ [] }, false);
}

abbrev told_to_die : Net
told_to_die = record {
  jobs = record { jobs_pending = wrong 3 ∷ wrong 4 ∷ []; kill_flag = true };
  tried = [];
  wire = [];
}

handle_queue-Delivered_example :
    Delivered always_open
      (λ st. st.wire)
      (wrong 2 ∷ [])
      told_to_die
      (handle_queue always_open waiting told_to_die).0
      (handle_queue always_open waiting told_to_die).1
unfolding handle_queue send_loop after_send
handle_queue-Delivered_example =
    handle_queue-Delivered always_open (λ st. st.wire)
      (record { wire_exec = λ st. refl; wire_send = λ msg st e. refl }) waiting told_to_die refl

handle_queue-AllTried_example :
    AllTried never_open
      (λ st. st.tried)
      ((false, gen_msg (wrong 2)) ∷ (true, gen_msg (wrong 5)) ∷ [])
      told_to_die
      (handle_queue never_open
        (record waiting { pending_outgoing = wrong 2 ∷ wrong 5 ∷ [] })
        told_to_die).0
      (handle_queue never_open
        (record waiting { pending_outgoing = wrong 2 ∷ wrong 5 ∷ [] })
        told_to_die).1
    × HasEnded never_open
        (handle_queue never_open
          (record waiting { pending_outgoing = wrong 2 ∷ wrong 5 ∷ [] })
          told_to_die).0
handle_queue-AllTried_example =
    handle_queue-AllTried never_open (λ st. st.tried) (wrong 2) (wrong 5 ∷ [])
      (record waiting { pending_outgoing = wrong 2 ∷ wrong 5 ∷ [] }) told_to_die
      (record { granted = λ st. refl; tried_exec = λ st. refl; tried_send = λ closed msg st. refl })
      refl refl refl

always_open-IsQuiet : IsQuiet always_open (λ st. st.wire)
always_open-IsQuiet = record {
  granted = λ st. refl;
  sends = λ msg st. refl;
  on_wire = λ msg st. refl;
  same_queue = λ msg st. refl;
  put_get = λ q st. refl;
  put_wire = λ q st. refl;
}

turn-killed_example :
    (h' : Handler) × (st' : Net) × (turn always_open ready pipe_empty waiting told_to_die
      ≡ leave_or_arm always_open h' st')
    × (h'.pending_outgoing ≡ [])
    × (h'.closed_fd ≡ true)
    × (h'.want_to_quit ≡ true)
    × (st'.wire ≡ all_bytes (wrong 2 ∷ wrong 3 ∷ wrong 4 ∷ []))
unfolding has_kill_order
turn-killed_example =
    turn-killed always_open (λ st. st.wire) always_open-IsQuiet waiting told_to_die refl refl refl
      refl
