-- ===== src/Server/Seating/Exits.antt =====
-- Exits and new connections keep seats and workers together.
use kierki.Prelude.{
  ℕ, suc, ◌<◌, Bool, true, false, not, ◌||◌, ◌&&◌, List, [], ◌∷◌, some, ◌≡◌, refl, sym, ◌∙◌, arith,
  ◌==◌, ltb, Map, lookup, emplace, has, has-insert, lookup-insert, has_of_lookup, Bool-cases, inl,
  inr, Returns, Returns-mono, Returns-elim, Returns-if, Returns-bind,
}
use kierki.Types.{Side, IoErrClass, io_err_silent, io_err_internal, io_err_external}
use kierki.IoWorkerMgr
use kierki.IoWorkerMgr.{
  IoWorkerMgr, WorkerStatus, serving_unknown, serving_active, serving_proxy, cleanup,
  cleanup_unknown, shutdown, status_code,
}
use kierki.Server.{Server, with_mgr, finalize}
use kierki.Server.Players.{
  forward_connection, handle_sys_err, handle_errs, shut, leave_seat, exit_as, grand_exit_callback,
}
use kierki.Server.Seating.{IsSeated}
use kierki.Server.Seating.Keeping.{
  KeepsRoles, KeepsRoles-trans, set_role-KeepsRoles, erase_worker-KeepsRoles, KeepsSeats-refl,
  KeepsSeats-trans, with_mgr-KeepsSeats, finalize-KeepsSeats,
}
use kierki.Server.Seating.Moves.{KeepsAnswer, with_answer, KeepsSeats-after, set_role-KeepsSeats}
use kierki.Server.Seating.Comings.{vacated, vacated-IsSeated}
use kierki.Server.Seating.Handlers.{SeatedAnswer, kept, kept_answer, answered_with}

handle_sys_err-KeepsAnswer :
    (err : IoErrClass) (st : Server) → Returns (KeepsAnswer st) (handle_sys_err err st)
unfolding handle_sys_err
handle_sys_err-KeepsAnswer io_err_silent st = KeepsSeats-refl st
handle_sys_err-KeepsAnswer io_err_internal st =
    let t = record st { exit_code = 1 } in
    with_answer st (finalize t) true
      (KeepsSeats-after st t (finalize t) (refl, refl, refl, refl) (finalize-KeepsSeats t))
handle_sys_err-KeepsAnswer io_err_external st = KeepsSeats-refl st

handle_errs-KeepsAnswer :
    (errs : List IoErrClass) (st : Server) → Returns (KeepsAnswer st) (handle_errs errs st)
unfolding handle_errs
handle_errs-KeepsAnswer [] st = KeepsSeats-refl st
handle_errs-KeepsAnswer (err ∷ rest) st =
    Returns-bind (KeepsAnswer st) (handle_sys_err err st) _ (λ r e.
      let first =
        Returns-elim (KeepsAnswer st) (handle_sys_err err st) e
          (handle_sys_err-KeepsAnswer err st) in
      Returns-if (KeepsAnswer st) r.1 (some (r.0, true)) (handle_errs rest r.0) (λ f. first)
        (λ f.
          Returns-mono (KeepsAnswer r.0) (KeepsAnswer st) (handle_errs rest r.0)
            (λ u q. KeepsSeats-trans first q) (handle_errs-KeepsAnswer rest r.0)))

shut-KeepsAnswer : (ix : ℕ) (st : Server) → Returns (KeepsAnswer st) (shut ix st)
unfolding shut
shut-KeepsAnswer ix st =
    let m = IoWorkerMgr.erase_worker ix st.worker_mgr in
    with_answer st _ true (
      with_mgr-KeepsSeats (λ n. IoWorkerMgr.set_role ix shutdown (IoWorkerMgr.erase_worker ix n)) st
        (Returns-mono (KeepsRoles m) (KeepsRoles st.worker_mgr) (IoWorkerMgr.set_role ix shutdown m)
          (λ n k. KeepsRoles-trans (erase_worker-KeepsRoles ix st.worker_mgr) k)
          (set_role-KeepsRoles ix shutdown m refl)))

leave_seat-IsSeated :
    (ix : ℕ) (s : Side) (has_work : Bool) (st : Server)
    → IsSeated st
    → lookup ix st.worker_to_side ≡ some s
    → Returns SeatedAnswer (leave_seat ix s has_work st)
unfolding leave_seat
leave_seat-IsSeated ix s has_work st v there =
    let t = vacated s ix st in
    kept_answer t _ (vacated-IsSeated s ix st v there) (
      Returns-if (KeepsAnswer t) (has_work || (ltb t.players_connected 3 && not t.exiting)) _
        (shut ix t)
        (λ e.
          with_answer t (with_mgr (IoWorkerMgr.set_role ix cleanup) t) false
            (set_role-KeepsSeats ix cleanup t refl))
        (λ e. shut-KeepsAnswer ix t))

exit_as-IsSeated :
    (role : WorkerStatus) (ix : ℕ) (has_work : Bool) (st : Server)
    → IsSeated st
    → Returns SeatedAnswer (exit_as role ix has_work st)
unfolding exit_as
exit_as-IsSeated serving_unknown ix has_work st v =
    kept_answer st (shut ix st) v (shut-KeepsAnswer ix st)
exit_as-IsSeated serving_active ix has_work st v =
    Returns-bind SeatedAnswer (lookup ix st.worker_to_side) _
      (λ s e. leave_seat-IsSeated ix s has_work st v e)
exit_as-IsSeated serving_proxy ix has_work st v = Returns-bind SeatedAnswer (shut ix st) _ (λ r e.
    let w =
      Returns-elim SeatedAnswer (shut ix st) e
        (kept_answer st (shut ix st) v (shut-KeepsAnswer ix st)) in
    answered_with (finalize r.0) true (kept r.0 (finalize r.0) w (finalize-KeepsSeats r.0)))
exit_as-IsSeated cleanup ix has_work st v =
    Returns-if SeatedAnswer (st.players_connected == 4 && not has_work) (shut ix st)
      (some (st, false)) (λ e. kept_answer st (shut ix st) v (shut-KeepsAnswer ix st)) (λ e. v)
exit_as-IsSeated cleanup_unknown ix has_work st v =
    Returns-if SeatedAnswer (st.players_connected == 4 && not has_work) (shut ix st)
      (some (st, false)) (λ e. kept_answer st (shut ix st) v (shut-KeepsAnswer ix st)) (λ e. v)
exit_as-IsSeated shutdown ix has_work st v = v

pub grand_exit_callback-IsSeated :
    (errs : List IoErrClass) (ix : ℕ) (has_work : Bool) (st : Server)
    → IsSeated st
    → Returns SeatedAnswer (grand_exit_callback errs ix has_work st)
unfolding grand_exit_callback IoWorkerMgr.get_role
grand_exit_callback-IsSeated errs ix has_work st v =
    Returns-bind SeatedAnswer (handle_errs errs st) _ (λ r e.
      let w =
        Returns-elim SeatedAnswer (handle_errs errs st) e
          (kept_answer st (handle_errs errs st) v (handle_errs-KeepsAnswer errs st)) in
      Returns-if SeatedAnswer r.1 (some (r.0, true)) _ (λ f. w)
        (λ f.
          Returns-bind SeatedAnswer (lookup ix r.0.worker_mgr.roles) _
            (λ role g. exit_as-IsSeated role ix has_work r.0 w)))

other_of : (n j : ℕ) → j < n → (n == j) ≡ false
other_of n j h = ground arith

below_suc :
    (ix next : ℕ) (roles : Map WorkerStatus)
    → ((j : ℕ) → has j roles ≡ true → j < next)
    → (next == ix || has ix roles) ≡ true
    → ix < suc next
below_suc ix next roles numbered h = elim (Bool-cases (has ix roles)) [
  | inl e ↦ omega (arith, numbered ix e)
  | inr e ↦ ground arith
]

-- A new worker has no seat, whatever its role is.
pub spawned-IsSeated :
    (role : WorkerStatus) (st : Server)
    → IsSeated st
    → IsSeated (record st { worker_mgr = (IoWorkerMgr.spawn_new_worker role st.worker_mgr).0 })
unfolding IoWorkerMgr.spawn_new_worker emplace
spawned-IsSeated role st v =
    let next = st.worker_mgr.next_ix in
    let roles = st.worker_mgr.roles in
    let fresh : has next roles ≡ false = elim (Bool-cases (has next roles)) [
      | inl h ↦ absurd (omega (arith, v.numbered next h))
      | inr h ↦ h
    ] in
    let other : (j : ℕ) → has j roles ≡ true → (next == j) ≡ false =
      λ j h. other_of next j (v.numbered j h) in
    rw fresh (record {
      seat_worker = v.seat_worker;
      worker_seat = λ ix s e.
          let (seat, taken, active) = v.worker_seat ix s e in
          let (r, there, known) = active in
          (
            seat,
            taken,
            (
              r,
              lookup-insert next ix role roles
                  ∙ (rw (other ix (has_of_lookup ix roles there)) there),
              known,
            ),
          );
      counted = v.counted;
      numbered =
          λ ix h. below_suc ix next roles v.numbered (sym (has-insert next ix role roles) ∙ h);
    })

pub forward_connection-IsSeated : (st : Server) → IsSeated st → IsSeated (forward_connection st).0
unfolding forward_connection
forward_connection-IsSeated st v = spawned-IsSeated serving_unknown st v
