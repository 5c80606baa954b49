-- ===== src/Server/Seating/Twice.antt =====
-- A client that introduces itself a second time while the game runs.
use kierki.JobQueue.{JobQueue, set_kill_order}
use kierki.Prelude.{
  List, ==_self, Bool-cases, inl, inr, ℕ, true, false, [], some, ◌≡◌, refl, arith, ◌∙◌, lookup,
  insert, lookup-insert, has_of_lookup,
}
use kierki.Types.{Side}
use kierki.IoWorkerMgr
use kierki.IoWorkerMgr.{
  IoWorkerMgr, serving_active, cleanup, shutdown, signal, to_be_erased, erase_worker,
}
use kierki.Server.{Server}
use kierki.Server.Players.{
  player_intro, intro_again, grand_exit_callback, handle_errs, exit_as, shut,
}

-- The manager with the worker told to die and its role changed.
abbrev retired : ℕ → JobQueue → IoWorkerMgr → IoWorkerMgr
retired ix q m =
    let n = signal ix (record m { workers = insert ix (set_kill_order q) m.workers }) in
    record n { roles = insert ix cleanup n.roles }

player_intro-retired :
    (order : List Side) (side : Side) (ix : ℕ) (q : JobQueue) (st : Server)
    → st.players_connected ≡ 4
    → lookup ix st.worker_mgr.roles ≡ some serving_active
    → lookup ix st.worker_mgr.workers ≡ some q
    → player_intro order side ix st
      ≡ some (record st { worker_mgr = retired ix q st.worker_mgr }, true)
unfolding player_intro intro_again IoWorkerMgr.get_role IoWorkerMgr.set_role IoWorkerMgr.send_kill
    signal
player_intro-retired order side ix q st full active there =
    let present = has_of_lookup ix st.worker_mgr.roles active in
    rw (active, full, there, present) refl

retired-role :
    (ix : ℕ) (q : JobQueue) (m : IoWorkerMgr) → lookup ix (retired ix q m).roles ≡ some cleanup
unfolding signal
retired-role ix q m = lookup-insert ix ix cleanup m.roles ∙ (rw (==_self ix) refl)

to_be_erased-erase_worker :
    (ix : ℕ) (m : IoWorkerMgr) → to_be_erased ix (IoWorkerMgr.erase_worker ix m) ≡ true
unfolding IoWorkerMgr.erase_worker
to_be_erased-erase_worker ix m = elim (Bool-cases (to_be_erased ix m)) [
  | inl e ↦ rw (e, e) refl
  | inr e ↦ rw (e, ==_self ix) refl
]

erased_role : (ix : ℕ) (m : IoWorkerMgr) → (IoWorkerMgr.erase_worker ix m).roles ≡ m.roles
unfolding IoWorkerMgr.erase_worker
erased_role ix m = ground arith

-- The worker's exit, seen from the server.
abbrev exited : ℕ → Server → Server
exited ix t = record t {
  worker_mgr = record (IoWorkerMgr.erase_worker ix t.worker_mgr) {
    roles = insert ix shutdown t.worker_mgr.roles;
  };
}

grand_exit_callback-cleanup :
    (ix : ℕ) (t : Server)
    → t.players_connected ≡ 4
    → lookup ix t.worker_mgr.roles ≡ some cleanup
    → grand_exit_callback [] ix false t ≡ some (exited ix t, true)
unfolding grand_exit_callback handle_errs exit_as shut IoWorkerMgr.get_role IoWorkerMgr.set_role
grand_exit_callback-cleanup ix t full role =
    rw (role, full, erased_role ix t.worker_mgr, has_of_lookup ix t.worker_mgr.roles role) refl

to_be_erased-exited : (ix : ℕ) (t : Server) → to_be_erased ix (exited ix t).worker_mgr ≡ true
to_be_erased-exited ix t = to_be_erased-erase_worker ix t.worker_mgr

-- A player of a full table that introduces itself again is taken off the game, and its worker is
-- told to die; but when that worker exits, with no errors and no work left, the seat still names it
-- and all four players are still counted, although the worker is to be erased.
pub player_intro-twice :
    (order : List Side) (side : Side) (ix : ℕ) (q : JobQueue) (st : Server)
    → st.players_connected ≡ 4
    → lookup ix st.worker_mgr.roles ≡ some serving_active
    → lookup ix st.worker_mgr.workers ≡ some q
    → (t : Server) × (player_intro order side ix st ≡ some (t, true))
      × (lookup ix t.worker_mgr.workers ≡ some (set_kill_order q))
      × (u : Server) × (grand_exit_callback [] ix false t ≡ some (u, true))
      × (u.active_sides ≡ st.active_sides)
      × (u.players_connected ≡ 4)
      × (IoWorkerMgr.to_be_erased ix u.worker_mgr ≡ true)
unfolding signal
player_intro-twice order side ix q st full active there =
    let m = retired ix q st.worker_mgr in
    let t = record st { worker_mgr = m } in
    let killed =
      lookup-insert ix ix (set_kill_order q) st.worker_mgr.workers ∙ (rw (==_self ix) refl) in
    (
      t,
      player_intro-retired order side ix q st full active there,
      killed,
      exited ix t,
      grand_exit_callback-cleanup ix t full (retired-role ix q st.worker_mgr),
      refl,
      full,
      to_be_erased-exited ix t,
    )
