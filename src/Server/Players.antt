-- ===== src/Server/Players.antt =====
-- Players that come and go: `playerIntro`, `grandExitCallback` and the other callbacks.
use kierki.Prelude.{
  ℕ, suc, ◌-◌, Bool, true, false, not, ◌&&◌, ◌||◌, List, [], ◌∷◌, Option, none, some, ltb, ◌==◌,
  if◌then◌else◌, ◌>>=◌, lookup, insert, erase,
}
use kierki.Types.{
  IoErrClass, io_err_internal, Side, side_n, side_e, side_s, side_w, side_null, side_eq, hand_at,
  TableState, update,
}
use kierki.SendJob.{SendJob, busy, deal, trick}
use kierki.IoWorkerMgr
use kierki.IoWorkerMgr.{
  WorkerStatus, serving_unknown, serving_active, serving_proxy, cleanup, cleanup_unknown, shutdown,
  status_code,
}
use kierki.Server.{Server, with_mgr, send_to_side, finalize}
use kierki.Server.Round.{ask_next, deal_all}

-- `map.empty()` of a map whose keys are sides.
abbrev pub no_entry : TableState → List Side → Bool
no_entry m [] = true
no_entry m (s ∷ rest) = elim (m s) [ none ↦ no_entry m rest | some h ↦ false ]

abbrev pub deal_is_empty : TableState → Bool
deal_is_empty m = no_entry m (side_n ∷ side_e ∷ side_s ∷ side_w ∷ side_null ∷ [])

-- The messages of the round so far, to one worker.
unfoldable pub send_taken : List SendJob → ℕ → Server → Option Server
send_taken [] worker_ix st = some st
send_taken (msg ∷ rest) worker_ix st = do
  st' ← with_mgr (IoWorkerMgr.send_job msg worker_ix) st
  send_taken rest worker_ix st'

-- The game starts with the fourth player.
unfoldable pub start_game : Server → Option Server
unfolding ask_next deal_all
start_game st = do st1 ← deal_all (record st { last_deal = st.hands }); ask_next st1

unfoldable pub signal_roles : Server → Server
signal_roles st = record st {
  worker_mgr = IoWorkerMgr.signal_role serving_unknown (
      IoWorkerMgr.signal_role cleanup_unknown
        (IoWorkerMgr.signal_role serving_active st.worker_mgr));
}

-- A player joins a game that runs.
unfoldable pub rejoin_game : Side → ℕ → Server → Option Server
unfolding send_taken signal_roles ask_next
rejoin_game side worker_ix st = do
  st1 ← send_to_side (deal st.round_mode st.next_move (hand_at st.last_deal side)) side st
  st2 ← send_taken st1.taken_in_round worker_ix st1
  if st2.players_connected == 4 then ask_next (signal_roles st2) else some st2

-- The seat is free.
unfoldable pub seat_player : Side → ℕ → Server → Option Server
unfolding start_game rejoin_game
seat_player side worker_ix st = do
  st1 ← with_mgr (IoWorkerMgr.set_role worker_ix serving_active) (record st {
    active_sides = update st.active_sides side (some worker_ix);
    worker_to_side = insert worker_ix side st.worker_to_side;
  })
  let st2 = record st1 { players_connected = suc st1.players_connected }
  if st2.players_connected == 4 && deal_is_empty st2.last_deal
      then start_game st2
      else if not (deal_is_empty st2.last_deal)
      then rejoin_game side worker_ix st2
      else some st2

-- The sides of `activeSides` with a worker, in the order of iteration.
abbrev pub busy_sides : List Side → (Side → Option ℕ) → List Side
busy_sides [] active = []
busy_sides (s ∷ rest) active = elim (active s) [
  | none ↦ busy_sides rest active
  | some ix ↦ s ∷ busy_sides rest active
]

-- The worker has introduced itself before.
unfoldable pub intro_again : ℕ → Server → Option (Server × Bool)
intro_again worker_ix st = if ltb st.players_connected 4 then some (st, false) else (do
  st1 ← with_mgr (IoWorkerMgr.send_kill worker_ix) st
  st2 ← with_mgr (IoWorkerMgr.set_role worker_ix cleanup) st1
  some (st2, true))

module _ (order : List Side) where
  unfoldable pub refuse_player : ℕ → Server → Option Server
  refuse_player worker_ix st = do
    st1 ← with_mgr (IoWorkerMgr.set_role worker_ix cleanup_unknown) st
    with_mgr (IoWorkerMgr.send_job (busy (busy_sides order st1.active_sides)) worker_ix) st1

  unfoldable pub intro_first : Option ℕ → Side → ℕ → Server → Option Server
  unfolding seat_player refuse_player
  intro_first none side worker_ix st = seat_player side worker_ix st
  intro_first (some ix) side worker_ix st = refuse_player worker_ix st

  -- `playerIntro`.
  unfoldable pub player_intro : Side → ℕ → Server → Option (Server × Bool)
  unfolding intro_again intro_first
  player_intro side worker_ix st = do
    role ← IoWorkerMgr.get_role worker_ix st.worker_mgr
    if not (status_code role == status_code serving_unknown)
        then intro_again worker_ix st
        else (do st' ← intro_first (st.active_sides side) side worker_ix st; some (st', true))

-- `forwardConnection`; the new worker's index is a second result.
unfoldable pub forward_connection : Server → Server × ℕ
forward_connection st =
    let (m, ix) = IoWorkerMgr.spawn_new_worker serving_unknown st.worker_mgr in
    (record st { worker_mgr = m }, ix)

-- `handleSysErr` with the mutex held, behind its log line.
unfoldable pub handle_sys_err : IoErrClass → Server → Option (Server × Bool)
handle_sys_err io_err_internal st = do
  st' ← finalize (record st { exit_code = 1 })
  some (st', true)
handle_sys_err _ st = some (st, false)

-- The loop over the errors of a worker.
unfoldable pub handle_errs : List IoErrClass → Server → Option (Server × Bool)
unfolding handle_sys_err
handle_errs [] st = some (st, false)
handle_errs (err ∷ rest) st = do
  (st', stop) ← handle_sys_err err st
  let more = handle_errs rest st'
  if stop then some (st', true) else more

-- `eraseWorker` and `setRole(workerIx, SHUTDOWN)`.
unfoldable pub shut : ℕ → Server → Option (Server × Bool)
shut worker_ix st = do
  st' ←
      with_mgr (λ m. IoWorkerMgr.set_role worker_ix shutdown (IoWorkerMgr.erase_worker worker_ix m))
        st
  some (st', true)

-- A worker of a player leaves: its seat is free.
unfoldable pub leave_seat : ℕ → Side → Bool → Server → Option (Server × Bool)
unfolding shut
leave_seat worker_ix s has_work st =
    let st1 = record st {
      players_connected = st.players_connected - 1;
      active_sides = update st.active_sides s none;
      zombie_worker_to_side = insert worker_ix s st.zombie_worker_to_side;
      worker_to_side = erase worker_ix st.worker_to_side;
    } in
    if has_work || (ltb st1.players_connected 3 && not st1.exiting)
    then (do st2 ← with_mgr (IoWorkerMgr.set_role worker_ix cleanup) st1; some (st2, false))
    else shut worker_ix st1

unfoldable pub exit_as : WorkerStatus → ℕ → Bool → Server → Option (Server × Bool)
unfolding leave_seat shut
exit_as serving_unknown worker_ix has_work st = shut worker_ix st
exit_as serving_active worker_ix has_work st = do
  s ← lookup worker_ix st.worker_to_side
  leave_seat worker_ix s has_work st
exit_as cleanup worker_ix has_work st =
    if st.players_connected == 4 && not has_work then shut worker_ix st else some (st, false)
exit_as shutdown worker_ix has_work st = some (st, true)
exit_as serving_proxy worker_ix has_work st = do
  (st1, done) ← shut worker_ix st
  st2 ← finalize st1
  some (st2, true)
exit_as cleanup_unknown worker_ix has_work st =
    if st.players_connected == 4 && not has_work then shut worker_ix st else some (st, false)

-- `grandExitCallback`.
unfoldable pub grand_exit_callback : List IoErrClass → ℕ → Bool → Server → Option (Server × Bool)
unfolding handle_errs exit_as
grand_exit_callback err_arr worker_ix has_work st = do
  (st1, stop) ← handle_errs err_arr st
  if stop then some (st1, true) else (do
    role ← IoWorkerMgr.get_role worker_ix st1.worker_mgr
    exit_as role worker_ix has_work st1)

-- `execMutexed`: whether the callable is run, which here is a step on the state.
unfoldable pub exec_mutexed : (Server → Server) → Server → Server × Bool
exec_mutexed invokable st =
    if ltb st.players_connected 4 && not st.exiting then (st, false) else (invokable st, true)

-- `handleTimeout`.
unfoldable pub handle_timeout : ℕ → Server → Option Server
unfolding ask_next
handle_timeout worker_ix st = if st.exiting then some st else (do
  role ← IoWorkerMgr.get_role worker_ix st.worker_mgr
  if status_code role == status_code serving_unknown
      then with_mgr (IoWorkerMgr.send_kill worker_ix) st
      else if status_code role == status_code serving_active
      then (do
        side ← lookup worker_ix st.worker_to_side
        if not (side_eq st.next_move side)
            then some st
            else if ltb st.players_connected 4
            then some st
            else with_mgr (IoWorkerMgr.send_job (trick st.table st.trick_no) worker_ix) st)
      else some st)

-- `handleWrongMessage`.
unfoldable pub handle_wrong_message : ℕ → Server → Option (Server × Bool)
handle_wrong_message ix st =
    if ltb st.players_connected 4 && not st.exiting
    then some (st, false)
    else (do st' ← with_mgr (IoWorkerMgr.send_kill ix) st; some (st', true))
