-- ===== src/Server.antt =====
-- server/server.h and server/server.cpp: the state of the server, and what its handlers share.
-- Each handler holds `gameStateMutex` for its whole body, so it is one step on the state.
-- `none` is an exception or a read out of range. The log, the addresses and the timeout are left
-- out: they decide nothing.
pub mod Round
pub mod Players
pub mod Sending
pub mod Turns
pub mod Invariant
pub mod NextRound
pub mod Play
pub mod Handling
pub mod Seating
pub mod Leaving
use kierki.Prelude.{
  ℕ, suc, ◌+◌, Bool, true, false, List, [], ◌∷◌, Option, none, some, if◌then◌else◌, ◌>>=◌, Map,
  lookup, insert, get_elem?,
}
use kierki.Types.{
  Side, side_n, side_e, side_s, side_w, side_null, sides, RoundType, trick_penalty, Hand, Table,
  TableState, ScoreMap, update,
}
use kierki.SendJob.{SendJob}
use kierki.IoWorkerMgr
use kierki.IoWorkerMgr.{IoWorkerMgr, WorkerStatus}

-- In `active_sides` the index -1 is `none`.
pub record Server : Type 0 where
  pub game_scenario : List (RoundType × TableState × Side)
  pub worker_mgr : IoWorkerMgr
  pub active_sides : Side → Option ℕ
  pub penalties : ScoreMap
  pub penalties_round : ScoreMap
  pub hands : TableState
  pub next_move : Side
  pub round_number : ℕ
  pub trick_no : ℕ
  pub round_mode : RoundType
  pub table : Table
  pub exit_code : ℕ
  pub players_connected : ℕ
  pub last_deal : TableState
  pub taken_in_round : List SendJob
  pub exiting : Bool
  pub worker_to_side : Map Side
  pub zombie_worker_to_side : Map Side

-- The entries that the constructor writes; `operator[]` gives 0 for a key that is missing.
abbrev pub no_active : Side → Option ℕ
no_active side_null = some 0
no_active _ = none

abbrev pub no_hands : TableState
no_hands side_null = none
no_hands _ = some []

-- The constructor.
unfoldable pub server : List (RoundType × TableState × Side) → Server
server scenario = record {
  game_scenario = scenario;
  worker_mgr = IoWorkerMgr.io_worker_mgr;
  active_sides = no_active;
  penalties = λ s. 0;
  penalties_round = λ s. 0;
  hands = no_hands;
  next_move = side_w;
  round_number = 0;
  trick_no = 1;
  round_mode = trick_penalty;
  table = [];
  exit_code = 0;
  players_connected = 0;
  last_deal = λ s. none;
  taken_in_round = [];
  exiting = false;
  worker_to_side = [];
  zombie_worker_to_side = [];
}

-- A call of a method of `workerMgr` that changes it.
abbrev pub with_mgr : (IoWorkerMgr → Option IoWorkerMgr) → Server → Option Server
with_mgr f st = do m ← f st.worker_mgr; some (record st { worker_mgr = m })

-- `workerMgr.sendJob(job, activeSides[side])`: no worker has the index -1.
unfoldable pub send_to_side : SendJob → Side → Server → Option Server
send_to_side job side st = do ix ← st.active_sides side; with_mgr (IoWorkerMgr.send_job job ix) st

-- `for (Side s: sides_)` with one message for each side.
unfoldable pub send_each : (Side → SendJob) → List Side → Server → Option Server
unfolding send_to_side
send_each job_for [] st = some st
send_each job_for (s ∷ rest) st = do st' ← send_to_side (job_for s) s st; send_each job_for rest st'

-- `prepareRound`.
unfoldable pub prepare_round : Server → Option Server
prepare_round st = do
  (mode, init_state, starting) ← get_elem? st.game_scenario st.round_number
  some (record st {
    round_mode = mode;
    hands = init_state;
    next_move = starting;
    trick_no = 1;
    taken_in_round = [];
  })

-- `finalize`.
unfoldable pub finalize : Server → Option Server
finalize st =
    if st.exiting
    then some st
    else with_mgr (λ m. IoWorkerMgr.finish (IoWorkerMgr.release_cleaner m))
        (record st { exiting = true })
