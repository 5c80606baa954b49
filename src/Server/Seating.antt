-- ===== src/Server/Seating.antt =====
-- Who sits where: `activeSides`, `workerToSide`, `playersConnected` and the roles of the workers
-- belong together, whatever the clients do.
pub mod Keeping
pub mod Moves
pub mod Comings
pub mod Handlers
pub mod Exits
pub mod Reachable
pub mod Twice
use kierki.Prelude.{
  ℕ, suc, ◌+◌, ◌-◌, ◌≤◌, ◌<◌, Bool, true, false, List, [], ◌∷◌, Option, none, some, ◌≡◌, refl, sym,
  ap, arith, ◌==◌, Bool-cases, lookup, has, inl, inr,
}
use kierki.Types.{Side, side_n, side_e, side_s, side_w, side_null, IsSeat, update}
use kierki.IoWorkerMgr.{IoWorkerMgr, WorkerStatus, serving_unknown, status_code}
use kierki.Server.{Server}

abbrev pub seat_taken : Option ℕ → ℕ
seat_taken none = 0
seat_taken (some ix) = 1

-- How many of the four seats have a worker.
abbrev pub occupied : (Side → Option ℕ) → ℕ
occupied active =
    seat_taken (active side_n)
    + seat_taken (active side_e)
    + seat_taken (active side_s)
    + seat_taken (active side_w)

-- The worker has a role, and it has introduced itself.
abbrev pub IsKnown : ℕ → IoWorkerMgr → Type 0
IsKnown ix m = (r : WorkerStatus) × (lookup ix m.roles ≡ some r) × ((status_code r == 0) ≡ false)

-- Seats and workers name each other, all seated workers are known, the count of the players is that
-- of the taken seats, and no role is given to an index that is still to come.
pub record IsSeated (st : Server) : Type 0 where
  pub seat_worker :
      (s : Side) (ix : ℕ)
      → IsSeat s
      → st.active_sides s ≡ some ix
      → lookup ix st.worker_to_side ≡ some s
  pub worker_seat :
      (ix : ℕ) (s : Side)
      → lookup ix st.worker_to_side ≡ some s
      → IsSeat s × (st.active_sides s ≡ some ix) × IsKnown ix st.worker_mgr
  pub counted : st.players_connected ≡ occupied st.active_sides
  pub numbered : (ix : ℕ) → has ix st.worker_mgr.roles ≡ true → ix < st.worker_mgr.next_ix
