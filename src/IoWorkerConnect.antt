-- ===== src/IoWorkerConnect.antt =====
-- server/io_worker_connect.cpp: the worker that accepts connections. What `accept` answers is an
-- argument: a descriptor, an empty queue of connections, or another error. The peer's address, which
-- only goes to the log, is left out.
use kierki.Prelude.{ℕ, Option, none, some, ◌>>=◌}
use kierki.IoWorkerHandler.{Handler}

pub data AcceptResp : Type 0 where
  accepted : (new_fd : ℕ) → AcceptResp
  nobody_there accept_failed : AcceptResp

-- `socketAction`, with `accCb` as a step on a state `σ`; `none` is an exception.
unfoldable pub accept_one :
    {σ : Type 0} (acc_cb : ℕ → σ → Option σ) → AcceptResp → Handler → σ → Option (Handler × σ)
accept_one acc_cb (accepted new_fd) h st = do st' ← acc_cb new_fd st; some (h, st')
accept_one acc_cb nobody_there h st = some (h, st)
accept_one acc_cb accept_failed h st = none
