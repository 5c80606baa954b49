-- ===== src/Server/Seating/Reachable.antt =====
-- The states that the server can be in: `Server::run` up to `waitForClearing`, and then the
-- callbacks that `run` and `forwardConnection` give the workers, the clearing of workers and the
-- workers' own use of their queues and pipes, in any order.
use kierki.Prelude.{
  ℕ, ◌≤◌, ◌+◌, ◌∙◌, Bool, List, [], Option, none, some, ◌≡◌, ◌≢◌, ap, refl, sym, arith, ◌>>=◌,
  lookup, insert, has, Returns, Returns-elim, Returns-bind,
}
use kierki.Types.{
  Side, side_n, side_e, side_s, side_w, side_null, RoundType, TableState, Card, IsSeat, IoErrClass,
}
use kierki.JobQueue.{JobQueue}
use kierki.IoWorkerMgr
use kierki.IoWorkerMgr.{IoWorkerMgr, serving_proxy}
use kierki.IoWorkerMgr.Shape.{SameKept, clear_once-roles}
use kierki.Server.{Server, server, no_active, prepare_round}
use kierki.Server.Round.{player_tricked}
use kierki.Server.Players.{
  player_intro, forward_connection, grand_exit_callback, handle_timeout, handle_wrong_message,
}
use kierki.Server.Seating.{seat_taken, occupied, IsKnown, IsSeated}
use kierki.Server.Seating.Keeping.{KeepsSeats, KeepsSeats-IsSeated, KeepsSeats-mgr, KeepsRoles-same}
use kierki.Server.Seating.Moves.{
  KeepsAnswer, prepare_round-KeepsSeats, player_tricked-KeepsSeats, handle_timeout-KeepsSeats,
  handle_wrong_message-KeepsSeats,
}
use kierki.Server.Seating.Handlers.{SeatedAnswer, player_intro-IsSeated}
use kierki.Server.Seating.Exits.{
  grand_exit_callback-IsSeated, spawned-IsSeated, forward_connection-IsSeated,
}

-- `Server::run`: the first round is prepared and the worker that accepts connections is made.
unfoldable pub start : List (RoundType × TableState × Side) → Option Server
start scenario = do
  st ← prepare_round (server scenario)
  some (record st { worker_mgr = (IoWorkerMgr.spawn_new_worker serving_proxy st.worker_mgr).0 })

-- One callback of a worker, or one turn of the thread that clears. A worker that takes what is in
-- its queue leaves the rest of the state alone, and one that reads its pipe does, too. An
-- introduction names a seat, since the patterns of the parser have no other side.
pub data Step (order : List Side) : Server → Server → Type 0 where
  connected : {st : Server} → Step order st (forward_connection st).0
  introduced :
      {st t : Server} {b : Bool} (side : Side) (ix : ℕ)
      → IsSeat side
      → player_intro order side ix st ≡ some (t, b)
      → Step order st t
  moved :
      {st t : Server} {b : Bool} (n : ℕ) (card : Card) (ix : ℕ)
      → player_tricked order n card ix st ≡ some (t, b)
      → Step order st t
  misled :
      {st t : Server} {b : Bool} (ix : ℕ)
      → handle_wrong_message ix st ≡ some (t, b)
      → Step order st t
  waited : {st t : Server} (ix : ℕ) → handle_timeout ix st ≡ some t → Step order st t
  exited :
      {st t : Server} {b : Bool} (errs : List IoErrClass) (ix : ℕ) (has_work : Bool)
      → grand_exit_callback errs ix has_work st ≡ some (t, b)
      → Step order st t
  cleared :
      {st : Server} {m : IoWorkerMgr} {b : Bool}
      → IoWorkerMgr.clear_once st.worker_mgr ≡ some (m, b)
      → Step order st (record st { worker_mgr = m })
  drained :
      {st : Server} {q : JobQueue} (ix : ℕ)
      → lookup ix st.worker_mgr.workers ≡ some q
      → Step order st (record st {
        worker_mgr = record st.worker_mgr {
          workers = insert ix (record q { jobs_pending = [] }) st.worker_mgr.workers;
        };
      })
  awoken :
      {st : Server} (ix : ℕ)
      → Step order st (record st {
        worker_mgr = record st.worker_mgr { pipes = insert ix 0 st.worker_mgr.pipes };
      })

pub data Reach (order : List Side) (scenario : List (RoundType × TableState × Side))
    : Server → Type 0 where
  started : {st : Server} → start scenario ≡ some st → Reach order scenario st
  later : {st t : Server} → Reach order scenario st → Step order st t → Reach order scenario t

server-IsSeated : (scenario : List (RoundType × TableState × Side)) → IsSeated (server scenario)
unfolding server lookup has
server-IsSeated scenario = record {
  seat_worker = no_seat;
  worker_seat = λ ix s e. cc;
  counted = refl;
  numbered = λ ix h. cc;
}
  where
    no_seat : (s : Side) (ix : ℕ) → IsSeat s → no_active s ≡ some ix → lookup ix [] ≡ some s
    no_seat side_n ix seat e = cc
    no_seat side_e ix seat e = cc
    no_seat side_s ix seat e = cc
    no_seat side_w ix seat e = cc
    no_seat side_null ix seat e = absurd seat

start-IsSeated :
    (scenario : List (RoundType × TableState × Side)) → Returns IsSeated (start scenario)
unfolding start
start-IsSeated scenario =
    let st = server scenario in
    Returns-bind IsSeated (prepare_round st) _ (λ t e. spawned-IsSeated serving_proxy t (
      KeepsSeats-IsSeated
        (Returns-elim (KeepsSeats st) (prepare_round st) e (prepare_round-KeepsSeats st))
        (server-IsSeated scenario)))

one_at_most : (a : Option ℕ) → seat_taken a ≤ 1
one_at_most none = omega arith
one_at_most (some ix) = omega arith

same_seats :
    (st : Server) (m : IoWorkerMgr)
    → m.roles ≡ st.worker_mgr.roles
    → m.next_ix ≡ st.worker_mgr.next_ix
    → IsSeated st
    → IsSeated (record st { worker_mgr = m })
same_seats st m e f v =
    KeepsSeats-IsSeated (KeepsSeats-mgr st m (KeepsRoles-same st.worker_mgr m e f)) v

module _ (order : List Side) where
  step-IsSeated : {st t : Server} → Step order st t → IsSeated st → IsSeated t
  step-IsSeated connected v = forward_connection-IsSeated _ v
  step-IsSeated {st} (introduced side ix seat e) v =
      Returns-elim SeatedAnswer (player_intro order side ix st) e
        (player_intro-IsSeated order side ix st v seat)
  step-IsSeated {st} (moved n card ix e) v =
      KeepsSeats-IsSeated
        (Returns-elim (KeepsAnswer st) (player_tricked order n card ix st) e
          (player_tricked-KeepsSeats order n card ix st))
        v
  step-IsSeated {st} (misled ix e) v =
      KeepsSeats-IsSeated
        (Returns-elim (KeepsAnswer st) (handle_wrong_message ix st) e
          (handle_wrong_message-KeepsSeats ix st))
        v
  step-IsSeated {st} (waited ix e) v =
      KeepsSeats-IsSeated
        (Returns-elim (KeepsSeats st) (handle_timeout ix st) e (handle_timeout-KeepsSeats ix st)) v
  step-IsSeated {st} (exited errs ix has_work e) v =
      Returns-elim SeatedAnswer (grand_exit_callback errs ix has_work st) e
        (grand_exit_callback-IsSeated errs ix has_work st v)
  step-IsSeated {st} (cleared {m = m} e) v =
      let (e1, e2) =
        Returns-elim (λ r. SameKept st.worker_mgr r.0) (IoWorkerMgr.clear_once st.worker_mgr) e
          (clear_once-roles st.worker_mgr) in
      same_seats st m e1 e2 v
  step-IsSeated {st} (drained ix e) v = same_seats st _ refl refl v
  step-IsSeated {st} (awoken ix) v = same_seats st _ refl refl v

-- In every state that the server can reach from its start, by the callbacks of the workers and the
-- clearing of workers in any order, seats and workers name each other, the seated workers have
-- introduced themselves, `playersConnected` is the number of taken seats, and no worker has an index
-- that is still to come.
pub Reach-IsSeated :
    (order : List Side) (scenario : List (RoundType × TableState × Side)) (st : Server)
    → Reach order scenario st
    → IsSeated st
Reach-IsSeated order scenario st (started e) =
    Returns-elim IsSeated (start scenario) e (start-IsSeated scenario)
Reach-IsSeated order scenario st (later r s) =
    step-IsSeated order s (Reach-IsSeated order scenario _ r)

taken_when_full :
    (a b c d : Option ℕ)
    → seat_taken a + seat_taken b + seat_taken c + seat_taken d ≡ 4
    → (1 ≤ seat_taken a) × (1 ≤ seat_taken b) × (1 ≤ seat_taken c) × (1 ≤ seat_taken d)
taken_when_full a b c d h =
    let p = one_at_most a in
    let q = one_at_most b in
    let r = one_at_most c in
    let s = one_at_most d in
    (
      omega (arith, p, q, r, s, h),
      omega (arith, p, q, r, s, h),
      omega (arith, p, q, r, s, h),
      omega (arith, p, q, r, s, h),
    )

worker_of : (a : Option ℕ) → 1 ≤ seat_taken a → (ix : ℕ) × (a ≡ some ix)
worker_of none h = absurd (omega (arith, h))
worker_of (some ix) h = (ix, refl)

all_taken :
    (active : Side → Option ℕ) (s : Side)
    → occupied active ≡ 4
    → IsSeat s
    → (ix : ℕ) × (active s ≡ some ix)
all_taken active s full seat =
    let (n, e, o, w) =
      taken_when_full (active side_n) (active side_e) (active side_s) (active side_w) full in
    taken_at n e o w s seat
  where
    taken_at :
        1 ≤ seat_taken (active side_n)
        → 1 ≤ seat_taken (active side_e)
        → 1 ≤ seat_taken (active side_s)
        → 1 ≤ seat_taken (active side_w)
        → (s : Side) → IsSeat s
        → (ix : ℕ) × (active s ≡ some ix)
    taken_at n e o w side_n h = worker_of (active side_n) n
    taken_at n e o w side_e h = worker_of (active side_e) e
    taken_at n e o w side_s h = worker_of (active side_s) o
    taken_at n e o w side_w h = worker_of (active side_w) w
    taken_at n e o w side_null h = absurd h

-- The worker has the seat, is registered for it and has introduced itself.
abbrev pub IsSeatOf : Side → ℕ → Server → Type 0
IsSeatOf s ix st =
    (st.active_sides s ≡ some ix)
    × (lookup ix st.worker_to_side ≡ some s)
    × IsKnown ix st.worker_mgr

all_taken-IsSeatOf :
    (st : Server) (s : Side) (ix : ℕ)
    → IsSeated st
    → IsSeat s
    → st.active_sides s ≡ some ix
    → IsSeatOf s ix st
all_taken-IsSeatOf st s ix v seat e =
    let back = v.seat_worker s ix seat e in
    let (q, f, known) = v.worker_seat ix s back in (e, back, known)

some_inj : {s t : Side} → some s ≡ some t → s ≡ t
some_inj e = cc

-- When a reachable server counts four players, each of the four seats has a worker that is
-- registered for this seat and has introduced itself, and two seats never have the same worker.
pub Reach-full :
    (order : List Side) (scenario : List (RoundType × TableState × Side)) (st : Server) (s t : Side)
    → Reach order scenario st
    → st.players_connected ≡ 4
    → IsSeat s
    → IsSeat t
    → s ≢ t
    → (ix : ℕ) × (jx : ℕ) × IsSeatOf s ix st × IsSeatOf t jx st × (ix ≢ jx)
Reach-full order scenario st s t r full seat seat' distinct =
    let v = Reach-IsSeated order scenario st r in
    let full' = sym v.counted ∙ full in
    let (ix, e) = all_taken st.active_sides s full' seat in
    let (jx, f) = all_taken st.active_sides t full' seat' in
    let (p0, p1, p2) = all_taken-IsSeatOf st s ix v seat e in
    let (q0, q1, q2) = all_taken-IsSeatOf st t jx v seat' f in
    (
      ix,
      jx,
      (p0, p1, p2),
      (q0, q1, q2),
      λ same. distinct (some_inj (sym p1 ∙ ap (λ i. lookup i st.worker_to_side) same ∙ q1)),
    )
