-- ===== src/Examples/Reaching.antt =====
-- States that a server reaches, step by step.
use kierki.Prelude.{
  ◌≢◌, ℕ, ◌≡◌, refl, List, [], ◌∷◌, Option, none, some, true, false, lookup, insert, has, emplace,
  ◌>>=◌,
}
use kierki.Types.{Side, side_n, side_e, side_s, side_w, RoundType, trick_penalty, TableState}
use kierki.JobQueue.{job_queue, set_kill_order}
use kierki.IoWorkerMgr
use kierki.IoWorkerMgr.{IoWorkerMgr, written, serving_proxy}
use kierki.Server.{Server, server, prepare_round, send_to_side, send_each}
use kierki.Server.Round.{deal_all, ask_next}
use kierki.Server.Players.{
  player_intro, intro_first, seat_player, start_game, forward_connection, grand_exit_callback,
  handle_errs, exit_as, shut,
}
use kierki.Server.Seating.{IsSeated}
use kierki.Server.Seating.Reachable.{start, IsSeatOf, Step, Reach, Reach-IsSeated, Reach-full}
use kierki.Server.Leaving.{Rounds, grand_exit_callback-again}
use kierki.Server.Seating.Twice.{player_intro-twice}
use kierki.Examples.Games.{suits, order, first_round}

abbrev one_deal : List (RoundType × TableState × Side)
one_deal = (trick_penalty, suits, side_w) ∷ []

abbrev value_of : Server → Option Server → Server
value_of st none = st
value_of st (some t) = t

abbrev at_start : Server
at_start = value_of first_round (start one_deal)

-- A client connects and takes a seat.
abbrev joins : Side → ℕ → Server → Server
joins side ix st =
    value_of st ((player_intro order side ix (forward_connection st).0) >>= λ r. some r.0)

abbrev one_there : Server
one_there = joins side_w 1 at_start

one_there-reached : Reach order one_deal one_there
unfolding start server prepare_round IoWorkerMgr.spawn_new_worker emplace has insert lookup
    forward_connection player_intro intro_first seat_player IoWorkerMgr.get_role
    IoWorkerMgr.set_role
one_there-reached =
    Reach.later (Reach.later (Reach.started refl) Step.connected) (Step.introduced side_w 1 tt refl)

Reach-IsSeated_example : IsSeated one_there
Reach-IsSeated_example = Reach-IsSeated order one_deal one_there one_there-reached

abbrev two_there : Server
two_there = joins side_n 2 one_there

abbrev three_there : Server
three_there = joins side_e 3 two_there

abbrev all_there : Server
all_there = joins side_s 4 three_there

two_there-reached : Reach order one_deal two_there
unfolding start server prepare_round IoWorkerMgr.spawn_new_worker emplace has insert lookup
    forward_connection player_intro intro_first seat_player IoWorkerMgr.get_role
    IoWorkerMgr.set_role
two_there-reached =
    Reach.later (Reach.later one_there-reached Step.connected) (Step.introduced side_n 2 tt refl)

three_there-reached : Reach order one_deal three_there
unfolding start server prepare_round IoWorkerMgr.spawn_new_worker emplace has insert lookup
    forward_connection player_intro intro_first seat_player IoWorkerMgr.get_role
    IoWorkerMgr.set_role
three_there-reached =
    Reach.later (Reach.later two_there-reached Step.connected) (Step.introduced side_e 3 tt refl)

all_there-reached : Reach order one_deal all_there
unfolding start server prepare_round IoWorkerMgr.spawn_new_worker emplace has insert lookup
    forward_connection player_intro intro_first seat_player IoWorkerMgr.get_role
    IoWorkerMgr.set_role start_game deal_all ask_next send_each send_to_side IoWorkerMgr.send_job
    IoWorkerMgr.signal written
all_there-reached =
    Reach.later (Reach.later three_there-reached Step.connected) (Step.introduced side_s 4 tt refl)

all_there-full : all_there.players_connected ≡ 4
unfolding start server prepare_round IoWorkerMgr.spawn_new_worker emplace has insert lookup
    forward_connection player_intro intro_first seat_player IoWorkerMgr.get_role
    IoWorkerMgr.set_role start_game deal_all ask_next send_each send_to_side IoWorkerMgr.send_job
    IoWorkerMgr.signal written
all_there-full = refl

Reach-full_example :
    (ix : ℕ) × (jx : ℕ) × IsSeatOf side_w ix all_there × IsSeatOf side_n jx all_there × (ix ≢ jx)
Reach-full_example =
    Reach-full order one_deal all_there side_w side_n all_there-reached all_there-full tt tt (cc)

player_intro-twice_example :
    (t : Server) × (player_intro order side_e 4 first_round ≡ some (t, true))
    × (lookup 4 t.worker_mgr.workers ≡ some (set_kill_order job_queue))
    × (u : Server) × (grand_exit_callback [] 4 false t ≡ some (u, true))
    × (u.active_sides ≡ first_round.active_sides)
    × (u.players_connected ≡ 4)
    × (IoWorkerMgr.to_be_erased 4 u.worker_mgr ≡ true)
unfolding first_round lookup
player_intro-twice_example = player_intro-twice order side_e 4 job_queue first_round refl refl refl

-- A worker that waits without a player, and leaves.
abbrev unseated : Server
unseated = (forward_connection at_start).0

abbrev left : Server
left = value_of unseated (grand_exit_callback [] 1 false unseated >>= λ r. some r.0)

left_once : grand_exit_callback [] 1 false unseated ≡ some (left, true)
unfolding start server prepare_round IoWorkerMgr.spawn_new_worker emplace has insert lookup
    forward_connection grand_exit_callback handle_errs exit_as shut IoWorkerMgr.erase_worker
    IoWorkerMgr.get_role IoWorkerMgr.set_role
left_once = refl

-- The thread that clears has removed the worker before it asks again.
abbrev swept : IoWorkerMgr
swept = elim (IoWorkerMgr.clear_once left.worker_mgr) [ none ↦ left.worker_mgr | some r ↦ r.0 ]

swept_once : IoWorkerMgr.clear_once left.worker_mgr ≡ some (swept, false)
unfolding start server prepare_round IoWorkerMgr.spawn_new_worker emplace has insert lookup
    forward_connection grand_exit_callback handle_errs exit_as shut IoWorkerMgr.erase_worker
    IoWorkerMgr.get_role IoWorkerMgr.set_role IoWorkerMgr.clear_once
swept_once = refl

grand_exit_callback-again_example :
    grand_exit_callback [] 1 true (record left { worker_mgr = swept })
    ≡ some (record left { worker_mgr = swept }, true)
grand_exit_callback-again_example =
    grand_exit_callback-again [] 1 false true unseated left swept left_once
      (Rounds.one_more swept_once Rounds.no_round)
