-- ===== src/Server/Handling.antt =====
-- The callbacks that `forwardConnection` gives a worker, and a client's move from its bytes in the
-- socket to the game.
use kierki.Prelude.{ℕ, true, false, List, [], ◌∷◌, ◌++◌, some, Bytes, ◌≡◌, arith, lookup, ltb}
use kierki.Types.{Side, Card, IsSeat}
use kierki.Card.Laws.{IsCard}
use kierki.SendJob.{trick, body, gen_msg}
use kierki.MsgParser.Cutting.{IsPackCard}
use kierki.MsgParser.RoundTrip.{IsTrickNo}
use kierki.IoWorkerMgr
use kierki.IoWorkerMgr.{serving_active}
use kierki.IoWorkerHandler.{Callbacks, Handler, RecvEnd, socket_action}
use kierki.IoWorkerHandler.Action.{idle, answered, socket_action-trick}
use kierki.Server.{Server}
use kierki.Server.Round.{player_tricked, tricked_as}
use kierki.Server.Players.{player_intro, grand_exit_callback, handle_wrong_message}
use kierki.Server.NextRound.{IsReady}
use kierki.Server.Play.{play-IsReady}

module _ (order : List Side) (worker_ix : ℕ) where
  -- The callbacks, for the worker with this index.
  abbrev pub server_callbacks : Callbacks Server
  server_callbacks = record {
    intro_cb = λ s st. player_intro order s worker_ix st;
    trick_cb = λ t c st. player_tricked order t c worker_ix st;
    invalid_cb = λ st. handle_wrong_message worker_ix st;
    exit_cb = λ errs has_work st. grand_exit_callback errs worker_ix has_work st;
  }

  -- The worker serves the seat in a game with all its players.
  abbrev pub IsServing : Side → Server → Type 0
  IsServing side st =
      (st.players_connected ≡ 4)
      × (IoWorkerMgr.get_role worker_ix st.worker_mgr ≡ some serving_active)
      × (lookup worker_ix st.worker_to_side ≡ some side)

  player_tricked-IsReady :
      (n : ℕ) (c : Card) (side : Side) (st : Server)
      → IsReady st
      → IsSeat side
      → IsServing side st
      → (st' : Server) × (player_tricked order n c worker_ix st ≡ some (st', true)) × IsReady st'
  unfolding player_tricked tricked_as
  player_tricked-IsReady n c side st ready seat (full, role, seated) =
      let (st', e, r) = play-IsReady order n c side st ready seat in
      let all_there : ltb st.players_connected 4 ≡ false = ground (arith, full) in
      (st', rw (all_there, role, seated, e), r)

  -- In a game that can be played, with all four players there, a move whose bytes lie in the socket
  -- of a seat's idle worker is taken out of the socket as a whole and handled without a failure,
  -- whatever stands behind it; the line is done with, and the game can be played on. The move has a
  -- trick number from 1 to 13 and a card of the pack and of the table of values.
  pub socket_action-IsReady :
      (n : ℕ) (c : Card) (side : Side) (more : Bytes) (stop : RecvEnd) (h : Handler) (st : Server)
      → IsTrickNo n
      → IsPackCard c
      → IsCard c
      → IsReady st
      → IsSeat side
      → IsServing side st
      → (st' : Server) × (socket_action server_callbacks
            (gen_msg (trick (c ∷ []) n) ++ more)
            stop
            (idle h)
            st
          ≡ some (answered (idle h) (body (trick (c ∷ []) n)) true, st', more))
        × IsReady st'
  socket_action-IsReady n c side more stop h st hn pack card ready seat serving =
      let (st', e, r) = player_tricked-IsReady n c side st ready seat serving in
      (st', socket_action-trick server_callbacks n c more stop h st st' true hn pack card e, r)
