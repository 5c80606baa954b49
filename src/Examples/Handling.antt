-- ===== src/Examples/Handling.antt =====
-- A worker that reads lines, on concrete data.
use kierki.Prelude.{ℕ, ◌≡◌, lookup, inl, inr, refl, [], ◌∷◌, ◌++◌, some, true, false, codes, arith}
use kierki.Types.{side_w}
use kierki.Card.{at}
use kierki.Card.Laws.{IsCard}
use kierki.IoWorkerMgr
use kierki.SendJob.{trick, intro, wrong, body, gen_msg}
use kierki.MsgParser.Cutting.{IsPackCard}
use kierki.IoWorkerHandler.{Callbacks, Handler, would_block, peer_closed, socket_action, read_loop}
use kierki.IoWorkerHandler.Action.{idle, answered, socket_action-trick, socket_action-intro}
use kierki.IoWorkerHandler.Framing.{holding, IsBounded, read_loop_line, read_loop-IsBounded}
use kierki.Server.{Server}
use kierki.Server.NextRound.{IsReady}
use kierki.Server.Handling.{server_callbacks, IsServing, socket_action-IsReady}
use kierki.Examples.Games.{
  first_round, first_round-IsPlayable, first_round-AllServed, order, spade_king,
}

abbrev fresh : Handler
fresh = record {
  next_incoming = [];
  pending_incoming = [];
  pending_outgoing = wrong 2 ∷ [];
  errs = [];
  next_timeout = some 5000;
  response_timeout = some 7;
  want_to_quit = false;
  terminate = false;
  closed_fd = false;
  peer_corrupted = false;
}

-- A game that only counts: a move adds its trick number, and all introductions are refused.
abbrev counting : Callbacks ℕ
counting = record {
  intro_cb = λ s st. some (st, false);
  trick_cb = λ t c st. some (t, true);
  invalid_cb = λ st. some (st, true);
  exit_cb = λ errs has_work st. some (st, true);
}

spade_king-IsPackCard : IsPackCard spade_king
spade_king-IsPackCard = (
  inr (inr (inr (inr (inr (inr (inr (inr (inr (inr (inr (inl refl))))))))))),
  inr (inr (inr (inl refl))),
)

spade_king-IsCard : IsCard spade_king
unfolding at
spade_king-IsCard = refl

read_loop_line_example :
    read_loop (codes "IAMW\r\nIA") fresh ≡ (holding fresh (codes "IAMW"), codes "IA", false)
read_loop_line_example =
    read_loop_line (codes "IAMW") (codes "IA") fresh refl refl (refl, (refl, (refl, (refl, tt))))
      (omega arith)

read_loop-IsBounded_example : IsBounded (read_loop (codes "TRICK1") fresh).0
read_loop-IsBounded_example = read_loop-IsBounded (codes "TRICK1") fresh (inr (omega arith))

socket_action-trick_example :
    socket_action counting
      (gen_msg (trick (spade_king ∷ []) 13) ++ codes "TRI")
      would_block
      (idle fresh)
      4
    ≡ some (answered (idle fresh) (body (trick (spade_king ∷ []) 13)) true, 13, codes "TRI")
socket_action-trick_example =
    socket_action-trick counting 13 spade_king (codes "TRI") would_block fresh 4 13 true
      (omega arith, omega arith) spade_king-IsPackCard spade_king-IsCard refl

socket_action-intro_example :
    socket_action counting (gen_msg (intro side_w) ++ []) peer_closed (idle fresh) 4
    ≡ some (answered (idle fresh) (body (intro side_w)) false, 4, [])
socket_action-intro_example =
    socket_action-intro counting side_w [] peer_closed fresh 4 4 false tt refl

west_serves : IsServing order 4 side_w first_round
unfolding first_round IoWorkerMgr.get_role lookup
west_serves = (refl, refl, refl)

socket_action-IsReady_example :
    (st' : Server) × (socket_action
        (server_callbacks order 4)
        (gen_msg (trick (spade_king ∷ []) 1) ++ [])
        would_block
        (idle fresh)
        first_round
      ≡ some (answered (idle fresh) (body (trick (spade_king ∷ []) 1)) true, st', []))
    × IsReady st'
socket_action-IsReady_example =
    socket_action-IsReady order 4 1 spade_king side_w [] would_block fresh first_round
      (omega arith, omega arith) spade_king-IsPackCard spade_king-IsCard
      (first_round-IsPlayable, first_round-AllServed) tt west_serves
