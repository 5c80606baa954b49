-- ===== src/IoWorkerHandler/Action.antt =====
-- `socketAction` on a whole line: what is read, what the game is asked, and what is left.
use kierki.Prelude.{
  ℕ, ◌+◌, ◌≤◌, Bool, true, false, [], ◌∷◌, ◌++◌, none, some, Bytes, codes, length, ◌≡◌, refl, ◌∙◌,
  arith, append_assoc,
}
use kierki.Types.{Side, Card, IsSeat, max_parse_len}
use kierki.Card.Laws.{IsCard}
use kierki.SendJob.{trick, intro, body, gen_msg}
use kierki.MsgParser.Cutting.{IsPackCard}
use kierki.MsgParser.RoundTrip.{IsTrickNo, parse_net_msg-to_server}
use kierki.MsgParser.Lines.{length-trick, parse_net_msg-IsWithout}
use kierki.Regex.Avoiding.{IsWithout}
use kierki.IoWorkerHandler.{
  Callbacks, Handler, RecvEnd, popped, kept, verdict_of, on_line, socket_action, read_socket,
  lines_loop, leave_corrupted,
}
use kierki.IoWorkerHandler.Framing.{read_loop_line}
use kierki.IoWorkerHandler.Dispatch.{on_line-trick, on_line-intro}

-- The handler is connected, does not want to quit, and has read nothing of a next line.
abbrev pub idle : Handler → Handler
idle h = record h {
  next_incoming = [];
  pending_incoming = [];
  want_to_quit = false;
  closed_fd = false;
  peer_corrupted = false;
}

-- The handler behind a line to which the game answered: the line is popped, or it waits for its
-- next turn, and no response is due.
abbrev pub answered : Handler → Bytes → Bool → Handler
answered h text true = record h {
  next_incoming = [];
  pending_incoming = [];
  next_timeout = none;
  response_timeout = none;
}
answered h text false = record h {
  next_incoming = [];
  pending_incoming = text ∷ [];
  next_timeout = none;
  response_timeout = none;
}

module _ {σ : Type 0} (callbacks : Callbacks σ) where
  -- A whole line arrives at an idle handler, and the game answers to it.
  socket_action_line :
      (text more : Bytes) (stop : RecvEnd) (h : Handler) (st st' : σ) (ok : Bool)
      → IsWithout b'\n' text
      → length text + 2 ≤ max_parse_len
      → on_line callbacks text st ≡ some (st', verdict_of popped kept ok)
      → socket_action callbacks (text ++ b'\r' ∷ b'\n' ∷ more) stop (idle h) st
        ≡ some (answered (idle h) text ok, st', more)
  unfolding socket_action read_socket lines_loop leave_corrupted verdict_of
  socket_action_line text more stop h st st' true plain fits line =
      rw (read_loop_line text more (idle h) refl refl plain fits, line)
  socket_action_line text more stop h st st' false plain fits line =
      rw (read_loop_line text more (idle h) refl refl plain fits, line)

  -- Where the game answers the move of a client, a trick number from 1 to 13 and a card of the pack
  -- and of the table of values, `socketAction` takes exactly the move's line out of the socket,
  -- asks the game for that number and that card, and then has dropped the line if the answer is
  -- yes, and keeps it for the next turn if it is no. Before, the handler is idle.
  pub socket_action-trick :
      (n : ℕ) (c : Card) (more : Bytes) (stop : RecvEnd) (h : Handler) (st st' : σ) (ok : Bool)
      → IsTrickNo n
      → IsPackCard c
      → IsCard c
      → callbacks.trick_cb n c st ≡ some (st', ok)
      → socket_action callbacks (gen_msg (trick (c ∷ []) n) ++ more) stop (idle h) st
        ≡ some (answered (idle h) (body (trick (c ∷ []) n)) ok, st', more)
  unfolding gen_msg
  socket_action-trick n c more stop h st st' ok hn pack card reply =
      let text = body (trick (c ∷ []) n) in
      let short : length text + 2 ≤ max_parse_len = omega (arith, length-trick n c hn pack) in
      let line : on_line callbacks text st ≡ some (st', verdict_of popped kept ok) =
        on_line-trick callbacks n c st hn pack card ∙ rw reply refl in
      rw (append_assoc text (codes "\r\n") more) (
        socket_action_line text more stop h st st' ok
          (parse_net_msg-IsWithout text true
            (parse_net_msg-to_server (trick (c ∷ []) n) (pack, hn)))
          short line)

  -- Where the game answers the introduction of a client that names a seat, `socketAction` takes
  -- exactly its line out of the socket, asks the game for that seat, and then has dropped the line
  -- if the answer is yes, and keeps it for the next turn if it is no. Before, the handler is idle.
  pub socket_action-intro :
      (s : Side) (more : Bytes) (stop : RecvEnd) (h : Handler) (st st' : σ) (ok : Bool)
      → IsSeat s
      → callbacks.intro_cb s st ≡ some (st', ok)
      → socket_action callbacks (gen_msg (intro s) ++ more) stop (idle h) st
        ≡ some (answered (idle h) (body (intro s)) ok, st', more)
  unfolding gen_msg body
  socket_action-intro s more stop h st st' ok seat reply =
      let text = body (intro s) in
      let line : on_line callbacks text st ≡ some (st', verdict_of popped kept ok) =
        on_line-intro callbacks s st seat ∙ rw reply refl in
      rw (append_assoc text (codes "\r\n") more) (
        socket_action_line text more stop h st st' ok
          (parse_net_msg-IsWithout text true (parse_net_msg-to_server (intro s) seat)) (omega arith)
          line)
