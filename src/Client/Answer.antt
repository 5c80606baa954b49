-- ===== src/Client/Answer.antt =====
-- From the bytes that the server sends to the bytes that the client sends back.
use kierki.Prelude.{
  ℕ, ◌≤◌, ◌≢◌, Bool, true, false, [], ◌∷◌, ◌++◌, some, ◌>>=◌, Bytes, ◌≡◌, refl, ap, ◌∙◌, All,
}
use kierki.Types.{Side, Card, Table, TableState}
use kierki.Card.Laws.{IsCard}
use kierki.SendJob.{SendJob, busy, deal, intro, score, taken, total, trick, wrong, body, gen_msg}
use kierki.GameRules.{is_move_legal}
use kierki.MsgParser.Lines.{parse_net_msg-IsWithout}
use kierki.MsgParser.RoundTrip.{IsToClient, parse_net_msg-to_client}
use kierki.Regex.Avoiding.{IsWithout}
use kierki.Client.Delivery.{cards_of, call_of, client_behind, on_server_line-call_of}
use kierki.Client.PlayerAuto
use kierki.Client.PlayerAuto.{PlayerAuto}
use kierki.Client.Recovery.{trick_msg_answer}
use kierki.Client.Run.{
  Session, Player, take_line, read_sock, make_call, auto_player, auto_call, put, choose_card,
  send_message,
}
use kierki.Client.Session.{read_on, read_on-alive, read_sock-line}

-- A message to a client holds no line feed.
body-IsWithout : (job : SendJob) → IsToClient job → IsWithout b'\n' (body job)
body-IsWithout (busy sides) h =
    parse_net_msg-IsWithout (body (busy sides)) false (parse_net_msg-to_client (busy sides) h)
body-IsWithout (deal rt st cards) h =
    parse_net_msg-IsWithout (body (deal rt st cards)) false
      (parse_net_msg-to_client (deal rt st cards) h)
body-IsWithout (intro st) h = absurd h
body-IsWithout (score scores) h =
    parse_net_msg-IsWithout (body (score scores)) false (parse_net_msg-to_client (score scores) h)
body-IsWithout (taken table st n) h =
    parse_net_msg-IsWithout (body (taken table st n)) false
      (parse_net_msg-to_client (taken table st n) h)
body-IsWithout (total scores) h =
    parse_net_msg-IsWithout (body (total scores)) false (parse_net_msg-to_client (total scores) h)
body-IsWithout (trick table n) h =
    parse_net_msg-IsWithout (body (trick table n)) false (parse_net_msg-to_client (trick table n) h)
body-IsWithout (wrong n) h =
    parse_net_msg-IsWithout (body (wrong n)) false (parse_net_msg-to_client (wrong n) h)

-- The session whose client has read a message.
abbrev pub having_read : {π : Type 0} → SendJob → Session π → Session π
having_read job s = record s {
  client = record s.client { state = client_behind job s.client.state };
}

take_line-body :
    {π : Type 0} (player : Player π) (job : SendJob) (s : Session π)
    → IsToClient job
    → All IsCard (cards_of job)
    → take_line player (body job) s
      ≡ make_call player (call_of job s.client.state.stage) (having_read job s)
unfolding take_line
take_line-body player job s h cards = rw (on_server_line-call_of job s.client.state h cards) refl

-- From the bytes of a message in the socket, whatever stands behind them, the client makes the call
-- of its player that holds what the message holds, and no other, and then reads on, or stops if the
-- client has ended. No line was begun before, and the message is one that the server may send a
-- client, with cards of the table of values.
pub read_sock-gen_msg :
    {π : Type 0} (player : Player π) (job : SendJob) (more : Bytes) (s : Session π)
    → IsToClient job
    → All IsCard (cards_of job)
    → s.client.state.terminate ≡ false
    → s.next_msg ≡ []
    → read_sock player (gen_msg job ++ more) s ≡ (
        make_call player (call_of job s.client.state.stage) (having_read job s)
        >>= read_on player more)
unfolding gen_msg
read_sock-gen_msg player job more s h cards alive empty =
    read_sock-line player (body job) more s (body-IsWithout job h) alive empty
    ∙ ap (λ x. x >>= read_on player more) (take_line-body player job s h cards)

-- The client that has answered a trick with a card.
abbrev pub having_played : ℕ → Table → Card → PlayerAuto → Session PlayerAuto → Session PlayerAuto
having_played n table c p s = record s {
  player = p;
  client = record s.client {
    state = record (client_behind (trick table n) s.client.state) { waiting_for_card = false };
    selected_card = c;
    sent = s.client.sent ++ gen_msg (trick (c ∷ []) n);
  };
}

make_call-trick :
    (takes : Bytes → Bytes → Bool) (n : ℕ) (table : Table) (c : Card) (p : PlayerAuto)
    (s : Session PlayerAuto)
    → ((m : Bytes) → takes s.client.sent m ≡ true)
    → PlayerAuto.trick_msg n table s.player ≡ some (p, some c)
    → make_call
        (auto_player takes)
        (call_of (trick table n) s.client.state.stage)
        (having_read (trick table n) s)
      ≡ some (having_played n table c p s)
unfolding make_call auto_player auto_call put choose_card send_message
make_call-trick takes n table c p s open_sock e =
    rw (e, open_sock (gen_msg (trick (c ∷ []) n))) refl

-- When the message that asks for a trick lies in the socket of a client with the automatic player,
-- the trick is due and the player has a card, then the client sends back exactly one message, a
-- move in this trick with a card that a server with the same hand accepts, and asks for no card any
-- more; then it reads on. The socket takes what is sent.
pub read_sock-answer :
    (takes : Bytes → Bytes → Bool) (n : ℕ) (table : Table) (more : Bytes) (side : Side)
    (hands : TableState) (s : Session PlayerAuto)
    → IsToClient (trick table n)
    → All IsCard table
    → s.client.state.terminate ≡ false
    → s.next_msg ≡ []
    → ((m : Bytes) → takes s.client.sent m ≡ true)
    → s.player.next_trick ≤ n
    → s.player.hand ≢ []
    → hands side ≡ some s.player.hand
    → (c : Card) × (p : PlayerAuto) × (read_sock
          (auto_player takes)
          (gen_msg (trick table n) ++ more)
          s
        ≡ read_sock (auto_player takes) more (having_played n table c p s))
      × (is_move_legal side c hands table ≡ some true)
read_sock-answer takes n table more side hands s h cards alive empty open_sock due held same =
    let (c, p, e, legal, perm, again) =
      trick_msg_answer n table s.player side hands due held same in
    (
      c,
      p,
      read_sock-gen_msg (auto_player takes) (trick table n) more s h cards alive empty
          ∙ ap (λ x. x >>= read_on (auto_player takes) more)
              (make_call-trick takes n table c p s open_sock e)
          ∙ read_on-alive (auto_player takes) more (having_played n table c p s) alive,
      legal,
    )
