-- ===== src/Client/Run.antt =====
-- client/client.cpp: `run` and the methods that the player calls back. What the system calls answer
-- is an argument: a poll, the bytes that can be read at once and what is behind them, and whether
-- the socket takes a message as a whole. `anyMsg`, which only prints, and the addresses are left
-- out. `none` is an exception, which ends `run`. A card was made by its constructor, so a copy that
-- is made of its value and its colour is the card itself.
use kierki.Prelude.{
  ℕ, ◌-◌, Bool, true, false, List, [], ◌∷◌, ◌++◌, Option, none, some, ◌>>=◌, if◌then◌else◌, Bytes,
  codes, ◌==◌, ltb, length, take,
}
use kierki.Types.{Side, Card, color_h}
use kierki.SendJob.{SendJob, intro, trick, gen_msg}
use kierki.IoWorkerHandler.{RecvEnd, would_block, peer_closed}
use kierki.Client.Dispatch.{
  GameStage, pre, after_total, ClientState, PlayerCall, deal_call, trick_call, taken_call,
  score_call, wrong_call, busy_call, on_server_line,
}
use kierki.Client.PlayerAuto
use kierki.Client.PlayerAuto.{PlayerAuto}

-- The fields of the client that the player's calls change; `sent` are the bytes that the socket
-- took.
pub record ClientEnd : Type 0 where
  pub state : ClientState
  pub selected_card : Card
  pub sent : Bytes

-- The constructor, and the variable `stage` of `run`.
unfoldable pub client_end : ClientEnd
client_end = record {
  state = record {
    stage = pre;
    waiting_for_card = false;
    trick_no = 1;
    exit_flag = 0;
    terminate = false;
  };
  selected_card = record { value = codes "3"; col = color_h; true_val = 3 };
  sent = [];
}

-- `isWaitingForCard`.
unfoldable pub is_waiting_for_card : ClientEnd → Bool
is_waiting_for_card c = c.state.waiting_for_card

-- `stage != AFTER_TOTAL`.
abbrev pub not_total : GameStage → ℕ
not_total after_total = 0
not_total _ = 1

-- A player's handlers and `anyCmd`, with the callbacks of `setup` at the client's end.
pub record Player (π : Type 0) : Type 0 where
  pub on_call : PlayerCall → π → ClientEnd → Option (π × ClientEnd)
  pub any_cmd : Bytes → π → ClientEnd → Option (π × ClientEnd)

-- Whether a message is taken as a whole, behind the bytes that were sent.
module _ (takes : Bytes → Bytes → Bool) where
  -- `sendMessage`; the second result is false where it throws.
  unfoldable pub send_message : SendJob → ClientEnd → ClientEnd × Bool
  send_message job c =
      if takes c.sent (gen_msg job)
      then (record c { sent = c.sent ++ gen_msg job }, true)
      else (c, false)

  -- `chooseCard`; the second result is false where it throws.
  unfoldable pub choose_card : Card → ClientEnd → ClientEnd × Bool
  unfolding send_message
  choose_card card c0 =
      let c = record c0 { selected_card = card } in
      if c.state.waiting_for_card
      then (let (c', ok) = send_message (trick (card ∷ []) c.state.trick_no) c in
          (
            if ok then record c' { state = record c'.state { waiting_for_card = false } } else c',
            ok,
          ))
      else (c, true)

  -- `putCb` at the end of the automatic player's `trickMsg`.
  unfoldable pub put : Option Card → ClientEnd → Option ClientEnd
  unfolding choose_card
  put none c = some c
  put (some card) c = let (c', ok) = choose_card card c in if ok then some c' else none

  -- The automatic player, whose `scoreMsg`, `busyMsg` and `anyCmd` do nothing.
  unfoldable pub auto_call : PlayerCall → PlayerAuto → ClientEnd → Option (PlayerAuto × ClientEnd)
  unfolding put
  auto_call (deal_call trick_mode hand starting) p c = some (PlayerAuto.deal_msg hand p, c)
  auto_call (trick_call trick_no table) p c = do
    (p', card) ← PlayerAuto.trick_msg trick_no table p
    c' ← put card c
    some (p', c')
  auto_call (taken_call side cards trick_no apply) p c =
      some (PlayerAuto.taken_msg cards trick_no apply p, c)
  auto_call (score_call scores total) p c = some (p, c)
  auto_call (wrong_call trick_no) p c = some (PlayerAuto.wrong_msg trick_no p, c)
  auto_call (busy_call taken) p c = some (p, c)

  unfoldable pub auto_player : Player PlayerAuto
  unfolding auto_call
  auto_player = record { on_call = auto_call; any_cmd = λ msg p c. some (p, c) }

-- What `poll` answers: an error, an event of the standard input, which comes first, or one of the
-- socket.
pub data Polled : Type 0 where
  poll_error input_gone sock_gone no_event : Polled
  input_ready : (incoming : Bytes) (stop : RecvEnd) → Polled
  sock_ready : (incoming : Bytes) (stop : RecvEnd) → Polled

-- The client with its player, and what is read of a command and of a line.
pub record Session (π : Type 0) : Type 0 where
  pub player : π
  pub client : ClientEnd
  pub next_cmd : Bytes
  pub next_msg : Bytes

module _ {π : Type 0} (player : Player π) where
  -- One byte of the standard input.
  unfoldable pub take_input : ℕ → Session π → Option (Session π)
  take_input c s =
      if c == b'\n'
      then (do
        (p, e) ← player.any_cmd s.next_cmd s.player s.client
        some (record s { player = p; client = e; next_cmd = [] }))
      else some (record s { next_cmd = s.next_cmd ++ c ∷ [] })

  -- The loop over the bytes of the standard input.
  unfoldable pub read_input : Bytes → Session π → Option (Session π)
  unfolding take_input
  read_input [] s = some s
  read_input (c ∷ cs) s = do s' ← take_input c s; read_input cs s'

  -- `nextMsg.substr(0, nextMsg.size() - 2)`: of a text that is too short the size wraps around.
  abbrev pub cut_end : Bytes → Bytes
  cut_end msg = if ltb (length msg) 2 then msg else take (length msg - 2) msg

  unfoldable pub make_call : Option PlayerCall → Session π → Option (Session π)
  make_call none s = some s
  make_call (some call) s = do
    (p, e) ← player.on_call call s.player s.client
    some (record s { player = p; client = e })

  -- A line from the server.
  unfoldable pub take_line : Bytes → Session π → Option (Session π)
  unfolding make_call
  take_line line s = do
    (state', call) ← on_server_line line s.client.state
    make_call call (record s { client = record s.client { state = state' } })

  -- One byte of the socket; a line ends with it or not.
  unfoldable pub take_msg : ℕ → Session π → Option (Session π)
  unfolding take_line
  take_msg c s =
      let next = s.next_msg ++ c ∷ [] in
      if c == b'\n'
      then take_line (cut_end next) (record s { next_msg = [] })
      else some (record s { next_msg = next })

  -- The loop over the bytes of the socket; the second result says whether a message has ended it,
  -- and the last what is left in the socket.
  unfoldable pub read_sock : Bytes → Session π → Option (Session π × Bool × Bytes)
  unfolding take_msg
  read_sock [] s = some (s, false, [])
  read_sock (c ∷ cs) s = (take_msg c s) >>= λ s'. elim s'.client.state.terminate [
    | true ↦ some (s', true, cs)
    | false ↦ read_sock cs s'
  ]

  -- What the last `recv` answers.
  unfoldable pub after_sock : RecvEnd → Session π → Option (Session π)
  after_sock would_block s = some s
  after_sock peer_closed s = some (record s {
    client = record s.client {
      state = record s.client.state {
        exit_flag = not_total s.client.state.stage;
        terminate = true;
      };
    };
  })
  after_sock _ s = none

  unfoldable pub on_sock : Bytes → RecvEnd → Session π → Option (Session π × Bytes)
  unfolding read_sock after_sock
  on_sock incoming stop s = do
    (s', ended, left) ← read_sock incoming s
    if ended then some (s', left) else (do s'' ← after_sock stop s'; some (s'', left))

  -- The end of the standard input is not an error.
  unfoldable pub after_input : RecvEnd → Session π → Option (Session π)
  after_input would_block s = some s
  after_input peer_closed s = some s
  after_input _ s = none

  -- One round of the loop of `run`.
  unfoldable pub step : Polled → Session π → Option (Session π)
  unfolding read_input after_input on_sock
  step no_event s = some s
  step (input_ready incoming stop) s = do s' ← read_input incoming s; after_input stop s'
  step (sock_ready incoming stop) s = do (s', left) ← on_sock incoming stop s; some s'
  step _ s = none

  -- The loop, for a list of answers of `poll`, and the value that `run` returns; `none` inside is a
  -- client that waits for one more answer.
  unfoldable pub run_loop : List Polled → Session π → Option (Session π × Option ℕ)
  unfolding step
  run_loop [] s = some (s, if s.client.state.terminate then some s.client.state.exit_flag else none)
  run_loop (polled ∷ rest) s = elim s.client.state.terminate [
    | true ↦ some (s, some s.client.state.exit_flag)
    | false ↦ (step polled s) >>= λ s'. run_loop rest s'
  ]

-- `run`, behind the connection: the introduction is sent first.
unfoldable pub run :
    {π : Type 0} (takes : Bytes → Bytes → Bool) (player : Player π) (side : Side)
    → List Polled
    → π
    → Option (Session π × Option ℕ)
unfolding send_message run_loop
run takes player side polled p =
    let (c, ok) = send_message takes (intro side) client_end in
    if ok
    then run_loop player polled (record { player = p; client = c; next_cmd = []; next_msg = [] })
    else none
