-- ===== src/Server/Round.antt =====
-- The course of a round: `Server::playerTricked` and what it calls.
use kierki.Prelude.{
  ℕ, suc, ◌+◌, Bool, true, false, not, ◌||◌, List, [], ◌∷◌, ◌++◌, Option, some, ltb, ◌==◌,
  if◌then◌else◌, ◌>>=◌, length, lookup,
}
use kierki.Types.{Side, side_eq, sides, nxt_side, Card, hand_at, ScoreMap, update, tricks_per_round}
use kierki.Hands.{rm_card_if_present}
use kierki.GameRules.{is_move_legal, who_takes}
use kierki.SendJob.{SendJob, deal, score, taken, total, trick, wrong}
use kierki.IoWorkerMgr
use kierki.IoWorkerMgr.{
  WorkerStatus, serving_unknown, serving_active, serving_proxy, cleanup, cleanup_unknown, shutdown,
}
use kierki.Server.{Server, with_mgr, send_to_side, send_each, prepare_round, finalize}

-- `penalties[s] += penaltiesRound[s]` for each side of `sides_`.
unfoldable pub update_penalties : List Side → ScoreMap → ScoreMap → ScoreMap
update_penalties [] round_map pen = pen
update_penalties (s ∷ rest) round_map pen =
    update_penalties rest round_map (update pen s (pen s + round_map s))

unfoldable pub clear_tmp_penalties : List Side → ScoreMap → ScoreMap
clear_tmp_penalties [] pen = pen
clear_tmp_penalties (s ∷ rest) pen = clear_tmp_penalties rest (update pen s 0)

-- The entries of a score map in its order of iteration.
abbrev pub entries : List Side → ScoreMap → List (Side × ℕ)
entries [] m = []
entries (s ∷ rest) m = (s, m s) ∷ entries rest m

-- The message to the player who moves next.
unfoldable pub ask_next : Server → Option Server
ask_next st = send_to_side (trick st.table st.trick_no) st.next_move st

-- The deal of the round to every side.
unfoldable pub deal_all : Server → Option Server
deal_all st = send_each (λ s. deal st.round_mode st.next_move (hand_at st.hands s)) sides st

-- Both messages for each side.
unfoldable pub send_scores : SendJob → SendJob → List Side → Server → Option Server
send_scores msg_score msg_total [] st = some st
send_scores msg_score msg_total (s ∷ rest) st = do
  st1 ← send_to_side msg_score s st
  st2 ← send_to_side msg_total s st1
  send_scores msg_score msg_total rest st2

-- The card goes from the hand to the table.
unfoldable pub put_card : Card → Side → Server → Option Server
put_card card side st = do
  next ← nxt_side st.next_move
  some (record st {
    table = st.table ++ card ∷ [];
    hands = update st.hands side (some (rm_card_if_present (hand_at st.hands side) card));
    next_move = next;
  })

-- `order` is the order in which the score maps are iterated.
module _ (order : List Side) where
  -- The block for a round that is over, with the request to the next player behind it.
  unfoldable pub end_round : Server → Option Server
  unfolding ask_next deal_all send_scores update_penalties clear_tmp_penalties
  end_round st = do
    let st1 = record st { penalties = update_penalties sides st.penalties_round st.penalties }
    let msg_score = score (entries order st1.penalties_round)
    let msg_total = total (entries order st1.penalties)
    st2 ← send_scores msg_score msg_total sides st1
    let st3 = record st2 {
      penalties_round = clear_tmp_penalties sides st2.penalties_round;
      round_number = suc st2.round_number;
    }
    if st3.round_number == length st3.game_scenario then finalize st3 else (do
      st4 ← prepare_round st3
      st5 ← deal_all (record st4 { last_deal = st4.hands })
      ask_next st5)

  -- The block for a full table.
  unfoldable pub finish_trick : Server → Option Server
  unfolding end_round ask_next
  finish_trick st = do
    (taker, pen) ← who_takes st.next_move st.table st.round_mode st.trick_no
    let msg_taken = taken st.table taker st.trick_no
    let st1 = record st {
      next_move = taker;
      penalties_round = update st.penalties_round taker (st.penalties_round taker + pen);
      trick_no = suc st.trick_no;
      table = [];
    }
    st2 ← send_each (λ s. msg_taken) sides st1
    let st3 = record st2 { taken_in_round = st2.taken_in_round ++ msg_taken ∷ [] }
    if st3.trick_no == tricks_per_round + 1 then end_round st3 else ask_next st3

  -- From the tests of the move to the end, for a worker whose side is known.
  unfoldable pub play : ℕ → Card → Side → Server → Option Server
  unfolding put_card finish_trick ask_next
  play trick_no_arg card side st =
      if not (trick_no_arg == st.trick_no) || not (side_eq st.next_move side)
      then send_to_side (wrong st.trick_no) side st
      else (do
        legal ← is_move_legal side card st.hands st.table
        if not legal then send_to_side (wrong st.trick_no) side st else (do
          st1 ← put_card card side st
          if length st1.table == 4 then finish_trick st1 else ask_next st1))

  -- The `switch` on the role of the worker.
  unfoldable pub tricked_as : WorkerStatus → ℕ → Card → ℕ → Server → Option Server
  unfolding play
  tricked_as serving_unknown trick_no_arg card worker_ix st = do
    st1 ← with_mgr (IoWorkerMgr.set_role worker_ix cleanup_unknown) st
    with_mgr (IoWorkerMgr.send_kill worker_ix) st1
  tricked_as serving_active trick_no_arg card worker_ix st = do
    side ← lookup worker_ix st.worker_to_side
    play trick_no_arg card side st
  tricked_as serving_proxy trick_no_arg card worker_ix st = do
    st1 ← with_mgr (IoWorkerMgr.set_role worker_ix cleanup_unknown) st
    finalize st1
  tricked_as cleanup trick_no_arg card worker_ix st = do
    side ← lookup worker_ix st.zombie_worker_to_side
    play trick_no_arg card side st
  tricked_as cleanup_unknown trick_no_arg card worker_ix st = some st
  tricked_as shutdown trick_no_arg card worker_ix st = some st

  -- `playerTricked`, with its result: false leaves the message with the worker.
  unfoldable pub player_tricked : ℕ → Card → ℕ → Server → Option (Server × Bool)
  unfolding tricked_as
  player_tricked trick_no_arg card worker_ix st =
      if ltb st.players_connected 4 then some (st, false) else (do
        role ← IoWorkerMgr.get_role worker_ix st.worker_mgr
        st' ← tricked_as role trick_no_arg card worker_ix st
        some (st', true))
