-- ===== src/Server/Seating/Moves.antt =====
-- A move, a timeout and a wrong message leave all players where they sit.
use kierki.Prelude.{
  ℕ, suc, ◌+◌, Bool, true, false, not, ◌||◌, ◌&&◌, List, [], ◌∷◌, ◌++◌, Option, none, some, ◌≡◌,
  refl, ◌==◌, ltb, length, get_elem?, lookup, ◌>>=◌, Returns, Returns-mono, Returns-if,
  Returns-bind,
}
use kierki.Types.{Side, side_eq, sides, Card, nxt_side, update, hand_at, tricks_per_round}
use kierki.GameRules.{is_move_legal, who_takes}
use kierki.SendJob.{SendJob, taken, trick, wrong, deal, score, total}
use kierki.IoWorkerMgr
use kierki.IoWorkerMgr.{
  WorkerStatus, serving_unknown, serving_active, serving_proxy, cleanup, cleanup_unknown, shutdown,
  status_code,
}
use kierki.Server.{Server, with_mgr, send_to_side, send_each, prepare_round, finalize}
use kierki.Server.Round.{
  update_penalties, clear_tmp_penalties, entries, ask_next, deal_all, send_scores, put_card,
  end_round, finish_trick, play, tricked_as, player_tricked,
}
use kierki.Server.Players.{handle_timeout, handle_wrong_message}
use kierki.Server.Seating.Keeping.{
  KeepsSeats, KeepsRoles-same, KeepsSeats-refl, KeepsSeats-trans, KeepsSeats-then,
  with_mgr-KeepsSeats, send_to_side-KeepsSeats, send_to_worker-KeepsSeats, send_each-KeepsSeats,
  finalize-KeepsSeats, set_role-KeepsRoles, send_kill-KeepsRoles,
}

pub send_kill-KeepsSeats :
    (ix : ℕ) (st : Server) → Returns (KeepsSeats st) (with_mgr (IoWorkerMgr.send_kill ix) st)
send_kill-KeepsSeats ix st =
    with_mgr-KeepsSeats (IoWorkerMgr.send_kill ix) st (send_kill-KeepsRoles ix st.worker_mgr)

pub set_role-KeepsSeats :
    (ix : ℕ) (role : WorkerStatus) (st : Server)
    → (status_code role == 0) ≡ false
    → Returns (KeepsSeats st) (with_mgr (IoWorkerMgr.set_role ix role) st)
set_role-KeepsSeats ix role st known =
    with_mgr-KeepsSeats (IoWorkerMgr.set_role ix role) st
      (set_role-KeepsRoles ix role st.worker_mgr known)

-- The state differs in fields of the game only.
abbrev pub SameGame : Server → Server → Type 0
SameGame st t =
    (t.active_sides ≡ st.active_sides)
    × (t.worker_to_side ≡ st.worker_to_side)
    × (t.players_connected ≡ st.players_connected)
    × (t.worker_mgr ≡ st.worker_mgr)

pub KeepsSeats-game : (st t : Server) → SameGame st t → KeepsSeats st t
KeepsSeats-game st t (a, w, c, m) = record {
  same_active = a;
  same_sides = w;
  same_count = c;
  roles = rw m (KeepsRoles-same st.worker_mgr st.worker_mgr refl refl);
}

-- Such a change, and a step behind it.
pub KeepsSeats-after :
    (st t : Server) (x : Option Server)
    → SameGame st t
    → Returns (KeepsSeats t) x
    → Returns (KeepsSeats st) x
KeepsSeats-after st t x g h =
    Returns-mono (KeepsSeats t) (KeepsSeats st) x
      (λ u q. KeepsSeats-trans (KeepsSeats-game st t g) q) h

abbrev pub KeepsAnswer : Server → Server × Bool → Type 0
KeepsAnswer st (t, b) = KeepsSeats st t

-- A step with an answer of the handler behind it.
pub with_answer :
    (st : Server) (x : Option Server) (b : Bool)
    → Returns (KeepsSeats st) x
    → Returns (KeepsAnswer st) (x >>= λ t. some (t, b))
with_answer st none b h = tt
with_answer st (some t) b h = h

pub ask_next-KeepsSeats : (st : Server) → Returns (KeepsSeats st) (ask_next st)
unfolding ask_next
ask_next-KeepsSeats st = send_to_side-KeepsSeats (trick st.table st.trick_no) st.next_move st

pub deal_all-KeepsSeats : (st : Server) → Returns (KeepsSeats st) (deal_all st)
unfolding deal_all
deal_all-KeepsSeats st =
    send_each-KeepsSeats (λ s. deal st.round_mode st.next_move (hand_at st.hands s)) sides st

pub prepare_round-KeepsSeats : (st : Server) → Returns (KeepsSeats st) (prepare_round st)
unfolding prepare_round
prepare_round-KeepsSeats st =
    Returns-bind (KeepsSeats st) (get_elem? st.game_scenario st.round_number) _
      (λ d e. KeepsSeats-game st _ (refl, refl, refl, refl))

send_scores-KeepsSeats :
    (msg_score msg_total : SendJob) (ss : List Side) (st : Server)
    → Returns (KeepsSeats st) (send_scores msg_score msg_total ss st)
unfolding send_scores
send_scores-KeepsSeats msg_score msg_total [] st = KeepsSeats-refl st
send_scores-KeepsSeats msg_score msg_total (s ∷ ss) st =
    KeepsSeats-then st (send_to_side msg_score s st) _ (send_to_side-KeepsSeats msg_score s st)
      (λ st1.
        KeepsSeats-then st1 (send_to_side msg_total s st1) (send_scores msg_score msg_total ss)
          (send_to_side-KeepsSeats msg_total s st1) (send_scores-KeepsSeats msg_score msg_total ss))

-- The next round behind a state whose round is over.
next_round-KeepsSeats :
    (st : Server)
    → Returns (KeepsSeats st) (do
      st4 ← prepare_round st
      st5 ← deal_all (record st4 { last_deal = st4.hands })
      ask_next st5)
next_round-KeepsSeats st =
    KeepsSeats-then st (prepare_round st) _ (prepare_round-KeepsSeats st) (λ st4.
      let t = record st4 { last_deal = st4.hands } in
      KeepsSeats-after st4 t _ (refl, refl, refl, refl)
        (KeepsSeats-then t (deal_all t) ask_next (deal_all-KeepsSeats t) ask_next-KeepsSeats))

module _ (order : List Side) where
  end_round-KeepsSeats : (st : Server) → Returns (KeepsSeats st) (end_round order st)
  unfolding end_round
  end_round-KeepsSeats st =
      let st1 = record st { penalties = update_penalties sides st.penalties_round st.penalties } in
      let msg_score = score (entries order st1.penalties_round) in
      let msg_total = total (entries order st1.penalties) in
      KeepsSeats-after st st1 _ (refl, refl, refl, refl)
        (KeepsSeats-then st1 (send_scores msg_score msg_total sides st1) _
          (send_scores-KeepsSeats msg_score msg_total sides st1)
          (λ st2.
            let st3 = record st2 {
              penalties_round = clear_tmp_penalties sides st2.penalties_round;
              round_number = suc st2.round_number;
            } in
            KeepsSeats-after st2 st3 _ (refl, refl, refl, refl)
              (Returns-if (KeepsSeats st3) (st3.round_number == length st3.game_scenario)
                (finalize st3) _ (λ e. finalize-KeepsSeats st3) (λ e. next_round-KeepsSeats st3))))

  finish_trick-KeepsSeats : (st : Server) → Returns (KeepsSeats st) (finish_trick order st)
  unfolding finish_trick
  finish_trick-KeepsSeats st =
      Returns-bind (KeepsSeats st) (who_takes st.next_move st.table st.round_mode st.trick_no) _
        (λ r e.
          let msg_taken = taken st.table r.0 st.trick_no in
          let st1 = record st {
            next_move = r.0;
            penalties_round = update st.penalties_round r.0 (st.penalties_round r.0 + r.1);
            trick_no = suc st.trick_no;
            table = [];
          } in
          KeepsSeats-after st st1 _ (refl, refl, refl, refl)
            (KeepsSeats-then st1 (send_each (λ s. msg_taken) sides st1) _
              (send_each-KeepsSeats (λ s. msg_taken) sides st1)
              (λ st2.
                let st3 = record st2 { taken_in_round = st2.taken_in_round ++ msg_taken ∷ [] } in
                KeepsSeats-after st2 st3 _ (refl, refl, refl, refl)
                  (Returns-if (KeepsSeats st3) (st3.trick_no == tricks_per_round + 1)
                    (end_round order st3) _ (λ f. end_round-KeepsSeats st3)
                    (λ f. ask_next-KeepsSeats st3)))))

  put_card-KeepsSeats :
      (card : Card) (side : Side) (st : Server) → Returns (KeepsSeats st) (put_card card side st)
  unfolding put_card
  put_card-KeepsSeats card side st =
      Returns-bind (KeepsSeats st) (nxt_side st.next_move) _
        (λ n e. KeepsSeats-game st _ (refl, refl, refl, refl))

  play-KeepsSeats :
      (n : ℕ) (card : Card) (side : Side) (st : Server)
      → Returns (KeepsSeats st) (play order n card side st)
  unfolding play
  play-KeepsSeats n card side st =
      let refusal = send_to_side-KeepsSeats (wrong st.trick_no) side st in
      Returns-if (KeepsSeats st) (not (n == st.trick_no) || not (side_eq st.next_move side))
        (send_to_side (wrong st.trick_no) side st) _ (λ e. refusal)
        (λ e. Returns-bind (KeepsSeats st) (is_move_legal side card st.hands st.table) _ (λ legal f.
          Returns-if (KeepsSeats st) (not legal) (send_to_side (wrong st.trick_no) side st) _
            (λ g. refusal)
            (λ g.
              KeepsSeats-then st (put_card card side st) _ (put_card-KeepsSeats card side st)
                (λ st1.
                  Returns-if (KeepsSeats st1) (length st1.table == 4) (finish_trick order st1) _
                    (λ k. finish_trick-KeepsSeats st1) (λ k. ask_next-KeepsSeats st1)))))

  tricked_as-KeepsSeats :
      (role : WorkerStatus) (n : ℕ) (card : Card) (ix : ℕ) (st : Server)
      → Returns (KeepsSeats st) (tricked_as order role n card ix st)
  unfolding tricked_as
  tricked_as-KeepsSeats serving_unknown n card ix st =
      KeepsSeats-then st (with_mgr (IoWorkerMgr.set_role ix cleanup_unknown) st) _
        (set_role-KeepsSeats ix cleanup_unknown st refl) (send_kill-KeepsSeats ix)
  tricked_as-KeepsSeats serving_active n card ix st =
      Returns-bind (KeepsSeats st) (lookup ix st.worker_to_side) _
        (λ side e. play-KeepsSeats n card side st)
  tricked_as-KeepsSeats serving_proxy n card ix st =
      KeepsSeats-then st (with_mgr (IoWorkerMgr.set_role ix cleanup_unknown) st) finalize
        (set_role-KeepsSeats ix cleanup_unknown st refl) finalize-KeepsSeats
  tricked_as-KeepsSeats cleanup n card ix st =
      Returns-bind (KeepsSeats st) (lookup ix st.zombie_worker_to_side) _
        (λ side e. play-KeepsSeats n card side st)
  tricked_as-KeepsSeats cleanup_unknown n card ix st = KeepsSeats-refl st
  tricked_as-KeepsSeats shutdown n card ix st = KeepsSeats-refl st

  pub player_tricked-KeepsSeats :
      (n : ℕ) (card : Card) (ix : ℕ) (st : Server)
      → Returns (KeepsAnswer st) (player_tricked order n card ix st)
  unfolding player_tricked
  player_tricked-KeepsSeats n card ix st =
      Returns-if (KeepsAnswer st) (ltb st.players_connected 4) (some (st, false)) _
        (λ e. KeepsSeats-refl st)
        (λ e. Returns-bind (KeepsAnswer st) (IoWorkerMgr.get_role ix st.worker_mgr) _ (λ role f.
          with_answer st (tricked_as order role n card ix st) true
            (tricked_as-KeepsSeats role n card ix st)))

pub handle_timeout-KeepsSeats :
    (ix : ℕ) (st : Server) → Returns (KeepsSeats st) (handle_timeout ix st)
unfolding handle_timeout
handle_timeout-KeepsSeats ix st =
    Returns-if (KeepsSeats st) st.exiting (some st) _ (λ e. KeepsSeats-refl st)
      (λ e. Returns-bind (KeepsSeats st) (IoWorkerMgr.get_role ix st.worker_mgr) _ (λ role f.
        Returns-if (KeepsSeats st) (status_code role == status_code serving_unknown) _ _
          (λ g. send_kill-KeepsSeats ix st)
          (λ g.
            Returns-if (KeepsSeats st) (status_code role == status_code serving_active) _ (some st)
              (λ h. Returns-bind (KeepsSeats st) (lookup ix st.worker_to_side) _ (λ side k.
                Returns-if (KeepsSeats st) (not (side_eq st.next_move side)) (some st) _
                  (λ l. KeepsSeats-refl st)
                  (λ l.
                    Returns-if (KeepsSeats st) (ltb st.players_connected 4) (some st) _
                      (λ o. KeepsSeats-refl st)
                      (λ o. send_to_worker-KeepsSeats (trick st.table st.trick_no) ix st))))
              (λ h. KeepsSeats-refl st))))

pub handle_wrong_message-KeepsSeats :
    (ix : ℕ) (st : Server) → Returns (KeepsAnswer st) (handle_wrong_message ix st)
unfolding handle_wrong_message
handle_wrong_message-KeepsSeats ix st =
    Returns-if (KeepsAnswer st) (ltb st.players_connected 4 && not st.exiting) (some (st, false)) _
      (λ e. KeepsSeats-refl st)
      (λ e.
        with_answer st (with_mgr (IoWorkerMgr.send_kill ix) st) true (send_kill-KeepsSeats ix st))
