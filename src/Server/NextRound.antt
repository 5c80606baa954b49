-- ===== src/Server/NextRound.antt =====
-- The end of a round: the scores go out, and the next round of the scenario is dealt.
use kierki.Prelude.{
  ℕ, zero, suc, ◌+◌, ◌<◌, List, [], ◌∷◌, some, ◌≡◌, refl, arith, ◌==◌, ◌>>=◌, inl, inr, Bool-cases,
  All, length, get_elem?,
}
use kierki.Types.{Side, sides, RoundType, TableState, tricks_per_round, hand_at}
use kierki.SendJob.{deal, score, total, trick}
use kierki.Server.{Server, prepare_round}
use kierki.Server.Round.{
  update_penalties, clear_tmp_penalties, entries, ask_next, deal_all, end_round,
}
use kierki.Server.Sending.{
  Sent-AllServed, AllServed, Ended, send_to_side-Sent, send_each-Sent, send_scores-Sent,
  finalize-Ended, Ended-AllServed, delivered, mgr-AllServed,
}
use kierki.Server.Turns.{turns_since_range}
use kierki.Server.Invariant.{IsBalanced, IsDeal, IsPlayable, Sent-IsPlayable}

get_elem?-All :
    (P : RoundType × TableState × Side → Type 0) (xs : List (RoundType × TableState × Side)) (i : ℕ)
    → All P xs
    → i < length xs
    → (x : RoundType × TableState × Side) × (get_elem? xs i ≡ some x) × P x
get_elem?-All P [] i h lt = absurd (omega arith)
get_elem?-All P (x ∷ xs) zero (h, hs) lt = (x, refl, h)
get_elem?-All P (x ∷ xs) (suc i) (h, hs) lt = get_elem?-All P xs i hs (omega arith)

-- A game that can be played, with a worker that is there for every seat.
abbrev pub IsReady : Server → Type 0
IsReady st = IsPlayable st × AllServed st

pub ask_next-IsReady :
    (st : Server)
    → IsPlayable st
    → AllServed st
    → (st' : Server) × (ask_next st ≡ some st') × IsReady st'
unfolding ask_next
ask_next-IsReady st v a =
    let (st', e, p) =
      send_to_side-Sent (trick st.table st.trick_no) st.next_move st
        (a st.next_move v.balanced.next_seat) in
    (st', e, (Sent-IsPlayable p v, Sent-AllServed p a))

-- A round that has been prepared from a deal of the scenario.
abbrev prepared : RoundType × TableState × Side → Server → Server
prepared (mode, state, starting) st = record st {
  round_mode = mode;
  hands = state;
  next_move = starting;
  trick_no = 1;
  taken_in_round = [];
  last_deal = state;
}

prepared-IsPlayable :
    (d : RoundType × TableState × Side) (st : Server)
    → IsDeal d
    → All IsDeal st.game_scenario
    → st.round_number < length st.game_scenario
    → st.table ≡ []
    → IsPlayable (prepared d st)
prepared-IsPlayable (mode, state, starting) st (seat, full) deals lt empty = record {
  balanced = record {
    next_seat = seat;
    fits = λ s h.
        let (hand, eh, len) = full s h in
        (hand, eh, rw empty (ground (arith, len, turns_since_range starting s)));
    started = omega arith;
  };
  open_trick = rw empty (omega arith);
  deals = deals;
  rounds = inl lt;
}

-- The round that follows is dealt, and its first player is asked.
next_round-IsReady :
    (st : Server)
    → All IsDeal st.game_scenario
    → st.round_number < length st.game_scenario
    → st.table ≡ []
    → AllServed st
    → (st' : Server) × ((do
      st4 ← prepare_round st
      st5 ← deal_all (record st4 { last_deal = st4.hands })
      ask_next st5)
        ≡ some st')
      × IsReady st'
unfolding prepare_round deal_all
next_round-IsReady st deals lt empty a =
    let (d, e, good) = get_elem?-All IsDeal st.game_scenario st.round_number deals lt in
    let st4 = prepared d st in
    let v = prepared-IsPlayable d st good deals lt empty in
    let (st5, e5, p5) =
      send_each-Sent (λ s. deal st4.round_mode st4.next_move (hand_at st4.hands s)) st4 a in
    let (st6, e6, asked) = ask_next-IsReady st5 (Sent-IsPlayable p5 v) (Sent-AllServed p5 a) in
    (st6, rw (e, e5) e6, asked)

Ended-IsPlayable : (st : Server) {st' : Server} → Ended st st' → IsPlayable st → IsPlayable st'
Ended-IsPlayable st (m, e, same, roles) v = rw e (record {
  balanced = record {
    next_seat = v.balanced.next_seat;
    fits = v.balanced.fits;
    started = v.balanced.started;
  };
  open_trick = v.open_trick;
  deals = v.deals;
  rounds = v.rounds;
})

-- After the last trick of a round.
pub end_round-IsReady :
    (order : List Side) (st : Server)
    → IsBalanced st
    → All IsDeal st.game_scenario
    → st.round_number < length st.game_scenario
    → st.table ≡ []
    → st.trick_no ≡ tricks_per_round + 1
    → AllServed st
    → (st' : Server) × (end_round order st ≡ some st') × IsReady st'
unfolding end_round
end_round-IsReady order st v deals lt empty last a =
    let st1 = record st { penalties = update_penalties sides st.penalties_round st.penalties } in
    let msg_score = score (entries order st1.penalties_round) in
    let msg_total = total (entries order st1.penalties) in
    let (m, e, p) = delivered _ st1 (send_scores-Sent msg_score msg_total st1 a) in
    let st3 = record st1 {
      worker_mgr = m;
      penalties_round = clear_tmp_penalties sides st.penalties_round;
      round_number = suc st.round_number;
    } in
    let a3 : AllServed st3 = mgr-AllServed st1 m p a in
    elim (Bool-cases (suc st.round_number == length st.game_scenario)) [
      | inl over ↦
          let v3 : IsPlayable st3 = record {
            balanced = record { next_seat = v.next_seat; fits = v.fits; started = v.started };
            open_trick = rw empty (omega arith);
            deals = deals;
            rounds = inr last;
          } in
          let (st', e', ended) = finalize-Ended st3 in
          (st', rw (e, over) e', (Ended-IsPlayable st3 ended v3, Ended-AllServed st3 ended a3))
      | inr more ↦
          let (st', e', asked) = next_round-IsReady st3 deals (ground arith) empty a3 in
          (st', rw (e, more) e', asked)
    ]
