-- ===== src/Server/Play.antt =====
-- `playerTricked` never fails in a game that can be played, and leaves one.
use kierki.Prelude.{
  ℕ, suc, ◌+◌, ◌<◌, true, not, ◌||◌, List, [], ◌∷◌, ◌++◌, some, ◌≡◌, refl, ◌∙◌, ap, arith, ◌==◌,
  if◌then◌else◌, ◌>>=◌, inl, inr, Bool-cases, All, length, length-append,
}
use kierki.Types.{Side, IsSeat, side_eq, sides, RoundType, Card, Table, tricks_per_round, update}
use kierki.Hands.Laws.{length-rm_card_if_present}
use kierki.Server.NextRound.{IsReady, ask_next-IsReady, end_round-IsReady}
use kierki.GameRules.{is_move_legal, who_takes, penalty}
use kierki.GameRules.Legal.{is_move_legal_total, legal-holds}
use kierki.GameRules.Taker.{who_takes-IsBest}
use kierki.SendJob.{SendJob, taken, wrong}
use kierki.Server.{Server, send_to_side, send_each}
use kierki.Server.Round.{ask_next, finish_trick, put_card, play}
use kierki.Server.Sending.{
  Sent-AllServed, AllServed, send_to_side-Sent, send_each-Sent, delivered, mgr-AllServed,
}
use kierki.Server.Turns.{nxt_side-IsSeat, side_eq_sound}
use kierki.Server.Invariant.{
  IsBalanced, IsDeal, IsPlayable, Sent-IsPlayable, moved, moved-IsBalanced, cleared,
  cleared-IsBalanced,
}

four_cards : (t : Table) → length t ≡ 4 → (a b c d : Card) × (t ≡ a ∷ b ∷ c ∷ d ∷ [])
four_cards [] h = absurd (omega arith)
four_cards (a ∷ []) h = absurd (omega arith)
four_cards (a ∷ b ∷ []) h = absurd (omega arith)
four_cards (a ∷ b ∷ c ∷ []) h = absurd (omega arith)
four_cards (a ∷ b ∷ c ∷ d ∷ []) h = (a, b, c, d, refl)
four_cards (a ∷ b ∷ c ∷ d ∷ e ∷ t) h = absurd (omega arith)

who_takes_total :
    (s : Side) (t : Table) (round_type : RoundType) (trick_no : ℕ)
    → IsSeat s
    → length t ≡ 4
    → (taker : Side) × (pen : ℕ) × (who_takes s t round_type trick_no ≡ some (taker, pen))
      × IsSeat taker
who_takes_total s t round_type trick_no h full =
    let (a, b, c, d, e) = four_cards t full in
    let (ix, taker, adv, seat, f, best) = who_takes-IsBest s a b c d round_type trick_no h in
    (taker, penalty round_type (a ∷ b ∷ c ∷ d ∷ []) trick_no, rw e f, seat)

finish_trick-IsReady :
    (order : List Side) (st : Server)
    → IsBalanced st
    → All IsDeal st.game_scenario
    → st.round_number < length st.game_scenario
    → length st.table ≡ 4
    → AllServed st
    → (st' : Server) × (finish_trick order st ≡ some st') × IsReady st'
unfolding finish_trick
finish_trick-IsReady order st v deals lt full a =
    let (taker, pen, e, seat) =
      who_takes_total st.next_move st.table st.round_mode st.trick_no v.next_seat full in
    let pens = update st.penalties_round taker (st.penalties_round taker + pen) in
    let st1 = cleared taker pens st in
    let msg = taken st.table taker st.trick_no in
    let (m, e2, p) =
      delivered (send_each (λ s. msg) sides st1) st1 (send_each-Sent (λ s. msg) st1 a) in
    let v1 = cleared-IsBalanced taker pens st seat v full in
    let st3 = record st1 { worker_mgr = m; taken_in_round = st.taken_in_round ++ msg ∷ [] } in
    let v3 : IsBalanced st3 = record {
      next_seat = v1.next_seat;
      fits = v1.fits;
      started = v1.started;
    } in
    let a3 : AllServed st3 = mgr-AllServed st1 m p a in
    elim (Bool-cases (suc st.trick_no == tricks_per_round + 1)) [
      | inl last ↦
          let (st', e', r) = end_round-IsReady order st3 v3 deals lt refl (ground arith) a3 in
          (st', rw (e, e2, last) e', r)
      | inr more ↦
          let (st', e', r) =
            ask_next-IsReady st3
              (record { balanced = v3; open_trick = omega arith; deals = deals; rounds = inl lt })
              a3 in
          (st', rw (e, e2, more) e', r)
    ]

-- While a hand holds a card, the round is not over, and so the scenario has rounds left.
more_rounds :
    (card : Card) (st : Server)
    → IsPlayable st
    → is_move_legal st.next_move card st.hands st.table ≡ some true
    → st.round_number < length st.game_scenario
more_rounds card st v legal =
    let (h, eh, fit) = v.balanced.fits st.next_move v.balanced.next_seat in
    let held = legal-holds st.next_move card st.hands st.table h eh legal in
    let size = length-rm_card_if_present h card in
    elim v.rounds [ inl lt ↦ lt | inr over ↦ absurd (ground (arith, held, size, fit, over)) ]

-- A legal card of the side to move goes to the table.
put_card-IsReady :
    (order : List Side) (card : Card) (side : Side) (st : Server)
    → IsReady st
    → st.next_move ≡ side
    → is_move_legal side card st.hands st.table ≡ some true
    → (st' : Server) × ((do
      st1 ← put_card card side st
      if length st1.table == 4 then finish_trick order st1 else ask_next st1)
        ≡ some st')
      × IsReady st'
unfolding put_card
put_card-IsReady order card side st (v, a) turn legal = rw (← turn) (
    let (next', en, seat) = nxt_side-IsSeat st.next_move v.balanced.next_seat in
    let ok : is_move_legal st.next_move card st.hands st.table ≡ some true = rw (← turn) at legal in
    let st1 = moved card next' st in
    let v1 = moved-IsBalanced card st next' en seat v.balanced v.open_trick ok in
    let lt = more_rounds card st v ok in
    elim (Bool-cases (length st1.table == 4)) [
      | inl full ↦
          let (st', e', r) = finish_trick-IsReady order st1 v1 v.deals lt (ground arith) a in
          (st', rw (en, full) e', r)
      | inr open_ ↦
          let (st', e', r) =
            ask_next-IsReady st1
              (record {
                balanced = v1;
                open_trick = ground (arith, length-append st.table (card ∷ []), v.open_trick);
                deals = v.deals;
                rounds = inl lt;
              })
              a in
          (st', rw (en, open_) e', r)
    ])

send_wrong-IsReady :
    (job : SendJob) (side : Side) (st : Server)
    → IsReady st
    → IsSeat side
    → (st' : Server) × (send_to_side job side st ≡ some st') × IsReady st'
send_wrong-IsReady job side st (v, a) h =
    let (st', e, p) = send_to_side-Sent job side st (a side h) in
    (st', e, (Sent-IsPlayable p v, Sent-AllServed p a))

-- Any card that a seat plays, with any trick number, is handled without a failure, and leaves a
-- game that can be played: hands, table and trick number still fit, and every seat has its worker.
pub play-IsReady :
    (order : List Side) (trick_no_arg : ℕ) (card : Card) (side : Side) (st : Server)
    → IsReady st
    → IsSeat side
    → (st' : Server) × (play order trick_no_arg card side st ≡ some st') × IsReady st'
unfolding play
play-IsReady order trick_no_arg card side st (v, a) h =
    let (st', e', r) = send_wrong-IsReady (wrong st.trick_no) side st (v, a) h in
    elim (Bool-cases (not (trick_no_arg == st.trick_no) || not (side_eq st.next_move side))) [
      | inl bad ↦ (st', rw bad e', r)
      | inr good ↦
          let (hand, eh, fit) = v.balanced.fits side h in
          let (legal, el) = is_move_legal_total side card st.hands st.table hand eh in
          elim (Bool-cases legal) [
            | inl yes_ ↦
                let turn : st.next_move ≡ side = side_eq_sound st.next_move side (ground arith) in
                let (st2, e2, r2) =
                  put_card-IsReady order card side st (v, a) turn (el ∙ ap some yes_) in
                (st2, rw (good, el, yes_) e2, r2)
            | inr no_ ↦ (st', rw (good, el, no_) e', r)
          ]
    ]
