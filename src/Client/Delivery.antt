-- ===== src/Client/Delivery.antt =====
-- What the server sends reaches the player: from a message's text to the call of the player's
-- handler.
use kierki.Prelude.{
  ◌+◌, ◌-◌, true, false, List, [], ◌∷◌, ◌++◌, Option, none, some, Bytes, codes, get_elem?,
  get_elem?-middle, length, length-append, All, ◌≡◌, refl, arith, append-nil,
}
use mathlib.Core.Path.{subst}
use kierki.Types.{
  side_char, Card, RoundType, trick_penalty, heart_penalty, queen_penalty, king_jack_penalty,
  heart_king_penalty, seventh_last_trick_penalty, everything, round_code, tricks_per_round,
}
use kierki.Card.Laws.{IsCard}
use kierki.Text.{decimal}
use kierki.Text.Decimal.{atoi-decimal}
use kierki.SendJob.{SendJob, busy, deal, taken, trick, wrong, score, total, intro, body}
use kierki.MsgParser.Pieces.{ParseResp}
use kierki.MsgParser.Cards.{card_entries}
use kierki.MsgParser.ShortRoundTrip.{side_entries}
use kierki.MsgParser.Scores.{score_entries}
use kierki.MsgParser.RoundTrip.{IsToClient, client_entries, parse_net_msg-to_client}
use kierki.Client.Dispatch.{
  GameStage, after_trick, after_score, after_total, ClientState, PlayerCall, deal_call, trick_call,
  taken_call, wrong_call, busy_call, score_call, side_at, cards_at, sides_at, scores_at, on_msg,
  on_server_line, deal_line, trick_line, taken_line, wrong_line, busy_line, score_line,
  is_first_deal, after_a_deal,
}
use kierki.Client.Entries.{
  side_of_char-side_char, length-card_entries, length-side_entries, cards_at-card_entries,
  sides_at-side_entries, score_map_of, scores_at-score_entries,
}

mode_char : (rt : RoundType) → get_elem? (decimal (round_code rt)) 0 ≡ some (b'0' + round_code rt)
unfolding decimal
mode_char trick_penalty = refl
mode_char heart_penalty = refl
mode_char queen_penalty = refl
mode_char king_jack_penalty = refl
mode_char heart_king_penalty = refl
mode_char seventh_last_trick_penalty = refl
mode_char everything = refl

-- The cards that a message holds.
abbrev pub cards_of : SendJob → List Card
cards_of (deal round_type starting cards) = cards
cards_of (taken table s trick_no) = table
cards_of (trick table trick_no) = table
cards_of _ = []

-- The call of the player that hands over what a message holds; the client's stage says whether a
-- taken trick is still to be applied.
abbrev pub call_of : SendJob → GameStage → Option PlayerCall
call_of (busy sides) stage = some (busy_call sides)
call_of (deal round_type starting cards) stage =
    some (deal_call (round_code round_type) cards starting)
call_of (intro s) stage = none
call_of (score scores) stage = some (score_call (score_map_of scores (λ s. 0)) false)
call_of (taken table s trick_no) stage = some (taken_call s table trick_no (is_first_deal stage))
call_of (total scores) stage = some (score_call (score_map_of scores (λ s. 0)) true)
call_of (trick table trick_no) stage = some (trick_call trick_no table)
call_of (wrong trick_no) stage = some (wrong_call trick_no)

-- The client behind a message.
abbrev pub client_behind : SendJob → ClientState → ClientState
client_behind (busy sides) c = record c { exit_flag = 1; terminate = true }
client_behind (deal round_type starting cards) c = record c { stage = after_a_deal c.stage }
client_behind (intro s) c = c
client_behind (score scores) c = record c { stage = after_score }
client_behind (taken table s trick_no) c = record c { trick_no = trick_no }
client_behind (total scores) c = record c { stage = after_total }
client_behind (trick table trick_no) c = record c {
  stage = after_trick;
  waiting_for_card = true;
  trick_no = trick_no;
}
client_behind (wrong trick_no) c = record c { trick_no = trick_no; waiting_for_card = true }

on_msg-client_entries :
    (job : SendJob) (c : ClientState)
    → IsToClient job
    → All IsCard (cards_of job)
    → on_msg (client_entries job) c ≡ some (client_behind job c, call_of job c.stage)
unfolding on_msg deal_line trick_line taken_line score_line wrong_line busy_line side_at
on_msg-client_entries (busy ss) c (few, many, seats) h =
    let msg : ParseResp = (codes "type", codes "BUSY") ∷ side_entries ss in
    let loop : sides_at (length ss) msg 1 ≡ some ss =
      sides_at-side_entries ss ((codes "type", codes "BUSY") ∷ []) seats in
    let all_ : length msg - 1 ≡ length ss = omega (arith, length-side_entries ss) in rw (all_, loop)
on_msg-client_entries (deal rt s cards) c (seat, n, pack) h =
    let front : ParseResp =
      (codes "type", codes "DEAL")
      ∷ (codes "round_mode", decimal (round_code rt))
      ∷ (codes "side", side_char s ∷ [])
      ∷ [] in
    let loop : cards_at tricks_per_round (front ++ card_entries cards) 3 ≡ some cards =
      subst (λ i. cards_at i (front ++ card_entries cards) 3 ≡ some cards) n
        (subst (λ m. cards_at (length cards) (front ++ m) 3 ≡ some cards)
          (append-nil (card_entries cards)) (cards_at-card_entries cards front [] h)) in
    let same : b'0' + round_code rt - b'0' ≡ round_code rt = omega arith in
    rw (mode_char rt, loop, side_of_char-side_char s seat, same)
on_msg-client_entries (intro s) c h h' = absurd h
on_msg-client_entries (score es) c (n, seats) h =
    let loop : scores_at 4 ((codes "type", codes "SCORE") ∷ score_entries es) 1 (λ s. 0)
        ≡ some (score_map_of es (λ s. 0)) =
      subst
        (λ i.
          scores_at i ((codes "type", codes "SCORE") ∷ score_entries es) 1 (λ s. 0)
          ≡ some (score_map_of es (λ s. 0)))
        n (scores_at-score_entries es ((codes "type", codes "SCORE") ∷ []) (λ s. 0) seats) in
    rw loop
on_msg-client_entries (total es) c (n, seats) h =
    let loop : scores_at 4 ((codes "type", codes "TOTAL") ∷ score_entries es) 1 (λ s. 0)
        ≡ some (score_map_of es (λ s. 0)) =
      subst
        (λ i.
          scores_at i ((codes "type", codes "TOTAL") ∷ score_entries es) 1 (λ s. 0)
          ≡ some (score_map_of es (λ s. 0)))
        n (scores_at-score_entries es ((codes "type", codes "TOTAL") ∷ []) (λ s. 0) seats) in
    rw loop
on_msg-client_entries (trick table n) c (few, pack, no_) h =
    let front : ParseResp = (codes "type", codes "TRICK_S") ∷ (codes "rn", decimal n) ∷ [] in
    let all_ : length (front ++ card_entries table) - 2 ≡ length table =
      omega (arith, length-card_entries table) in
    let loop : cards_at (length table) (front ++ card_entries table) 2 ≡ some table =
      subst (λ m. cards_at (length table) (front ++ m) 2 ≡ some table)
        (append-nil (card_entries table)) (cards_at-card_entries table front [] h) in
    rw (all_, loop, atoi-decimal n)
on_msg-client_entries (taken table s n) c (four, pack, seat, no_) h =
    let front : ParseResp = (codes "type", codes "TAKEN") ∷ (codes "rn", decimal n) ∷ [] in
    let side : Bytes × Bytes = (codes "side", side_char s ∷ []) in
    let msg = front ++ (card_entries table ++ side ∷ []) in
    let at_end : length msg - 1 ≡ length (front ++ card_entries table) =
      omega (arith, length-append (card_entries table) (side ∷ [])) in
    let last : get_elem? msg (length (front ++ card_entries table)) ≡ some side =
      get_elem?-middle (front ++ card_entries table) side [] in
    let loop : cards_at 4 msg 2 ≡ some table =
      subst (λ i. cards_at i msg 2 ≡ some table) four
        (cards_at-card_entries table front (side ∷ []) h) in
    rw (at_end, last, side_of_char-side_char s seat, loop, atoi-decimal n)
on_msg-client_entries (wrong n) c h h' = rw (atoi-decimal n)

-- From the text of a message that the server may send a client, the client calls the handler of the
-- player for that message with exactly what the message holds, and sets its stage, its trick number
-- and its flags as `client_behind` says for the message. The message has the numbers of sides,
-- cards and scores that the protocol gives it, its cards are of the pack and of the table of
-- values, its sides are seats and its trick number is from 1 to 13.
pub on_server_line-call_of :
    (job : SendJob) (c : ClientState)
    → IsToClient job
    → All IsCard (cards_of job)
    → on_server_line (body job) c ≡ some (client_behind job c, call_of job c.stage)
unfolding on_server_line
on_server_line-call_of job c h cards =
    rw (parse_net_msg-to_client job h) (on_msg-client_entries job c h cards)
