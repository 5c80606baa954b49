-- ===== src/Client/Dispatch.antt =====
-- client/client.cpp: what `run` does with a line from the server, behind its end. Each line makes
-- at most one call of the player, which is a result here: what that call changes itself, through
-- the callback `putCb`, comes after the state that is the first result. Sockets, the standard input
-- and `player.anyMsg`, which only prints, are left out.
use kierki.Prelude.{
  ℕ, zero, suc, ◌-◌, Bool, true, false, ◌||◌, List, [], ◌∷◌, Option, none, some, ◌>>=◌,
  if◌then◌else◌, Bytes, codes, get_elem?, length,
}
use kierki.Types.{Side, Card, Hand, Table, ScoreMap, side_of_char, tricks_per_round, update}
use kierki.Card
use kierki.Text.{atoi}
use kierki.MsgParser.{parse_net_msg}
use kierki.MsgParser.Pieces.{ParseResp}
use kierki.IoWorkerHandler.{same_text}

-- `GameStage`.
pub data GameStage : Type 0 where
  pre after_first_deal after_deal after_trick after_score after_total : GameStage

-- The fields of the client, and the variables of `run`, that a line changes.
pub record ClientState : Type 0 where
  pub stage : GameStage
  pub waiting_for_card : Bool
  pub trick_no : ℕ
  pub exit_flag : ℕ
  pub terminate : Bool

-- The calls of the player's handlers.
pub data PlayerCall : Type 0 where
  deal_call : (trick_mode : ℕ) (hand : Hand) (starting : Side) → PlayerCall
  trick_call : (trick_no : ℕ) (table : Table) → PlayerCall
  taken_call : (side : Side) (cards : Table) (trick_no : ℕ) (apply : Bool) → PlayerCall
  score_call : (scores : ScoreMap) (total : Bool) → PlayerCall
  wrong_call : (trick_no : ℕ) → PlayerCall
  busy_call : (taken : List Side) → PlayerCall

-- `msgArray[i].second`, and its first character.
abbrev pub second_at : ParseResp → ℕ → Option Bytes
second_at msg i = get_elem? msg i >>= λ e. some e.1

abbrev pub char_at : ParseResp → ℕ → Option ℕ
char_at msg i = second_at msg i >>= λ text. get_elem? text 0

unfoldable pub side_at : ParseResp → ℕ → Option Side
side_at msg i = char_at msg i >>= side_of_char

-- The loops that push back `count` cards, or sides, from position `i` on.
unfoldable pub cards_at : ℕ → ParseResp → ℕ → Option (List Card)
cards_at zero msg i = some []
cards_at (suc count) msg i = do
  text ← second_at msg i
  c ← Card.from_string text
  rest ← cards_at count msg (suc i)
  some (c ∷ rest)

unfoldable pub sides_at : ℕ → ParseResp → ℕ → Option (List Side)
unfolding side_at
sides_at zero msg i = some []
sides_at (suc count) msg i = do
  s ← side_at msg i
  rest ← sides_at count msg (suc i)
  some (s ∷ rest)

-- `res[s] = score` for the four pairs, from the one at position `i` on.
unfoldable pub scores_at : ℕ → ParseResp → ℕ → ScoreMap → Option ScoreMap
unfolding side_at
scores_at zero msg i res = some res
scores_at (suc count) msg i res = do
  s ← side_at msg i
  text ← second_at msg (suc i)
  scores_at count msg (suc (suc i)) (update res s (atoi text))

abbrev pub after_a_deal : GameStage → GameStage
after_a_deal pre = after_first_deal
after_a_deal _ = after_deal

abbrev pub is_first_deal : GameStage → Bool
is_first_deal after_first_deal = true
is_first_deal _ = false

unfoldable pub deal_line : ParseResp → ClientState → Option (ClientState × Option PlayerCall)
unfolding cards_at side_at
deal_line msg c = do
  mode ← char_at msg 1
  hand ← cards_at tricks_per_round msg 3
  starting ← side_at msg 2
  some (record c { stage = after_a_deal c.stage }, some (deal_call (mode - b'0') hand starting))

unfoldable pub trick_line : ParseResp → ClientState → Option (ClientState × Option PlayerCall)
unfolding cards_at
trick_line msg c = do
  rn ← second_at msg 1
  t ← cards_at (length msg - 2) msg 2
  some (
    record c { stage = after_trick; waiting_for_card = true; trick_no = atoi rn },
    some (trick_call (atoi rn) t),
  )

unfoldable pub taken_line : ParseResp → ClientState → Option (ClientState × Option PlayerCall)
unfolding cards_at side_at
taken_line msg c = do
  rn ← second_at msg 1
  s ← side_at msg (length msg - 1)
  t ← cards_at 4 msg 2
  some (record c { trick_no = atoi rn }, some (taken_call s t (atoi rn) (is_first_deal c.stage)))

unfoldable pub score_line :
    Bool → ParseResp → ClientState → Option (ClientState × Option PlayerCall)
unfolding scores_at
score_line total msg c = do
  res ← scores_at 4 msg 1 (λ s. 0)
  some
      (record c { stage = if total then after_total else after_score }, some (score_call res total))

unfoldable pub wrong_line : ParseResp → ClientState → Option (ClientState × Option PlayerCall)
wrong_line msg c = do
  rn ← second_at msg 1
  some (record c { trick_no = atoi rn; waiting_for_card = true }, some (wrong_call (atoi rn)))

unfoldable pub busy_line : ParseResp → ClientState → Option (ClientState × Option PlayerCall)
unfolding sides_at
busy_line msg c = do
  taken ← sides_at (length msg - 1) msg 1
  some (record c { exit_flag = 1; terminate = true }, some (busy_call taken))

-- The chain of `if`s on `msgArray[0].second`; an empty array is read out of range.
unfoldable pub on_msg : ParseResp → ClientState → Option (ClientState × Option PlayerCall)
unfolding deal_line trick_line taken_line score_line wrong_line busy_line
on_msg msg c = second_at msg 0 >>= λ kind.
    if same_text kind (codes "DEAL")
    then deal_line msg c
    else if same_text kind (codes "TRICK_S")
    then trick_line msg c
    else if same_text kind (codes "TAKEN")
    then taken_line msg c
    else if same_text kind (codes "SCORE") || same_text kind (codes "TOTAL")
    then score_line (same_text kind (codes "TOTAL")) msg c
    else if same_text kind (codes "WRONG")
    then wrong_line msg c
    else if same_text kind (codes "BUSY")
    then busy_line msg c
    else some (c, none)

-- A line without its end.
unfoldable pub on_server_line : Bytes → ClientState → Option (ClientState × Option PlayerCall)
unfolding on_msg
on_server_line line c = parse_net_msg line false >>= λ msg. on_msg msg c
