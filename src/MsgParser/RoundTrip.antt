-- ===== src/MsgParser/RoundTrip.antt =====
-- Every message that one program sends is read back by the other with all that it holds.
use kierki.Prelude.{ℕ, ◌≤◌, true, false, [], ◌∷◌, ◌++◌, some, ◌≡◌, arith, codes, length, All}
use kierki.Types.{side_char, IsSeat, round_code, tricks_per_round}
use kierki.Card
use kierki.Text.{decimal}
use kierki.SendJob.{SendJob, busy, deal, intro, score, taken, total, trick, wrong, body}
use kierki.MsgParser.{parse_net_msg}
use kierki.MsgParser.Pieces.{ParseResp}
use kierki.MsgParser.Cutting.{IsPackCard}
use kierki.MsgParser.Cards.{card_entries}
use kierki.MsgParser.Scores.{score_entries}
use kierki.MsgParser.DealRoundTrip.{parse_net_msg-deal}
use kierki.MsgParser.TrickRoundTrip.{parse_net_msg-trick_s, parse_net_msg-trick_c}
use kierki.MsgParser.ShortRoundTrip.{
  side_entries, parse_net_msg-intro, parse_net_msg-busy, parse_net_msg-wrong,
}
use kierki.MsgParser.TakenRoundTrip.{parse_net_msg-taken}
use kierki.MsgParser.ScoresRoundTrip.{parse_net_msg-score, parse_net_msg-total}

abbrev pub IsTrickNo : ℕ → Type 0
IsTrickNo n = (1 ≤ n) × (n ≤ tricks_per_round)

-- The messages of the protocol from the server to a client.
abbrev pub IsToClient : SendJob → Type 0
IsToClient (busy sides) = (1 ≤ length sides) × (length sides ≤ 4) × All IsSeat sides
IsToClient (deal round_type starting cards) =
    IsSeat starting × (length cards ≡ tricks_per_round) × All IsPackCard cards
IsToClient (intro s) = ⊥
IsToClient (score scores) = (length scores ≡ 4) × All (λ e. IsSeat e.0) scores
IsToClient (taken table s trick_no) =
    (length table ≡ 4) × All IsPackCard table × IsSeat s × IsTrickNo trick_no
IsToClient (total scores) = (length scores ≡ 4) × All (λ e. IsSeat e.0) scores
IsToClient (trick table trick_no) = (length table ≤ 3) × All IsPackCard table × IsTrickNo trick_no
IsToClient (wrong trick_no) = IsTrickNo trick_no

-- What such a message holds, entry by entry.
abbrev pub client_entries : SendJob → ParseResp
client_entries (busy sides) = (codes "type", codes "BUSY") ∷ side_entries sides
client_entries (deal round_type starting cards) =
    (codes "type", codes "DEAL")
    ∷ (codes "round_mode", decimal (round_code round_type))
    ∷ (codes "side", side_char starting ∷ [])
    ∷ card_entries cards
client_entries (intro s) = []
client_entries (score scores) = (codes "type", codes "SCORE") ∷ score_entries scores
client_entries (taken table s trick_no) =
    (codes "type", codes "TAKEN")
    ∷ (codes "rn", decimal trick_no)
    ∷ (card_entries table ++ (codes "side", side_char s ∷ []) ∷ [])
client_entries (total scores) = (codes "type", codes "TOTAL") ∷ score_entries scores
client_entries (trick table trick_no) =
    (codes "type", codes "TRICK_S") ∷ (codes "rn", decimal trick_no) ∷ card_entries table
client_entries (wrong trick_no) =
    (codes "type", codes "WRONG") ∷ (codes "rn", decimal trick_no) ∷ []

-- From the text of a message that the server may send a client, the client's parser returns exactly
-- the entries of the message: its type, and its sides, cards, numbers and scores in their order.
-- The message has the numbers of sides, cards and scores that the protocol gives it, its cards are
-- of the pack, its sides are seats and its trick number is from 1 to 13.
pub parse_net_msg-to_client :
    (job : SendJob) → IsToClient job → parse_net_msg (body job) false ≡ some (client_entries job)
parse_net_msg-to_client (busy []) (one, few, h) = absurd (omega arith)
parse_net_msg-to_client (busy (s ∷ ss)) (one, few, h) = parse_net_msg-busy s ss h (omega arith)
parse_net_msg-to_client (deal rt s cards) (hs, n, h) = parse_net_msg-deal rt s cards hs h n
parse_net_msg-to_client (intro s) h = absurd h
parse_net_msg-to_client (score es) (n, h) = parse_net_msg-score es n h
parse_net_msg-to_client (taken (a ∷ b ∷ c ∷ d ∷ []) s n) (four, h, hs, (lo, hi)) =
    parse_net_msg-taken n a b c d s lo hi h hs
parse_net_msg-to_client (taken [] s n) (four, h, hs, lo) = absurd (omega arith)
parse_net_msg-to_client (taken (a ∷ []) s n) (four, h, hs, lo) = absurd (omega arith)
parse_net_msg-to_client (taken (a ∷ b ∷ []) s n) (four, h, hs, lo) = absurd (omega arith)
parse_net_msg-to_client (taken (a ∷ b ∷ c ∷ []) s n) (four, h, hs, lo) = absurd (omega arith)
parse_net_msg-to_client (taken (a ∷ b ∷ c ∷ d ∷ e ∷ more) s n) (four, h, hs, lo) =
    absurd (omega arith)
parse_net_msg-to_client (total es) (n, h) = parse_net_msg-total es n h
parse_net_msg-to_client (trick table n) (few, h, (lo, hi)) =
    parse_net_msg-trick_s n table lo hi h few
parse_net_msg-to_client (wrong n) (lo, hi) = parse_net_msg-wrong n lo hi

-- The two messages of the protocol from a client to the server.
abbrev pub IsToServer : SendJob → Type 0
IsToServer (intro s) = IsSeat s
IsToServer (trick (c ∷ []) trick_no) = IsPackCard c × IsTrickNo trick_no
IsToServer _ = ⊥

abbrev pub server_entries : SendJob → ParseResp
server_entries (intro s) = (codes "type", codes "IAM") ∷ (codes "side", side_char s ∷ []) ∷ []
server_entries (trick (c ∷ []) trick_no) =
    (codes "type", codes "TRICK_C")
    ∷ (codes "rn", decimal trick_no)
    ∷ (codes "card", Card.to_string c)
    ∷ []
server_entries _ = []

-- From the text of an introduction with a seat, and of a move with a trick number from 1 to 13 and
-- one card of the pack, the server's parser returns exactly the type, the number and the side or
-- the card.
pub parse_net_msg-to_server :
    (job : SendJob) → IsToServer job → parse_net_msg (body job) true ≡ some (server_entries job)
parse_net_msg-to_server (intro s) h = parse_net_msg-intro s h
parse_net_msg-to_server (trick (c ∷ []) n) (h, (lo, hi)) = parse_net_msg-trick_c n c lo hi h
parse_net_msg-to_server (trick [] n) h = absurd h
parse_net_msg-to_server (trick (a ∷ b ∷ more) n) h = absurd h
parse_net_msg-to_server (busy sides) h = absurd h
parse_net_msg-to_server (deal rt s cards) h = absurd h
parse_net_msg-to_server (score es) h = absurd h
parse_net_msg-to_server (taken table s n) h = absurd h
parse_net_msg-to_server (total es) h = absurd h
parse_net_msg-to_server (wrong n) h = absurd h
