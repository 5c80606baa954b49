-- ===== src/MsgParser/TrickRoundTrip.antt =====
-- What is read from the messages about a trick, in both directions.
use kierki.Prelude.{
  ℕ, zero, suc, ◌≤◌, true, false, List, [], ◌∷◌, ◌++◌, some, ◌≡◌, refl, arith, Bytes, codes, length,
  All, append-nil,
}
use kierki.Types.{Card, tricks_per_round}
use kierki.Card
use kierki.Text.{decimal}
use kierki.SendJob.{trick, body, cards_text}
use kierki.Regex.{regex_match}
use kierki.Regex.Language.{never_match, regex_match-Lang}
use kierki.MsgParser.{parse_net_msg, parse_as}
use kierki.MsgParser.Patterns.{rn_re, iam_re, busy_re, deal_re, trick_s_re, trick_c_re}
use kierki.MsgParser.Cutting.{IsPackCard, IsPackCard-text}
use kierki.MsgParser.Cards.{card_entries, lit-Lang, up_to-Lang_cards}
use kierki.MsgParser.Tricks.{trick_text, number_text, parse_trick_s_text, parse_trick_c_text}

not_busy : (text : Bytes) → regex_match (b'T' ∷ text) busy_re ≡ false
unfolding regex_match
not_busy text = never_match text

not_deal : (text : Bytes) → regex_match (b'T' ∷ text) deal_re ≡ false
unfolding regex_match
not_deal text = never_match text

not_iam : (text : Bytes) → regex_match (b'T' ∷ text) iam_re ≡ false
unfolding regex_match
not_iam text = never_match text

-- The client reads the number and the cards of a trick that the server asks it to continue.
pub parse_net_msg-trick_s :
    (n : ℕ) (table : List Card)
    → 1 ≤ n
    → n ≤ tricks_per_round
    → All IsPackCard table
    → length table ≤ 3
    → parse_net_msg (body (trick table n)) false
      ≡ some ((codes "type", codes "TRICK_S") ∷ (codes "rn", decimal n) ∷ card_entries table)
unfolding parse_net_msg parse_as body
parse_net_msg-trick_s zero table lo hi h few = absurd (omega arith)
parse_net_msg-trick_s (suc i) table lo hi h few =
    let (m, form) = number_text i (omega arith) in
    let r = decimal (suc i) in
    let matches : regex_match (trick_text r table) trick_s_re ≡ true =
      (regex_match-Lang (trick_text r table) trick_s_re).1 (
        codes "TRICK",
        r ++ cards_text table,
        refl,
        lit-Lang (codes "TRICK"),
        (r, cards_text table, refl, (regex_match-Lang r rn_re).0 m, up_to-Lang_cards 3 table h few),
      ) in
    rw
      (
        not_busy (codes "RICK" ++ (r ++ cards_text table)),
        not_deal (codes "RICK" ++ (r ++ cards_text table)),
        matches,
      )
      (parse_trick_s_text r table form h)

-- The server reads the number and the card of a client's move.
pub parse_net_msg-trick_c :
    (n : ℕ) (c : Card)
    → 1 ≤ n
    → n ≤ tricks_per_round
    → IsPackCard c
    → parse_net_msg (body (trick (c ∷ []) n)) true
      ≡ some (
          (codes "type", codes "TRICK_C")
          ∷ (codes "rn", decimal n)
          ∷ (codes "card", Card.to_string c)
          ∷ [])
unfolding parse_net_msg parse_as body cards_text
parse_net_msg-trick_c zero c lo hi h = absurd (omega arith)
parse_net_msg-trick_c (suc i) c lo hi h =
    let m = (number_text i (omega arith)).0 in
    let r = decimal (suc i) in
    let t = Card.to_string c in
    let (lc, form) = IsPackCard-text c h in
    let matches : regex_match (codes "TRICK" ++ (r ++ t)) trick_c_re ≡ true =
      (regex_match-Lang (codes "TRICK" ++ (r ++ t)) trick_c_re).1 (
        codes "TRICK",
        r ++ t,
        refl,
        lit-Lang (codes "TRICK"),
        (r, t, refl, (regex_match-Lang r rn_re).0 m, lc),
      ) in
    rw (append-nil t, not_iam (codes "RICK" ++ (r ++ t)), matches) (parse_trick_c_text r t form)
