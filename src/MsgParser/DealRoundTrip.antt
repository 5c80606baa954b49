-- ===== src/MsgParser/DealRoundTrip.antt =====
-- What a client reads from the deal that the server sends.
use kierki.Prelude.{ℕ, true, false, List, [], ◌∷◌, ◌++◌, some, ◌≡◌, refl, Bytes, codes, length, All}
use mathlib.Core.Path.{subst}
use kierki.Types.{
  Card, Side, side_char, IsSeat, RoundType, trick_penalty, heart_penalty, queen_penalty,
  king_jack_penalty, heart_king_penalty, seventh_last_trick_penalty, everything, tricks_per_round,
  round_code,
}
use kierki.Text.{decimal}
use kierki.SendJob.{deal, body, cards_text}
use kierki.Regex.{regex_match, chars, times}
use kierki.Regex.Language.{Lang, never_match, regex_match-Lang}
use kierki.MsgParser.{parse_net_msg, parse_as, parse_deal}
use kierki.MsgParser.Patterns.{card_re, side_re, busy_re, deal_re}
use kierki.MsgParser.Pieces.{substr, deal_loop}
use kierki.MsgParser.Cutting.{substr_middle, IsPackCard}
use kierki.MsgParser.Cards.{
  card_entries, deal_loop-cards_text, lit-Lang, side-Lang, times-Lang_cards,
}

not_busy_deal : (text : Bytes) → regex_match (b'D' ∷ text) busy_re ≡ false
unfolding regex_match
not_busy_deal text = never_match text

-- The number of a round type is one digit.
round_digit :
    (rt : RoundType)
    → (d : ℕ) × (decimal (round_code rt) ≡ d ∷ []) × Lang (chars ((b'1', b'7') ∷ [])) (d ∷ [])
unfolding decimal
round_digit trick_penalty = (b'1', refl, (b'1', refl, refl))
round_digit heart_penalty = (b'2', refl, (b'2', refl, refl))
round_digit queen_penalty = (b'3', refl, (b'3', refl, refl))
round_digit king_jack_penalty = (b'4', refl, (b'4', refl, refl))
round_digit heart_king_penalty = (b'5', refl, (b'5', refl, refl))
round_digit seventh_last_trick_penalty = (b'6', refl, (b'6', refl, refl))
round_digit everything = (b'7', refl, (b'7', refl, refl))

abbrev deal_text : ℕ → ℕ → List Card → Bytes
deal_text d k cards = codes "DEAL" ++ d ∷ k ∷ cards_text cards

parse_deal_text :
    (d k : ℕ) (cards : List Card)
    → All IsPackCard cards
    → length cards ≡ tricks_per_round
    → parse_deal (deal_text d k cards)
      ≡ some (
          (codes "type", codes "DEAL")
          ∷ (codes "round_mode", d ∷ [])
          ∷ (codes "side", k ∷ [])
          ∷ card_entries cards)
unfolding parse_deal
parse_deal_text d k cards h n =
    let t = cards_text cards in
    let first : substr (codes "DEAL" ++ d ∷ k ∷ t) 4 1 ≡ some (d ∷ []) =
      substr_middle (codes "DEAL") (d ∷ []) (k ∷ t) in
    let second : substr (codes "DEAL" ++ d ∷ k ∷ t) 5 1 ≡ some (k ∷ []) =
      substr_middle (codes "DEAL" ++ d ∷ []) (k ∷ []) t in
    let loop =
      deal_loop-cards_text cards (codes "DEAL" ++ d ∷ k ∷ [])
        ((codes "type", codes "DEAL") ∷ (codes "round_mode", d ∷ []) ∷ (codes "side", k ∷ []) ∷ [])
        h in
    rw (first, second)
      (subst
        (λ i.
          deal_loop i (codes "DEAL" ++ d ∷ k ∷ t) 6 (
            (codes "type", codes "DEAL")
            ∷ (codes "round_mode", d ∷ [])
            ∷ (codes "side", k ∷ [])
            ∷ [])
          ≡ some (
              (codes "type", codes "DEAL")
              ∷ (codes "round_mode", d ∷ [])
              ∷ (codes "side", k ∷ [])
              ∷ card_entries cards))
        n loop)

deal_text-match :
    (d k : ℕ) (cards : List Card)
    → Lang (chars ((b'1', b'7') ∷ [])) (d ∷ [])
    → Lang side_re (k ∷ [])
    → All IsPackCard cards
    → length cards ≡ tricks_per_round
    → regex_match (deal_text d k cards) deal_re ≡ true
deal_text-match d k cards ld lk h n = (regex_match-Lang (deal_text d k cards) deal_re).1 (
  codes "DEAL",
  d ∷ k ∷ cards_text cards,
  refl,
  lit-Lang (codes "DEAL"),
  (
    d ∷ [],
    k ∷ cards_text cards,
    refl,
    ld,
    (
      k ∷ [],
      cards_text cards,
      refl,
      lk,
      subst (λ i. Lang (times i card_re) (cards_text cards)) n (times-Lang_cards cards h),
    ),
  ),
)

-- The client reads the round type, the starting side and the thirteen cards from a deal.
pub parse_net_msg-deal :
    (rt : RoundType) (s : Side) (cards : List Card)
    → IsSeat s
    → All IsPackCard cards
    → length cards ≡ tricks_per_round
    → parse_net_msg (body (deal rt s cards)) false
      ≡ some (
          (codes "type", codes "DEAL")
          ∷ (codes "round_mode", decimal (round_code rt))
          ∷ (codes "side", side_char s ∷ [])
          ∷ card_entries cards)
unfolding parse_net_msg parse_as body
parse_net_msg-deal rt s cards hs h n =
    let (d, e, ld) = round_digit rt in
    let k = side_char s in
    rw
      (
        e,
        not_busy_deal (b'E' ∷ b'A' ∷ b'L' ∷ d ∷ k ∷ cards_text cards),
        deal_text-match d k cards ld (side-Lang s hs) h n,
      )
      (parse_deal_text d k cards h n)
