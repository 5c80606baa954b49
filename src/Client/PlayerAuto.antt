-- ===== src/Client/PlayerAuto.antt =====
-- client/player_auto.cpp: the automatic player. A card that the callback `putCb` receives is a
-- second result; the logger and the warnings on the error stream are left out.
use kierki.Prelude.{
  ℕ, ◌+◌, Bool, List, [], ◌∷◌, ◌++◌, Option, none, some, ltb, if◌then◌else◌, ◌>>=◌,
}
use kierki.Types.{Side, Card, Hand, Table}
use kierki.Hands.{rm_intersection}
use kierki.Client.Strategy.{next_move, reset}

-- `last_cards` is the deque of cards that were played and are not yet confirmed, oldest first.
pub record PlayerAuto : Type 0 where
  pub in_game_side : Side
  pub next_trick : ℕ
  pub hand : Hand
  pub last_cards : List Card

unfoldable pub player_auto : Side → PlayerAuto
player_auto side = record { in_game_side = side; next_trick = 0; hand = []; last_cards = [] }

unfoldable pub trick_msg : ℕ → Table → PlayerAuto → Option (PlayerAuto × Option Card)
trick_msg trick_no table p = if ltb trick_no p.next_trick then some (p, none) else (do
  (c, hand) ← next_move table p.hand
  some (
    record p { next_trick = trick_no + 1; hand = hand; last_cards = p.last_cards ++ c ∷ [] },
    some c,
  ))

unfoldable pub deal_msg : Hand → PlayerAuto → PlayerAuto
unfolding reset
deal_msg hand p = record p { next_trick = 1; hand = reset p.hand hand }

-- `lastCards.front()` goes back into the hand; with no such card only a warning is printed.
take_back : List Card → PlayerAuto → PlayerAuto
take_back [] p = p
take_back (c ∷ rest) p = record p { hand = p.hand ++ c ∷ []; last_cards = rest }

unfoldable pub wrong_msg : ℕ → PlayerAuto → PlayerAuto
unfolding take_back
wrong_msg trick_no p = take_back p.last_cards (record p { next_trick = trick_no })

confirm : List Card → PlayerAuto → PlayerAuto
confirm [] p = p
confirm (c ∷ rest) p = record p { last_cards = rest }

unfoldable pub taken_msg : Table → ℕ → Bool → PlayerAuto → PlayerAuto
unfolding confirm
taken_msg cards trick_no apply p =
    let q = record p { next_trick = trick_no + 1 } in
    if apply then record q { hand = rm_intersection p.hand cards } else confirm p.last_cards q
