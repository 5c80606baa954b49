-- ===== src/Client/Strategy.antt =====
-- client/strategy.cpp: the choice of a card by the automatic player. The state is the hand.
use kierki.Prelude.{
  ℕ, zero, suc, not, ◌&&◌, [], ◌∷◌, Option, none, some, ◌==◌, if◌then◌else◌, ◌>>=◌,
}
use kierki.Types.{Color, Card, Hand, Table}

-- The loop over the hand: `i` is the position of `iter`.
unfoldable pub choose_loop : Color → Hand → ℕ → Card → ℕ → Card × ℕ
choose_loop color_req [] i cand to_erase = (cand, to_erase)
choose_loop color_req (c ∷ rest) i cand to_erase =
    let better = not (cand.col == color_req) && c.col == color_req in
    choose_loop color_req rest (suc i) (if better then c else cand) (if better then i else to_erase)

-- `hand.erase(iter)` at a position.
unfoldable pub erase_at : Hand → ℕ → Hand
erase_at [] i = []
erase_at (c ∷ hand) zero = hand
erase_at (c ∷ hand) (suc i) = c ∷ erase_at hand i

-- `hand.back()` and `hand.pop_back()`.
unfoldable pub pop_back : Hand → Option (Card × Hand)
pop_back [] = none
pop_back (c ∷ []) = some (c, [])
pop_back (c ∷ d ∷ hand) = do (last, rest) ← pop_back (d ∷ hand); some (last, c ∷ rest)

unfoldable pub choose : Color → Hand → Option (Card × Hand)
unfolding choose_loop erase_at
choose color_req [] = none
choose color_req (front ∷ rest) =
    let (cand, to_erase) = choose_loop color_req (front ∷ rest) 0 front 0 in
    some (cand, erase_at (front ∷ rest) to_erase)

-- `Strategy::nextMove`: the card and the hand that is left; `none` where the source reads the front
-- or the back of an empty hand.
unfoldable pub next_move : Table → Hand → Option (Card × Hand)
unfolding choose pop_back
next_move [] hand = pop_back hand
next_move (front ∷ t) hand = choose front.col hand

-- `Strategy::reset`.
unfoldable pub reset : Hand → Hand → Hand
reset hand new_hand = new_hand
