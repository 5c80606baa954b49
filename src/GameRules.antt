-- ===== src/GameRules.antt =====
-- server/game_rules.cpp: which move is legal, who takes a trick, and at what penalty.
pub mod Legal
pub mod Taker
pub mod Penalty
pub mod RoundTotal
use kierki.Prelude.{
  ℕ, zero, suc, ◌+◌, Bool, true, false, ◌&&◌, ◌||◌, List, [], ◌∷◌, Option, none, some, ◌==◌,
  if◌then◌else◌, ◌>>=◌, Bytes, codes, bytes_eq, any, get_elem?,
}
use kierki.Types.{
  Side, nxt_side, RoundType, Color, Card, Hand, Table, TableState, color_h, tricks_per_round,
  trick_penalty, heart_penalty, queen_penalty, king_jack_penalty, heart_king_penalty,
  seventh_last_trick_penalty, everything,
}
use kierki.Card.{same_card, gt}

abbrev pub trick_penalty_val : ℕ
trick_penalty_val = 1

abbrev pub heart_penalty_val : ℕ
heart_penalty_val = 1

abbrev pub queen_penalty_val : ℕ
queen_penalty_val = 5

abbrev pub king_jack_penalty_val : ℕ
king_jack_penalty_val = 2

abbrev pub king_heart_penalty_val : ℕ
king_heart_penalty_val = 18

abbrev pub seventh_last_trick_penalty_val : ℕ
seventh_last_trick_penalty_val = 10

-- The first `if` of `isMoveLegal`: the card leaves the colour of the first card of the table,
-- and the hand has that colour.
revokes : Card → Hand → Table → Bool
revokes c hand [] = false
revokes c hand (front ∷ table) =
    if c.col == front.col then false else any (λ card. card.col == front.col) hand

-- `isMoveLegal`; `none` is the exception of `state.at(s)`.
unfoldable pub is_move_legal : Side → Card → TableState → Table → Option Bool
unfolding revokes
is_move_legal s c state table = do
  hand ← state s
  some (if revokes c hand table then false else any (λ card. same_card card c) hand)

-- The loop over the table's cards: `left` rounds from card `i`, with `taker_ix` the best so far.
unfoldable pub taker_loop : Table → Color → ℕ → ℕ → ℕ → Option ℕ
taker_loop table wanted zero i taker_ix = some taker_ix
taker_loop table wanted (suc left) i taker_ix = do
  c ← get_elem? table i
  best ← get_elem? table taker_ix
  taker_loop table wanted left (i + 1) (if c.col == wanted && gt c best then i else taker_ix)

-- `nxtSide` so many times.
unfoldable pub advance : ℕ → Side → Option Side
advance zero s = some s
advance (suc n) s = do t ← nxt_side s; advance n t

-- A loop `for (c : table) pen += …`.
unfoldable pub add_each : (Card → ℕ) → Table → ℕ → ℕ
add_each points [] pen = pen
add_each points (c ∷ table) pen = add_each points table (pen + points c)

abbrev pub is_king : Card → Bool
is_king c = bytes_eq c.value (codes "K")

abbrev pub is_jack : Card → Bool
is_jack c = bytes_eq c.value (codes "J")

abbrev pub is_queen : Card → Bool
is_queen c = bytes_eq c.value (codes "Q")

-- The test of one loop with what it adds to `pen` for a card.
unfoldable pub heart_points : Card → ℕ
heart_points c = if c.col == color_h then heart_penalty_val else 0

unfoldable pub queen_points : Card → ℕ
queen_points c = if is_queen c then queen_penalty_val else 0

unfoldable pub king_jack_points : Card → ℕ
king_jack_points c = if is_king c || is_jack c then king_jack_penalty_val else 0

unfoldable pub heart_king_points : Card → ℕ
heart_king_points c = if is_king c && c.col == color_h then king_heart_penalty_val else 0

-- The body of the last loop: four tests one after the other.
unfoldable pub all_points : Card → ℕ
all_points c = heart_points c + queen_points c + king_jack_points c + heart_king_points c

unfoldable pub seventh_last : ℕ → ℕ
seventh_last trick_no =
    if trick_no == 7 || trick_no == tricks_per_round then seventh_last_trick_penalty_val else 0

-- The `switch` of `whoTakes`.
unfoldable pub penalty : RoundType → Table → ℕ → ℕ
unfolding seventh_last
penalty trick_penalty table trick_no = trick_penalty_val
penalty heart_penalty table trick_no = add_each heart_points table 0
penalty queen_penalty table trick_no = add_each queen_points table 0
penalty king_jack_penalty table trick_no = add_each king_jack_points table 0
penalty heart_king_penalty table trick_no = add_each heart_king_points table 0
penalty seventh_last_trick_penalty table trick_no = seventh_last trick_no
penalty everything table trick_no =
    add_each all_points table (trick_penalty_val + seventh_last trick_no)

-- `whoTakes`; `none` where the source would read outside the table or ask for the side after none.
unfoldable pub who_takes : Side → Table → RoundType → ℕ → Option (Side × ℕ)
unfolding taker_loop advance
who_takes starting_side table round_type trick_no = do
  front ← get_elem? table 0
  taker_ix ← taker_loop table front.col 3 1 0
  taker_side ← advance taker_ix starting_side
  some (taker_side, penalty round_type table trick_no)
