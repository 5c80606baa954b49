-- ===== src/GameRules/Penalty.antt =====
-- What a trick costs, and what a whole round of thirteen tricks costs.
use kierki.Prelude.{ℕ, ◌+◌, [], ◌∷◌, ◌≡◌, refl, arith}
use kierki.Types.{
  Card, Table, trick_penalty, heart_penalty, queen_penalty, king_jack_penalty, heart_king_penalty,
  seventh_last_trick_penalty, everything,
}
use kierki.GameRules.{
  add_each, penalty, all_points, heart_points, queen_points, king_jack_points, heart_king_points,
  seventh_last,
}

pub add_each_start :
    (f : Card → ℕ) (table : Table) (pen : ℕ) → add_each f table pen ≡ pen + add_each f table 0
unfolding add_each
add_each_start f [] pen = omega arith
add_each_start f (c ∷ table) pen =
    omega (arith, add_each_start f table (pen + f c), add_each_start f table (0 + f c))

all_points-add_each :
    (table : Table)
    → add_each all_points table 0
      ≡ add_each heart_points table 0
        + add_each queen_points table 0
        + add_each king_jack_points table 0
        + add_each heart_king_points table 0
unfolding add_each all_points
all_points-add_each [] = refl
all_points-add_each (c ∷ table) = omega (
  arith,
  all_points-add_each table,
  add_each_start all_points table (0 + all_points c),
  add_each_start heart_points table (0 + heart_points c),
  add_each_start queen_points table (0 + queen_points c),
  add_each_start king_jack_points table (0 + king_jack_points c),
  add_each_start heart_king_points table (0 + heart_king_points c),
)

-- The mode with everything charges what the six other modes charge together.
pub everything-sum :
    (table : Table) (trick_no : ℕ)
    → penalty everything table trick_no
      ≡ penalty trick_penalty table trick_no
        + penalty heart_penalty table trick_no
        + penalty queen_penalty table trick_no
        + penalty king_jack_penalty table trick_no
        + penalty heart_king_penalty table trick_no
        + penalty seventh_last_trick_penalty table trick_no
unfolding penalty
everything-sum table trick_no =
    omega (
      arith,
      all_points-add_each table,
      add_each_start all_points table (1 + seventh_last trick_no),
    )
