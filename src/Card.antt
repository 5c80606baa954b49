-- ===== src/Card.antt =====
-- common/card.cpp: construction, printing, reading and comparison of cards.
pub mod Laws
use kierki.Prelude.{
  ℕ, ◌-◌, Bool, true, false, not, ◌||◌, List, [], ◌∷◌, ◌++◌, Option, none, some, ltb, ◌==◌,
  if◌then◌else◌, ◌>>=◌, Bytes, codes, bytes_eq, length, get_elem?, take,
}
use kierki.Types.{Card, Color}

-- The table `VALUES`.
abbrev pub values : List (Bytes × ℕ)
values =
    (codes "2", 2)
    ∷ (codes "3", 3)
    ∷ (codes "4", 4)
    ∷ (codes "5", 5)
    ∷ (codes "6", 6)
    ∷ (codes "7", 7)
    ∷ (codes "8", 8)
    ∷ (codes "9", 9)
    ∷ (codes "10", 10)
    ∷ (codes "J", 11)
    ∷ (codes "Q", 12)
    ∷ (codes "K", 13)
    ∷ (codes "A", 14)
    ∷ []

-- `unordered_map::at` with a string for its key.
unfoldable pub at : List (Bytes × ℕ) → Bytes → Option ℕ
at [] k = none
at ((j, v) ∷ m) k = if bytes_eq j k then some v else at m k

-- The constructor `Card(value, col)`; `none` is `std::out_of_range`.
unfoldable pub make_card : Bytes → Color → Option Card
make_card value col = do
  true_val ← at values value
  some (record { value = value; col = col; true_val = true_val })

unfoldable pub to_string : Card → Bytes
to_string c = c.value ++ c.col ∷ []

unfoldable pub from_string : Bytes → Option Card
unfolding make_card
from_string s = do col ← get_elem? s (length s - 1); make_card (take (length s - 1) s) col

-- The six comparison operators, each in the terms that the source uses.
unfoldable pub eq : Card → Card → Bool
eq c other = c.true_val == other.true_val

unfoldable pub ne : Card → Card → Bool
unfolding eq
ne c other = not (eq c other)

unfoldable pub lt : Card → Card → Bool
lt c other = ltb c.true_val other.true_val

unfoldable pub le : Card → Card → Bool
unfolding eq lt
le c other = eq c other || lt c other

unfoldable pub gt : Card → Card → Bool
unfolding le
gt c other = not (le c other)

unfoldable pub ge : Card → Card → Bool
unfolding lt
ge c other = not (lt c other)

-- Same colour and same value: the test by which the program identifies a card.
unfoldable pub same_card : Card → Card → Bool
same_card a b = elim (a.col == b.col) [ true ↦ bytes_eq a.value b.value | false ↦ false ]
