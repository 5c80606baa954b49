-- ===== src/Scenario.antt =====
-- common/utils.cpp: `parseScenario`. The lines of the file are an argument; `none` is an exception
-- or a read behind the last line. The two characters of a round's first line are cast without a test, so
-- a round of the result keeps the numbers that are cast, which need not be those of an enumerator.
pub mod Deals
pub mod RoundTrip
use kierki.Prelude.{
  ℕ, zero, suc, ◌+◌, Bool, false, List, [], ◌∷◌, Option, none, some, ◌>>=◌, if◌then◌else◌, Bytes,
  get_elem?, take, drop, ◌==◌, length, ◌-◌, ltb,
}
use kierki.Types.{
  Side, sides, side_of_char, RoundType, trick_penalty, heart_penalty, queen_penalty,
  king_jack_penalty, heart_king_penalty, seventh_last_trick_penalty, everything, Card, Hand,
  TableState, tricks_per_round, update,
}
use kierki.Card

pub data ℤ : Type 0 where
  pos : ℕ → ℤ
  negsuc : ℕ → ℤ

-- The `int` that a `char` becomes, which is signed and has eight bits.
abbrev pub char_int : ℕ → ℤ
char_int c = if ltb c 128 then pos c else negsuc (255 - c)

-- `line.at(0) - '1' + 1`, the number that is cast to `RoundType`.
abbrev pub mode_number : ℕ → ℤ
mode_number c =
    if ltb c 48 then negsuc (47 - c) else if ltb c 128 then pos (c - 48) else negsuc (303 - c)

-- A round of the result, with the numbers that are cast to `RoundType` and `Side`.
pub record ParsedRound : Type 0 where
  pub type : ℤ
  pub state : TableState
  pub starting : ℤ

-- The penalty that a number is the enumerator of, if there is one.
abbrev pub name_penalty : ℤ → Option RoundType
name_penalty (negsuc n) = none
name_penalty (pos n) =
    if n == 1
    then some trick_penalty
    else if n == 2
    then some heart_penalty
    else if n == 3
    then some queen_penalty
    else if n == 4
    then some king_jack_penalty
    else if n == 5
    then some heart_king_penalty
    else if n == 6
    then some seventh_last_trick_penalty
    else if n == 7
    then some everything
    else none

-- The seat that a number is the enumerator of, if there is one.
abbrev pub name_seat : ℤ → Option Side
name_seat (negsuc n) = none
name_seat (pos n) = side_of_char n

-- The round as the server's scenario has it, where its numbers are enumerators.
abbrev pub name_round : ParsedRound → Option (RoundType × TableState × Side)
name_round r = do type ← name_penalty r.type; s ← name_seat r.starting; some (type, r.state, s)

-- `line[iter] == '1'`, where the character behind the last one is 0.
abbrev pub is_ten : Bytes → ℕ → Bool
is_ten line iter = elim (get_elem? line iter) [ none ↦ false | some c ↦ c == b'1' ]

-- The loop over the cards of a line, from position `iter` on.
unfoldable pub read_cards : ℕ → Bytes → ℕ → Option Hand
read_cards zero line iter = some []
read_cards (suc count) line iter = do
  let width = if is_ten line iter then 3 else 2
  c ← Card.from_string (take width (drop iter line))
  rest ← read_cards count line (iter + width)
  some (c ∷ rest)

-- The loop over the sides; the lines that are left are a second result.
unfoldable pub read_hands : List Side → List Bytes → TableState → Option (TableState × List Bytes)
unfolding read_cards
read_hands [] lines state = some (state, lines)
read_hands (s ∷ rest) [] state = none
read_hands (s ∷ rest) (line ∷ lines) state = do
  hand ← read_cards tricks_per_round line 0
  read_hands rest lines (update state s (some hand))

-- The loop of `parseScenario`, on fuel; with a round for each line there is enough.
unfoldable pub parse_rounds : ℕ → List Bytes → Option (List ParsedRound)
unfolding read_hands
parse_rounds zero lines = none
parse_rounds (suc fuel) [] = some []
parse_rounds (suc fuel) (line ∷ lines) = do
  c ← get_elem? line 0
  d ← get_elem? line 1
  (dealt, left) ← read_hands sides lines (λ s_. none)
  scenario ← parse_rounds fuel left
  some (record { type = mode_number c; state = dealt; starting = char_int d } ∷ scenario)

unfoldable pub parse_scenario : List Bytes → Option (List ParsedRound)
unfolding parse_rounds
parse_scenario lines = parse_rounds (suc (length lines)) lines
