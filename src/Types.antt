-- ===== src/Types.antt =====
-- common/common_types.h, common/card.h and common/constants.h: the enumerations and the types
-- that the components share, and `nxtSide` of common/utils.cpp.
-- `Color` is the value of its enumerator, since `Card::fromString` casts any character to it.
use kierki.Prelude.{ℕ, Bool, List, [], ◌∷◌, Option, none, some, ◌==◌, if◌then◌else◌, Bytes}

pub data Side : Type 0 where
  side_n side_e side_s side_w side_null : Side

-- The order of the macro `sides_`.
abbrev pub sides : List Side
sides = side_n ∷ side_s ∷ side_w ∷ side_e ∷ []

-- The character of a side, as `static_cast<char>` gives it.
abbrev pub side_char : Side → ℕ
side_char side_n = b'N'
side_char side_e = b'E'
side_char side_s = b'S'
side_char side_w = b'W'
side_char side_null = 0

-- `static_cast<Side>` of a character; `none` for a value that no seat has.
abbrev pub side_of_char : ℕ → Option Side
side_of_char c =
    if c == b'N'
    then some side_n
    else if c == b'E'
    then some side_e
    else if c == b'S'
    then some side_s
    else if c == b'W'
    then some side_w
    else none

-- One of the four seats.
abbrev pub IsSeat : Side → Type 0
IsSeat side_null = ⊥
IsSeat _ = Unit {0}

abbrev pub side_eq : Side → Side → Bool
side_eq a b = side_char a == side_char b

-- `nxtSide`; `none` is the exception.
unfoldable pub nxt_side : Side → Option Side
nxt_side side_n = some side_e
nxt_side side_e = some side_s
nxt_side side_s = some side_w
nxt_side side_w = some side_n
nxt_side side_null = none

pub data RoundType : Type 0 where
  trick_penalty heart_penalty queen_penalty king_jack_penalty heart_king_penalty : RoundType
  seventh_last_trick_penalty everything : RoundType

-- The value of the enumerator.
abbrev pub round_code : RoundType → ℕ
round_code trick_penalty = 1
round_code heart_penalty = 2
round_code queen_penalty = 3
round_code king_jack_penalty = 4
round_code heart_king_penalty = 5
round_code seventh_last_trick_penalty = 6
round_code everything = 7

abbrev pub Color : Type 0
Color = ℕ

abbrev pub color_c : Color
color_c = b'C'

abbrev pub color_d : Color
color_d = b'D'

abbrev pub color_h : Color
color_h = b'H'

abbrev pub color_s : Color
color_s = b'S'

-- The fields of class `Card`.
pub record Card : Type 0 where
  pub value : Bytes
  pub col : Color
  pub true_val : ℕ

abbrev pub Hand : Type 0
Hand = List Card

abbrev pub Table : Type 0
Table = List Card

-- `std::unordered_map<Side, Hand>`: `none` where the key is missing.
abbrev pub TableState : Type 0
TableState = Side → Option Hand

-- `score_map`; `operator[]` reads a missing key as 0.
abbrev pub ScoreMap : Type 0
ScoreMap = Side → ℕ

-- `operator[]` on a `table_state`: a missing key reads as the empty hand.
abbrev pub hand_at : TableState → Side → Hand
hand_at m s = elim (m s) [ none ↦ [] | some h ↦ h ]

-- A write of one key.
abbrev pub update {ℓ} : {A : Type ℓ} → (Side → A) → Side → A → Side → A
update m k v s = if side_eq k s then v else m s

abbrev pub tricks_per_round : ℕ
tricks_per_round = 13

abbrev pub max_parse_len : ℕ
max_parse_len = 1000

-- The kinds of an error; the call and the code of the error only go to the log.
pub data IoErrClass : Type 0 where
  io_err_silent io_err_internal io_err_external : IoErrClass
