-- ===== src/Client/PlayerConsole.antt =====
-- client/player_console.cpp: the player at the console, and `printList` of common/utils.h. What a
-- handler prints is a result; the warnings on the error stream are left out. The callbacks work on
-- a state `σ` of the client: `check_card_cb` says whether a card is asked for, and `put_cb` whether
-- it returned without an exception. `none` is an exception that leaves a handler.
use kierki.Prelude.{
  ℕ, Bool, not, List, [], ◌∷◌, ◌++◌, Option, none, some, ◌>>=◌, if◌then◌else◌, Bytes, codes,
  bytes_eq, ◌==◌, map,
}
use kierki.Types.{Side, side_char, side_eq, sides, Card, Hand, Table}
use kierki.Card
use kierki.Card.{make_card}
use kierki.Text.{decimal}
use kierki.Hands.{rm_card_if_present, rm_intersection}
use kierki.Hands.Laws.{holds}

pub record PlayerConsole : Type 0 where
  pub in_game_side : Side
  pub last_cards : List Card
  pub local_hand : Hand
  pub taken_tricks : List (Side × Table)

unfoldable pub player_console : Side → PlayerConsole
player_console side = record {
  in_game_side = side;
  last_cards = [];
  local_hand = [];
  taken_tricks = [];
}

-- `printList`, for texts.
unfoldable pub print_list : List Bytes → Bytes
print_list [] = []
print_list (text ∷ []) = text
print_list (text ∷ other ∷ rest) = text ++ codes ", " ++ print_list (other ∷ rest)

abbrev pub print_cards : List Card → Bytes
print_cards cards = print_list (map Card.to_string cards)

abbrev pub print_side : Side → Bytes
print_side s = side_char s ∷ []

unfoldable pub trick_msg : ℕ → Table → PlayerConsole → PlayerConsole × Bytes
unfolding print_list
trick_msg trick_no table p = (
  p,
  codes "Trick: "
      ++ decimal trick_no
      ++ codes " "
      ++ print_cards table
      ++ codes "\nAvailable: "
      ++ print_cards p.local_hand
      ++ codes "\n",
)

confirm : List Card → PlayerConsole → PlayerConsole
confirm [] p = p
confirm (c ∷ rest) p = record p { last_cards = rest }

unfoldable pub taken_msg : Side → Table → ℕ → Bool → PlayerConsole → PlayerConsole × Bytes
unfolding print_list confirm
taken_msg side cards trick_no apply p =
    let q =
      if side_eq side p.in_game_side
      then record p { taken_tricks = p.taken_tricks ++ (side, cards) ∷ [] }
      else p in
    (
      if apply
          then record q { local_hand = rm_intersection q.local_hand cards }
          else confirm q.last_cards q,
      codes "A trick "
          ++ decimal trick_no
          ++ codes " is taken by "
          ++ print_side side
          ++ codes ", cards "
          ++ print_cards cards
          ++ codes ".\n",
    )

-- The loop over the sides; `none` is `scores.at` of a side that is missing.
score_lines : (Side → Option ℕ) → List Side → Option Bytes
score_lines scores [] = some []
score_lines scores (s ∷ rest) = do
  score ← scores s
  more ← score_lines scores rest
  some (print_side s ++ codes " | " ++ decimal score ++ codes "\n" ++ more)

unfoldable pub score_msg : (Side → Option ℕ) → Bool → PlayerConsole → Option (PlayerConsole × Bytes)
unfolding score_lines
score_msg scores total p = do
  lines ← score_lines scores sides
  some (
    record p { taken_tricks = [] },
    (if total then codes "The total scores are:\n" else codes "The scores are:\n") ++ lines,
  )

unfoldable pub deal_msg : ℕ → Hand → Side → PlayerConsole → PlayerConsole × Bytes
unfolding print_list
deal_msg trick_mode hand starting p = (
  record p { local_hand = hand },
  codes "New deal "
      ++ decimal trick_mode
      ++ codes " staring place "
      ++ print_side starting
      ++ codes ", your cards: "
      ++ print_cards hand
      ++ codes ".\n",
)

take_back : List Card → PlayerConsole → PlayerConsole
take_back [] p = p
take_back (c ∷ rest) p = record p { local_hand = p.local_hand ++ c ∷ []; last_cards = rest }

unfoldable pub wrong_msg : ℕ → PlayerConsole → PlayerConsole × Bytes
unfolding take_back
wrong_msg trick_no p = (
  take_back p.last_cards p,
  codes "Wrong message received in trick " ++ decimal trick_no ++ codes ".\n",
)

unfoldable pub busy_msg : List Side → PlayerConsole → PlayerConsole × Bytes
unfolding print_list
busy_msg taken p = (
  p,
  codes "Place busy, list of busy places received: "
      ++ print_list (map print_side taken)
      ++ codes ".\n",
)

-- The trick's cards, a line each.
unfoldable pub print_tricks : List (Side × Table) → Bytes
unfolding print_list
print_tricks [] = []
print_tricks (trick ∷ rest) = print_cards trick.1 ++ codes "\n" ++ print_tricks rest

invalid_card : Bytes → Bytes
invalid_card text = text ++ codes " is not a valid card!\n"

module _ {σ : Type 0} (check_card_cb : σ → Bool) (put_cb : Card → σ → σ × Bool) where
  -- A card of the hand is played: the copy that is kept has the value and the colour of `c`.
  unfoldable pub play_card : Bytes → Card → Card → PlayerConsole → σ → PlayerConsole × σ × Bytes
  unfolding invalid_card
  play_card text c copy p st =
      let q = record p {
        local_hand = rm_card_if_present p.local_hand c;
        last_cards = p.last_cards ++ copy ∷ [];
      } in
      let (st', returned) = put_cb c st in (q, st', if returned then [] else invalid_card text)

  -- The body of the `try`, for the card that was read; an exception ends in `catch (...)`.
  unfoldable pub choose : Bytes → Card → PlayerConsole → σ → PlayerConsole × σ × Bytes
  unfolding play_card invalid_card print_list
  choose text c p st =
      if not (check_card_cb st)
      then (p, st, codes "No card request from server. Card select action is discarded\n")
      else if not (holds p.local_hand c)
      then (
        p,
        st,
        codes "Card "
            ++ Card.to_string c
            ++ codes " is not in your hand.\nAvailable cards: "
            ++ print_cards p.local_hand
            ++ codes ".\n",
      )
      else elim (make_card c.value c.col) [
        | none ↦
            (record p { local_hand = rm_card_if_present p.local_hand c }, st, invalid_card text)
        | some copy ↦ play_card text c copy p st
      ]

  unfoldable pub card_cmd : Bytes → PlayerConsole → σ → PlayerConsole × σ × Bytes
  unfolding choose invalid_card
  card_cmd text p st = elim (Card.from_string text) [
    | none ↦ (p, st, invalid_card text)
    | some c ↦ choose text c p st
  ]

  -- `anyCmd`; `msg.at(0)` of an empty command throws.
  unfoldable pub any_cmd : Bytes → PlayerConsole → σ → Option (PlayerConsole × σ × Bytes)
  unfolding card_cmd print_tricks print_list
  any_cmd [] p st = none
  any_cmd (c ∷ text) p st =
      if c == b'!'
      then some (card_cmd text p st)
      else if bytes_eq (c ∷ text) (codes "cards")
      then some (p, st, print_cards p.local_hand ++ codes "\n")
      else if bytes_eq (c ∷ text) (codes "tricks")
      then some (p, st, print_tricks p.taken_tricks)
      else some (p, st, codes "Unknown command: " ++ (c ∷ text) ++ codes "\n")
