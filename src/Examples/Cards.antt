-- ===== src/Examples/Cards.antt =====
-- Cards, hands, rules and the automatic player on concrete data.
use mathlib.Core.List.{Perm}
use kierki.Prelude.{ℕ, ◌≡◌, ◌↔◌, refl, [], ◌∷◌, none, some, true, false, not, ◌&&◌, arith, codes}
use kierki.Types.{
  Side, side_e, side_w, Card, Hand, TableState, color_c, color_h, color_s, IsSeat, heart_penalty,
  nxt_side,
}
use kierki.Card
use kierki.Card.{from_string, to_string, same_card, at}
use kierki.Card.Laws.{IsCard, from_string-to_string, to_string-from_string}
use kierki.Hands.{rm_card_if_present, rm_intersection}
use kierki.Hands.Laws.{holds, IsDistinct, rm_card_if_present-perm, holds-rm_intersection}
use kierki.GameRules.{is_move_legal, who_takes, advance, penalty, add_each, heart_points}
use kierki.GameRules.Legal.{Holds, Follows, is_move_legal_iff}
use kierki.GameRules.Taker.{IsBest, who_takes-IsBest}
use kierki.Client.Strategy.{next_move}
use kierki.Client.Legal.{next_move_legal}
use kierki.Client.PlayerAuto.{PlayerAuto, trick_msg, wrong_msg}
use kierki.Client.Recovery.{owned, trick_msg_answer, wrong_msg_answer}

abbrev pub heart_two : Card
heart_two = record { value = codes "2"; col = color_h; true_val = 2 }

abbrev pub club_ten : Card
club_ten = record { value = codes "10"; col = color_c; true_val = 10 }

abbrev pub club_jack : Card
club_jack = record { value = codes "J"; col = color_c; true_val = 11 }

abbrev spade_ace : Card
spade_ace = record { value = codes "A"; col = color_s; true_val = 14 }

abbrev pub some_hand : Hand
some_hand = heart_two ∷ club_jack ∷ spade_ace ∷ []

abbrev pub west_holds : TableState
west_holds side_w = some some_hand
west_holds _ = none

read_ten : from_string (codes "10C") ≡ some club_ten
unfolding from_string Card.make_card at
read_ten = refl

read_nothing : (from_string [] ≡ none) × (from_string (codes "1C") ≡ none)
unfolding from_string Card.make_card at
read_nothing = (refl, refl)

club_ten-IsCard : IsCard club_ten
unfolding at
club_ten-IsCard = refl

from_string-to_string_example : from_string (to_string club_ten) ≡ some club_ten
from_string-to_string_example = from_string-to_string club_ten club_ten-IsCard

to_string-from_string_example : IsCard club_ten × (to_string club_ten ≡ codes "10C")
to_string-from_string_example = to_string-from_string (codes "10C") read_ten

some_hand-IsDistinct : IsDistinct some_hand
unfolding same_card
some_hand-IsDistinct = (refl, (refl, (refl, tt)))

holds_jack : holds some_hand club_jack ≡ true
unfolding same_card
holds_jack = refl

rm_card_if_present-perm_example :
    (it : Card) × (same_card it club_jack ≡ true)
    × Perm some_hand (it ∷ rm_card_if_present some_hand club_jack)
rm_card_if_present-perm_example = rm_card_if_present-perm some_hand club_jack holds_jack

holds-rm_intersection_example :
    holds (rm_intersection some_hand (club_jack ∷ club_ten ∷ [])) spade_ace
    ≡ (holds some_hand spade_ace && not (holds (club_jack ∷ club_ten ∷ []) spade_ace))
holds-rm_intersection_example =
    holds-rm_intersection some_hand (club_jack ∷ club_ten ∷ []) spade_ace some_hand-IsDistinct

is_move_legal_iff_example :
    (is_move_legal side_w heart_two west_holds (club_ten ∷ []) ≡ some true)
    ↔ (Holds some_hand heart_two × Follows some_hand heart_two (club_ten ∷ []))
is_move_legal_iff_example =
    is_move_legal_iff side_w heart_two west_holds (club_ten ∷ []) some_hand refl

must_follow : is_move_legal side_w heart_two west_holds (club_ten ∷ []) ≡ some false
unfolding is_move_legal same_card
must_follow = refl

may_follow : is_move_legal side_w club_jack west_holds (club_ten ∷ []) ≡ some true
unfolding is_move_legal same_card
may_follow = refl

who_takes-IsBest_example :
    (ix : ℕ) × (t : Side) × (advance ix side_e ≡ some t)
    × IsSeat t
    × (who_takes side_e (club_ten ∷ heart_two ∷ club_jack ∷ spade_ace ∷ []) heart_penalty 3
        ≡ some (t, penalty heart_penalty (club_ten ∷ heart_two ∷ club_jack ∷ spade_ace ∷ []) 3))
    × IsBest (club_ten ∷ heart_two ∷ club_jack ∷ spade_ace ∷ []) color_c 4 ix
who_takes-IsBest_example =
    who_takes-IsBest side_e club_ten heart_two club_jack spade_ace heart_penalty 3 tt

jack_takes :
    who_takes side_e (club_ten ∷ heart_two ∷ club_jack ∷ spade_ace ∷ []) heart_penalty 3
    ≡ some (side_w, 1)
unfolding who_takes Card.gt penalty nxt_side add_each heart_points
jack_takes = refl

next_move_legal_example :
    (c : Card) × (rest : Hand) × (next_move (club_ten ∷ []) some_hand ≡ some (c, rest))
    × Perm some_hand (c ∷ rest)
    × (is_move_legal side_w c west_holds (club_ten ∷ []) ≡ some true)
next_move_legal_example = next_move_legal (club_ten ∷ []) some_hand side_w west_holds (cc) refl

plays_jack : next_move (club_ten ∷ []) some_hand ≡ some (club_jack, heart_two ∷ spade_ace ∷ [])
unfolding next_move
plays_jack = refl

abbrev pub west : PlayerAuto
west = record { in_game_side = side_w; next_trick = 1; hand = some_hand; last_cards = [] }

trick_msg_answer_example :
    (c : Card) × (p' : PlayerAuto) × (trick_msg 1 (club_ten ∷ []) west ≡ some (p', some c))
    × (is_move_legal side_w c west_holds (club_ten ∷ []) ≡ some true)
    × Perm (owned west) (owned p')
    × (trick_msg 1 (club_ten ∷ []) p' ≡ some (p', none))
trick_msg_answer_example =
    trick_msg_answer 1 (club_ten ∷ []) west side_w west_holds (omega arith) (cc) refl

-- The ten was played and is refused.
abbrev refused : PlayerAuto
refused = record {
  in_game_side = side_w;
  next_trick = 6;
  hand = some_hand;
  last_cards = club_ten ∷ [];
}

abbrev west_again : TableState
west_again s = some (wrong_msg 5 refused).hand

wrong_msg_answer_example :
    (owned (wrong_msg 5 refused) ≡ owned refused)
    × (c : Card) × (p' : PlayerAuto) × (trick_msg 5 (club_ten ∷ []) (wrong_msg 5 refused)
        ≡ some (p', some c))
    × (is_move_legal side_w c west_again (club_ten ∷ []) ≡ some true)
    × Perm (owned refused) (owned p')
    × (trick_msg 5 (club_ten ∷ []) p' ≡ some (p', none))
unfolding wrong_msg
wrong_msg_answer_example = wrong_msg_answer 5 (club_ten ∷ []) refused side_w west_again (cc) refl
