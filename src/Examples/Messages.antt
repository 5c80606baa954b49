-- ===== src/Examples/Messages.antt =====
-- Lines of the protocol on concrete data.
use kierki.Prelude.{◌≡◌, All, refl, inl, inr, [], ◌∷◌, some, true, false, codes, arith}
use kierki.Types.{Card, side_w, color_c, color_d, color_h}
use kierki.Card
use kierki.MsgParser.Cutting.{IsPackCard}
use kierki.Text.{decimal}
use kierki.SendJob.{SendJob, taken, trick, gen_msg, body, cards_text}
use kierki.Card.{at}
use kierki.Card.Laws.{IsCard}
use kierki.Client.Dispatch.{ClientState, after_first_deal, on_server_line}
use kierki.Client.Delivery.{cards_of, client_behind, call_of, on_server_line-call_of}
use kierki.Regex.{regex_match}
use kierki.MsgParser.{parse_net_msg, parse_as, parse_taken, parse_scores, parse_trick_c}
use kierki.MsgParser.RoundTrip.{
  client_entries, server_entries, IsToClient, parse_net_msg-to_client, parse_net_msg-to_server,
}

abbrev diamond_two : Card
diamond_two = record { value = codes "2"; col = color_d; true_val = 2 }

abbrev club_ten : Card
club_ten = record { value = codes "10"; col = color_c; true_val = 10 }

abbrev club_ace : Card
club_ace = record { value = codes "A"; col = color_c; true_val = 14 }

abbrev heart_ten : Card
heart_ten = record { value = codes "10"; col = color_h; true_val = 10 }

abbrev pub west_takes : SendJob
west_takes = taken (club_ten ∷ diamond_two ∷ club_ace ∷ heart_ten ∷ []) side_w 12

west_takes_text : gen_msg west_takes ≡ codes "TAKEN1210C2DAC10HW\r\n"
unfolding gen_msg body decimal cards_text Card.to_string
west_takes_text = refl

read_taken :
    parse_net_msg (codes "TAKEN1210C2DAC10HW") false
    ≡ some (
        (codes "type", codes "TAKEN")
        ∷ (codes "rn", codes "12")
        ∷ (codes "card", codes "10C")
        ∷ (codes "card", codes "2D")
        ∷ (codes "card", codes "AC")
        ∷ (codes "card", codes "10H")
        ∷ (codes "side", codes "W")
        ∷ [])
unfolding parse_net_msg regex_match parse_as parse_taken
read_taken = refl

read_scores :
    parse_net_msg (codes "SCOREN10E0S1W22") false
    ≡ some (
        (codes "type", codes "SCORE")
        ∷ (codes "side", codes "N")
        ∷ (codes "score", codes "10")
        ∷ (codes "side", codes "E")
        ∷ (codes "score", codes "0")
        ∷ (codes "side", codes "S")
        ∷ (codes "score", codes "1")
        ∷ (codes "side", codes "W")
        ∷ (codes "score", codes "22")
        ∷ [])
unfolding parse_net_msg regex_match parse_as parse_scores
read_scores = refl

-- The number of the trick and the card stand without a separator.
read_trick_one :
    parse_net_msg (codes "TRICK110C") true
    ≡ some (
        (codes "type", codes "TRICK_C")
        ∷ (codes "rn", codes "1")
        ∷ (codes "card", codes "10C")
        ∷ [])
unfolding parse_net_msg regex_match parse_as parse_trick_c
read_trick_one = refl

read_garbage : parse_net_msg (codes "TRICK14AC") true ≡ some []
unfolding parse_net_msg regex_match
read_garbage = refl

diamond_two-IsPackCard : IsPackCard diamond_two
diamond_two-IsPackCard = (inl refl, inr (inl refl))

club_ten-IsPackCard : IsPackCard club_ten
club_ten-IsPackCard = (inr (inr (inr (inr (inr (inr (inr (inr (inl refl)))))))), inl refl)

club_ace-IsPackCard : IsPackCard club_ace
club_ace-IsPackCard =
    (inr (inr (inr (inr (inr (inr (inr (inr (inr (inr (inr (inr (inl refl)))))))))))), inl refl)

heart_ten-IsPackCard : IsPackCard heart_ten
heart_ten-IsPackCard =
    (inr (inr (inr (inr (inr (inr (inr (inr (inl refl)))))))), inr (inr (inl refl)))

pub west_takes-IsToClient : IsToClient west_takes
west_takes-IsToClient = (
  refl,
  (
    club_ten-IsPackCard,
    (diamond_two-IsPackCard, (club_ace-IsPackCard, (heart_ten-IsPackCard, tt))),
  ),
  tt,
  (omega arith, omega arith),
)

parse_net_msg-to_client_example :
    parse_net_msg (body west_takes) false ≡ some (client_entries west_takes)
parse_net_msg-to_client_example = parse_net_msg-to_client west_takes west_takes-IsToClient

parse_net_msg-to_server_example :
    parse_net_msg (body (trick (heart_ten ∷ []) 13)) true
    ≡ some (server_entries (trick (heart_ten ∷ []) 13))
parse_net_msg-to_server_example =
    parse_net_msg-to_server (trick (heart_ten ∷ []) 13)
      (heart_ten-IsPackCard, (omega arith, omega arith))

abbrev pub playing : ClientState
playing = record {
  stage = after_first_deal;
  waiting_for_card = false;
  trick_no = 12;
  exit_flag = 0;
  terminate = false;
}

pub west_takes-IsCard : All IsCard (cards_of west_takes)
unfolding at
west_takes-IsCard = (refl, (refl, (refl, (refl, tt))))

on_server_line-call_of_example :
    on_server_line (body west_takes) playing
    ≡ some (client_behind west_takes playing, call_of west_takes after_first_deal)
on_server_line-call_of_example =
    on_server_line-call_of west_takes playing west_takes-IsToClient west_takes-IsCard
