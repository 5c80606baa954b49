-- ===== src/Examples/Files.antt =====
-- A scenario's lines, the answers of a socket, and arguments of the client.
use kierki.Prelude.{
  ℕ, ◌↔◌, List, [], ◌∷◌, Option, none, some, Bytes, codes, map, length, All, Any, ◌≡◌, refl, inl,
  inr, arith,
}
use kierki.Types.{
  Side, sides, side_n, side_e, side_s, side_w, side_null, everything, Hand, color_c, color_d,
  color_h, color_s,
}
use kierki.Card.{values, at}
use kierki.GameRules.RoundTotal.{color_cards}
use kierki.Scenario.{parse_scenario, parse_rounds, read_hands, read_cards, pos}
use kierki.Scenario.RoundTrip.{
  Deal, scenario_lines, as_round, as_read, as_state, name_all, deal_lines, IsWritten, IsGoodCard,
  parse_scenario-scenario_lines,
}
use kierki.SendNoBlock.{
  accepted, blocked, send_no_block_n, all_accepted, send_from, one_less, send_no_block_n_complete,
  send_no_block_n-ends,
}
use kierki.Options.{Options, no_options, flag, parse_args}
use kierki.Options.Ends.{IsUnknown, IsKnown, parse_args-unknown, parse_args-IsKnown}

abbrev hand_of : Side → Hand
hand_of side_n = color_cards color_c values
hand_of side_e = color_cards color_d values
hand_of side_s = color_cards color_h values
hand_of side_w = color_cards color_s values
hand_of side_null = color_cards color_c values

abbrev last_penalty : Deal
last_penalty = record { type = everything; starting = side_w; hand = hand_of }

hands-length : (s : Side) → length (hand_of s) ≡ 13
hands-length side_n = refl
hands-length side_e = refl
hands-length side_s = refl
hands-length side_w = refl
hands-length side_null = refl

abbrev IsValue : Bytes × ℕ → Type 0
IsValue (text, value) = Any (λ (p : Bytes × ℕ). text ≡ p.0) values × (at values text ≡ some value)

values-IsValue : All IsValue values
unfolding at
values-IsValue = (
  (inl refl, refl),
  (
    (inr (inl refl), refl),
    (
      (inr (inr (inl refl)), refl),
      (
        (inr (inr (inr (inl refl))), refl),
        (
          (inr (inr (inr (inr (inl refl)))), refl),
          (
            (inr (inr (inr (inr (inr (inl refl))))), refl),
            (
              (inr (inr (inr (inr (inr (inr (inl refl)))))), refl),
              (
                (inr (inr (inr (inr (inr (inr (inr (inl refl))))))), refl),
                (
                  (inr (inr (inr (inr (inr (inr (inr (inr (inl refl)))))))), refl),
                  (
                    (inr (inr (inr (inr (inr (inr (inr (inr (inr (inl refl))))))))), refl),
                    (
                      (inr (inr (inr (inr (inr (inr (inr (inr (inr (inr (inl refl)))))))))), refl),
                      (
                        (
                          inr (
                              inr (inr (inr (inr (inr (inr (inr (inr (inr (inr (inl refl))))))))))),
                          refl,
                        ),
                        (
                          (
                            inr (
                                inr (
                                  inr (
                                    inr
                                      (inr (inr (inr (inr (inr (inr (inr (inr (inl refl)))))))))))),
                            refl,
                          ),
                          tt,
                        ),
                      ),
                    ),
                  ),
                ),
              ),
            ),
          ),
        ),
      ),
    ),
  ),
)

color_cards-IsGoodCard :
    (k : ℕ) (vs : List (Bytes × ℕ))
    → Any (λ j. k ≡ j) (b'C' ∷ b'D' ∷ b'H' ∷ b'S' ∷ [])
    → All IsValue vs
    → All IsGoodCard (color_cards k vs)
color_cards-IsGoodCard k [] color all = tt
color_cards-IsGoodCard k ((text, value) ∷ vs) color ((listed, worth), all) =
    (((listed, color), worth), color_cards-IsGoodCard k vs color all)

hands-IsGoodCard : (s : Side) → All IsGoodCard (hand_of s)
hands-IsGoodCard side_n = color_cards-IsGoodCard color_c values (inl refl) values-IsValue
hands-IsGoodCard side_e = color_cards-IsGoodCard color_d values (inr (inl refl)) values-IsValue
hands-IsGoodCard side_s =
    color_cards-IsGoodCard color_h values (inr (inr (inl refl))) values-IsValue
hands-IsGoodCard side_w =
    color_cards-IsGoodCard color_s values (inr (inr (inr (inl refl)))) values-IsValue
hands-IsGoodCard side_null = color_cards-IsGoodCard color_c values (inl refl) values-IsValue

deals-IsWritten : All IsWritten (last_penalty ∷ [])
deals-IsWritten = ((tt, hands-length, hands-IsGoodCard), tt)

parse_scenario-scenario_lines_example :
    (parse_scenario (scenario_lines (last_penalty ∷ [])) ≡ some (map as_read (last_penalty ∷ [])))
    × (name_all (map as_read (last_penalty ∷ [])) ≡ some (map as_round (last_penalty ∷ [])))
parse_scenario-scenario_lines_example =
    parse_scenario-scenario_lines (last_penalty ∷ []) deals-IsWritten

-- A round whose second character is no seat, before the four hands of `last_penalty`: it is read, and
-- has no seat that starts.
abbrev no_seat : List Bytes
no_seat = codes "1X" ∷ deal_lines hand_of sides []

no_seat-read :
    parse_scenario no_seat
    ≡ some (record { type = pos 1; state = as_state last_penalty; starting = pos 88 } ∷ [])
unfolding parse_scenario parse_rounds read_hands read_cards kierki.Card.from_string
    kierki.SendJob.cards_text kierki.Card.to_string at
no_seat-read = refl

-- A message of six bytes that goes out in two pieces, and one that meets a full socket.
in_two : send_no_block_n 6 (accepted 4 ∷ accepted 2 ∷ []) ≡ some (some 6)
unfolding send_no_block_n send_from
in_two = refl

stopped_short : send_no_block_n 6 (accepted 4 ∷ blocked ∷ []) ≡ some (some 3)
unfolding send_no_block_n send_from one_less
stopped_short = refl

abbrev six : Option ℕ
six = some 6

send_no_block_n_complete_example : (six ≡ six) ↔ (all_accepted (accepted 4 ∷ accepted 2 ∷ []) ≡ 6)
send_no_block_n_complete_example =
    send_no_block_n_complete 6 (accepted 4 ∷ accepted 2 ∷ []) six (omega arith, (omega arith, tt))
      in_two

send_no_block_n-ends_example :
    (r : Option ℕ) × (send_no_block_n 2 (accepted 1 ∷ blocked ∷ []) ≡ some r)
send_no_block_n-ends_example = send_no_block_n-ends 2 (accepted 1 ∷ blocked ∷ []) (omega arith)

-- Every text is a port.
abbrev some_port : Bytes → ℕ
some_port text = 10000

IsUnknown-help : IsUnknown (codes "--help")
unfolding flag
IsUnknown-help = (refl, refl, λ o. refl)

parse_args-unknown_example :
    parse_args some_port 1000 (codes "--help" ∷ codes "-N" ∷ []) no_options ≡ none
parse_args-unknown_example =
    parse_args-unknown some_port 1000 (codes "--help") (codes "-N" ∷ []) no_options IsUnknown-help

west_plays : IsKnown (codes "-p" ∷ codes "10000" ∷ codes "-W" ∷ codes "-h" ∷ codes "localhost" ∷ [])
unfolding flag
west_plays = IsKnown.ported refl (
    IsKnown.flagged refl refl (λ o. (record o { side = side_w }, refl))
      (IsKnown.hosted refl IsKnown.no_more))

parse_args-IsKnown_example :
    (o' : Options) × (parse_args some_port 6
        (codes "-p" ∷ codes "10000" ∷ codes "-W" ∷ codes "-h" ∷ codes "localhost" ∷ [])
        no_options
      ≡ some o')
parse_args-IsKnown_example =
    parse_args-IsKnown some_port
      (codes "-p" ∷ codes "10000" ∷ codes "-W" ∷ codes "-h" ∷ codes "localhost" ∷ []) 6 no_options
      west_plays (omega arith)
