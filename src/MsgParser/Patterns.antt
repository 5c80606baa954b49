-- ===== src/MsgParser/Patterns.antt =====
-- The table `patterns`, pattern for pattern.
use kierki.Prelude.{List, [], ◌∷◌, codes}
use kierki.Regex.{Regex, chars, alt, seq, star, char, lit, times, up_to}

-- `CARD_`: "(([2-9]|10|J|Q|K|A)(C|D|H|S))".
abbrev pub value_re : Regex
value_re =
    alt (chars ((b'2', b'9') ∷ []))
      (alt (lit (codes "10")) (alt (char b'J') (alt (char b'Q') (alt (char b'K') (char b'A')))))

abbrev pub color_re : Regex
color_re = alt (char b'C') (alt (char b'D') (alt (char b'H') (char b'S')))

abbrev pub card_re : Regex
card_re = seq value_re color_re

-- `SIDE_`: "[NSEW]".
abbrev pub side_re : Regex
side_re = chars ((b'N', b'N') ∷ (b'S', b'S') ∷ (b'E', b'E') ∷ (b'W', b'W') ∷ [])

-- `RN_`: "([1-9]|1[0123])".
abbrev pub rn_re : Regex
rn_re = alt (chars ((b'1', b'9') ∷ [])) (seq (char b'1') (chars ((b'0', b'3') ∷ [])))

-- "(0|([1-9][0-9]*))".
abbrev pub number_re : Regex
number_re = alt (char b'0') (seq (chars ((b'1', b'9') ∷ [])) (star (chars ((b'0', b'9') ∷ []))))

abbrev pub iam_re : Regex
iam_re = seq (lit (codes "IAM")) side_re

abbrev pub busy_re : Regex
busy_re = seq (lit (codes "BUSY")) (seq side_re (up_to 3 side_re))

abbrev pub deal_re : Regex
deal_re =
    seq (lit (codes "DEAL")) (seq (chars ((b'1', b'7') ∷ [])) (seq side_re (times 13 card_re)))

abbrev pub trick_s_re : Regex
trick_s_re = seq (lit (codes "TRICK")) (seq rn_re (up_to 3 card_re))

abbrev pub trick_c_re : Regex
trick_c_re = seq (lit (codes "TRICK")) (seq rn_re card_re)

abbrev pub wrong_re : Regex
wrong_re = seq (lit (codes "WRONG")) rn_re

abbrev pub taken_re : Regex
taken_re = seq (lit (codes "TAKEN")) (seq rn_re (seq (times 4 card_re) side_re))

abbrev pub score_re : Regex
score_re = seq (lit (codes "SCORE")) (times 4 (seq side_re number_re))

abbrev pub total_re : Regex
total_re = seq (lit (codes "TOTAL")) (times 4 (seq side_re number_re))

abbrev pub patterns : List Regex
patterns =
    iam_re ∷ busy_re ∷ deal_re ∷ trick_s_re ∷ trick_c_re ∷ wrong_re ∷ taken_re ∷ score_re ∷ total_re
    ∷ []
