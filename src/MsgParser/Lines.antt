-- ===== src/MsgParser/Lines.antt =====
-- A line that the parser accepts has no line end inside.
use kierki.Prelude.{
  ℕ, zero, suc, ◌≤◌, ◌++◌, length, length-append, Bool, true, List, [], ◌∷◌, some, Bytes, ◌≡◌, inl,
  inr, refl, arith, All, Bool-cases,
}
use kierki.Types.{Card}
use kierki.Card
use kierki.Text.{decimal}
use kierki.SendJob.{trick, body, cards_text}
use kierki.MsgParser.Cutting.{IsPackCard, IsPackCard-text}
use kierki.MsgParser.Tricks.{number_text}
use kierki.MsgParser.RoundTrip.{IsTrickNo}
use kierki.Regex.{Regex, regex_match}
use kierki.Regex.Avoiding.{avoids, IsWithout, regex_match-IsWithout}
use kierki.MsgParser.{parse_net_msg, parse_from, is_skipped}
use kierki.MsgParser.Patterns.{patterns}
use kierki.MsgParser.Pieces.{ParseResp}

patterns-avoid : All (λ r. avoids b'\n' r ≡ true) patterns
patterns-avoid = (refl, (refl, (refl, (refl, (refl, (refl, (refl, (refl, (refl, tt)))))))))

parse_from-IsWithout :
    (server_side : Bool) (regs : List Regex) (i : ℕ) (m : Bytes) {e : Bytes × Bytes}
    {es : ParseResp}
    → All (λ r. avoids b'\n' r ≡ true) regs
    → parse_from server_side regs i m ≡ some (e ∷ es)
    → IsWithout b'\n' m
unfolding parse_from
parse_from-IsWithout server_side [] i m h p = cc
parse_from-IsWithout server_side (reg ∷ regs) i m {e} {es} (a, h) p =
    elim (Bool-cases (is_skipped server_side i)) [
      | inl s ↦ parse_from-IsWithout server_side regs (suc i) m {e = e} {es = es} h (ground arith)
      | inr s ↦ elim (Bool-cases (regex_match m reg)) [
        | inl t ↦ regex_match-IsWithout b'\n' reg m a t
        | inr t ↦ parse_from-IsWithout server_side regs (suc i) m {e = e} {es = es} h (ground arith)
      ]
    ]

pub parse_net_msg-IsWithout :
    (m : Bytes) (server_side : Bool) {e : Bytes × Bytes} {es : ParseResp}
    → parse_net_msg m server_side ≡ some (e ∷ es)
    → IsWithout b'\n' m
unfolding parse_net_msg
parse_net_msg-IsWithout m server_side p =
    parse_from-IsWithout server_side patterns 0 m patterns-avoid p

length-card : (c : Card) → IsPackCard c → length (Card.to_string c) ≤ 3
length-card c h = elim (IsPackCard-text c h).1 [
  | inl (x, k, e, lead, color) ↦ rw e (omega arith)
  | inr (k, e, color) ↦ rw e (omega arith)
]

length-decimal : (n : ℕ) → IsTrickNo n → length (decimal n) ≤ 2
length-decimal zero (lo, hi) = absurd (omega arith)
length-decimal (suc i) (lo, hi) = elim (number_text i (omega arith)).1 [
  | inl (d, e) ↦ rw e (omega arith)
  | inr (d, d', e) ↦ rw e (omega arith)
]

-- The line of a move is short.
pub length-trick :
    (n : ℕ) (c : Card) → IsTrickNo n → IsPackCard c → length (body (trick (c ∷ []) n)) ≤ 10
unfolding body cards_text
length-trick n c hn h =
    let nothing : Bytes = [] in
    omega (
      arith,
      length-append (decimal n) (Card.to_string c ++ nothing),
      length-append (Card.to_string c) nothing,
      length-decimal n hn,
      length-card c h,
    )
