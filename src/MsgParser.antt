-- ===== src/MsgParser.antt =====
-- common/network_msg_parser.cpp: the patterns of the protocol, and how a line is taken apart.
-- `none` is an exception of `substr` or `at`.
pub mod Patterns
pub mod Pieces
pub mod Cutting
pub mod Cards
pub mod DealRoundTrip
pub mod Tricks
pub mod TrickRoundTrip
pub mod ShortRoundTrip
pub mod TakenRoundTrip
pub mod Scores
pub mod RoundTrip
pub mod Lines
pub mod ScoresRoundTrip
use mathlib.Core.List.{reverse}
use kierki.Prelude.{
  ℕ, zero, suc, ◌+◌, ◌-◌, Bool, true, false, not, ◌&&◌, ◌||◌, List, [], ◌∷◌, ◌++◌, Option, none,
  some, if◌then◌else◌, Bytes, codes, leb, ◌==◌, ◌>>=◌, length, get_elem?,
}
use kierki.Types.{tricks_per_round}
use kierki.Regex.{Regex, regex_match}
use Patterns.{patterns}
use Pieces.{
  ParseResp, substr, substr_from, sides_loop, deal_loop, cards_loop, back_loop, scores_loop,
}

unfoldable pub parse_iam : Bytes → Option ParseResp
unfolding substr
parse_iam m = do side ← substr m 3 1; some ((codes "type", codes "IAM") ∷ (codes "side", side) ∷ [])

unfoldable pub parse_busy : Bytes → Option ParseResp
unfolding sides_loop
parse_busy m = sides_loop (length m - 4) m 4 ((codes "type", codes "BUSY") ∷ [])

unfoldable pub parse_deal : Bytes → Option ParseResp
unfolding substr deal_loop
parse_deal m = do
  round_mode ← substr m 4 1
  side ← substr m 5 1
  deal_loop tricks_per_round m 6
      ((codes "type", codes "DEAL") ∷ (codes "round_mode", round_mode) ∷ (codes "side", side) ∷ [])

-- Behind a round number of one digit a card has its colour, or the 0 of a ten, at position 7.
abbrev pub one_digit : ℕ → Bool
one_digit ind = ind == b'C' || ind == b'H' || ind == b'D' || ind == b'S' || ind == b'0'

unfoldable pub trick_head : Bytes → Option (Bytes × ℕ)
unfolding substr substr_from
trick_head m = if leb (length m) 7 then (do rn ← substr_from m 5; some (rn, 7)) else (do
  ind ← get_elem? m 7
  if one_digit ind
      then (do rn ← substr m 5 1; some (rn, 6))
      else (do rn ← substr m 5 2; some (rn, 7)))

unfoldable pub parse_trick_s : Bytes → Option ParseResp
unfolding trick_head cards_loop
parse_trick_s m = do
  (rn, itr) ← trick_head m
  cards_loop (suc (length m)) m itr ((codes "type", codes "TRICK_S") ∷ (codes "rn", rn) ∷ [])

-- The card at the end, and the position before it.
unfoldable pub last_card : Bytes → Option (Bytes × ℕ)
unfolding substr
last_card m = do
  c ← get_elem? m (length m - 2)
  if c == b'0'
      then (do card ← substr m (length m - 3) 3; some (card, length m - 4))
      else (do card ← substr m (length m - 2) 2; some (card, length m - 3))

unfoldable pub parse_trick_c : Bytes → Option ParseResp
unfolding last_card
parse_trick_c m = do
  (card, itr) ← last_card m
  rn ← substr m 5 (itr - 4)
  some (reverse ((codes "card", card) ∷ (codes "rn", rn) ∷ (codes "type", codes "TRICK_C") ∷ []))

unfoldable pub parse_wrong : Bytes → Option ParseResp
unfolding substr_from
parse_wrong m = do
  rn ← substr_from m 5
  some ((codes "type", codes "WRONG") ∷ (codes "rn", rn) ∷ [])

unfoldable pub parse_taken : Bytes → Option ParseResp
unfolding substr substr_from back_loop
parse_taken m = do
  side ← substr_from m (length m - 1)
  (res, itr) ← back_loop 4 m (length m - 2) ((codes "side", side) ∷ [])
  rn ← substr m 5 (itr - 4)
  some (reverse (res ++ (codes "rn", rn) ∷ (codes "type", codes "TAKEN") ∷ []))

unfoldable pub parse_scores : Bytes → Bytes → Option ParseResp
unfolding scores_loop
parse_scores name m = scores_loop 4 m 5 ((codes "type", name) ∷ [])

-- The `switch` on the number of the pattern.
unfoldable pub parse_as : ℕ → Bytes → Option ParseResp
parse_as zero m = parse_iam m
parse_as (suc zero) m = parse_busy m
parse_as (suc (suc zero)) m = parse_deal m
parse_as (suc (suc (suc zero))) m = parse_trick_s m
parse_as (suc (suc (suc (suc zero)))) m = parse_trick_c m
parse_as (suc (suc (suc (suc (suc zero))))) m = parse_wrong m
parse_as (suc (suc (suc (suc (suc (suc zero)))))) m = parse_taken m
parse_as (suc (suc (suc (suc (suc (suc (suc zero))))))) m = parse_scores (codes "SCORE") m
parse_as (suc (suc (suc (suc (suc (suc (suc (suc i)))))))) m = parse_scores (codes "TOTAL") m

-- The server reads the patterns 0 and 4, the client all others.
abbrev pub is_skipped : Bool → ℕ → Bool
is_skipped true i = not (i == 0) && not (i == 4)
is_skipped false i = i == 0 || i == 4

-- The loop over the patterns, from pattern `i` on: the first that matches decides.
unfoldable pub parse_from : Bool → List Regex → ℕ → Bytes → Option ParseResp
parse_from server_side [] i m = some []
parse_from server_side (reg ∷ regs) i m =
    let rest = parse_from server_side regs (suc i) m in
    if is_skipped server_side i then rest else if regex_match m reg then parse_as i m else rest

-- `parseNetMsg`.
unfoldable pub parse_net_msg : Bytes → Bool → Option ParseResp
unfolding parse_from
parse_net_msg m server_side = parse_from server_side patterns 0 m
