-- ===== src/MsgParser/Pieces.antt =====
-- The loops that cut a line into its pieces, by position.
use kierki.Prelude.{
  ℕ, zero, suc, ◌+◌, ◌-◌, true, false, List, [], ◌∷◌, ◌++◌, Option, none, some, if◌then◌else◌,
  Bytes, codes, ltb, leb, ◌==◌, ◌>>=◌, length, get_elem?, take, drop,
}
use kierki.Text.{is_digit}

-- The pairs of a key and a value.
abbrev pub ParseResp : Type 0
ParseResp = List (Bytes × Bytes)

-- `m.substr(pos, len)`.
unfoldable pub substr : Bytes → ℕ → ℕ → Option Bytes
substr m pos len = if leb pos (length m) then some (take len (drop pos m)) else none

-- `m.substr(pos)`.
unfoldable pub substr_from : Bytes → ℕ → Option Bytes
unfolding substr
substr_from m pos = substr m pos (length m)

-- A card that begins at `itr`, and the position behind it.
unfoldable pub take_card : Bytes → ℕ → Option (Bytes × ℕ)
unfolding substr
take_card m itr = do
  c ← get_elem? m itr
  if c == b'1'
      then (do card ← substr m itr 3; some (card, itr + 1 + 2))
      else (do card ← substr m itr 2; some (card, itr + 2))

-- `for (size_t j = itr; j < m.size(); j++)` of the sides, with as many rounds as are left.
unfoldable pub sides_loop : ℕ → Bytes → ℕ → ParseResp → Option ParseResp
unfolding substr
sides_loop zero m j res = some res
sides_loop (suc left) m j res = do
  side ← substr m j 1
  sides_loop left m (suc j) (res ++ (codes "side", side) ∷ [])

-- The loop over the thirteen cards of a deal: `n` cards are left.
unfoldable pub deal_loop : ℕ → Bytes → ℕ → ParseResp → Option ParseResp
unfolding take_card
deal_loop zero m itr res = some res
deal_loop (suc n) m itr res = do
  (card, itr') ← take_card m itr
  deal_loop n m itr' (res ++ (codes "card", card) ∷ [])

-- `while (itr < m.size())`, on fuel; `none` also if the fuel runs out.
unfoldable pub cards_loop : ℕ → Bytes → ℕ → ParseResp → Option ParseResp
unfolding take_card
cards_loop zero m itr res = none
cards_loop (suc fuel) m itr res = elim (ltb itr (length m)) [
  | true ↦ take_card m itr >>= λ r. cards_loop fuel m r.1 (res ++ (codes "card", r.0) ∷ [])
  | false ↦ some res
]

-- A card that ends at `itr`, and the position before it.
unfoldable pub take_card_back : Bytes → ℕ → Option (Bytes × ℕ)
unfolding substr
take_card_back m itr = do
  c ← get_elem? m (itr - 1)
  if c == b'0'
      then (do card ← substr m (itr - 2) 3; some (card, itr - 1 - 2))
      else (do card ← substr m (itr - 1) 2; some (card, itr - 2))

-- The loop over the four cards of a trick that is taken, from the last card on.
unfoldable pub back_loop : ℕ → Bytes → ℕ → ParseResp → Option (ParseResp × ℕ)
unfolding take_card_back
back_loop zero m itr res = some (res, itr)
back_loop (suc n) m itr res = do
  (card, itr') ← take_card_back m itr
  back_loop n m itr' (res ++ (codes "card", card) ∷ [])

-- `while (itr + 1 < m.size() && m.at(itr + 1) is a digit) itr++`, on fuel.
unfoldable pub skip_digits : ℕ → Bytes → ℕ → ℕ
skip_digits zero m itr = itr
skip_digits (suc fuel) m itr = elim (get_elem? m (itr + 1)) [
  | none ↦ itr
  | some c ↦ elim (is_digit c) [ true ↦ skip_digits fuel m (itr + 1) | false ↦ itr ]
]

-- The loop over the four sides with their scores.
unfoldable pub scores_loop : ℕ → Bytes → ℕ → ParseResp → Option ParseResp
unfolding substr skip_digits
scores_loop zero m itr res = some res
scores_loop (suc n) m itr res = do
  side ← substr m itr 1
  let start = itr + 1
  let last = skip_digits (length m) m start
  score ← substr m start (last - start + 1)
  scores_loop n m (last + 1) (res ++ (codes "side", side) ∷ (codes "score", score) ∷ [])
