-- ===== src/Text.antt =====
-- `std::to_string` and `atoi` of the C++ library, for the numbers that stand in messages.
pub mod Decimal
use kierki.Prelude.{
  ℕ, zero, suc, ◌+◌, ◌-◌, ◌*◌, ◌/◌, ◌%◌, Bool, ◌&&◌, List, [], ◌∷◌, Bytes, ltb, leb, if◌then◌else◌,
}

-- The digits of `n` in front of `out`, last digit first; `n` rounds are more than enough.
unfoldable pub digits : ℕ → ℕ → Bytes → Bytes
digits zero n out = out
digits (suc fuel) n out =
    let d = b'0' + n % 10 in
    let more = digits fuel (n / 10) (d ∷ out) in if ltb n 10 then d ∷ out else more

-- `std::to_string` of a number that is not negative.
unfoldable pub decimal : ℕ → Bytes
unfolding digits
decimal n = digits (suc n) n []

abbrev pub is_digit : ℕ → Bool
is_digit c = leb b'0' c && leb c b'9'

unfoldable pub atoi_from : ℕ → Bytes → ℕ
atoi_from n [] = n
atoi_from n (c ∷ s) = let more = atoi_from (n * 10 + (c - b'0')) s in if is_digit c then more else n

-- `atoi` of a text that begins with a digit or is empty.
unfoldable pub atoi : Bytes → ℕ
unfolding atoi_from
atoi s = atoi_from 0 s
