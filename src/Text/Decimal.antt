-- ===== src/Text/Decimal.antt =====
-- What the decimal text of a number looks like, and that `atoi` reads the number back.
use kierki.Prelude.{
  ℕ, zero, suc, ◌+◌, ◌-◌, ◌*◌, ◌/◌, ◌%◌, ◌<◌, true, ◌&&◌, [], ◌∷◌, Bytes, ltb, leb, ◌≡◌, ◌⊎◌, inl,
  inr, refl, ◌∙◌, arith, All, Bool-cases,
}
use kierki.Text.{digits, decimal, is_digit, atoi, atoi_from}

atoi_from-digits :
    (fuel n : ℕ) (out : Bytes) → n < fuel → atoi_from 0 (digits fuel n out) ≡ atoi_from n out
unfolding digits atoi_from
atoi_from-digits zero n out h = absurd (omega arith)
atoi_from-digits (suc fuel) n out h = elim (Bool-cases (ltb n 10)) [
  | inl e ↦
      let digit : is_digit (b'0' + n % 10) ≡ true = ground arith in
      let same : 0 * 10 + (b'0' + n % 10 - b'0') ≡ n = ground arith in rw (e, digit, same)
  | inr e ↦
      let digit : is_digit (b'0' + n % 10) ≡ true = ground arith in
      let same : n / 10 * 10 + (b'0' + n % 10 - b'0') ≡ n = ground arith in
      let ih = atoi_from-digits fuel (n / 10) ((b'0' + n % 10) ∷ out) (ground arith) in
      rw (e, ih, digit, same)
]

-- A number's decimal text is read back as the number.
pub atoi-decimal : (n : ℕ) → atoi (decimal n) ≡ n
unfolding atoi decimal
atoi-decimal n = atoi_from-digits (suc n) n [] (omega arith) ∙ refl

-- The first digit is not 0.
abbrev pub Numeral : Bytes → Type 0
Numeral s =
    (d : ℕ) × (ds : Bytes) × (s ≡ d ∷ ds)
    × (leb b'1' d && leb d b'9' ≡ true)
    × All (λ c. is_digit c ≡ true) ds

digits-Numeral :
    (fuel n : ℕ) (out : Bytes)
    → n < fuel
    → 0 < n
    → All (λ c. is_digit c ≡ true) out
    → Numeral (digits fuel n out)
unfolding digits
digits-Numeral zero n out h pos k = absurd (omega arith)
digits-Numeral (suc fuel) n out h pos k = elim (Bool-cases (ltb n 10)) [
  | inl e ↦ (b'0' + n % 10, out, rw e, ground arith, k)
  | inr e ↦
      let (d, ds, f, first, rest) =
        digits-Numeral fuel (n / 10) ((b'0' + n % 10) ∷ out) (ground arith) (ground arith)
          (ground arith, k) in
      (d, ds, rw e f, first, rest)
]

-- The decimal text is a single 0, or it begins with another digit.
pub decimal-Numeral : (n : ℕ) → (decimal n ≡ b'0' ∷ []) ⊎ Numeral (decimal n)
unfolding decimal
decimal-Numeral zero = inl refl
decimal-Numeral (suc n) =
    inr (digits-Numeral (suc (suc n)) (suc n) [] (omega arith) (omega arith) tt)
