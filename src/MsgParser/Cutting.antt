-- ===== src/MsgParser/Cutting.antt =====
-- Where a text is put together from parts, the loops of the parser find the parts again.
use mathlib.Core.Path.{subst}
use kierki.Prelude.{
  zero, suc, ◌≤◌, ℕ, Bool, true, not, ◌&&◌, ◌||◌, List, [], ◌∷◌, ◌++◌, some, ◌≡◌, ◌⊎◌, inl, inr,
  refl, sym, ap, arith, Bytes, codes, leb, ◌==◌, length, length-append, take, drop, All, Any,
}
use kierki.Types.{Card}
use kierki.Card
use kierki.Card.{values}
use kierki.Regex.{regex_match}
use kierki.Regex.Language.{Lang, regex_match-Lang}
use kierki.MsgParser.Patterns.{value_re, color_re, card_re}
use kierki.MsgParser.Pieces.{substr, substr_from}

pub drop_front : (xs ys : Bytes) → drop (length xs) (xs ++ ys) ≡ ys
drop_front [] ys = refl
drop_front (x ∷ xs) ys = drop_front xs ys

pub take_front : (xs ys : Bytes) → take (length xs) (xs ++ ys) ≡ xs
take_front [] ys = refl
take_front (x ∷ xs) ys = rw (take_front xs ys)

-- The part of a text that stands behind `pre` and before `rest`.
pub substr_middle :
    (pre u rest : Bytes) → substr (pre ++ (u ++ rest)) (length pre) (length u) ≡ some u
unfolding substr
substr_middle pre u rest =
    let fits : leb (length pre) (length (pre ++ (u ++ rest))) ≡ true =
      ground (arith, length-append pre (u ++ rest)) in
    rw (fits, drop_front pre (u ++ rest), take_front u rest)

take_all : (n : ℕ) (xs : Bytes) → length xs ≤ n → take n xs ≡ xs
take_all zero [] h = refl
take_all zero (x ∷ xs) h = absurd (omega arith)
take_all (suc n) [] h = refl
take_all (suc n) (x ∷ xs) h = ap (λ ys. x ∷ ys) (take_all n xs (omega arith))

-- The end of a text that stands behind `pre`.
pub substr_from_end : (pre u : Bytes) → substr_from (pre ++ u) (length pre) ≡ some u
unfolding substr_from substr
substr_from_end pre u =
    let whole = length-append pre u in
    let fits : leb (length pre) (length (pre ++ u)) ≡ true = ground (arith, whole) in
    rw (fits, drop_front pre u) (ap some (take_all (length (pre ++ u)) u (omega (arith, whole))))

-- A card of the pack: one of the values of the table, and one of the four colours.
abbrev pub IsPackCard : Card → Type 0
IsPackCard c =
    Any (λ (p : Bytes × ℕ). c.value ≡ p.0) values
    × Any (λ k. c.col ≡ k) (b'C' ∷ b'D' ∷ b'H' ∷ b'S' ∷ [])

-- The first character of a value that is no ten.
abbrev pub is_lead : ℕ → Bool
is_lead x =
    not (x == b'1')
    && not (x == b'0')
    && not (x == b'C')
    && not (x == b'D')
    && not (x == b'H')
    && not (x == b'S')

abbrev pub is_color : ℕ → Bool
is_color k = k == b'C' || k == b'D' || k == b'H' || k == b'S'

-- The text of a card has two characters, or it is a ten.
abbrev pub CardText : Bytes → Type 0
CardText t =
    ((x k : ℕ) × (t ≡ x ∷ k ∷ []) × (is_lead x ≡ true) × (is_color k ≡ true))
    ⊎ ((k : ℕ) × (t ≡ b'1' ∷ b'0' ∷ k ∷ []) × (is_color k ≡ true))

pick :
    {A B : Type 0} (P : B → Type 0) (f : A → B) (v : B) (xs : List A)
    → All (λ x. P (f x)) xs
    → Any (λ x. v ≡ f x) xs
    → P v
pick P f v [] h a = absurd a
pick P f v (x ∷ xs) (p, h) (inl e) = subst P (sym e) p
pick P f v (x ∷ xs) (p, h) (inr a) = pick P f v xs h a

abbrev ValueText : Bytes → Type 0
ValueText v =
    (regex_match v value_re ≡ true)
    × (((x : ℕ) × (v ≡ x ∷ []) × (is_lead x ≡ true)) ⊎ (v ≡ codes "10"))

abbrev short :
    {x : ℕ} → regex_match (x ∷ []) value_re ≡ true → is_lead x ≡ true → ValueText (x ∷ [])
short {x} m l = (m, inl (x, refl, l))

values-ValueText : All (λ p. ValueText p.0) values
unfolding regex_match
values-ValueText = (
  short refl refl,
  (
    short refl refl,
    (
      short refl refl,
      (
        short refl refl,
        (
          short refl refl,
          (
            short refl refl,
            (
              short refl refl,
              (
                short refl refl,
                (
                  (refl, inr refl),
                  (short refl refl, (short refl refl, (short refl refl, (short refl refl, tt)))),
                ),
              ),
            ),
          ),
        ),
      ),
    ),
  ),
)

abbrev ColorText : ℕ → Type 0
ColorText k = (regex_match (k ∷ []) color_re ≡ true) × (is_color k ≡ true)

colors-ColorText : All ColorText (b'C' ∷ b'D' ∷ b'H' ∷ b'S' ∷ [])
unfolding regex_match
colors-ColorText = ((refl, refl), ((refl, refl), ((refl, refl), ((refl, refl), tt))))

-- A card of the pack matches the card pattern, and its text has one of the two forms.
pub IsPackCard-text :
    (c : Card) → IsPackCard c → Lang card_re (Card.to_string c) × CardText (Card.to_string c)
unfolding Card.to_string
IsPackCard-text c (hv, hk) =
    let (mv, form) = pick ValueText (λ (p : Bytes × ℕ). p.0) c.value values values-ValueText hv in
    let (mk, color) =
      pick ColorText (λ (k : ℕ). k) c.col (b'C' ∷ b'D' ∷ b'H' ∷ b'S' ∷ []) colors-ColorText hk in
    (
      (
        c.value,
        c.col ∷ [],
        refl,
        (regex_match-Lang c.value value_re).0 mv,
        (regex_match-Lang (c.col ∷ []) color_re).0 mk,
      ),
      elim form [
        | inl (x, e, l) ↦ inl (x, c.col, ap (λ v. v ++ c.col ∷ []) e, l, color)
        | inr e ↦ inr (c.col, ap (λ v. v ++ c.col ∷ []) e, color)
      ],
    )
