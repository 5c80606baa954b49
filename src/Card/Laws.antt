-- ===== src/Card/Laws.antt =====
-- What holds of cards: reading back a printed card, and the order of the operators.
use kierki.Prelude.{
  ℕ, zero, suc, ◌-◌, ◌≤◌, ◌<◌, true, false, not, ◌↔◌, [], ◌∷◌, ◌++◌, >>=-eq-some, some, ◌≡◌, refl,
  sym, ◌∙◌, inl, inr, Bool-cases, arith, Bytes, bytes_eq_sound, bytes_eq_self, length,
  length-append, get_elem?, take,
}
use kierki.Types.{Card}
use kierki.Card.{values, at, make_card, to_string, from_string, eq, ne, lt, le, gt, ge, same_card}

-- A card that the constructor can have made.
abbrev pub IsCard : Card → Type 0
IsCard c = at values c.value ≡ some c.true_val

get_elem?-append : (xs : Bytes) (c : ℕ) → get_elem? (xs ++ c ∷ []) (length xs) ≡ some c
get_elem?-append [] c = refl
get_elem?-append (x ∷ xs) c = get_elem?-append xs c

take-append : (xs : Bytes) (c : ℕ) → take (length xs) (xs ++ c ∷ []) ≡ xs
take-append [] c = refl
take-append (x ∷ xs) c = rw (take-append xs c)

length-snoc : (xs : Bytes) (c : ℕ) → length (xs ++ c ∷ []) - 1 ≡ length xs
length-snoc xs c = omega (arith, length-append xs (c ∷ []))

-- Every card that the constructor can make is read back from its text.
pub from_string-to_string : (c : Card) → IsCard c → from_string (to_string c) ≡ some c
unfolding from_string to_string
from_string-to_string c h =
    rw (length-snoc c.value c.col, get_elem?-append c.value c.col, take-append c.value c.col, h)

take_last :
    (s : Bytes) (n k : ℕ) → length s ≡ suc n → get_elem? s n ≡ some k → take n s ++ k ∷ [] ≡ s
take_last [] n k l h = absurd (omega arith)
take_last (x ∷ []) zero k l h = ground arith
take_last (x ∷ []) (suc n) k l h = absurd (omega arith)
take_last (x ∷ y ∷ s) zero k l h = absurd (omega arith)
take_last (x ∷ y ∷ s) (suc n) k l h = rw (take_last (y ∷ s) n k (omega arith) h)

snoc_last :
    (s : Bytes) (k : ℕ) → get_elem? s (length s - 1) ≡ some k → take (length s - 1) s ++ k ∷ [] ≡ s
snoc_last [] k h = cc
snoc_last (x ∷ s) k h = take_last (x ∷ s) (length (x ∷ s) - 1) k (omega arith) h

-- A card that is read from a text satisfies `IsCard`, and prints as that text.
make_card-IsCard :
    (v : Bytes) (k : ℕ) {c : Card} → make_card v k ≡ some c → IsCard c × (c.value ≡ v) × (c.col ≡ k)
unfolding make_card
make_card-IsCard v k h = ground arith

-- What is read from a text is such a card, and prints as that text.
pub to_string-from_string :
    (s : Bytes) {c : Card} → from_string s ≡ some c → IsCard c × (to_string c ≡ s)
unfolding from_string to_string
to_string-from_string s {c} h =
    let (k, e, f) = >>=-eq-some (get_elem? s (length s - 1)) _ h in
    let (ok, v, col) = make_card-IsCard (take (length s - 1) s) k f in
    (ok, rw (v, col) (snoc_last s k e))

-- Two such cards with one colour and one value are the same card.
pub same_card-eq : (a b : Card) → IsCard a → IsCard b → same_card a b ≡ true → a ≡ b
unfolding same_card
same_card-eq a b ha hb h = ground (arith, bytes_eq_sound a.value b.value)

-- The six operators are the comparisons of the true values.
pub operators_lem :
    (a b : Card)
    → ((eq a b ≡ true) ↔ (a.true_val ≡ b.true_val))
      × ((lt a b ≡ true) ↔ (a.true_val < b.true_val))
      × ((le a b ≡ true) ↔ (a.true_val ≤ b.true_val))
      × ((gt a b ≡ true) ↔ (b.true_val < a.true_val))
      × ((ge a b ≡ true) ↔ (b.true_val ≤ a.true_val))
      × (ne a b ≡ not (eq a b))
unfolding eq ne lt le gt ge
operators_lem a b = ground arith

pub same_card_sound : (a b : Card) → same_card a b ≡ true → (a.col ≡ b.col) × (a.value ≡ b.value)
unfolding same_card
same_card_sound a b h = ground (arith, bytes_eq_sound a.value b.value)

pub same_card_refl : (a b : Card) → a.col ≡ b.col → a.value ≡ b.value → same_card a b ≡ true
unfolding same_card
same_card_refl a b h k = ground (arith, bytes_eq_self b.value)

-- Cards that are the same pass the same tests of this kind, on either side.
pub same_card-left : (a b x : Card) → same_card a b ≡ true → same_card a x ≡ same_card b x
same_card-left a b x h =
    let (k, v) = same_card_sound a b h in
    elim (Bool-cases (same_card a x)) [
      | inl e ↦
          let (k', v') = same_card_sound a x e in
          rw (e, same_card_refl b x (sym k ∙ k') (sym v ∙ v'))
      | inr e ↦ elim (Bool-cases (same_card b x)) [
        | inl f ↦ let (k', v') = same_card_sound b x f in cc (same_card_refl a x (k ∙ k') (v ∙ v'))
        | inr f ↦ cc
      ]
    ]

pub same_card_symm : (a b : Card) → same_card a b ≡ true → same_card b a ≡ true
same_card_symm a b h = let (k, v) = same_card_sound a b h in same_card_refl b a (sym k) (sym v)

pub gt→lt : (a b : Card) → gt a b ≡ true → b.true_val < a.true_val
gt→lt a b h = (operators_lem a b).3.0 h

pub not-gt→le : (a b : Card) → gt a b ≡ false → a.true_val ≤ b.true_val
unfolding gt le eq lt
not-gt→le a b h = ground arith
