-- ===== src/Hands/Laws.antt =====
-- What is left of a hand when cards are taken out of it.
use mathlib.Core.List.{Perm}
use mathlib.Core.List.Perm
use kierki.Prelude.{
  ◌+◌, Bool, true, false, not, ◌&&◌, [], ◌∷◌, inl, inr, ◌≡◌, refl, arith, Bool-cases, any, length,
  if◌then◌else◌,
}
use kierki.Types.{Card, Hand, Table}
use kierki.Card.{same_card}
use kierki.Card.Laws.{same_card-left, same_card_symm}
use kierki.Hands.{rm_card_if_present, rm_intersection}

-- The hand holds the card.
abbrev pub holds : Hand → Card → Bool
holds hand c = any (λ it. same_card it c) hand

-- A card that is absent changes nothing.
pub rm_card_if_present_absent :
    (hand : Hand) (c : Card) → holds hand c ≡ false → rm_card_if_present hand c ≡ hand
unfolding rm_card_if_present
rm_card_if_present_absent [] c h = refl
rm_card_if_present_absent (it ∷ hand) c h = ground (arith, rm_card_if_present_absent hand c)

-- A card that is present is taken out once, and all others stay.
pub rm_card_if_present-perm :
    (hand : Hand) (c : Card)
    → holds hand c ≡ true
    → (it : Card) × (same_card it c ≡ true) × Perm hand (it ∷ rm_card_if_present hand c)
unfolding rm_card_if_present
rm_card_if_present-perm [] c h = absurd (ground arith)
rm_card_if_present-perm (it ∷ hand) c h = elim (Bool-cases (same_card it c)) [
  | inl hit ↦ (it, hit, rw hit (Perm.refl (it ∷ hand)))
  | inr miss ↦
      let (d, e, p) = rm_card_if_present-perm hand c (ground arith) in
      (d, e, rw miss (Perm.trans (Perm.cons it p) (Perm.swap d it _)))
]

pub length-rm_card_if_present :
    (hand : Hand) (c : Card)
    → length (rm_card_if_present hand c) + (if holds hand c then 1 else 0) ≡ length hand
unfolding rm_card_if_present
length-rm_card_if_present [] c = refl
length-rm_card_if_present (it ∷ hand) c = ground (arith, length-rm_card_if_present hand c)

-- No two cards of the hand are the same.
abbrev pub IsDistinct : Hand → Type 0
IsDistinct [] = Unit {0}
IsDistinct (c ∷ hand) = (holds hand c ≡ false) × IsDistinct hand

pub holds_same : (hand : Hand) (a b : Card) → same_card a b ≡ true → holds hand a ≡ holds hand b
holds_same [] a b h = refl
holds_same (it ∷ hand) a b h =
    let s = same_card-left a b it h in
    let l = same_card_symm a it in
    let r = same_card_symm it a in
    let l' = same_card_symm b it in
    let r' = same_card_symm it b in ground (arith, holds_same hand a b h, s, l, r, l', r')

-- Taking a card out of a hand without doubles leaves every other card, and not that one.
pub holds-rm :
    (hand : Hand) (c x : Card)
    → IsDistinct hand
    → holds (rm_card_if_present hand c) x ≡ (holds hand x && not (same_card c x))
unfolding rm_card_if_present
holds-rm [] c x d = refl
holds-rm (it ∷ hand) c x d = ground (
  arith,
  holds-rm hand c x d.1,
  same_card-left it c x,
  same_card-left x c it,
  same_card_symm c x,
  same_card_symm x it,
  same_card_symm it x,
  same_card_symm c it,
  holds_same hand it x,
)

pub rm-IsDistinct :
    (hand : Hand) (c : Card) → IsDistinct hand → IsDistinct (rm_card_if_present hand c)
unfolding rm_card_if_present
rm-IsDistinct [] c d = tt
rm-IsDistinct (it ∷ hand) c d = ground (arith, rm-IsDistinct hand c d.1, holds-rm hand c it d.1)

-- What `rmIntersection` leaves: the cards of the hand that are not on the table.
pub holds-rm_intersection :
    (hand : Hand) (table : Table) (x : Card)
    → IsDistinct hand
    → holds (rm_intersection hand table) x ≡ (holds hand x && not (holds table x))
unfolding rm_intersection
holds-rm_intersection hand [] x d = ground arith
holds-rm_intersection hand (ct ∷ table) x d = ground (
  arith,
  holds-rm_intersection (rm_card_if_present hand ct) table x (rm-IsDistinct hand ct d),
  holds-rm hand ct x d,
)
