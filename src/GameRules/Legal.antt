-- ===== src/GameRules/Legal.antt =====
-- The test `isMoveLegal` against the rule of the game: a player plays a card of the own hand, and
-- follows the colour of the first card on the table while the hand has that colour.
use kierki.Prelude.{
  Bool, true, false, [], ◌∷◌, some, ◌≡◌, ◌≢◌, ◌↔◌, ◌⊎◌, inl, inr, refl, arith, ◌==◌, if◌then◌else◌,
  Bool-cases, any, All, Any,
}
use kierki.Types.{Side, Color, Card, Hand, Table, TableState}
use kierki.Card.{same_card}
use kierki.Card.Laws.{same_card_sound, same_card_refl}
use kierki.Hands.Laws.{holds}
use kierki.GameRules.{revokes, is_move_legal}

-- The hand has a card with that colour and that value.
abbrev pub Holds : Hand → Card → Type 0
Holds hand c = Any (λ d. (d.col ≡ c.col) × (d.value ≡ c.value)) hand

-- The card follows the first card of the table, if there is one that the hand can follow.
abbrev pub Follows : Hand → Card → Table → Type 0
Follows hand c [] = Unit {0}
Follows hand c (front ∷ table) = (c.col ≡ front.col) ⊎ All (λ d. d.col ≢ front.col) hand

holds_sound : (hand : Hand) (c : Card) → holds hand c ≡ true → Holds hand c
holds_sound [] c h = absurd (ground arith)
holds_sound (d ∷ hand) c h = elim (Bool-cases (same_card d c)) [
  | inl e ↦ inl (same_card_sound d c e)
  | inr e ↦ inr (holds_sound hand c (ground arith))
]

holds_complete : (hand : Hand) (c : Card) → Holds hand c → holds hand c ≡ true
holds_complete [] c h = absurd h
holds_complete (d ∷ hand) c (inl (k, v)) = rw (same_card_refl d c k v)
holds_complete (d ∷ hand) c (inr h) = ground (arith, holds_complete hand c h)

-- The test of the program for a card in the hand.
pub holds-Holds : (hand : Hand) (c : Card) → (holds hand c ≡ true) ↔ Holds hand c
holds-Holds hand c = (holds_sound hand c, holds_complete hand c)

has_color : Color → Hand → Bool
has_color k hand = any (λ card. card.col == k) hand

none_has_color : (k : Color) (hand : Hand) → has_color k hand ≡ false → All (λ d. d.col ≢ k) hand
unfolding has_color
none_has_color k [] h = tt
none_has_color k (d ∷ hand) h = ((λ e. ground arith), none_has_color k hand (ground arith))

has_color_none : (k : Color) (hand : Hand) → All (λ d. d.col ≢ k) hand → has_color k hand ≡ false
unfolding has_color
has_color_none k [] h = refl
has_color_none k (d ∷ hand) (n, h) = ground (arith, has_color_none k hand h)

revokes_sound :
    (c : Card) (hand : Hand) (table : Table) → revokes c hand table ≡ false → Follows hand c table
unfolding revokes has_color
revokes_sound c hand [] h = tt
revokes_sound c hand (front ∷ table) h = elim (Bool-cases (c.col == front.col)) [
  | inl e ↦ inl (ground arith)
  | inr e ↦ inr (none_has_color front.col hand (ground arith))
]

revokes_complete :
    (c : Card) (hand : Hand) (table : Table) → Follows hand c table → revokes c hand table ≡ false
unfolding revokes has_color
revokes_complete c hand [] h = refl
revokes_complete c hand (front ∷ table) (inl e) = ground arith
revokes_complete c hand (front ∷ table) (inr n) = ground (arith, has_color_none front.col hand n)

-- For a player with a hand, `isMoveLegal` answers true exactly when the hand holds the card and
-- the card follows the colour that was led, or the hand has no card of that colour.
pub is_move_legal_iff :
    (s : Side) (c : Card) (state : TableState) (table : Table) (hand : Hand)
    → state s ≡ some hand
    → (is_move_legal s c state table ≡ some true) ↔ (Holds hand c × Follows hand c table)
unfolding is_move_legal
is_move_legal_iff s c state table hand e = (to, from)
  where
    to : is_move_legal s c state table ≡ some true → Holds hand c × Follows hand c table
    to h =
        let split : (revokes c hand table ≡ false) × (holds hand c ≡ true) = ground arith in
        (holds_sound hand c split.1, revokes_sound c hand table split.0)

    from : Holds hand c × Follows hand c table → is_move_legal s c state table ≡ some true
    from (h, f) = ground (arith, holds_complete hand c h, revokes_complete c hand table f)

-- The hand of a legal move is there, and it holds the card.
pub legal-holds :
    (s : Side) (c : Card) (state : TableState) (table : Table) (hand : Hand)
    → state s ≡ some hand
    → is_move_legal s c state table ≡ some true
    → holds hand c ≡ true
unfolding is_move_legal
legal-holds s c state table hand e h = ground arith

pub is_move_legal_total :
    (s : Side) (c : Card) (state : TableState) (table : Table) (hand : Hand)
    → state s ≡ some hand
    → (legal : Bool) × (is_move_legal s c state table ≡ some legal)
unfolding is_move_legal
is_move_legal_total s c state table hand e =
    (if revokes c hand table then false else holds hand c, rw e)
