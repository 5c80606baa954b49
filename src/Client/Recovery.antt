-- ===== src/Client/Recovery.antt =====
-- The automatic player never loses a card: what it holds and what it has played unconfirmed stay
-- the same cards, also when the server refuses a move.
use mathlib.Core.List.{Perm, perm_append_singleton}
use mathlib.Core.List.Perm
use mathlib.Core.Path.{subst}
use kierki.Prelude.{
  ℕ, ◌+◌, ◌≤◌, true, false, List, [], ◌∷◌, ◌++◌, none, some, ◌≡◌, ◌≢◌, refl, arith, ltb,
  append_assoc,
}
use kierki.Types.{Side, Card, Table, TableState}
use kierki.GameRules.{is_move_legal}
use kierki.Client.Legal.{next_move_legal}
use kierki.Client.PlayerAuto.{PlayerAuto, trick_msg, wrong_msg}

-- The hand and the cards that the server has not confirmed yet.
abbrev pub owned : PlayerAuto → List Card
owned p = p.hand ++ p.last_cards

pub played_perm :
    (hand rest last : List Card) (c : Card)
    → Perm hand (c ∷ rest)
    → Perm (hand ++ last) (rest ++ (last ++ c ∷ []))
played_perm hand rest last c p = Perm.trans (Perm.append_right last p) (
    Perm.trans (Perm.symm (perm_append_singleton c (rest ++ last)))
      (rw (append_assoc rest last (c ∷ [])) Perm.rfl))

-- Asked for a trick that is due, the player with a card in the hand answers with a card that the
-- server accepts from the same hand; the cards that it owns stay the same, in some order; and asked
-- for that trick once more it answers nothing.
pub trick_msg_answer :
    (n : ℕ) (table : Table) (p : PlayerAuto) (s : Side) (state : TableState)
    → p.next_trick ≤ n
    → p.hand ≢ []
    → state s ≡ some p.hand
    → (c : Card) × (p' : PlayerAuto) × (trick_msg n table p ≡ some (p', some c))
      × (is_move_legal s c state table ≡ some true)
      × Perm (owned p) (owned p')
      × (trick_msg n table p' ≡ some (p', none))
unfolding trick_msg
trick_msg_answer n table p s state due held e =
    let (c, rest, m, perm, legal) = next_move_legal table p.hand s state held e in
    let late : ltb n p.next_trick ≡ false = ground arith in
    let again : ltb n (n + 1) ≡ true = ground arith in
    let p' = record p { next_trick = n + 1; hand = rest; last_cards = p.last_cards ++ c ∷ [] } in
    (c, p', rw (late, m), legal, played_perm p.hand rest p.last_cards c perm, rw again)

wrong_owned :
    (n : ℕ) (p : PlayerAuto) (last : List Card)
    → p.last_cards ≡ last
    → owned (wrong_msg n p) ≡ owned p
unfolding wrong_msg
wrong_owned n p [] e = rw e
wrong_owned n p (c ∷ rest) e = rw e (append_assoc p.hand (c ∷ []) rest)

wrong_next :
    (n : ℕ) (p : PlayerAuto) (last : List Card)
    → p.last_cards ≡ last
    → (wrong_msg n p).next_trick ≡ n
unfolding wrong_msg
wrong_next n p [] e = rw e
wrong_next n p (c ∷ rest) e = rw e

-- After a refusal of a move the player owns the same cards, and it plays again: asked for the trick
-- that the server named, with a card in the hand that it then has, it answers with a card that the
-- server accepts from this hand, it still owns the same cards, in some order, and asked once more it
-- answers nothing.
pub wrong_msg_answer :
    (n : ℕ) (table : Table) (p : PlayerAuto) (s : Side) (state : TableState)
    → (wrong_msg n p).hand ≢ []
    → state s ≡ some (wrong_msg n p).hand
    → (owned (wrong_msg n p) ≡ owned p)
      × (c : Card) × (p' : PlayerAuto) × (trick_msg n table (wrong_msg n p) ≡ some (p', some c))
      × (is_move_legal s c state table ≡ some true)
      × Perm (owned p) (owned p')
      × (trick_msg n table p' ≡ some (p', none))
wrong_msg_answer n table p s state held e =
    let same = wrong_owned n p p.last_cards refl in
    let next = wrong_next n p p.last_cards refl in
    let (c, p', answer, legal, perm, again) =
      trick_msg_answer n table (wrong_msg n p) s state (omega (arith, next)) held e in
    (same, c, p', answer, legal, subst (λ cs. Perm cs (owned p')) same perm, again)
