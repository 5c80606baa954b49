-- ===== src/Client/Console.antt =====
-- What a command at the console does to the cards.
use mathlib.Core.List.{Perm}
use mathlib.Core.List.Perm
use kierki.Prelude.{
  ℕ, Bool, true, false, List, [], ◌∷◌, ◌++◌, Option, some, if◌then◌else◌, Bytes, codes, bytes_eq,
  ◌==◌, ◌≡◌, refl, inl, inr, arith, All, Bool-cases, Option-cases, Returns-elim, Returns-if,
}
use kierki.Types.{Card, Hand}
use kierki.Card
use kierki.Card.{make_card, same_card}
use kierki.Card.Laws.{IsCard, from_string-to_string, to_string-from_string, same_card-eq}
use kierki.Hands.{rm_card_if_present}
use kierki.Hands.Laws.{holds}
use kierki.Client.Recovery.{played_perm}
use kierki.Client.PlayerConsole.{PlayerConsole, any_cmd, card_cmd, choose, play_card}

-- The hand and the cards that the server has not confirmed yet.
abbrev pub owned : PlayerConsole → List Card
owned p = p.local_hand ++ p.last_cards

taken_out :
    (hand : Hand) (c : Card)
    → All IsCard hand
    → IsCard c
    → holds hand c ≡ true
    → Perm hand (c ∷ rm_card_if_present hand c)
unfolding rm_card_if_present
taken_out [] c all card h = absurd (ground arith)
taken_out (it ∷ hand) c all card h = elim (Bool-cases (same_card it c)) [
  | inl e ↦ rw (e, same_card-eq it c all.0 card e) (Perm.refl _)
  | inr e ↦
      rw e
        (Perm.trans (Perm.cons it (taken_out hand c all.1 card (ground arith))) (Perm.swap c it _))
]

copied : (c : Card) → IsCard c → make_card c.value c.col ≡ some c
unfolding make_card
copied c h = rw h refl

abbrev Unchanged : {σ : Type 0} → Option (PlayerConsole × σ × Bytes) → PlayerConsole → σ → Type 0
Unchanged {σ} x p st = (out : Bytes) × (x ≡ some (p, st, out))

Unchanged-if :
    {σ : Type 0} (b : Bool) (x y : Option (PlayerConsole × σ × Bytes)) (p : PlayerConsole) (st : σ)
    → Unchanged x p st
    → Unchanged y p st
    → Unchanged (if b then x else y) p st
Unchanged-if true x y p st u v = u
Unchanged-if false x y p st u v = v

module _ {σ : Type 0} (check_card_cb : σ → Bool) (put_cb : Card → σ → σ × Bool) where
  card_cmd-unasked :
      (text : Bytes) (p : PlayerConsole) (st : σ)
      → check_card_cb st ≡ false
      → Unchanged (some (card_cmd check_card_cb put_cb text p st)) p st
  unfolding card_cmd choose
  card_cmd-unasked text p st e = elim (Option-cases (Card.from_string text)) [
    | inl f ↦ (text ++ codes " is not a valid card!\n", rw (card_cmd, f) refl)
    | inr (c, f) ↦ (
      codes "No card request from server. Card select action is discarded\n",
      rw (card_cmd, f, choose, e) refl,
    )
  ]

  -- While the server asks for no card, a command that is not empty changes neither the player nor
  -- the client, and no card is handed on.
  pub any_cmd-unasked :
      (c : ℕ) (text : Bytes) (p : PlayerConsole) (st : σ)
      → check_card_cb st ≡ false
      → (out : Bytes) × (any_cmd check_card_cb put_cb (c ∷ text) p st ≡ some (p, st, out))
  unfolding any_cmd
  any_cmd-unasked c text p st e =
      Unchanged-if (c == b'!') (some (card_cmd check_card_cb put_cb text p st)) _ p st
        (card_cmd-unasked text p st e)
        (Unchanged-if (bytes_eq (c ∷ text) (codes "cards")) _ _ p st (_, refl)
          (Unchanged-if (bytes_eq (c ∷ text) (codes "tricks")) _ _ p st (_, refl) (_, refl)))

  -- When the server asks for a card and the player has it in the hand, the command that names the
  -- card takes it out of the hand, keeps it as the last one that is not confirmed, and hands exactly
  -- this card to the client; the cards that the player owns stay the same, in some order. Nothing is
  -- printed, unless handing it on fails: then the card is called invalid, but it is gone.
  pub any_cmd-card :
      (c : Card) (p : PlayerConsole) (st : σ)
      → All IsCard p.local_hand
      → IsCard c
      → holds p.local_hand c ≡ true
      → check_card_cb st ≡ true
      → (p' : PlayerConsole) × (any_cmd check_card_cb put_cb (b'!' ∷ Card.to_string c) p st
          ≡ some (
            p',
            (put_cb c st).0,
            if (put_cb c st).1 then [] else Card.to_string c ++ codes " is not a valid card!\n",
          ))
        × (p'.last_cards ≡ p.last_cards ++ c ∷ [])
        × Perm p.local_hand (c ∷ p'.local_hand)
        × Perm (owned p) (owned p')
  unfolding any_cmd card_cmd choose play_card
  any_cmd-card c p st all card held asked =
      let perm = taken_out p.local_hand c all card held in
      let q = record p {
        local_hand = rm_card_if_present p.local_hand c;
        last_cards = p.last_cards ++ c ∷ [];
      } in
      (
        q,
        rw (any_cmd, card_cmd, from_string-to_string c card, choose, asked, held, copied c card)
            refl,
        refl,
        perm,
        played_perm p.local_hand (rm_card_if_present p.local_hand c) p.last_cards c perm,
      )

  -- A card that is not in the hand is refused.
  choose-Perm :
      (text : Bytes) (c : Card) (p : PlayerConsole) (st : σ)
      → All IsCard p.local_hand
      → IsCard c
      → Perm (owned p) (owned (choose check_card_cb put_cb text c p st).0)
  unfolding choose play_card
  choose-Perm text c p st all card = elim (Bool-cases (check_card_cb st)) [
    | inr e ↦ rw e (Perm.refl _)
    | inl e ↦ elim (Bool-cases (holds p.local_hand c)) [
      | inr f ↦ rw (e, f) (Perm.refl _)
      | inl f ↦
          rw (e, f, copied c card)
            (played_perm p.local_hand (rm_card_if_present p.local_hand c) p.last_cards c
              (taken_out p.local_hand c all card f))
    ]
  ]

  card_cmd-Perm :
      (text : Bytes) (p : PlayerConsole) (st : σ)
      → All IsCard p.local_hand
      → Perm (owned p) (owned (card_cmd check_card_cb put_cb text p st).0)
  unfolding card_cmd
  card_cmd-Perm text p st all = elim (Option-cases (Card.from_string text)) [
    | inl f ↦ rw (card_cmd, f) (Perm.refl _)
    | inr (c, f) ↦ rw (card_cmd, f) (choose-Perm text c p st all (to_string-from_string text f).0)
  ]

  abbrev Owns : PlayerConsole → PlayerConsole × σ × Bytes → Type 0
  Owns p r = Perm (owned p) (owned r.0)

  -- No command makes or loses a card: when the cards of the hand are cards of the table of values,
  -- the player owns the same cards behind any command that does not throw, in some order.
  pub any_cmd-Perm :
      (cmd : Bytes) (p p' : PlayerConsole) (st st' : σ) (out : Bytes)
      → All IsCard p.local_hand
      → any_cmd check_card_cb put_cb cmd p st ≡ some (p', st', out)
      → Perm (owned p) (owned p')
  unfolding any_cmd
  any_cmd-Perm [] p p' st st' out all e = cc
  any_cmd-Perm (c ∷ text) p p' st st' out all e =
      Returns-elim (Owns p) (any_cmd check_card_cb put_cb (c ∷ text) p st) e (
        Returns-if (Owns p) (c == b'!') _ _ (λ f. card_cmd-Perm text p st all)
          (λ f.
            Returns-if (Owns p) (bytes_eq (c ∷ text) (codes "cards")) _ _ (λ g. Perm.refl _)
              (λ g.
                Returns-if (Owns p) (bytes_eq (c ∷ text) (codes "tricks")) _ _ (λ k. Perm.refl _)
                  (λ k. Perm.refl _))))
