-- ===== src/MsgParser/Tricks.antt =====
-- A trick's message: the number of the trick stands without a separator before the cards.
use kierki.Prelude.{
  ℕ, zero, suc, ◌-◌, ◌≤◌, true, false, List, [], ◌∷◌, ◌++◌, some, ◌≡◌, ◌⊎◌, inl, inr, refl, sym,
  arith, Bytes, codes, leb, ◌==◌, length, length-append, get_elem?, get_elem?-middle, All,
  append_assoc, append-nil,
}
use mathlib.Core.Path.{subst}
use kierki.Types.{Card}
use kierki.Card
use kierki.Text.{decimal}
use kierki.SendJob.{cards_text}
use kierki.Regex.{regex_match}
use kierki.MsgParser.{parse_trick_s, parse_trick_c, trick_head, last_card, one_digit}
use kierki.MsgParser.Patterns.{rn_re}
use kierki.MsgParser.Pieces.{substr, substr_from, cards_loop}
use kierki.MsgParser.Cutting.{substr_middle, IsPackCard, IsPackCard-text, CardText}
use kierki.MsgParser.Cards.{card_entries, cards_loop-cards_text, length-cards_text}

-- A number of one or of two digits.
abbrev pub RoundText : Bytes → Type 0
RoundText r = ((d : ℕ) × (r ≡ d ∷ [])) ⊎ ((d e : ℕ) × (r ≡ d ∷ e ∷ []))

abbrev pub NumberText : ℕ → Type 0
NumberText n = (regex_match (decimal n) rn_re ≡ true) × RoundText (decimal n)

pub number_text : (i : ℕ) → i ≤ 12 → NumberText (suc i)
unfolding decimal regex_match
number_text zero le = (refl, inl (b'1', refl))
number_text (suc zero) le = (refl, inl (b'2', refl))
number_text (suc (suc zero)) le = (refl, inl (b'3', refl))
number_text (suc (suc (suc zero))) le = (refl, inl (b'4', refl))
number_text (suc (suc (suc (suc zero)))) le = (refl, inl (b'5', refl))
number_text (suc (suc (suc (suc (suc zero))))) le = (refl, inl (b'6', refl))
number_text (suc (suc (suc (suc (suc (suc zero)))))) le = (refl, inl (b'7', refl))
number_text (suc (suc (suc (suc (suc (suc (suc zero))))))) le = (refl, inl (b'8', refl))
number_text (suc (suc (suc (suc (suc (suc (suc (suc zero)))))))) le = (refl, inl (b'9', refl))
number_text (suc (suc (suc (suc (suc (suc (suc (suc (suc zero))))))))) le =
    (refl, inr (b'1', b'0', refl))
number_text (suc (suc (suc (suc (suc (suc (suc (suc (suc (suc zero)))))))))) le =
    (refl, inr (b'1', b'1', refl))
number_text (suc (suc (suc (suc (suc (suc (suc (suc (suc (suc (suc zero))))))))))) le =
    (refl, inr (b'1', b'2', refl))
number_text (suc (suc (suc (suc (suc (suc (suc (suc (suc (suc (suc (suc zero)))))))))))) le =
    (refl, inr (b'1', b'3', refl))
number_text (suc (suc (suc (suc (suc (suc (suc (suc (suc (suc (suc (suc (suc i))))))))))))) le =
    absurd (omega arith)

head_one :
    (d x k : ℕ) (rest : Bytes)
    → one_digit k ≡ true
    → trick_head (codes "TRICK" ++ d ∷ x ∷ k ∷ rest) ≡ some (d ∷ [], 6)
unfolding trick_head
head_one d x k rest h =
    let long : leb (length (codes "TRICK" ++ d ∷ x ∷ k ∷ rest)) 7 ≡ false = ground arith in
    let cut : substr (codes "TRICK" ++ d ∷ x ∷ k ∷ rest) 5 1 ≡ some (d ∷ []) =
      substr_middle (codes "TRICK") (d ∷ []) (x ∷ k ∷ rest) in
    rw (long, h, cut)

head_two :
    (d x k : ℕ) (rest : Bytes)
    → one_digit k ≡ false
    → trick_head (codes "TRICK" ++ d ∷ x ∷ k ∷ rest) ≡ some (d ∷ x ∷ [], 7)
unfolding trick_head
head_two d x k rest h =
    let long : leb (length (codes "TRICK" ++ d ∷ x ∷ k ∷ rest)) 7 ≡ false = ground arith in
    let cut : substr (codes "TRICK" ++ d ∷ x ∷ k ∷ rest) 5 2 ≡ some (d ∷ x ∷ []) =
      substr_middle (codes "TRICK") (d ∷ x ∷ []) (k ∷ rest) in
    rw (long, h, cut)

-- Before a card `trick_head` takes the trick's number and nothing of the card.
head_text :
    (r : Bytes) (t rest : Bytes)
    → RoundText r
    → CardText t
    → trick_head (codes "TRICK" ++ (r ++ (t ++ rest))) ≡ some (r, length (codes "TRICK" ++ r))
head_text r t rest form card = elim form [
  | inl (d, e) ↦ elim card [
    | inl (x, k, f, lead, color) ↦ rw (e, f) (head_one d x k rest (ground arith))
    | inr (k, f, color) ↦ rw (e, f) (head_one d b'1' b'0' (k ∷ rest) refl)
  ]
  | inr (d, d', e) ↦ elim card [
    | inl (x, k, f, lead, color) ↦ rw (e, f) (head_two d d' x (k ∷ rest) (ground arith))
    | inr (k, f, color) ↦ rw (e, f) (head_two d d' b'1' (b'0' ∷ k ∷ rest) refl)
  ]
]

-- The text of a message about a trick.
abbrev pub trick_text : Bytes → List Card → Bytes
trick_text r cards = codes "TRICK" ++ (r ++ cards_text cards)

parse_trick_s_empty :
    (r : Bytes)
    → RoundText r
    → parse_trick_s (codes "TRICK" ++ r)
      ≡ some ((codes "type", codes "TRICK_S") ∷ (codes "rn", r) ∷ [])
unfolding parse_trick_s trick_head cards_loop substr substr_from
parse_trick_s_empty r (inl (d, e)) = rw e
parse_trick_s_empty r (inr (d, d', e)) = rw e

pub parse_trick_s_text :
    (r : Bytes) (cards : List Card)
    → RoundText r
    → All IsPackCard cards
    → parse_trick_s (trick_text r cards)
      ≡ some ((codes "type", codes "TRICK_S") ∷ (codes "rn", r) ∷ card_entries cards)
unfolding parse_trick_s cards_text
parse_trick_s_text r [] form h =
    subst
      (λ u.
        parse_trick_s (codes "TRICK" ++ u)
        ≡ some ((codes "type", codes "TRICK_S") ∷ (codes "rn", r) ∷ []))
      (sym (append-nil r)) (parse_trick_s_empty r form)
parse_trick_s_text r (c ∷ cs) form (h, hs) =
    let head = head_text r (Card.to_string c) (cards_text cs) form (IsPackCard-text c h).1 in
    let enough : suc (length cs) ≤ length (trick_text r (c ∷ cs)) =
      omega (arith, length-append r (cards_text (c ∷ cs)), length-cards_text (c ∷ cs) (h, hs)) in
    let loop =
      cards_loop-cards_text (c ∷ cs) (codes "TRICK" ++ r)
        ((codes "type", codes "TRICK_S") ∷ (codes "rn", r) ∷ []) (length (trick_text r (c ∷ cs)))
        (h, hs) enough in
    rw head loop

last_card_text : (pre t : Bytes) → CardText t → last_card (pre ++ t) ≡ some (t, length pre - 1)
unfolding last_card
last_card_text pre t (inl (x, k, e, lead, color)) =
    subst (λ u. last_card (pre ++ u) ≡ some (u, length pre - 1)) (sym e) two
  where
    two : last_card (pre ++ x ∷ k ∷ []) ≡ some (x ∷ k ∷ [], length pre - 1)
    two =
        let whole = length-append pre (x ∷ k ∷ []) in
        let at_two : length (pre ++ x ∷ k ∷ []) - 2 ≡ length pre = omega (arith, whole) in
        let before : length (pre ++ x ∷ k ∷ []) - 3 ≡ length pre - 1 = omega (arith, whole) in
        let other : (x == b'0') ≡ false = ground arith in
        rw (
          at_two,
          before,
          get_elem?-middle pre x (k ∷ []),
          other,
          substr_middle pre (x ∷ k ∷ []) [],
        )
last_card_text pre t (inr (k, e, color)) =
    subst (λ u. last_card (pre ++ u) ≡ some (u, length pre - 1)) (sym e) ten
  where
    ten : last_card (pre ++ b'1' ∷ b'0' ∷ k ∷ []) ≡ some (b'1' ∷ b'0' ∷ k ∷ [], length pre - 1)
    ten =
        let whole = length-append pre (b'1' ∷ b'0' ∷ k ∷ []) in
        let m = pre ++ b'1' ∷ b'0' ∷ k ∷ [] in
        let at_two : length m - 2 ≡ length (pre ++ b'1' ∷ []) =
          omega (arith, whole, length-append pre (b'1' ∷ [])) in
        let zero_there : get_elem? m (length m - 2) ≡ some b'0' =
          subst (λ i. get_elem? m i ≡ some b'0') (sym at_two)
            (subst (λ u. get_elem? u (length (pre ++ b'1' ∷ [])) ≡ some b'0')
              (append_assoc pre (b'1' ∷ []) (b'0' ∷ k ∷ []))
              (get_elem?-middle (pre ++ b'1' ∷ []) b'0' (k ∷ []))) in
        let start : length m - 3 ≡ length pre = omega (arith, whole) in
        let before : length m - 4 ≡ length pre - 1 = omega (arith, whole) in
        rw (zero_there, start, before, substr_middle pre (b'1' ∷ b'0' ∷ k ∷ []) [])

pub parse_trick_c_text :
    (r t : Bytes)
    → CardText t
    → parse_trick_c (codes "TRICK" ++ (r ++ t))
      ≡ some ((codes "type", codes "TRICK_C") ∷ (codes "rn", r) ∷ (codes "card", t) ∷ [])
unfolding parse_trick_c
parse_trick_c_text r t card =
    let last : last_card (codes "TRICK" ++ (r ++ t)) ≡ some (t, length (codes "TRICK" ++ r) - 1) =
      last_card_text (codes "TRICK" ++ r) t card in
    let same : length (codes "TRICK" ++ r) - 1 - 4 ≡ length r = omega arith in
    let cut : substr (codes "TRICK" ++ (r ++ t)) 5 (length r) ≡ some r =
      substr_middle (codes "TRICK") r t in
    rw (last, same, cut)
