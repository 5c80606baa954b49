-- ===== src/MsgParser/Cards.antt =====
-- A row of cards is read back card by card.
use kierki.Prelude.{
  ℕ, zero, suc, ◌+◌, ◌≤◌, true, false, List, [], ◌∷◌, ◌++◌, some, ◌≡◌, inl, inr, refl, sym, ◌∙◌, ap,
  arith, Bytes, codes, ltb, ◌==◌, length, length-append, get_elem?-middle, All, append_assoc,
  append-nil,
}
use mathlib.Core.Path.{subst}
use kierki.Types.{Card, Side, side_n, side_e, side_s, side_w, side_null, side_char, IsSeat}
use kierki.Card
use kierki.SendJob.{cards_text}
use kierki.Regex.{lit, times, up_to}
use kierki.Regex.Language.{Lang}
use kierki.MsgParser.Patterns.{side_re, card_re}
use kierki.MsgParser.Pieces.{ParseResp, substr, take_card, deal_loop, cards_loop}
use kierki.MsgParser.Cutting.{is_lead, substr_middle, IsPackCard, IsPackCard-text, CardText}

-- The entries of the result for a row of cards.
abbrev pub card_entries : List Card → ParseResp
card_entries [] = []
card_entries (c ∷ cs) = (codes "card", Card.to_string c) ∷ card_entries cs

take_two :
    (pre rest : Bytes) (x k : ℕ)
    → is_lead x ≡ true
    → take_card (pre ++ x ∷ k ∷ rest) (length pre) ≡ some (x ∷ k ∷ [], length pre + 2)
unfolding take_card
take_two pre rest x k lead =
    let here = get_elem?-middle pre x (k ∷ rest) in
    let cut : substr (pre ++ x ∷ k ∷ rest) (length pre) 2 ≡ some (x ∷ k ∷ []) =
      substr_middle pre (x ∷ k ∷ []) rest in
    let other : (x == b'1') ≡ false = ground arith in rw (here, other, cut)

take_ten :
    (pre rest : Bytes) (k : ℕ)
    → take_card (pre ++ b'1' ∷ b'0' ∷ k ∷ rest) (length pre)
      ≡ some (b'1' ∷ b'0' ∷ k ∷ [], length pre + 3)
unfolding take_card
take_ten pre rest k =
    let here = get_elem?-middle pre b'1' (b'0' ∷ k ∷ rest) in
    let cut : substr (pre ++ b'1' ∷ b'0' ∷ k ∷ rest) (length pre) 3 ≡ some (b'1' ∷ b'0' ∷ k ∷ []) =
      substr_middle pre (b'1' ∷ b'0' ∷ k ∷ []) rest in
    let behind : length pre + 1 + 2 ≡ length pre + 3 = omega arith in rw (here, cut, behind)

take_text :
    (pre t rest : Bytes)
    → CardText t
    → take_card (pre ++ (t ++ rest)) (length pre) ≡ some (t, length pre + length t)
take_text pre t rest (inl (x, k, e, lead, color)) =
    subst (λ u. take_card (pre ++ (u ++ rest)) (length pre) ≡ some (u, length pre + length u))
      (sym e) (take_two pre rest x k lead)
take_text pre t rest (inr (k, e, color)) =
    subst (λ u. take_card (pre ++ (u ++ rest)) (length pre) ≡ some (u, length pre + length u))
      (sym e) (take_ten pre rest k)

pub CardText-length : (t : Bytes) → CardText t → 2 ≤ length t
CardText-length t (inl (x, k, e, lead, color)) = rw e (omega arith)
CardText-length t (inr (k, e, color)) = rw e (omega arith)

pub length-cards_text : (cs : List Card) → All IsPackCard cs → length cs ≤ length (cards_text cs)
unfolding cards_text
length-cards_text [] h = omega arith
length-cards_text (c ∷ cs) (h, hs) = omega (
  arith,
  length-append (Card.to_string c) (cards_text cs),
  length-cards_text cs hs,
  CardText-length (Card.to_string c) (IsPackCard-text c h).1,
)

-- The loop over a deal reads the cards behind what was read before.
pub deal_loop-cards_text :
    (cs : List Card) (pre : Bytes) (res : ParseResp)
    → All IsPackCard cs
    → deal_loop (length cs) (pre ++ cards_text cs) (length pre) res ≡ some (res ++ card_entries cs)
unfolding deal_loop cards_text
deal_loop-cards_text [] pre res h = ap some (sym (append-nil res))
deal_loop-cards_text (c ∷ cs) pre res (h, hs) =
    let t = Card.to_string c in
    let step = take_text pre t (cards_text cs) (IsPackCard-text c h).1 in
    let more = res ++ (codes "card", t) ∷ [] in
    let ih = deal_loop-cards_text cs (pre ++ t) more hs in
    let moved : deal_loop (length cs) (pre ++ (t ++ cards_text cs)) (length pre + length t) more
        ≡ some (more ++ card_entries cs) =
      subst
        (λ i.
          deal_loop (length cs) (pre ++ (t ++ cards_text cs)) i more
          ≡ some (more ++ card_entries cs))
        (length-append pre t)
        (subst
          (λ m. deal_loop (length cs) m (length (pre ++ t)) more ≡ some (more ++ card_entries cs))
          (append_assoc pre t (cards_text cs)) ih) in
    rw step (moved ∙ ap some (append_assoc res ((codes "card", t) ∷ []) (card_entries cs)))

-- So does the loop that runs to the end of the text, with a round more than there are cards.
pub cards_loop-cards_text :
    (cs : List Card) (pre : Bytes) (res : ParseResp) (fuel : ℕ)
    → All IsPackCard cs
    → length cs ≤ fuel
    → cards_loop (suc fuel) (pre ++ cards_text cs) (length pre) res ≡ some (res ++ card_entries cs)
unfolding cards_loop cards_text
cards_loop-cards_text [] pre res fuel h le =
    let nothing : Bytes = [] in
    let here : ltb (length pre) (length (pre ++ nothing)) ≡ false =
      ground (arith, length-append pre nothing) in
    rw (cards_loop, here) (ap some (sym (append-nil res)))
cards_loop-cards_text (c ∷ cs) pre res zero h le = absurd (omega arith)
cards_loop-cards_text (c ∷ cs) pre res (suc fuel) (h, hs) le =
    let t = Card.to_string c in
    let form = (IsPackCard-text c h).1 in
    let here : ltb (length pre) (length (pre ++ (t ++ cards_text cs))) ≡ true = ground (
      arith,
      length-append pre (t ++ cards_text cs),
      length-append t (cards_text cs),
      CardText-length t form,
    ) in
    let step = take_text pre t (cards_text cs) form in
    let more = res ++ (codes "card", t) ∷ [] in
    let ih = cards_loop-cards_text cs (pre ++ t) more fuel hs (omega arith) in
    let moved : cards_loop (suc fuel) (pre ++ (t ++ cards_text cs)) (length pre + length t) more
        ≡ some (more ++ card_entries cs) =
      subst
        (λ i.
          cards_loop (suc fuel) (pre ++ (t ++ cards_text cs)) i more
          ≡ some (more ++ card_entries cs))
        (length-append pre t)
        (subst
          (λ m. cards_loop (suc fuel) m (length (pre ++ t)) more ≡ some (more ++ card_entries cs))
          (append_assoc pre t (cards_text cs)) ih) in
    rw (cards_loop, here, step)
      (moved ∙ ap some (append_assoc res ((codes "card", t) ∷ []) (card_entries cs)))

pub lit-Lang : (t : Bytes) → Lang (lit t) t
lit-Lang [] = refl
lit-Lang (c ∷ t) = (c ∷ [], t, refl, (c, refl, ground arith), lit-Lang t)

pub times-Lang_cards :
    (cs : List Card) → All IsPackCard cs → Lang (times (length cs) card_re) (cards_text cs)
unfolding cards_text
times-Lang_cards [] h = refl
times-Lang_cards (c ∷ cs) (h, hs) =
    (Card.to_string c, cards_text cs, refl, (IsPackCard-text c h).0, times-Lang_cards cs hs)

pub up_to-Lang_cards :
    (n : ℕ) (cs : List Card)
    → All IsPackCard cs
    → length cs ≤ n
    → Lang (up_to n card_re) (cards_text cs)
unfolding cards_text
up_to-Lang_cards zero [] h le = refl
up_to-Lang_cards zero (c ∷ cs) h le = absurd (omega arith)
up_to-Lang_cards (suc n) [] h le = inl refl
up_to-Lang_cards (suc n) (c ∷ cs) (h, hs) le = inr (
  Card.to_string c,
  cards_text cs,
  refl,
  (IsPackCard-text c h).0,
  up_to-Lang_cards n cs hs (omega arith),
)

pub side-Lang : (s : Side) → IsSeat s → Lang side_re (side_char s ∷ [])
side-Lang side_n h = (b'N', refl, refl)
side-Lang side_e h = (b'E', refl, refl)
side-Lang side_s h = (b'S', refl, refl)
side-Lang side_w h = (b'W', refl, refl)
side-Lang side_null h = absurd h
