-- ===== src/Client/Entries.antt =====
-- The loops of the client read the entries of a message back.
use kierki.Prelude.{
  ℕ, suc, List, [], ◌∷◌, ◌++◌, some, Bytes, codes, get_elem?, get_elem?-middle, length,
  length-append, All, ◌≡◌, refl, ap, arith, append_assoc,
}
use mathlib.Core.Path.{subst}
use kierki.Types.{
  Side, side_n, side_e, side_s, side_w, side_null, side_char, side_of_char, IsSeat, Card, ScoreMap,
  update,
}
use kierki.Card
use kierki.Card.Laws.{IsCard, from_string-to_string}
use kierki.Text.{decimal}
use kierki.Text.Decimal.{atoi-decimal}
use kierki.MsgParser.Pieces.{ParseResp}
use kierki.MsgParser.Cards.{card_entries}
use kierki.MsgParser.ShortRoundTrip.{side_entries}
use kierki.MsgParser.Scores.{score_entries}
use kierki.Client.Dispatch.{side_at, cards_at, sides_at, scores_at}

pub side_of_char-side_char : (s : Side) → IsSeat s → side_of_char (side_char s) ≡ some s
side_of_char-side_char side_n h = refl
side_of_char-side_char side_e h = refl
side_of_char-side_char side_s h = refl
side_of_char-side_char side_w h = refl
side_of_char-side_char side_null h = absurd h

pub length-card_entries : (cs : List Card) → length (card_entries cs) ≡ length cs
length-card_entries [] = refl
length-card_entries (c ∷ cs) = ap suc (length-card_entries cs)

pub length-side_entries : (ss : List Side) → length (side_entries ss) ≡ length ss
length-side_entries [] = refl
length-side_entries (s ∷ ss) = ap suc (length-side_entries ss)

next_position :
    (front : ParseResp) (e : Bytes × Bytes) → length (front ++ e ∷ []) ≡ suc (length front)
next_position front e = omega (arith, length-append front (e ∷ []))

pub cards_at-card_entries :
    (cs : List Card) (front back : ParseResp)
    → All IsCard cs
    → cards_at (length cs) (front ++ (card_entries cs ++ back)) (length front) ≡ some cs
unfolding cards_at
cards_at-card_entries [] front back h = refl
cards_at-card_entries (c ∷ cs) front back (h, hs) =
    let e : Bytes × Bytes = (codes "card", Card.to_string c) in
    let rest = card_entries cs ++ back in
    let ih : cards_at (length cs) (front ++ e ∷ rest) (suc (length front)) ≡ some cs =
      subst (λ i. cards_at (length cs) (front ++ e ∷ rest) i ≡ some cs) (next_position front e)
        (subst (λ m. cards_at (length cs) m (length (front ++ e ∷ [])) ≡ some cs)
          (append_assoc front (e ∷ []) rest)
          (cards_at-card_entries cs (front ++ e ∷ []) back hs)) in
    rw (get_elem?-middle front e rest, from_string-to_string c h, ih)

pub sides_at-side_entries :
    (ss : List Side) (front : ParseResp)
    → All IsSeat ss
    → sides_at (length ss) (front ++ side_entries ss) (length front) ≡ some ss
unfolding sides_at side_at
sides_at-side_entries [] front h = refl
sides_at-side_entries (s ∷ ss) front (h, hs) =
    let e : Bytes × Bytes = (codes "side", side_char s ∷ []) in
    let rest = side_entries ss in
    let ih : sides_at (length ss) (front ++ e ∷ rest) (suc (length front)) ≡ some ss =
      subst (λ i. sides_at (length ss) (front ++ e ∷ rest) i ≡ some ss) (next_position front e)
        (subst (λ m. sides_at (length ss) m (length (front ++ e ∷ [])) ≡ some ss)
          (append_assoc front (e ∷ []) rest) (sides_at-side_entries ss (front ++ e ∷ []) hs)) in
    rw (get_elem?-middle front e rest, side_of_char-side_char s h, ih)

-- The map that the entries of a message fill.
abbrev pub score_map_of : List (Side × ℕ) → ScoreMap → ScoreMap
score_map_of [] res = res
score_map_of ((s, n) ∷ es) res = score_map_of es (update res s n)

pub scores_at-score_entries :
    (es : List (Side × ℕ)) (front : ParseResp) (res : ScoreMap)
    → All (λ e. IsSeat e.0) es
    → scores_at (length es) (front ++ score_entries es) (length front) res
      ≡ some (score_map_of es res)
unfolding scores_at side_at
scores_at-score_entries [] front res h = refl
scores_at-score_entries ((s, n) ∷ es) front res (h, hs) =
    let e : Bytes × Bytes = (codes "side", side_char s ∷ []) in
    let f : Bytes × Bytes = (codes "score", decimal n) in
    let rest = score_entries es in
    let there : get_elem? (front ++ e ∷ f ∷ rest) (suc (length front)) ≡ some f =
      subst (λ i. get_elem? (front ++ e ∷ f ∷ rest) i ≡ some f) (next_position front e)
        (subst (λ m. get_elem? m (length (front ++ e ∷ [])) ≡ some f)
          (append_assoc front (e ∷ []) (f ∷ rest)) (get_elem?-middle (front ++ e ∷ []) f rest)) in
    let behind : length (front ++ e ∷ f ∷ []) ≡ suc (suc (length front)) =
      omega (arith, length-append front (e ∷ f ∷ [])) in
    let more = update res s n in
    let ih : scores_at (length es) (front ++ e ∷ f ∷ rest) (suc (suc (length front))) more
        ≡ some (score_map_of es more) =
      subst
        (λ i. scores_at (length es) (front ++ e ∷ f ∷ rest) i more ≡ some (score_map_of es more))
        behind
        (subst
          (λ m.
            scores_at (length es) m (length (front ++ e ∷ f ∷ [])) more
            ≡ some (score_map_of es more))
          (append_assoc front (e ∷ f ∷ []) rest)
          (scores_at-score_entries es (front ++ e ∷ f ∷ []) more hs)) in
    rw (get_elem?-middle front e (f ∷ rest), side_of_char-side_char s h, there, atoi-decimal n, ih)
