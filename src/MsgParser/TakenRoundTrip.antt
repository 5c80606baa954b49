-- ===== src/MsgParser/TakenRoundTrip.antt =====
-- What a client reads when a trick is taken: the parser goes through the cards from the last one
-- on.
use kierki.Prelude.{
  ℕ, zero, suc, ◌+◌, ◌-◌, ◌≤◌, true, false, List, [], ◌∷◌, ◌++◌, some, ◌≡◌, inl, inr, refl, sym,
  ◌∙◌, ap, arith, Bytes, codes, ◌==◌, length, length-append, get_elem?, get_elem?-middle, All,
  append_assoc, append-nil,
}
use mathlib.Core.Path.{subst}
use kierki.Types.{Card, Side, side_char, IsSeat, tricks_per_round}
use kierki.Card
use kierki.Text.{decimal}
use kierki.SendJob.{taken, body, cards_text}
use kierki.Regex.{regex_match}
use kierki.Regex.Language.{never_match, regex_match-Lang}
use kierki.MsgParser.{parse_net_msg, parse_as, parse_taken}
use kierki.MsgParser.Patterns.{rn_re, busy_re, deal_re, trick_s_re, wrong_re, taken_re}
use kierki.MsgParser.Pieces.{ParseResp, substr, substr_from, take_card_back, back_loop}
use kierki.MsgParser.Cutting.{
  is_lead, substr_middle, substr_from_end, IsPackCard, IsPackCard-text, CardText,
}
use kierki.MsgParser.Cards.{card_entries, lit-Lang, side-Lang, times-Lang_cards}
use kierki.MsgParser.Tricks.{number_text}

take_back_two :
    (pre rest : Bytes) (x k : ℕ)
    → is_lead x ≡ true
    → take_card_back (pre ++ x ∷ k ∷ rest) (length pre + 1) ≡ some (x ∷ k ∷ [], length pre - 1)
unfolding take_card_back
take_back_two pre rest x k lead =
    let there : length pre + 1 - 1 ≡ length pre = omega arith in
    let before : length pre + 1 - 2 ≡ length pre - 1 = omega arith in
    let other : (x == b'0') ≡ false = ground arith in
    let cut : substr (pre ++ x ∷ k ∷ rest) (length pre) 2 ≡ some (x ∷ k ∷ []) =
      substr_middle pre (x ∷ k ∷ []) rest in
    rw (there, before, get_elem?-middle pre x (k ∷ rest), other, cut)

take_back_ten :
    (pre rest : Bytes) (k : ℕ)
    → take_card_back (pre ++ b'1' ∷ b'0' ∷ k ∷ rest) (length pre + 2)
      ≡ some (b'1' ∷ b'0' ∷ k ∷ [], length pre - 1)
unfolding take_card_back
take_back_ten pre rest k =
    let m = pre ++ b'1' ∷ b'0' ∷ k ∷ rest in
    let there : length (pre ++ b'1' ∷ []) ≡ length pre + 2 - 1 =
      omega (arith, length-append pre (b'1' ∷ [])) in
    let zero_there : get_elem? m (length pre + 2 - 1) ≡ some b'0' =
      subst (λ i. get_elem? m i ≡ some b'0') there
        (subst (λ u. get_elem? u (length (pre ++ b'1' ∷ [])) ≡ some b'0')
          (append_assoc pre (b'1' ∷ []) (b'0' ∷ k ∷ rest))
          (get_elem?-middle (pre ++ b'1' ∷ []) b'0' (k ∷ rest))) in
    let start : length pre + 2 - 2 ≡ length pre = omega arith in
    let before : length pre + 2 - 1 - 2 ≡ length pre - 1 = omega arith in
    rw (zero_there, start, before, substr_middle pre (b'1' ∷ b'0' ∷ k ∷ []) rest)

take_back_text :
    (pre t rest : Bytes)
    → CardText t
    → take_card_back (pre ++ (t ++ rest)) (length (pre ++ t) - 1) ≡ some (t, length pre - 1)
take_back_text pre t rest (inl (x, k, e, lead, color)) =
    let at_end : length (pre ++ x ∷ k ∷ []) - 1 ≡ length pre + 1 =
      omega (arith, length-append pre (x ∷ k ∷ [])) in
    rw (e, at_end) (take_back_two pre rest x k lead)
take_back_text pre t rest (inr (k, e, color)) =
    let at_end : length (pre ++ b'1' ∷ b'0' ∷ k ∷ []) - 1 ≡ length pre + 2 =
      omega (arith, length-append pre (b'1' ∷ b'0' ∷ k ∷ [])) in
    rw (e, at_end) (take_back_ten pre rest k)

-- The text of cards that are given from the last one on, behind `pre`.
abbrev cards_back : Bytes → List Card → Bytes
cards_back pre [] = pre
cards_back pre (c ∷ rs) = cards_back pre rs ++ Card.to_string c

back_loop_cards :
    (rs : List Card) (pre rest : Bytes) (res : ParseResp)
    → All IsPackCard rs
    → back_loop (length rs) (cards_back pre rs ++ rest) (length (cards_back pre rs) - 1) res
      ≡ some (res ++ card_entries rs, length pre - 1)
unfolding back_loop
back_loop_cards [] pre rest res h = ap (λ r. some (r, length pre - 1)) (sym (append-nil res))
back_loop_cards (c ∷ rs) pre rest res (h, hs) =
    let t = Card.to_string c in
    let step = take_back_text (cards_back pre rs) t rest (IsPackCard-text c h).1 in
    let more = res ++ (codes "card", t) ∷ [] in
    let ih = back_loop_cards rs pre (t ++ rest) more hs in
    rw (append_assoc (cards_back pre rs) t rest, step)
      (ih
        ∙ ap (λ r. some (r, length pre - 1))
            (append_assoc res ((codes "card", t) ∷ []) (card_entries rs)))

-- The text of a message about a trick that is taken, from its cards in the order of the table on.
abbrev taken_text : Bytes → Bytes → ℕ → Bytes
taken_text r cards k = codes "TAKEN" ++ (r ++ (cards ++ k ∷ []))

four_back :
    (pre : Bytes) (a b c d : Card)
    → cards_back pre (d ∷ c ∷ b ∷ a ∷ []) ≡ pre ++ cards_text (a ∷ b ∷ c ∷ d ∷ [])
unfolding cards_text
four_back pre a b c d = simp (append_assoc, append-nil)

parse_taken_text :
    (r : Bytes) (a b c d : Card) (k : ℕ)
    → All IsPackCard (d ∷ c ∷ b ∷ a ∷ [])
    → parse_taken (taken_text r (cards_text (a ∷ b ∷ c ∷ d ∷ [])) k)
      ≡ some (
          (codes "type", codes "TAKEN")
          ∷ (codes "rn", r)
          ∷ (card_entries (a ∷ b ∷ c ∷ d ∷ []) ++ (codes "side", k ∷ []) ∷ []))
unfolding parse_taken
parse_taken_text r a b c d k h =
    let cards = cards_text (a ∷ b ∷ c ∷ d ∷ []) in
    let front = codes "TAKEN" ++ r in
    let m = taken_text r cards k in
    let whole : length m ≡ suc (length (front ++ cards)) = omega (
      arith,
      length-append r (cards ++ k ∷ []),
      length-append cards (k ∷ []),
      length-append r cards,
    ) in
    let at_side : length m - 1 ≡ length (front ++ cards) = omega (arith, whole) in
    let at_card : length m - 2 ≡ length (front ++ cards) - 1 = omega (arith, whole) in
    let side : substr_from m (length (front ++ cards)) ≡ some (k ∷ []) =
      subst (λ u. substr_from u (length (front ++ cards)) ≡ some (k ∷ []))
        (append_assoc front cards (k ∷ [])) (substr_from_end (front ++ cards) (k ∷ [])) in
    let res : ParseResp = (codes "side", k ∷ []) ∷ [] in
    let back = back_loop_cards (d ∷ c ∷ b ∷ a ∷ []) front (k ∷ []) res h in
    let loop : back_loop 4 m (length (front ++ cards) - 1) res
        ≡ some (res ++ card_entries (d ∷ c ∷ b ∷ a ∷ []), length front - 1) =
      subst
        (λ u.
          back_loop 4 u (length (front ++ cards) - 1) res
          ≡ some (res ++ card_entries (d ∷ c ∷ b ∷ a ∷ []), length front - 1))
        (append_assoc front cards (k ∷ []))
        (subst
          (λ u.
            back_loop 4 (u ++ k ∷ []) (length u - 1) res
            ≡ some (res ++ card_entries (d ∷ c ∷ b ∷ a ∷ []), length front - 1))
          (four_back front a b c d) back) in
    let same : length front - 1 - 4 ≡ length r = omega arith in
    let cut : substr m 5 (length r) ≡ some r = substr_middle (codes "TAKEN") r (cards ++ k ∷ []) in
    rw (at_side, side, at_card, loop, same, cut)

not_busy : (text : Bytes) → regex_match (b'T' ∷ b'A' ∷ text) busy_re ≡ false
unfolding regex_match
not_busy text = never_match text

not_deal : (text : Bytes) → regex_match (b'T' ∷ b'A' ∷ text) deal_re ≡ false
unfolding regex_match
not_deal text = never_match text

not_trick : (text : Bytes) → regex_match (b'T' ∷ b'A' ∷ text) trick_s_re ≡ false
unfolding regex_match
not_trick text = never_match text

not_wrong : (text : Bytes) → regex_match (b'T' ∷ b'A' ∷ text) wrong_re ≡ false
unfolding regex_match
not_wrong text = never_match text

-- The client reads the number of a trick that is taken, its four cards in the order in which they
-- were played, and the side that takes it.
pub parse_net_msg-taken :
    (n : ℕ) (a b c d : Card) (s : Side)
    → 1 ≤ n
    → n ≤ tricks_per_round
    → All IsPackCard (a ∷ b ∷ c ∷ d ∷ [])
    → IsSeat s
    → parse_net_msg (body (taken (a ∷ b ∷ c ∷ d ∷ []) s n)) false
      ≡ some (
          (codes "type", codes "TAKEN")
          ∷ (codes "rn", decimal n)
          ∷ (card_entries (a ∷ b ∷ c ∷ d ∷ []) ++ (codes "side", side_char s ∷ []) ∷ []))
unfolding parse_net_msg parse_as body
parse_net_msg-taken zero a b c d s lo hi h hs = absurd (omega arith)
parse_net_msg-taken (suc i) a b c d s lo hi (ha, (hb, (hc, (hd, _)))) hs =
    let r = decimal (suc i) in
    let k = side_char s in
    let cards = cards_text (a ∷ b ∷ c ∷ d ∷ []) in
    let m = taken_text r cards k in
    let behind = codes "KEN" ++ (r ++ (cards ++ k ∷ [])) in
    let matches : regex_match m taken_re ≡ true = (regex_match-Lang m taken_re).1 (
      codes "TAKEN",
      r ++ (cards ++ k ∷ []),
      refl,
      lit-Lang (codes "TAKEN"),
      (
        r,
        cards ++ k ∷ [],
        refl,
        (regex_match-Lang r rn_re).0 (number_text i (omega arith)).0,
        (
          cards,
          k ∷ [],
          refl,
          times-Lang_cards (a ∷ b ∷ c ∷ d ∷ []) (ha, (hb, (hc, (hd, tt)))),
          side-Lang s hs,
        ),
      ),
    ) in
    rw
      (
        append_assoc r cards (side_char s ∷ []),
        not_busy behind,
        not_deal behind,
        not_trick behind,
        not_wrong behind,
        matches,
      )
      (parse_taken_text r a b c d k (hd, (hc, (hb, (ha, tt)))))
