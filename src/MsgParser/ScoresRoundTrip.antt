-- ===== src/MsgParser/ScoresRoundTrip.antt =====
-- What a client reads from the scores of a round and from the total scores.
use kierki.Prelude.{
  ℕ, true, false, List, [], ◌∷◌, ◌++◌, some, ◌≡◌, inl, inr, refl, arith, Bytes, codes, length, All,
}
use mathlib.Core.Path.{subst}
use kierki.Types.{Side, side_char, IsSeat}
use kierki.Text.{decimal, is_digit}
use kierki.Text.Decimal.{decimal-Numeral}
use kierki.SendJob.{score, total, body, scores_text}
use kierki.Regex.{regex_match, chars, times, seq, star}
use kierki.Regex.Language.{Lang, done, part, never_match, regex_match-Lang}
use kierki.MsgParser.{parse_net_msg, parse_as, parse_scores}
use kierki.MsgParser.Patterns.{
  number_re, side_re, busy_re, deal_re, trick_s_re, wrong_re, taken_re, score_re, total_re,
}
use kierki.MsgParser.Pieces.{ParseResp, scores_loop}
use kierki.MsgParser.Cards.{lit-Lang, side-Lang}
use kierki.MsgParser.Scores.{score_entries, scores_loop-scores_text}

digits-Parts :
    (ds : Bytes) → All (λ c. is_digit c ≡ true) ds → Lang (star (chars ((b'0', b'9') ∷ []))) ds
digits-Parts [] h = done
digits-Parts (d ∷ ds) (h, hs) =
    part d [] ds (d ∷ ds) (d, refl, ground arith) (digits-Parts ds hs) refl

decimal-Lang : (n : ℕ) → Lang number_re (decimal n)
decimal-Lang n = elim (decimal-Numeral n) [
  | inl e ↦ inl (b'0', e, refl)
  | inr (d, ds, e, first, rest) ↦ inr (d ∷ [], ds, e, (d, refl, ground arith), digits-Parts ds rest)
]

times-Lang_scores :
    (es : List (Side × ℕ))
    → All (λ e. IsSeat e.0) es
    → Lang (times (length es) (seq side_re number_re)) (scores_text es)
unfolding scores_text
times-Lang_scores [] h = refl
times-Lang_scores ((s, n) ∷ es) (h, hs) = (
  side_char s ∷ decimal n,
  scores_text es,
  refl,
  (side_char s ∷ [], decimal n, refl, side-Lang s h, decimal-Lang n),
  times-Lang_scores es hs,
)

parse_scores_text :
    (name pre : Bytes) (es : List (Side × ℕ))
    → length pre ≡ 5
    → length es ≡ 4
    → All (λ e. IsSeat e.0) es
    → parse_scores name (pre ++ scores_text es) ≡ some ((codes "type", name) ∷ score_entries es)
unfolding parse_scores
parse_scores_text name pre es p n h =
    let res : ParseResp = (codes "type", name) ∷ [] in
    let m = pre ++ scores_text es in
    let goal = (λ (i : ℕ) (j : ℕ). scores_loop i m j res ≡ some (res ++ score_entries es)) in
    subst (goal 4) p (subst (λ i. goal i (length pre)) n (scores_loop-scores_text es pre res h))

score_not_busy : (text : Bytes) → regex_match (b'S' ∷ b'C' ∷ text) busy_re ≡ false
unfolding regex_match
score_not_busy text = never_match text

score_not_deal : (text : Bytes) → regex_match (b'S' ∷ b'C' ∷ text) deal_re ≡ false
unfolding regex_match
score_not_deal text = never_match text

score_not_trick_s : (text : Bytes) → regex_match (b'S' ∷ b'C' ∷ text) trick_s_re ≡ false
unfolding regex_match
score_not_trick_s text = never_match text

score_not_wrong : (text : Bytes) → regex_match (b'S' ∷ b'C' ∷ text) wrong_re ≡ false
unfolding regex_match
score_not_wrong text = never_match text

score_not_taken : (text : Bytes) → regex_match (b'S' ∷ b'C' ∷ text) taken_re ≡ false
unfolding regex_match
score_not_taken text = never_match text

-- The client reads the four sides with their points from the scores of a round.
pub parse_net_msg-score :
    (es : List (Side × ℕ))
    → length es ≡ 4
    → All (λ e. IsSeat e.0) es
    → parse_net_msg (body (score es)) false
      ≡ some ((codes "type", codes "SCORE") ∷ score_entries es)
unfolding parse_net_msg parse_as body
parse_net_msg-score es n h =
    let text = scores_text es in
    let behind = codes "ORE" ++ text in
    let matches : regex_match (codes "SCORE" ++ text) score_re ≡ true =
      (regex_match-Lang (codes "SCORE" ++ text) score_re).1 (
        codes "SCORE",
        text,
        refl,
        lit-Lang (codes "SCORE"),
        subst (λ i. Lang (times i (seq side_re number_re)) text) n (times-Lang_scores es h),
      ) in
    rw
      (
        score_not_busy behind,
        score_not_deal behind,
        score_not_trick_s behind,
        score_not_wrong behind,
        score_not_taken behind,
        matches,
      )
      (parse_scores_text (codes "SCORE") (codes "SCORE") es refl n h)

total_not_busy : (text : Bytes) → regex_match (b'T' ∷ b'O' ∷ text) busy_re ≡ false
unfolding regex_match
total_not_busy text = never_match text

total_not_deal : (text : Bytes) → regex_match (b'T' ∷ b'O' ∷ text) deal_re ≡ false
unfolding regex_match
total_not_deal text = never_match text

total_not_trick_s : (text : Bytes) → regex_match (b'T' ∷ b'O' ∷ text) trick_s_re ≡ false
unfolding regex_match
total_not_trick_s text = never_match text

total_not_wrong : (text : Bytes) → regex_match (b'T' ∷ b'O' ∷ text) wrong_re ≡ false
unfolding regex_match
total_not_wrong text = never_match text

total_not_taken : (text : Bytes) → regex_match (b'T' ∷ b'O' ∷ text) taken_re ≡ false
unfolding regex_match
total_not_taken text = never_match text

total_not_score : (text : Bytes) → regex_match (b'T' ∷ b'O' ∷ text) score_re ≡ false
unfolding regex_match
total_not_score text = never_match text

-- The client reads the four sides with their points from the total scores.
pub parse_net_msg-total :
    (es : List (Side × ℕ))
    → length es ≡ 4
    → All (λ e. IsSeat e.0) es
    → parse_net_msg (body (total es)) false
      ≡ some ((codes "type", codes "TOTAL") ∷ score_entries es)
unfolding parse_net_msg parse_as body
parse_net_msg-total es n h =
    let text = scores_text es in
    let behind = codes "TAL" ++ text in
    let matches : regex_match (codes "TOTAL" ++ text) total_re ≡ true =
      (regex_match-Lang (codes "TOTAL" ++ text) total_re).1 (
        codes "TOTAL",
        text,
        refl,
        lit-Lang (codes "TOTAL"),
        subst (λ i. Lang (times i (seq side_re number_re)) text) n (times-Lang_scores es h),
      ) in
    rw
      (
        total_not_busy behind,
        total_not_deal behind,
        total_not_trick_s behind,
        total_not_wrong behind,
        total_not_taken behind,
        total_not_score behind,
        matches,
      )
      (parse_scores_text (codes "TOTAL") (codes "TOTAL") es refl n h)
