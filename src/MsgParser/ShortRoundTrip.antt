-- ===== src/MsgParser/ShortRoundTrip.antt =====
-- What is read from the messages that hold sides or a number only.
use kierki.Prelude.{
  ℕ, zero, suc, ◌-◌, ◌≤◌, true, false, List, [], ◌∷◌, ◌++◌, some, ◌≡◌, inl, inr, refl, sym, ◌∙◌, ap,
  arith, Bytes, codes, length, length-append, All, append_assoc, append-nil,
}
use mathlib.Core.Path.{subst}
use kierki.Types.{Side, side_char, IsSeat, tricks_per_round}
use kierki.Text.{decimal}
use kierki.SendJob.{intro, wrong, busy, body, side_chars}
use kierki.Regex.{regex_match, up_to}
use kierki.Regex.Language.{Lang, never_match, regex_match-Lang}
use kierki.MsgParser.{parse_net_msg, parse_as, parse_iam, parse_busy, parse_wrong}
use kierki.MsgParser.Patterns.{side_re, rn_re, iam_re, busy_re, deal_re, trick_s_re, wrong_re}
use kierki.MsgParser.Pieces.{ParseResp, substr, substr_from, sides_loop}
use kierki.MsgParser.Cutting.{substr_middle, substr_from_end}
use kierki.MsgParser.Cards.{lit-Lang, side-Lang}
use kierki.MsgParser.Tricks.{number_text}

-- The server reads the side of an introduction.
pub parse_net_msg-intro :
    (s : Side)
    → IsSeat s
    → parse_net_msg (body (intro s)) true
      ≡ some ((codes "type", codes "IAM") ∷ (codes "side", side_char s ∷ []) ∷ [])
unfolding parse_net_msg parse_as parse_iam substr body
parse_net_msg-intro s h =
    let k = side_char s in
    let matches : regex_match (codes "IAM" ++ k ∷ []) iam_re ≡ true =
      (regex_match-Lang (codes "IAM" ++ k ∷ []) iam_re).1
        (codes "IAM", k ∷ [], refl, lit-Lang (codes "IAM"), side-Lang s h) in
    rw matches

abbrev pub side_entries : List Side → ParseResp
side_entries [] = []
side_entries (s ∷ rest) = (codes "side", side_char s ∷ []) ∷ side_entries rest

sides_loop_sides :
    (ss : List Side) (pre : Bytes) (res : ParseResp)
    → sides_loop (length (side_chars ss)) (pre ++ side_chars ss) (length pre) res
      ≡ some (res ++ side_entries ss)
unfolding sides_loop side_chars
sides_loop_sides [] pre res = ap some (sym (append-nil res))
sides_loop_sides (s ∷ ss) pre res =
    let k = side_char s in
    let rest = side_chars ss in
    let cut : substr (pre ++ k ∷ rest) (length pre) 1 ≡ some (k ∷ []) =
      substr_middle pre (k ∷ []) rest in
    let more = res ++ (codes "side", k ∷ []) ∷ [] in
    let ih = sides_loop_sides ss (pre ++ k ∷ []) more in
    let behind : length (pre ++ k ∷ []) ≡ suc (length pre) =
      omega (arith, length-append pre (k ∷ [])) in
    let moved : sides_loop (length rest) (pre ++ k ∷ rest) (suc (length pre)) more
        ≡ some (more ++ side_entries ss) =
      subst
        (λ i. sides_loop (length rest) (pre ++ k ∷ rest) i more ≡ some (more ++ side_entries ss))
        behind
        (subst
          (λ m.
            sides_loop (length rest) m (length (pre ++ k ∷ [])) more
            ≡ some (more ++ side_entries ss))
          (append_assoc pre (k ∷ []) rest) ih) in
    rw cut (moved ∙ ap some (append_assoc res ((codes "side", k ∷ []) ∷ []) (side_entries ss)))

up_to-Lang_sides :
    (n : ℕ) (ss : List Side)
    → All IsSeat ss
    → length ss ≤ n
    → Lang (up_to n side_re) (side_chars ss)
unfolding side_chars
up_to-Lang_sides zero [] h le = refl
up_to-Lang_sides zero (s ∷ ss) h le = absurd (omega arith)
up_to-Lang_sides (suc n) [] h le = inl refl
up_to-Lang_sides (suc n) (s ∷ ss) (h, hs) le =
    inr
      (side_char s ∷ [], side_chars ss, refl, side-Lang s h, up_to-Lang_sides n ss hs (omega arith))

-- A client that comes too late reads the sides that are taken, one to four of them.
pub parse_net_msg-busy :
    (s : Side) (ss : List Side)
    → All IsSeat (s ∷ ss)
    → length ss ≤ 3
    → parse_net_msg (body (busy (s ∷ ss))) false
      ≡ some ((codes "type", codes "BUSY") ∷ side_entries (s ∷ ss))
unfolding parse_net_msg parse_as parse_busy side_chars body
parse_net_msg-busy s ss (h, hs) few =
    let k = side_char s in
    let rest = side_chars ss in
    let matches : regex_match (codes "BUSY" ++ k ∷ rest) busy_re ≡ true =
      (regex_match-Lang (codes "BUSY" ++ k ∷ rest) busy_re).1 (
        codes "BUSY",
        k ∷ rest,
        refl,
        lit-Lang (codes "BUSY"),
        (k ∷ [], rest, refl, side-Lang s h, up_to-Lang_sides 3 ss hs few),
      ) in
    let here : length (codes "BUSY" ++ k ∷ rest) - 4 ≡ suc (length rest) = omega arith in
    rw (matches, here)
      (sides_loop_sides (s ∷ ss) (codes "BUSY") ((codes "type", codes "BUSY") ∷ []))

not_busy : (text : Bytes) → regex_match (b'W' ∷ text) busy_re ≡ false
unfolding regex_match
not_busy text = never_match text

not_deal : (text : Bytes) → regex_match (b'W' ∷ text) deal_re ≡ false
unfolding regex_match
not_deal text = never_match text

not_trick : (text : Bytes) → regex_match (b'W' ∷ text) trick_s_re ≡ false
unfolding regex_match
not_trick text = never_match text

-- The client reads the number of the trick to which its card did not fit.
pub parse_net_msg-wrong :
    (n : ℕ)
    → 1 ≤ n
    → n ≤ tricks_per_round
    → parse_net_msg (body (wrong n)) false
      ≡ some ((codes "type", codes "WRONG") ∷ (codes "rn", decimal n) ∷ [])
unfolding parse_net_msg parse_as parse_wrong body
parse_net_msg-wrong zero lo hi = absurd (omega arith)
parse_net_msg-wrong (suc i) lo hi =
    let r = decimal (suc i) in
    let matches : regex_match (codes "WRONG" ++ r) wrong_re ≡ true =
      (regex_match-Lang (codes "WRONG" ++ r) wrong_re).1 (
        codes "WRONG",
        r,
        refl,
        lit-Lang (codes "WRONG"),
        (regex_match-Lang r rn_re).0 (number_text i (omega arith)).0,
      ) in
    let cut : substr_from (codes "WRONG" ++ r) 5 ≡ some r = substr_from_end (codes "WRONG") r in
    rw
      (
        not_busy (codes "RONG" ++ r),
        not_deal (codes "RONG" ++ r),
        not_trick (codes "RONG" ++ r),
        matches,
      )
      (rw cut)
