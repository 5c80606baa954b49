-- ===== src/Scenario/RoundTrip.antt =====
-- A scenario that is written as the reader expects it is read back.
use kierki.Prelude.{
  ℕ, zero, suc, ◌+◌, ◌≤◌, ◌<◌, true, false, List, Option, [], ◌∷◌, ◌++◌, map, none, some, ◌>>=◌,
  if◌then◌else◌, Bytes, length, All, ◌≡◌, refl, ap, ◌∙◌, inl, inr, arith, get_elem?-middle,
  length-append, append_assoc, take, drop, ◌==◌,
}
use mathlib.Core.Path.{subst}
use kierki.Types.{
  Side, side_n, side_e, side_s, side_w, side_null, sides, side_char, IsSeat, RoundType, round_code,
  trick_penalty, heart_penalty, queen_penalty, king_jack_penalty, heart_king_penalty,
  seventh_last_trick_penalty, everything, Card, Hand, TableState, tricks_per_round, update,
}
use kierki.Card
use kierki.Card.Laws.{IsCard, from_string-to_string}
use kierki.SendJob.{cards_text}
use kierki.MsgParser.Cutting.{
  is_lead, CardText, IsPackCard, IsPackCard-text, take_front, drop_front,
}
use kierki.Client.Entries.{side_of_char-side_char}
use kierki.Scenario.{
  is_ten, read_cards, read_hands, parse_rounds, parse_scenario, ParsedRound, pos, name_penalty,
  name_round, mode_number, char_int,
}

abbrev pub IsGoodCard : Card → Type 0
IsGoodCard c = IsPackCard c × IsCard c

not_one : (x : ℕ) → is_lead x ≡ true → (x == b'1') ≡ false
not_one x h = ground arith

ten_at : (pre : Bytes) (x : ℕ) (rest : Bytes) → is_ten (pre ++ x ∷ rest) (length pre) ≡ (x == b'1')
ten_at pre x rest = rw (is_ten, get_elem?-middle pre x rest) refl

width_of :
    (pre t rest : Bytes)
    → CardText t
    → (if is_ten (pre ++ (t ++ rest)) (length pre) then 3 else 2) ≡ length t
width_of pre t rest (inl (x, k, e, lead, color)) =
    rw e (ap (λ b. if b then 3 else 2) (ten_at pre x (k ∷ rest) ∙ not_one x lead))
width_of pre t rest (inr (k, e, color)) =
    rw e (ap (λ b. if b then 3 else 2) (ten_at pre b'1' (b'0' ∷ k ∷ rest)))

read_cards-cards_text :
    (cs : List Card) (pre : Bytes)
    → All IsGoodCard cs
    → read_cards (length cs) (pre ++ cards_text cs) (length pre) ≡ some cs
unfolding read_cards cards_text
read_cards-cards_text [] pre h = refl
read_cards-cards_text (c ∷ cs) pre ((pack, card), hs) =
    let t = Card.to_string c in
    let line = pre ++ (t ++ cards_text cs) in
    let width = width_of pre t (cards_text cs) (IsPackCard-text c pack).1 in
    let cut : take (length t) (drop (length pre) line) ≡ t =
      ap (take (length t)) (drop_front pre (t ++ cards_text cs)) ∙ take_front t (cards_text cs) in
    let text = ap Card.from_string cut ∙ from_string-to_string c card in
    let more : read_cards (length cs) line (length pre + length t) ≡ some cs =
      subst (λ i. read_cards (length cs) line i ≡ some cs) (length-append pre t)
        (subst (λ m. read_cards (length cs) m (length (pre ++ t)) ≡ some cs)
          (append_assoc pre t (cards_text cs)) (read_cards-cards_text cs (pre ++ t) hs)) in
    ap
      (λ w. (Card.from_string (take w (drop (length pre) line))) >>= λ a.
        (read_cards (length cs) line (length pre + w)) >>= λ as_. some (a ∷ as_))
      width
    ∙ ap
        (λ x. x >>= λ a.
          (read_cards (length cs) line (length pre + length t)) >>= λ as_. some (a ∷ as_))
        text
    ∙ ap (λ x. x >>= λ as_. some (c ∷ as_)) more

-- A round as it is written: the penalty, the side that starts and the hand of each seat.
pub record Deal : Type 0 where
  pub type : RoundType
  pub starting : Side
  pub hand : Side → Hand

abbrev pub deal_lines : (Side → Hand) → List Side → List Bytes → List Bytes
deal_lines hand [] more = more
deal_lines hand (s ∷ rest) more = cards_text (hand s) ∷ deal_lines hand rest more

abbrev pub scenario_lines : List Deal → List Bytes
scenario_lines [] = []
scenario_lines (d ∷ rest) =
    ((b'0' + round_code d.type) ∷ side_char d.starting ∷ [])
    ∷ deal_lines d.hand sides (scenario_lines rest)

-- The hands of the sides, and none else.
abbrev pub dealt : (Side → Hand) → List Side → TableState → TableState
dealt hand [] state = state
dealt hand (s ∷ rest) state = dealt hand rest (update state s (some (hand s)))

abbrev pub as_state : Deal → TableState
as_state d = dealt d.hand sides (λ s. none)

-- What is read: the numbers of the penalty and of the side, and the hands.
abbrev pub as_read : Deal → ParsedRound
as_read d = record {
  type = pos (round_code d.type);
  state = as_state d;
  starting = pos (side_char d.starting);
}

-- The scenario that the rounds name.
abbrev pub name_all : List ParsedRound → Option (List (RoundType × TableState × Side))
name_all [] = some []
name_all (r ∷ rest) = do first ← name_round r; more ← name_all rest; some (first ∷ more)

abbrev pub as_round : Deal → RoundType × TableState × Side
as_round d = (d.type, as_state d, d.starting)

abbrev pub IsWritten : Deal → Type 0
IsWritten d =
    IsSeat d.starting
    × ((s : Side) → length (d.hand s) ≡ tricks_per_round)
    × ((s : Side) → All IsGoodCard (d.hand s))

read_hands-deal_lines :
    (hand : Side → Hand) (ss : List Side) (more : List Bytes) (state : TableState)
    → ((s : Side) → length (hand s) ≡ tricks_per_round)
    → ((s : Side) → All IsGoodCard (hand s))
    → read_hands ss (deal_lines hand ss more) state ≡ some (dealt hand ss state, more)
unfolding read_hands
read_hands-deal_lines hand [] more state n h = refl
read_hands-deal_lines hand (s ∷ rest) more state n h =
    let first : read_cards tricks_per_round (cards_text (hand s)) 0 ≡ some (hand s) =
      subst (λ i. read_cards i (cards_text (hand s)) 0 ≡ some (hand s)) (n s)
        (read_cards-cards_text (hand s) [] (h s)) in
    ap (λ x. x >>= λ got. read_hands rest (deal_lines hand rest more) (update state s (some got)))
      first
    ∙ read_hands-deal_lines hand rest more (update state s (some (hand s))) n h

mode_number-round_code : (rt : RoundType) → mode_number (b'0' + round_code rt) ≡ pos (round_code rt)
mode_number-round_code trick_penalty = refl
mode_number-round_code heart_penalty = refl
mode_number-round_code queen_penalty = refl
mode_number-round_code king_jack_penalty = refl
mode_number-round_code heart_king_penalty = refl
mode_number-round_code seventh_last_trick_penalty = refl
mode_number-round_code everything = refl

name_penalty-round_code : (rt : RoundType) → name_penalty (pos (round_code rt)) ≡ some rt
name_penalty-round_code trick_penalty = refl
name_penalty-round_code heart_penalty = refl
name_penalty-round_code queen_penalty = refl
name_penalty-round_code king_jack_penalty = refl
name_penalty-round_code heart_king_penalty = refl
name_penalty-round_code seventh_last_trick_penalty = refl
name_penalty-round_code everything = refl

char_int-side_char : (s : Side) → IsSeat s → char_int (side_char s) ≡ pos (side_char s)
char_int-side_char side_n h = refl
char_int-side_char side_e h = refl
char_int-side_char side_s h = refl
char_int-side_char side_w h = refl
char_int-side_char side_null h = absurd h

name_round-as_read : (d : Deal) → IsSeat d.starting → name_round (as_read d) ≡ some (as_round d)
name_round-as_read d seat =
    rw (name_penalty-round_code d.type, side_of_char-side_char d.starting seat) refl

name_all-as_read :
    (ds : List Deal) → All IsWritten ds → name_all (map as_read ds) ≡ some (map as_round ds)
name_all-as_read [] h = refl
name_all-as_read (d ∷ ds) ((seat, n, good), hs) =
    rw (name_round-as_read d seat, name_all-as_read ds hs) refl

parse_rounds-scenario_lines :
    (ds : List Deal) (fuel : ℕ)
    → All IsWritten ds
    → length ds < fuel
    → parse_rounds fuel (scenario_lines ds) ≡ some (map as_read ds)
unfolding parse_rounds
parse_rounds-scenario_lines ds zero h lt = absurd (omega (arith, lt))
parse_rounds-scenario_lines [] (suc fuel) h lt = refl
parse_rounds-scenario_lines (d ∷ ds) (suc fuel) ((seat, n, good), hs) lt =
    rw
      (
        mode_number-round_code d.type,
        char_int-side_char d.starting seat,
        read_hands-deal_lines d.hand sides (scenario_lines ds) (λ s. none) n good,
        parse_rounds-scenario_lines ds fuel hs (omega (arith, lt)),
      )
      refl

few_rounds : (ds : List Deal) → length ds ≤ length (scenario_lines ds)
few_rounds [] = omega arith
few_rounds (d ∷ ds) = omega (arith, few_rounds ds)

-- A scenario that is written line by line, a line for the penalty and the side that starts and then
-- the thirteen cards of each side, is read back round by round: the hands, and the numbers of the
-- penalties and the sides, are those that were written, and these numbers name the penalties and
-- sides themselves. The cards are of the pack and of the table of values.
pub parse_scenario-scenario_lines :
    (ds : List Deal)
    → All IsWritten ds
    → (parse_scenario (scenario_lines ds) ≡ some (map as_read ds))
      × (name_all (map as_read ds) ≡ some (map as_round ds))
unfolding parse_scenario
parse_scenario-scenario_lines ds h = (
  parse_rounds-scenario_lines ds (suc (length (scenario_lines ds))) h
      (omega (arith, few_rounds ds)),
  name_all-as_read ds h,
)
