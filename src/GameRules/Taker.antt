-- ===== src/GameRules/Taker.antt =====
-- Who takes a trick: the player of the highest card of the colour that was led.
use mathlib.Core.Path.{subst}
use native.Mathlib.Decide.{dec_lt}
use native.Mathlib.Numerals.{add-one}
use kierki.Prelude.{
  ℕ, zero, suc, ◌+◌, ◌≤◌, ◌<◌, [], ◌∷◌, some, true, if◌then◌else◌, ◌≡◌, refl, sym, ◌∙◌, arith,
  Bool-cases, get_elem?, length, ◌==◌, ◌&&◌, inl, inr,
}
use kierki.Types.{
  Side, IsSeat, nxt_side, side_n, side_e, side_s, side_w, side_null, RoundType, Color, Card, Table,
}
use kierki.Card.{gt}
use kierki.Card.Laws.{gt→lt, not-gt→le}
use kierki.GameRules.{taker_loop, advance, penalty, who_takes}

-- Of the first `n` cards, the one at `ix` has the colour, and is no lower than any other of it.
abbrev pub IsBest : Table → Color → ℕ → ℕ → Type 0
IsBest table wanted n ix =
    (c : Card) × (get_elem? table ix ≡ some c)
    × (c.col ≡ wanted)
    × (ix < n)
    × ((j : ℕ) (d : Card)
        → j < n
        → get_elem? table j ≡ some d
        → d.col ≡ wanted
        → d.true_val ≤ c.true_val)

get_elem?_within :
    (table : Table) (i : ℕ) → i < length table → (c : Card) × (get_elem? table i ≡ some c)
get_elem?_within [] i h = absurd (omega arith)
get_elem?_within (c ∷ table) zero h = (c, refl)
get_elem?_within (c ∷ table) (suc i) h = get_elem?_within table i (omega arith)

-- The next card changes the best one exactly when it has the colour and is higher.
next_best : Color → ℕ → ℕ → Card → Card → ℕ
next_best wanted i ix c best = if c.col == wanted && gt c best then i else ix

-- A claim about the cards before `suc i` from the claim before `i` and the card at `i`.
extend :
    (P : Card → Type 0) (table : Table) (i : ℕ) (c : Card)
    → get_elem? table i ≡ some c
    → ((j : ℕ) (d : Card) → j < i → get_elem? table j ≡ some d → P d)
    → P c
    → (j : ℕ) (d : Card) → j < suc i
    → get_elem? table j ≡ some d
    → P d
extend P table i c e below at_i j d lj ed = elim (dec_lt j i) [
  | yes q ↦ below j d q ed
  | no q ↦
      let same : j ≡ i = omega arith in
      let f : some c ≡ some d = sym e ∙ (rw same at ed) in subst P (ground arith) at_i
]

next_best-IsBest :
    (table : Table) (wanted : Color) (i ix : ℕ) (c best : Card)
    → get_elem? table i ≡ some c
    → get_elem? table ix ≡ some best
    → IsBest table wanted i ix
    → IsBest table wanted (suc i) (next_best wanted i ix c best)
unfolding next_best
next_best-IsBest table wanted i ix c best e ebest (b, eb, col, lt, high) =
    let same : b ≡ best = ground arith in
    elim (Bool-cases (c.col == wanted && gt c best)) [
      | inl t ↦
          let taken : (c.col ≡ wanted) × (gt c best ≡ true) = ground arith in
          let higher : b.true_val < c.true_val = rw same (gt→lt c best taken.1) in
          rw t (
            c,
            e,
            taken.0,
            omega arith,
            extend (λ d. d.col ≡ wanted → d.true_val ≤ c.true_val) table i c e
                (λ j d lj ed cd. omega (arith, high j d lj ed cd)) (λ cd. omega arith),
          )
      | inr t ↦
          let lower : c.col ≡ wanted → c.true_val ≤ b.true_val =
            λ cd. rw same (not-gt→le c best (ground arith)) in
          rw t (
            b,
            eb,
            col,
            omega arith,
            extend (λ d. d.col ≡ wanted → d.true_val ≤ b.true_val) table i c e high lower,
          )
    ]

taker_loop-IsBest :
    (table : Table) (wanted : Color) (left i ix : ℕ)
    → i + left ≡ length table
    → IsBest table wanted i ix
    → (r : ℕ) × (taker_loop table wanted left i ix ≡ some r) × IsBest table wanted (length table) r
unfolding taker_loop next_best
taker_loop-IsBest table wanted zero i ix e b =
    let all : i ≡ length table = omega arith in (ix, refl, rw (← all) b)
taker_loop-IsBest table wanted (suc left) i ix e b =
    let (c, ec) = get_elem?_within table i (omega arith) in
    let (r, er, br) =
      taker_loop-IsBest table wanted left (suc i) (next_best wanted i ix c b.0) (omega arith)
        (next_best-IsBest table wanted i ix c b.0 ec b.1 b) in
    (r, rw (ec, b.1) (rw add-one er), br)

-- From a seat the turn goes on for ever.
advance-IsSeat : (n : ℕ) (s : Side) → IsSeat s → (t : Side) × (advance n s ≡ some t) × IsSeat t
unfolding advance nxt_side
advance-IsSeat zero s h = (s, refl, h)
advance-IsSeat (suc n) side_n h = advance-IsSeat n side_e tt
advance-IsSeat (suc n) side_e h = advance-IsSeat n side_s tt
advance-IsSeat (suc n) side_s h = advance-IsSeat n side_w tt
advance-IsSeat (suc n) side_w h = advance-IsSeat n side_n tt
advance-IsSeat (suc n) side_null h = absurd h

-- `whoTakes` on a full table, from a seat, names the seat as many places after the first one as
-- the winning card lies after the first card: a card of the colour that was led, no lower than any
-- card of that colour on the table.
pub who_takes-IsBest :
    (s : Side) (a b c d : Card) (round_type : RoundType) (trick_no : ℕ)
    → IsSeat s
    → let table = a ∷ b ∷ c ∷ d ∷ [] in
      (ix : ℕ) × (t : Side) × (advance ix s ≡ some t)
      × IsSeat t
      × (who_takes s table round_type trick_no ≡ some (t, penalty round_type table trick_no))
      × IsBest table a.col 4 ix
unfolding who_takes
who_takes-IsBest s a b c d round_type trick_no h =
    let table = a ∷ b ∷ c ∷ d ∷ [] in
    let (ix, e, best) = taker_loop-IsBest table a.col 3 1 0 refl (
      a,
      refl,
      refl,
      omega arith,
      extend (λ x. x.col ≡ a.col → x.true_val ≤ a.true_val) table 0 a refl
          (λ j x lj ex. absurd (omega arith)) (λ cx. omega arith),
    ) in
    let (t, et, seat) = advance-IsSeat ix s h in (ix, t, et, seat, rw (e, et), best)

-- Four places on is the same seat: the player to lead is known again when the table is full.
pub advance_round : (s : Side) → IsSeat s → advance 4 s ≡ some s
unfolding advance nxt_side
advance_round side_n h = refl
advance_round side_e h = refl
advance_round side_s h = refl
advance_round side_w h = refl
advance_round side_null h = absurd h
