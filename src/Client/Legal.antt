-- ===== src/Client/Legal.antt =====
-- The automatic player plays by the rules that the server enforces.
use mathlib.Core.List.{Perm}
use mathlib.Core.List.Perm
use mathlib.Core.Path.{subst}
use native.Mathlib.Decide.{ℕ_discrete}
use kierki.Prelude.{
  ℕ, zero, suc, Bool, true, false, not, ◌&&◌, [], ◌∷◌, ◌++◌, some, ◌≡◌, ◌≢◌, refl, sym, ◌∙◌, arith,
  ◌==◌, if◌then◌else◌, >>=-eq-some, get_elem?, All, inl, inr, length, length-append,
  get_elem?-middle, All-append, append_assoc, append-nil,
}
use kierki.Types.{Side, Color, Card, Hand, Table, TableState}
use kierki.GameRules.{is_move_legal}
use kierki.GameRules.Legal.{Holds, Follows, is_move_legal_iff}
use kierki.Client.Strategy.{choose_loop, erase_at, pop_back, choose, next_move}

erase_at-perm :
    (hand : Hand) (i : ℕ) (c : Card) → get_elem? hand i ≡ some c → Perm hand (c ∷ erase_at hand i)
unfolding erase_at
erase_at-perm [] i c e = cc
erase_at-perm (d ∷ hand) zero c e = Perm.cons' (ground arith) Perm.rfl
erase_at-perm (d ∷ hand) (suc i) c e =
    Perm.trans (Perm.cons d (erase_at-perm hand i c e)) (Perm.swap c d _)

pop_back-perm :
    (hand : Hand)
    → hand ≢ []
    → (c : Card) × (rest : Hand) × (pop_back hand ≡ some (c, rest)) × Perm hand (c ∷ rest)
unfolding pop_back
pop_back-perm [] h = absurd (h refl)
pop_back-perm (c ∷ []) h = (c, [], refl, Perm.rfl)
pop_back-perm (c ∷ d ∷ hand) h =
    let (x, rest, e, p) = pop_back-perm (d ∷ hand) (cc) in
    (x, c ∷ rest, rw e, Perm.trans (Perm.cons c p) (Perm.swap x c _))

-- The candidate stands at the position to erase, and it has the colour if any card seen has.
abbrev IsChosen : Color → Hand → Hand → Card → ℕ → Type 0
IsChosen color_req seen hand cand to_erase =
    (get_elem? hand to_erase ≡ some cand)
    × (cand.col ≢ color_req → All (λ d. d.col ≢ color_req) seen)

choose_step :
    (k : Color) (seen hand : Hand) (c cand : Card) (to_erase : ℕ) (better : Bool)
    → (not (cand.col == k) && c.col == k) ≡ better
    → get_elem? hand (length seen) ≡ some c
    → IsChosen k seen hand cand to_erase
    → IsChosen k
        (seen ++ c ∷ [])
        hand
        (if better then c else cand)
        (if better then length seen else to_erase)
choose_step k seen hand c cand to_erase true b e (f, others) = (e, λ n. absurd (ground arith))
choose_step k seen hand c cand to_erase false b e (f, others) =
    (f, λ n. All-append _ seen (c ∷ []) (others n) ((λ q. ground arith), tt))

choose_loop-IsChosen :
    (k : Color) (seen rest hand : Hand) (cand : Card) (to_erase : ℕ)
    → hand ≡ seen ++ rest
    → IsChosen k seen hand cand to_erase
    → (r : Card × ℕ) × (choose_loop k rest (length seen) cand to_erase ≡ r)
      × IsChosen k hand hand r.0 r.1
unfolding choose_loop
choose_loop-IsChosen k seen [] hand cand to_erase e h =
    let all : hand ≡ seen = e ∙ append-nil seen in ((cand, to_erase), refl, rw all (rw all at h))
choose_loop-IsChosen k seen (c ∷ rest) hand cand to_erase e h =
    let better = not (cand.col == k) && c.col == k in
    let at_c : get_elem? hand (length seen) ≡ some c = rw e (get_elem?-middle seen c rest) in
    let len : length (seen ++ c ∷ []) ≡ suc (length seen) =
      omega (arith, length-append seen (c ∷ [])) in
    let (r, er, ch) =
      choose_loop-IsChosen k (seen ++ c ∷ []) rest hand (if better then c else cand)
        (if better then length seen else to_erase) (e ∙ sym (append_assoc seen (c ∷ []) rest))
        (choose_step k seen hand c cand to_erase better refl at_c h) in
    (
      r,
      subst
          (λ n.
            choose_loop k rest n (if better then c else cand)
              (if better then length seen else to_erase)
            ≡ r)
          len er,
      ch,
    )

get_elem?-Holds : (hand : Hand) (i : ℕ) (c : Card) → get_elem? hand i ≡ some c → Holds hand c
get_elem?-Holds [] i c e = cc
get_elem?-Holds (d ∷ hand) zero c e = inl (ground arith)
get_elem?-Holds (d ∷ hand) (suc i) c e = inr (get_elem?-Holds hand i c e)

pop_back-Holds :
    (hand : Hand) (c : Card) (rest : Hand) → pop_back hand ≡ some (c, rest) → Holds hand c
unfolding pop_back
pop_back-Holds [] c rest e = cc
pop_back-Holds (d ∷ []) c rest e = inl (ground arith)
pop_back-Holds (d ∷ x ∷ hand) c rest e =
    let (r, er, f) = >>=-eq-some (pop_back (x ∷ hand)) _ e in
    let same : pop_back (x ∷ hand) ≡ some (c, r.1) = ground arith in
    inr (pop_back-Holds (x ∷ hand) c r.1 same)

-- The played card and what is left are the hand again, and the card follows the first card of the
-- table wherever the hand can.
abbrev pub IsGoodMove : Table → Hand → Card → Hand → Type 0
IsGoodMove t hand c rest = Perm hand (c ∷ rest) × Holds hand c × Follows hand c t

choose_good :
    (front : Card) (t : Table) (hand : Hand)
    → hand ≢ []
    → (c : Card) × (rest : Hand) × (choose front.col hand ≡ some (c, rest))
      × IsGoodMove (front ∷ t) hand c rest
unfolding choose
choose_good front t [] h = absurd (h refl)
choose_good front t (first ∷ hand) h =
    let (r, er, (at_r, follows)) =
      choose_loop-IsChosen front.col [] (first ∷ hand) (first ∷ hand) first 0 refl
        (refl, λ _. tt) in
    (
      r.0,
      erase_at (first ∷ hand) r.1,
      rw er,
      (
        erase_at-perm (first ∷ hand) r.1 r.0 at_r,
        get_elem?-Holds (first ∷ hand) r.1 r.0 at_r,
        elim (ℕ_discrete r.0.col front.col) [ yes e ↦ inl e | no n ↦ inr (follows n) ],
      ),
    )

-- With a card in the hand, `nextMove` returns a card and what is left of the hand, and nothing is
-- lost or made up; the card is in the hand and follows the colour that was led where it can.
next_move_good :
    (t : Table) (hand : Hand)
    → hand ≢ []
    → (c : Card) × (rest : Hand) × (next_move t hand ≡ some (c, rest)) × IsGoodMove t hand c rest
unfolding next_move
next_move_good [] hand h =
    let (c, rest, e, p) = pop_back-perm hand h in
    (c, rest, e, (p, pop_back-Holds hand c rest e, tt))
next_move_good (front ∷ t) hand h = choose_good front t hand h

-- With a card in the hand, the automatic player finds a move; the hand is that card and the hand
-- that it keeps, in some order; and a server that holds the same hand for the side accepts the
-- card.
pub next_move_legal :
    (t : Table) (hand : Hand) (s : Side) (state : TableState)
    → hand ≢ []
    → state s ≡ some hand
    → (c : Card) × (rest : Hand) × (next_move t hand ≡ some (c, rest))
      × Perm hand (c ∷ rest)
      × (is_move_legal s c state t ≡ some true)
next_move_legal t hand s state h e =
    let (c, rest, m, (p, held, follows)) = next_move_good t hand h in
    (c, rest, m, p, (is_move_legal_iff s c state t hand e).1 (held, follows))
