-- ===== src/Server/Invariant.antt =====
-- What holds of the game between two calls of the server, and how a card keeps it.
use mathlib.Core.Path.{subst}
use kierki.Prelude.{
  ℕ, suc, ◌+◌, ◌≤◌, ◌<◌, true, false, [], ◌∷◌, ◌++◌, some, ◌≡◌, ◌⊎◌, ap, arith, leb, if◌then◌else◌,
  inl, inr, Bool-cases, All, length, length-append,
}
use kierki.Types.{
  Side, IsSeat, side_eq, RoundType, Card, Hand, TableState, ScoreMap, update, nxt_side,
  tricks_per_round, hand_at,
}
use kierki.Hands.{rm_card_if_present}
use kierki.Hands.Laws.{holds, length-rm_card_if_present}
use kierki.GameRules.{is_move_legal}
use kierki.GameRules.Legal.{legal-holds}
use kierki.Server.{Server}
use kierki.Server.Sending.{Sent}
use kierki.Server.Turns.{
  turns_since, turns_since_range, side_eq_sound, turns_since_self, turns_since_moved,
  turns_since_other, side_eq_self,
}

-- 1 if the side has a card among the `n` cards on the table, and else 0.
abbrev pub on_table : Side → ℕ → Side → ℕ
on_table next n s = if leb (turns_since next s) n then 1 else 0

-- The cards in a hand, the one on the table and the tricks that are over make thirteen.
abbrev pub HandFits : Server → Side → Type 0
HandFits st s =
    (h : Hand) × (st.hands s ≡ some h)
    × (length h + on_table st.next_move (length st.table) s + st.trick_no ≡ tricks_per_round + 1)

pub record IsBalanced (st : Server) : Type 0 where
  pub next_seat : IsSeat st.next_move
  pub fits : (s : Side) → IsSeat s → HandFits st s
  pub started : 1 ≤ st.trick_no

-- A round of a scenario: a seat starts, and each seat has a hand of thirteen cards.
abbrev pub IsDeal : RoundType × TableState × Side → Type 0
IsDeal (mode, state, starting) =
    IsSeat starting
    × ((s : Side) → IsSeat s → (h : Hand) × (state s ≡ some h) × (length h ≡ tricks_per_round))

pub record IsPlayable (st : Server) : Type 0 where
  pub balanced : IsBalanced st
  pub open_trick : length st.table < 4
  pub deals : All IsDeal st.game_scenario
  pub rounds : (st.round_number < length st.game_scenario) ⊎ (st.trick_no ≡ tricks_per_round + 1)

pub Sent-IsPlayable : {st st' : Server} → Sent st st' → IsPlayable st → IsPlayable st'
Sent-IsPlayable (m, e, p) v = rw e (record {
  balanced = record {
    next_seat = v.balanced.next_seat;
    fits = v.balanced.fits;
    started = v.balanced.started;
  };
  open_trick = v.open_trick;
  deals = v.deals;
  rounds = v.rounds;
})

-- A card that leaves the hand of the side to move: its hand shrinks, and it has a card on the
-- table.
mover_fits :
    (next next' : Side) (n t : ℕ) (h : Hand) (card : Card)
    → turns_since next' next ≡ 1
    → n < 4
    → holds h card ≡ true
    → length h + on_table next n next + t ≡ 14
    → length (rm_card_if_present h card) + on_table next' (n + 1) next + t ≡ 14
mover_fits next next' n t h card turn lt held fit =
    ground (arith, length-rm_card_if_present h card, turns_since_self next)

other_fits :
    (next next' s : Side) (n t k : ℕ)
    → turns_since next' s ≡ suc (turns_since next s)
    → k + on_table next n s + t ≡ 14
    → k + on_table next' (n + 1) s + t ≡ 14
other_fits next next' s n t k turn fit = ground arith

-- What `put_card` makes of the state, for the side to move.
abbrev pub moved : Card → Side → Server → Server
moved card next' st = record st {
  table = st.table ++ card ∷ [];
  hands =
      update st.hands st.next_move (some (rm_card_if_present (hand_at st.hands st.next_move) card));
  next_move = next';
}

hand_at-some : (m : TableState) (s : Side) (h : Hand) → m s ≡ some h → hand_at m s ≡ h
hand_at-some m s h e = ground arith

moved_mover :
    (card : Card) (st : Server) (next' : Side)
    → nxt_side st.next_move ≡ some next'
    → IsBalanced st
    → length st.table < 4
    → is_move_legal st.next_move card st.hands st.table ≡ some true
    → HandFits (moved card next' st) st.next_move
moved_mover card st next' en v lt legal =
    let (h, eh, fit) = v.fits st.next_move v.next_seat in
    (
      rm_card_if_present h card,
      rw (side_eq_self st.next_move)
          (ap (λ x. some (rm_card_if_present x card)) (hand_at-some st.hands st.next_move h eh)),
      rw (length-append st.table (card ∷ [])) (
          mover_fits st.next_move next' (length st.table) st.trick_no h card
            (turns_since_moved st.next_move next' en) lt
            (legal-holds st.next_move card st.hands st.table h eh legal) fit),
    )

moved_other :
    (card : Card) (st : Server) (next' s : Side)
    → nxt_side st.next_move ≡ some next'
    → IsBalanced st
    → IsSeat s
    → side_eq st.next_move s ≡ false
    → HandFits (moved card next' st) s
moved_other card st next' s en v seat other =
    let (h, eh, fit) = v.fits s seat in
    (
      h,
      rw (other, eh),
      rw (length-append st.table (card ∷ [])) (
          other_fits st.next_move next' s (length st.table) st.trick_no (length h)
            (turns_since_other st.next_move next' s en seat other) fit),
    )

-- A legal card of the side to move keeps the balance, up to a full table.
pub moved-IsBalanced :
    (card : Card) (st : Server) (next' : Side)
    → nxt_side st.next_move ≡ some next'
    → IsSeat next'
    → IsBalanced st
    → length st.table < 4
    → is_move_legal st.next_move card st.hands st.table ≡ some true
    → IsBalanced (moved card next' st)
moved-IsBalanced card st next' en seat v lt legal = record {
  next_seat = seat;
  fits = λ s h. elim (Bool-cases (side_eq st.next_move s)) [
    | inl e ↦
        subst (HandFits (moved card next' st)) (side_eq_sound st.next_move s e)
          (moved_mover card st next' en v lt legal)
    | inr e ↦ moved_other card st next' s en v h e
  ];
  started = v.started;
}

-- What the end of a trick makes of the state, before the messages.
abbrev pub cleared : Side → ScoreMap → Server → Server
cleared taker pen st = record st {
  next_move = taker;
  penalties_round = pen;
  trick_no = suc st.trick_no;
  table = [];
}

-- After a full table whoever takes the trick is to move, and all hands have one card less to go.
pub cleared-IsBalanced :
    (taker : Side) (pen : ScoreMap) (st : Server)
    → IsSeat taker
    → IsBalanced st
    → length st.table ≡ 4
    → IsBalanced (cleared taker pen st)
cleared-IsBalanced taker pen st seat v full = record {
  next_seat = seat;
  fits = λ s h.
      let (hand, eh, fit) = v.fits s h in
      (
        hand,
        eh,
        ground (arith, turns_since_range st.next_move s, turns_since_range taker s, fit, full),
      );
  started = omega arith;
}
