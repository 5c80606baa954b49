-- ===== src/GameRules/RoundTotal.antt =====
-- What a whole round costs all players together, if every card of the pack is played once.
use mathlib.Core.List.{Perm, Permᴰ}
use mathlib.Core.Logic.{∥∥₁_elim}
use native.Mathlib.Nat.{ℕ_set}
use kierki.Prelude.{
  ℕ, zero, suc, ◌+◌, List, [], ◌∷◌, ◌++◌, ◌≡◌, refl, ◌∙◌, ap, arith, Bytes, length,
}
use kierki.Types.{
  RoundType, Card, Color, Table, trick_penalty, heart_penalty, queen_penalty, king_jack_penalty,
  heart_king_penalty, seventh_last_trick_penalty, everything, color_c, color_d, color_h, color_s,
}
use kierki.Card.{values}
use kierki.GameRules.{
  add_each, penalty, seventh_last, heart_points, queen_points, king_jack_points, heart_king_points,
}
use kierki.GameRules.Penalty.{add_each_start, everything-sum}

-- The penalties of a list of tricks, the first of which has that number.
pub tricks_penalty : RoundType → List Table → ℕ → ℕ
tricks_penalty round_type [] trick_no = 0
tricks_penalty round_type (table ∷ tables) trick_no =
    penalty round_type table trick_no + tricks_penalty round_type tables (suc trick_no)

abbrev pub gather : List Table → List Card
gather [] = []
gather (table ∷ tables) = table ++ gather tables

abbrev pub color_cards : Color → List (Bytes × ℕ) → List Card
color_cards k [] = []
color_cards k ((v, t) ∷ rest) = record { value = v; col = k; true_val = t } ∷ color_cards k rest

-- The pack of 52 cards.
unfoldable pub pack : List Card
pack =
    color_cards color_c values
    ++ color_cards color_d values
    ++ color_cards color_h values
    ++ color_cards color_s values

module _ (f : Card → ℕ) where
  add_each-append : (xs ys : Table) → add_each f (xs ++ ys) 0 ≡ add_each f xs 0 + add_each f ys 0
  unfolding add_each
  add_each-append [] ys = omega arith
  add_each-append (c ∷ xs) ys = omega (
    arith,
    add_each_start f (xs ++ ys) (0 + f c),
    add_each_start f xs (0 + f c),
    add_each-append xs ys,
  )

  add_each-permᴰ : {xs ys : Table} → Permᴰ xs ys → add_each f xs 0 ≡ add_each f ys 0
  unfolding add_each
  add_each-permᴰ Permᴰ.nil = refl
  add_each-permᴰ (Permᴰ.cons {a = a} {b = b} {l₁ = l} {l₂ = l'} e p) =
      omega (
        arith,
        ap f e,
        add_each_start f l (0 + f a),
        add_each_start f l' (0 + f b),
        add_each-permᴰ p,
      )
  add_each-permᴰ (Permᴰ.swap {a = a} {b = b} {a' = a'} {b' = b'} {l = l} e e') = omega (
    arith,
    ap f e,
    ap f e',
    add_each_start f l (0 + f a + f b),
    add_each_start f l (0 + f a' + f b'),
  )
  add_each-permᴰ (Permᴰ.trans p q) = add_each-permᴰ p ∙ add_each-permᴰ q

  -- The order of the cards does not matter.
  pub add_each-perm : {xs ys : Table} → Perm xs ys → add_each f xs 0 ≡ add_each f ys 0
  add_each-perm p = ∥∥₁_elim p (ℕ_set _ _) add_each-permᴰ

  -- A mode that only counts cards charges for the cards of all tricks, whoever took them.
  tricks_points :
      (round_type : RoundType)
      → ((table : Table) (n : ℕ) → penalty round_type table n ≡ add_each f table 0)
      → (tables : List Table) (n : ℕ)
      → tricks_penalty round_type tables n ≡ add_each f (gather tables) 0
  unfolding tricks_penalty add_each
  tricks_points round_type h [] n = refl
  tricks_points round_type h (table ∷ tables) n = omega (
    arith,
    h table n,
    tricks_points round_type h tables (suc n),
    add_each-append table (gather tables),
  )

pack_points :
    (f : Card → ℕ) (round_type : RoundType) (tables : List Table) (k : ℕ)
    → ((table : Table) (n : ℕ) → penalty round_type table n ≡ add_each f table 0)
    → Perm (gather tables) pack
    → add_each f pack 0 ≡ k
    → tricks_penalty round_type tables 1 ≡ k
pack_points f round_type tables k h p e =
    tricks_points f round_type h tables 1 ∙ add_each-perm f p ∙ e

tricks_count : (tables : List Table) (n : ℕ) → tricks_penalty trick_penalty tables n ≡ length tables
unfolding tricks_penalty penalty
tricks_count [] n = refl
tricks_count (table ∷ tables) n = omega (arith, tricks_count tables (suc n))

seventh_last_from : ℕ → ℕ → ℕ
seventh_last_from zero n = 0
seventh_last_from (suc k) n = seventh_last n + seventh_last_from k (suc n)

tricks_seventh_last :
    (tables : List Table) (n : ℕ)
    → tricks_penalty seventh_last_trick_penalty tables n ≡ seventh_last_from (length tables) n
unfolding tricks_penalty penalty seventh_last_from
tricks_seventh_last [] n = refl
tricks_seventh_last (table ∷ tables) n = omega (arith, tricks_seventh_last tables (suc n))

tricks_everything :
    (tables : List Table) (n : ℕ)
    → tricks_penalty everything tables n
      ≡ tricks_penalty trick_penalty tables n
        + tricks_penalty heart_penalty tables n
        + tricks_penalty queen_penalty tables n
        + tricks_penalty king_jack_penalty tables n
        + tricks_penalty heart_king_penalty tables n
        + tricks_penalty seventh_last_trick_penalty tables n
unfolding tricks_penalty
tricks_everything [] n = refl
tricks_everything (table ∷ tables) n =
    omega (arith, everything-sum table n, tricks_everything tables (suc n))

-- The points of a whole round.
abbrev pub round_points : RoundType → ℕ
round_points trick_penalty = 13
round_points heart_penalty = 13
round_points queen_penalty = 20
round_points king_jack_penalty = 16
round_points heart_king_penalty = 18
round_points seventh_last_trick_penalty = 20
round_points everything = 100

seventh_last_round : seventh_last_from 13 1 ≡ 20
unfolding seventh_last_from seventh_last
seventh_last_round = refl

module _ (tables : List Table) (len : length tables ≡ 13) (p : Perm (gather tables) pack) where
  trick_total : tricks_penalty trick_penalty tables 1 ≡ 13
  trick_total = tricks_count tables 1 ∙ len

  heart_total : tricks_penalty heart_penalty tables 1 ≡ 13
  unfolding penalty pack add_each heart_points
  heart_total = pack_points heart_points heart_penalty tables 13 (λ t n. refl) p refl

  queen_total : tricks_penalty queen_penalty tables 1 ≡ 20
  unfolding penalty pack add_each queen_points
  queen_total = pack_points queen_points queen_penalty tables 20 (λ t n. refl) p refl

  king_jack_total : tricks_penalty king_jack_penalty tables 1 ≡ 16
  unfolding penalty pack add_each king_jack_points
  king_jack_total = pack_points king_jack_points king_jack_penalty tables 16 (λ t n. refl) p refl

  heart_king_total : tricks_penalty heart_king_penalty tables 1 ≡ 18
  unfolding penalty pack add_each heart_king_points
  heart_king_total = pack_points heart_king_points heart_king_penalty tables 18 (λ t n. refl) p refl

  seventh_last_total : tricks_penalty seventh_last_trick_penalty tables 1 ≡ 20
  seventh_last_total =
      tricks_seventh_last tables 1 ∙ ap (λ k. seventh_last_from k 1) len ∙ seventh_last_round

  everything_total : tricks_penalty everything tables 1 ≡ 100
  everything_total = omega (
    arith,
    tricks_everything tables 1,
    trick_total,
    heart_total,
    queen_total,
    king_jack_total,
    heart_king_total,
    seventh_last_total,
  )

-- Thirteen tricks with the cards of the whole pack cost the players together what the mode says,
-- however the cards fell: 13, 13, 20, 16, 18 and 20 in the six single modes and 100 in the last.
pub round_total :
    (round_type : RoundType) (tables : List Table)
    → length tables ≡ 13
    → Perm (gather tables) pack
    → tricks_penalty round_type tables 1 ≡ round_points round_type
round_total trick_penalty tables len p = trick_total tables len p
round_total heart_penalty tables len p = heart_total tables len p
round_total queen_penalty tables len p = queen_total tables len p
round_total king_jack_penalty tables len p = king_jack_total tables len p
round_total heart_king_penalty tables len p = heart_king_total tables len p
round_total seventh_last_trick_penalty tables len p = seventh_last_total tables len p
round_total everything tables len p = everything_total tables len p
