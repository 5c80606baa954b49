-- ===== src/Server/Turns.antt =====
-- How many turns ago a side has moved, by the side that moves next.
use kierki.Prelude.{ℕ, suc, ◌+◌, ◌-◌, ◌%◌, ◌≤◌, true, false, some, ◌≡◌, refl, arith}
use kierki.Types.{Side, IsSeat, side_eq, nxt_side, side_n, side_e, side_s, side_w, side_null}

abbrev pub seat_no : Side → ℕ
seat_no side_n = 0
seat_no side_e = 1
seat_no side_s = 2
seat_no side_w = 3
seat_no side_null = 0

-- 1 for the side before `next`, and 4 for `next` itself.
unfoldable pub turns_since : Side → Side → ℕ
turns_since next s = (seat_no next + 3 - seat_no s) % 4 + 1

pub turns_since_range : (next s : Side) → (1 ≤ turns_since next s) × (turns_since next s ≤ 4)
unfolding turns_since
turns_since_range next s = omega arith

pub side_eq_sound : (a b : Side) → side_eq a b ≡ true → a ≡ b
side_eq_sound a b h = ground arith

pub side_eq_self : (a : Side) → side_eq a a ≡ true
side_eq_self a = ground arith

pub turns_since_self : (s : Side) → turns_since s s ≡ 4
unfolding turns_since
turns_since_self side_n = refl
turns_since_self side_e = refl
turns_since_self side_s = refl
turns_since_self side_w = refl
turns_since_self side_null = refl

pub turns_since_moved : (s next : Side) → nxt_side s ≡ some next → turns_since next s ≡ 1
unfolding nxt_side turns_since
turns_since_moved s next h = ground arith

pub turns_since_other :
    (s next other : Side)
    → nxt_side s ≡ some next
    → IsSeat other
    → side_eq s other ≡ false
    → turns_since next other ≡ suc (turns_since s other)
unfolding nxt_side turns_since
turns_since_other s next other h o e = ground arith

pub nxt_side-IsSeat : (s : Side) → IsSeat s → (t : Side) × (nxt_side s ≡ some t) × IsSeat t
unfolding nxt_side
nxt_side-IsSeat side_n h = (side_e, refl, tt)
nxt_side-IsSeat side_e h = (side_s, refl, tt)
nxt_side-IsSeat side_s h = (side_w, refl, tt)
nxt_side-IsSeat side_w h = (side_n, refl, tt)
nxt_side-IsSeat side_null h = absurd h
