-- ===== src/Server/Seating/Comings.antt =====
-- A player who sits down, and one who leaves.
use mathlib.Core.Path.{subst}
use kierki.Prelude.{
  ℕ, suc, ◌-◌, true, Option, none, some, ◌≡◌, ◌≢◌, sym, ap, ◌∙◌, arith, ◌==◌, lookup, insert, erase,
  lookup-insert, lookup-erase, Bool-cases, inl, inr,
}
use kierki.Types.{Side, side_n, side_e, side_s, side_w, side_null, IsSeat, side_eq, update}
use kierki.IoWorkerMgr.{IoWorkerMgr, serving_unknown}
use kierki.Server.{Server}
use kierki.Server.Turns.{side_eq_sound, side_eq_self}
use kierki.Server.Seating.{occupied, IsKnown, IsSeated}
use kierki.Server.Seating.Keeping.{KeepsRoles}

occupied-update-some :
    (active : Side → Option ℕ) (s : Side) (ix : ℕ)
    → IsSeat s
    → active s ≡ none
    → occupied (update active s (some ix)) ≡ suc (occupied active)
occupied-update-some active side_n ix h e = rw e (omega arith)
occupied-update-some active side_e ix h e = rw e (omega arith)
occupied-update-some active side_s ix h e = rw e (omega arith)
occupied-update-some active side_w ix h e = rw e (omega arith)
occupied-update-some active side_null ix h e = absurd h

occupied-update-none :
    (active : Side → Option ℕ) (s : Side) (ix : ℕ)
    → IsSeat s
    → active s ≡ some ix
    → suc (occupied (update active s none)) ≡ occupied active
occupied-update-none active side_n ix h e = rw e (omega arith)
occupied-update-none active side_e ix h e = rw e (omega arith)
occupied-update-none active side_s ix h e = rw e (omega arith)
occupied-update-none active side_w ix h e = rw e (omega arith)
occupied-update-none active side_null ix h e = absurd h

-- The state after `seat_player` has given the seat away, with the manager that has set the role.
abbrev pub seated : Side → ℕ → IoWorkerMgr → Server → Server
seated side ix m st = record st {
  worker_mgr = m;
  active_sides = update st.active_sides side (some ix);
  worker_to_side = insert ix side st.worker_to_side;
  players_connected = suc st.players_connected;
}

-- A worker that nobody knows has no seat.
no_seat :
    (ix : ℕ) (s : Side) (st : Server)
    → IsSeated st
    → lookup ix st.worker_mgr.roles ≡ some serving_unknown
    → lookup ix st.worker_to_side ≢ some s
no_seat ix s st v unknown e =
    let (seat, active, (r, there, known)) = v.worker_seat ix s e in
    let same : some serving_unknown ≡ some r = sym unknown ∙ there in ground (arith, same, known)

module _ (side : Side) (ix : ℕ) (m : IoWorkerMgr) (st : Server) (v : IsSeated st)
    (seat : IsSeat side) (free : st.active_sides side ≡ none)
    (unknown : lookup ix st.worker_mgr.roles ≡ some serving_unknown)
    (keeps : KeepsRoles st.worker_mgr m) (known : IsKnown ix m) where
  seated_worker :
      (s : Side) (j : ℕ)
      → IsSeat s
      → update st.active_sides side (some ix) s ≡ some j
      → lookup j (insert ix side st.worker_to_side) ≡ some s
  seated_worker s j h e = elim (Bool-cases (side_eq side s)) [
    | inl same ↦
        let e' : some ix ≡ some j = rw same at e in
        let one : side ≡ s = side_eq_sound side s same in
        let here : (ix == j) ≡ true = ground arith in
        rw (lookup-insert ix j side st.worker_to_side, here) (ap some one)
    | inr other ↦
        let e' : st.active_sides s ≡ some j = rw other at e in
        let before = v.seat_worker s j h e' in
        elim (Bool-cases (ix == j)) [
          | inl same ↦
              let one : ix ≡ j = ground arith in absurd (no_seat ix s st v unknown (rw one before))
          | inr away ↦ rw (lookup-insert ix j side st.worker_to_side, away) before
        ]
  ]

  worker_seated :
      (j : ℕ) (s : Side)
      → lookup j (insert ix side st.worker_to_side) ≡ some s
      → IsSeat s × (update st.active_sides side (some ix) s ≡ some j) × IsKnown j m
  worker_seated j s e = elim (Bool-cases (ix == j)) [
    | inl same ↦
        let one : ix ≡ j = ground arith in
        let e' : some side ≡ some s = rw (lookup-insert ix j side st.worker_to_side, same) at e in
        let side_s : side ≡ s = ground arith in
        (
          subst IsSeat side_s seat,
          rw (← side_s, side_eq_self side) (ap some one),
          subst (λ i. IsKnown i m) one known,
        )
    | inr away ↦
        let e' : lookup j st.worker_to_side ≡ some s =
          rw (lookup-insert ix j side st.worker_to_side, away) at e in
        let (h, active, k) = v.worker_seat j s e' in
        elim (Bool-cases (side_eq side s)) [
          | inl same ↦
              let one : side ≡ s = side_eq_sound side s same in
              let both : none ≡ some j = sym free ∙ ap st.active_sides one ∙ active in cc
          | inr other ↦ (h, rw other active, keeps.still_known j k)
        ]
  ]

  pub seated-IsSeated : IsSeated (seated side ix m st)
  seated-IsSeated = record {
    seat_worker = seated_worker;
    worker_seat = worker_seated;
    counted = ap suc v.counted ∙ sym (occupied-update-some st.active_sides side ix seat free);
    numbered = λ j h. rw keeps.same_next (v.numbered j (sym (keeps.same_keys j) ∙ h));
  }

-- The state after `leave_seat` has freed the seat.
abbrev pub vacated : Side → ℕ → Server → Server
vacated s ix st = record st {
  players_connected = st.players_connected - 1;
  active_sides = update st.active_sides s none;
  zombie_worker_to_side = insert ix s st.zombie_worker_to_side;
  worker_to_side = erase ix st.worker_to_side;
}

module _ (side : Side) (ix : ℕ) (st : Server) (v : IsSeated st)
    (there : lookup ix st.worker_to_side ≡ some side) where
  vacated_worker :
      (s : Side) (j : ℕ)
      → IsSeat s
      → update st.active_sides side none s ≡ some j
      → lookup j (erase ix st.worker_to_side) ≡ some s
  vacated_worker s j h e = elim (Bool-cases (side_eq side s)) [
    | inl same ↦ let e' : none ≡ some j = rw same at e in cc
    | inr other ↦
        let e' : st.active_sides s ≡ some j = rw other at e in
        let before = v.seat_worker s j h e' in
        elim (Bool-cases (ix == j)) [
          | inl same ↦
              let one : ix ≡ j = ground arith in
              let both : some side ≡ some s =
                sym there ∙ ap (λ i. lookup i st.worker_to_side) one ∙ before in
              let one_side : side ≡ s = ground arith in
              let self : side_eq side s ≡ true = rw (← one_side) (side_eq_self side) in cc
          | inr away ↦ rw (lookup-erase ix j st.worker_to_side, away) before
        ]
  ]

  worker_vacated :
      (j : ℕ) (s : Side)
      → lookup j (erase ix st.worker_to_side) ≡ some s
      → IsSeat s × (update st.active_sides side none s ≡ some j) × IsKnown j st.worker_mgr
  worker_vacated j s e = elim (Bool-cases (ix == j)) [
    | inl same ↦ let e' : none ≡ some s = rw (lookup-erase ix j st.worker_to_side, same) at e in cc
    | inr away ↦
        let e' : lookup j st.worker_to_side ≡ some s =
          rw (lookup-erase ix j st.worker_to_side, away) at e in
        let (h, active, k) = v.worker_seat j s e' in
        elim (Bool-cases (side_eq side s)) [
          | inl same ↦
              let one : side ≡ s = side_eq_sound side s same in
              let (h', active', k') = v.worker_seat ix side there in
              let both : some ix ≡ some j = sym active' ∙ ap st.active_sides one ∙ active in
              let here : (ix == j) ≡ true = ground arith in cc
          | inr other ↦ (h, rw other active, k)
        ]
  ]

  pub vacated-IsSeated : IsSeated (vacated side ix st)
  vacated-IsSeated =
      let (h, active, k) = v.worker_seat ix side there in
      record {
        seat_worker = vacated_worker;
        worker_seat = worker_vacated;
        counted = omega (arith, v.counted, occupied-update-none st.active_sides side ix h active);
        numbered = v.numbered;
      }
