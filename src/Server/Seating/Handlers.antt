-- ===== src/Server/Seating/Handlers.antt =====
-- Introductions keep seats and workers together.
use kierki.Prelude.{
  ℕ, Bool, true, false, not, ◌&&◌, List, [], ◌∷◌, Option, none, some, ◌≡◌, refl, ap, ◌∙◌, arith,
  ◌==◌, ltb, lookup, inl, inr, Option-cases, ◌>>=◌, Returns, Returns-mono, Returns-elim, Returns-if,
  Returns-bind,
}
use kierki.Types.{Side, IsSeat, hand_at}
use kierki.SendJob.{SendJob, busy, deal}
use kierki.IoWorkerMgr
use kierki.IoWorkerMgr.{
  IoWorkerMgr, WorkerStatus, serving_unknown, serving_active, serving_proxy, cleanup,
  cleanup_unknown, shutdown, status_code,
}
use kierki.Server.{Server, with_mgr, send_to_side}
use kierki.Server.Round.{ask_next, deal_all}
use kierki.Server.Players.{
  deal_is_empty, send_taken, start_game, signal_roles, rejoin_game, seat_player, busy_sides,
  intro_again, refuse_player, intro_first, player_intro,
}
use kierki.Server.Seating.{IsKnown, IsSeated}
use kierki.Server.Seating.Keeping.{
  KeepsRoles, KeepsRoles-trans, set_role-KeepsRoles, set_role-IsKnown, signal_role-KeepsRoles,
  KeepsSeats, KeepsSeats-IsSeated, KeepsSeats-mgr, KeepsSeats-refl, KeepsSeats-then,
  KeepsSeats-trans, send_to_side-KeepsSeats, send_to_worker-KeepsSeats,
}
use kierki.Server.Seating.Moves.{
  KeepsAnswer, KeepsSeats-after, set_role-KeepsSeats, send_kill-KeepsSeats, ask_next-KeepsSeats,
  deal_all-KeepsSeats,
}
use kierki.Server.Seating.Comings.{seated, seated-IsSeated}

start_game-KeepsSeats : (st : Server) → Returns (KeepsSeats st) (start_game st)
unfolding start_game
start_game-KeepsSeats st =
    let t = record st { last_deal = st.hands } in
    KeepsSeats-after st t _ (refl, refl, refl, refl)
      (KeepsSeats-then t (deal_all t) ask_next (deal_all-KeepsSeats t) ask_next-KeepsSeats)

send_taken-KeepsSeats :
    (msgs : List SendJob) (ix : ℕ) (st : Server) → Returns (KeepsSeats st) (send_taken msgs ix st)
unfolding send_taken
send_taken-KeepsSeats [] ix st = KeepsSeats-refl st
send_taken-KeepsSeats (msg ∷ rest) ix st =
    KeepsSeats-then st (with_mgr (IoWorkerMgr.send_job msg ix) st) (send_taken rest ix)
      (send_to_worker-KeepsSeats msg ix st) (send_taken-KeepsSeats rest ix)

signal_roles-KeepsSeats : (st : Server) → KeepsSeats st (signal_roles st)
unfolding signal_roles
signal_roles-KeepsSeats st =
    let m1 = IoWorkerMgr.signal_role serving_active st.worker_mgr in
    let m2 = IoWorkerMgr.signal_role cleanup_unknown m1 in
    KeepsSeats-mgr st (IoWorkerMgr.signal_role serving_unknown m2) (
      KeepsRoles-trans (signal_role-KeepsRoles serving_active st.worker_mgr) (
        KeepsRoles-trans (signal_role-KeepsRoles cleanup_unknown m1)
          (signal_role-KeepsRoles serving_unknown m2)))

rejoin_game-KeepsSeats :
    (side : Side) (ix : ℕ) (st : Server) → Returns (KeepsSeats st) (rejoin_game side ix st)
unfolding rejoin_game
rejoin_game-KeepsSeats side ix st =
    KeepsSeats-then st
      (send_to_side (deal st.round_mode st.next_move (hand_at st.last_deal side)) side st) _
      (send_to_side-KeepsSeats (deal st.round_mode st.next_move (hand_at st.last_deal side)) side
        st)
      (λ st1.
        KeepsSeats-then st1 (send_taken st1.taken_in_round ix st1) _
          (send_taken-KeepsSeats st1.taken_in_round ix st1)
          (λ st2.
            Returns-if (KeepsSeats st2) (st2.players_connected == 4) (ask_next (signal_roles st2))
              (some st2)
              (λ e.
                Returns-mono (KeepsSeats (signal_roles st2)) (KeepsSeats st2)
                  (ask_next (signal_roles st2))
                  (λ u q. KeepsSeats-trans (signal_roles-KeepsSeats st2) q)
                  (ask_next-KeepsSeats (signal_roles st2)))
              (λ e. KeepsSeats-refl st2)))

abbrev pub SeatedAnswer : Server × Bool → Type 0
SeatedAnswer (t, b) = IsSeated t

-- A step that keeps the seats, from a state where they fit.
pub kept :
    (st : Server) (x : Option Server) → IsSeated st → Returns (KeepsSeats st) x → Returns IsSeated x
kept st x v h = Returns-mono (KeepsSeats st) IsSeated x (λ t k. KeepsSeats-IsSeated k v) h

pub kept_answer :
    (st : Server) (x : Option (Server × Bool))
    → IsSeated st
    → Returns (KeepsAnswer st) x
    → Returns SeatedAnswer x
kept_answer st x v h =
    Returns-mono (KeepsAnswer st) SeatedAnswer x (λ t k. KeepsSeats-IsSeated k v) h

pub answered_with :
    (x : Option Server) (b : Bool)
    → Returns IsSeated x
    → Returns SeatedAnswer (x >>= λ t. some (t, b))
answered_with none b h = tt
answered_with (some t) b h = h

seat_player-IsSeated :
    (side : Side) (ix : ℕ) (st : Server)
    → IsSeated st
    → IsSeat side
    → st.active_sides side ≡ none
    → lookup ix st.worker_mgr.roles ≡ some serving_unknown
    → Returns IsSeated (seat_player side ix st)
unfolding seat_player
seat_player-IsSeated side ix st v seat free unknown =
    elim (Option-cases (IoWorkerMgr.set_role ix serving_active st.worker_mgr)) [
      | inl e ↦ rw e tt
      | inr (m, e) ↦
          let t = seated side ix m st in
          let keeps =
            Returns-elim (KeepsRoles st.worker_mgr)
              (IoWorkerMgr.set_role ix serving_active st.worker_mgr) e
              (set_role-KeepsRoles ix serving_active st.worker_mgr refl) in
          let known =
            Returns-elim (IsKnown ix) (IoWorkerMgr.set_role ix serving_active st.worker_mgr) e
              (set_role-IsKnown ix serving_active st.worker_mgr refl) in
          let w : IsSeated t = seated-IsSeated side ix m st v seat free unknown keeps known in
          rw e (
            kept t _ w (
              Returns-if (KeepsSeats t) (t.players_connected == 4 && deal_is_empty t.last_deal)
                (start_game t) _ (λ f. start_game-KeepsSeats t)
                (λ f.
                  Returns-if (KeepsSeats t) (not (deal_is_empty t.last_deal))
                    (rejoin_game side ix t) (some t) (λ g. rejoin_game-KeepsSeats side ix t)
                    (λ g. KeepsSeats-refl t))))
    ]

intro_again-KeepsAnswer : (ix : ℕ) (st : Server) → Returns (KeepsAnswer st) (intro_again ix st)
unfolding intro_again
intro_again-KeepsAnswer ix st =
    Returns-if (KeepsAnswer st) (ltb st.players_connected 4) (some (st, false)) _
      (λ e. KeepsSeats-refl st) (λ e. again_kept)
  where
    again_kept : Returns (KeepsAnswer st) (do
      st1 ← with_mgr (IoWorkerMgr.send_kill ix) st
      st2 ← with_mgr (IoWorkerMgr.set_role ix cleanup) st1
      some (st2, true))
    again_kept = Returns-bind (KeepsAnswer st) (with_mgr (IoWorkerMgr.send_kill ix) st) _ (λ st1 e.
        Returns-bind (KeepsAnswer st) (with_mgr (IoWorkerMgr.set_role ix cleanup) st1) _ (λ st2 f.
          KeepsSeats-trans
            (Returns-elim (KeepsSeats st) (with_mgr (IoWorkerMgr.send_kill ix) st) e
              (send_kill-KeepsSeats ix st))
            (Returns-elim (KeepsSeats st1) (with_mgr (IoWorkerMgr.set_role ix cleanup) st1) f
              (set_role-KeepsSeats ix cleanup st1 refl))))

status_of_zero : (r : WorkerStatus) → (status_code r == 0) ≡ true → r ≡ serving_unknown
status_of_zero r h = ground arith

module _ (order : List Side) where
  refuse_player-KeepsSeats :
      (ix : ℕ) (st : Server) → Returns (KeepsSeats st) (refuse_player order ix st)
  unfolding refuse_player
  refuse_player-KeepsSeats ix st =
      KeepsSeats-then st (with_mgr (IoWorkerMgr.set_role ix cleanup_unknown) st) _
        (set_role-KeepsSeats ix cleanup_unknown st refl)
        (λ st1. send_to_worker-KeepsSeats (busy (busy_sides order st1.active_sides)) ix st1)

  intro_first-IsSeated :
      (seat_of : Option ℕ) (side : Side) (ix : ℕ) (st : Server)
      → st.active_sides side ≡ seat_of
      → IsSeated st
      → IsSeat side
      → lookup ix st.worker_mgr.roles ≡ some serving_unknown
      → Returns IsSeated (intro_first order seat_of side ix st)
  unfolding intro_first
  intro_first-IsSeated none side ix st free v seat unknown =
      seat_player-IsSeated side ix st v seat free unknown
  intro_first-IsSeated (some j) side ix st held v seat unknown =
      kept st (refuse_player order ix st) v (refuse_player-KeepsSeats ix st)

  pub player_intro-IsSeated :
      (side : Side) (ix : ℕ) (st : Server)
      → IsSeated st
      → IsSeat side
      → Returns SeatedAnswer (player_intro order side ix st)
  unfolding player_intro IoWorkerMgr.get_role
  player_intro-IsSeated side ix st v seat =
      Returns-bind SeatedAnswer (lookup ix st.worker_mgr.roles) _ (λ role e.
        Returns-if SeatedAnswer (not (status_code role == status_code serving_unknown))
          (intro_again ix st) _
          (λ f. kept_answer st (intro_again ix st) v (intro_again-KeepsAnswer ix st))
          (λ f.
            let unknown = e ∙ ap some (status_of_zero role (ground arith)) in
            answered_with (intro_first order (st.active_sides side) side ix st) true
              (intro_first-IsSeated (st.active_sides side) side ix st refl v seat unknown)))
