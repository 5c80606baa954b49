-- ===== src/Client/Turns.antt =====
-- What one round of the loop of `run` leaves of the client's value.
use kierki.Prelude.{
  ℕ, Bool, true, false, [], ◌∷◌, ◌++◌, Option, none, some, Bytes, ◌==◌, ◌≡◌, refl, ◌∙◌, ◌⊎◌, inl,
  inr, Returns, Returns-bind, Returns-elim, Returns-if,
}
use kierki.IoWorkerHandler.{RecvEnd, silent_err, would_block, other_err, peer_closed}
use kierki.Client.Dispatch.{PlayerCall, on_server_line}
use kierki.Client.Run.{
  ClientEnd, Session, Player, Polled, poll_error, input_gone, sock_gone, no_event, input_ready,
  sock_ready, not_total, take_input, read_input, make_call, take_line, take_msg, read_sock, cut_end,
  after_sock, on_sock, after_input, step,
}
use kierki.Client.LineStages.{RunsOn, on_server_line-RunsOn}

-- A player's calls leave the end of the client alone.
abbrev pub SameEnd : ClientEnd → ClientEnd → Type 0
SameEnd e e' =
    (e'.state.stage ≡ e.state.stage)
    × (e'.state.exit_flag ≡ e.state.exit_flag)
    × (e'.state.terminate ≡ e.state.terminate)

abbrev pub Calls : {π : Type 0} → ClientEnd → π × ClientEnd → Type 0
Calls e (p, e') = SameEnd e e'

pub record IsDetached {π : Type 0} (player : Player π) : Type 0 where
  pub on_call_end :
      (call : PlayerCall) (p : π) (e : ClientEnd) → Returns (Calls e) (player.on_call call p e)
  pub any_cmd_end :
      (cmd : Bytes) (p : π) (e : ClientEnd) → Returns (Calls e) (player.any_cmd cmd p e)

-- The client goes on, or it was told that the place is busy.
abbrev pub GoesOn : ClientEnd → Type 0
GoesOn e = (e.state.terminate ≡ false) ⊎ (e.state.exit_flag ≡ 1)

-- If the client has ended, its value fits its stage.
abbrev pub HasValue : {π : Type 0} → Session π → Type 0
HasValue s = GoesOn s.client ⊎ (s.client.state.exit_flag ≡ not_total s.client.state.stage)

same-GoesOn : (e e' : ClientEnd) → SameEnd e e' → GoesOn e → GoesOn e'
same-GoesOn e e' (stage, flag, ends) g = elim g [ inl a ↦ inl (ends ∙ a) | inr a ↦ inr (flag ∙ a) ]

module _ {π : Type 0} (player : Player π) (d : IsDetached player) where
  make_call-GoesOn :
      (call : Option PlayerCall) (s : Session π)
      → GoesOn s.client
      → Returns (λ t. GoesOn t.client) (make_call player call s)
  unfolding make_call
  make_call-GoesOn none s g = g
  make_call-GoesOn (some call) s g =
      Returns-bind (λ (t : Session π). GoesOn t.client) (player.on_call call s.player s.client) _
        (λ r e.
          same-GoesOn s.client r.1
            (Returns-elim (Calls s.client) (player.on_call call s.player s.client) e
              (d.on_call_end call s.player s.client))
            g)

  take_line-GoesOn :
      (line : Bytes) (s : Session π)
      → s.client.state.terminate ≡ false
      → Returns (λ t. GoesOn t.client) (take_line player line s)
  unfolding take_line
  take_line-GoesOn line s alive =
      Returns-bind (λ (t : Session π). GoesOn t.client) (on_server_line line s.client.state) _
        (λ r e.
          make_call-GoesOn r.1 (record s { client = record s.client { state = r.0 } })
            (elim (Returns-elim (RunsOn s.client.state) (on_server_line line s.client.state) e
              (on_server_line-RunsOn line s.client.state)) [
                | inl a ↦ inl (a ∙ alive)
                | inr a ↦ inr a
              ]))

  take_msg-GoesOn :
      (c : ℕ) (s : Session π)
      → s.client.state.terminate ≡ false
      → Returns (λ t. GoesOn t.client) (take_msg player c s)
  unfolding take_msg
  take_msg-GoesOn c s alive =
      Returns-if (λ (t : Session π). GoesOn t.client) (c == b'\n') _ _
        (λ e.
          take_line-GoesOn (cut_end player (s.next_msg ++ c ∷ [])) (record s { next_msg = [] })
            alive)
        (λ e. inl alive)

  read_sock-GoesOn :
      (bytes : Bytes) (s : Session π)
      → s.client.state.terminate ≡ false
      → Returns (λ r. GoesOn r.0.client) (read_sock player bytes s)
  unfolding read_sock
  read_sock-GoesOn [] s alive = inl alive
  read_sock-GoesOn (c ∷ cs) s alive =
      Returns-bind (λ (r : Session π × Bool × Bytes). GoesOn r.0.client) (take_msg player c s) _
        (λ t e.
          read_on t
            (Returns-elim (λ u. GoesOn u.client) (take_msg player c s) e
              (take_msg-GoesOn c s alive))
            (read_sock-GoesOn cs t))
    where
      read_on :
          (t : Session π)
          → GoesOn t.client
          → (t.client.state.terminate ≡ false
              → Returns (λ r. GoesOn r.0.client) (read_sock player cs t))
          → Returns
              (λ r. GoesOn r.0.client)
              (elim t.client.state.terminate [
                | true ↦ some (t, true, cs)
                | false ↦ read_sock player cs t
              ])
      read_on t g more = by_flag t.client.state.terminate refl
        where
          by_flag :
              (b : Bool)
              → t.client.state.terminate ≡ b
              → Returns
                  (λ r. GoesOn r.0.client)
                  (elim b [ true ↦ some (t, true, cs) | false ↦ read_sock player cs t ])
          by_flag true e = g
          by_flag false e = more e

  after_sock-HasValue :
      (stop : RecvEnd) (s : Session π)
      → GoesOn s.client
      → Returns HasValue (after_sock player stop s)
  unfolding after_sock
  after_sock-HasValue silent_err s g = tt
  after_sock-HasValue would_block s g = inl g
  after_sock-HasValue other_err s g = tt
  after_sock-HasValue peer_closed s g = inr refl

  on_sock-HasValue :
      (incoming : Bytes) (stop : RecvEnd) (s : Session π)
      → s.client.state.terminate ≡ false
      → Returns (λ r. HasValue r.0) (on_sock player incoming stop s)
  unfolding on_sock
  on_sock-HasValue incoming stop s alive =
      Returns-bind (λ (r : Session π × Bytes). HasValue r.0) (read_sock player incoming s) _
        (λ r e.
          let g =
            Returns-elim (λ q. GoesOn q.0.client) (read_sock player incoming s) e
              (read_sock-GoesOn incoming s alive) in
          Returns-if (λ (q : Session π × Bytes). HasValue q.0) r.1 (some (r.0, r.2)) _ (λ f. inl g)
            (λ f.
              Returns-bind (λ (q : Session π × Bytes). HasValue q.0) (after_sock player stop r.0) _
                (λ t h.
                  Returns-elim HasValue (after_sock player stop r.0) h
                    (after_sock-HasValue stop r.0 g))))

  take_input-GoesOn :
      (c : ℕ) (s : Session π)
      → GoesOn s.client
      → Returns (λ t. GoesOn t.client) (take_input player c s)
  unfolding take_input
  take_input-GoesOn c s g =
      Returns-if (λ (t : Session π). GoesOn t.client) (c == b'\n') _ _
        (λ e.
          Returns-bind (λ (t : Session π). GoesOn t.client)
            (player.any_cmd s.next_cmd s.player s.client) _
            (λ r f.
              same-GoesOn s.client r.1
                (Returns-elim (Calls s.client) (player.any_cmd s.next_cmd s.player s.client) f
                  (d.any_cmd_end s.next_cmd s.player s.client))
                g))
        (λ e. g)

  read_input-GoesOn :
      (bytes : Bytes) (s : Session π)
      → GoesOn s.client
      → Returns (λ t. GoesOn t.client) (read_input player bytes s)
  unfolding read_input
  read_input-GoesOn [] s g = g
  read_input-GoesOn (c ∷ cs) s g =
      Returns-bind (λ (t : Session π). GoesOn t.client) (take_input player c s) _
        (λ t e.
          read_input-GoesOn cs t (
            Returns-elim (λ u. GoesOn u.client) (take_input player c s) e
              (take_input-GoesOn c s g)))

  after_input-HasValue :
      (stop : RecvEnd) (s : Session π)
      → GoesOn s.client
      → Returns HasValue (after_input player stop s)
  unfolding after_input
  after_input-HasValue silent_err s g = tt
  after_input-HasValue would_block s g = inl g
  after_input-HasValue other_err s g = tt
  after_input-HasValue peer_closed s g = inl g

  pub step-HasValue :
      (polled : Polled) (s : Session π)
      → s.client.state.terminate ≡ false
      → Returns HasValue (step player polled s)
  unfolding step
  step-HasValue poll_error s alive = tt
  step-HasValue input_gone s alive = tt
  step-HasValue sock_gone s alive = tt
  step-HasValue no_event s alive = inl (inl alive)
  step-HasValue (input_ready incoming stop) s alive =
      Returns-bind HasValue (read_input player incoming s) _ (λ t e. after_input-HasValue stop t (
        Returns-elim (λ u. GoesOn u.client) (read_input player incoming s) e
          (read_input-GoesOn incoming s (inl alive))))
  step-HasValue (sock_ready incoming stop) s alive =
      Returns-bind HasValue (on_sock player incoming stop s) _ (λ r e.
        Returns-elim (λ q. HasValue q.0) (on_sock player incoming stop s) e
          (on_sock-HasValue incoming stop s alive))
