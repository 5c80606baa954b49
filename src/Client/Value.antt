-- ===== src/Client/Value.antt =====
-- The value that the client returns, and the messages that it has read.
use kierki.Prelude.{
  ℕ, Bool, true, false, List, [], ◌∷◌, Option, none, some, if◌then◌else◌, Bytes, All, ◌≡◌, refl, ap,
  arith, ◌∙◌, Returns, Returns-bind, Returns-elim,
}
use kierki.Types.{Side}
use kierki.Card.Laws.{IsCard}
use kierki.SendJob.{SendJob, busy, deal, intro, score, taken, total, trick, wrong, gen_msg}
use kierki.MsgParser.RoundTrip.{IsToClient}
use kierki.IoWorkerHandler.{peer_closed}
use kierki.IoWorker.Loop.Sending.{all_bytes}
use kierki.Client.Dispatch.{GameStage, pre, after_a_deal, PlayerCall}
use kierki.Client.Delivery.{cards_of, call_of}
use kierki.Client.Answer.{having_read, read_sock-gen_msg}
use kierki.Client.Session.{read_on-alive}
use kierki.Client.Pieces.{in_pieces, joined, run_loop-in_pieces, run_loop-behind, behind}
use kierki.Client.Turns.{Calls, IsDetached}
use kierki.Client.Run.{
  ClientEnd, Session, Player, client_end, send_message, not_total, read_sock, make_call, after_sock,
  sock_ready, run_loop, run,
}

-- The value that stands behind the messages of a game: 0 behind the total scores, 1 behind a deal, a
-- trick or the scores of a round, and what it was behind a taken trick or a refusal.
abbrev pub value_after : ℕ → List SendJob → ℕ
value_after v [] = v
value_after v (total scores ∷ jobs) = value_after 0 jobs
value_after v (deal round_type starting cards ∷ jobs) = value_after 1 jobs
value_after v (score scores ∷ jobs) = value_after 1 jobs
value_after v (trick table trick_no ∷ jobs) = value_after 1 jobs
value_after v (taken table s trick_no ∷ jobs) = value_after v jobs
value_after v (wrong trick_no ∷ jobs) = value_after v jobs
value_after v (busy sides ∷ jobs) = value_after v jobs
value_after v (intro s ∷ jobs) = value_after v jobs

-- A message that the server sends to a client that it does not turn away.
abbrev pub IsGameMsg : SendJob → Type 0
IsGameMsg (busy sides) = ⊥
IsGameMsg job = IsToClient job × All IsCard (cards_of job)

module _ {π : Type 0} (player : Player π) (d : IsDetached player) where
  -- The client goes on, no line is begun, and it would return this value at the connection's end.
  record Stands (v : ℕ) (s : Session π) : Type 0 where
    alive : s.client.state.terminate ≡ false
    no_line : s.next_msg ≡ []
    value : not_total s.client.state.stage ≡ v

  make_call-Stands :
      (call : Option PlayerCall) (v : ℕ) (s : Session π)
      → Stands v s
      → Returns (Stands v) (make_call player call s)
  unfolding make_call
  make_call-Stands none v s h = h
  make_call-Stands (some call) v s h =
      Returns-bind (Stands v) (player.on_call call s.player s.client) _ (λ r e.
        let (stage, flag, ends) =
          Returns-elim (Calls s.client) (player.on_call call s.player s.client) e
            (d.on_call_end call s.player s.client) in
        record {
          alive = ends ∙ h.alive;
          no_line = h.no_line;
          value = ap not_total stage ∙ h.value;
        })

  deal_value : (g : GameStage) → not_total (after_a_deal g) ≡ 1
  deal_value pre = refl
  deal_value _ = refl

  having_read-Stands :
      (job : SendJob) (v : ℕ) (s : Session π)
      → IsGameMsg job
      → Stands v s
      → Stands (value_after v (job ∷ [])) (having_read job s)
  having_read-Stands (busy sides) v s g h = absurd g
  having_read-Stands (intro side) v s (g, c) h = absurd g
  having_read-Stands (deal round_type starting cards) v s g h = record {
    alive = h.alive;
    no_line = h.no_line;
    value = deal_value s.client.state.stage;
  }
  having_read-Stands (score scores) v s g h = record {
    alive = h.alive;
    no_line = h.no_line;
    value = refl;
  }
  having_read-Stands (total scores) v s g h = record {
    alive = h.alive;
    no_line = h.no_line;
    value = refl;
  }
  having_read-Stands (trick table n) v s g h = record {
    alive = h.alive;
    no_line = h.no_line;
    value = refl;
  }
  having_read-Stands (taken table side n) v s g h = record {
    alive = h.alive;
    no_line = h.no_line;
    value = h.value;
  }
  having_read-Stands (wrong n) v s g h = record {
    alive = h.alive;
    no_line = h.no_line;
    value = h.value;
  }

  value_after-step :
      (job : SendJob) (jobs : List SendJob) (v : ℕ)
      → value_after (value_after v (job ∷ [])) jobs ≡ value_after v (job ∷ jobs)
  value_after-step (busy sides) jobs v = refl
  value_after-step (intro side) jobs v = refl
  value_after-step (deal round_type starting cards) jobs v = refl
  value_after-step (score scores) jobs v = refl
  value_after-step (total scores) jobs v = refl
  value_after-step (trick table n) jobs v = refl
  value_after-step (taken table side n) jobs v = refl
  value_after-step (wrong n) jobs v = refl

  game_msg : (job : SendJob) → IsGameMsg job → IsToClient job × All IsCard (cards_of job)
  game_msg (busy sides) g = absurd g
  game_msg (intro side) g = g
  game_msg (deal round_type starting cards) g = g
  game_msg (score scores) g = g
  game_msg (total scores) g = g
  game_msg (trick table n) g = g
  game_msg (taken table side n) g = g
  game_msg (wrong n) g = g

  -- The whole of the bytes is read, and the client stands as the messages say.
  abbrev HasRead : ℕ → Session π × Bool × Bytes → Type 0
  HasRead v (t, ended, left) = (ended ≡ false) × Stands v t

  read_sock-HasRead :
      (jobs : List SendJob) (v : ℕ) (s : Session π)
      → All IsGameMsg jobs
      → Stands v s
      → Returns (HasRead (value_after v jobs)) (read_sock player (all_bytes jobs) s)
  unfolding read_sock
  read_sock-HasRead [] v s g h = (refl, h)
  read_sock-HasRead (job ∷ jobs) v s (g, gs) h =
      let (to_client, cards) = game_msg job g in
      let u = having_read job s in
      let w = value_after v (job ∷ []) in
      let call = call_of job s.client.state.stage in
      let at_call = make_call-Stands call w u (having_read-Stands job v s g h) in
      rw (read_sock-gen_msg player job (all_bytes jobs) s to_client cards h.alive h.no_line) (
        Returns-bind (HasRead (value_after v (job ∷ jobs))) (make_call player call u) _ (λ t e.
          let stands = Returns-elim (Stands w) (make_call player call u) e at_call in
          rw (read_on-alive player (all_bytes jobs) t stands.alive, ← value_after-step job jobs v)
            (read_sock-HasRead jobs w t gs stands)))

  abbrev Gives : ℕ → Session π × Option ℕ → Type 0
  Gives v (t, value) = value ≡ some v

  at_end-Gives :
      (v : ℕ) (r : Session π × Bool × Bytes)
      → HasRead v r
      → Returns (Gives v) (behind player peer_closed [] r)
  unfolding after_sock run_loop
  at_end-Gives v (t, false, left) (going, stands) = ap some stands.value
  at_end-Gives v (t, true, left) (going, stands) = absurd (ground arith)

  run_loop-Gives :
      (jobs : List SendJob) (v : ℕ) (s : Session π)
      → All IsGameMsg jobs
      → Stands v s
      → Returns
          (Gives (value_after v jobs))
          (run_loop player (sock_ready (all_bytes jobs) peer_closed ∷ []) s)
  run_loop-Gives jobs v s g h =
      rw (run_loop-behind player (all_bytes jobs) peer_closed [] s h.alive) (
        Returns-bind (Gives (value_after v jobs)) (read_sock player (all_bytes jobs) s) _ (λ r e.
          at_end-Gives (value_after v jobs) r (
            Returns-elim (HasRead (value_after v jobs)) (read_sock player (all_bytes jobs) s) e
              (read_sock-HasRead jobs v s g h))))

-- When the bytes of messages that the server may send a client, none of them BUSY and with cards of
-- the table of values, and behind them the end of the connection, come in any pieces, then a run of
-- the client that no exception ends returns a value: 0 if the last of the deals, tricks, scores and
-- totals among the messages were total scores, and 1 if they were not or there were none. The
-- player's calls do not write to what belongs to `run`.
pub run-value_after :
    {π : Type 0} (takes : Bytes → Bytes → Bool) (player : Player π) (side : Side)
    (jobs : List SendJob) (pieces : List Bytes) (last : Bytes) (p : π) (s : Session π)
    (value : Option ℕ)
    → IsDetached player
    → All IsGameMsg jobs
    → joined pieces last ≡ all_bytes jobs
    → run takes player side (in_pieces pieces last peer_closed []) p ≡ some (s, value)
    → value ≡ some (value_after 1 jobs)
unfolding run client_end send_message
run-value_after {π = π} takes player side jobs pieces last p s value d g whole e =
    Returns-elim (Gives player d (value_after 1 jobs)) _ e
      (by_sent (takes [] (gen_msg (intro side))))
  where
    sent_all :
        (t : Session π)
        → Stands player d 1 t
        → Returns
            (Gives player d (value_after 1 jobs))
            (run_loop player (in_pieces pieces last peer_closed []) t)
    sent_all t h =
        rw (run_loop-in_pieces player pieces last peer_closed [] t h.alive, whole)
          (run_loop-Gives player d jobs 1 t g h)

    by_sent :
        (b : Bool)
        → Returns (Gives player d (value_after 1 jobs)) (
            let r : ClientEnd × Bool =
              if b
              then (record client_end { sent = gen_msg (intro side) }, true)
              else (client_end, false) in
            if r.1
            then run_loop player
                (in_pieces pieces last peer_closed [])
                (record { player = p; client = r.0; next_cmd = []; next_msg = [] })
            else none)
    by_sent true = sent_all _ (record { alive = refl; no_line = refl; value = refl })
    by_sent false = tt
