-- ===== src/Client/ExitCode.antt =====
-- The value that the client returns.
use kierki.Prelude.{
  ℕ, Bool, true, false, List, [], ◌∷◌, Option, none, some, ◌>>=◌, if◌then◌else◌, Bytes, ◌≡◌, refl,
  sym, ◌∙◌, inl, inr, arith, Returns, Returns-bind, Returns-elim, Returns-if,
}
use kierki.Types.{Side, Card}
use kierki.SendJob.{intro, gen_msg}
use kierki.Client.Dispatch.{
  GameStage, pre, after_first_deal, after_deal, after_trick, after_score, after_total, PlayerCall,
  deal_call, trick_call, taken_call, score_call, wrong_call, busy_call,
}
use kierki.Client.PlayerAuto
use kierki.Client.PlayerAuto.{PlayerAuto}
use kierki.Client.Run.{
  ClientEnd, Session, Player, Polled, not_total, client_end, send_message, choose_card, put,
  auto_call, auto_player, step, run_loop, run,
}
use kierki.Client.Turns.{SameEnd, Calls, IsDetached, HasValue, step-HasValue}

abbrev EndsWell : {π : Type 0} → Session π × Option ℕ → Type 0
EndsWell (s, value) = value ≡ some 0 → s.client.state.stage ≡ after_total

module _ {π : Type 0} (player : Player π) (d : IsDetached player) where
  value_at_end :
      (s : Session π)
      → HasValue s
      → s.client.state.terminate ≡ true
      → s.client.state.exit_flag ≡ 0
      → s.client.state.stage ≡ after_total
  value_at_end s (inl (inl a)) ended zero_flag = absurd (ground (arith, a, ended))
  value_at_end s (inl (inr a)) ended zero_flag = absurd (omega (arith, a, zero_flag))
  value_at_end s (inr a) ended zero_flag = only_total s.client.state.stage (sym a ∙ zero_flag)
    where
      only_total : (g : GameStage) → not_total g ≡ 0 → g ≡ after_total
      only_total pre e = absurd (omega (arith, e))
      only_total after_first_deal e = absurd (omega (arith, e))
      only_total after_deal e = absurd (omega (arith, e))
      only_total after_trick e = absurd (omega (arith, e))
      only_total after_score e = absurd (omega (arith, e))
      only_total after_total e = refl

  run_loop-EndsWell :
      (polled : List Polled) (s : Session π)
      → HasValue s
      → Returns EndsWell (run_loop player polled s)
  unfolding run_loop
  run_loop-EndsWell [] s h = by_flag s.client.state.terminate refl
    where
      by_flag :
          (b : Bool)
          → s.client.state.terminate ≡ b
          → (if b then some s.client.state.exit_flag else none) ≡ some 0
          → s.client.state.stage ≡ after_total
      by_flag true e q = value_at_end s h e (cc)
      by_flag false e q = cc
  run_loop-EndsWell (p ∷ rest) s h = by_flag (run_loop-EndsWell rest) s.client.state.terminate refl
    where
      by_flag :
          ((t : Session π) → HasValue t → Returns EndsWell (run_loop player rest t))
          → (b : Bool) → s.client.state.terminate ≡ b
          → Returns EndsWell (elim b [
            | true ↦ some (s, some s.client.state.exit_flag)
            | false ↦ (step player p s) >>= λ t. run_loop player rest t
          ])
      by_flag more true e = λ q. value_at_end s h e (cc)
      by_flag more false e =
          Returns-bind EndsWell (step player p s) _ (λ t f.
            more t (Returns-elim HasValue (step player p s) f (step-HasValue player d p s e)))

choose_card-SameEnd :
    (takes : Bytes → Bytes → Bool) (card : Card) (e : ClientEnd)
    → SameEnd e (choose_card takes card e).0
unfolding choose_card send_message
choose_card-SameEnd takes card e = ground arith

put-SameEnd :
    (takes : Bytes → Bytes → Bool) (card : Option Card) (e : ClientEnd)
    → Returns (SameEnd e) (put takes card e)
unfolding put
put-SameEnd takes none e = (refl, refl, refl)
put-SameEnd takes (some card) e =
    let r = choose_card takes card e in
    Returns-if (SameEnd e) r.1 (some r.0) none (λ f. choose_card-SameEnd takes card e) (λ f. tt)

auto_call-Calls :
    (takes : Bytes → Bytes → Bool) (call : PlayerCall) (p : PlayerAuto) (e : ClientEnd)
    → Returns (Calls e) (auto_call takes call p e)
unfolding auto_call
auto_call-Calls takes (deal_call mode hand starting) p e = (refl, refl, refl)
auto_call-Calls takes (trick_call n table) p e =
    Returns-bind (Calls e) (PlayerAuto.trick_msg n table p) _ (λ r f.
      Returns-bind (Calls e) (put takes r.1 e) _
        (λ e' g. Returns-elim (SameEnd e) (put takes r.1 e) g (put-SameEnd takes r.1 e)))
auto_call-Calls takes (taken_call side cards n apply) p e = (refl, refl, refl)
auto_call-Calls takes (score_call scores total) p e = (refl, refl, refl)
auto_call-Calls takes (wrong_call n) p e = (refl, refl, refl)
auto_call-Calls takes (busy_call taken) p e = (refl, refl, refl)

pub auto_player-IsDetached : (takes : Bytes → Bytes → Bool) → IsDetached (auto_player takes)
unfolding auto_player
auto_player-IsDetached takes = record {
  on_call_end = λ call p e. auto_call-Calls takes call p e;
  any_cmd_end = λ cmd p e. (refl, refl, refl);
}

run-EndsWell :
    {π : Type 0} (takes : Bytes → Bytes → Bool) (player : Player π) (side : Side)
    (polled : List Polled) (p : π)
    → IsDetached player
    → Returns EndsWell (run takes player side polled p)
unfolding run client_end send_message
run-EndsWell takes player side polled p d = by_sent (takes [] (gen_msg (intro side)))
  where
    by_sent :
        (b : Bool)
        → Returns EndsWell (
            let r : ClientEnd × Bool =
              if b
              then (record client_end { sent = gen_msg (intro side) }, true)
              else (client_end, false) in
            if r.1
            then run_loop player polled
                (record { player = p; client = r.0; next_cmd = []; next_msg = [] })
            else none)
    by_sent true = run_loop-EndsWell player d polled _ (inl (inl refl))
    by_sent false = tt

-- If `run` comes to its end with 0, whatever it polled and read, then its stage is the one behind
-- the totals. The player's calls do not write to what belongs to `run`.
run-after_total :
    {π : Type 0} (takes : Bytes → Bytes → Bool) (player : Player π) (side : Side)
    (polled : List Polled) (p : π) (s : Session π)
    → IsDetached player
    → run takes player side polled p ≡ some (s, some 0)
    → s.client.state.stage ≡ after_total
run-after_total takes player side polled p s d e =
    Returns-elim EndsWell (run takes player side polled p) e
      (run-EndsWell takes player side polled p d) refl
