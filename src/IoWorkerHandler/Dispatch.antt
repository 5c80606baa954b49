-- ===== src/IoWorkerHandler/Dispatch.antt =====
-- What a line makes the worker do: from the bytes in the socket to the call of the game.
use kierki.Prelude.{ℕ, [], ◌∷◌, some, ◌>>=◌, ◌≡◌}
use kierki.Types.{Side, side_n, side_e, side_s, side_w, side_null, Card, IsSeat}
use kierki.Card.Laws.{IsCard, from_string-to_string}
use kierki.Text.Decimal.{atoi-decimal}
use kierki.SendJob.{trick, intro, body}
use kierki.MsgParser.Cutting.{IsPackCard}
use kierki.MsgParser.RoundTrip.{IsTrickNo, parse_net_msg-to_server}
use kierki.IoWorkerHandler.{
  Callbacks, popped, kept, verdict_of, on_intro, on_trick, on_parsed, on_line,
}

module _ {σ : Type 0} (callbacks : Callbacks σ) where
  -- The line of a move with a trick number from 1 to 13 and a card of the pack calls the game with
  -- exactly that number and that card, and the line is done with if the game says so.
  pub on_line-trick :
      (n : ℕ) (c : Card) (st : σ)
      → IsTrickNo n
      → IsPackCard c
      → IsCard c
      → on_line callbacks (body (trick (c ∷ []) n)) st
        ≡ (callbacks.trick_cb n c st >>= λ r. some (r.0, verdict_of popped kept r.1))
  unfolding on_line on_parsed on_trick
  on_line-trick n c st hn pack card = rw (
    parse_net_msg-to_server (trick (c ∷ []) n) (pack, hn),
    from_string-to_string c card,
    atoi-decimal n,
  )

  -- The line of an introduction calls the game with exactly the seat of the client.
  pub on_line-intro :
      (s : Side) (st : σ)
      → IsSeat s
      → on_line callbacks (body (intro s)) st
        ≡ (callbacks.intro_cb s st >>= λ r. some (r.0, verdict_of popped kept r.1))
  unfolding on_line on_parsed on_intro
  on_line-intro side_n st h = rw (parse_net_msg-to_server (intro side_n) h)
  on_line-intro side_e st h = rw (parse_net_msg-to_server (intro side_e) h)
  on_line-intro side_s st h = rw (parse_net_msg-to_server (intro side_s) h)
  on_line-intro side_w st h = rw (parse_net_msg-to_server (intro side_w) h)
  on_line-intro side_null st h = absurd h
