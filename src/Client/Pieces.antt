-- ===== src/Client/Pieces.antt =====
-- The loop of the client's `run` over bytes that arrive in pieces.
use kierki.Prelude.{
  Bool, true, false, List, [], ◌∷◌, ◌++◌, Option, none, some, ◌>>=◌, if◌then◌else◌, Bytes, ◌≡◌,
  refl, sym, ap, ◌∙◌, ℕ, Returns, Returns-bind,
}
use kierki.IoWorkerHandler.{RecvEnd, would_block}
use kierki.Client.Run.{
  Session, Player, Polled, sock_ready, read_sock, take_msg, on_sock, after_sock, step, run_loop,
}
use kierki.Client.Session.{and_then, read_sock-append}

-- The pieces, each of which is all that can be read when it comes, and a last one with what is
-- behind it.
abbrev pub in_pieces : List Bytes → Bytes → RecvEnd → List Polled → List Polled
in_pieces [] last stop later = sock_ready last stop ∷ later
in_pieces (piece ∷ pieces) last stop later =
    sock_ready piece would_block ∷ in_pieces pieces last stop later

abbrev pub joined : List Bytes → Bytes → Bytes
joined [] last = last
joined (piece ∷ pieces) last = piece ++ joined pieces last

module _ {π : Type 0} (player : Player π) where
  pub run_loop-ended :
      (polled : List Polled) (s : Session π)
      → s.client.state.terminate ≡ true
      → run_loop player polled s ≡ some (s, some s.client.state.exit_flag)
  unfolding run_loop
  run_loop-ended [] s e = rw e
  run_loop-ended (p ∷ rest) s e = rw e

  run_loop-alive :
      (p : Polled) (rest : List Polled) (s : Session π)
      → s.client.state.terminate ≡ false
      → run_loop player (p ∷ rest) s ≡ (step player p s >>= λ t. run_loop player rest t)
  unfolding run_loop
  run_loop-alive p rest s e = rw e

  -- The loop over the bytes ends early exactly when the client has ended.
  abbrev FitsFlag : Session π × Bool × Bytes → Type 0
  FitsFlag (t, ended, left) = t.client.state.terminate ≡ ended

  read_sock-FitsFlag :
      (bytes : Bytes) (s : Session π)
      → s.client.state.terminate ≡ false
      → Returns FitsFlag (read_sock player bytes s)
  unfolding read_sock
  read_sock-FitsFlag [] s alive = alive
  read_sock-FitsFlag (c ∷ cs) s alive =
      Returns-bind FitsFlag (take_msg player c s) _
        (λ t e. by_flag t (read_sock-FitsFlag cs t) t.client.state.terminate refl)
    where
      by_flag :
          (t : Session π)
          → (t.client.state.terminate ≡ false → Returns FitsFlag (read_sock player cs t))
          → (b : Bool) → t.client.state.terminate ≡ b
          → Returns FitsFlag (elim b [ true ↦ some (t, true, cs) | false ↦ read_sock player cs t ])
      by_flag t more true e = e
      by_flag t more false e = more e

  -- What follows the bytes of the socket, in `run`.
  abbrev pub behind :
      RecvEnd → List Polled → Session π × Bool × Bytes → Option (Session π × Option ℕ)
  behind stop later (t, ended, left) =
      if ended
      then run_loop player later t
      else (after_sock player stop t >>= λ u. run_loop player later u)

  pub run_loop-behind :
      (bytes : Bytes) (stop : RecvEnd) (later : List Polled) (s : Session π)
      → s.client.state.terminate ≡ false
      → run_loop player (sock_ready bytes stop ∷ later) s
        ≡ (read_sock player bytes s >>= behind stop later)
  unfolding step on_sock
  run_loop-behind bytes stop later s alive =
      run_loop-alive (sock_ready bytes stop) later s alive ∙ flat (read_sock player bytes s)
    where
      with_left : Bytes → Session π → Option (Session π × Bytes)
      with_left left u = some (u, left)

      end_of : Session π × Bytes → Option (Session π)
      end_of r = some r.0

      by_end :
          (x : Option (Session π)) (left : Bytes)
          → (((x >>= with_left left) >>= end_of) >>= run_loop player later)
            ≡ (x >>= run_loop player later)
      by_end none left = refl
      by_end (some u) left = refl

      on_end : Session π × Bool × Bytes → Option (Session π × Bytes)
      on_end (t, ended, left) =
          if ended then some (t, left) else (after_sock player stop t >>= with_left left)

      flat :
          (x : Option (Session π × Bool × Bytes))
          → (((x >>= on_end) >>= end_of) >>= run_loop player later) ≡ (x >>= behind stop later)
      flat none = refl
      flat (some (t, true, left)) = refl
      flat (some (t, false, left)) = by_end (after_sock player stop t) left

  run_loop-append :
      (first second : Bytes) (stop : RecvEnd) (later : List Polled) (s : Session π)
      → s.client.state.terminate ≡ false
      → run_loop player (sock_ready first would_block ∷ sock_ready second stop ∷ later) s
        ≡ run_loop player (sock_ready (first ++ second) stop ∷ later) s
  unfolding after_sock
  run_loop-append first second stop later s alive =
      run_loop-behind first would_block (sock_ready second stop ∷ later) s alive
      ∙ split (read_sock player first s) (read_sock-FitsFlag first s alive)
      ∙ ap (λ x. x >>= behind stop later) (sym (read_sock-append player first second s))
      ∙ sym (run_loop-behind (first ++ second) stop later s alive)
    where
      split :
          (x : Option (Session π × Bool × Bytes))
          → Returns FitsFlag x
          → (x >>= behind would_block (sock_ready second stop ∷ later))
            ≡ ((x >>= and_then player second) >>= behind stop later)
      split none h = refl
      split (some (t, true, left)) h =
          run_loop-ended (sock_ready second stop ∷ later) t h ∙ sym (run_loop-ended later t h)
      split (some (t, false, left)) h = run_loop-behind second stop later t h

  -- A first answer of `poll`, before two lists that make no difference to a client that goes on.
  run_loop-tail :
      (p : Polled) (ps qs : List Polled) (s : Session π)
      → s.client.state.terminate ≡ false
      → ((t : Session π)
          → t.client.state.terminate ≡ false
          → run_loop player ps t ≡ run_loop player qs t)
      → run_loop player (p ∷ ps) s ≡ run_loop player (p ∷ qs) s
  run_loop-tail p ps qs s alive same =
      run_loop-alive p ps s alive
      ∙ ap (λ f. step player p s >>= f) (λ i t. both t t.client.state.terminate refl i)
      ∙ sym (run_loop-alive p qs s alive)
    where
      both :
          (t : Session π) (b : Bool)
          → t.client.state.terminate ≡ b
          → run_loop player ps t ≡ run_loop player qs t
      both t true e = run_loop-ended ps t e ∙ sym (run_loop-ended qs t e)
      both t false e = same t e

  -- A client that goes on does the same, to its end and to its value, whether the bytes of the
  -- socket come with one answer of `poll` or in any pieces with an answer for each: what was read of
  -- a line is kept from one answer to the next, and the answers that come later follow in the same
  -- way.
  pub run_loop-in_pieces :
      (pieces : List Bytes) (last : Bytes) (stop : RecvEnd) (later : List Polled) (s : Session π)
      → s.client.state.terminate ≡ false
      → run_loop player (in_pieces pieces last stop later) s
        ≡ run_loop player (sock_ready (joined pieces last) stop ∷ later) s
  run_loop-in_pieces [] last stop later s alive = refl
  run_loop-in_pieces (piece ∷ pieces) last stop later s alive =
      run_loop-tail (sock_ready piece would_block) (in_pieces pieces last stop later)
        (sock_ready (joined pieces last) stop ∷ later) s alive
        (λ t e. run_loop-in_pieces pieces last stop later t e)
      ∙ run_loop-append piece (joined pieces last) stop later s alive
