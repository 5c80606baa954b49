-- ===== src/Client/Session.antt =====
-- How the client puts what it reads together.
use kierki.Prelude.{
  bind_after, append-nil, ℕ, ◌-◌, ◌+◌, Bool, true, false, [], ◌∷◌, ◌++◌, Option, some, ◌>>=◌,
  if◌then◌else◌, Bytes, codes, ◌==◌, ltb, length, take, ◌≡◌, refl, sym, ap, ◌∙◌, arith,
  append_assoc, length-append,
}
use kierki.Regex.Avoiding.{IsWithout}
use kierki.MsgParser.Cutting.{take_front}
use kierki.Client.Run.{Session, Player, take_msg, take_line, read_sock, cut_end}

module _ {π : Type 0} (player : Player π) where
  -- What is read behind a first piece.
  abbrev pub and_then : Bytes → Session π × Bool × Bytes → Option (Session π × Bool × Bytes)
  and_then second (s, ended, left) =
      if ended then some (s, true, left ++ second) else read_sock player second s

  -- It makes no difference in which pieces the bytes of the socket arrive: what is behind the
  -- message that ends the loop stays in the socket.
  pub read_sock-append :
      (first second : Bytes) (s : Session π)
      → read_sock player (first ++ second) s ≡ (read_sock player first s >>= and_then second)
  unfolding read_sock
  read_sock-append [] second s = refl
  read_sock-append (c ∷ first) second s =
      bind_after (take_msg player c s) _ _ (and_then second)
        (λ t. on_end t.client.state.terminate t (read_sock-append first second t))
    where
      on_end :
          (ended : Bool) (t : Session π)
          → read_sock player (first ++ second) t ≡ (read_sock player first t >>= and_then second)
          → (elim ended [
            | true ↦ some (t, true, first ++ second)
            | false ↦ read_sock player (first ++ second) t
          ])
            ≡ ((elim ended [ true ↦ some (t, true, first) | false ↦ read_sock player first t ])
                >>= and_then second)
      on_end true t rest = refl
      on_end false t rest = rest

  -- What is read behind one byte.
  abbrev pub read_on : Bytes → Session π → Option (Session π × Bool × Bytes)
  read_on more t = elim t.client.state.terminate [
    | true ↦ some (t, true, more)
    | false ↦ read_sock player more t
  ]

  pub read_on-alive :
      (more : Bytes) (t : Session π)
      → t.client.state.terminate ≡ false
      → read_on more t ≡ read_sock player more t
  read_on-alive more t e =
      ap (λ b. elim b [ true ↦ some (t, true, more) | false ↦ read_sock player more t ]) e

  read_sock-other :
      (c : ℕ) (more : Bytes) (s : Session π)
      → (c == b'\n') ≡ false
      → s.client.state.terminate ≡ false
      → read_sock player (c ∷ more) s
        ≡ read_sock player more (record s { next_msg = s.next_msg ++ c ∷ [] })
  unfolding read_sock take_msg
  read_sock-other c more s h e =
      let t = record s { next_msg = s.next_msg ++ c ∷ [] } in
      ap
        (λ b.
          (if b
            then take_line player (cut_end player t.next_msg) (record s { next_msg = [] })
            else some t)
          >>= read_on more)
        h
      ∙ read_on-alive more t e

  -- A line that holds no line feed, and is not yet ended.
  read_sock-within :
      (line more : Bytes) (s : Session π)
      → IsWithout b'\n' line
      → s.client.state.terminate ≡ false
      → read_sock player (line ++ more) s
        ≡ read_sock player more (record s { next_msg = s.next_msg ++ line })
  read_sock-within [] more s h e =
      ap (λ m. read_sock player more (record s { next_msg = m })) (sym (append-nil s.next_msg))
  read_sock-within (c ∷ line) more s (h, hs) e =
      read_sock-other c (line ++ more) s h e
      ∙ read_sock-within line more (record s { next_msg = s.next_msg ++ c ∷ [] }) hs e
      ∙ ap (λ m. read_sock player more (record s { next_msg = m }))
          (append_assoc s.next_msg (c ∷ []) line)

  cut_end-line : (line : Bytes) → cut_end player ((line ++ codes "\r") ++ codes "\n") ≡ line
  cut_end-line line =
      let m = (line ++ codes "\r") ++ codes "\n" in
      let len : length m ≡ length line + 2 =
        omega (
          arith,
          length-append (line ++ codes "\r") (codes "\n"),
          length-append line (codes "\r"),
        ) in
      let long : ltb (length m) 2 ≡ false = ground (arith, len) in
      let front : length m - 2 ≡ length line = omega (arith, len) in
      ap (λ b. if b then m else take (length m - 2) m) long
      ∙ ap (λ k. take k m) front
      ∙ ap (take (length line)) (append_assoc line (codes "\r") (codes "\n"))
      ∙ take_front line (codes "\r\n")

  -- A line that comes with its end is handled as a whole, when nothing of a line was read before.
  pub read_sock-line :
      (line more : Bytes) (s : Session π)
      → IsWithout b'\n' line
      → s.client.state.terminate ≡ false
      → s.next_msg ≡ []
      → read_sock player (line ++ codes "\r\n" ++ more) s
        ≡ (take_line player line s >>= read_on more)
  unfolding read_sock take_msg
  read_sock-line line more s h e empty =
      let at_return = record s { next_msg = line } in
      let at_feed = record s { next_msg = line ++ codes "\r" } in
      ap (λ m. read_sock player m s) (append_assoc line (codes "\r\n") more)
      ∙ read_sock-within line (codes "\r\n" ++ more) s h e
      ∙ ap (λ m. read_sock player (codes "\r\n" ++ more) (record s { next_msg = m ++ line })) empty
      ∙ read_sock-other b'\r' (codes "\n" ++ more) at_return refl e
      ∙ ap (λ m. take_line player m (record s { next_msg = [] }) >>= read_on more)
          (cut_end-line line)
      ∙ ap (λ m. take_line player line (record s { next_msg = m }) >>= read_on more) (sym empty)
