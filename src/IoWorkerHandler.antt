-- ===== src/IoWorkerHandler.antt =====
-- server/io_worker_handler.cpp: a worker that reads a client's lines and passes them to the game.
-- The socket is a parameter: the bytes that can be read at once, and what `recv` answers behind
-- them. Closing a socket is taken to succeed. The callbacks of the constructor are an interface,
-- with the worker's own index filled in and a state `σ` that they change; `none` is an exception.
pub mod Framing
pub mod Dispatch
pub mod Action
use kierki.Prelude.{
  ℕ, zero, suc, ◌-◌, Bool, true, false, not, ◌&&◌, List, [], ◌∷◌, ◌++◌, Option, none, some, ◌>>=◌,
  if◌then◌else◌, Bytes, codes, ltb, ◌==◌, length, get_elem?, take,
}
use kierki.Types.{
  Side, Card, side_of_char, max_parse_len, IoErrClass, io_err_silent, io_err_external,
}
use kierki.Card
use kierki.SendJob.{SendJob}
use kierki.Text.{atoi}
use kierki.IoWorker.{has_work}
use kierki.MsgParser.{parse_net_msg}
use kierki.MsgParser.Pieces.{ParseResp}

pub record Callbacks (σ : Type 0) : Type 0 where
  pub intro_cb : Side → σ → Option (σ × Bool)
  pub trick_cb : ℕ → Card → σ → Option (σ × Bool)
  pub invalid_cb : σ → Option (σ × Bool)
  pub exit_cb : List IoErrClass → Bool → σ → Option (σ × Bool)

-- What `recv` answers when the bytes are used up: a code of `SILENT_ERRS`, EAGAIN or EWOULDBLOCK,
-- another code, or 0.
pub data RecvEnd : Type 0 where
  silent_err would_block other_err peer_closed : RecvEnd

-- The fields of the worker that this file touches; `none` is a timeout of -1, or no response time.
pub record Handler : Type 0 where
  pub next_incoming : Bytes
  pub pending_incoming : List Bytes
  pub pending_outgoing : List SendJob
  pub errs : List IoErrClass
  pub next_timeout : Option ℕ
  pub response_timeout : Option ℕ
  pub want_to_quit : Bool
  pub terminate : Bool
  pub closed_fd : Bool
  pub peer_corrupted : Bool

-- `closeConn`.
unfoldable pub close_conn : Handler → Handler
close_conn h = record h { closed_fd = true; want_to_quit = true }

-- `nextIncoming` ends a line.
abbrev pub ends_line : ℕ → Bytes → Bool
ends_line c next =
    c == b'\n'
    && ltb 1 (length next)
    && (elim (get_elem? next (length next - 2)) [ none ↦ false | some r ↦ r == b'\r' ])

-- What one byte does that was read; the second result is a `break`.
unfoldable pub take_byte : ℕ → Handler → Handler × Bool
unfolding close_conn
take_byte c h =
    let next = h.next_incoming ++ c ∷ [] in
    let h1 = record h { next_incoming = next } in
    if ltb max_parse_len (length next)
    then (close_conn (record h1 { peer_corrupted = true }), true)
    else if ends_line c next
    then (
      record h1 {
        pending_incoming = h.pending_incoming ++ take (length next - 2) next ∷ [];
        next_incoming = [];
      },
      false,
    )
    else (h1, false)

abbrev pub is_pending : List Bytes → Bool
is_pending [] = false
is_pending (m ∷ rest) = true

-- The loop that reads; the results are the handler, the bytes that are left, and whether the last
-- `recv` found none.
unfoldable pub read_loop : Bytes → Handler → Handler × Bytes × Bool
unfolding take_byte
read_loop [] h = (h, [], not (is_pending h.pending_incoming))
read_loop (c ∷ cs) h = elim (is_pending h.pending_incoming) [
  | true ↦ (h, c ∷ cs, false)
  | false ↦ elim (take_byte c h).1 [
    | true ↦ ((take_byte c h).0, cs, false)
    | false ↦ read_loop cs (take_byte c h).0
  ]
]

unfoldable pub after_recv : RecvEnd → Handler → Handler
unfolding close_conn
after_recv silent_err h = close_conn (record h { errs = h.errs ++ io_err_silent ∷ [] })
after_recv would_block h = h
after_recv other_err h = close_conn (record h { errs = h.errs ++ io_err_external ∷ [] })
after_recv peer_closed h = close_conn h

unfoldable pub read_socket : Bytes → RecvEnd → Handler → Handler × Bytes
unfolding read_loop after_recv
read_socket incoming stop h = elim h.closed_fd [
  | true ↦ (h, incoming)
  | false ↦
      let (h1, rest, used_up) = read_loop incoming h in
      (if used_up then after_recv stop h1 else h1, rest)
]

-- What becomes of the line in front: it is popped and the next one follows; it stays, or it stays
-- with the timers as they are; or it is popped and the worker wants to quit. `stuck` is the loop
-- that goes round for ever.
pub data Verdict : Type 0 where
  popped kept untouched quitting stuck : Verdict

unfoldable pub verdict_of : Verdict → Verdict → Bool → Verdict
verdict_of on_true on_false true = on_true
verdict_of on_true on_false false = on_false

-- `==` of two strings.
abbrev pub same_text : Bytes → Bytes → Bool
same_text [] [] = true
same_text (c ∷ s) (d ∷ t) = c == d && same_text s t
same_text _ _ = false

module _ {σ : Type 0} (callbacks : Callbacks σ) where
  unfoldable pub on_intro : Bytes → σ → Option (σ × Verdict)
  unfolding verdict_of
  on_intro text st = do
    c ← get_elem? text 0
    s ← side_of_char c
    (st', ok) ← callbacks.intro_cb s st
    some (st', verdict_of popped kept ok)

  unfoldable pub on_trick : Bytes → Bytes → σ → Option (σ × Verdict)
  unfolding verdict_of
  on_trick rn text st = do
    c ← Card.from_string text
    (st', ok) ← callbacks.trick_cb (atoi rn) c st
    some (st', verdict_of popped kept ok)

  unfoldable pub on_invalid : Verdict → σ → Option (σ × Verdict)
  unfolding verdict_of
  on_invalid otherwise_ st = do
    (st', ok) ← callbacks.invalid_cb st
    some (st', verdict_of quitting otherwise_ ok)

  -- The body of the loop over the lines, for the line in front.
  unfoldable pub on_parsed : ParseResp → σ → Option (σ × Verdict)
  unfolding on_intro on_trick on_invalid
  on_parsed [] st = on_invalid untouched st
  on_parsed ((_, kind) ∷ entries) st =
      if same_text kind (codes "IAM")
      then (do e ← get_elem? entries 0; on_intro e.1 st)
      else if same_text kind (codes "TRICK_C")
      then (do rn ← get_elem? entries 0; card ← get_elem? entries 1; on_trick rn.1 card.1 st)
      else on_invalid stuck st

  unfoldable pub on_line : Bytes → σ → Option (σ × Verdict)
  unfolding on_parsed
  on_line msg st = do parsed ← parse_net_msg msg true; on_parsed parsed st

  disarm : Handler → Handler
  disarm h = record h { next_timeout = none; response_timeout = none }

  pop_line : List Bytes → Handler → Handler
  pop_line rest h = record h { pending_incoming = rest }

  -- The loop over the lines.
  unfoldable pub lines_loop : List Bytes → Handler → σ → Option (Handler × σ)
  unfolding on_line disarm pop_line
  lines_loop [] h st = some (h, st)
  lines_loop (msg ∷ rest) h st = (on_line msg st) >>= λ r. elim r.1 [
    | popped ↦ lines_loop rest (disarm (pop_line rest h)) r.0
    | kept ↦ some (disarm h, r.0)
    | untouched ↦ some (h, r.0)
    | quitting ↦ some (record (disarm (pop_line rest h)) { want_to_quit = true }, r.0)
    | stuck ↦ none
  ]

  leave_corrupted : Handler → σ → Option (Handler × σ)
  unfolding has_work
  leave_corrupted h st =
      if h.peer_corrupted
      then (do
        (st', ok) ←
            callbacks.exit_cb h.errs (has_work h.pending_incoming h.pending_outgoing h.closed_fd) st
        some (if ok then record h { terminate = true } else h, st'))
      else some (h, st)

  -- `socketAction`; the bytes that are left stay in the socket.
  unfoldable pub socket_action : Bytes → RecvEnd → Handler → σ → Option (Handler × σ × Bytes)
  unfolding read_socket lines_loop leave_corrupted
  socket_action incoming stop h st = if h.want_to_quit then some (h, st, incoming) else (do
    let (h1, left) = read_socket incoming stop h
    (h2, st2) ← lines_loop h1.pending_incoming h1 st
    (h3, st3) ← leave_corrupted h2 st2
    some (h3, st3, left))
