-- ===== src/IoWorkerHandler/Framing.antt =====
-- The handler cuts the bytes of the socket into lines.
use kierki.Prelude.{
  ℕ, ◌+◌, ◌-◌, ◌≤◌, true, false, [], ◌∷◌, ◌++◌, some, Bytes, ltb, ◌==◌, length, length-append,
  get_elem?, get_elem?-middle, take, All, ◌≡◌, refl, sym, ◌∙◌, ap, arith, append_assoc, append-nil,
  ◌⊎◌, inl, inr, Bool-cases,
}
use mathlib.Core.Path.{subst}
use kierki.Types.{max_parse_len}
use kierki.MsgParser.Cutting.{take_front}
use kierki.IoWorkerHandler.{Handler, take_byte, read_loop, is_pending, close_conn, ends_line}

-- The handler with `pre` read of a line, and with no line that waits.
abbrev reading : Handler → Bytes → Handler
reading h pre = record h { next_incoming = pre; pending_incoming = [] }

-- The handler with one line that waits.
abbrev pub holding : Handler → Bytes → Handler
holding h text = record h { next_incoming = []; pending_incoming = text ∷ [] }

take_byte_plain :
    (c : ℕ) (pre : Bytes) (h : Handler)
    → (c == b'\n') ≡ false
    → length pre + 1 ≤ max_parse_len
    → take_byte c (reading h pre) ≡ (reading h (pre ++ c ∷ []), false)
unfolding take_byte
take_byte_plain c pre h plain fits =
    let short : ltb max_parse_len (length (pre ++ c ∷ [])) ≡ false =
      ground (arith, length-append pre (c ∷ [])) in
    rw (short, plain)

take_byte_end :
    (pre : Bytes) (h : Handler)
    → length pre + 2 ≤ max_parse_len
    → take_byte b'\n' (reading h (pre ++ b'\r' ∷ [])) ≡ (holding h pre, false)
unfolding take_byte
take_byte_end pre h fits =
    let next = (pre ++ b'\r' ∷ []) ++ b'\n' ∷ [] in
    let moved : next ≡ pre ++ b'\r' ∷ b'\n' ∷ [] = append_assoc pre (b'\r' ∷ []) (b'\n' ∷ []) in
    let whole : length next ≡ length pre + 2 = rw moved (length-append pre (b'\r' ∷ b'\n' ∷ [])) in
    let short : ltb max_parse_len (length next) ≡ false = ground (arith, whole) in
    let long : ltb 1 (length next) ≡ true = ground (arith, whole) in
    let at_end : length next - 2 ≡ length pre = omega (arith, whole) in
    let back : get_elem? next (length pre) ≡ some b'\r' =
      rw moved (get_elem?-middle pre b'\r' (b'\n' ∷ [])) in
    let line : take (length pre) next ≡ pre = rw moved (take_front pre (b'\r' ∷ b'\n' ∷ [])) in
    rw (short, long, at_end, back, line)

read_loop_stop :
    (more : Bytes) (h : Handler) (text : Bytes)
    → read_loop more (holding h text) ≡ (holding h text, more, false)
unfolding read_loop
read_loop_stop [] h text = refl
read_loop_stop (c ∷ more) h text = refl

read_loop_step :
    (c : ℕ) (cs : Bytes) (h h' : Handler)
    → is_pending h.pending_incoming ≡ false
    → take_byte c h ≡ (h', false)
    → read_loop (c ∷ cs) h ≡ read_loop cs h'
unfolding read_loop
read_loop_step c cs h h' idle e =
    rw (read_loop, idle, ap (λ r. r.1) e) (ap (λ r. read_loop cs r.0) e)

read_loop_text :
    (text more pre : Bytes) (h : Handler)
    → All (λ c. (c == b'\n') ≡ false) text
    → length pre + length text + 2 ≤ max_parse_len
    → read_loop (text ++ b'\r' ∷ b'\n' ∷ more) (reading h pre)
      ≡ (holding h (pre ++ text), more, false)
read_loop_text [] more pre h plain fits =
    read_loop_step b'\r' (b'\n' ∷ more) (reading h pre) (reading h (pre ++ b'\r' ∷ [])) refl
      (take_byte_plain b'\r' pre h refl (omega arith))
    ∙ read_loop_step b'\n' more (reading h (pre ++ b'\r' ∷ [])) (holding h pre) refl
        (take_byte_end pre h (omega arith))
    ∙ read_loop_stop more h pre
    ∙ ap (λ u. (holding h u, more, false)) (sym (append-nil pre))
read_loop_text (c ∷ text) more pre h (p, plain) fits =
    read_loop_step c (text ++ b'\r' ∷ b'\n' ∷ more) (reading h pre) (reading h (pre ++ c ∷ [])) refl
      (take_byte_plain c pre h p (omega arith))
    ∙ read_loop_text text more (pre ++ c ∷ []) h plain (omega (arith, length-append pre (c ∷ [])))
    ∙ ap (λ u. (holding h u, more, false)) (append_assoc pre (c ∷ []) text)

-- A line that arrives at a handler with nothing read before and nothing that waits is cut out as it
-- was sent, without its end, and what stands behind it stays in the socket; the line has no line
-- feed inside and with its end at most 1000 bytes.
pub read_loop_line :
    (text more : Bytes) (h : Handler)
    → h.next_incoming ≡ []
    → h.pending_incoming ≡ []
    → All (λ c. (c == b'\n') ≡ false) text
    → length text + 2 ≤ max_parse_len
    → read_loop (text ++ b'\r' ∷ b'\n' ∷ more) h ≡ (holding h text, more, false)
read_loop_line text more h n p plain fits =
    let same : reading h [] ≡ h =
      λ i. record h { next_incoming = sym n i; pending_incoming = sym p i } in
    subst (λ w. read_loop (text ++ b'\r' ∷ b'\n' ∷ more) w ≡ (holding h text, more, false)) same
      (read_loop_text text more [] h plain (omega arith))

-- The unfinished line is at most 1000 bytes long, or the connection is closed.
abbrev pub IsBounded : Handler → Type 0
IsBounded h = (h.closed_fd ≡ true) ⊎ (length h.next_incoming ≤ max_parse_len)

take_byte-IsBounded :
    (c : ℕ) (h : Handler)
    → ((take_byte c h).0.closed_fd ≡ true)
      ⊎ (((take_byte c h).1 ≡ false) × (length (take_byte c h).0.next_incoming ≤ max_parse_len))
unfolding take_byte close_conn
take_byte-IsBounded c h =
    let next = h.next_incoming ++ c ∷ [] in
    elim (Bool-cases (ltb max_parse_len (length next))) [
      | inl e ↦ inl (rw e refl)
      | inr e ↦ elim (Bool-cases (ends_line c next)) [
        | inl f ↦ inr (rw (e, f) refl, rw (e, f) (omega arith))
        | inr f ↦ inr (rw (e, f) refl, rw (e, f) (ground arith))
      ]
    ]

-- Whatever a client sends, reading keeps the handler bounded: it has at most 1000 bytes of an
-- unfinished line, or its connection is closed.
pub read_loop-IsBounded :
    (incoming : Bytes) (h : Handler) → IsBounded h → IsBounded (read_loop incoming h).0
unfolding read_loop
read_loop-IsBounded [] h fits = fits
read_loop-IsBounded (c ∷ cs) h fits = elim (Bool-cases (is_pending h.pending_incoming)) [
  | inl p ↦
      let same : read_loop (c ∷ cs) h ≡ (h, c ∷ cs, false) = rw (read_loop, p) refl in
      subst (λ r. IsBounded r.0) (sym same) fits
  | inr p ↦ elim (Bool-cases (take_byte c h).1) [
    | inl b ↦
        let same : read_loop (c ∷ cs) h ≡ ((take_byte c h).0, cs, false) =
          rw (read_loop, p, b) refl in
        subst (λ r. IsBounded r.0) (sym same) (weaken (take_byte-IsBounded c h))
    | inr b ↦
        let same : read_loop (c ∷ cs) h ≡ read_loop cs (take_byte c h).0 =
          rw (read_loop, p, b) refl in
        subst (λ r. IsBounded r.0) (sym same)
          (read_loop-IsBounded cs (take_byte c h).0 (weaken (take_byte-IsBounded c h)))
  ]
]
  where
    weaken :
        ((take_byte c h).0.closed_fd ≡ true)
          ⊎ (((take_byte c h).1 ≡ false) × (length (take_byte c h).0.next_incoming ≤ max_parse_len))
        → IsBounded (take_byte c h).0
    weaken (inl e) = inl e
    weaken (inr (e, l)) = inr l
