-- ===== src/SendNoBlock.antt =====
-- common/utils.cpp: `sendNoBlockN`, which sends a message without waiting. The answers of `send` are
-- an argument, in their order.
use kierki.Prelude.{
  ℕ, zero, suc, ◌+◌, ◌≤◌, ◌<◌, ◌≢◌, ◌↔◌, true, false, List, [], ◌∷◌, Option, none, some,
  if◌then◌else◌, ltb, ◌==◌, length, ◌≡◌, refl, sym, ap, ◌∙◌, inl, inr, arith, Bool-cases,
}

-- The number of bytes that were taken, or an error: EAGAIN or EWOULDBLOCK, or another code.
pub data SendResp : Type 0 where
  accepted : (t : ℕ) → SendResp
  blocked broken : SendResp

-- `_written + t` for a `t` of -1; `none` is the value -1.
unfoldable pub one_less : ℕ → Option ℕ
one_less zero = none
one_less (suc n) = some n

-- The loop behind `written` bytes; the value that is returned stands inside, where `none` is -1.
-- Outside, `none` is a call of `send` that has not been answered. A send that succeeds leaves the
-- error code at 0.
unfoldable pub send_from : ℕ → List SendResp → ℕ → Option (Option ℕ)
unfolding one_less
send_from n [] written = if ltb written n then none else some (some written)
send_from n (accepted t ∷ rest) written =
    let more = send_from n rest (written + t) in
    if ltb written n then (if t == 0 then some none else more) else some (some written)
send_from n (blocked ∷ rest) written =
    if ltb written n then some (one_less written) else some (some written)
send_from n (broken ∷ rest) written = if ltb written n then some none else some (some written)

unfoldable pub send_no_block_n : ℕ → List SendResp → Option (Option ℕ)
unfolding send_from
send_no_block_n n answers = send_from n answers 0

-- `send` takes no more than it was given, until the loop has ended.
abbrev pub IsWithin : ℕ → List SendResp → ℕ → Type 0
IsWithin n [] written = Unit {0}
IsWithin n (accepted t ∷ rest) written = (written + t ≤ n) × IsWithin n rest (written + t)
IsWithin n (_ ∷ rest) written = Unit {0}

-- How many bytes the socket takes, until it takes none.
abbrev pub all_accepted : List SendResp → ℕ
all_accepted [] = 0
all_accepted (accepted zero ∷ rest) = 0
all_accepted (accepted (suc t) ∷ rest) = suc t + all_accepted rest
all_accepted (_ ∷ rest) = 0

one_less-other : (n written : ℕ) → written < n → one_less written ≢ some n
unfolding one_less
one_less-other n zero h = cc
one_less-other n (suc w) h = ground arith

-- The loop has ended with all bytes, or it returns a value for fewer.
stopped :
    (n written : ℕ) (v r : Option ℕ)
    → written ≤ n
    → (written < n → v ≢ some n)
    → (if ltb written n then some v else some (some written)) ≡ some r
    → (r ≡ some n) ↔ (written + 0 ≡ n)
stopped n written v r h other e = elim (Bool-cases (ltb written n)) [
  | inl lt ↦
      let less : written < n = ground arith in
      let same : some v ≡ some r =
        sym (ap (λ b. if b then some v else some (some written)) lt) ∙ e in
      (λ f. absurd (other less (value_of v r same ∙ f)), λ f. absurd (omega (arith, less, f)))
  | inr ge ↦
      let all : written ≡ n = ground arith in
      let same : some (some written) ≡ some r =
        sym (ap (λ b. if b then some v else some (some written)) ge) ∙ e in
      (λ f. omega (arith, all), λ f. sym (value_of (some written) r same) ∙ ap some all)
]
  where
    value_of : (a b : Option ℕ) → some a ≡ some b → a ≡ b
    value_of a b q = cc

not_zero : (t : ℕ) → (suc t == 0) ≡ false
not_zero t = ground arith

send_from-more :
    (n t : ℕ) (rest : List SendResp) (written : ℕ)
    → ltb written n ≡ true
    → send_from n (accepted (suc t) ∷ rest) written ≡ send_from n rest (written + suc t)
unfolding send_from
send_from-more n t rest written e =
    let more = send_from n rest (written + suc t) in
    ap (λ b. if b then (if suc t == 0 then some none else more) else some (some written)) e
    ∙ ap (λ b. if b then some none else more) (not_zero t)

send_from_complete :
    (n : ℕ) (answers : List SendResp) (written : ℕ) (r : Option ℕ)
    → written ≤ n
    → IsWithin n answers written
    → send_from n answers written ≡ some r
    → (r ≡ some n) ↔ (written + all_accepted answers ≡ n)
unfolding send_from
send_from_complete n [] written r h w e = elim (Bool-cases (ltb written n)) [
  | inl lt ↦ absurd (none_some r (sym (ap (λ b. if b then none else some (some written)) lt) ∙ e))
  | inr ge ↦
      stopped n written none r h (λ l. absurd (ground arith))
        (ap (λ b. if b then some none else some (some written)) ge
          ∙ sym (ap (λ b. if b then none else some (some written)) ge)
          ∙ e)
]
  where
    none_some : {A : Type 0} (a : A) → none ≡ some a → ⊥
    none_some a q = cc
send_from_complete n (accepted zero ∷ rest) written r h w e = stopped n written none r h (λ l. cc) e
send_from_complete n (accepted (suc t) ∷ rest) written r h (le, w) e =
    let less : ltb written n ≡ true = ground (arith, le) in
    let more =
      send_from_complete n rest (written + suc t) r le w
        (sym (send_from-more n t rest written less) ∙ e) in
    (λ f. omega (arith, more.0 f), λ f. more.1 (omega (arith, f)))
send_from_complete n (blocked ∷ rest) written r h w e =
    stopped n written (one_less written) r h (one_less-other n written) e
send_from_complete n (broken ∷ rest) written r h w e = stopped n written none r h (λ l. cc) e

-- When the loop comes to its end, the value that it returns is the size of the message, for which
-- its callers test, if and only if the socket has taken all bytes of the message. The socket takes
-- no more bytes than it is given.
pub send_no_block_n_complete :
    (n : ℕ) (answers : List SendResp) (r : Option ℕ)
    → IsWithin n answers 0
    → send_no_block_n n answers ≡ some r
    → (r ≡ some n) ↔ (all_accepted answers ≡ n)
unfolding send_no_block_n
send_no_block_n_complete n answers r w e =
    let both = send_from_complete n answers 0 r (omega arith) w e in
    (λ f. omega (arith, both.0 f), λ f. both.1 (omega (arith, f)))

send_from-ends :
    (n : ℕ) (answers : List SendResp) (written : ℕ)
    → n ≤ written + length answers
    → (r : Option ℕ) × (send_from n answers written ≡ some r)
unfolding send_from
send_from-ends n [] written h =
    let all : ltb written n ≡ false = ground (arith, h) in (some written, rw all)
send_from-ends n (accepted zero ∷ rest) written h = elim (Bool-cases (ltb written n)) [
  | inl e ↦ (none, rw e refl)
  | inr e ↦ (some written, rw e refl)
]
send_from-ends n (accepted (suc t) ∷ rest) written h = elim (Bool-cases (ltb written n)) [
  | inl e ↦
      let (r, f) = send_from-ends n rest (written + suc t) (omega (arith, h)) in
      (r, send_from-more n t rest written e ∙ f)
  | inr e ↦ (some written, rw e refl)
]
send_from-ends n (blocked ∷ rest) written h = elim (Bool-cases (ltb written n)) [
  | inl e ↦ (one_less written, rw e refl)
  | inr e ↦ (some written, rw e refl)
]
send_from-ends n (broken ∷ rest) written h = elim (Bool-cases (ltb written n)) [
  | inl e ↦ (none, rw e refl)
  | inr e ↦ (some written, rw e refl)
]

-- As many answers as the message has bytes are enough: the loop ends, whatever they are.
pub send_no_block_n-ends :
    (n : ℕ) (answers : List SendResp)
    → n ≤ length answers
    → (r : Option ℕ) × (send_no_block_n n answers ≡ some r)
unfolding send_no_block_n
send_no_block_n-ends n answers h = send_from-ends n answers 0 (omega (arith, h))
