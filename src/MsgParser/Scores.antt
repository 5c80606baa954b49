-- ===== src/MsgParser/Scores.antt =====
-- A row of sides and scores is read back: a score ends where the next side begins.
use kierki.Prelude.{
  ℕ, zero, suc, ◌+◌, ◌-◌, ◌≤◌, true, false, List, [], ◌∷◌, ◌++◌, some, ◌≡◌, inl, inr, refl, sym,
  ◌∙◌, ap, arith, Bytes, codes, length, length-append, get_elem?, All, append_assoc, append-nil,
}
use mathlib.Core.Path.{subst}
use kierki.Types.{Side, side_n, side_e, side_s, side_w, side_null, side_char, IsSeat}
use kierki.Text.{decimal, is_digit}
use kierki.Text.Decimal.{decimal-Numeral}
use kierki.SendJob.{scores_text}
use kierki.MsgParser.Pieces.{ParseResp, substr, skip_digits, scores_loop}
use kierki.MsgParser.Cutting.{substr_middle}

next_elem :
    (pre : Bytes) (d : ℕ) (tail : Bytes)
    → get_elem? (pre ++ d ∷ tail) (suc (length pre)) ≡ get_elem? tail 0
next_elem [] d tail = refl
next_elem (p ∷ pre) d tail = next_elem pre d tail

-- The text is empty or it does not begin with a digit.
abbrev NoDigit : Bytes → Type 0
NoDigit [] = Unit {0}
NoDigit (c ∷ s) = is_digit c ≡ false

skip_nothing :
    (fuel : ℕ) (pre : Bytes) (d : ℕ) (rest : Bytes)
    → NoDigit rest
    → skip_digits fuel (pre ++ d ∷ rest) (length pre) ≡ length pre
unfolding skip_digits
skip_nothing zero pre d rest h = refl
skip_nothing (suc fuel) pre d [] h =
    let behind : length pre + 1 ≡ suc (length pre) = omega arith in
    rw (skip_digits, behind, next_elem pre d [])
skip_nothing (suc fuel) pre d (c ∷ rest) h =
    let behind : length pre + 1 ≡ suc (length pre) = omega arith in
    rw (skip_digits, behind, next_elem pre d (c ∷ rest), h)

skip_through :
    (fuel : ℕ) (pre : Bytes) (d : ℕ) (ds rest : Bytes)
    → length ds ≤ fuel
    → All (λ c. is_digit c ≡ true) ds
    → NoDigit rest
    → skip_digits fuel (pre ++ d ∷ (ds ++ rest)) (length pre) ≡ length pre + length ds
unfolding skip_digits
skip_through fuel pre d [] rest le h k = skip_nothing fuel pre d rest k ∙ omega arith
skip_through zero pre d (c ∷ ds) rest le h k = absurd (omega arith)
skip_through (suc fuel) pre d (c ∷ ds) rest le (h, hs) k =
    let m = pre ++ d ∷ c ∷ (ds ++ rest) in
    let behind : length pre + 1 ≡ suc (length pre) = omega arith in
    let whole : length (pre ++ d ∷ []) ≡ suc (length pre) =
      omega (arith, length-append pre (d ∷ [])) in
    let next : get_elem? m (length pre + 1) ≡ some c =
      subst (λ i. get_elem? m i ≡ some c) (sym behind) (next_elem pre d (c ∷ (ds ++ rest))) in
    let ih : skip_digits fuel m (length pre + 1) ≡ length (pre ++ d ∷ []) + length ds =
      subst (λ i. skip_digits fuel m i ≡ length (pre ++ d ∷ []) + length ds) (whole ∙ sym behind)
        (subst
          (λ u. skip_digits fuel u (length (pre ++ d ∷ [])) ≡ length (pre ++ d ∷ []) + length ds)
          (append_assoc pre (d ∷ []) (c ∷ (ds ++ rest)))
          (skip_through fuel (pre ++ d ∷ []) c ds rest (omega arith) hs k)) in
    let sum : length (pre ++ d ∷ []) + length ds ≡ length pre + suc (length ds) =
      omega (arith, whole) in
    rw (skip_digits, next, h, ih) sum

abbrev pub score_entries : List (Side × ℕ) → ParseResp
score_entries [] = []
score_entries ((s, n) ∷ es) =
    (codes "side", side_char s ∷ []) ∷ (codes "score", decimal n) ∷ score_entries es

-- A decimal text is a digit with digits behind it.
Numeral_digits :
    (n : ℕ) → (d : ℕ) × (ds : Bytes) × (decimal n ≡ d ∷ ds) × All (λ c. is_digit c ≡ true) ds
Numeral_digits n = elim (decimal-Numeral n) [
  | inl e ↦ (b'0', [], e, tt)
  | inr (d, ds, e, first, rest) ↦ (d, ds, e, rest)
]

scores_text-NoDigit : (es : List (Side × ℕ)) → All (λ e. IsSeat e.0) es → NoDigit (scores_text es)
unfolding scores_text
scores_text-NoDigit [] h = tt
scores_text-NoDigit ((side_n, n) ∷ es) h = refl
scores_text-NoDigit ((side_e, n) ∷ es) h = refl
scores_text-NoDigit ((side_s, n) ∷ es) h = refl
scores_text-NoDigit ((side_w, n) ∷ es) h = refl
scores_text-NoDigit ((side_null, n) ∷ es) (h, hs) = absurd h

-- One side with its score, as the loop reads it.
module _ (pre : Bytes) (k : ℕ) (num rest : Bytes) where
  abbrev whole : Bytes
  whole = pre ++ k ∷ (num ++ rest)

  moved : (pre ++ k ∷ []) ++ (num ++ rest) ≡ whole
  moved = append_assoc pre (k ∷ []) (num ++ rest)

  start_lem : length (pre ++ k ∷ []) ≡ length pre + 1
  start_lem = omega (arith, length-append pre (k ∷ []))

  read_last :
      (d : ℕ) (ds : Bytes)
      → num ≡ d ∷ ds
      → All (λ c. is_digit c ≡ true) ds
      → NoDigit rest
      → skip_digits (length whole) whole (length pre + 1) + 1 ≡ length pre + 1 + length num
  read_last d ds e h k' =
      let long : length ds ≤ length whole =
        omega (arith, length-append pre (k ∷ (num ++ rest)), length-append num rest, ap length e) in
      let found : skip_digits (length whole) whole (length pre + 1) ≡ length pre + 1 + length ds =
        subst (λ i. skip_digits (length whole) whole i ≡ i + length ds) start_lem
          (subst
            (λ u.
              skip_digits (length whole) u (length (pre ++ k ∷ []))
              ≡ length (pre ++ k ∷ []) + length ds)
            moved
            (subst
              (λ u.
                skip_digits (length whole) ((pre ++ k ∷ []) ++ (u ++ rest)) (length (pre ++ k ∷ []))
                ≡ length (pre ++ k ∷ []) + length ds)
              (sym e) (skip_through (length whole) (pre ++ k ∷ []) d ds rest long h k'))) in
      omega (arith, found, ap length e)

  read_score : substr whole (length pre + 1) (length num) ≡ some num
  read_score =
      subst (λ i. substr whole i (length num) ≡ some num) start_lem
        (subst (λ u. substr u (length (pre ++ k ∷ [])) (length num) ≡ some num) moved
          (substr_middle (pre ++ k ∷ []) num rest))

pub scores_loop-scores_text :
    (es : List (Side × ℕ)) (pre : Bytes) (res : ParseResp)
    → All (λ e. IsSeat e.0) es
    → scores_loop (length es) (pre ++ scores_text es) (length pre) res
      ≡ some (res ++ score_entries es)
unfolding scores_loop scores_text
scores_loop-scores_text [] pre res h = ap some (sym (append-nil res))
scores_loop-scores_text ((s, n) ∷ es) pre res (h, hs) =
    let k = side_char s in
    let num = decimal n in
    let rest = scores_text es in
    let m = whole pre k num rest in
    let (d, ds, e, digit) = Numeral_digits n in
    let side : substr m (length pre) 1 ≡ some (k ∷ []) = substr_middle pre (k ∷ []) (num ++ rest) in
    let last = read_last pre k num rest d ds e digit (scores_text-NoDigit es hs) in
    let len : skip_digits (length m) m (length pre + 1) - (length pre + 1) + 1 ≡ length num =
      omega (arith, last, ap length e) in
    let more = res ++ (codes "side", k ∷ []) ∷ (codes "score", num) ∷ [] in
    let behind : length (pre ++ k ∷ num) ≡ length pre + 1 + length num =
      omega (arith, length-append pre (k ∷ num)) in
    let ih : scores_loop (length es) m (length pre + 1 + length num) more
        ≡ some (more ++ score_entries es) =
      subst (λ i. scores_loop (length es) m i more ≡ some (more ++ score_entries es)) behind
        (subst
          (λ u.
            scores_loop (length es) u (length (pre ++ k ∷ num)) more
            ≡ some (more ++ score_entries es))
          (append_assoc pre (k ∷ num) rest)
          (scores_loop-scores_text es (pre ++ k ∷ num) more hs)) in
    rw (side, len, read_score pre k num rest, last)
      (ih
        ∙ ap some (
            append_assoc res ((codes "side", k ∷ []) ∷ (codes "score", num) ∷ [])
              (score_entries es)))
