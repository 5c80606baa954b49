-- ===== src/Options/Ends.antt =====
-- When the loop over the client's arguments ends, and when it does not.
use kierki.Prelude.{
  ℕ, zero, suc, ◌<◌, true, false, List, [], ◌∷◌, none, some, Bytes, codes, bytes_eq, ◌==◌, length,
  ◌≡◌, refl, ◌∙◌, inl, inr, arith, Bool-cases,
}
use kierki.Options.{Options, flag, value_of, is_dashed, parse_args}

-- No branch of the loop knows the option.
abbrev pub IsUnknown : Bytes → Type 0
IsUnknown arg =
    (bytes_eq arg (codes "-h") ≡ false)
    × (bytes_eq arg (codes "-p") ≡ false)
    × ((o : Options) → flag arg o ≡ none)

module _ (port_of : Bytes → ℕ) where
  parse_args-stays :
      (fuel : ℕ) (arg : Bytes) (rest : List Bytes) (o : Options)
      → IsUnknown arg
      → parse_args port_of (suc fuel) (arg ∷ rest) o ≡ parse_args port_of fuel (arg ∷ rest) o
  unfolding parse_args
  parse_args-stays fuel arg rest o (h, p, f) = rw (parse_args, h, p, f o) refl

  -- With an option in front that no branch knows, the loop never ends, whatever follows: no number
  -- of rounds is enough.
  pub parse_args-unknown :
      (fuel : ℕ) (arg : Bytes) (rest : List Bytes) (o : Options)
      → IsUnknown arg
      → parse_args port_of fuel (arg ∷ rest) o ≡ none
  unfolding parse_args
  parse_args-unknown zero arg rest o h = refl
  parse_args-unknown (suc fuel) arg rest o h =
      parse_args-stays fuel arg rest o h ∙ parse_args-unknown fuel arg rest o h

-- The options are known, and each that takes a value has one, or none follows it.
pub data IsKnown : List Bytes → Type 0 where
  no_more : IsKnown []
  flagged :
      {arg : Bytes} {rest : List Bytes}
      → bytes_eq arg (codes "-h") ≡ false
      → bytes_eq arg (codes "-p") ≡ false
      → ((o : Options) → (o' : Options) × (flag arg o ≡ some o'))
      → IsKnown rest
      → IsKnown (arg ∷ rest)
  hosted :
      {v : Bytes} {rest : List Bytes}
      → is_dashed v ≡ false
      → IsKnown rest
      → IsKnown (codes "-h" ∷ v ∷ rest)
  hostless : {rest : List Bytes} → value_of rest ≡ none → IsKnown (codes "-h" ∷ rest)
  ported :
      {v : Bytes} {rest : List Bytes}
      → is_dashed v ≡ false
      → IsKnown rest
      → IsKnown (codes "-p" ∷ v ∷ rest)
  portless : {rest : List Bytes} → value_of rest ≡ none → IsKnown (codes "-p" ∷ rest)

value_of-plain :
    (v : Bytes) (rest : List Bytes) → is_dashed v ≡ false → value_of (v ∷ rest) ≡ some (v, rest)
unfolding value_of
value_of-plain v rest h = rw h refl

module _ (port_of : Bytes → ℕ) where
  -- With known options the loop ends, and it takes at most a round for each argument and one more.
  pub parse_args-IsKnown :
      (args : List Bytes) (fuel : ℕ) (o : Options)
      → IsKnown args
      → length args < fuel
      → (o' : Options) × (parse_args port_of fuel args o ≡ some o')
  unfolding parse_args
  parse_args-IsKnown args zero o k h = absurd (omega (arith, h))
  parse_args-IsKnown _ (suc fuel) o no_more h = (o, refl)
  parse_args-IsKnown _ (suc fuel) o (flagged {arg = arg} {rest = rest} eh ep f k) h =
      let (o1, e) = f o in
      let (o2, e') = parse_args-IsKnown rest fuel o1 k (omega (arith, h)) in
      (o2, rw (parse_args, eh, ep, e) e')
  parse_args-IsKnown _ (suc fuel) o (hosted {v = v} {rest = rest} d k) h =
      let (o2, e') = parse_args-IsKnown rest fuel (record o { host = v }) k (omega (arith, h)) in
      (o2, rw (parse_args, value_of-plain v rest d) e')
  parse_args-IsKnown _ (suc fuel) o (hostless none_there) h = (o, rw (parse_args, none_there) refl)
  parse_args-IsKnown _ (suc fuel) o (ported {v = v} {rest = rest} d k) h =
      elim (Bool-cases (port_of v == 0)) [
        | inl z ↦ (
          record o { port = 0; arg_err = true },
          rw (parse_args, value_of-plain v rest d, z) refl,
        )
        | inr z ↦
            let (o2, e') =
              parse_args-IsKnown rest fuel (record o { port = port_of v }) k (omega (arith, h)) in
            (o2, rw (parse_args, value_of-plain v rest d, z) e')
      ]
  parse_args-IsKnown _ (suc fuel) o (portless none_there) h =
      (record o { arg_err = true }, rw (parse_args, none_there) refl)
