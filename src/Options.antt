-- ===== src/Options.antt =====
-- kierki-client.cpp: the loop over the arguments. The number that `atoi` makes of a text, cast to
-- 16 bits, is an argument. What is printed is left out.
pub mod Ends
use kierki.Prelude.{
  ℕ, zero, suc, Bool, true, false, ◌||◌, List, [], ◌∷◌, Option, none, some, if◌then◌else◌, Bytes,
  codes, bytes_eq, get_elem?, ◌==◌,
}
use kierki.Types.{Side, side_n, side_e, side_s, side_w, side_null, side_eq}

-- `AF_UNSPEC`, `AF_INET` and `AF_INET6`.
pub data Proto : Type 0 where
  unspec inet inet6 : Proto

-- The variables of `main`.
pub record Options : Type 0 where
  pub port : ℕ
  pub host : Bytes
  pub side : Side
  pub proto : Proto
  pub auto_player : Bool
  pub arg_err : Bool

abbrev pub no_options : Options
no_options = record {
  port = 0;
  host = [];
  side = side_null;
  proto = unspec;
  auto_player = false;
  arg_err = false;
}

-- `argv[i][0] == '-'`.
abbrev pub is_dashed : Bytes → Bool
is_dashed [] = false
is_dashed (c ∷ rest) = c == b'-'

-- An option without a value.
unfoldable pub flag : Bytes → Options → Option Options
flag arg o =
    if bytes_eq arg (codes "-a")
    then some (record o { auto_player = true })
    else if bytes_eq arg (codes "-4")
    then some (record o { proto = inet })
    else if bytes_eq arg (codes "-6")
    then some (record o { proto = inet6 })
    else if bytes_eq arg (codes "-N")
    then some (record o { side = side_n })
    else if bytes_eq arg (codes "-E")
    then some (record o { side = side_e })
    else if bytes_eq arg (codes "-S")
    then some (record o { side = side_s })
    else if bytes_eq arg (codes "-W")
    then some (record o { side = side_w })
    else none

-- The value behind an option, if there is one.
unfoldable pub value_of : List Bytes → Option (Bytes × List Bytes)
value_of [] = none
value_of (v ∷ rest) = if is_dashed v then none else some (v, rest)

module _ (port_of : Bytes → ℕ) where
  -- The loop, on fuel, for the arguments that are left; an option that is not known leaves them as
  -- they are.
  unfoldable pub parse_args : ℕ → List Bytes → Options → Option Options
  unfolding flag value_of
  parse_args zero args o = none
  parse_args (suc fuel) [] o = some o
  parse_args (suc fuel) (arg ∷ rest) o =
      if bytes_eq arg (codes "-h")
      then elim (value_of rest) [
        | none ↦ some o
        | some v ↦ parse_args fuel v.1 (record o { host = v.0 })
      ]
      else if bytes_eq arg (codes "-p")
      then elim (value_of rest) [
        | none ↦ some (record o { arg_err = true })
        | some v ↦ elim (port_of v.0 == 0) [
          | true ↦ some (record o { port = 0; arg_err = true })
          | false ↦ parse_args fuel v.1 (record o { port = port_of v.0 })
        ]
      ]
      else elim (flag arg o) [
        | some o' ↦ parse_args fuel rest o'
        | none ↦ parse_args fuel (arg ∷ rest) o
      ]

is_empty : Bytes → Bool
is_empty [] = true
is_empty (c ∷ rest) = false

-- What follows the loop: whether the usage is printed and the program ends.
unfoldable pub is_refused : Options → Bool
unfolding is_empty
is_refused o = o.arg_err || o.port == 0 || is_empty o.host
