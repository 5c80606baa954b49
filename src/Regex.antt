-- ===== src/Regex.antt =====
-- The part of `std::regex_match` (ECMAScript grammar) that common/network_msg_parser.cpp uses:
-- characters, classes of characters, alternatives, sequences and counted or unbounded repetition.
-- A whole text is matched by taking derivatives, one character after the other.
pub mod Language
pub mod Avoiding
use kierki.Prelude.{
  ℕ, zero, suc, ◌+◌, Bool, true, false, ◌&&◌, ◌||◌, List, [], ◌∷◌, ◌++◌, if◌then◌else◌, Bytes, ltb,
  leb, ◌==◌,
}

-- `chars` is a class of characters, given by its ranges.
pub data Regex : Type 0 where
  never : Regex
  empty : Regex
  chars : (ranges : List (ℕ × ℕ)) → Regex
  alt : Regex → Regex → Regex
  seq : Regex → Regex → Regex
  star : Regex → Regex

abbrev pub in_ranges : ℕ → List (ℕ × ℕ) → Bool
in_ranges c [] = false
in_ranges c ((lo, hi) ∷ rest) = (leb lo c && leb c hi) || in_ranges c rest

unfoldable pub nullable : Regex → Bool
nullable never = false
nullable empty = true
nullable (chars ranges) = false
nullable (alt r s) = nullable r || nullable s
nullable (seq r s) = nullable r && nullable s
nullable (star r) = true

-- A sequence and an alternative that drop the parts which cannot match.
unfoldable pub seq_of : Regex → Regex → Regex
seq_of never s = never
seq_of empty s = s
seq_of (chars ranges) s = seq (chars ranges) s
seq_of (alt r r') s = seq (alt r r') s
seq_of (seq r r') s = seq (seq r r') s
seq_of (star r) s = seq (star r) s

unfoldable pub alt_of : Regex → Regex → Regex
alt_of never s = s
alt_of empty s = alt empty s
alt_of (chars ranges) s = alt (chars ranges) s
alt_of (alt r r') s = alt (alt r r') s
alt_of (seq r r') s = alt (seq r r') s
alt_of (star r) s = alt (star r) s

-- What has to match behind the character `c`.
unfoldable pub derive : ℕ → Regex → Regex
unfolding nullable seq_of alt_of
derive c never = never
derive c empty = never
derive c (chars ranges) = if in_ranges c ranges then empty else never
derive c (alt r s) = alt_of (derive c r) (derive c s)
derive c (seq r s) =
    let first = seq_of (derive c r) s in
    let both = alt_of first (derive c s) in if nullable r then both else first
derive c (star r) = seq_of (derive c r) (star r)

-- `std::regex_match(text, regex)`.
unfoldable pub regex_match : Bytes → Regex → Bool
unfolding derive
regex_match [] r = nullable r
regex_match (c ∷ text) r = regex_match text (derive c r)

-- A literal character, a literal text, and the repetitions `{n}` and `{0,n}`.
abbrev pub char : ℕ → Regex
char c = chars ((c, c) ∷ [])

abbrev pub lit : Bytes → Regex
lit [] = empty
lit (c ∷ text) = seq (char c) (lit text)

abbrev pub times : ℕ → Regex → Regex
times zero r = empty
times (suc n) r = seq r (times n r)

abbrev pub up_to : ℕ → Regex → Regex
up_to zero r = empty
up_to (suc n) r = alt empty (seq r (up_to n r))
