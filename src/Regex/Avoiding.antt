-- ===== src/Regex/Avoiding.antt =====
-- A character that no class of an expression has stands in no text that the expression matches.
use mathlib.Core.Path.{subst}
use kierki.Prelude.{
  ℕ, Bool, true, false, not, ◌&&◌, List, ◌∷◌, Bytes, ◌≡◌, inl, inr, sym, arith, ◌==◌, All,
  All-append, ◌∙◌, ap, Bool-cases,
}
use kierki.Regex.{Regex, never, empty, chars, alt, seq, star, in_ranges, regex_match}
use kierki.Regex.Language.{Lang, Parts, done, part, regex_match-Lang}

abbrev pub avoids : ℕ → Regex → Bool
avoids k never = true
avoids k empty = true
avoids k (chars ranges) = not (in_ranges k ranges)
avoids k (alt r s) = avoids k r && avoids k s
avoids k (seq r s) = avoids k r && avoids k s
avoids k (star r) = avoids k r

abbrev pub IsWithout : ℕ → Bytes → Type 0
IsWithout k s = All (λ c. (c == k) ≡ false) s

in_ranges-differs :
    (k c : ℕ) (ranges : List (ℕ × ℕ))
    → in_ranges k ranges ≡ false
    → in_ranges c ranges ≡ true
    → (c == k) ≡ false
in_ranges-differs k c ranges h h' = elim (Bool-cases (c == k)) [
  | inl e ↦
      let same : c ≡ k = ground arith in
      let both : true ≡ false = sym h' ∙ ap (λ x. in_ranges x ranges) same ∙ h in cc
  | inr e ↦ e
]

Parts-IsWithout :
    {P : Bytes → Type 0} (k : ℕ)
    → ((u : Bytes) → P u → IsWithout k u)
    → (t : Bytes) → Parts P t
    → IsWithout k t
Parts-IsWithout k h _ done = tt
Parts-IsWithout k h _ (part c u v t p ps e) =
    subst (IsWithout k) (sym e)
      (All-append (λ x. (x == k) ≡ false) (c ∷ u) v (h (c ∷ u) p) (Parts-IsWithout k h v ps))

avoids-Lang : (k : ℕ) (r : Regex) (s : Bytes) → avoids k r ≡ true → Lang r s → IsWithout k s
avoids-Lang k never s h l = absurd l
avoids-Lang k empty s h l = subst (IsWithout k) (sym l) tt
avoids-Lang k (chars ranges) s h (c, e, g) =
    subst (IsWithout k) (sym e) (in_ranges-differs k c ranges (ground arith) g, tt)
avoids-Lang k (alt r r') s h (inl l) = avoids-Lang k r s (ground arith) l
avoids-Lang k (alt r r') s h (inr l) = avoids-Lang k r' s (ground arith) l
avoids-Lang k (seq r r') s h (u, v, e, l, l') = subst (IsWithout k) (sym e) (
    All-append (λ c. (c == k) ≡ false) u v (avoids-Lang k r u (ground arith) l)
      (avoids-Lang k r' v (ground arith) l'))
avoids-Lang k (star r) s h l = Parts-IsWithout k (λ u p. avoids-Lang k r u h p) s l

pub regex_match-IsWithout :
    (k : ℕ) (r : Regex) (s : Bytes) → avoids k r ≡ true → regex_match s r ≡ true → IsWithout k s
regex_match-IsWithout k r s h m = avoids-Lang k r s h ((regex_match-Lang s r).0 m)
