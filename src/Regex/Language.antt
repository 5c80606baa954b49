-- ===== src/Regex/Language.antt =====
-- The matcher accepts exactly the texts of the language that an expression describes.
use mathlib.Core.Path.{subst}
use kierki.Prelude.{
  ℕ, true, false, [], ◌∷◌, ◌++◌, ◌≡◌, ◌↔◌, ◌⊎◌, inl, inr, refl, sym, ◌∙◌, ap, arith, Bytes,
  Bool-cases,
}
use kierki.Regex.{
  Regex, never, empty, chars, alt, seq, star, in_ranges, nullable, seq_of, alt_of, derive,
  regex_match,
}

-- A text that is made of parts with the property, none of them empty.
pub data Parts (P : Bytes → Type 0) : Bytes → Type 0 where
  done : Parts P []
  part : (c : ℕ) (u v s : Bytes) → P (c ∷ u) → Parts P v → s ≡ c ∷ (u ++ v) → Parts P s

-- The language of an expression.
abbrev pub Lang : Regex → Bytes → Type 0
Lang never s = ⊥
Lang empty s = s ≡ []
Lang (chars ranges) s = (c : ℕ) × (s ≡ c ∷ []) × (in_ranges c ranges ≡ true)
Lang (alt r r') s = Lang r s ⊎ Lang r' s
Lang (seq r r') s = (u v : Bytes) × (s ≡ u ++ v) × Lang r u × Lang r' v
Lang (star r) s = Parts (Lang r) s

nil_parts : (u v : Bytes) → [] ≡ u ++ v → (u ≡ []) × (v ≡ [])
nil_parts [] v h = (refl, sym h)
nil_parts (c ∷ u) v h = cc

nullable-Lang : (r : Regex) → nullable r ≡ true → Lang r []
unfolding nullable
nullable-Lang never h = cc
nullable-Lang empty h = refl
nullable-Lang (chars ranges) h = cc
nullable-Lang (alt r r') h = elim (Bool-cases (nullable r)) [
  | inl e ↦ inl (nullable-Lang r e)
  | inr e ↦ inr (nullable-Lang r' (ground arith))
]
nullable-Lang (seq r r') h =
    ([], [], refl, nullable-Lang r (ground arith), nullable-Lang r' (ground arith))
nullable-Lang (star r) h = done

Lang-nullable : (r : Regex) (s : Bytes) → s ≡ [] → Lang r s → nullable r ≡ true
unfolding nullable
Lang-nullable never s e h = absurd h
Lang-nullable empty s e h = refl
Lang-nullable (chars ranges) s e (c, f, g) = cc
Lang-nullable (alt r r') s e (inl h) = ground (arith, Lang-nullable r s e h)
Lang-nullable (alt r r') s e (inr h) = ground (arith, Lang-nullable r' s e h)
Lang-nullable (seq r r') s e (u, v, f, h, h') =
    let (eu, ev) = nil_parts u v (sym e ∙ f) in
    ground (arith, Lang-nullable r u eu h, Lang-nullable r' v ev h')
Lang-nullable (star r) s e h = refl

seq_of-Lang : (r r' : Regex) (s : Bytes) → Lang (seq_of r r') s ↔ Lang (seq r r') s
unfolding seq_of
seq_of-Lang never r' s = ((λ h. absurd h), (λ h. absurd h.3))
seq_of-Lang empty r' s = ((λ h. ([], s, refl, refl, h)), from)
  where
    from : Lang (seq empty r') s → Lang r' s
    from (u, v, e, f, h) = subst (Lang r') (sym (e ∙ ap (λ w. w ++ v) f)) h
seq_of-Lang (chars ranges) r' s = ((λ h. h), (λ h. h))
seq_of-Lang (alt a b) r' s = ((λ h. h), (λ h. h))
seq_of-Lang (seq a b) r' s = ((λ h. h), (λ h. h))
seq_of-Lang (star a) r' s = ((λ h. h), (λ h. h))

alt_of-Lang : (r r' : Regex) (s : Bytes) → Lang (alt_of r r') s ↔ Lang (alt r r') s
unfolding alt_of
alt_of-Lang never r' s = ((λ h. inr h), elim [ inl h ↦ absurd h | inr h ↦ h ])
alt_of-Lang empty r' s = ((λ h. h), (λ h. h))
alt_of-Lang (chars ranges) r' s = ((λ h. h), (λ h. h))
alt_of-Lang (alt a b) r' s = ((λ h. h), (λ h. h))
alt_of-Lang (seq a b) r' s = ((λ h. h), (λ h. h))
alt_of-Lang (star a) r' s = ((λ h. h), (λ h. h))

-- A text that begins with `c` and is cut in two: the cut is before `c` or behind it.
split_cons :
    (c : ℕ) (s u v : Bytes)
    → c ∷ s ≡ u ++ v
    → ((u ≡ []) × (v ≡ c ∷ s)) ⊎ ((w : Bytes) × (u ≡ c ∷ w) × (s ≡ w ++ v))
split_cons c s [] v e = inl (refl, sym e)
split_cons c s (d ∷ u) v e = inr (u, cc, cc)

derive_sound : (c : ℕ) (r : Regex) (s : Bytes) → Lang (derive c r) s → Lang r (c ∷ s)
unfolding derive
derive_sound c never s h = h
derive_sound c empty s h = absurd h
derive_sound c (chars ranges) s h = elim (Bool-cases (in_ranges c ranges)) [
  | inl e ↦ (c, ap (λ w. c ∷ w) (rw e at h), e)
  | inr e ↦ absurd (rw e at h)
]
derive_sound c (alt r r') s h = elim ((alt_of-Lang (derive c r) (derive c r') s).0 h) [
  | inl g ↦ inl (derive_sound c r s g)
  | inr g ↦ inr (derive_sound c r' s g)
]
derive_sound c (seq r r') s h =
    let first : Lang (seq_of (derive c r) r') s → Lang (seq r r') (c ∷ s) = λ g.
      let (u, v, e, hu, hv) = (seq_of-Lang (derive c r) r' s).0 g in
      (c ∷ u, v, ap (λ w. c ∷ w) e, derive_sound c r u hu, hv) in
    elim (Bool-cases (nullable r)) [
      | inl e ↦ elim ((alt_of-Lang (seq_of (derive c r) r') (derive c r') s).0 (rw e at h)) [
        | inl g ↦ first g
        | inr g ↦ ([], c ∷ s, refl, nullable-Lang r e, derive_sound c r' s g)
      ]
      | inr e ↦ first (rw e at h)
    ]
derive_sound c (star r) s h =
    let (u, v, e, hu, hv) = (seq_of-Lang (derive c r) (star r) s).0 h in
    part c u v (c ∷ s) (derive_sound c r u hu) hv (ap (λ w. c ∷ w) e)

derive_complete : (c : ℕ) (r : Regex) (s : Bytes) → Lang r (c ∷ s) → Lang (derive c r) s
unfolding derive
derive_complete c never s h = h
derive_complete c empty s h = cc
derive_complete c (chars ranges) s (d, e, g) =
    let same : c ≡ d = cc in let hit : in_ranges c ranges ≡ true = rw same g in rw hit (cc)
derive_complete c (alt r r') s (inl h) =
    (alt_of-Lang (derive c r) (derive c r') s).1 (inl (derive_complete c r s h))
derive_complete c (alt r r') s (inr h) =
    (alt_of-Lang (derive c r) (derive c r') s).1 (inr (derive_complete c r' s h))
derive_complete c (seq r r') s (u, v, e, hu, hv) =
    let first = seq_of (derive c r) r' in
    elim (split_cons c s u v e) [
      | inl (eu, ev) ↦ rw (Lang-nullable r u eu hu) (
          (alt_of-Lang first (derive c r') s).1
            (inr (derive_complete c r' s (subst (Lang r') ev hv))))
      | inr (w, eu, es) ↦
          let g : Lang first s =
            (seq_of-Lang (derive c r) r' s).1
              (w, v, es, derive_complete c r w (subst (Lang r) eu hu), hv) in
          elim (Bool-cases (nullable r)) [
            | inl n ↦ rw n ((alt_of-Lang first (derive c r') s).1 (inl g))
            | inr n ↦ rw n g
          ]
    ]
derive_complete c (star r) s (part d u v t hu hv e) =
    let same : d ≡ c = cc in
    (seq_of-Lang (derive c r) (star r) s).1
      (u, v, cc, derive_complete c r u (subst (λ x. Lang r (x ∷ u)) same hu), hv)

-- The matcher answers true for exactly the texts of the language.
pub regex_match-Lang : (s : Bytes) (r : Regex) → (regex_match s r ≡ true) ↔ Lang r s
unfolding regex_match
regex_match-Lang [] r = ((λ h. nullable-Lang r h), (λ h. Lang-nullable r [] refl h))
regex_match-Lang (c ∷ s) r = (
  (λ h. derive_sound c r s ((regex_match-Lang s (derive c r)).0 h)),
  (λ h. (regex_match-Lang s (derive c r)).1 (derive_complete c r s h)),
)

pub never_match : (text : Bytes) → regex_match text never ≡ false
unfolding regex_match
never_match [] = refl
never_match (c ∷ text) = never_match text
