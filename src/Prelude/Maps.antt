-- ===== src/Prelude/Maps.antt =====
-- A dictionary with numbers for keys, as an association list in its order of iteration.
use Prim.Native.Nat.{ℕ}
use mathlib.Core.Bool.{Bool, true, false, ◌||◌}
use mathlib.Core.List.{List, [], ◌∷◌}
use mathlib.Core.Option.{Option, none, some}
use mathlib.Core.Path.{◌≡◌, refl, sym, ◌∙◌}
use native.Mathlib.Omega.{arith}
use mathlib.Core.Logic.{inl, inr}
use kierki.Prelude.Tests.{Bool-cases, ◌==◌, if◌then◌else◌}

abbrev pub Map {ℓ} : Type ℓ → Type ℓ
Map V = List (ℕ × V)

module _ {ℓ} {V : Type ℓ} where
  unfoldable pub lookup : ℕ → Map V → Option V
  lookup key [] = none
  lookup key (entry ∷ rest) = if entry.0 == key then some entry.1 else lookup key rest

  -- `m[key] = v`.
  unfoldable pub insert : ℕ → V → Map V → Map V
  insert key v [] = (key, v) ∷ []
  insert key v (entry ∷ rest) =
      if entry.0 == key then (key, v) ∷ rest else entry ∷ insert key v rest

  unfoldable pub erase : ℕ → Map V → Map V
  erase k [] = []
  erase k ((j, w) ∷ m) = if j == k then erase k m else (j, w) ∷ erase k m

  -- `m.find(k) != m.end()`.
  unfoldable pub has : ℕ → Map V → Bool
  has k [] = false
  has k ((j, w) ∷ m) = j == k || has k m

  -- `m.emplace(k, v)`, which leaves a key that is there.
  unfoldable pub emplace : ℕ → V → Map V → Map V
  emplace k v m = if has k m then m else insert k v m

  pub lookup-insert :
      (key other : ℕ) (v : V) (m : Map V)
      → lookup other (insert key v m) ≡ (if key == other then some v else lookup other m)
  unfolding lookup insert
  lookup-insert key other v [] = refl
  lookup-insert key other v (entry ∷ rest) = ground (arith, lookup-insert key other v rest)

  pub lookup-erase :
      (k j : ℕ) (m : Map V) → lookup j (erase k m) ≡ (if k == j then none else lookup j m)
  unfolding lookup erase
  lookup-erase k j [] = ground arith
  lookup-erase k j ((i, w) ∷ m) = ground (arith, lookup-erase k j m)

  pub has-insert : (k j : ℕ) (v : V) (m : Map V) → has j (insert k v m) ≡ (k == j || has j m)
  unfolding has insert
  has-insert k j v [] = refl
  has-insert k j v ((i, w) ∷ m) = ground (arith, has-insert k j v m)

  -- A key that is there stays the only new one.
  pub has-insert_present :
      (k j : ℕ) (v : V) (m : Map V) → has k m ≡ true → has j (insert k v m) ≡ has j m
  has-insert_present k j v m h = has-insert k j v m ∙ (elim (Bool-cases (k == j)) [
    | inl e ↦ let same : k ≡ j = ground arith in rw e (sym (rw same at h))
    | inr e ↦ rw e
  ])

  pub has-erase : (k j : ℕ) (m : Map V) → has j (erase k m) ≡ (if k == j then false else has j m)
  unfolding has erase
  has-erase k j [] = ground arith
  has-erase k j ((i, w) ∷ m) = ground (arith, has-erase k j m)

  pub lookup_of_has : (k : ℕ) (m : Map V) → has k m ≡ true → (v : V) × (lookup k m ≡ some v)
  unfolding lookup has
  lookup_of_has k [] h = absurd (ground arith)
  lookup_of_has k ((j, w) ∷ m) h = elim (Bool-cases (j == k)) [
    | inl e ↦ (w, rw e)
    | inr e ↦ let (v, f) = lookup_of_has k m (ground arith) in (v, rw e f)
  ]

  pub has_of_lookup : (k : ℕ) (m : Map V) {v : V} → lookup k m ≡ some v → has k m ≡ true
  unfolding lookup has
  has_of_lookup k [] h = cc
  has_of_lookup k ((j, w) ∷ m) {v} h = ground (arith, has_of_lookup k m {v = v})
