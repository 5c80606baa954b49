-- ===== src/Prelude/Outcomes.antt =====
-- What holds of the result of a step that may fail: `Returns P x` says nothing of a failure.
use mathlib.Core.Bool.{Bool, true, false}
use mathlib.Core.Option.{Option, none, some}
use mathlib.Core.Path.{◌≡◌, refl}
use mathlib.Core.Path.{subst}
use kierki.Prelude.Tests.{◌>>=◌, if◌then◌else◌}

module _ {ℓ} {A : Type ℓ} where
  abbrev pub Returns : (A → Type 0) → Option A → Type 0
  Returns P none = Unit {0}
  Returns P (some a) = P a

  pub Returns-mono :
      (P Q : A → Type 0) (x : Option A) → ((a : A) → P a → Q a) → Returns P x → Returns Q x
  Returns-mono P Q none f h = tt
  Returns-mono P Q (some a) f h = f a h

  pub Returns-elim : (P : A → Type 0) (x : Option A) {a : A} → x ≡ some a → Returns P x → P a
  Returns-elim P x e h = subst (Returns P) e h

  pub Returns-if :
      (P : A → Type 0) (b : Bool) (x y : Option A)
      → (b ≡ true → Returns P x)
      → (b ≡ false → Returns P y)
      → Returns P (if b then x else y)
  Returns-if P true x y f g = f refl
  Returns-if P false x y f g = g refl

-- The step behind may use that the first one returned its value.
pub Returns-bind {ℓ κ} :
    {A : Type ℓ} {B : Type κ} (P : B → Type 0) (x : Option A) (f : A → Option B)
    → ((a : A) → x ≡ some a → Returns P (f a))
    → Returns P (x >>= f)
Returns-bind P none f h = tt
Returns-bind P (some a) f h = h a refl

-- A chain of two steps behind one that may fail.
pub bind_after {ℓ κ μ} :
    {A : Type ℓ} {B : Type κ} {C : Type μ} (x : Option A) (f : A → Option C) (g : A → Option B)
    (h : B → Option C)
    → ((a : A) → f a ≡ (g a >>= h))
    → (x >>= f) ≡ ((x >>= g) >>= h)
bind_after none f g h same = refl
bind_after (some a) f g h same = same a
