-- ===== src/Base/Opt.antt =====
-- `Option` as the monad of code that may fault: `none` is a use of a null pointer or an index out
-- of range, or a run that spent its fuel.
use mathlib.Core.Path.{◌≡◌, refl, subst}
use mathlib.Core.Logic.{◌⊎◌, inl, inr}
use mathlib.Core.Option.{Option, none, some, some-injective}

infixl 5 ◌>>=◌
abbrev pub ◌>>=◌ {ℓ κ} : {A : Type ℓ} {B : Type κ} → Option A → (A → Option B) → Option B
none >>= f = none
some a >>= f = f a

-- The run returns, and its result satisfies `P`.
pub data Returns {ℓ} {A : Type ℓ} (P : A → Type 0) : Option A → Type ℓ where
  returns : {a : A} → P a → Returns P (some a)

module _ {ℓ} {A : Type ℓ} {P : A → Type 0} where
  pub bind {κ} :
      {B : Type κ} {Q : B → Type 0} {m : Option A} {f : A → Option B}
      → Returns P m
      → ((a : A) → P a → Returns Q (f a))
      → Returns Q (m >>= f)
  bind (returns p) next = next _ p

  pub mono : {Q : A → Type 0} {m : Option A} → Returns P m → ((a : A) → P a → Q a) → Returns Q m
  mono (returns p) weaken = returns (weaken _ p)

  pub Returns-some : {a : A} {m : Option A} → Returns P m → m ≡ some a → P a
  Returns-some (returns {a = b} p) e = subst P (some-injective _ _ e) p

  pub Returns-result : {m : Option A} → Returns P m → (a : A) × (m ≡ some a) × P a
  Returns-result (returns {a} p) = (a, refl, p)

pub Option-cases {ℓ} : {A : Type ℓ} (o : Option A) → (o ≡ none) ⊎ ((a : A) × (o ≡ some a))
Option-cases none = inl refl
Option-cases (some a) = inr (a, refl)
