-- ===== src/Base/Results.antt =====
-- Results of code that may throw, with `do`.
use mathlib.Core.Path.{◌≡◌, refl}

module _ {ℓ κ} where
  pub data Result (E : Type ℓ) (A : Type κ) : Type (ℓ ⊔ κ) where
    ok : A → Result E A
    err : E → Result E A

infixl 5 ◌>>=◌
abbrev pub ◌>>=◌ {ℓ κ μ} :
    {E : Type ℓ} {A : Type κ} {B : Type μ} → Result E A → (A → Result E B) → Result E B
ok a >>= f = f a
err e >>= f = err e

-- A chain that returns has its first result.
pub bind_ok {ℓ κ μ} :
    {E : Type ℓ} {A : Type κ} {B : Type μ} (r : Result E A) (f : A → Result E B) (b : B)
    → (r >>= f) ≡ ok b
    → (a : A) × (r ≡ ok a) × (f a ≡ ok b)
bind_ok (ok a) f b h = (a, refl, h)
bind_ok (err e) f b h = absurd (cc)
