-- ===== src/Base/Outcome.antt =====
-- `std::result::Result`, with the type of the value first.
use mathlib.Core.Bool.{Bool, true, false}
use mathlib.Core.Path.{◌≡◌, refl}
use native.Mathlib.Omega.{arith}

pub data Result {ℓ κ} (A : Type ℓ) (E : Type κ) : Type (ℓ ⊔ κ) where
  ok : A → Result A E
  err : E → Result A E

-- `?`, as `do` blocks use it.
infixl 5 ◌>>=◌ ◌>>◌
abbrev pub ◌>>=◌ {ℓ κ μ} :
    {A : Type ℓ} {B : Type κ} {E : Type μ} → Result A E → (A → Result B E) → Result B E
ok a >>= f = f a
err e >>= f = err e

abbrev pub ◌>>◌ {κ μ} : {B : Type κ} {E : Type μ} → Result (Unit {0}) E → Result B E → Result B E
m >> k = m >>= λ _. k

-- `ensure!`
abbrev pub ensure {μ} : {E : Type μ} → Bool → E → Result (Unit {0}) E
ensure true e = ok tt
ensure false e = err e

abbrev pub is_ok {ℓ κ} : {A : Type ℓ} {E : Type κ} → Result A E → Bool
is_ok (ok a) = true
is_ok (err e) = false

-- A chain that succeeds has a first step that does.
pub bind-ok {ℓ κ μ} :
    {A : Type ℓ} {B : Type κ} {E : Type μ} (m : Result A E) (k : A → Result B E) (x : B)
    → (m >>= k) ≡ ok x
    → (y : A) × (m ≡ ok y) × (k y ≡ ok x)
bind-ok (ok y) k x h = (y, refl, h)
bind-ok (err e) k x h = absurd (ground arith)
