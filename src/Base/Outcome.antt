-- ===== src/Base/Outcome.antt =====
-- The outcome of code that may fail: a value, an error, a panic (an index out of bounds), or, in
-- the model only, a loop whose fuel ran out.
use mathlib.Core.Path.{◌≡◌, refl}
use mathlib.Core.Bool.{Bool, true, false}
use archiv_agent.Base.Tests.{if◌then◌else◌}

pub data Run {ℓ κ} (E : Type ℓ) (A : Type κ) : Type (ℓ ⊔ κ) where
  ok : A → Run E A
  err : E → Run E A
  panic : Run E A
  out_of_fuel : Run E A

infixl 5 ◌>>=◌
abbrev pub ◌>>=◌ {ℓ κ μ} :
    {E : Type ℓ} {A : Type κ} {B : Type μ} → Run E A → (A → Run E B) → Run E B
ok a >>= f = f a
err e >>= f = err e
panic >>= f = panic
out_of_fuel >>= f = out_of_fuel

-- The conversion of errors that Rust's `?` makes.
abbrev pub map_err {ℓ κ μ} : {E : Type ℓ} {F : Type μ} {A : Type κ} → (E → F) → Run E A → Run F A
map_err g (ok a) = ok a
map_err g (err e) = err (g e)
map_err g panic = panic
map_err g out_of_fuel = out_of_fuel

-- The run neither panics nor runs out of fuel, and a value that it returns satisfies `P`.
pub data Safe {ℓ κ μ} {E : Type ℓ} {A : Type κ} (P : A → Type μ) : Run E A → Type (ℓ ⊔ κ ⊔ μ) where
  safe_ok : {a : A} → P a → Safe P (ok a)
  safe_err : {e : E} → Safe P (err e)

module _ {ℓ κ} {E : Type ℓ} {A : Type κ} where
  pub Safe-bind {μ ν ξ} :
      {B : Type μ} {P : A → Type ν} (Q : B → Type ξ) {r : Run E A} (f : A → Run E B)
      → Safe P r
      → ((a : A) → P a → Safe Q (f a))
      → Safe Q (r >>= f)
  Safe-bind Q f (safe_ok {a} h) k = k a h
  Safe-bind Q f safe_err k = safe_err

  pub Safe-map {μ ν} :
      {P : A → Type μ} {Q : A → Type ν} {r : Run E A} → Safe P r → ((a : A) → P a → Q a) → Safe Q r
  Safe-map (safe_ok {a} h) k = safe_ok (k a h)
  Safe-map safe_err k = safe_err

  pub Safe-map_err {μ ν} :
      {F : Type μ} {P : A → Type ν} {r : Run E A} (g : E → F) → Safe P r → Safe P (map_err g r)
  Safe-map_err g (safe_ok h) = safe_ok h
  Safe-map_err g safe_err = safe_err

  pub Safe-if {μ} :
      (P : A → Type μ) (b : Bool) {x y : Run E A}
      → (b ≡ true → Safe P x)
      → (b ≡ false → Safe P y)
      → Safe P (if b then x else y)
  Safe-if P true hx hy = hx refl
  Safe-if P false hx hy = hy refl

  pub Safe-both {μ ν} :
      {P : A → Type μ} {Q : A → Type ν} {r : Run E A}
      → Safe P r
      → Safe Q r
      → Safe (λ a. P a × Q a) r
  Safe-both (safe_ok h) (safe_ok k) = safe_ok (h, k)
  Safe-both safe_err safe_err = safe_err

  -- A chain that returns did so in each of its steps.
  pub bind-ok {μ} :
      {B : Type μ} (r : Run E A) (f : A → Run E B) (b : B)
      → (r >>= f) ≡ ok b
      → (a : A) × (r ≡ ok a) × (f a ≡ ok b)
  bind-ok (ok a) f b e = (a, refl, e)
  bind-ok (err x) f b e = absurd cc
  bind-ok panic f b e = absurd cc
  bind-ok out_of_fuel f b e = absurd cc
