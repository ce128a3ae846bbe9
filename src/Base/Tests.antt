-- ===== src/Base/Tests.antt =====
-- Boolean tests on the native numbers, the conditional, and splits that keep the equation.
use Prim.Native.Nat.{ℕ, ◌≤◌, ◌<◌, compare, Ordering}
use mathlib.Core.Path.{◌≡◌, refl, sym, ◌∙◌}
use mathlib.Core.Logic.{◌≢◌, ◌↔◌, ◌⊎◌, inl, inr}
use mathlib.Core.Bool.{Bool, true, false, not, ◌&&◌, ◌||◌}
use mathlib.Core.Option.{Option, none, some}
use mathlib.Core.List.{List, [], ◌∷◌}
use native.Mathlib.Omega.{arith}

abbrev pub ltb : ℕ → ℕ → Bool
ltb a b = elim (compare a b) [ Ordering.lt ↦ true | _ ↦ false ]

abbrev pub leb : ℕ → ℕ → Bool
leb a b = elim (compare a b) [ Ordering.gt ↦ false | _ ↦ true ]

infix 50 ◌==◌
abbrev pub ◌==◌ : ℕ → ℕ → Bool
a == b = elim (compare a b) [ Ordering.eq ↦ true | _ ↦ false ]

infix 1 if◌then◌else◌
abbrev pub if◌then◌else◌ {ℓ} : {A : Type ℓ} → Bool → A → A → A
if true then x else y = x
if false then x else y = y

pub ltb→lt : (a b : ℕ) → ltb a b ≡ true → a < b
ltb→lt a b h = ground arith

pub lt→ltb : (a b : ℕ) → a < b → ltb a b ≡ true
lt→ltb a b h = ground arith

pub leb→le : (a b : ℕ) → leb a b ≡ true → a ≤ b
leb→le a b h = ground arith

pub leb→lt : (a b : ℕ) → leb a b ≡ false → b < a
leb→lt a b h = ground arith

pub le→leb : (a b : ℕ) → a ≤ b → leb a b ≡ true
le→leb a b h = ground arith

pub lt→leb : (a b : ℕ) → b < a → leb a b ≡ false
lt→leb a b h = ground arith

pub ==_iff : (a b : ℕ) → ((a == b) ≡ true) ↔ (a ≡ b)
==_iff a b = ground arith

pub ==_self : (a : ℕ) → (a == a) ≡ true
==_self a = (==_iff a a).1 refl

pub Bool-cases : (b : Bool) → (b ≡ true) ⊎ (b ≡ false)
Bool-cases true = inl refl
Bool-cases false = inr refl

pub Option-cases {ℓ} : {A : Type ℓ} (o : Option A) → (o ≡ none) ⊎ ((a : A) × (o ≡ some a))
Option-cases none = inl refl
Option-cases (some a) = inr (a, refl)

-- Equality of byte strings, as Rust's slices compare.
abbrev pub bytes_eq : List ℕ → List ℕ → Bool
bytes_eq [] [] = true
bytes_eq (x ∷ xs) (y ∷ ys) = x == y && bytes_eq xs ys
bytes_eq _ _ = false

pub bytes_eq_iff : (xs ys : List ℕ) → (bytes_eq xs ys ≡ true) ↔ (xs ≡ ys)
bytes_eq_iff xs ys = (sound xs ys, λ e. complete xs ys e)
  where
    sound : (xs ys : List ℕ) → bytes_eq xs ys ≡ true → xs ≡ ys
    sound [] [] h = refl
    sound [] (y ∷ ys) h = ground arith
    sound (x ∷ xs) [] h = ground arith
    sound (x ∷ xs) (y ∷ ys) h = ground (arith, sound xs ys)

    complete : (xs ys : List ℕ) → xs ≡ ys → bytes_eq xs ys ≡ true
    complete [] [] h = refl
    complete [] (y ∷ ys) h = ground arith
    complete (x ∷ xs) [] h = ground arith
    complete (x ∷ xs) (y ∷ ys) h = ground (arith, complete xs ys)

-- A property of both branches, each under its test, is one of the conditional.
pub if_case {ℓ κ} :
    {A : Type ℓ} (Q : A → Type κ) (b : Bool) {x y : A}
    → (b ≡ true → Q x)
    → (b ≡ false → Q y)
    → Q (if b then x else y)
if_case Q true hx hy = hx refl
if_case Q false hx hy = hy refl

-- A guard of two negated tests that lets through.
pub or_not : (x y : Bool) → (not x || not y) ≡ false → (x ≡ true) × (y ≡ true)
or_not true true e = (refl, refl)
or_not true false e = (refl, absurd cc)
or_not false y e = (absurd cc, absurd cc)

-- Texts that the test tells apart are different.
pub bytes_eq-differs : (xs ys : List ℕ) → bytes_eq xs ys ≡ false → xs ≢ ys
bytes_eq-differs xs ys h e =
    let g : bytes_eq xs ys ≡ true = (bytes_eq_iff xs ys).1 e in absurd (apart (sym h ∙ g))
  where
    apart : false ≢ true
    apart z = cc

-- A guard of two negated tests of equality that refuses.
pub or_differs :
    (xs ys us vs : List ℕ)
    → (not (bytes_eq xs ys) || not (bytes_eq us vs)) ≡ true
    → (xs ≢ ys) ⊎ (us ≢ vs)
or_differs xs ys us vs e = elim (Bool-cases (bytes_eq xs ys)) [
  | inl same ↦ inr (bytes_eq-differs us vs (ground (arith, e, same)))
  | inr other ↦ inl (bytes_eq-differs xs ys other)
]
