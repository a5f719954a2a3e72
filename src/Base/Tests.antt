-- ===== src/Base/Tests.antt =====
-- Boolean tests, the conditional and case splits that keep an equation.
use Prim.Native.Nat.{ℕ, ◌≤◌, ◌<◌, compare, Ordering}
use mathlib.Core.Path.{◌≡◌, refl, subst}
use mathlib.Core.Logic.{◌⊎◌, ◌↔◌, inl, inr}
use mathlib.Core.Bool.{Bool, true, false, ◌&&◌}
use mathlib.Core.List.{List, [], ◌∷◌}
use mathlib.Core.Option.{Option, none, some}
use native.Mathlib.Omega.{arith}
use native.Mathlib.Decide.{dec_lt}

abbrev pub ltb : ℕ → ℕ → Bool
ltb a b = elim (compare a b) [ Ordering.lt ↦ true | _ ↦ false ]

infix 50 ◌==◌
abbrev pub ◌==◌ : ℕ → ℕ → Bool
a == b = elim (compare a b) [ Ordering.eq ↦ true | _ ↦ false ]

infix 1 if◌then◌else◌
abbrev pub if◌then◌else◌ {ℓ} : {A : Type ℓ} → Bool → A → A → A
if true then x else y = x
if false then x else y = y

pub ==_refl : (a : ℕ) → (a == a) ≡ true
==_refl a = ground arith

pub eq-of_== : (a b : ℕ) → (a == b) ≡ true → a ≡ b
eq-of_== a b h = ground arith

pub Bool-cases : (b : Bool) → (b ≡ true) ⊎ (b ≡ false)
Bool-cases true = inl refl
Bool-cases false = inr refl

pub Option-cases {ℓ} : {A : Type ℓ} (o : Option A) → (o ≡ none) ⊎ ((a : A) × (o ≡ some a))
Option-cases none = inl refl
Option-cases (some a) = inr (a, refl)

-- Equality of byte strings.
infix 50 ◌===◌
unfoldable pub ◌===◌ : List ℕ → List ℕ → Bool
[] === [] = true
[] === (b ∷ bs) = false
(a ∷ xs) === [] = false
(a ∷ xs) === (b ∷ bs) = a == b && xs === bs

pub ===_refl : (s : List ℕ) → (s === s) ≡ true
unfolding ◌===◌
===_refl [] = refl
===_refl (a ∷ s) = ground (arith, ===_refl s)

pub eq-of_=== : (s t : List ℕ) → (s === t) ≡ true → s ≡ t
unfolding ◌===◌
eq-of_=== [] [] h = refl
eq-of_=== [] (b ∷ t) h = ground arith
eq-of_=== (a ∷ s) [] h = ground arith
eq-of_=== (a ∷ s) (b ∷ t) h = ground (arith, eq-of_=== s t)

pub ===_iff : (s t : List ℕ) → ((s === t) ≡ true) ↔ (s ≡ t)
===_iff s t = (eq-of_=== s t, λ e. subst (λ u. (s === u) ≡ true) e (===_refl s))

pub lt_cases : (a b : ℕ) → (a < b) ⊎ (b ≤ a)
lt_cases a b = elim (dec_lt a b) [ yes h ↦ inl h | no h ↦ inr (omega arith) ]

pub lt→ltb : (a b : ℕ) → a < b → ltb a b ≡ true
lt→ltb a b h = ground arith
