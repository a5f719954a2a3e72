-- ===== src/Memory/Strings.antt =====
-- What a `char*` stands for, `strcmp` on it, and memories that grow.
use reflect_c.Base.{
  ℕ, zero, suc, ◌≤◌, ◌<◌, ◌≡◌, refl, ◌∙◌, inl, inr, Option, none, some, List, [], ◌∷◌, ◌++◌, arith,
  ◌==◌, if◌then◌else◌, Option-cases, ◌===◌, lt_cases, length, get_or, length-append, get_or-append,
  drop-nil, ok,
}
use mathlib.Core.Option
use reflect_c.Memory.{Memory, CharPtr, bytes_at, strcmp_zero}

-- The bytes before the first NUL, if there is one.
unfoldable pub c_string : List ℕ → Option (List ℕ)
c_string [] = none
c_string (b ∷ bs) = if b == 0 then some [] else Option.map (λ s. b ∷ s) (c_string bs)

abbrev pub text : Memory → CharPtr → Option (List ℕ)
text mem p = c_string (bytes_at mem p)

abbrev pub name_of : Memory → Option CharPtr → Option (List ℕ)
name_of mem none = none
name_of mem (some p) = text mem p

-- `strcmp` tells whether two strings are equal, whatever lies behind their ends.
pub strcmp_zero-=== :
    (xs ys s t : List ℕ)
    → c_string xs ≡ some s
    → c_string ys ≡ some t
    → strcmp_zero xs ys ≡ ok (s === t)
unfolding c_string strcmp_zero ◌===◌
strcmp_zero-=== [] ys s t hs ht = ground arith
strcmp_zero-=== (x ∷ xs) [] s t hs ht = ground arith
strcmp_zero-=== (x ∷ xs) (y ∷ ys) s t hs ht = elim (Option-cases (c_string xs)) [
  | inl e ↦ ground arith
  | inr (s', e) ↦ elim (Option-cases (c_string ys)) [
    | inl e' ↦ ground arith
    | inr (t', e') ↦ ground (arith, strcmp_zero-=== xs ys s' t')
  ]
]

-- The memory grows and keeps its blocks.
pub record Extends (mem mem' : Memory) : Type 0 where
  pub grows : length mem ≤ length mem'
  pub same : (b : ℕ) → b < length mem → get_or mem' b [] ≡ get_or mem b []

pub Extends-refl : (mem : Memory) → Extends mem mem
Extends-refl mem = record { grows = omega arith; same = λ b h. refl }

pub Extends-trans : {m₁ m₂ m₃ : Memory} → Extends m₁ m₂ → Extends m₂ m₃ → Extends m₁ m₃
Extends-trans e e' = record {
  grows = omega arith;
  same = λ b h. e'.same b (omega arith) ∙ e.same b h;
}

pub Extends-append : (mem : Memory) (bs : List ℕ) → Extends mem (mem ++ bs ∷ [])
Extends-append mem bs = record {
  grows = omega (arith, length-append mem (bs ∷ []));
  same = λ b h. get_or-append mem (bs ∷ []) b [] h;
}

get_or-oob : (mem : Memory) (b : ℕ) → length mem ≤ b → get_or mem b [] ≡ []
get_or-oob [] b h = refl
get_or-oob (x ∷ mem) zero h = absurd (omega arith)
get_or-oob (x ∷ mem) (suc b) h = get_or-oob mem b (omega arith)

-- A string keeps its text while the memory grows.
pub text-Extends :
    {mem mem' : Memory}
    → Extends mem mem'
    → (p : CharPtr) {s : List ℕ} → text mem p ≡ some s
    → text mem' p ≡ some s
unfolding c_string
text-Extends {mem} e p h = elim (lt_cases p.block (length mem)) [
  | inl inside ↦ rw (e.same p.block inside) h
  | inr outside ↦ let t = rw (get_or-oob mem p.block outside, drop-nil) at h in cc t
]

pub name_of-Extends :
    {mem mem' : Memory}
    → Extends mem mem'
    → (p : Option CharPtr) {s : List ℕ} → name_of mem p ≡ some s
    → name_of mem' p ≡ some s
name_of-Extends e none h = cc
name_of-Extends e (some p) h = text-Extends e p h
