-- ===== src/Plugin/Field/Shape.antt =====
-- What the three loops of `CreateFieldInfo` find.
use native.Mathlib.Nat.{mul_assoc, mod-add-div, add-mul-mod_self_left}
use reflect_c.Base.{
  ℕ, zero, suc, ◌+◌, ◌*◌, ◌/◌, ◌%◌, ◌^◌, ◌<◌, ◌≡◌, refl, sym, ap, ◌∙◌, subst, inl, inr, Option,
  none, some, [], arith, Option-cases, After, After-bind, After-map, reached, stopped,
}
use reflect_c.Format.{Text}
use reflect_c.Plugin.Clang.{Clang}
use reflect_c.Plugin.Field.{alias_loop, alias_name, array_loop, pointer_loop, peel}

mul-mod : (a k m : ℕ) → a % m * k % m ≡ a * k % m
mul-mod a k m =
    sym (add-mul-mod_self_left (a % m * k) m (a / m * k))
    ∙ ap (λ n. n % m) (omega arith ∙ ap (λ n. n * k) (mod-add-div a m))

module _ (C : Clang) where
  -- An array of arrays has so many elements in all, of this type.
  pub data ArrayOf : C.QualType → ℕ → C.QualType → Type 0 where
    plain : {t : C.QualType} → C.get_as_constant_array_type t ≡ none → ArrayOf t 1 t
    array :
        {t e u : C.QualType} {n k : ℕ}
        → C.get_as_constant_array_type t ≡ some (n, e)
        → ArrayOf e k u
        → ArrayOf t (n * k) u

  -- So many pointers lead to this type.
  pub data PointerTo : C.QualType → ℕ → C.QualType → Type 0 where
    target : {t : C.QualType} → C.get_as_pointer_type t ≡ none → PointerTo t 0 t
    pointer :
        {t p u : C.QualType} {d : ℕ}
        → C.get_as_pointer_type t ≡ some p
        → PointerTo p d u
        → PointerTo t (suc d) u

  array_loop-ArrayOf :
      (fuel total : ℕ) (t : C.QualType)
      → total < 2 ^ 64
      → After
          (λ (m, u). (k : ℕ) × ArrayOf t k u × (m ≡ total * k % 2 ^ 64))
          (array_loop C fuel total t)
  unfolding array_loop
  array_loop-ArrayOf zero total t small = stopped
  array_loop-ArrayOf (suc fuel) total t small =
      elim (Option-cases (C.get_as_constant_array_type t)) [
        | inl e ↦ rw (array_loop, e) (reached (1, plain e, omega arith))
        | inr ((n, u), e) ↦
            rw (array_loop, e)
              (After-map
                (λ (m, w) (k, of, eq). (
                  n * k,
                  array e of,
                  eq ∙ mul-mod (total * n) k (2 ^ 64) ∙ ap (λ x. x % 2 ^ 64) (mul_assoc total n k),
                ))
                (array_loop-ArrayOf fuel (total * n % 2 ^ 64) u (omega arith)))
      ]

  pointer_loop-PointerTo :
      (fuel depth : ℕ) (t : C.QualType)
      → After (λ (m, u). (d : ℕ) × PointerTo t d u × (m ≡ depth + d)) (pointer_loop C fuel depth t)
  unfolding pointer_loop
  pointer_loop-PointerTo zero depth t = stopped
  pointer_loop-PointerTo (suc fuel) depth t = elim (Option-cases (C.get_as_pointer_type t)) [
    | inl e ↦ rw (pointer_loop, e) (reached (0, target e, omega arith))
    | inr (p, e) ↦
        rw (pointer_loop, e)
          (After-map (λ (m, w) (d, to, eq). (suc d, pointer e to, omega arith))
            (pointer_loop-PointerTo fuel (depth + 1) p))
  ]

  -- What is told of a type: elements in all, pointers, and what is behind them.
  pub data Peeled (t : C.QualType) : ℕ × ℕ × C.QualType → Type 0 where
    of_array :
        {elements depth : ℕ} {e u : C.QualType}
        → ArrayOf t elements e
        → PointerTo e depth u
        → Peeled t (elements % 2 ^ 64, depth, u)

  pub peel-Peeled : (fuel : ℕ) (t : C.QualType) → After (Peeled t) (peel C fuel t)
  unfolding peel
  peel-Peeled fuel t = elim (Option-cases (C.get_as_constant_array_type t)) [
    | inl e ↦
        rw (peel, e)
          (After-bind (pointer_loop-PointerTo fuel 0 t) λ (m, u) (d, to, eq). reached (
            subst (λ n. Peeled t (1, n, u)) (sym eq)
              (of_array (plain e) (subst (λ n. PointerTo t n u) (omega arith) to))))
    | inr (a, e) ↦
        rw (peel, e)
          (After-bind (array_loop-ArrayOf fuel 1 t (omega arith)) λ (n, w) (k, of, eq).
            After-bind (pointer_loop-PointerTo fuel 0 w) λ (m, u) (d, to, eq'). reached (
              subst (λ i. Peeled t (i, m, u)) (omega (arith, eq))
                (subst (λ i. Peeled t (k % 2 ^ 64, i, u)) (omega (arith, eq')) (of_array of to))))
  ]

  -- The first typedef among the locations, if there is one.
  pub data AliasAt : C.TypeLoc → Text → Type 0 where
    typedef : {l : C.TypeLoc} {s : Text} → C.as_typedef_type_loc l ≡ some s → AliasAt l s
    named :
        {l m : C.TypeLoc} {s : Text}
        → C.as_typedef_type_loc l ≡ none
        → C.as_elaborated_type_loc l ≡ some m
        → AliasAt m s
        → AliasAt l s
    no_alias :
        {l : C.TypeLoc}
        → C.as_typedef_type_loc l ≡ none
        → C.as_elaborated_type_loc l ≡ none
        → AliasAt l []

  alias_loop-AliasAt : (fuel : ℕ) (l : C.TypeLoc) → After (AliasAt l) (alias_loop C fuel l)
  unfolding alias_loop
  alias_loop-AliasAt zero l = stopped
  alias_loop-AliasAt (suc fuel) l = elim (Option-cases (C.as_typedef_type_loc l)) [
    | inr (s, e) ↦ rw (alias_loop, e) (reached (typedef e))
    | inl e ↦ elim (Option-cases (C.as_elaborated_type_loc l)) [
      | inl e' ↦ rw (alias_loop, e, e') (reached (no_alias e e'))
      | inr (m, e') ↦
          rw (alias_loop, e, e') (After-map (λ s at. named e e' at) (alias_loop-AliasAt fuel m))
    ]
  ]

  pub AliasOf : Option C.TypeLoc → Text → Type 0
  AliasOf none s = s ≡ []
  AliasOf (some l) s = AliasAt l s

  pub alias_name-AliasOf :
      (fuel : ℕ) (l : Option C.TypeLoc) → After (AliasOf l) (alias_name C fuel l)
  unfolding AliasOf
  alias_name-AliasOf fuel none = reached refl
  alias_name-AliasOf fuel (some l) = alias_loop-AliasAt fuel l
