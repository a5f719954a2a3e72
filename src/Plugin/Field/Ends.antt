-- ===== src/Plugin/Field/Ends.antt =====
-- The loops of `CreateFieldInfo` on types and locations that are finite.
use reflect_c.Base.{
  ℕ, zero, suc, ◌+◌, ◌*◌, ◌%◌, ◌^◌, ◌≤◌, ◌<◌, ◌≡◌, inl, inr, Option, none, some, [], arith,
  Option-cases, Run, Terminates, Terminates-ok, Terminates-bind, ok,
}
use reflect_c.Plugin.Clang.{Clang, IsFinite}
use reflect_c.Plugin.Field.{
  alias_loop, alias_name, array_loop, pointer_loop, peel, create_field_info,
}

-- A loop ends if what its first round leaves does.
pub more {ℓ} :
    {V : Type ℓ} (run : ℕ → Run V) (v : V) (bound : ℕ)
    → ((fuel : ℕ) → bound ≤ fuel → run (suc fuel) ≡ ok v)
    → Terminates run
more run v bound h = record { value = v; bound = suc bound; ends = λ fuel le. from_suc fuel le }
  where
    from_suc : (fuel : ℕ) → suc bound ≤ fuel → run fuel ≡ ok v
    from_suc zero le = absurd (omega arith)
    from_suc (suc fuel) le = h fuel (omega arith)

module _ (C : Clang) (finite : IsFinite C) where
  alias_loop-Terminates :
      (rank : ℕ) (tl : C.TypeLoc)
      → finite.loc_rank tl < rank
      → Terminates (λ fuel. alias_loop C fuel tl)
  unfolding alias_loop
  alias_loop-Terminates zero tl small = absurd (omega arith)
  alias_loop-Terminates (suc rank) tl small = elim (Option-cases (C.as_typedef_type_loc tl)) [
    | inr (name, e) ↦ more (λ fuel. alias_loop C fuel tl) name 0 (λ fuel h. rw (alias_loop, e))
    | inl e ↦ elim (Option-cases (C.as_elaborated_type_loc tl)) [
      | inl e' ↦ more (λ fuel. alias_loop C fuel tl) [] 0 (λ fuel h. rw (alias_loop, e, e'))
      | inr (m, e') ↦
          let lt = finite.named_lt tl m e' in
          let t = alias_loop-Terminates rank m (omega arith) in
          more (λ fuel. alias_loop C fuel tl) t.value t.bound
            (λ fuel h. rw (alias_loop, e, e') (t.ends fuel h))
    ]
  ]

  array_loop-Terminates :
      (rank total : ℕ) (t : C.QualType)
      → finite.type_rank t < rank
      → Terminates (λ fuel. array_loop C fuel total t)
  unfolding array_loop
  array_loop-Terminates zero total t small = absurd (omega arith)
  array_loop-Terminates (suc rank) total t small =
      elim (Option-cases (C.get_as_constant_array_type t)) [
        | inl e ↦
            more (λ fuel. array_loop C fuel total t) (total, t) 0 (λ fuel h. rw (array_loop, e))
        | inr ((n, u), e) ↦
            let lt = finite.element_lt t u n e in
            let r = array_loop-Terminates rank (total * n % 2 ^ 64) u (omega arith) in
            more (λ fuel. array_loop C fuel total t) r.value r.bound
              (λ fuel h. rw (array_loop, e) (r.ends fuel h))
      ]

  pointer_loop-Terminates :
      (rank depth : ℕ) (t : C.QualType)
      → finite.type_rank t < rank
      → Terminates (λ fuel. pointer_loop C fuel depth t)
  unfolding pointer_loop
  pointer_loop-Terminates zero depth t small = absurd (omega arith)
  pointer_loop-Terminates (suc rank) depth t small = elim (Option-cases (C.get_as_pointer_type t)) [
    | inl e ↦
        more (λ fuel. pointer_loop C fuel depth t) (depth, t) 0 (λ fuel h. rw (pointer_loop, e))
    | inr (u, e) ↦
        let lt = finite.pointee_lt t u e in
        let r = pointer_loop-Terminates rank (depth + 1) u (omega arith) in
        more (λ fuel. pointer_loop C fuel depth t) r.value r.bound
          (λ fuel h. rw (pointer_loop, e) (r.ends fuel h))
  ]

  alias_name-Terminates : (tl : Option C.TypeLoc) → Terminates (λ fuel. alias_name C fuel tl)
  alias_name-Terminates none = Terminates-ok []
  alias_name-Terminates (some tl) =
      alias_loop-Terminates (suc (finite.loc_rank tl)) tl (omega arith)

  peel-Terminates : (t : C.QualType) → Terminates (λ fuel. peel C fuel t)
  unfolding peel
  peel-Terminates t = elim (Option-cases (C.get_as_constant_array_type t)) [
    | inl e ↦
        rw (peel, e)
          (Terminates-bind (pointer_loop-Terminates (suc (finite.type_rank t)) 0 t (omega arith))
            λ v. Terminates-ok _)
    | inr (a, e) ↦
        rw (peel, e)
          (Terminates-bind (array_loop-Terminates (suc (finite.type_rank t)) 1 t (omega arith)) λ v.
            Terminates-bind
              (pointer_loop-Terminates (suc (finite.type_rank v.1)) 0 v.1 (omega arith))
              λ w. Terminates-ok _)
  ]

  -- Enough fuel for the depth of the type.
  pub create_field_info-Terminates :
      (field : C.FieldDecl) (t : C.QualType) (offset : ℕ)
      → Terminates (λ fuel. create_field_info C fuel field t offset)
  unfolding create_field_info
  create_field_info-Terminates field t offset =
      Terminates-bind (alias_name-Terminates (C.get_type_loc field)) λ alias.
        Terminates-bind (peel-Terminates (C.get_desugared_type t)) λ peeled. Terminates-ok _
