-- ===== src/Plugin/Visit/Ends.antt =====
-- The `Visit` methods on declarations that are finite.
use reflect_c.Base.{
  ℕ, zero, suc, ◌+◌, ◌%◌, ◌^◌, ◌<◌, ◌≡◌, refl, inl, inr, Option, none, some, List, [], ◌∷◌, arith,
  Bool-cases, get_elem?, Run, Terminates, Terminates-ok, Terminates-bind, Terminates-suc,
  Terminates-pred, ok,
}
use reflect_c.Format.{Text}
use reflect_c.Plugin.Clang.{Clang, IsFinite}
use reflect_c.Plugin.Types.{RecordInfo}
use reflect_c.Plugin.Field.Ends.{create_field_info-Terminates}
use reflect_c.Plugin.Visitor.{Visitor}
use reflect_c.Plugin.Visit.Paths.Nested.{nested_record-Enters}
use reflect_c.Plugin.Visit.{
  nested_record, byte_offset, or_skip, nested_loop, reflect_nested_fields, field_loop,
  register_field, name_of_record, visit_named_record, visit_record_decl,
}

or_skip-Terminates {ℓ κ} :
    {A : Type ℓ} {B : Type κ} (o : Option A) (b : B) (f : A → ℕ → Run B)
    → ((a : A) → o ≡ some a → Terminates (f a))
    → Terminates (λ fuel. or_skip o (ok b) (λ a. f a fuel))
or_skip-Terminates none b f h = Terminates-ok b
or_skip-Terminates (some a) b f h = h a refl

module _ (C : Clang) (finite : IsFinite C) where
  -- The complete records of the fields have a rank below `rank`.
  abbrev AllBelow : ℕ → List C.FieldDecl → Type 0
  AllBelow rank fields =
      (j : ℕ) (field : C.FieldDecl) (rd : C.RecordDecl)
      → get_elem? fields j ≡ some field
      → nested_record C field ≡ some rd
      → finite.record_rank rd < rank

  fields-AllBelow : (rd : C.RecordDecl) → AllBelow (finite.record_rank rd) (C.fields rd)
  fields-AllBelow rd j field nested at is =
      let (typed, complete) = nested_record-Enters C field nested is in
      finite.nested_lt rd nested j field at typed complete

  nested_loop-Terminates :
      (rank : ℕ) (rd : C.RecordDecl) (fields : List C.FieldDecl) (index : ℕ) (prefix : Text)
      (base_offset : ℕ) (r : RecordInfo)
      → AllBelow rank fields
      → Terminates (λ fuel. nested_loop C fuel rd fields index prefix base_offset r)
  unfolding nested_loop
  nested_loop-Terminates rank rd [] index prefix base_offset r below = record {
    value = r;
    bound = 0;
    ends = λ fuel h. refl;
  }
  nested_loop-Terminates zero rd (field ∷ fields) index prefix base_offset r below =
      let offset = (base_offset + byte_offset C rd index) % 2 ^ 64 in
      Terminates-pred (
        Terminates-bind (create_field_info-Terminates C finite field (C.get_type field) offset)
          λ info.
            Terminates-bind
              (or_skip-Terminates (nested_record C field) _ _
                λ nested is. absurd (below_zero nested is))
              λ inner. Terminates-suc (
                nested_loop-Terminates zero rd fields (index + 1) prefix base_offset inner
                  (λ j f n at is. below (suc j) f n at is)))
    where
      below_zero : (nested : C.RecordDecl) → nested_record C field ≡ some nested → ⊥
      below_zero nested is = absurd (let lt = below 0 field nested refl is in omega arith)
  nested_loop-Terminates (suc rank) rd (field ∷ fields) index prefix base_offset r below =
      let offset = (base_offset + byte_offset C rd index) % 2 ^ 64 in
      Terminates-pred (
        Terminates-bind (create_field_info-Terminates C finite field (C.get_type field) offset)
          λ info.
            Terminates-bind
              (or_skip-Terminates (nested_record C field) _ _ λ nested is.
                let lt = below 0 field nested refl is in
                nested_loop-Terminates rank nested (C.fields nested) 0 _ offset _
                  (λ j f n at is'. let lt' = fields-AllBelow nested j f n at is' in omega arith))
              λ inner. Terminates-suc (
                nested_loop-Terminates (suc rank) rd fields (index + 1) prefix base_offset inner
                  (λ j f n at is. below (suc j) f n at is)))

  reflect_nested_fields-Terminates :
      (rd : C.RecordDecl) (prefix : Text) (r : RecordInfo) (base_offset : ℕ)
      → Terminates (λ fuel. reflect_nested_fields C fuel rd prefix r base_offset)
  unfolding reflect_nested_fields
  reflect_nested_fields-Terminates rd prefix r base_offset =
      nested_loop-Terminates (finite.record_rank rd) rd (C.fields rd) 0 prefix base_offset r
        (fields-AllBelow rd)

  field_loop-Terminates :
      (rd : C.RecordDecl) (fields : List C.FieldDecl) (index : ℕ) (r : RecordInfo) (v : Visitor)
      → Terminates (λ fuel. field_loop C fuel rd fields index r v)
  unfolding field_loop
  field_loop-Terminates rd [] index r v = Terminates-ok (r, v)
  field_loop-Terminates rd (field ∷ fields) index r v =
      Terminates-bind
        (create_field_info-Terminates C finite field (C.get_type field) (byte_offset C rd index))
        λ fi.
          Terminates-bind
            (or_skip-Terminates (nested_record C field) _ _
              λ nested is. reflect_nested_fields-Terminates nested _ _ _)
            λ inner. field_loop-Terminates rd fields (index + 1) inner (register_field fi v)

  -- Enough fuel for the nesting of the records.
  pub visit_record_decl-Terminates :
      (rd : C.RecordDecl) (v : Visitor) → Terminates (λ fuel. visit_record_decl C fuel rd v)
  unfolding visit_record_decl visit_named_record
  visit_record_decl-Terminates rd v = elim (Bool-cases (C.is_complete_definition rd)) [
    | inr no_def ↦ rw no_def (Terminates-ok v)
    | inl full ↦ rw full (
        or_skip-Terminates (name_of_record C rd) v _ λ name is.
          Terminates-bind (field_loop-Terminates rd (C.fields rd) 0 _ _) λ found. Terminates-ok _)
  ]
