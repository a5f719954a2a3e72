-- ===== src/Plugin/Field/Describes.antt =====
-- What `CreateFieldInfo` says of a field.
use reflect_c.Base.{ℕ, ◌%◌, ◌^◌, ◌≡◌, ◌⊎◌, true, false, none, some, ltb, if◌then◌else◌}
use reflect_c.Plugin.Clang.{Clang}
use reflect_c.Plugin.Types.{FieldInfo}
use reflect_c.Plugin.Field.Names.{CleanName, TagName}
use reflect_c.Plugin.Field.Shape.{ArrayOf, PointerTo, AliasOf}

module _ (C : Clang) where
  -- The name of a type that is no record, and of one that is.
  pub data TypeNamed (t : C.QualType) (fi : FieldInfo) : Type 0 where
    other :
        (C.is_record_type t ≡ false) ⊎ (C.get_as_record_type t ≡ none)
        → CleanName (C.get_as_string t) fi.type
        → fi.is_struct_or_union ≡ false
        → TypeNamed t fi
    tagged :
        {rd : C.RecordDecl}
        → C.is_record_type t ≡ true
        → C.get_as_record_type t ≡ some rd
        → TagName C rd fi.type
        → fi.struct_or_union_name ≡ fi.type
        → fi.is_struct_or_union ≡ true
        → TypeNamed t fi

  -- A field `fi` that describes `field`, whose type is `t`.
  pub record Describes (field : C.FieldDecl) (t : C.QualType) (start : ℕ) (fi : FieldInfo)
      : Type 0 where
    pub elements : ℕ
    pub depth : ℕ
    pub element : C.QualType
    pub pointee : C.QualType
    pub array_lem : ArrayOf C (C.get_desugared_type t) elements element
    pub pointer_lem : PointerTo C element depth pointee
    pub name_lem : fi.name ≡ C.get_field_name field
    pub offset_lem : fi.offset ≡ start
    pub depth_lem : fi.pointer_depth ≡ depth
    pub size_lem : fi.array_size ≡ (if ltb 1 (elements % 2 ^ 64) then elements % 2 ^ 64 else 0)
    pub const_lem : fi.is_const ≡ C.is_const_qualified pointee
    pub alias_lem : AliasOf C (C.get_type_loc field) fi.alias
    pub type_lem : TypeNamed (C.get_unqualified_type (C.get_canonical_type pointee)) fi

  -- The last steps leave the other members as they are.
  Renames : FieldInfo → FieldInfo → Type 0
  Renames old new =
      (new.name ≡ old.name)
      × (new.offset ≡ old.offset)
      × (new.pointer_depth ≡ old.pointer_depth)
      × (new.array_size ≡ old.array_size)
      × (new.is_const ≡ old.is_const)
      × (new.alias ≡ old.alias)
