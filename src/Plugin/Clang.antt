-- ===== src/Plugin/Clang.antt =====
-- What plugin/ReflectVisitor.cpp asks of Clang's syntax tree: a parameter of all that follows. The
-- fields bear the names of the methods; a pointer that may be null is an option, a declaration's
-- canonical address a number.
use reflect_c.Base.{ℕ, ◌<◌, ◌≡◌, Bool, true, Option, some, List, get_elem?}
use reflect_c.Format.{Text}
use reflect_c.Plugin.Int.{ℤ}

pub record Clang : Type 1 where
  pub RecordDecl : Type 0
  pub FieldDecl : Type 0
  pub EnumDecl : Type 0
  pub TypedefDecl : Type 0
  pub QualType : Type 0
  pub TypeLoc : Type 0
  -- `RecordDecl`, with its layout: the size in bytes, the offsets in bits.
  pub is_complete_definition : RecordDecl → Bool
  pub is_struct : RecordDecl → Bool
  pub get_name : RecordDecl → Text
  pub get_typedef_name_for_anon_decl : RecordDecl → Option Text
  pub get_canonical_decl : RecordDecl → ℕ
  pub fields : RecordDecl → List FieldDecl
  pub get_size : RecordDecl → ℕ
  pub get_field_offset : RecordDecl → ℕ → ℕ
  -- `FieldDecl`; the location is of its `TypeSourceInfo`.
  pub get_field_name : FieldDecl → Text
  pub get_type : FieldDecl → QualType
  pub get_type_loc : FieldDecl → Option TypeLoc
  -- `TypeLoc`: the name of the typedef, or the location of the named type.
  pub as_typedef_type_loc : TypeLoc → Option Text
  pub as_elaborated_type_loc : TypeLoc → Option TypeLoc
  -- `QualType`
  pub get_desugared_type : QualType → QualType
  pub get_as_constant_array_type : QualType → Option (ℕ × QualType)
  pub get_as_pointer_type : QualType → Option QualType
  pub get_as_record_type : QualType → Option RecordDecl
  pub get_canonical_type : QualType → QualType
  pub get_unqualified_type : QualType → QualType
  pub is_const_qualified : QualType → Bool
  pub is_record_type : QualType → Bool
  pub get_as_string : QualType → Text
  -- `EnumDecl`; an enumerator has a name and a value of type `int64_t`.
  pub enum_is_complete_definition : EnumDecl → Bool
  pub get_enum_name : EnumDecl → Text
  pub get_typedef_name_for_anon_enum : EnumDecl → Option Text
  pub get_canonical_enum : EnumDecl → ℕ
  pub get_type_size_in_chars : EnumDecl → ℕ
  pub enumerators : EnumDecl → List (Text × ℤ)
  -- `TypedefDecl`; of a tag type, the canonical address of its declaration.
  pub get_typedef_name : TypedefDecl → Text
  pub get_underlying_type : TypedefDecl → QualType
  pub get_as_tag_type : QualType → Option ℕ
  -- Of the target: the width of a pointer in bits.
  pub get_pointer_width : ℕ

-- Clang's trees are finite: a type is larger than its element and pointee types, a location than the
-- location inside it, and a record that is complete than the complete records of its fields.
pub record IsFinite (C : Clang) : Type 0 where
  pub type_rank : C.QualType → ℕ
  pub loc_rank : C.TypeLoc → ℕ
  pub record_rank : C.RecordDecl → ℕ
  pub element_lt :
      (t e : C.QualType) (n : ℕ)
      → C.get_as_constant_array_type t ≡ some (n, e)
      → type_rank e < type_rank t
  pub pointee_lt : (t p : C.QualType) → C.get_as_pointer_type t ≡ some p → type_rank p < type_rank t
  pub named_lt : (l m : C.TypeLoc) → C.as_elaborated_type_loc l ≡ some m → loc_rank m < loc_rank l
  pub nested_lt :
      (rd nested : C.RecordDecl) (i : ℕ) (f : C.FieldDecl)
      → get_elem? (C.fields rd) i ≡ some f
      → C.get_as_record_type (C.get_type f) ≡ some nested
      → C.is_complete_definition nested ≡ true
      → record_rank nested < record_rank rd
