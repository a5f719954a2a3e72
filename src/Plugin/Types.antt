-- ===== src/Plugin/Types.antt =====
-- plugin/ReflectionTypes.hpp and plugin/ReflectionTypes.cpp: what the visitor collects.
use reflect_c.Base.{ℕ, Bool, false, Option, none, List, [], ◌∷◌, ◌++◌}
use reflect_c.Format.{Text}
use reflect_c.Plugin.Int.{ℤ}

pub data TypeVariant : Type 0 where
  base : TypeVariant
  struct : TypeVariant
  union : TypeVariant
  enum : TypeVariant

pub record BaseType : Type 0 where
  pub variant : TypeVariant
  pub name : Text
  pub size : ℕ
  pub type_id : ℕ
  pub aliases : List Text

-- The constructor of `BaseType`.
abbrev pub base_type : TypeVariant → Text → ℕ → ℕ → BaseType
base_type variant name size type_id = record {
  variant = variant;
  name = name;
  size = size;
  type_id = type_id;
  aliases = [];
}

pub record FieldInfo : Type 0 where
  pub name : Text
  pub type : Text
  pub offset : ℕ
  pub pointer_depth : ℕ
  pub array_size : ℕ
  pub is_const : Bool
  pub is_struct_or_union : Bool
  pub struct_or_union_name : Text
  pub alias : Text

-- The constructor of `FieldInfo`.
abbrev pub field_info : Text → Text → ℕ → FieldInfo
field_info name type offset = record {
  name = name;
  type = type;
  offset = offset;
  pointer_depth = 0;
  array_size = 0;
  is_const = false;
  is_struct_or_union = false;
  struct_or_union_name = [];
  alias = [];
}

-- A record is a `BaseType` with fields, and the address of its declaration, null at first.
pub record RecordInfo : Type 0 where
  pub base : BaseType
  pub fields : List FieldInfo
  pub rd : Option ℕ

abbrev pub record_info : TypeVariant → Text → ℕ → ℕ → RecordInfo
record_info variant name size type_id = record {
  base = base_type variant name size type_id;
  fields = [];
  rd = none;
}

abbrev pub add_field : RecordInfo → FieldInfo → RecordInfo
add_field r field = record r { fields = r.fields ++ field ∷ [] }

pub record EnumInfo : Type 0 where
  pub base : BaseType
  pub ed : ℕ
  pub enumerators : List (Text × ℤ)

abbrev pub enum_info : ℕ → Text → ℕ → ℕ → EnumInfo
enum_info ed name size type_id = record {
  base = base_type enum name size type_id;
  ed = ed;
  enumerators = [];
}

abbrev pub add_enumerator : EnumInfo → Text → ℤ → EnumInfo
add_enumerator en name value = record en { enumerators = en.enumerators ++ (name, value) ∷ [] }
