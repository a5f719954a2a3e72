-- ===== src/Plugin/Field.antt =====
-- `ReflectClangVisitor::CreateFieldInfo`. Each `while` loop runs on fuel, one round for each unit.
pub mod Ends
pub mod Shape
pub mod Names
pub mod Describes
use reflect_c.Base.{
  ℕ, zero, suc, ◌+◌, ◌-◌, ◌*◌, ◌/◌, ◌%◌, ◌^◌, ◌≤◌, ◌<◌, bit_xor, ◌≡◌, refl, sym, ap, ◌∙◌, fun_ext,
  subst, ◌≢◌, ◌↔◌, ◌⊎◌, inl, inr, Bool, true, false, ◌&&◌, ◌||◌, not, Option, none, some, List, [],
  ◌∷◌, ◌++◌, map, append_assoc, append-nil, arith, ltb, ◌==◌, if◌then◌else◌, ==_refl, eq-of_==,
  Bool-cases, Option-cases, ◌===◌, ===_refl, eq-of_===, ===_iff, lt_cases, lt→ltb, length,
  get_elem?, get_or, set, take, drop, replicate, length-append, length-set, length-replicate,
  length-drop, get_elem?-set, get_elem?-get_or, get_or-set, get_or-replicate, get_or-append,
  drop-nil, drop-drop, drop-append, set-append_length, get_or-append_self, set-set, Fault, Run,
  or_fault, Returns, ◌>>=◌, Terminates, Terminates-ok, Terminates-bind, codes, starts_with, decimal,
  ok, fault, out_of_bounds, uninitialised, null_pointer, division_by_zero, wrong_member, trap_value,
  out_of_fuel,
}
use reflect_c.Format.{Text}
use reflect_c.Plugin.Clang.{Clang}
use reflect_c.Plugin.Types.{FieldInfo, field_info}

abbrev pub or_else : Text → Option Text → Text
or_else s none = s
or_else s (some t) = t

abbrev pub struct_prefix : Text
struct_prefix = codes "struct "

abbrev pub union_prefix : Text
union_prefix = codes "union "

abbrev pub enum_prefix : Text
enum_prefix = codes "enum "

unfoldable pub clean_name : Text → Text
clean_name name =
    if starts_with name struct_prefix
    then drop (length struct_prefix) name
    else if starts_with name union_prefix
    then drop (length union_prefix) name
    else if starts_with name enum_prefix
    then drop (length enum_prefix) name
    else name

abbrev pub with_record : FieldInfo → Text → FieldInfo
with_record info tag = record info {
  is_struct_or_union = true;
  struct_or_union_name = tag;
  type = tag;
}

module _ (C : Clang) where
  -- `while (true)` over the locations of a type: the name of the first typedef.
  unfoldable pub alias_loop : ℕ → C.TypeLoc → Run Text
  alias_loop zero tl = fault out_of_fuel
  alias_loop (suc fuel) tl = elim (C.as_typedef_type_loc tl) [
    | some name ↦ ok name
    | none ↦ elim (C.as_elaborated_type_loc tl) [
      | some named ↦ alias_loop fuel named
      | none ↦ ok []
    ]
  ]

  -- `if (field->getTypeSourceInfo())`
  abbrev pub alias_name : ℕ → Option C.TypeLoc → Run Text
  alias_name fuel none = ok []
  alias_name fuel (some tl) = alias_loop fuel tl

  -- The loop over array types: the product of the sizes, and the type of an element.
  unfoldable pub array_loop : ℕ → ℕ → C.QualType → Run (ℕ × C.QualType)
  array_loop zero total_elements arr_type = fault out_of_fuel
  array_loop (suc fuel) total_elements arr_type = elim (C.get_as_constant_array_type arr_type) [
    | some (size, element_type) ↦ array_loop fuel (total_elements * size % 2 ^ 64) element_type
    | none ↦ ok (total_elements, arr_type)
  ]

  -- The loop over pointer types: how many, and the type behind the last.
  unfoldable pub pointer_loop : ℕ → ℕ → C.QualType → Run (ℕ × C.QualType)
  pointer_loop zero pointer_depth peeled = fault out_of_fuel
  pointer_loop (suc fuel) pointer_depth peeled = elim (C.get_as_pointer_type peeled) [
    | some pointee_type ↦ pointer_loop fuel (pointer_depth + 1) pointee_type
    | none ↦ ok (pointer_depth, peeled)
  ]

  -- The two branches on `getAsConstantArrayType(canonicalType)`: the total, the depth, the type.
  unfoldable pub peel : ℕ → C.QualType → Run (ℕ × ℕ × C.QualType)
  peel fuel canonical_type = elim (C.get_as_constant_array_type canonical_type) [
    | some _ ↦ do
      (total_elements, arr_type) ← array_loop fuel 1 canonical_type
      (pointer_depth, underlying_type) ← pointer_loop fuel 0 arr_type
      ok (total_elements, pointer_depth, underlying_type)
    | none ↦ do
      (pointer_depth, underlying_type) ← pointer_loop fuel 0 canonical_type
      ok (1, pointer_depth, underlying_type)
  ]

  -- The name of a record, or of the typedef that names it.
  unfoldable pub tag_name : C.RecordDecl → Text
  tag_name rd =
      if C.get_name rd === []
      then or_else [] (C.get_typedef_name_for_anon_decl rd)
      else C.get_name rd

  -- The last steps: the name of the type, and of the record if it is one.
  unfoldable pub name_type : C.QualType → FieldInfo → FieldInfo
  unfolding tag_name clean_name
  name_type final_canonical info =
      let cleaned = record info { type = clean_name (C.get_as_string final_canonical) } in
      if C.is_record_type final_canonical
      then elim (C.get_as_record_type final_canonical) [
        | some rd ↦ with_record cleaned (tag_name rd)
        | none ↦ cleaned
      ]
      else cleaned

  abbrev pub described : C.FieldDecl → ℕ → Text → ℕ × ℕ × C.QualType → FieldInfo
  described field offset alias (total_elements, pointer_depth, underlying_type) =
      record (field_info (C.get_field_name field) [] offset) {
        pointer_depth = pointer_depth;
        array_size = if ltb 1 total_elements then total_elements else 0;
        is_const = C.is_const_qualified underlying_type;
        alias = alias;
      }

  unfoldable pub create_field_info : ℕ → C.FieldDecl → C.QualType → ℕ → Run FieldInfo
  unfolding name_type
  create_field_info fuel field field_type offset = do
    alias ← alias_name fuel (C.get_type_loc field)
    peeled ← peel fuel (C.get_desugared_type field_type)
    ok (
        name_type (C.get_unqualified_type (C.get_canonical_type peeled.2))
          (described field offset alias peeled))
