-- ===== src/Plugin/Serializer.antt =====
-- plugin/ReflectionDataSerializer.cpp: the text of a .reflection.dat file.
pub mod Commands
pub mod Numbers
pub mod Lines
pub mod RoundTrip
use reflect_c.Base.{
  ℕ, zero, suc, ◌+◌, ◌-◌, ◌*◌, ◌/◌, ◌%◌, ◌^◌, ◌≤◌, ◌<◌, bit_xor, ◌≡◌, refl, sym, ap, ◌∙◌, fun_ext,
  subst, ◌≢◌, ◌↔◌, ◌⊎◌, inl, inr, Bool, true, false, ◌&&◌, ◌||◌, not, Option, none, some, List, [],
  ◌∷◌, ◌++◌, map, append_assoc, append-nil, arith, ltb, ◌==◌, if◌then◌else◌, ==_refl, eq-of_==,
  Bool-cases, Option-cases, ◌===◌, ===_refl, eq-of_===, ===_iff, lt_cases, lt→ltb, length,
  get_elem?, get_or, set, take, drop, replicate, length-append, length-set, length-replicate,
  length-drop, get_elem?-set, get_elem?-get_or, get_or-set, get_or-replicate, get_or-append,
  drop-nil, drop-drop, drop-append, set-append_length, get_or-append_self, set-set, IsIn,
  IsIn-append_left, IsIn-append_right, IsIn-append_cases, Fault, Run, or_fault, Returns, ◌>>=◌,
  Terminates, Terminates-ok, Terminates-bind, Terminates-suc, Terminates-pred, After, After-bind,
  After-if, After-any, After-ok, After-map, Settles, Settles-After, codes, starts_with,
  decimal_from, decimal, ok, fault, out_of_bounds, uninitialised, null_pointer, division_by_zero,
  wrong_member, trap_value, out_of_fuel, reached, stopped, first, later,
}
use Prim.Native.String.{String}
use reflect_c.Format.{Text}
use reflect_c.Plugin.Int.{signed_decimal, ℤ}
use reflect_c.Plugin.Types.{
  TypeVariant, base, struct, union, enum, BaseType, FieldInfo, RecordInfo, EnumInfo,
}
use reflect_c.Plugin.Visitor.{BaseTypes}

-- `outFile << word << s << "\n"`
abbrev pub line : String → Text → Text
line word s = codes word ++ s ++ codes "\n"

-- `true` and `false`.
abbrev pub bool_name : Bool → Text
bool_name b = if b then codes "true" else codes "false"

-- The loop over the aliases of a type.
unfoldable pub alias_lines : Text → List Text → Text
alias_lines name [] = []
alias_lines name (alias ∷ aliases) =
    let rest = alias_lines name aliases in
    if alias === name then rest else line "alias " alias ++ rest

abbrev pub type_lines : BaseType → Text
type_lines t = line "name " t.name ++ alias_lines t.name t.aliases ++ line "size " (decimal t.size)

-- The loop over the map, in whichever order it is walked.
unfoldable pub base_lines : BaseTypes → Text
base_lines [] = []
base_lines ((key, bt) ∷ base_types) =
    let rest = base_lines base_types in
    elim bt.variant [
      | base ↦ line "base" [] ++ type_lines bt ++ rest
      | struct ↦ rest
      | union ↦ rest
      | enum ↦ rest
    ]

abbrev pub type_name : FieldInfo → Text
type_name field = if field.is_struct_or_union then field.struct_or_union_name else field.type

abbrev pub one_field : FieldInfo → Text
one_field field =
    line "field" []
    ++ line "name " field.name
    ++ line "type " (type_name field)
    ++ line "offset " (decimal field.offset)
    ++ line "pdepth " (decimal field.pointer_depth)
    ++ line "arrsize " (decimal field.array_size)
    ++ line "const " (bool_name field.is_const)
    ++ line "isstruct " (bool_name field.is_struct_or_union)

unfoldable pub field_lines : List FieldInfo → Text
field_lines [] = []
field_lines (field ∷ fields) = one_field field ++ field_lines fields

abbrev pub record_word : TypeVariant → Text
record_word base = line "union" []
record_word struct = line "struct" []
record_word union = line "union" []
record_word enum = line "union" []

unfoldable pub record_lines : List RecordInfo → Text
record_lines [] = []
record_lines (rec ∷ records) =
    record_word rec.base.variant
    ++ type_lines rec.base
    ++ field_lines rec.fields
    ++ record_lines records

unfoldable pub enumerator_lines : List (Text × ℤ) → Text
enumerator_lines [] = []
enumerator_lines ((ename, evalue) ∷ enumerators) =
    line "enumerator" []
    ++ line "ek " ename
    ++ line "ev " (signed_decimal evalue)
    ++ enumerator_lines enumerators

unfoldable pub enum_lines : List EnumInfo → Text
enum_lines [] = []
enum_lines (en ∷ enums) =
    line "enum" [] ++ type_lines en.base ++ enumerator_lines en.enumerators ++ enum_lines enums

-- What the file holds afterwards, with the result `true`; nothing, with the result `false`, if it
-- cannot be opened.
unfoldable pub serialize :
    (is_open : Bool) → BaseTypes → List RecordInfo → List EnumInfo → (arch_size : ℕ) → Option Text
serialize is_open base_types records enums arch_size =
    if not is_open
    then none
    else some (
        line "arch " (decimal arch_size)
        ++ base_lines base_types
        ++ record_lines records
        ++ enum_lines enums)
