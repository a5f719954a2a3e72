-- ===== src/Plugin/Serializer/Commands.antt =====
-- The format of a .reflection.dat file apart from the code: a line is a command, and what it says of
-- a type is independent of how it is printed.
use reflect_c.Base.{
  ℕ, zero, suc, ◌+◌, ◌-◌, ◌*◌, Bool, true, false, ◌&&◌, not, Option, none, some, List, [], ◌∷◌,
  ◌++◌, ltb, ◌==◌, if◌then◌else◌, ◌===◌, codes,
}
use mathlib.Core.Option
use reflect_c.Format.{Text}
use reflect_c.Plugin.Int.{ℤ, pos, negsuc}
use reflect_c.Plugin.Types.{
  TypeVariant, base, struct, union, enum, BaseType, FieldInfo, RecordInfo, EnumInfo,
}
use reflect_c.Plugin.Visitor.{BaseTypes}

pub data Command : Type 0 where
  arch : ℕ → Command
  begin : TypeVariant → Command
  name : Text → Command
  alias : Text → Command
  size : ℕ → Command
  field : Command
  type : Text → Command
  offset : ℕ → Command
  pdepth : ℕ → Command
  arrsize : ℕ → Command
  const : Bool → Command
  isstruct : Bool → Command
  enumerator : Command
  ek : Text → Command
  ev : ℤ → Command

-- Reading a number: `acc` is what stands before.
unfoldable pub read_digits : ℕ → Text → Option ℕ
read_digits acc [] = some acc
read_digits acc (c ∷ s) =
    let rest = read_digits (acc * 10 + (c - 48)) s in
    if not (ltb c 48) && ltb c 58 then rest else none

unfoldable pub read_number : Text → Option ℕ
unfolding read_digits
read_number s = if s === [] then none else read_digits 0 s

unfoldable pub read_integer : Text → Option ℤ
unfolding read_number
read_integer [] = none
read_integer (c ∷ s) =
    if c == 45
    then elim (read_number s) [ some (suc n) ↦ some (negsuc n) | some zero ↦ none | none ↦ none ]
    else Option.map pos (read_number (c ∷ s))

unfoldable pub read_flag : Text → Option Bool
read_flag s =
    if s === codes "true" then some true else if s === codes "false" then some false else none

-- The first word, and what follows the space.
unfoldable pub split_word : Text → Text × Text
split_word [] = ([], [])
split_word (c ∷ s) =
    let (word, rest) = split_word s in if c == 32 then ([], s) else (c ∷ word, rest)

-- A command's word is followed by what it is about, up to the end of the line.
unfoldable pub read_command : Text × Text → Option Command
unfolding read_number read_integer read_flag
read_command (word, s) =
    if word === codes "arch"
    then Option.map arch (read_number s)
    else if word === codes "base"
    then some (begin base)
    else if word === codes "struct"
    then some (begin struct)
    else if word === codes "union"
    then some (begin union)
    else if word === codes "enum"
    then some (begin enum)
    else if word === codes "name"
    then some (name s)
    else if word === codes "alias"
    then some (alias s)
    else if word === codes "size"
    then Option.map size (read_number s)
    else if word === codes "field"
    then some field
    else if word === codes "type"
    then some (type s)
    else if word === codes "offset"
    then Option.map offset (read_number s)
    else if word === codes "pdepth"
    then Option.map pdepth (read_number s)
    else if word === codes "arrsize"
    then Option.map arrsize (read_number s)
    else if word === codes "const"
    then Option.map const (read_flag s)
    else if word === codes "isstruct"
    then Option.map isstruct (read_flag s)
    else if word === codes "enumerator"
    then some enumerator
    else if word === codes "ek"
    then some (ek s)
    else if word === codes "ev"
    then Option.map ev (read_integer s)
    else none

abbrev pub add_command : Text → Option (List Command) → Option (List Command)
add_command text commands = elim (read_command (split_word text)) [
  | none ↦ none
  | some c ↦ Option.map (λ cs. c ∷ cs) commands
]

-- Line by line: `before` is the line up to here.
unfoldable pub read_lines : Text → Text → Option (List Command)
unfolding read_command split_word
read_lines before [] = if before === [] then some [] else none
read_lines before (c ∷ s) =
    if c == 10 then add_command before (read_lines [] s) else read_lines (before ++ c ∷ []) s

abbrev pub read_text : Text → Option (List Command)
read_text s = read_lines [] s

-- What there is to say of a type, and of the types of a file. A record that is no struct is a union.
unfoldable pub alias_commands : Text → List Text → List Command
alias_commands own [] = []
alias_commands own (other ∷ others) =
    let rest = alias_commands own others in if other === own then rest else alias other ∷ rest

abbrev pub type_commands : BaseType → List Command
type_commands t = name t.name ∷ alias_commands t.name t.aliases ++ size t.size ∷ []

abbrev pub tag_of : FieldInfo → Text
tag_of fi = if fi.is_struct_or_union then fi.struct_or_union_name else fi.type

unfoldable pub field_commands : List FieldInfo → List Command
field_commands [] = []
field_commands (fi ∷ fields) =
    field
    ∷ name fi.name
    ∷ type (tag_of fi)
    ∷ offset fi.offset
    ∷ pdepth fi.pointer_depth
    ∷ arrsize fi.array_size
    ∷ const fi.is_const
    ∷ isstruct fi.is_struct_or_union
    ∷ field_commands fields

unfoldable pub enumerator_commands : List (Text × ℤ) → List Command
enumerator_commands [] = []
enumerator_commands ((key, value) ∷ enumerators) =
    enumerator ∷ ek key ∷ ev value ∷ enumerator_commands enumerators

unfoldable pub base_commands : BaseTypes → List Command
base_commands [] = []
base_commands ((key, t) ∷ base_types) = elim t.variant [
  | base ↦ begin base ∷ type_commands t ++ base_commands base_types
  | struct ↦ base_commands base_types
  | union ↦ base_commands base_types
  | enum ↦ base_commands base_types
]

abbrev pub struct_or_union : TypeVariant → TypeVariant
struct_or_union struct = struct
struct_or_union base = union
struct_or_union union = union
struct_or_union enum = union

unfoldable pub record_commands : List RecordInfo → List Command
record_commands [] = []
record_commands (r ∷ records) =
    begin (struct_or_union r.base.variant) ∷ type_commands r.base
    ++ field_commands r.fields
    ++ record_commands records

unfoldable pub enum_commands : List EnumInfo → List Command
enum_commands [] = []
enum_commands (en ∷ enums) =
    begin enum ∷ type_commands en.base ++ enumerator_commands en.enumerators ++ enum_commands enums

abbrev pub file_commands : BaseTypes → List RecordInfo → List EnumInfo → ℕ → List Command
file_commands base_types records enums arch_size =
    arch arch_size ∷ base_commands base_types ++ record_commands records ++ enum_commands enums
