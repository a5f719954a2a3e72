-- ===== src/Merge.antt =====
-- merge/merge.py: `BinWriter` and the table that `write_reflection_dat` writes. A dictionary is the list
-- of its pairs in the order of insertion, a key that may be missing an option. An exception ends the
-- script, and is `none`.
pub mod Writes
pub mod Encode
pub mod Fields
pub mod Counts
pub mod Table
pub mod Says
pub mod Listed
pub mod File
use reflect_c.Base.{
  ℕ, zero, suc, ◌+◌, ◌-◌, ◌*◌, ◌/◌, ◌%◌, ◌^◌, ◌≤◌, ◌<◌, bit_xor, ◌≡◌, refl, sym, ap, ◌∙◌, fun_ext,
  subst, ◌≢◌, ◌↔◌, ◌⊎◌, inl, inr, Bool, true, false, ◌&&◌, ◌||◌, not, Option, none, some, List, [],
  ◌∷◌, ◌++◌, map, append_assoc, append-nil, arith, ltb, ◌==◌, if◌then◌else◌, ==_refl, eq-of_==,
  Bool-cases, Option-cases, ◌===◌, ===_refl, eq-of_===, ===_iff, lt_cases, lt→ltb, length,
  get_elem?, get_or, set, take, drop, replicate, length-append, length-set, length-replicate,
  length-drop, get_elem?-set, get_elem?-get_or, get_or-set, get_or-replicate, get_or-append,
  drop-nil, drop-drop, drop-append, set-append_length, get_or-append_self, set-set, IsIn,
  IsIn-append_left, IsIn-append_right, IsIn-append_cases, IsIn-one, Fault, Run, or_fault, Returns,
  ◌>>=◌, Terminates, Terminates-ok, Terminates-bind, Terminates-suc, Terminates-pred, After,
  After-bind, After-if, After-any, After-ok, After-map, After-both, Settles, Settles-After, codes,
  starts_with, decimal_from, decimal, ok, fault, out_of_bounds, uninitialised, null_pointer,
  division_by_zero, wrong_member, trap_value, out_of_fuel, reached, stopped, first, later,
}
use mathlib.Core.Option
use reflect_c.Format.{Text}
use reflect_c.Reader.Encoding.{little_endian}
use reflect_c.Plugin.Int.{ℤ, pos, negsuc}
use reflect_c.Plugin.Types.{TypeVariant, base, struct, union, enum}

-- What is in `data` up to `offset`; the whole of `data` has room for `capacity` bytes.
pub record BinWriter : Type 0 where
  pub written : List ℕ
  pub capacity : ℕ
  pub arch : ℕ

-- The constructor.
abbrev pub bin_writer : ℕ → ℕ → BinWriter
bin_writer size arch = record { written = []; capacity = size; arch = arch }

-- A step of the script on the writer.
abbrev pub Step : Type 0
Step = BinWriter → Option BinWriter

-- `ensure_capacity`, and the bytes at the offset.
unfoldable pub put : List ℕ → Step
put bytes w =
    if ltb w.capacity (length w.written + length bytes)
    then none
    else some (record w { written = w.written ++ bytes })

-- `struct.pack` refuses what does not fit.
unfoldable pub write_uint32 : ℤ → Step
write_uint32 (pos n) w = if ltb n (2 ^ 32) then put (little_endian 4 n) w else none
write_uint32 (negsuc n) w = none

unfoldable pub write_int64 : ℤ → Step
write_int64 (pos n) w = if ltb n (2 ^ 63) then put (little_endian 8 n) w else none
write_int64 (negsuc n) w = if ltb n (2 ^ 63) then put (little_endian 8 (2 ^ 64 - 1 - n)) w else none

abbrev pub write_uint8 : ℕ → Step
write_uint8 n w = if ltb n 256 then put (n ∷ []) w else none

abbrev pub write_bool : Bool → Step
write_bool value = write_uint8 (if value then 1 else 0)

abbrev pub write_arch_size : ℤ → Step
write_arch_size value w = if w.arch == 8 then write_int64 value w else write_uint32 value w

infixl 5 ◌>>◌
abbrev pub ◌>>◌ : Step → Step → Step
(first_step >> second) w = elim (first_step w) [ none ↦ none | some w' ↦ second w' ]

-- `current_field_data`: the keys that a line may set.
pub record FieldData : Type 0 where
  pub name : Option Text
  pub value : Option ℤ
  pub type : Option Text
  pub offset : Option ℤ
  pub pdepth : Option ℤ
  pub arrsize : Option ℤ
  pub const : Option Bool
  pub struct : Option Bool

-- `current_data` with a type and a name, and the id that it is given.
pub record TypeData : Type 0 where
  pub type : TypeVariant
  pub name : Text
  pub size : Option ℤ
  pub fields : Option (List FieldData)
  pub aliases : Option (List Text)
  pub id : ℕ

-- `d.get(key, default)`
abbrev pub get_default {ℓ} : {A : Type ℓ} → Option A → A → A
get_default none default = default
get_default (some a) default = a

abbrev pub TypeNameMap : Type 0
TypeNameMap = List TypeData

unfoldable pub find_type : Text → TypeNameMap → Option TypeData
find_type name [] = none
find_type name (t ∷ types) =
    let rest = find_type name types in if t.name === name then some t else rest

-- `global_string_volume[name]`
abbrev pub Volume : Type 0
Volume = Text → Option ℕ

abbrev pub object_type : TypeVariant → ℕ
object_type base = 1
object_type struct = 2
object_type union = 3
object_type enum = 4

-- `struct.pack_into` at an offset before the end.
unfoldable pub patch : ℕ → ℕ → Step
patch offset count w =
    let bytes = little_endian (if w.arch == 8 then 8 else 4) count in
    some (record w {
      written = take offset w.written ++ bytes ++ drop (offset + length bytes) w.written;
    })

module _ (types : TypeNameMap) (volume : Volume) where
  unfoldable pub write_name : Text → Step
  write_name name w = elim (volume name) [
    | none ↦ none
    | some offset ↦ write_arch_size (pos offset) w
  ]

  -- `continue` for a record that is in no file.
  unfoldable pub is_skipped : FieldData → Bool
  is_skipped field =
      get_default field.struct false
      && elim (find_type (get_default field.type []) types) [ none ↦ true | some _ ↦ false ]

  unfoldable pub ref_id : FieldData → ℕ
  ref_id field = elim (find_type (get_default field.type []) types) [ none ↦ 0 | some t ↦ t.id ]

  unfoldable pub write_field : FieldData → Step
  unfolding write_name ref_id
  write_field field =
      write_name (get_default field.name [])
      >> write_bool (get_default field.const false)
      >> write_uint32 (get_default field.pdepth (pos 0))
      >> write_arch_size (get_default field.offset (pos 0))
      >> write_arch_size (get_default field.arrsize (pos 0))
      >> write_arch_size (pos (ref_id field))

  unfoldable pub write_enumerator : FieldData → Step
  unfolding write_name
  write_enumerator field =
      write_name (get_default field.name []) >> write_arch_size (get_default field.value (pos 0))

  -- The loop over the fields, and `field_count` after it.
  unfoldable pub write_fields : Bool → List FieldData → ℕ → BinWriter → Option (ℕ × BinWriter)
  write_fields enumerators [] count w = some (count, w)
  write_fields enumerators (field ∷ fields) count w = elim enumerators [
    | true ↦ elim (write_enumerator field w) [
      | none ↦ none
      | some w' ↦ write_fields true fields (count + 1) w'
    ]
    | false ↦ elim (is_skipped field) [
      | true ↦ write_fields false fields count w
      | false ↦ elim (write_field field w) [
        | none ↦ none
        | some w' ↦ write_fields false fields (count + 1) w'
      ]
    ]
  ]

  unfoldable pub write_aliases : List Text → Step
  unfolding write_name
  write_aliases [] w = some w
  write_aliases (alias ∷ aliases) w = (write_name alias >> write_aliases aliases) w

  -- The placeholder, the fields, and the count in its place.
  unfoldable pub write_counted : Bool → List FieldData → Step
  unfolding write_fields patch
  write_counted enumerators fields w = elim (write_arch_size (pos 0) w) [
    | none ↦ none
    | some w' ↦ elim (write_fields enumerators fields 0 w') [
      | none ↦ none
      | some (count, w'') ↦ patch (length w.written) count w''
    ]
  ]

  -- What a type that is no base type has behind its size; the flag is `type_data["type"] == "enum"`.
  unfoldable pub write_members : Bool → TypeData → Step
  unfolding write_counted write_aliases
  write_members enumerators t =
      write_counted enumerators (get_default t.fields [])
      >> write_arch_size (pos (length (get_default t.aliases [])))
      >> write_aliases (get_default t.aliases [])

  unfoldable pub write_rest : TypeVariant → TypeData → Step
  unfolding write_members
  write_rest base t = some
  write_rest struct t = write_members false t
  write_rest union t = write_members false t
  write_rest enum t = write_members true t

  unfoldable pub write_type : TypeData → Step
  unfolding write_name write_rest
  write_type t =
      write_arch_size (pos t.id)
      >> write_uint8 (object_type t.type)
      >> write_name t.name
      >> write_arch_size (get_default t.size (pos 0))
      >> write_rest t.type t

  unfoldable pub write_types : List TypeData → Step
  unfolding write_type
  write_types [] w = some w
  write_types (t ∷ ts) w = (write_type t >> write_types ts) w

-- The table behind the header and the strings.
unfoldable pub write_table : TypeNameMap → Volume → Step
unfolding write_types
write_table types volume = write_arch_size (pos (length types)) >> write_types types volume types

-- The ids in the order of the dictionary, and the entry "" taken out.
unfoldable pub number : ℕ → TypeNameMap → TypeNameMap
number type_id [] = []
number type_id (t ∷ types) = record t { id = type_id } ∷ number (type_id + 1) types

unfoldable pub pop_empty : TypeNameMap → TypeNameMap
pop_empty [] = []
pop_empty (t ∷ types) = let rest = pop_empty types in if t.name === [] then types else t ∷ rest

-- The header, for a volume of strings of this length.
abbrev pub write_head : ℕ → ℕ → Step
write_head arch strings_length =
    write_arch_size (pos (arch * 2)) >> write_arch_size (pos (arch * 2 + strings_length))

-- The bytes of reflection.dat: the header, the strings that the files have, and the table.
unfoldable pub write_reflection_dat : ℕ → TypeNameMap → Volume → List ℕ → Option (List ℕ)
unfolding write_table number pop_empty
write_reflection_dat arch type_name_map volume strings =
    elim (write_head arch (length strings) (bin_writer (arch * 2) arch)) [
      | none ↦ none
      | some head ↦
          elim (write_table (pop_empty (number 1 type_name_map)) volume
            (bin_writer 10000000 arch)) [
              | none ↦ none
              | some table ↦ some (head.written ++ strings ++ table.written)
            ]
    ]
