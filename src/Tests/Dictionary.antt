-- ===== src/Tests/Dictionary.antt =====
-- A dictionary of two types, as merge.py has it before it writes, and the file.
use reflect_c.Base.{
  ℕ, ◌+◌, ◌≡◌, ◌≢◌, ap, ◌∙◌, refl, sym, subst, true, false, none, some, List, [], ◌∷◌, ◌++◌, arith,
  if◌then◌else◌, ◌===◌, length, IsIn, IsIn-one, Returns, codes, first, later,
}
use reflect_c.Memory.Strings.{c_string}
use reflect_c.Reader.Encoding.{little_endian}
use reflect_c.Types.{State, initial}
use reflect_c.Load.{reflect_load_bytes}
use reflect_c.Load.Cursor as Cursor
use reflect_c.Load.Cursor.{All}
use reflect_c.Load.File.{LoadedFile, file_in}
use reflect_c.Plugin.Int.{pos}
use reflect_c.Plugin.Types.{base, struct}
use reflect_c.Merge.{
  FieldData, TypeData, TypeNameMap, Volume, find_type, number, pop_empty, write_reflection_dat,
  is_skipped, ref_id,
}
use reflect_c.Merge.Fields.{FieldFits, NameFits, field_descs}
use reflect_c.Merge.Table.{TypeFits, MembersFit, AliasesFit, body_desc, type_descs}
use reflect_c.Merge.Says.{IsDictionary, no_keys, new_key, Says}
use reflect_c.Merge.File.{
  file_bytes, descs, place, written_types, IsWritable, write_reflection_dat-load,
}

abbrev x_data : FieldData
x_data = record {
  name = some (codes "x");
  value = none;
  type = some (codes "int");
  offset = some (pos 0);
  pdepth = some (pos 0);
  arrsize = some (pos 0);
  const = some false;
  struct = some false;
}

-- Of a record that is in no file.
abbrev gone_data : FieldData
gone_data = record x_data { type = some (codes "gone"); struct = some true }

abbrev int_data : TypeData
int_data = record {
  type = base;
  name = codes "int";
  size = some (pos 4);
  fields = none;
  aliases = none;
  id = 0;
}

abbrev s_data : TypeData
s_data = record {
  type = struct;
  name = codes "s";
  size = some (pos 4);
  fields = some (x_data ∷ gone_data ∷ []);
  aliases = some (codes "t" ∷ []);
  id = 0;
}

abbrev dictionary : TypeNameMap
dictionary = int_data ∷ s_data ∷ []

abbrev volume : Volume
volume name =
    if name === codes "int"
    then some 16
    else if name === codes "s"
    then some 20
    else if name === codes "x"
    then some 22
    else if name === codes "t"
    then some 24
    else none

abbrev strings : List ℕ
strings = codes "int" ++ 0 ∷ [] ++ codes "s" ++ 0 ∷ [] ++ codes "x" ++ 0 ∷ [] ++ codes "t" ++ 0 ∷ []

abbrev loading : State
loading =
    initial
      (file_bytes (place dictionary volume strings) strings (descs dictionary volume strings) ∷ [])

int-TypeFits :
    TypeFits (written_types dictionary volume strings) volume (record int_data { id = 1 })
unfolding MembersFit AliasesFit ◌===◌
int-TypeFits = record {
  id_lt = omega arith;
  name_fits = (16, refl, omega arith);
  size_fits = omega arith;
  members_fit = tt;
  aliases_fit = λ a h. elim h [ ];
  aliases_lt = omega arith;
}

x-FieldFits : FieldFits (written_types dictionary volume strings) volume x_data
unfolding ◌===◌ ref_id find_type number pop_empty
x-FieldFits = record {
  name_fits = (22, refl, omega arith);
  depth = 0;
  depth_lem = refl;
  depth_lt = omega arith;
  offset_fits = omega arith;
  size_fits = omega arith;
  id_lt = omega arith;
}

gone-FieldFits : FieldFits (written_types dictionary volume strings) volume gone_data
unfolding ◌===◌ ref_id find_type number pop_empty
gone-FieldFits = record {
  name_fits = (22, refl, omega arith);
  depth = 0;
  depth_lem = refl;
  depth_lt = omega arith;
  offset_fits = omega arith;
  size_fits = omega arith;
  id_lt = omega arith;
}

both_fields :
    (f : FieldData)
    → IsIn f (x_data ∷ gone_data ∷ [])
    → FieldFits (written_types dictionary volume strings) volume f
both_fields f first = x-FieldFits
both_fields f (later first) = gone-FieldFits
both_fields f (later (later h)) = elim h [ ]

s-TypeFits : TypeFits (written_types dictionary volume strings) volume (record s_data { id = 2 })
unfolding MembersFit AliasesFit ◌===◌ ref_id find_type number pop_empty
s-TypeFits = record {
  id_lt = omega arith;
  name_fits = (20, refl, omega arith);
  size_fits = omega arith;
  members_fit = both_fields;
  aliases_fit = λ a h.
      subst (λ b. NameFits (written_types dictionary volume strings) volume b)
        (sym (IsIn-one _ _ h)) (24, refl, omega arith);
  aliases_lt = omega arith;
}

both_types :
    (t : TypeData)
    → IsIn t (written_types dictionary volume strings)
    → TypeFits (written_types dictionary volume strings) volume t
unfolding number pop_empty ◌===◌
both_types t first = int-TypeFits
both_types t (later first) = s-TypeFits
both_types t (later (later h)) = elim h [ ]

dictionary-IsWritable : IsWritable dictionary volume strings
unfolding number pop_empty ◌===◌ little_endian type_descs field_descs body_desc is_skipped ref_id
    find_type
dictionary-IsWritable = record {
  types = both_types;
  count_lt = omega arith;
  strings_lt = omega arith;
  room = omega arith;
}

dictionary-Fits :
    All
      (file_in loading (record { block = 0; offset = 0 }) (place dictionary volume strings))
      (Cursor.TypeFits
        (file_in loading (record { block = 0; offset = 0 }) (place dictionary volume strings))
        (length (descs dictionary volume strings) + 1))
      (descs dictionary volume strings)
unfolding c_string number pop_empty ◌===◌ little_endian type_descs field_descs body_desc is_skipped
    ref_id find_type
dictionary-Fits = (
  record { id = omega arith; name = (refl, omega arith); size = omega arith; body = tt },
  (
    record {
      id = omega arith;
      name = (refl, omega arith);
      size = omega arith;
      body = (
        (
          (
            record {
              name = (refl, omega arith);
              ptr_depth = omega arith;
              offset = omega arith;
              arr_size = omega arith;
              type_id = omega arith;
            },
            tt,
          ),
          omega arith,
        ),
        ((refl, omega arith), tt),
        omega arith,
      );
    },
    tt,
  ),
)

dictionary-IsDictionary : IsDictionary dictionary
dictionary-IsDictionary =
    new_key (λ u h e. other_name (ap (λ (t : TypeData). t.name) (sym (IsIn-one _ _ h)) ∙ e))
      (new_key (λ u h. elim h [ ]) no_keys)
  where
    other_name : codes "s" ≢ codes "int"
    other_name e = cc e

write_reflection_dat-load_example :
    Says dictionary (descs dictionary volume strings)
    × (write_reflection_dat 8 dictionary volume strings
        ≡ some (
            file_bytes (place dictionary volume strings) strings (descs dictionary volume strings)))
    × Returns
        (reflect_load_bytes (record { block = 0; offset = 0 }) true loading)
        (LoadedFile loading (descs dictionary volume strings))
unfolding number pop_empty ◌===◌
write_reflection_dat-load_example =
    write_reflection_dat-load dictionary volume strings loading [] true dictionary-IsDictionary
      dictionary-IsWritable (omega arith) (omega arith) refl refl dictionary-Fits
