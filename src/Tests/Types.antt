-- ===== src/Tests/Types.antt =====
-- Types, members and aliases that are added to tables by hand.
use reflect_c.Base.{
  ℕ, ◌<◌, ◌≡◌, refl, inr, true, false, Option, none, some, [], ◌∷◌, arith, length, Returns,
}
use reflect_c.Memory.{CharPtr}
use reflect_c.Memory.Strings.{c_string, text}
use reflect_c.Hashtable.{hashtable_create}
use reflect_c.Hashtable.View.{hashtable_create-IsValid, view-hashtable_create}
use reflect_c.Format.{Text, fields, enumerators}
use reflect_c.Format.Names.{names_of, last_index}
use reflect_c.Load.File.{no_names}
use reflect_c.Types.{
  struct, struct_fields, enum_fields, TypeInfoInternal, State, new_type, put_entry,
  add_struct_type_info, add_struct_field_type, add_enum_field_type,
}
use reflect_c.Types.Describes.{HasContent, nil}
use reflect_c.Types.Register.{Registered, add_struct_type_info-Registered}
use reflect_c.Types.Add.{Extended, add_struct_field_type-HasContent, add_enum_field_type-HasContent}
use reflect_c.Tests.Loaded.{loaded, loaded-Models, loaded-text}
use reflect_c.Tests.Image.{y_field, a_enumerator, listed, memory, program_string, before}

abbrev new_name : CharPtr
new_name = program_string 6

abbrev new_text : Text
new_text = 63 ∷ []

abbrev names : Text → Option ℕ
names = names_of listed no_names

named : text (loaded true).memory new_name ≡ some new_text
unfolding c_string
named = loaded-text true new_name refl

inside : 0 < length (loaded true).type_table
inside = rw (loaded-Models true).width (omega arith)

add_struct_type_info-Registered_example :
    Returns
      (add_struct_type_info new_name 0 16 struct 3 (loaded true))
      (Registered (loaded true) names new_text 0 16 (fields false []) 3)
add_struct_type_info-Registered_example =
    add_struct_type_info-Registered new_name new_text 0 16 (loaded true) names inside named
      (loaded-Models true).names_lem false 3 (omega arith)

-- One slot, and an entry that waits for two members.
abbrev one_slot : State
one_slot = record before { type_table = none ∷ [] }

abbrev waiting_struct : TypeInfoInternal
waiting_struct = record {
  members = struct_fields (none ∷ none ∷ []);
  field_table = some (hashtable_create 4);
  type = new_type (program_string 0) 0 32 struct;
}

abbrev waiting_enum : TypeInfoInternal
waiting_enum = record waiting_struct { members = enum_fields (none ∷ none ∷ []) }

struct-HasContent : HasContent memory waiting_struct (fields false []) 2
unfolding last_index
struct-HasContent = record {
  members = ([], refl, nil);
  index = (
    hashtable_create 4,
    refl,
    inr (
      omega arith,
      hashtable_create-IsValid memory 4 (omega arith) (omega arith),
      λ q. view-hashtable_create memory 4 q (omega arith),
    ),
  );
  count = refl;
}

enum-HasContent : HasContent memory waiting_enum (enumerators []) 2
unfolding last_index
enum-HasContent = record {
  members = ([], refl, nil);
  index = (
    hashtable_create 4,
    refl,
    inr (
      omega arith,
      hashtable_create-IsValid memory 4 (omega arith) (omega arith),
      λ q. view-hashtable_create memory 4 q (omega arith),
    ),
  );
  count = refl;
}

add_struct_field_type-HasContent_example :
    Returns
      (add_struct_field_type 0
        (program_string 2)
        1
        3
        8
        2
        false
        (put_entry one_slot 0 waiting_struct))
      (Extended one_slot 0 waiting_struct (fields false (y_field ∷ [])) 1)
unfolding c_string
add_struct_field_type-HasContent_example =
    add_struct_field_type-HasContent one_slot 0 waiting_struct (program_string 2) y_field false [] 1
      (omega arith) refl struct-HasContent (omega arith)

add_enum_field_type-HasContent_example :
    Returns
      (add_enum_field_type 0 (program_string 4) 7 (put_entry one_slot 0 waiting_enum))
      (Extended one_slot 0 waiting_enum (enumerators (a_enumerator ∷ [])) 1)
unfolding c_string
add_enum_field_type-HasContent_example =
    add_enum_field_type-HasContent one_slot 0 waiting_enum (program_string 4) a_enumerator [] 1
      (omega arith) refl enum-HasContent (omega arith)
