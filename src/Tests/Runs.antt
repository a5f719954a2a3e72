-- ===== src/Tests/Runs.antt =====
-- Runs of the loader and of the queries, in both modes.
use reflect_c.Base.{
  ◌≡◌, refl, true, false, none, some, ◌===◌, ok, fault, uninitialised, wrong_member,
}
use reflect_c.Memory.{strcmp_zero}
use reflect_c.Hashtable.{
  fnv_step, fnv_loop, hash_fnv1a, hash_key, hashtable_create, name_equal, get_loop, hashtable_get,
  insert_loop, insert_bucket, hashtable_insert,
}
use reflect_c.Reader.Encoding.{little_endian}
use reflect_c.Reader.{
  load, read_byte, read_size_t, read_uint32_t, read_bool, scan_nul, copy_string, read_c_string,
  read_string,
}
use reflect_c.Types.{
  add_base_type_info, add_struct_type_info, add_enum_type_info, add_struct_field_type,
  add_enum_field_type, write_struct_field, write_enum_field, add_type_alias,
  get_internal_from_type_info,
}
use reflect_c.Load.{
  load_struct_field, load_struct_fields, load_enum_field, load_enum_fields, load_aliases,
  load_members, load_composite, load_body, load_type, load_types, create_tables, load_file,
  reflect_load_bytes,
}
use reflect_c.Query.{
  load_field, load_enumerator, member_id, get_field_type, get_enum_value,
  reflect_type_info_from_name, reflect_get_field_type, reflect_get_enum_value,
}
use reflect_c.Query.Fields.{member}
use reflect_c.Tests.Loaded.{loaded}
use reflect_c.Tests.Image.{program_string}

-- What is listed is found. The last two are faults: a base type has no table of members, where the
-- code would read what `malloc` left; and an enum has no fields, where it would take one array for
-- another.
runs :
    (reflect_type_info_from_name (loaded true) (program_string 0) ≡ ok (some 2))
    × (reflect_type_info_from_name (loaded false) (program_string 6) ≡ ok none)
    × (reflect_get_field_type (loaded false) (some 2) (program_string 2) ≡ ok (some (member 2 1)))
    × (reflect_get_enum_value (loaded true) (some 3) (program_string 4) ≡ ok (some 7))
    × (reflect_get_field_type (loaded true) (some 1) (program_string 4) ≡ fault uninitialised)
    × (load_field (loaded true) (member 3 0) ≡ fault wrong_member)
unfolding ◌===◌ strcmp_zero fnv_step fnv_loop hash_fnv1a hash_key hashtable_create name_equal
    get_loop hashtable_get insert_loop insert_bucket hashtable_insert little_endian load read_byte
    read_size_t read_uint32_t read_bool scan_nul copy_string read_c_string read_string
    add_base_type_info add_struct_type_info add_enum_type_info add_struct_field_type
    add_enum_field_type write_struct_field write_enum_field add_type_alias
    get_internal_from_type_info load_struct_field load_struct_fields load_enum_field
    load_enum_fields load_aliases load_members load_composite load_body load_type load_types
    create_tables load_file reflect_load_bytes load_field member_id get_field_type get_enum_value
    reflect_type_info_from_name reflect_get_field_type reflect_get_enum_value load_enumerator
runs = (refl, refl, refl, refl, refl, refl)
