-- ===== src/Tests/Demo.antt =====
-- A reflection.dat that lists `int` and the `struct_test_t` of the example programs.
use reflect_c.Base.{ℕ, refl, false, List, [], ◌∷◌, ◌++◌, arith, if◌then◌else◌, ◌===◌, codes}
use reflect_c.Memory.{CharPtr}
use reflect_c.Memory.Strings.{c_string}
use reflect_c.Reader.Encoding.{little_endian}
use reflect_c.Format.{Text, FieldDesc, fields, base, composite, TypeDesc, encode_types}
use reflect_c.Types.{State, initial}
use reflect_c.Load.Cursor.{Source, TypeFits, FieldFits}
use reflect_c.Load.File.{IsImage, file_in}

abbrev pub int_field : Text → ℕ → FieldDesc
int_field name offset = record {
  name = name;
  is_const = false;
  ptr_depth = 0;
  offset = offset;
  arr_size = 0;
  type_id = 1;
}

abbrev pub int_type : TypeDesc
int_type = record { id = 1; name = codes "int"; size = 4; body = base }

abbrev pub test_fields : List FieldDesc
test_fields = int_field (codes "a") 0 ∷ int_field (codes "b") 4 ∷ int_field (codes "d") 8 ∷ []

abbrev pub test_type : TypeDesc
test_type = record {
  id = 2;
  name = codes "struct_test_t";
  size = 12;
  body = composite (fields false test_fields) [];
}

abbrev pub listed : List TypeDesc
listed = int_type ∷ test_type ∷ []

-- Where the file has its names.
abbrev pub place : Text → ℕ
place s =
    if s === codes "int"
    then 16
    else if s === codes "struct_test_t"
    then 20
    else if s === codes "a"
    then 34
    else if s === codes "b"
    then 36
    else 38

-- The names, each with its end; the literals of the programs are the same.
abbrev pub string_bytes : List ℕ
string_bytes = codes "int" ++ 0 ∷ [] ++ codes "struct_test_t" ++ 0 ∷ 97 ∷ 0 ∷ 98 ∷ 0 ∷ 100 ∷ 0 ∷ []

abbrev pub table_bytes : List ℕ
table_bytes = little_endian 8 2 ++ encode_types place listed []

abbrev pub file_bytes : List ℕ
file_bytes = little_endian 8 16 ++ (little_endian 8 40 ++ (string_bytes ++ table_bytes))

abbrev pub literals_before : State
literals_before = initial (string_bytes ∷ [])

abbrev pub both_before : State
both_before = initial (string_bytes ∷ file_bytes ∷ [])

abbrev pub start : CharPtr
start = record { block = 1; offset = 0 }

abbrev source : Source
source = file_in both_before start place

a_fits : FieldFits source (int_field (codes "a") 0)
unfolding little_endian c_string ◌===◌
a_fits = record {
  name = (refl, omega arith);
  ptr_depth = omega arith;
  offset = omega arith;
  arr_size = omega arith;
  type_id = omega arith;
}

b_fits : FieldFits source (int_field (codes "b") 4)
unfolding little_endian c_string ◌===◌
b_fits = record {
  name = (refl, omega arith);
  ptr_depth = omega arith;
  offset = omega arith;
  arr_size = omega arith;
  type_id = omega arith;
}

d_fits : FieldFits source (int_field (codes "d") 8)
unfolding little_endian c_string ◌===◌
d_fits = record {
  name = (refl, omega arith);
  ptr_depth = omega arith;
  offset = omega arith;
  arr_size = omega arith;
  type_id = omega arith;
}

int_fits : TypeFits source 3 int_type
unfolding little_endian c_string ◌===◌
int_fits = record { id = omega arith; name = (refl, omega arith); size = omega arith; body = tt }

test_fits : TypeFits source 3 test_type
unfolding little_endian c_string ◌===◌
test_fits = record {
  id = omega arith;
  name = (refl, omega arith);
  size = omega arith;
  body = (((a_fits, (b_fits, (d_fits, tt))), omega arith), tt, omega arith);
}

pub image : IsImage source listed
unfolding little_endian ◌===◌
image = record {
  volume = 16;
  table = 40;
  strings = string_bytes ++ table_bytes;
  trailer = [];
  header = refl;
  body = refl;
  inside = omega arith;
  volume_fits = omega arith;
  header_fits = omega arith;
  body_fits = omega arith;
  some_type = omega arith;
  count_fits = omega arith;
  types = (int_fits, (test_fits, tt));
}
