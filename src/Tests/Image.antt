-- ===== src/Tests/Image.antt =====
-- A reflection.dat of four types: `int`, a struct `P` with the alias `Q`, an enum `E`, and a
-- union `U` without members; and a program's own strings.
use reflect_c.Base.{ℕ, refl, true, false, List, [], ◌∷◌, ◌++◌, arith, if◌then◌else◌, ◌===◌}
use reflect_c.Memory.{Memory, CharPtr}
use reflect_c.Memory.Strings.{c_string}
use reflect_c.Reader.Encoding.{little_endian}
use reflect_c.Format.{
  Text, FieldDesc, Enumerator, fields, enumerators, base, composite, TypeDesc, encode_types,
}
use reflect_c.Types.{State, initial}
use reflect_c.Load.Cursor.{Source, TypeFits, FieldFits}
use reflect_c.Load.File.{IsImage, file_in}

abbrev pub int_name : Text
int_name = 105 ∷ 110 ∷ 116 ∷ []

abbrev pub p_name : Text
p_name = 80 ∷ []

abbrev pub q_name : Text
q_name = 81 ∷ []

abbrev pub x_name : Text
x_name = 120 ∷ []

abbrev pub y_name : Text
y_name = 121 ∷ []

abbrev pub e_name : Text
e_name = 69 ∷ []

abbrev pub a_name : Text
a_name = 65 ∷ []

abbrev pub u_name : Text
u_name = 85 ∷ []

abbrev pub x_field : FieldDesc
x_field = record {
  name = x_name;
  is_const = true;
  ptr_depth = 0;
  offset = 0;
  arr_size = 0;
  type_id = 1;
}

abbrev pub y_field : FieldDesc
y_field = record x_field {
  name = y_name;
  is_const = false;
  ptr_depth = 2;
  offset = 8;
  arr_size = 3;
}

abbrev pub a_enumerator : Enumerator
a_enumerator = record { name = a_name; value = 7 }

abbrev pub int_type : TypeDesc
int_type = record { id = 1; name = int_name; size = 4; body = base }

abbrev pub p_type : TypeDesc
p_type = record {
  id = 2;
  name = p_name;
  size = 32;
  body = composite (fields false (x_field ∷ y_field ∷ [])) (q_name ∷ []);
}

abbrev pub e_type : TypeDesc
e_type = record {
  id = 3;
  name = e_name;
  size = 4;
  body = composite (enumerators (a_enumerator ∷ [])) [];
}

abbrev pub u_type : TypeDesc
u_type = record { id = 4; name = u_name; size = 0; body = composite (fields true []) [] }

abbrev pub listed : List TypeDesc
listed = int_type ∷ p_type ∷ e_type ∷ u_type ∷ []

-- Where the file has its names.
abbrev pub place : Text → ℕ
place s =
    if s === int_name
    then 16
    else if s === p_name
    then 20
    else if s === q_name
    then 22
    else if s === x_name
    then 24
    else if s === y_name
    then 26
    else if s === e_name
    then 28
    else if s === a_name
    then 30
    else 32

abbrev pub string_bytes : List ℕ
string_bytes =
    105 ∷ 110 ∷ 116 ∷ 0 ∷ 80 ∷ 0 ∷ 81 ∷ 0 ∷ 120 ∷ 0 ∷ 121 ∷ 0 ∷ 69 ∷ 0 ∷ 65 ∷ 0 ∷ 85 ∷ 0 ∷ []

abbrev pub table_bytes : List ℕ
table_bytes = little_endian 8 4 ++ encode_types place listed []

abbrev pub file_bytes : List ℕ
file_bytes = little_endian 8 300 ++ (little_endian 8 34 ++ (string_bytes ++ table_bytes))

-- `P`, `y` and `A`, and a name that stands nowhere.
abbrev pub program_bytes : List ℕ
program_bytes = 80 ∷ 0 ∷ 121 ∷ 0 ∷ 65 ∷ 0 ∷ 63 ∷ 0 ∷ []

abbrev pub memory : Memory
memory = file_bytes ∷ program_bytes ∷ []

abbrev pub start : CharPtr
start = record { block = 0; offset = 0 }

abbrev pub program_string : ℕ → CharPtr
program_string offset = record { block = 1; offset = offset }

abbrev pub before : State
before = initial memory

-- The file, with other blocks behind it.
abbrev pub source_with : Memory → Source
source_with others = file_in (initial (file_bytes ∷ others)) start place

abbrev pub source : Source
source = source_with (program_bytes ∷ [])

x_fits : (others : Memory) → FieldFits (source_with others) x_field
unfolding little_endian c_string ◌===◌
x_fits others = record {
  name = (refl, omega arith);
  ptr_depth = omega arith;
  offset = omega arith;
  arr_size = omega arith;
  type_id = omega arith;
}

y_fits : (others : Memory) → FieldFits (source_with others) y_field
unfolding little_endian c_string ◌===◌
y_fits others = record {
  name = (refl, omega arith);
  ptr_depth = omega arith;
  offset = omega arith;
  arr_size = omega arith;
  type_id = omega arith;
}

p_fits : (others : Memory) → TypeFits (source_with others) 5 p_type
unfolding little_endian c_string ◌===◌
p_fits others = record {
  id = omega arith;
  name = (refl, omega arith);
  size = omega arith;
  body =
      (((x_fits others, (y_fits others, tt)), omega arith), ((refl, omega arith), tt), omega arith);
}

int_fits : (others : Memory) → TypeFits (source_with others) 5 int_type
unfolding little_endian c_string ◌===◌
int_fits others = record {
  id = omega arith;
  name = (refl, omega arith);
  size = omega arith;
  body = tt;
}

e_fits : (others : Memory) → TypeFits (source_with others) 5 e_type
unfolding little_endian c_string ◌===◌
e_fits others = record {
  id = omega arith;
  name = (refl, omega arith);
  size = omega arith;
  body = (
    (((record { name = (refl, omega arith); value = omega arith }), tt), omega arith),
    tt,
    omega arith,
  );
}

u_fits : (others : Memory) → TypeFits (source_with others) 5 u_type
unfolding little_endian c_string ◌===◌
u_fits others = record {
  id = omega arith;
  name = (refl, omega arith);
  size = omega arith;
  body = ((tt, omega arith), tt, omega arith);
}

pub file-IsImage : (others : Memory) → IsImage (source_with others) listed
unfolding little_endian ◌===◌
file-IsImage others = record {
  volume = 300;
  table = 34;
  strings = string_bytes ++ table_bytes;
  trailer = [];
  header = refl;
  body = refl;
  inside = omega arith;
  volume_fits = omega arith;
  header_fits = omega arith;
  body_fits = omega arith;
  some_type = omega arith;
  count_fits = omega arith;
  types = (int_fits others, (p_fits others, (e_fits others, (u_fits others, tt))));
}

pub image : IsImage source listed
image = file-IsImage (program_bytes ∷ [])
