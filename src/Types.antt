-- ===== src/Types.antt =====
-- The data of include/reflect.h and src/reflect.c, and the functions that fill the type table.
-- A `const type_info_t*` is the index of its entry in `type_table`, from which
-- `get_internal_from_type_info` gets the entry back. An entry that no `add_` function has written is
-- `none`: it holds what `malloc` left there, and reading it is a fault.
pub mod Describes
pub mod Add
pub mod Register
pub mod Models
use reflect_c.Base.{
  ℕ, ◌+◌, ◌*◌, ◌/◌, ◌%◌, ◌^◌, Bool, false, Option, none, some, List, [], ltb, ◌==◌, if◌then◌else◌,
  length, get_elem?, set, replicate, Run, ◌>>=◌, or_fault, ok, fault, out_of_bounds, uninitialised,
  null_pointer, wrong_member,
}
use reflect_c.Memory.{Memory, CharPtr}
use reflect_c.Hashtable.{Hashtable, hashtable_create, hashtable_insert}

pub data ReflectObjType : Type 0 where
  base : ReflectObjType
  struct : ReflectObjType
  union : ReflectObjType
  enum : ReflectObjType

-- The enumerator with a value, if there is one.
abbrev pub variant_of : ℕ → Option ReflectObjType
variant_of n =
    if n == 1
    then some base
    else if n == 2
    then some struct
    else if n == 3
    then some union
    else if n == 4
    then some enum
    else none

pub record TypeInfo : Type 0 where
  pub name : CharPtr
  pub id : ℕ
  pub size : ℕ
  pub field_count : ℕ
  pub variant : ReflectObjType

-- `const type_info_t*`, as an index in the type table.
abbrev pub TypePtr : Type 0
TypePtr = ℕ

pub record FieldInfo : Type 0 where
  pub name : CharPtr
  pub type_ptr : TypePtr
  pub arr_size : ℕ
  pub offset : ℕ
  pub ptr_depth : ℕ
  pub is_const : Bool

pub record EnumFieldInfo : Type 0 where
  pub name : CharPtr
  pub value : ℕ

-- The union of `struct_fields` and `enum_fields`. A slot is `none` until it is written.
pub data Members : Type 0 where
  null : Members
  struct_fields : List (Option FieldInfo) → Members
  enum_fields : List (Option EnumFieldInfo) → Members

-- `field_table` is `none` where `malloc` left it unset.
pub record TypeInfoInternal : Type 0 where
  pub members : Members
  pub field_table : Option Hashtable
  pub type : TypeInfo

pub record State : Type 0 where
  pub memory : Memory
  pub type_table : List (Option TypeInfoInternal)
  pub type_hash_table : Hashtable
  pub is_init : Bool

-- The static variables before any call.
abbrev pub initial : Memory → State
initial mem = record {
  memory = mem;
  type_table = [];
  type_hash_table = record { buckets = []; capacity = 0 };
  is_init = false;
}

-- The array that `malloc(size * count)` makes room for; the product wraps.
abbrev pub malloc_array {ℓ} : {A : Type ℓ} → ℕ → ℕ → List (Option A)
malloc_array size count = replicate (size * count % 2 ^ 64 / size) none

-- The entry around a `type_info_t`, as every caller reads it there and then.
unfoldable pub get_internal_from_type_info : State → TypePtr → Run TypeInfoInternal
get_internal_from_type_info st t = do
  entry ← or_fault out_of_bounds (get_elem? st.type_table t)
  or_fault uninitialised entry

abbrev pub old_field_table : Option TypeInfoInternal → Option Hashtable
old_field_table none = none
old_field_table (some entry) = entry.field_table

abbrev pub put_entry : State → ℕ → TypeInfoInternal → State
put_entry st id entry = record st { type_table = set st.type_table id (some entry) }

abbrev pub insert_type_name : CharPtr → ℕ → State → Run State
insert_type_name name id st = do
  ht ← hashtable_insert st.memory st.type_hash_table (record { name = some name; id = id })
  ok (record st { type_hash_table = ht })

abbrev pub new_type : CharPtr → ℕ → ℕ → ReflectObjType → TypeInfo
new_type name id size variant = record {
  name = name;
  id = id;
  size = size;
  field_count = 0;
  variant = variant;
}

-- `field_table` stays as it was.
unfoldable pub add_base_type_info : CharPtr → ℕ → ℕ → State → Run (TypePtr × State)
add_base_type_info name id size st = do
  old ← or_fault out_of_bounds (get_elem? st.type_table id)
  let entry : TypeInfoInternal = record {
    members = null;
    field_table = old_field_table old;
    type = new_type name id size base;
  }
  st' ← insert_type_name name id (put_entry st id entry)
  ok (id, st')

abbrev pub add_type_info :
    CharPtr → ℕ → ℕ → ReflectObjType → ℕ → Members → State → Run (TypePtr × State)
add_type_info name id size variant field_count members st = do
  old ← or_fault out_of_bounds (get_elem? st.type_table id)
  let entry : TypeInfoInternal = record {
    members = members;
    field_table = some (hashtable_create (field_count * 2 % 2 ^ 64));
    type = new_type name id size variant;
  }
  st' ← insert_type_name name id (put_entry st id entry)
  ok (id, st')

unfoldable pub add_struct_type_info :
    CharPtr → ℕ → ℕ → ReflectObjType → ℕ → State → Run (TypePtr × State)
add_struct_type_info name id size variant field_count =
    add_type_info name id size variant field_count (struct_fields (malloc_array 40 field_count))

unfoldable pub add_enum_type_info : CharPtr → ℕ → ℕ → ℕ → State → Run (TypePtr × State)
add_enum_type_info name id size field_count =
    add_type_info name id size enum field_count (enum_fields (malloc_array 16 field_count))

abbrev pub write_slot {ℓ} : {A : Type ℓ} → List (Option A) → ℕ → A → Run (List (Option A))
write_slot slots i a =
    if ltb i (length slots) then ok (set slots i (some a)) else fault out_of_bounds

unfoldable pub write_struct_field : Members → ℕ → FieldInfo → Run Members
write_struct_field null i info = fault null_pointer
write_struct_field (struct_fields slots) i info = do
  slots' ← write_slot slots i info
  ok (struct_fields slots')
write_struct_field (enum_fields slots) i info = fault wrong_member

unfoldable pub write_enum_field : Members → ℕ → EnumFieldInfo → Run Members
write_enum_field null i info = fault null_pointer
write_enum_field (struct_fields slots) i info = fault wrong_member
write_enum_field (enum_fields slots) i info = do
  slots' ← write_slot slots i info
  ok (enum_fields slots')

-- The insertion of `{name, field_count++}` after the member is written.
abbrev pub count_member :
    State → TypePtr → TypeInfoInternal → Members → CharPtr → Run (Unit {0} × State)
count_member st t entry members name = do
  table ← or_fault uninitialised entry.field_table
  table' ←
      hashtable_insert st.memory table (record { name = some name; id = entry.type.field_count })
  ok (
    tt,
    put_entry st t (record {
      members = members;
      field_table = some table';
      type = record entry.type { field_count = (entry.type.field_count + 1) % 2 ^ 64 };
    }),
  )

unfoldable pub add_struct_field_type :
    TypePtr
    → CharPtr
    → (field_type size offset ptr_depth : ℕ) → Bool
    → State
    → Run (Unit {0} × State)
add_struct_field_type struct_type field_name field_type size offset ptr_depth is_const st = do
  let field_info : FieldInfo = record {
    name = field_name;
    type_ptr = field_type;
    arr_size = size;
    offset = offset;
    ptr_depth = ptr_depth;
    is_const = is_const;
  }
  entry ← get_internal_from_type_info st struct_type
  members ← write_struct_field entry.members entry.type.field_count field_info
  count_member st struct_type entry members field_name

unfoldable pub add_enum_field_type : TypePtr → CharPtr → ℕ → State → Run (Unit {0} × State)
add_enum_field_type enum_type field_name value st = do
  let field_info : EnumFieldInfo = record { name = field_name; value = value }
  entry ← get_internal_from_type_info st enum_type
  members ← write_enum_field entry.members entry.type.field_count field_info
  count_member st enum_type entry members field_name

unfoldable pub add_type_alias : ℕ → CharPtr → State → Run (Unit {0} × State)
add_type_alias type_id alias_name st = do st' ← insert_type_name alias_name type_id st; ok (tt, st')
