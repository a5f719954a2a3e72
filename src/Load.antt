-- ===== src/Load.antt =====
-- `reflect_load_bytes` of src/reflect.c: the loops over types, fields, enumerators and aliases.
-- Each loop counts down what is left, as `j < count` counts up.
pub mod Monad
pub mod Cursor
pub mod Members
pub mod Aliases
pub mod Composite
pub mod Table
pub mod File
pub mod Short
use reflect_c.Base.{
  ℕ, zero, suc, ◌+◌, ◌-◌, ◌*◌, ◌/◌, ◌%◌, ◌^◌, ◌≤◌, ◌<◌, bit_xor, ◌≡◌, refl, sym, ap, ◌∙◌, fun_ext,
  subst, ◌≢◌, ◌↔◌, ◌⊎◌, inl, inr, Bool, true, false, ◌&&◌, ◌||◌, not, Option, none, some, List, [],
  ◌∷◌, ◌++◌, map, append_assoc, append-nil, arith, ltb, ◌==◌, if◌then◌else◌, ==_refl, eq-of_==,
  Bool-cases, Option-cases, ◌===◌, ===_refl, eq-of_===, ===_iff, lt_cases, lt→ltb, length,
  get_elem?, get_or, set, take, drop, replicate, length-append, length-set, length-replicate,
  length-drop, get_elem?-set, get_elem?-get_or, get_or-set, get_or-replicate, get_or-append,
  drop-nil, drop-drop, drop-append, set-append_length, get_or-append_self, Fault, Run, or_fault,
  Returns, ok, fault, out_of_bounds, uninitialised, null_pointer, division_by_zero, wrong_member,
  trap_value,
}
use reflect_c.Memory.{CharPtr}
use reflect_c.Hashtable.{hashtable_create}
use reflect_c.Types.{
  ReflectObjType, base, struct, union, enum, variant_of, TypePtr, State, malloc_array,
  add_base_type_info, add_struct_type_info, add_enum_type_info, add_struct_field_type,
  add_enum_field_type, add_type_alias,
}
use reflect_c.Load.Monad.{
  Frame, Load, pure, bind, byte, bool, uint32_t, size_t, string, acting, seek,
}

infixl 5 ◌>>=◌ ◌>>◌
abbrev ◌>>=◌ {ℓ κ} : {A : Type ℓ} {B : Type κ} → Load A → (A → Load B) → Load B
◌>>=◌ = bind

abbrev ◌>>◌ {ℓ} : {B : Type ℓ} → Load (Unit {0}) → Load B → Load B
m >> k = m >>= λ _. k

unfoldable pub load_struct_field : TypePtr → Load (Unit {0})
load_struct_field struct_type = do
  field_name ← string
  is_const ← bool
  ptr_depth ← uint32_t
  offset ← size_t
  field_size ← size_t
  field_type ← size_t
  acting
      (add_struct_field_type struct_type field_name field_type field_size offset ptr_depth is_const)

unfoldable pub load_struct_fields : ℕ → TypePtr → Load (Unit {0})
load_struct_fields zero struct_type = pure tt
load_struct_fields (suc n) struct_type = do
  load_struct_field struct_type
  load_struct_fields n struct_type

unfoldable pub load_enum_field : TypePtr → Load (Unit {0})
load_enum_field enum_type = do
  field_name ← string
  value ← size_t
  acting (add_enum_field_type enum_type field_name value)

unfoldable pub load_enum_fields : ℕ → TypePtr → Load (Unit {0})
load_enum_fields zero enum_type = pure tt
load_enum_fields (suc n) enum_type = do load_enum_field enum_type; load_enum_fields n enum_type

unfoldable pub load_aliases : ℕ → ℕ → Load (Unit {0})
load_aliases zero id = pure tt
load_aliases (suc n) id = do
  alias_name ← string
  acting (add_type_alias id alias_name)
  load_aliases n id

-- The two branches on a variant that has members; any other has none that are read.
unfoldable pub load_members :
    Option ReflectObjType → CharPtr → (id size field_count : ℕ) → Load (Unit {0})
load_members (some struct) name id size field_count = do
  struct_type ← acting (add_struct_type_info name id size struct field_count)
  load_struct_fields field_count struct_type
load_members (some union) name id size field_count = do
  struct_type ← acting (add_struct_type_info name id size union field_count)
  load_struct_fields field_count struct_type
load_members (some enum) name id size field_count = do
  enum_type ← acting (add_enum_type_info name id size field_count)
  load_enum_fields field_count enum_type
load_members _ name id size field_count = pure tt

unfoldable pub load_composite : Option ReflectObjType → CharPtr → (id size : ℕ) → Load (Unit {0})
load_composite variant name id size = do
  field_count ← size_t
  load_members variant name id size field_count
  alias_count ← size_t
  load_aliases alias_count id

unfoldable pub load_body : Option ReflectObjType → CharPtr → (id size : ℕ) → Load (Unit {0})
load_body (some base) name id size = do _ ← acting (add_base_type_info name id size); pure tt
load_body variant name id size = load_composite variant name id size

-- One round of the loop over the types.
unfoldable pub load_type : Load (Unit {0})
load_type = do
  id ← size_t
  variant ← byte
  name ← string
  size ← size_t
  load_body (variant_of variant) name id size

unfoldable pub load_types : ℕ → Load (Unit {0})
load_types zero = pure tt
load_types (suc n) = do load_type; load_types n

-- `malloc` and `hashtable_create` of the two tables.
unfoldable pub create_tables : ℕ → State → Run (Unit {0} × State)
create_tables type_count st = ok (
  tt,
  record st {
    type_table = malloc_array 64 ((type_count + 1) % 2 ^ 64);
    type_hash_table = hashtable_create (type_count * 2 % 2 ^ 64);
  },
)

unfoldable pub load_file : Load (Unit {0})
load_file = do
  _ ← size_t
  type_table_offset ← size_t
  seek type_table_offset
  type_count ← size_t
  acting (create_tables type_count)
  load_types type_count

abbrev pub start_frame : CharPtr → Bool → State → Frame
start_frame metadata copy st = record {
  reader = record { source = metadata; offset = 0; copy = copy };
  state = record st { is_init = true };
}

abbrev pub end_state : Run (Unit {0} × Frame) → Run State
end_state (ok (_, f)) = ok f.state
end_state (fault e) = fault e

-- A second call does nothing.
unfoldable pub reflect_load_bytes : CharPtr → Bool → State → Run State
reflect_load_bytes metadata copy st =
    if st.is_init then ok st else end_state (load_file (start_frame metadata copy st))

-- `REFLECTION_DATA_SYMBOL` is linked into the program, and its address given by the linker.
unfoldable pub reflect_load : CharPtr → State → Run State
unfolding reflect_load_bytes
reflect_load linked_data st = reflect_load_bytes linked_data false st
