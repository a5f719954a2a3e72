-- ===== src/Query.antt =====
-- The queries of src/reflect.c on the loaded tables. Each returns a pointer, or NULL.
pub mod Entries
pub mod Names
pub mod Fields
pub mod Enums
pub mod Loaded
use reflect_c.Base.{
  ℕ, zero, suc, ◌+◌, ◌-◌, ◌*◌, ◌/◌, ◌%◌, ◌^◌, ◌≤◌, ◌<◌, bit_xor, ◌≡◌, refl, sym, ap, ◌∙◌, fun_ext,
  subst, ◌≢◌, ◌↔◌, ◌⊎◌, inl, inr, Bool, true, false, ◌&&◌, ◌||◌, not, Option, none, some, List, [],
  ◌∷◌, ◌++◌, map, append_assoc, append-nil, arith, ltb, ◌==◌, if◌then◌else◌, ==_refl, eq-of_==,
  Bool-cases, Option-cases, ◌===◌, ===_refl, eq-of_===, ===_iff, lt_cases, lt→ltb, length,
  get_elem?, get_or, set, take, drop, replicate, length-append, length-set, length-replicate,
  length-drop, get_elem?-set, get_elem?-get_or, get_or-set, get_or-replicate, get_or-append,
  drop-nil, drop-drop, drop-append, set-append_length, get_or-append_self, set-set, Fault, Run,
  ◌>>=◌, or_fault, Returns, ok, fault, out_of_bounds, uninitialised, null_pointer, division_by_zero,
  wrong_member, trap_value,
}
use reflect_c.Memory.{CharPtr}
use reflect_c.Hashtable.{not_found, hashtable_get}
use reflect_c.Types.{
  ReflectObjType, base, struct, union, enum, TypePtr, FieldInfo, EnumFieldInfo, Members, null,
  struct_fields, enum_fields, State, get_internal_from_type_info,
}

-- A pointer into the member array of a type: `struct_fields + index` for a `field_info_t*`, and
-- `enum_fields + index` for an `enum_field_info_t*`.
pub record MemberPtr : Type 0 where
  pub owner : TypePtr
  pub index : ℕ

-- NULL, to which nothing may be added but 0.
abbrev null_ptr : ℕ → Run (Option MemberPtr)
null_ptr i = if i == 0 then ok none else fault null_pointer

-- A pointer that is so many bytes into an array of `size` bytes, or right behind it.
abbrev ptr_inside : (size bytes : ℕ) → MemberPtr → Run (Option MemberPtr)
ptr_inside size bytes p = if ltb size bytes then fault out_of_bounds else ok (some p)

-- `struct_fields + i`, in steps of 40 bytes, whichever array the union holds.
abbrev pub field_ptr : Members → TypePtr → ℕ → Run (Option MemberPtr)
field_ptr null t i = null_ptr i
field_ptr (struct_fields _) t i = ok (some (record { owner = t; index = i }))
field_ptr (enum_fields slots) t i =
    ptr_inside (16 * length slots) (40 * i) (record { owner = t; index = i })

-- `enum_fields + i`, in steps of 16 bytes.
abbrev pub enumerator_ptr : Members → TypePtr → ℕ → Run (Option MemberPtr)
enumerator_ptr null t i = null_ptr i
enumerator_ptr (struct_fields slots) t i =
    ptr_inside (40 * length slots) (16 * i) (record { owner = t; index = i })
enumerator_ptr (enum_fields _) t i = ok (some (record { owner = t; index = i }))

abbrev pub slot_at {ℓ} : {A : Type ℓ} → List (Option A) → ℕ → Run A
slot_at slots i = do slot ← or_fault out_of_bounds (get_elem? slots i); or_fault uninitialised slot

abbrev pub field_at : Members → ℕ → Run FieldInfo
field_at null i = fault null_pointer
field_at (struct_fields slots) i = slot_at slots i
field_at (enum_fields _) i = fault wrong_member

abbrev pub enumerator_at : Members → ℕ → Run EnumFieldInfo
enumerator_at null i = fault null_pointer
enumerator_at (struct_fields _) i = fault wrong_member
enumerator_at (enum_fields slots) i = slot_at slots i

-- `*p`, for a `field_info_t*`
unfoldable pub load_field : State → MemberPtr → Run FieldInfo
load_field st p = do entry ← get_internal_from_type_info st p.owner; field_at entry.members p.index

-- `*p`, for an `enum_field_info_t*`
unfoldable pub load_enumerator : State → MemberPtr → Run EnumFieldInfo
load_enumerator st p = do
  entry ← get_internal_from_type_info st p.owner
  enumerator_at entry.members p.index

unfoldable pub reflect_type_info_from_name : State → CharPtr → Run (Option TypePtr)
reflect_type_info_from_name st name = do
  result ← hashtable_get st.memory st.type_hash_table (some name)
  if result == not_found then ok none else ok (some result)

-- `hashtable_get(&get_internal_from_type_info(type)->field_table, field_name)`
unfoldable pub member_id : State → TypePtr → CharPtr → Run ℕ
member_id st type field_name = do
  entry ← get_internal_from_type_info st type
  table ← or_fault uninitialised entry.field_table
  hashtable_get st.memory table (some field_name)

abbrev pub member_at : State → TypePtr → ℕ → Run (Option MemberPtr)
member_at st type i = do entry ← get_internal_from_type_info st type; field_ptr entry.members type i

unfoldable pub get_field_type : State → TypePtr → CharPtr → Run (Option MemberPtr)
get_field_type st type field_name = do
  id ← member_id st type field_name
  if id == not_found then ok none else member_at st type id

unfoldable pub reflect_get_field_type : State → Option TypePtr → CharPtr → Run (Option MemberPtr)
reflect_get_field_type st none field_name = ok none
reflect_get_field_type st (some type) field_name = get_field_type st type field_name

unfoldable pub reflect_field_info_iter_begin : State → Option TypePtr → Run (Option MemberPtr)
reflect_field_info_iter_begin st none = ok none
reflect_field_info_iter_begin st (some type) = member_at st type 0

unfoldable pub reflect_field_info_iter_end : State → Option TypePtr → Run (Option MemberPtr)
reflect_field_info_iter_end st none = ok none
reflect_field_info_iter_end st (some type) = do
  entry ← get_internal_from_type_info st type
  member_at st type entry.type.field_count

abbrev pub is_enum : ReflectObjType → Bool
is_enum enum = true
is_enum base = false
is_enum struct = false
is_enum union = false

-- The value that the returned `const size_t*` points at.
unfoldable pub get_enum_value : State → TypePtr → CharPtr → Run (Option ℕ)
get_enum_value st type field_name = do
  id ← member_id st type field_name
  let value = load_enumerator st (record { owner = type; index = id })
  if id == not_found then ok none else (value >>= λ e. ok (some e.value))

unfoldable pub reflect_get_enum_value : State → Option TypePtr → CharPtr → Run (Option ℕ)
reflect_get_enum_value st none field_name = ok none
reflect_get_enum_value st (some type) field_name = do
  entry ← get_internal_from_type_info st type
  if is_enum entry.type.variant then get_enum_value st type field_name else ok none

unfoldable pub reflect_enum_info_iter_begin : State → Option TypePtr → Run (Option MemberPtr)
reflect_enum_info_iter_begin st none = ok none
reflect_enum_info_iter_begin st (some type) = do
  entry ← get_internal_from_type_info st type
  if is_enum entry.type.variant then enumerator_ptr entry.members type 0 else ok none

unfoldable pub reflect_enum_info_iter_end : State → Option TypePtr → Run (Option MemberPtr)
reflect_enum_info_iter_end st none = ok none
reflect_enum_info_iter_end st (some type) = do
  entry ← get_internal_from_type_info st type
  if is_enum entry.type.variant
      then enumerator_ptr entry.members type entry.type.field_count
      else ok none
