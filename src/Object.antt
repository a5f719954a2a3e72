-- ===== src/Object.antt =====
-- The objects of src/reflect.c: a header before the memory that the program gets.
-- An address is a number; NULL is `none`.
pub mod Laws
pub mod Fields
pub mod Enums
pub mod Release
use reflect_c.Base.{
  ℕ, zero, suc, ◌+◌, ◌-◌, ◌*◌, ◌/◌, ◌%◌, ◌^◌, ◌≤◌, ◌<◌, bit_xor, ◌≡◌, refl, sym, ap, ◌∙◌, fun_ext,
  subst, ◌≢◌, ◌↔◌, ◌⊎◌, inl, inr, Bool, true, false, ◌&&◌, ◌||◌, not, Option, none, some, List, [],
  ◌∷◌, ◌++◌, map, append_assoc, append-nil, arith, ltb, ◌==◌, if◌then◌else◌, ==_refl, eq-of_==,
  Bool-cases, Option-cases, ◌===◌, ===_refl, eq-of_===, ===_iff, lt_cases, lt→ltb, length,
  get_elem?, get_or, set, take, drop, replicate, length-append, length-set, length-replicate,
  length-drop, get_elem?-set, get_elem?-get_or, get_or-set, get_or-replicate, get_or-append,
  drop-nil, drop-drop, drop-append, set-append_length, get_or-append_self, set-set, Fault, Run,
  ◌>>=◌, or_fault, Returns, ok, fault, out_of_bounds, uninitialised, null_pointer, division_by_zero,
  wrong_member, trap_value,
}
use reflect_c.Memory.{CharPtr}
use reflect_c.Hashtable.{not_found}
use reflect_c.Types.{TypePtr, State, TypeInfoInternal, get_internal_from_type_info}
use reflect_c.Query.{member_id, load_field}

-- `reflect_type_header_t`; `size` and `is_ptr` are declared, and never written.
pub record Header : Type 0 where
  pub magic : ℕ
  pub type_info_ptr : TypePtr
  pub size : ℕ
  pub is_ptr : Bool

-- What 32 bytes of memory hold, read as a header; `none` where none may be read.
abbrev pub Heap : Type 0
Heap = ℕ → Option Header

-- `REFLECT_DYNAMIC_ALLOC_MAGIC`
abbrev pub dynamic_alloc_magic : ℕ
dynamic_alloc_magic = 0x7575_7575

-- `sizeof(reflect_type_header_t)`
abbrev pub header_size : ℕ
header_size = 32

-- A call of `malloc` or of the program's allocator: the address, or NULL, and memory after it.
abbrev pub Alloc : Type 0
Alloc = ℕ → Heap → Option ℕ × Heap

-- A call of `free` or of the program's function.
abbrev pub Free : Type 0
Free = ℕ → Heap → Heap

abbrev pub write : Heap → ℕ → Header → Heap
write heap p header q = if q == p then some header else heap q

-- `allocated->magic = …; allocated->type_info_ptr = type`
unfoldable pub write_header : ℕ → TypePtr → Heap → Run Heap
write_header p type heap = do
  old ← or_fault out_of_bounds (heap p)
  ok (write heap p (record old { magic = dynamic_alloc_magic; type_info_ptr = type }))

unfoldable pub finish_alloc : TypePtr → Option ℕ × Heap → Run (Option ℕ × Heap)
finish_alloc type (none, heap) = ok (none, heap)
finish_alloc type (some p, heap) = do
  heap' ← write_header p type heap
  ok (some (p + header_size), heap')

-- `alloc(allocator, size)` is given as `custom`, where the program passes a function.
unfoldable pub reflect_alloc :
    (malloc : Alloc) → State → Option TypePtr → Option Alloc → Heap → Run (Option ℕ × Heap)
reflect_alloc malloc st none custom heap = ok (none, heap)
reflect_alloc malloc st (some type) custom heap = do
  entry ← get_internal_from_type_info st type
  let size = (header_size + entry.type.size) % 2 ^ 64
  finish_alloc type (elim custom [ none ↦ malloc size heap | some alloc ↦ alloc size heap ])

-- The header in front of what `ptr` points at.
abbrev pub header_of : Heap → ℕ → Run Header
header_of heap ptr =
    if ltb ptr header_size
    then fault out_of_bounds
    else or_fault out_of_bounds (heap (ptr - header_size))

unfoldable pub reflect_get_type_info : Heap → Option ℕ → Run (Option TypePtr)
reflect_get_type_info heap none = ok none
reflect_get_type_info heap (some ptr) = do
  header ← header_of heap ptr
  if header.magic == dynamic_alloc_magic then ok (some header.type_info_ptr) else ok none

unfoldable pub reflect_free : (free : Free) → Option ℕ → Option Free → Heap → Run Heap
reflect_free free none custom heap = ok heap
reflect_free free (some ptr) custom heap = do
  header ← header_of heap ptr
  if header.magic == dynamic_alloc_magic
      then ok (elim custom [
        | none ↦ free (ptr - header_size) heap
        | some free_func ↦ free_func (ptr - header_size) heap
      ])
      else ok heap

-- The lookup in `reflect_get_field` behind the type, and `struct_ptr + field_info->offset`.
unfoldable pub field_address : State → ℕ → CharPtr → TypePtr → Run (Option ℕ)
field_address st struct_ptr field_name type = do
  id ← member_id st type field_name
  let address = load_field st (record { owner = type; index = id })
  if id == not_found
      then ok none
      else (address >>= λ info. ok (some ((struct_ptr + info.offset) % 2 ^ 64)))

unfoldable pub reflect_get_field_manual :
    State → Option ℕ → CharPtr → Option TypePtr → Run (Option ℕ)
reflect_get_field_manual st none field_name type = ok none
reflect_get_field_manual st (some ptr) field_name none = ok none
reflect_get_field_manual st (some struct_ptr) field_name (some type_info) = do
  id ← member_id st type_info field_name
  let field_info = load_field st (record { owner = type_info; index = id })
  if id == not_found
      then ok none
      else (field_info >>= λ info. ok (some ((struct_ptr + info.offset) % 2 ^ 64)))

unfoldable pub reflect_get_field : State → Heap → Option ℕ → CharPtr → Run (Option ℕ)
reflect_get_field st heap none field_name = ok none
reflect_get_field st heap (some ptr) field_name = do
  type ← reflect_get_type_info heap (some ptr)
  elim type [ none ↦ ok none | some t ↦ field_address st ptr field_name t ]
