-- ===== src/Tests/Objects.antt =====
-- Objects of the loaded struct, from an allocator that has one place to give.
use mathlib.Core.Option
use reflect_c.Base.{
  ℕ, ◌+◌, ◌%◌, ◌^◌, ◌≤◌, ◌≡◌, refl, true, false, none, some, [], ◌∷◌, arith, ◌==◌, if◌then◌else◌,
  get_elem?, Returns, ok, fault, wrong_member,
}
use reflect_c.Memory.Strings.{c_string}
use reflect_c.Format.{FieldDesc}
use reflect_c.Object.{
  Header, Heap, Alloc, Free, dynamic_alloc_magic, reflect_alloc, reflect_get_type_info,
  reflect_free, reflect_get_field_manual, reflect_get_field,
}
use reflect_c.Object.Laws.{
  Allocates, Allocated, IsObject, call_alloc, reflect_get_type_info-IsObject,
  reflect_alloc-Allocated, reflect_alloc-reflect_get_type_info,
}
use reflect_c.Object.Fields.{
  reflect_get_field-offset, reflect_get_field_absent, reflect_get_field-manual,
}
use reflect_c.Object.Release.{give_back, reflect_alloc-reflect_free}
use reflect_c.Object.Enums.{reflect_get_field-wrong_member}
use reflect_c.Tests.Image.{a_enumerator, e_type}
use reflect_c.Tests.Loaded.{loaded, loaded-Models, loaded-text}
use reflect_c.Tests.Queries.{no_a_field}
use reflect_c.Tests.Image.{y_name, q_name, a_name, x_field, y_field, p_type, program_string}

abbrev zeroed : Header
zeroed = record { magic = 0; type_info_ptr = 0; size = 0; is_ptr = false }

-- Memory in which only the header at 4096 may be touched.
abbrev one_place : Header → Heap
one_place h q = if q == 4096 then some h else none

abbrev heap : Heap
heap = one_place zeroed

abbrev alloc : Alloc
alloc size h = (some 4096, h)

abbrev full : Alloc
full size h = (none, h)

alloc-Allocates : (size : ℕ) → Allocates size heap (call_alloc full (some alloc) size heap)
alloc-Allocates size = ((zeroed, refl), λ q other. refl)

reflect_alloc-Allocated_example :
    Returns (reflect_alloc full (loaded true) (some 2) (some alloc) heap) (Allocated 2 heap)
reflect_alloc-Allocated_example =
    reflect_alloc-Allocated (loaded-Models true) 2 p_type refl full (some alloc) heap
      (alloc-Allocates 64)

reflect_alloc-reflect_get_type_info_example :
    Returns
      (reflect_alloc full (loaded true) (some 2) (some alloc) heap)
      (λ (ptr, heap'). reflect_get_type_info heap' ptr ≡ ok (Option.map (λ _. 2) ptr))
reflect_alloc-reflect_get_type_info_example =
    reflect_alloc-reflect_get_type_info (loaded-Models true) 2 p_type refl full (some alloc) heap
      (alloc-Allocates 64)

abbrev marked : Header
marked = record zeroed { magic = dynamic_alloc_magic; type_info_ptr = 2 }

object : IsObject (one_place marked) 4128 2
object = record { header = marked; behind = omega arith; holds = refl; marked = refl; typed = refl }

reflect_get_field-offset_example :
    (j : ℕ) × (g : FieldDesc) × (1 ≤ j)
    × (get_elem? (x_field ∷ y_field ∷ []) j ≡ some g)
    × (g.name ≡ y_name)
    × (reflect_get_field (loaded false) (one_place marked) (some 4128) (program_string 2)
        ≡ ok (some ((4128 + g.offset) % 2 ^ 64)))
    × (reflect_get_field_manual (loaded false) (some 4128) (program_string 2) (some 2)
        ≡ ok (some ((4128 + g.offset) % 2 ^ 64)))
unfolding c_string
reflect_get_field-offset_example =
    reflect_get_field-offset (loaded-Models false) 2 p_type false (x_field ∷ y_field ∷ [])
      (q_name ∷ []) refl refl (program_string 2) (one_place marked) 4128 1 y_field object refl
      (omega arith) (loaded-text false (program_string 2) refl)

reflect_get_field_absent_example :
    reflect_get_field (loaded true) (one_place marked) (some 4128) (program_string 4) ≡ ok none
unfolding c_string
reflect_get_field_absent_example =
    reflect_get_field_absent (loaded-Models true) 2 p_type false (x_field ∷ y_field ∷ [])
      (q_name ∷ []) refl refl (program_string 4) (one_place marked) 4128 a_name object
      (loaded-text true (program_string 4) refl) (omega arith) no_a_field

reflect_get_field-manual_example :
    reflect_get_field (loaded true) (one_place marked) (some 4128) (program_string 2)
    ≡ reflect_get_field_manual (loaded true) (some 4128) (program_string 2) (some 2)
reflect_get_field-manual_example =
    reflect_get_field-manual (loaded true) (one_place marked) (some 4128) (program_string 2)
      (some 2) (reflect_get_type_info-IsObject object)

-- The program's `free` takes the header away.
abbrev take_away : Free
take_away p h q = if q == p then none else h q

reflect_alloc-reflect_free_example :
    Returns (reflect_alloc full (loaded true) (some 2) (some alloc) heap) (λ (ptr, heap').
      reflect_free (λ p h. h) ptr (some take_away) heap'
      ≡ ok (give_back (λ p h. h) (some take_away) (some 4096) heap'))
reflect_alloc-reflect_free_example =
    reflect_alloc-reflect_free (loaded-Models true) 2 p_type refl full (some alloc) (λ p h. h)
      (some take_away) heap heap (some 4096) refl (alloc-Allocates 64)

abbrev marked_enum : Header
marked_enum = record marked { type_info_ptr = 3 }

enum-IsObject : IsObject (one_place marked_enum) 4128 3
enum-IsObject = record {
  header = marked_enum;
  behind = omega arith;
  holds = refl;
  marked = refl;
  typed = refl;
}

reflect_get_field-wrong_member_example :
    reflect_get_field (loaded true) (one_place marked_enum) (some 4128) (program_string 4)
    ≡ fault wrong_member
unfolding c_string
reflect_get_field-wrong_member_example =
    reflect_get_field-wrong_member (loaded-Models true) 3 e_type (a_enumerator ∷ []) [] refl refl
      (one_place marked_enum) 4128 0 a_enumerator (program_string 4) enum-IsObject refl
      (omega arith) (loaded-text true (program_string 4) refl)
