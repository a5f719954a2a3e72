-- ===== src/Object/Release.antt =====
-- The release of an object.
use reflect_c.Base.{ℕ, ◌+◌, ◌-◌, ◌≡◌, refl, ap, ◌∙◌, Option, none, some, arith, ◌==◌, Returns, ok}
use reflect_c.Format.{Text, TypeDesc}
use reflect_c.Types.{TypePtr, State}
use reflect_c.Types.Models.{Models}
use reflect_c.Object.{
  Heap, Alloc, Free, dynamic_alloc_magic, header_size, reflect_alloc, reflect_free,
}
use reflect_c.Object.Laws.{
  Allocates, IsObject, header_of-IsObject, call_alloc, object_size, reflect_alloc-IsObject,
  reflect_alloc-none,
}

abbrev pub call_free : (free : Free) → Option Free → ℕ → Heap → Heap
call_free free none p heap = free p heap
call_free free (some free_func) p heap = free_func p heap

-- What was allocated goes back, if anything was.
abbrev pub give_back : (free : Free) → Option Free → Option ℕ → Heap → Heap
give_back free custom none heap = heap
give_back free custom (some p) heap = call_free free custom p heap

-- An object is released with the address of its header.
pub reflect_free-IsObject :
    (free : Free) (custom : Option Free) (heap : Heap) (ptr : ℕ) (type : TypePtr)
    → IsObject heap ptr type
    → reflect_free free (some ptr) custom heap ≡ ok (call_free free custom (ptr - header_size) heap)
unfolding reflect_free
reflect_free-IsObject free none heap ptr type o =
    rw (header_of-IsObject o, ap (λ k. k == dynamic_alloc_magic) o.marked) refl
reflect_free-IsObject free (some f) heap ptr type o =
    rw (header_of-IsObject o, ap (λ k. k == dynamic_alloc_magic) o.marked) refl

module _ {st : State} {types : ℕ → Option TypeDesc} {names : Text → Option ℕ} {n : ℕ}
    (m : Models st types names n) (t : TypePtr) (d : TypeDesc) (listed : types t ≡ some d) where
  -- In tables that model a list of types, let an allocator (`malloc`, or the program's if it
  -- gives one), on a request of 32 bytes more than the size of a listed type, wrapped to 64
  -- bits, return NULL or an address whose header may be written, and touch no other memory.
  -- Then `reflect_free` of what `reflect_alloc` returned calls the program's function, or
  -- `free` if it gives none, with the address that the allocator gave, and calls nothing if
  -- that was NULL.
  pub reflect_alloc-reflect_free :
      (malloc : Alloc) (custom : Option Alloc) (free : Free) (custom_free : Option Free)
      (heap heap' : Heap) (place : Option ℕ)
      → call_alloc malloc custom (object_size d) heap ≡ (place, heap')
      → Allocates (object_size d) heap (place, heap')
      → Returns (reflect_alloc malloc st (some t) custom heap) (λ (ptr, heap'').
        reflect_free free ptr custom_free heap'' ≡ ok (give_back free custom_free place heap''))
  unfolding reflect_free
  reflect_alloc-reflect_free malloc custom free custom_free heap heap' none given allocates =
      ((none, heap'), reflect_alloc-none m t d listed malloc custom heap heap' given, refl)
  reflect_alloc-reflect_free malloc custom free custom_free heap heap' (some p) given allocates =
      let (heap'', run, object, written) =
        reflect_alloc-IsObject m t d listed malloc custom heap heap' p given allocates in
      let back : p + header_size - header_size ≡ p = omega arith in
      (
        (some (p + header_size), heap''),
        run,
        reflect_free-IsObject free custom_free heap'' (p + header_size) t object
            ∙ ap (λ q. ok (call_free free custom_free q heap'')) back,
      )
