-- ===== src/Object/Laws.antt =====
-- Allocation, and the type of an object.
use mathlib.Core.Option
use reflect_c.Base.{
  ℕ, ◌+◌, ◌-◌, ◌%◌, ◌^◌, ◌≤◌, ◌≡◌, refl, ap, ◌≢◌, false, Option, none, some, arith, ltb, ◌==◌,
  ==_refl, Returns, ok,
}
use reflect_c.Format.{Text, TypeDesc}
use reflect_c.Types.{TypePtr, State}
use reflect_c.Types.Models.{Models}
use reflect_c.Query.Entries.{get_internal-Describes}
use reflect_c.Object.{
  header_of, Header, Heap, Alloc, dynamic_alloc_magic, header_size, write, write_header,
  finish_alloc, reflect_alloc, reflect_get_type_info,
}

-- What an allocator promises of one call: NULL and memory untouched, or an address whose first
-- bytes may be written, with all other memory untouched.
abbrev pub Allocates : ℕ → Heap → Option ℕ × Heap → Type 0
Allocates size heap (none, heap') = (q : ℕ) → heap' q ≡ heap q
Allocates size heap (some p, heap') =
    ((h : Header) × (heap' p ≡ some h)) × ((q : ℕ) → q ≢ p → heap' q ≡ heap q)

-- An object: `ptr` is behind a header that carries the mark and the type.
pub record IsObject (heap : Heap) (ptr : ℕ) (type : TypePtr) : Type 0 where
  pub header : Header
  pub behind : header_size ≤ ptr
  pub holds : heap (ptr - header_size) ≡ some header
  pub marked : header.magic ≡ dynamic_alloc_magic
  pub typed : header.type_info_ptr ≡ type

-- The outcome of an allocation: NULL, or an object of the type; other memory is untouched.
abbrev pub Allocated : TypePtr → Heap → Option ℕ × Heap → Type 0
Allocated type heap (none, heap') = (q : ℕ) → heap' q ≡ heap q
Allocated type heap (some ptr, heap') =
    IsObject heap' ptr type × ((q : ℕ) → q + header_size ≢ ptr → heap' q ≡ heap q)

-- One header is written, where one may be.
abbrev pub Overwrites : Heap → ℕ → Heap → Type 0
Overwrites heap p heap' =
    (old : Header) × (new : Header) × (heap p ≡ some old) × (heap' ≡ write heap p new)

-- The object behind the header that was written.
finish_alloc-some :
    (type : TypePtr) (size p : ℕ) (heap heap' : Heap)
    → Allocates size heap (some p, heap')
    → (heap'' : Heap) × (finish_alloc type (some p, heap') ≡ ok (some (p + header_size), heap''))
      × Allocated type heap (some (p + header_size), heap'')
      × Overwrites heap' p heap''
unfolding finish_alloc write_header
finish_alloc-some type size p heap heap' ((old, mapped), same) =
    let header : Header = record old { magic = dynamic_alloc_magic; type_info_ptr = type } in
    let back : p + header_size - header_size ≡ p = omega arith in
    (
      write heap' p header,
      rw mapped,
      (
        record {
          header = header;
          behind = omega arith;
          holds = rw (back, ==_refl);
          marked = refl;
          typed = refl;
        },
        λ q ne. ground (arith, same q),
      ),
      (old, header, mapped, refl),
    )

finish_alloc-Allocated :
    (type : TypePtr) (size : ℕ) (heap : Heap) (got : Option ℕ × Heap)
    → Allocates size heap got
    → Returns (finish_alloc type got) (Allocated type heap)
unfolding finish_alloc
finish_alloc-Allocated type size heap (none, heap') same = ((none, heap'), refl, same)
finish_alloc-Allocated type size heap (some p, heap') allocates =
    let (heap'', run, done, written) = finish_alloc-some type size p heap heap' allocates in
    ((some (p + header_size), heap''), run, done)

pub header_of-IsObject :
    {heap : Heap} {ptr : ℕ} {type : TypePtr} (o : IsObject heap ptr type)
    → header_of heap ptr ≡ ok o.header
header_of-IsObject {heap} {ptr} o =
    let behind = o.behind in
    let low : ltb ptr header_size ≡ false = ground arith in rw (low, o.holds) refl

-- `reflect_get_type_info` tells the type of every object, and nothing of what has no mark.
pub reflect_get_type_info-IsObject :
    {heap : Heap} {ptr : ℕ} {type : TypePtr}
    → IsObject heap ptr type
    → reflect_get_type_info heap (some ptr) ≡ ok (some type)
unfolding reflect_get_type_info
reflect_get_type_info-IsObject {heap} {ptr} o =
    rw (header_of-IsObject o, ap (λ k. k == dynamic_alloc_magic) o.marked, o.typed) refl

-- The bytes of a header and of an object of the type.
abbrev pub object_size : TypeDesc → ℕ
object_size d = (header_size + d.size) % 2 ^ 64

-- Whichever allocator the program gives is called with the given size.
abbrev pub call_alloc : (malloc : Alloc) → Option Alloc → ℕ → Heap → Option ℕ × Heap
call_alloc malloc none size heap = malloc size heap
call_alloc malloc (some alloc) size heap = alloc size heap

module _ {st : State} {types : ℕ → Option TypeDesc} {names : Text → Option ℕ} {n : ℕ}
    (m : Models st types names n) (t : TypePtr) (d : TypeDesc) (listed : types t ≡ some d) where
  -- In tables that model a list of types, for a listed type and an allocator (`malloc`, or the
  -- program's if it gives one) that on a request of 32 bytes more than the size of the type,
  -- wrapped to 64 bits, returns NULL or an address whose header may be written, and touches no
  -- other memory: `reflect_alloc` returns NULL or an object, that is an address 32 bytes behind
  -- a header with the mark and the type, and no memory but that header changes.
  pub reflect_alloc-Allocated :
      (malloc : Alloc) (custom : Option Alloc) (heap : Heap)
      → Allocates (object_size d) heap (call_alloc malloc custom (object_size d) heap)
      → Returns (reflect_alloc malloc st (some t) custom heap) (Allocated t heap)
  unfolding reflect_alloc
  reflect_alloc-Allocated malloc none heap allocates =
      let (e, run, h) = get_internal-Describes m t d listed in
      let (got, run', done) = finish_alloc-Allocated t (object_size d) heap _ allocates in
      (got, rw (run, h.header.size_lem) run', done)
  reflect_alloc-Allocated malloc (some alloc) heap allocates =
      let (e, run, h) = get_internal-Describes m t d listed in
      let (got, run', done) = finish_alloc-Allocated t (object_size d) heap _ allocates in
      (got, rw (run, h.header.size_lem) run', done)

  -- Where the allocator gives an address, the outcome is the object behind the header there.
  pub reflect_alloc-IsObject :
      (malloc : Alloc) (custom : Option Alloc) (heap heap' : Heap) (p : ℕ)
      → call_alloc malloc custom (object_size d) heap ≡ (some p, heap')
      → Allocates (object_size d) heap (some p, heap')
      → (heap'' : Heap) × (reflect_alloc malloc st (some t) custom heap
          ≡ ok (some (p + header_size), heap''))
        × IsObject heap'' (p + header_size) t
        × Overwrites heap' p heap''
  unfolding reflect_alloc
  reflect_alloc-IsObject malloc none heap heap' p given allocates =
      let (e, run, h) = get_internal-Describes m t d listed in
      let (heap'', run', done, written) =
        finish_alloc-some t (object_size d) p heap heap' allocates in
      (heap'', rw (run, h.header.size_lem, given) run', done.0, written)
  reflect_alloc-IsObject malloc (some alloc) heap heap' p given allocates =
      let (e, run, h) = get_internal-Describes m t d listed in
      let (heap'', run', done, written) =
        finish_alloc-some t (object_size d) p heap heap' allocates in
      (heap'', rw (run, h.header.size_lem, given) run', done.0, written)

  pub reflect_alloc-none :
      (malloc : Alloc) (custom : Option Alloc) (heap heap' : Heap)
      → call_alloc malloc custom (object_size d) heap ≡ (none, heap')
      → reflect_alloc malloc st (some t) custom heap ≡ ok (none, heap')
  unfolding reflect_alloc finish_alloc
  reflect_alloc-none malloc none heap heap' given =
      let (e, run, h) = get_internal-Describes m t d listed in
      rw (run, h.header.size_lem, given) refl
  reflect_alloc-none malloc (some alloc) heap heap' given =
      let (e, run, h) = get_internal-Describes m t d listed in
      rw (run, h.header.size_lem, given) refl

  -- In tables that model a list of types, for a listed type and an allocator that on a request
  -- of 32 bytes more than the size of the type, wrapped to 64 bits, returns NULL or an address
  -- whose header may be written, and touches no other memory: `reflect_get_type_info` of what
  -- `reflect_alloc` returned is the type, or NULL if NULL was returned.
  pub reflect_alloc-reflect_get_type_info :
      (malloc : Alloc) (custom : Option Alloc) (heap : Heap)
      → Allocates (object_size d) heap (call_alloc malloc custom (object_size d) heap)
      → Returns
          (reflect_alloc malloc st (some t) custom heap)
          (λ (ptr, heap'). reflect_get_type_info heap' ptr ≡ ok (Option.map (λ _. t) ptr))
  unfolding reflect_get_type_info
  reflect_alloc-reflect_get_type_info malloc custom heap allocates =
      let ((ptr, heap'), run, done) = reflect_alloc-Allocated malloc custom heap allocates in
      ((ptr, heap'), run, told ptr heap' done)
    where
      told :
          (ptr : Option ℕ) (heap' : Heap)
          → Allocated t heap (ptr, heap')
          → reflect_get_type_info heap' ptr ≡ ok (Option.map (λ _. t) ptr)
      told none heap' done = refl
      told (some ptr) heap' (object, same) = reflect_get_type_info-IsObject object
