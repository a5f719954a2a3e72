-- ===== src/Sample/Objects.antt =====
-- The two parts of the programs on loaded tables.
use reflect_c.Base.{
  ℕ, ◌+◌, ◌-◌, ◌^◌, ◌<◌, ◌≤◌, ◌⊎◌, inl, inr, true, ltb, subst, ◌∙◌, ◌≡◌, refl, sym, ap, ◌∙◌, Bool,
  false, Option, none, some, List, [], ◌∷◌, arith, ◌==◌, ==_refl, length, get_elem?, codes, ok,
}
use reflect_c.Memory.{CharPtr}
use reflect_c.Memory.Strings.{text}
use reflect_c.Hashtable.{not_found}
use reflect_c.Format.{Text, FieldDesc, fields, composite, TypeDesc}
use reflect_c.Types.{TypePtr, State}
use reflect_c.Types.Models.{Models}
use reflect_c.Query.{reflect_type_info_from_name}
use reflect_c.Object.{Header, write, Heap, Alloc, Free, header_size, reflect_get_field}
use reflect_c.Object.Laws.{Allocates, IsObject, Overwrites, object_size, reflect_alloc-IsObject}
use reflect_c.Object.Fields.{reflect_get_field-offset}
use reflect_c.Object.Release.{reflect_free-IsObject}
use reflect_c.Sample.Program.{
  Room, in_object, Cells, with_cell, store, fetch, at_offset, Literals, int_part, struct_part,
}

-- A type has a field of this name, and each field of the name is at this offset.
pub record IsField (fs : List FieldDesc) (name : Text) (offset : ℕ) : Type 0 where
  pub index : ℕ
  pub desc : FieldDesc
  pub at : get_elem? fs index ≡ some desc
  pub named : desc.name ≡ name
  pub offsets :
      (j : ℕ) (g : FieldDesc) → get_elem? fs j ≡ some g → g.name ≡ name → g.offset ≡ offset

-- A write of a header changes the extent of no block.
abbrev pub KeepsRoom : Room → Type 0
KeepsRoom room =
    (heap : Heap) (p : ℕ) (old new : Header)
    → heap p ≡ some old
    → (q : ℕ) → room (write heap p new) q ≡ room heap q

-- `malloc` gives a block with room for an object of the type, below the end of memory.
pub record Gives (malloc : Alloc) (room : Room) (d : TypeDesc) (heap : Heap) : Type 0 where
  pub place : ℕ
  pub heap' : Heap
  pub given : malloc (object_size d) heap ≡ (some place, heap')
  pub allocates : Allocates (object_size d) heap (some place, heap')
  pub below : place + object_size d < 2 ^ 64
  pub room_lem : object_size d ≤ room heap' place

-- The structure that the programs declare, as a file lists it: 12 bytes, three fields.
pub record IsTestStruct (d : TypeDesc) : Type 0 where
  pub is_union : Bool
  pub members : List FieldDesc
  pub aliases : List Text
  pub size_lem : d.size ≡ 12
  pub content : d.body ≡ composite (fields is_union members) aliases
  pub few : length members < not_found
  pub a_lem : IsField members (codes "a") 0
  pub b_lem : IsField members (codes "b") 4
  pub d_lem : IsField members (codes "d") 8

with_cell-same : (cells : Cells) (p v : ℕ) → with_cell cells p v p ≡ some v
unfolding with_cell
with_cell-same cells p v = rw (with_cell, ==_refl p) refl

with_cell-apart :
    (cells : Cells) (p v q : ℕ) → (p + 4 ≤ q) ⊎ (q + 4 ≤ p) → with_cell cells p v q ≡ cells q
unfolding with_cell
with_cell-apart cells p v q (inl before) =
    let other : (q == p) ≡ false = ground arith in
    let low : ltb q (p + 4) ≡ false = ground arith in rw (with_cell, other, low) refl
with_cell-apart cells p v q (inr behind) =
    let other : (q == p) ≡ false = ground arith in
    let low : ltb q (p + 4) ≡ true = ground arith in
    let high : ltb p (q + 4) ≡ false = ground arith in rw (with_cell, other, low, high) refl

module _ (room : Room) (heap : Heap) (place size : ℕ) (wide : size ≤ room heap place) where
  -- The four bytes at an offset behind the header are in the block.
  in_object-true :
      (p : ℕ)
      → place + header_size ≤ p
      → p + 4 ≤ place + size
      → in_object room heap (place + header_size) p ≡ true
  unfolding in_object
  in_object-true p low high =
      let back : place + header_size - header_size ≡ place = omega arith in
      let above : ltb p (place + header_size) ≡ false = ground arith in
      let below : ltb (place + room heap place) (p + 4) ≡ false = ground arith in
      rw (in_object, back, above, below) refl

  store-with_cell :
      (p v : ℕ) (cells : Cells)
      → place + header_size ≤ p
      → p + 4 ≤ place + size
      → store room heap (some (place + header_size)) (some p) v cells ≡ ok (with_cell cells p v)
  unfolding store
  store-with_cell p v cells low high = rw (store, in_object-true p low high) refl

  fetch-some :
      (p v : ℕ) (cells : Cells)
      → place + header_size ≤ p
      → p + 4 ≤ place + size
      → cells p ≡ some v
      → fetch room heap (some (place + header_size)) (some p) cells ≡ ok v
  unfolding fetch
  fetch-some p v cells low high at = rw (fetch, in_object-true p low high, at) refl

Overwrites-room :
    {room : Room} {heap heap' : Heap}
    → KeepsRoom room
    → (p : ℕ) → Overwrites heap p heap'
    → (q : ℕ) → room heap' q ≡ room heap q
Overwrites-room {room} {heap} keeps p (old, new, mapped, e) q =
    ap (λ h. room h q) e ∙ keeps heap p old new mapped q

module _ {st : State} {types : ℕ → Option TypeDesc} {names : Text → Option ℕ} {n : ℕ}
    (m : Models st types names n) (malloc : Alloc) (free : Free) (room : Room) (lit : Literals)
    (keeps : KeepsRoom room) where
  pub int_part-prints :
      (t : TypePtr) (d : TypeDesc) (heap : Heap) (cells : Cells)
      → types t ≡ some d
      → d.size ≡ 4
      → reflect_type_info_from_name st lit.int_name ≡ ok (some t)
      → Gives malloc room d heap
      → (heap' : Heap) × (cells' : Cells) × (int_part malloc free room lit st heap cells
          ≡ ok (1337 ∷ [], heap', cells'))
  unfolding int_part
  int_part-prints t d heap cells listed size asked g =
      let (heap₁, run, object, written) =
        reflect_alloc-IsObject m t d listed malloc none heap g.heap' g.place g.given g.allocates in
      let wide : object_size d ≤ room heap₁ g.place =
        subst (λ k. object_size d ≤ k) (sym (Overwrites-room keeps g.place written g.place))
          g.room_lem in
      let ptr : ℕ = g.place + header_size in
      (
        free (ptr - header_size) heap₁,
        with_cell cells ptr 1337,
        rw
            (
              int_part,
              asked,
              run,
              store-with_cell room heap₁ g.place (object_size d) wide ptr 1337 cells (omega arith)
                  (omega (arith, size)),
              fetch-some room heap₁ g.place (object_size d) wide ptr 1337 (with_cell cells ptr 1337)
                  (omega arith) (omega (arith, size)) (with_cell-same cells ptr 1337),
              reflect_free-IsObject free none heap₁ ptr t object,
            )
            refl,
      )

  test_field_at :
      (t : TypePtr) (d : TypeDesc) (s : IsTestStruct d) (heap : Heap) (ptr offset : ℕ) (k : Text)
      (name : CharPtr)
      → types t ≡ some d
      → IsObject heap ptr t
      → text st.memory name ≡ some k
      → IsField s.members k offset
      → ptr + offset < 2 ^ 64
      → reflect_get_field st heap (some ptr) name ≡ ok (some (ptr + offset))
  test_field_at t d s heap ptr offset k name listed object named f small =
      let (j, g, le, at, same, run, run') =
        reflect_get_field-offset m t d s.is_union s.members s.aliases listed s.content name heap ptr
          f.index f.desc object f.at s.few (named ∙ ap some (sym f.named)) in
      let off = f.offsets j g at (same ∙ f.named) in
      run ∙ ap (λ q. ok (some q)) (omega (arith, off))

  pub struct_part-prints :
      (t : TypePtr) (d : TypeDesc) (s : IsTestStruct d) (heap : Heap) (cells : Cells)
      → types t ≡ some d
      → reflect_type_info_from_name st lit.struct_name ≡ ok (some t)
      → text st.memory lit.a_name ≡ some (codes "a")
      → text st.memory lit.b_name ≡ some (codes "b")
      → text st.memory lit.d_name ≡ some (codes "d")
      → Gives malloc room d heap
      → (heap' : Heap) × (cells' : Cells) × (struct_part malloc free room lit st heap cells
          ≡ ok (1 ∷ 1 ∷ 2 ∷ 3 ∷ [], heap', cells'))
  unfolding struct_part at_offset
  struct_part-prints t d s heap cells listed asked a b d_ g =
      let (heap₁, run, object, written) =
        reflect_alloc-IsObject m t d listed malloc none heap g.heap' g.place g.given g.allocates in
      let wide : object_size d ≤ room heap₁ g.place =
        subst (λ k. object_size d ≤ k) (sym (Overwrites-room keeps g.place written g.place))
          g.room_lem in
      let ptr : ℕ = g.place + header_size in
      let size = s.size_lem in
      let below = g.below in
      let put = store-with_cell room heap₁ g.place (object_size d) wide in
      let get = fetch-some room heap₁ g.place (object_size d) wide in
      let cells₁ = with_cell cells (ptr + 0) 1 in
      let cells₂ = with_cell cells₁ (ptr + 4) 2 in
      let cells₃ = with_cell cells₂ (ptr + 8) 3 in
      let at_a =
        with_cell-apart cells₂ (ptr + 8) 3 (ptr + 0) (inr (omega arith))
        ∙ with_cell-apart cells₁ (ptr + 4) 2 (ptr + 0) (inr (omega arith))
        ∙ with_cell-same cells (ptr + 0) 1 in
      let at_b =
        with_cell-apart cells₂ (ptr + 8) 3 (ptr + 4) (inr (omega arith))
        ∙ with_cell-same cells₁ (ptr + 4) 2 in
      (
        free (ptr - header_size) heap₁,
        cells₃,
        rw
            (
              struct_part,
              asked,
              run,
              test_field_at t d s heap₁ ptr 0 (codes "a") lit.a_name listed object a s.a_lem
                  (omega arith),
              put (ptr + 0) 1 cells (omega arith) (omega arith),
              test_field_at t d s heap₁ ptr 4 (codes "b") lit.b_name listed object b s.b_lem
                  (omega arith),
              put (ptr + 4) 2 cells₁ (omega arith) (omega arith),
              test_field_at t d s heap₁ ptr 8 (codes "d") lit.d_name listed object d_ s.d_lem
                  (omega arith),
              put (ptr + 8) 3 cells₂ (omega arith) (omega arith),
              get (ptr + 0) 1 cells₃ (omega arith) (omega arith) at_a,
              get (ptr + 4) 2 cells₃ (omega arith) (omega arith) at_b,
              get (ptr + 8) 3 cells₃ (omega arith) (omega arith)
                  (with_cell-same cells₂ (ptr + 8) 3),
              reflect_free-IsObject free none heap₁ ptr t object,
            )
            refl,
      )
