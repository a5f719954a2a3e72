-- ===== src/Sample/Program.antt =====
-- The main programs of examples/sample/sample.c and examples/inlinetest/inline.c, which do the same
-- with the two types. The integers in objects are cells of their own, one for each address; they may
-- be touched only inside the block of the object, and while it is allocated.
use reflect_c.Base.{
  ℕ, ◌+◌, ◌-◌, ◌&&◌, Bool, ltb, out_of_bounds, not, Option, none, some, List, [], ◌∷◌, ◌++◌, ◌==◌,
  if◌then◌else◌, Run, or_fault, ◌>>=◌, ok, fault, uninitialised, null_pointer,
}
use reflect_c.Memory.{CharPtr}
use reflect_c.Types.{State}
use reflect_c.Load.{reflect_load}
use reflect_c.Query.{reflect_type_info_from_name}
use reflect_c.Object.{
  Heap, Alloc, Free, header_size, reflect_alloc, reflect_free, reflect_get_field,
}
use reflect_c.Sample.{Outside, load_reflection}

-- How many bytes from an address on belong to the block that was allocated there, if it is not
-- freed, and else 0: what the C library knows of its blocks.
abbrev pub Room : Type 0
Room = Heap → ℕ → ℕ

-- The four bytes at `p` are in the block of an object, and not in its header.
unfoldable pub in_object : Room → Heap → (object p : ℕ) → Bool
in_object room heap object p =
    not (ltb p object)
    && not (ltb (object - header_size + room heap (object - header_size)) (p + 4))

-- The `int` at each address, if one was stored there.
abbrev pub Cells : Type 0
Cells = ℕ → Option ℕ

-- What overlaps it is lost.
unfoldable pub with_cell : Cells → ℕ → ℕ → Cells
with_cell cells p value q =
    if q == p then some value else if ltb q (p + 4) && ltb p (q + 4) then none else cells q

-- `*p = value` and `*p`, for a pointer to an `int` in an object.
unfoldable pub store : Room → Heap → (object p : Option ℕ) → ℕ → Cells → Run Cells
unfolding in_object with_cell
store room heap none p value cells = fault null_pointer
store room heap (some object) none value cells = fault null_pointer
store room heap (some object) (some p) value cells =
    if in_object room heap object p then ok (with_cell cells p value) else fault out_of_bounds

unfoldable pub fetch : Room → Heap → (object p : Option ℕ) → Cells → Run ℕ
unfolding in_object
fetch room heap none p cells = fault null_pointer
fetch room heap (some object) none cells = fault null_pointer
fetch room heap (some object) (some p) cells =
    if in_object room heap object p then or_fault uninitialised (cells p) else fault out_of_bounds

-- A member of `struct_test_t` at the offset that the compiler gave it.
unfoldable pub at_offset : Option ℕ → ℕ → Option ℕ
at_offset none offset = none
at_offset (some p) offset = some (p + offset)

-- The string literals of the program.
pub record Literals : Type 0 where
  pub int_name : CharPtr
  pub struct_name : CharPtr
  pub a_name : CharPtr
  pub b_name : CharPtr
  pub d_name : CharPtr

module _ (malloc : Alloc) (free : Free) (room : Room) (lit : Literals) where
  -- With an `int`: what is printed, and memory after it.
  unfoldable pub int_part : State → Heap → Cells → Run (List ℕ × Heap × Cells)
  unfolding store fetch
  int_part st heap₀ cells₀ = do
    int_type ← reflect_type_info_from_name st lit.int_name
    (value, heap₁) ← reflect_alloc malloc st int_type none heap₀
    cells₁ ← store room heap₁ value value 1337 cells₀
    printed ← fetch room heap₁ value value cells₁
    heap₂ ← reflect_free free value none heap₁
    ok (printed ∷ [], heap₂, cells₁)

  -- With a `struct_test_t`.
  unfoldable pub struct_part : State → Heap → Cells → Run (List ℕ × Heap × Cells)
  unfolding store fetch
  struct_part st heap₀ cells₀ = do
    hotfix_struct_t ← reflect_type_info_from_name st lit.struct_name
    (struct_test, heap₁) ← reflect_alloc malloc st hotfix_struct_t none heap₀
    a ← reflect_get_field st heap₁ struct_test lit.a_name
    cells₁ ← store room heap₁ struct_test a 1 cells₀
    b ← reflect_get_field st heap₁ struct_test lit.b_name
    cells₂ ← store room heap₁ struct_test b 2 cells₁
    d ← reflect_get_field st heap₁ struct_test lit.d_name
    cells₃ ← store room heap₁ struct_test d 3 cells₂
    a_again ← reflect_get_field st heap₁ struct_test lit.a_name
    through_pointer ← fetch room heap₁ struct_test a_again cells₃
    a_value ← fetch room heap₁ struct_test (at_offset struct_test 0) cells₃
    b_value ← fetch room heap₁ struct_test (at_offset struct_test 4) cells₃
    d_value ← fetch room heap₁ struct_test (at_offset struct_test 8) cells₃
    heap₂ ← reflect_free free struct_test none heap₁
    ok (through_pointer ∷ a_value ∷ b_value ∷ d_value ∷ [], heap₂, cells₃)

  unfoldable pub both_parts : State → Heap → Cells → Run (List ℕ)
  unfolding int_part struct_part
  both_parts st heap cells = do
    (first_out, heap₁, cells₁) ← int_part st heap cells
    (second_out, heap₂, cells₂) ← struct_part st heap₁ cells₁
    ok (first_out ++ second_out)

  -- The exit code, and what is printed on `stdout`.
  unfoldable pub sample_main : Outside → State → Heap → Cells → Run (ℕ × List ℕ)
  unfolding both_parts
  sample_main outside st heap cells = do
    (loaded, st') ← load_reflection outside st
    if not loaded then ok (1, []) else (both_parts st' heap cells >>= λ out. ok (0, out))

  unfoldable pub inline_main : (linked_data : CharPtr) → State → Heap → Cells → Run (ℕ × List ℕ)
  unfolding both_parts
  inline_main linked_data st heap cells = do
    st' ← reflect_load linked_data st
    out ← both_parts st' heap cells
    ok (0, out)
