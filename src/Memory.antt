-- ===== src/Memory.antt =====
-- The C memory that holds strings: blocks of bytes, and `char*` values that point into them.
-- A block is the metadata buffer, a string that `read_c_string` allocates, or a caller's string.
-- A read outside a block is a fault, and so is a read through NULL.
pub mod Strings
use reflect_c.Base.{
  ℕ, ◌+◌, Bool, true, false, Option, none, some, List, [], ◌∷◌, ◌++◌, ◌==◌, if◌then◌else◌, length,
  get_or, drop, Run, ok, fault, out_of_bounds, null_pointer,
}

abbrev pub Memory : Type 0
Memory = List (List ℕ)

pub record CharPtr : Type 0 where
  pub block : ℕ
  pub offset : ℕ

-- `p + n`
abbrev pub add_ptr : CharPtr → ℕ → CharPtr
add_ptr p n = record p { offset = p.offset + n }

-- What lies from `p` to the end of its block.
abbrev pub bytes_at : Memory → CharPtr → List ℕ
bytes_at mem p = drop p.offset (get_or mem p.block [])

-- The same through a pointer that may be NULL.
abbrev pub read_at : Memory → Option CharPtr → Run (List ℕ)
read_at mem none = fault null_pointer
read_at mem (some p) = ok (bytes_at mem p)

-- `malloc` of a block, and `memcpy` of the bytes into it.
abbrev pub malloc : Memory → List ℕ → CharPtr × Memory
malloc mem bs = (record { block = length mem; offset = 0 }, mem ++ bs ∷ [])

-- `strcmp(s, t) == 0`
unfoldable pub strcmp_zero : List ℕ → List ℕ → Run Bool
strcmp_zero [] t = fault out_of_bounds
strcmp_zero (a ∷ s) [] = fault out_of_bounds
strcmp_zero (a ∷ s) (b ∷ t) =
    if a == b then (if a == 0 then ok true else strcmp_zero s t) else ok false
