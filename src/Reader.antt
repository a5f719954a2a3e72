-- ===== src/Reader.antt =====
-- src/reader.c: a cursor over the metadata buffer, on a little-endian machine with 64-bit `size_t`.
-- The offset wraps at 2^64, and a read past the end of the buffer is a fault.
pub mod Encoding
pub mod Cursor
pub mod Text
use reflect_c.Base.{
  ℕ, zero, suc, ◌+◌, ◌-◌, ◌*◌, ◌/◌, ◌%◌, ◌^◌, ◌≤◌, ◌<◌, bit_xor, ◌≡◌, refl, sym, ap, ◌∙◌, fun_ext,
  subst, ◌≢◌, ◌↔◌, ◌⊎◌, inl, inr, Bool, true, false, ◌&&◌, ◌||◌, not, Option, none, some, List, [],
  ◌∷◌, ◌++◌, map, append_assoc, append-nil, arith, ltb, ◌==◌, if◌then◌else◌, ==_refl, eq-of_==,
  Bool-cases, Option-cases, ◌===◌, ===_refl, eq-of_===, ===_iff, lt_cases, lt→ltb, length,
  get_elem?, get_or, set, take, drop, replicate, length-append, length-set, length-replicate,
  length-drop, get_elem?-set, get_elem?-get_or, get_or-set, get_or-replicate, get_or-append,
  drop-nil, drop-drop, drop-append, set-append_length, get_or-append_self, Fault, Run, ◌>>=◌,
  or_fault, Returns, ok, fault, out_of_bounds, uninitialised, null_pointer, division_by_zero,
  wrong_member, trap_value,
}
use reflect_c.Memory.{Memory, CharPtr, add_ptr, bytes_at, malloc}

-- `data` is the field `source`.
pub record Reader : Type 0 where
  pub source : CharPtr
  pub offset : ℕ
  pub copy : Bool

-- A load of `n` bytes as one number.
unfoldable pub load : ℕ → List ℕ → Run ℕ
load zero bs = ok 0
load (suc n) [] = fault out_of_bounds
load (suc n) (b ∷ bs) = do rest ← load n bs; ok (b + 256 * rest)

-- `reader->offset += n`
abbrev pub advance : Reader → ℕ → Reader
advance r n = record r { offset = (r.offset + n) % 2 ^ 64 }

-- What lies from the cursor to the end of the buffer.
abbrev pub remaining : Memory → Reader → List ℕ
remaining mem r = bytes_at mem (add_ptr r.source r.offset)

unfoldable pub read_byte : Memory → Reader → Run (ℕ × Reader)
read_byte mem r = do b ← load 1 (remaining mem r); ok (b, advance r 1)

unfoldable pub read_size_t : Memory → Reader → Run (ℕ × Reader)
read_size_t mem r = do n ← load 8 (remaining mem r); ok (n, advance r 8)

unfoldable pub read_uint32_t : Memory → Reader → Run (ℕ × Reader)
read_uint32_t mem r = do n ← load 4 (remaining mem r); ok (n, advance r 4)

-- A `bool` object holds 0 or 1.
abbrev pub as_bool : ℕ → Run Bool
as_bool b = if b == 0 then ok false else if b == 1 then ok true else fault trap_value

unfoldable pub read_bool : Memory → Reader → Run (Bool × Reader)
read_bool mem r = do b ← load 1 (remaining mem r); flag ← as_bool b; ok (flag, advance r 1)

-- `while (reader->data[reader->offset] != 0) reader->offset++; reader->offset++`: how far it goes.
unfoldable pub scan_nul : List ℕ → Run ℕ
scan_nul [] = fault out_of_bounds
scan_nul (b ∷ bs) = let rest = scan_nul bs in if b == 0 then ok 1 else do n ← rest; ok (suc n)

-- The copy that `malloc` and `memcpy` make of the string at `start`.
unfoldable pub copy_string : Memory → CharPtr → Run (CharPtr × Memory)
unfolding scan_nul
copy_string mem start = do
  size ← scan_nul (bytes_at mem start)
  ok (malloc mem (take size (bytes_at mem start)))

-- The offset is put back before the return, so the reader is as it was.
unfoldable pub read_c_string : Memory → Reader → ℕ → Run (CharPtr × Reader × Memory)
unfolding copy_string
read_c_string mem r offset =
    let start = add_ptr r.source offset in
    if r.copy
    then (copy_string mem start >>= λ (str, mem'). ok (str, r, mem'))
    else ok (start, r, mem)

unfoldable pub read_string : Memory → Reader → Run (CharPtr × Reader × Memory)
read_string mem r = do (offset, r') ← read_size_t mem r; read_c_string mem r' offset
