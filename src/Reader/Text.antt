-- ===== src/Reader/Text.antt =====
-- The reads of strings, in place and copied.
use reflect_c.Base.{
  ℕ, suc, ◌^◌, ◌<◌, ◌≡◌, refl, inl, inr, some, List, [], ◌∷◌, ◌++◌, arith, Bool-cases, Option-cases,
  length, take, get_or-append_self, Returns, ok,
}
use reflect_c.Memory.{Memory, CharPtr, add_ptr, bytes_at}
use reflect_c.Memory.Strings.{c_string, text, Extends, Extends-refl, Extends-append}
use reflect_c.Reader.{Reader, advance, scan_nul, read_c_string, copy_string, read_string}
use reflect_c.Reader.Encoding.{little_endian}
use reflect_c.Reader.Cursor.{At, At-Extends, read_size_t-At}

-- The scan stops behind the first NUL, and the bytes up to there are the same string.
scan_nul-c_string :
    (bs s : List ℕ)
    → c_string bs ≡ some s
    → (scan_nul bs ≡ ok (suc (length s))) × (c_string (take (suc (length s)) bs) ≡ some s)
unfolding scan_nul c_string
scan_nul-c_string [] s h = (cc, cc)
scan_nul-c_string (b ∷ bs) s h = elim (Option-cases (c_string bs)) [
  | inl e ↦ (ground arith, ground arith)
  | inr (t, e) ↦ let (run, same) = scan_nul-c_string bs t e in (ground arith, ground arith)
]

-- A string that was read: it has the text, and all that there was in memory stays.
pub record Reads (mem : Memory) (r : Reader) (s rest : List ℕ) (out : CharPtr × Reader × Memory)
    : Type 0 where
  pub named : text out.2 out.0 ≡ some s
  pub extends : Extends mem out.2
  pub at : At out.2 out.1 rest
  pub source : out.1.source ≡ r.source
  pub mode : out.1.copy ≡ r.copy

read_c_string-Reads :
    (mem : Memory) (r : Reader) (offset : ℕ) (s rest : List ℕ)
    → At mem r rest
    → text mem (add_ptr r.source offset) ≡ some s
    → Returns (read_c_string mem r offset) (Reads mem r s rest)
unfolding read_c_string copy_string
read_c_string-Reads mem r offset s rest a h =
    let bs = bytes_at mem (add_ptr r.source offset) in
    let copied = take (suc (length s)) bs in
    elim (Bool-cases r.copy) [
      | inr alias ↦ (
        (add_ptr r.source offset, r, mem),
        simp alias,
        record { named = h; extends = Extends-refl mem; at = a; source = refl; mode = refl },
      )
      | inl owned ↦
          let (run, same) = scan_nul-c_string bs s h in
          (
            (record { block = length mem; offset = 0 }, r, mem ++ copied ∷ []),
            simp (owned, run),
            record {
              named = rw get_or-append_self same;
              extends = Extends-append mem copied;
              at = At-Extends (Extends-append mem copied) a;
              source = refl;
              mode = refl;
            },
          )
    ]

-- With the cursor before the eight bytes of an offset below 2^64 at which the buffer has a
-- string, `read_string` returns a pointer to a string of that text, in either mode; the cursor
-- stands behind the eight bytes, the buffer and the mode are the same, and memory keeps its
-- blocks and may only gain new ones.
pub read_string-Reads :
    (mem : Memory) (r : Reader) (offset : ℕ) (s rest : List ℕ)
    → offset < 2 ^ 64
    → At mem r (little_endian 8 offset ++ rest)
    → text mem (add_ptr r.source offset) ≡ some s
    → Returns (read_string mem r) (Reads mem r s rest)
unfolding read_string
read_string-Reads mem r offset s rest small a h =
    let (run, a') = read_size_t-At rest offset small a in
    let (out, run', t) = read_c_string-Reads mem (advance r 8) offset s rest a' h in
    (
      out,
      rw run run',
      record { named = t.named; extends = t.extends; at = t.at; source = t.source; mode = t.mode },
    )
