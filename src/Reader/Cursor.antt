-- ===== src/Reader/Cursor.antt =====
-- The reads of numbers: each takes its encoding off the front, and stops before what follows.
use reflect_c.Base.{
  ℕ, ◌+◌, ◌*◌, ◌%◌, ◌^◌, ◌<◌, ◌≡◌, refl, sym, ap, ◌∙◌, Bool, true, false, List, [], ◌∷◌, ◌++◌,
  arith, if◌then◌else◌, length, get_or, drop, length-append, drop-drop, drop-append, ok,
}
use reflect_c.Memory.{Memory}
use reflect_c.Memory.Strings.{Extends}
use reflect_c.Reader.{
  Reader, advance, remaining, load, read_byte, read_size_t, read_uint32_t, read_bool,
}
use reflect_c.Reader.Encoding.{little_endian, load-little_endian, length-little_endian}

-- The cursor stands before `bs`, in a buffer whose end a `size_t` can reach.
pub record At (mem : Memory) (r : Reader) (bs : List ℕ) : Type 0 where
  pub rest : remaining mem r ≡ bs
  pub fits : r.offset + length bs < 2 ^ 64
  pub inside : r.source.block < length mem

abbrev pub bool_byte : Bool → ℕ
bool_byte b = if b then 1 else 0

pub At-Extends :
    {mem mem' : Memory} {r : Reader} {bs : List ℕ} → Extends mem mem' → At mem r bs → At mem' r bs
At-Extends {r} e a = record {
  rest = rw (e.same r.source.block a.inside) a.rest;
  fits = a.fits;
  inside = omega (arith, e.grows, a.inside);
}

-- The cursor goes on by the bytes that it has passed.
pub At-advance :
    {mem : Memory} {r : Reader} (n : ℕ) (bs rest : List ℕ)
    → length bs ≡ n
    → At mem r (bs ++ rest)
    → At mem (advance r n) rest
At-advance {mem} {r} n bs rest e a = record {
  rest = shift ∙ behind;
  fits = omega (arith, a.fits, length-append bs rest);
  inside = a.inside;
}
  where
    block : List ℕ
    block = get_or mem r.source.block []

    total : length (bs ++ rest) ≡ length bs + length rest
    total = length-append bs rest

    place : r.source.offset + (r.offset + n) % 2 ^ 64 ≡ r.source.offset + r.offset + n
    place = omega (arith, a.fits, total)

    shift : remaining mem (advance r n) ≡ drop n (remaining mem r)
    shift = ap (λ k. drop k block) place ∙ sym (drop-drop (r.source.offset + r.offset) n block)

    behind : drop n (remaining mem r) ≡ rest
    behind = rw (a.rest, ← e) (drop-append bs rest)

add_zero_times : (b : ℕ) → b + 256 * 0 ≡ b
add_zero_times b = omega arith

-- One number of `n` bytes.
load-At :
    {mem : Memory} {r : Reader} (n v : ℕ) (rest : List ℕ)
    → v < 256 ^ n
    → At mem r (little_endian n v ++ rest)
    → (load n (remaining mem r) ≡ ok v) × At mem (advance r n) rest
load-At n v rest h a = (
  rw a.rest (load-little_endian n v rest h),
  At-advance n (little_endian n v) rest (length-little_endian n v) a,
)

module _ {mem : Memory} {r : Reader} (rest : List ℕ) where
  pub read_byte-At :
      (b : ℕ)
      → b < 256
      → At mem r (b ∷ rest)
      → (read_byte mem r ≡ ok (b, advance r 1)) × At mem (advance r 1) rest
  unfolding read_byte load
  read_byte-At b h a = (
    rw a.rest (ap (λ c. ok (c, advance r 1)) (add_zero_times b)),
    At-advance 1 (b ∷ []) rest refl a,
  )

  -- With the cursor before the eight bytes of a number below 2^64, lowest byte first,
  -- `read_size_t` returns the number, and the cursor stands behind the bytes.
  pub read_size_t-At :
      (v : ℕ)
      → v < 2 ^ 64
      → At mem r (little_endian 8 v ++ rest)
      → (read_size_t mem r ≡ ok (v, advance r 8)) × At mem (advance r 8) rest
  unfolding read_size_t
  read_size_t-At v h a = let (run, a') = load-At 8 v rest h a in (rw run, a')

  -- With the cursor before the four bytes of a number below 2^32, lowest byte first,
  -- `read_uint32_t` returns the number, and the cursor stands behind the bytes.
  pub read_uint32_t-At :
      (v : ℕ)
      → v < 2 ^ 32
      → At mem r (little_endian 4 v ++ rest)
      → (read_uint32_t mem r ≡ ok (v, advance r 4)) × At mem (advance r 4) rest
  unfolding read_uint32_t
  read_uint32_t-At v h a = let (run, a') = load-At 4 v rest h a in (rw run, a')

  pub read_bool-At :
      (b : Bool)
      → At mem r (bool_byte b ∷ rest)
      → (read_bool mem r ≡ ok (b, advance r 1)) × At mem (advance r 1) rest
  unfolding read_bool load
  read_bool-At true a = (rw a.rest, At-advance 1 (1 ∷ []) rest refl a)
  read_bool-At false a = (rw a.rest, At-advance 1 (0 ∷ []) rest refl a)
