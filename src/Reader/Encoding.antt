-- ===== src/Reader/Encoding.antt =====
-- Numbers as the little-endian bytes of the file format, and the loads that read them back.
use native.Mathlib.Nat.{pow-suc}
use reflect_c.Base.{
  ℕ, zero, suc, ◌/◌, ◌%◌, ◌^◌, ◌<◌, ◌≡◌, refl, ap, List, [], ◌∷◌, ◌++◌, arith, length, ok,
}
use reflect_c.Reader.{load}

-- The `n` low bytes of `v`, lowest first.
unfoldable pub little_endian : ℕ → ℕ → List ℕ
little_endian zero v = []
little_endian (suc n) v = v % 256 ∷ little_endian n (v / 256)

pub length-little_endian : (n v : ℕ) → length (little_endian n v) ≡ n
unfolding little_endian
length-little_endian zero v = refl
length-little_endian (suc n) v = ap suc (length-little_endian n (v / 256))

shrink : (n v : ℕ) → v < 256 ^ suc n → v / 256 < 256 ^ n
shrink n v h = omega (arith, pow-suc 256 n)

pub load-little_endian :
    (n v : ℕ) (rest : List ℕ) → v < 256 ^ n → load n (little_endian n v ++ rest) ≡ ok v
unfolding load little_endian
load-little_endian zero v rest h = ap ok (omega arith)
load-little_endian (suc n) v rest h =
    rw (load-little_endian n (v / 256) rest (shrink n v h)) (ap ok (omega arith))
