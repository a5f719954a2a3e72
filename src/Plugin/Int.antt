-- ===== src/Plugin/Int.antt =====
-- `int64_t`, as a sign and a native number.
use reflect_c.Base.{ℕ, ◌+◌, List, ◌∷◌, decimal}

pub data ℤ : Type 0 where
  pos : ℕ → ℤ
  negsuc : ℕ → ℤ

-- In base ten, as an output stream writes it.
unfoldable pub signed_decimal : ℤ → List ℕ
unfolding decimal
signed_decimal (pos n) = decimal n
signed_decimal (negsuc n) = b'-' ∷ decimal (n + 1)
