-- ===== src/Plugin/Serializer/Numbers.antt =====
-- Numbers in a .reflection.dat file.
use reflect_c.Base.{
  ℕ, zero, suc, ◌+◌, ◌*◌, ◌/◌, ◌%◌, ◌≤◌, ◌<◌, ◌≡◌, refl, sym, ap, ◌∙◌, subst, inl, inr, Bool, true,
  false, some, [], ◌∷◌, ◌++◌, append_assoc, append-nil, arith, ltb, ◌==◌, if◌then◌else◌, Bool-cases,
  ◌===◌, IsIn, IsIn-append_cases, IsIn-one, codes, decimal_from, decimal, first,
}
use reflect_c.Format.{Text}
use reflect_c.Plugin.Int.{ℤ, pos, negsuc, signed_decimal}
use reflect_c.Plugin.Serializer.Commands.{read_digits, read_number, read_integer, read_flag}

read_digits-digit :
    (acc d : ℕ) (s : Text) → d < 10 → read_digits acc ((48 + d) ∷ s) ≡ read_digits (acc * 10 + d) s
unfolding read_digits
read_digits-digit acc d s h = ground arith

decimal_from-one : (fuel n : ℕ) → ltb n 10 ≡ true → decimal_from (suc fuel) n ≡ (48 + n) ∷ []
decimal_from-one fuel n h = rw (decimal_from, h) refl

decimal_from-more :
    (fuel n : ℕ)
    → ltb n 10 ≡ false
    → decimal_from (suc fuel) n ≡ decimal_from fuel (n / 10) ++ (48 + n % 10) ∷ []
decimal_from-more fuel n h = rw (decimal_from, h) refl

pub read_digits-decimal_from :
    (fuel n : ℕ) (s : Text) → n < fuel → read_digits 0 (decimal_from fuel n ++ s) ≡ read_digits n s
read_digits-decimal_from zero n s h = absurd (omega arith)
read_digits-decimal_from (suc fuel) n s h = elim (Bool-cases (ltb n 10)) [
  | inl one ↦
      rw (decimal_from-one fuel n one)
        (read_digits-digit 0 n s (ground arith) ∙ ap (λ k. read_digits k s) (omega arith))
  | inr more ↦
      rw
        (
          decimal_from-more fuel n more,
          append_assoc (decimal_from fuel (n / 10)) ((48 + n % 10) ∷ []) s,
        )
        (read_digits-decimal_from fuel (n / 10) ((48 + n % 10) ∷ s) (ground arith)
          ∙ read_digits-digit (n / 10) (n % 10) s (omega arith)
          ∙ ap (λ k. read_digits k s) (omega arith))
]

pub decimal_from-digits : (fuel n c : ℕ) → IsIn c (decimal_from fuel n) → 48 ≤ c
decimal_from-digits zero n c h = elim h [ ]
decimal_from-digits (suc fuel) n c h = elim (Bool-cases (ltb n 10)) [
  | inl one ↦ only n (rw (decimal_from-one fuel n one) at h)
  | inr more ↦
      elim (IsIn-append_cases (decimal_from fuel (n / 10)) _
        (rw (decimal_from-more fuel n more) at h)) [
          | inl before ↦ decimal_from-digits fuel (n / 10) c before
          | inr last ↦ only (n % 10) last
        ]
]
  where
    only : (d : ℕ) → IsIn c ((48 + d) ∷ []) → 48 ≤ c
    only d h' = let e = IsIn-one c (48 + d) h' in omega arith

snoc_cons : (s : Text) (c : ℕ) → (b : ℕ) × (t : Text) × (s ++ c ∷ [] ≡ b ∷ t)
snoc_cons [] c = (c, [], refl)
snoc_cons (b ∷ s) c = (b, s ++ c ∷ [], refl)

-- The first digit.
decimal-cons : (n : ℕ) → (c : ℕ) × (t : Text) × (decimal n ≡ c ∷ t) × (48 ≤ c)
unfolding decimal
decimal-cons n = elim (Bool-cases (ltb n 10)) [
  | inl one ↦ (48 + n, [], decimal_from-one n n one, omega arith)
  | inr more ↦
      let (b, t, e) = snoc_cons (decimal_from n (n / 10)) (48 + n % 10) in
      let shape : decimal_from (suc n) n ≡ b ∷ t = decimal_from-more n n more ∙ e in
      (b, t, shape, decimal_from-digits (suc n) n b (subst (λ l. IsIn b l) (sym shape) first))
]

read_digits-decimal : (n : ℕ) → read_digits 0 (decimal n) ≡ some n
unfolding decimal read_digits
read_digits-decimal n =
    ap (λ s. read_digits 0 s) (sym (append-nil (decimal_from (suc n) n)))
    ∙ read_digits-decimal_from (suc n) n [] (omega arith)

pub read_number-decimal : (n : ℕ) → read_number (decimal n) ≡ some n
unfolding read_number ◌===◌
read_number-decimal n =
    let (c, t, e, le) = decimal-cons n in
    let some_digit : (decimal n === []) ≡ false = rw e refl in
    rw (read_number, some_digit) (read_digits-decimal n)

read_integer-cons :
    (c n : ℕ) (s : Text)
    → 48 ≤ c
    → read_number (c ∷ s) ≡ some n
    → read_integer (c ∷ s) ≡ some (pos n)
unfolding read_integer
read_integer-cons c n s le e =
    let digit : (c == 45) ≡ false = ground arith in rw (read_integer, digit, e) refl

read_integer-minus :
    (n : ℕ) (s : Text) → read_number s ≡ some (suc n) → read_integer (45 ∷ s) ≡ some (negsuc n)
unfolding read_integer
read_integer-minus n s e = rw (read_integer, e) refl

pub read_integer-signed_decimal : (i : ℤ) → read_integer (signed_decimal i) ≡ some i
unfolding read_integer signed_decimal
read_integer-signed_decimal (pos n) =
    let (c, t, e, le) = decimal-cons n in
    subst (λ s. read_integer s ≡ some (pos n)) (sym e)
      (read_integer-cons c n t le (subst (λ s. read_number s ≡ some n) e (read_number-decimal n)))
read_integer-signed_decimal (negsuc n) =
    read_integer-minus n (decimal (n + 1)) (read_number-decimal (n + 1) ∙ ap some (omega arith))

pub read_flag-bool_name :
    (b : Bool) → read_flag (if b then codes "true" else codes "false") ≡ some b
unfolding read_flag ◌===◌
read_flag-bool_name true = refl
read_flag-bool_name false = refl
