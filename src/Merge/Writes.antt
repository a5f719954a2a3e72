-- ===== src/Merge/Writes.antt =====
-- What the steps of the script append, where the numbers fit and there is room.
use reflect_c.Base.{
  ℕ, ◌+◌, ◌-◌, ◌^◌, ◌≤◌, ◌<◌, ◌≡◌, refl, sym, ap, ◌∙◌, subst, true, false, some, List, [], ◌∷◌,
  ◌++◌, append_assoc, append-nil, arith, ltb, ◌==◌, length, length-append,
}
use reflect_c.Format.{Text}
use reflect_c.Reader.Encoding.{little_endian}
use reflect_c.Plugin.Int.{ℤ, pos, negsuc}
use reflect_c.Merge.{
  BinWriter, Step, put, write_uint32, write_int64, write_uint8, write_arch_size, ◌>>◌, Volume,
  write_name,
}

-- On a 64-bit target the step appends these bytes, if there is room.
pub record Writes (step : Step) (bytes : List ℕ) : Type 0 where
  pub writes :
      (w : BinWriter)
      → w.arch ≡ 8
      → length w.written + length bytes ≤ w.capacity
      → step w ≡ some (record w { written = w.written ++ bytes })

put-Writes : (bytes : List ℕ) → Writes (put bytes) bytes
unfolding put
put-Writes bytes = record {
  writes = λ w e room.
      let fits : ltb w.capacity (length w.written + length bytes) ≡ false = ground arith in
      rw (put, fits) refl;
}

-- The 64 bits of an `int64_t`.
abbrev pub bits : ℤ → ℕ
bits (pos n) = n
bits (negsuc n) = 2 ^ 64 - 1 - n

abbrev pub FitsInt64 : ℤ → Type 0
FitsInt64 (pos n) = n < 2 ^ 63
FitsInt64 (negsuc n) = n < 2 ^ 63

pub write_arch_size-Writes :
    (z : ℤ) → FitsInt64 z → Writes (write_arch_size z) (little_endian 8 (bits z))
unfolding write_int64
write_arch_size-Writes (pos n) fits = record {
  writes = λ w e room.
      let small : ltb n (2 ^ 63) ≡ true = ground arith in
      let is_64 : (w.arch == 8) ≡ true = ground arith in
      rw (is_64, small) ((put-Writes (little_endian 8 n)).writes w e room);
}
write_arch_size-Writes (negsuc n) fits = record {
  writes = λ w e room.
      let small : ltb n (2 ^ 63) ≡ true = ground arith in
      let is_64 : (w.arch == 8) ≡ true = ground arith in
      rw (is_64, small) ((put-Writes (little_endian 8 (2 ^ 64 - 1 - n))).writes w e room);
}

pub write_uint32-Writes : (n : ℕ) → n < 2 ^ 32 → Writes (write_uint32 (pos n)) (little_endian 4 n)
unfolding write_uint32
write_uint32-Writes n fits = record {
  writes = λ w e room.
      let small : ltb n (2 ^ 32) ≡ true = ground arith in
      rw small ((put-Writes (little_endian 4 n)).writes w e room);
}

pub write_uint8-Writes : (n : ℕ) → n < 256 → Writes (write_uint8 n) (n ∷ [])
write_uint8-Writes n fits = record {
  writes = λ w e room.
      let small : ltb n 256 ≡ true = ground arith in
      rw small ((put-Writes (n ∷ [])).writes w e room);
}

pub write_name-Writes :
    (types : List _) (volume : Volume) (name : Text) (offset : ℕ)
    → volume name ≡ some offset
    → offset < 2 ^ 63
    → Writes (write_name types volume name) (little_endian 8 offset)
unfolding write_name
write_name-Writes types volume name offset at fits = record {
  writes =
      λ w e room. rw (write_name, at) ((write_arch_size-Writes (pos offset) fits).writes w e room);
}

pub Writes-nil : Writes some []
Writes-nil = record {
  writes = λ w e room. ap (λ bs. some (record w { written = bs })) (sym (append-nil w.written));
}

pub Writes-then :
    {f g : Step} {bs cs : List ℕ} → Writes f bs → Writes g cs → Writes (f >> g) (bs ++ cs)
Writes-then {f} {g} {bs} {cs} h k = record {
  writes = λ w e room.
      let total = length-append bs cs in
      let so_far = length-append w.written bs in
      rw (◌>>◌, h.writes w e (omega arith))
        (k.writes (record w { written = w.written ++ bs }) e (omega (arith, so_far, total))
          ∙ ap (λ xs. some (record w { written = xs })) (append_assoc w.written bs cs));
}

pub Writes-≡ : {step : Step} {bs cs : List ℕ} → bs ≡ cs → Writes step bs → Writes step cs
Writes-≡ {step} e h = subst (λ b. Writes step b) e h
