-- ===== src/Sample.antt =====
-- examples/sample/sample.c: the file reflection.dat is read whole and loaded in copy mode. The
-- C library's answers are an argument.
pub mod Program
pub mod Objects
pub mod Mains
use reflect_c.Base.{
  ℕ, zero, suc, ◌<◌, ◌≡◌, refl, inl, inr, Bool, true, false, not, List, [], ◌∷◌, ◌++◌, arith, ◌==◌,
  if◌then◌else◌, ==_refl, eq-of_==, Bool-cases, length, Run, Returns, ◌>>=◌, ok,
}
use reflect_c.Memory.{malloc}
use reflect_c.Plugin.Int.{ℤ, pos, negsuc}
use reflect_c.Types.{State}
use reflect_c.Format.{Text, TypeDesc}
use reflect_c.Load.{reflect_load_bytes}
use reflect_c.Load.File.{IsImage, file_in, LoadedFile, reflect_load_bytes-LoadedFile}

-- Whether `fopen` opens the file, what `ftell` says of its end, whether `malloc` has room for the
-- buffer, and what `fread` stores there.
pub record Outside : Type 0 where
  pub is_open : Bool
  pub file_size : ℤ
  pub has_room : Bool
  pub read_bytes : List ℕ

-- `file_size <= 0`
abbrev pub is_empty : ℤ → Bool
is_empty (pos zero) = true
is_empty (pos (suc n)) = false
is_empty (negsuc n) = true

-- `bytes_read != file_size`, where the size is positive.
abbrev pub is_short : List ℕ → ℤ → Bool
is_short bytes (pos n) = not (length bytes == n)
is_short bytes (negsuc n) = true

-- The buffer is a block of its own, and stays.
abbrev pub load_buffer : List ℕ → State → Run (Bool × State)
load_buffer bytes st =
    let (buffer, memory) = malloc st.memory bytes in
    reflect_load_bytes buffer true (record st { memory = memory }) >>= λ st'. ok (true, st')

unfoldable pub load_reflection : Outside → State → Run (Bool × State)
load_reflection outside st =
    if not outside.is_open
    then ok (false, st)
    else if is_empty outside.file_size
    then ok (false, st)
    else if not outside.has_room
    then ok (false, st)
    else if is_short outside.read_bytes outside.file_size
    then ok (false, st)
    else load_buffer outside.read_bytes st

-- The file was read whole.
pub record IsRead (outside : Outside) (size : ℕ) : Type 0 where
  pub opened : outside.is_open ≡ true
  pub sized : outside.file_size ≡ pos size
  pub some_bytes : 0 < size
  pub room : outside.has_room ≡ true
  pub whole : length outside.read_bytes ≡ size

is_empty-pos : (n : ℕ) → 0 < n → is_empty (pos n) ≡ false
is_empty-pos zero h = absurd (omega arith)
is_empty-pos (suc n) h = refl

-- In a state that has not loaded yet, where reflection.dat opens, has one byte or more, fits
-- memory and is read whole, and its bytes, as a new block, are a well-formed file,
-- `load_reflection` returns true, and the tables hold what the file says.
pub load_reflection-LoadedFile :
    (outside : Outside) (size : ℕ) (st : State) (place : Text → ℕ) (ds : List TypeDesc)
    → IsRead outside size
    → st.is_init ≡ false
    → IsImage
        (file_in
          (record st { memory = st.memory ++ outside.read_bytes ∷ [] })
          (record { block = length st.memory; offset = 0 })
          place)
        ds
    → Returns (load_reflection outside st) (λ (loaded, st').
      (loaded ≡ true)
      × LoadedFile (record st { memory = st.memory ++ outside.read_bytes ∷ [] }) ds st')
unfolding load_reflection
load_reflection-LoadedFile outside size st place ds h fresh image =
    let (st', run, loaded) =
      reflect_load_bytes-LoadedFile (record { block = length st.memory; offset = 0 }) place ds true
        (record st { memory = st.memory ++ outside.read_bytes ∷ [] }) fresh image in
    (
      (true, st'),
      rw
          (
            load_reflection,
            h.opened,
            h.sized,
            is_empty-pos size h.some_bytes,
            h.room,
            h.whole,
            ==_refl size,
            run,
          )
          refl,
      (refl, loaded),
    )

unread_cases :
    (outside : Outside) (st : State) (z : ℤ)
    → outside.file_size ≡ z
    → outside.is_open ≡ true
    → ((size : ℕ) → ¬ IsRead outside size)
    → load_reflection outside st ≡ ok (false, st)
unfolding load_reflection
unread_cases outside st (negsuc n) e opened unread = rw (load_reflection, opened, e) refl
unread_cases outside st (pos zero) e opened unread = rw (load_reflection, opened, e) refl
unread_cases outside st (pos (suc n)) e opened unread = elim (Bool-cases outside.has_room) [
  | inr full ↦ rw (load_reflection, opened, e, full) refl
  | inl room ↦ elim (Bool-cases (length outside.read_bytes == suc n)) [
    | inr short ↦ rw (load_reflection, opened, e, room, short) refl
    | inl whole ↦ absurd (
        unread (suc n) (record {
          opened = opened;
          sized = e;
          some_bytes = omega arith;
          room = room;
          whole = eq-of_== _ _ whole;
        }))
  ]
]

-- If reflection.dat does not open, is empty, does not fit memory, or is not read whole,
-- `load_reflection` returns false and loads nothing.
pub load_reflection-unread :
    (outside : Outside) (st : State)
    → ((size : ℕ) → ¬ IsRead outside size)
    → load_reflection outside st ≡ ok (false, st)
unfolding load_reflection
load_reflection-unread outside st unread = elim (Bool-cases outside.is_open) [
  | inr closed ↦ rw (load_reflection, closed) refl
  | inl opened ↦ unread_cases outside st outside.file_size refl opened unread
]
