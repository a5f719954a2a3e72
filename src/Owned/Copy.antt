-- ===== src/Owned/Copy.antt =====
-- `reflect_load_bytes` in copy mode, and the buffer that is freed after it.
use reflect_c.Base.{
  ℕ, zero, suc, ◌+◌, ◌≡◌, refl, sym, ap, ◌∙◌, subst, ◌≢◌, true, some, List, [], ◌∷◌, arith, length,
  get_or, set, Returns, After-ok, ok,
}
use reflect_c.Memory.{Memory, CharPtr}
use reflect_c.Memory.Strings.{text, text-Extends}
use reflect_c.Format.{Text, TypeDesc}
use reflect_c.Format.Names.{names_of, types_of}
use reflect_c.Types.{State, initial}
use reflect_c.Types.Models.{Models}
use reflect_c.Load.{reflect_load_bytes}
use reflect_c.Load.File.{no_types, no_names, IsImage, file_in, reflect_load_bytes-LoadedFile}
use reflect_c.Query.{reflect_type_info_from_name}
use reflect_c.Query.Names.{reflect_type_info_from_name-names}
use reflect_c.Query.Loaded.{id_small}
use reflect_c.Owned.Steps.{reflect_load_bytes-StateOwned}
use reflect_c.Owned.Release.{Models-agree}

-- `free(buffer)`: no byte of the block may be read any more.
abbrev pub release : ℕ → State → State
release block st = record st { memory = set st.memory block [] }

set-other : (mem : Memory) (i j : ℕ) → i ≢ j → get_or (set mem i []) j [] ≡ get_or mem j []
set-other [] i j other = refl
set-other (x ∷ mem) zero zero other = absurd (other refl)
set-other (x ∷ mem) zero (suc j) other = refl
set-other (x ∷ mem) (suc i) zero other = refl
set-other (x ∷ mem) (suc i) (suc j) other = set-other mem i j (λ e. other (ap suc e))

-- At the start of the program, with a well-formed file in memory, `reflect_load_bytes` in copy
-- mode returns, and when the block of the buffer is then freed, the tables are still right:
-- under each id the type that the file last lists under it, with its members and the texts of
-- all its names, and for each name and alias the id that is last listed under it.
pub reflect_load_bytes-release :
    (mem : Memory) (start : CharPtr) (place : Text → ℕ) (ds : List TypeDesc)
    → IsImage (file_in (initial mem) start place) ds
    → Returns (reflect_load_bytes start true (initial mem)) (λ st'.
      Models
        (release start.block st')
        (types_of ds no_types)
        (names_of ds no_names)
        (length ds + 1))
reflect_load_bytes-release mem start place ds im =
    let (st', run, (m, x, kept)) =
      reflect_load_bytes-LoadedFile start place ds true (initial mem) refl im in
    let owned = After-ok run (reflect_load_bytes-StateOwned mem start) in
    let inside = im.inside in
    (
      st',
      run,
      Models-agree (length mem) (set st'.memory start.block [])
          (λ b behind. set-other st'.memory start.block b (omega arith)) owned m,
    )

-- At the start of the program, with a well-formed file in memory, `reflect_load_bytes` in copy
-- mode returns, and when the block of the buffer is then freed, `reflect_type_info_from_name`
-- still gives, for any string that was in memory before, outside that block, the type that the
-- file last lists under that name or alias, and NULL for any other.
pub release-type_info_from_name :
    (mem : Memory) (start : CharPtr) (place : Text → ℕ) (ds : List TypeDesc) (name : CharPtr)
    (k : Text)
    → IsImage (file_in (initial mem) start place) ds
    → text mem name ≡ some k
    → start.block ≢ name.block
    → Returns (reflect_load_bytes start true (initial mem)) (λ st'.
      reflect_type_info_from_name (release start.block st') name ≡ ok (names_of ds no_names k))
release-type_info_from_name mem start place ds name k im named apart =
    let (st', run, (m, x, kept)) =
      reflect_load_bytes-LoadedFile start place ds true (initial mem) refl im in
    let (st'', run', released) = reflect_load_bytes-release mem start place ds im in
    let there : text (set st'.memory start.block []) name ≡ some k =
      rw (set-other st'.memory start.block name.block apart) (text-Extends x name named) in
    let ends : ok st'' ≡ ok st' = sym run' ∙ run in
    let same : st'' ≡ st' = cc in
    (
      st',
      run,
      reflect_type_info_from_name-names name k
          (subst
            (λ st.
              Models (release start.block st) (types_of ds no_types) (names_of ds no_names)
                (length ds + 1))
            same released)
          (id_small start place ds true (initial mem) refl im k) there,
    )
