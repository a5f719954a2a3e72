-- ===== src/Load/File.antt =====
-- `reflect_load_bytes` on a whole file.
use reflect_c.Base.{
  ℕ, ◌+◌, ◌*◌, ◌/◌, ◌%◌, ◌^◌, ◌<◌, ◌≡◌, refl, ap, ◌∙◌, Bool, true, false, Option, none, List, [],
  ◌++◌, arith, length, get_or, drop, replicate, length-replicate, get_or-replicate, Returns, ok,
}
use reflect_c.Memory.{CharPtr, add_ptr, bytes_at}
use reflect_c.Memory.Strings.{Extends, Extends-refl}
use reflect_c.Reader.{Reader, advance}
use reflect_c.Reader.Encoding.{little_endian}
use reflect_c.Hashtable.{hashtable_create}
use reflect_c.Hashtable.View.{hashtable_create-IsValid, view-hashtable_create}
use reflect_c.Format.{Text, TypeDesc, encode_types}
use reflect_c.Format.Names.{names_of, types_of}
use reflect_c.Types.{State}
use reflect_c.Types.Models.{Models}
use reflect_c.Load.{load_file, create_tables, start_frame, reflect_load_bytes}
use reflect_c.Load.Cursor.{Source, TypeFits, Cursor, All, size_t-Cursor}
use reflect_c.Load.Table.{Loaded, load_types-Loaded}

abbrev pub no_types : ℕ → Option TypeDesc
no_types i = none

abbrev pub no_names : Text → Option ℕ
no_names q = none

-- The file at `src.start` lists the types `ds`: a header of two sizes, the second of which says
-- where the count of the types stands, and the types behind it.
pub record IsImage (src : Source) (ds : List TypeDesc) : Type 0 where
  pub volume : ℕ
  pub table : ℕ
  pub strings : List ℕ
  pub trailer : List ℕ
  pub header :
      bytes_at src.memory src.start ≡ little_endian 8 volume ++ (little_endian 8 table ++ strings)
  pub body :
      bytes_at src.memory (add_ptr src.start table)
      ≡ little_endian 8 (length ds) ++ encode_types src.place ds trailer
  pub inside : src.start.block < length src.memory
  pub volume_fits : volume < 2 ^ 64
  pub header_fits : length (little_endian 8 volume ++ (little_endian 8 table ++ strings)) < 2 ^ 64
  pub body_fits :
      table + length (little_endian 8 (length ds) ++ encode_types src.place ds trailer) < 2 ^ 64
  pub some_type : 0 < length ds
  pub count_fits : (length ds + 1) * 64 < 2 ^ 64
  pub types : All src (TypeFits src (length ds + 1)) ds

create_tables-Models :
    (n : ℕ) (st : State)
    → 0 < n
    → (n + 1) * 64 < 2 ^ 64
    → Returns (create_tables n st) (λ (_, st').
      Models st' no_types no_names (n + 1) × (st'.memory ≡ st.memory) × (st'.is_init ≡ st.is_init))
unfolding create_tables
create_tables-Models n st pos fits =
    let room : 64 * ((n + 1) % 2 ^ 64) % 2 ^ 64 / 64 ≡ n + 1 = omega arith in
    let twice : n * 2 % 2 ^ 64 ≡ n * 2 = omega arith in
    (
      (
        tt,
        record st {
          type_table = replicate (n + 1) none;
          type_hash_table = hashtable_create (n * 2);
        },
      ),
      rw (room, twice),
      (
        record {
          width = length-replicate (n + 1) none;
          names_lem = (
            hashtable_create-IsValid st.memory (n * 2) (omega arith) (omega arith),
            λ q. view-hashtable_create st.memory (n * 2) q (omega arith),
          );
          entries = λ i. get_or-replicate (n + 1) i none;
        },
        refl,
        refl,
      ),
    )

-- What a load leaves: tables that say what the file says, and memory that has only grown.
abbrev pub LoadedFile : State → List TypeDesc → State → Type 0
LoadedFile st ds st' =
    Models st' (types_of ds no_types) (names_of ds no_names) (length ds + 1)
    × Extends st.memory st'.memory
    × (st'.is_init ≡ true)

-- The file that stands at `start` in the memory of a state.
abbrev pub file_in : State → CharPtr → (Text → ℕ) → Source
file_in st start place = record { memory = st.memory; start = start; place = place }

module _ (start : CharPtr) (place : Text → ℕ) (ds : List TypeDesc) (copy : Bool) where
  start-Cursor :
      (st : State) (im : IsImage (file_in st start place) ds)
      → Cursor
          (file_in st start place)
          (record { source = start; offset = 0; copy = copy })
          st.memory
          (little_endian 8 im.volume ++ (little_endian 8 im.table ++ im.strings))
  start-Cursor st im =
      let e : start.offset + 0 ≡ start.offset = omega arith in
      record {
        at = record {
          rest = ap (λ k. drop k (get_or st.memory start.block [])) e ∙ im.header;
          fits = omega (arith, im.header_fits);
          inside = im.inside;
        };
        source = refl;
        extends = Extends-refl st.memory;
      }

  load_file-Loaded :
      (st : State) (im : IsImage (file_in st start place) ds)
      → Returns (load_file (start_frame start copy st)) (
          Loaded
            (file_in st start place)
            (record st { is_init = true })
            (types_of ds no_types)
            (names_of ds no_names)
            (length ds + 1)
            im.trailer)
  unfolding load_file
  load_file-Loaded st im =
      let src = file_in st start place in
      let st₀ : State = record st { is_init = true } in
      let (run₁, c₁) = size_t-Cursor src st₀ _ im.volume im.volume_fits (start-Cursor st im) in
      let (run₂, c₂) = size_t-Cursor src st₀ _ im.table (omega (arith, im.body_fits)) c₁ in
      let r₃ : Reader = record { source = start; offset = im.table; copy = copy } in
      let c₃ : Cursor src r₃ st.memory
          (little_endian 8 (length ds) ++ encode_types place ds im.trailer) =
        record {
          at = record { rest = im.body; fits = im.body_fits; inside = im.inside };
          source = refl;
          extends = Extends-refl st.memory;
        } in
      let (run₄, c₄) =
        size_t-Cursor src st₀ (encode_types place ds im.trailer) (length ds)
          (omega (arith, im.count_fits)) c₃ in
      let ((_, st₅), run₅, (m, same, kept)) =
        create_tables-Models (length ds) st₀ im.some_type im.count_fits in
      let (out, run₆, (r₆, st₆, is₆, c₆, m₆, kept₆)) =
        load_types-Loaded src (length ds + 1) {r = advance r₃ 8} st₅ no_types no_names ds im.trailer
          (omega (arith, im.count_fits)) im.types m (rw same c₄) in
      (out, rw (run₁, run₂, run₄, run₅) run₆, (r₆, st₆, is₆, c₆, m₆, kept₆ ∙ kept))

  -- In a state that has not loaded yet and where a well-formed file lies in memory,
  -- `reflect_load_bytes` returns in either mode: the type table holds under each id the type
  -- that the file last lists under it, with its members, and nothing under any other id; the
  -- hash table leads from each name and alias to the id that is last listed under it, and from
  -- no other string; memory keeps its blocks and may only gain new ones; and the state is
  -- marked as loaded.
  pub reflect_load_bytes-LoadedFile :
      (st : State)
      → st.is_init ≡ false
      → IsImage (file_in st start place) ds
      → Returns (reflect_load_bytes start copy st) (LoadedFile st ds)
  unfolding reflect_load_bytes
  reflect_load_bytes-LoadedFile st first im =
      let (out, run, (r, st', is, c, m, kept)) = load_file-Loaded st im in
      (st', simp first (rw (run, is)), (m, c.extends, kept))

-- Once loaded, the tables are not touched by another call, whatever it is given.
pub reflect_load_bytes-again :
    (start : CharPtr) (copy : Bool) (st : State)
    → st.is_init ≡ true
    → reflect_load_bytes start copy st ≡ ok st
unfolding reflect_load_bytes
reflect_load_bytes-again start copy st loaded = simp loaded
