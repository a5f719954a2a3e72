-- ===== src/Sample/Mains.antt =====
-- The two main programs from the file to what they print.
use reflect_c.Base.{
  ℕ, ◌<◌, ◌≡◌, refl, ap, ◌∙◌, true, false, some, List, [], ◌∷◌, ◌++◌, length, codes, ok,
}
use reflect_c.Memory.{Memory, CharPtr}
use reflect_c.Memory.Strings.{text, text-Extends, Extends, Extends-append}
use reflect_c.Format.{Text, TypeDesc}
use reflect_c.Format.Names.{names_of, types_of}
use reflect_c.Hashtable.{not_found}
use reflect_c.Types.{State}
use reflect_c.Load.{reflect_load}
use reflect_c.Load.File.{
  no_types, no_names, IsImage, file_in, LoadedFile, reflect_load_bytes-LoadedFile,
}
use reflect_c.Query.Loaded.{id_small}
use reflect_c.Query.Names.{reflect_type_info_from_name-names}
use reflect_c.Object.{Heap, Alloc, Free}
use reflect_c.Sample.{Outside, IsRead, load_reflection-LoadedFile}
use reflect_c.Sample.Program.{Room, Cells, Literals, both_parts, sample_main, inline_main}
use reflect_c.Sample.Objects.{KeepsRoom, Gives, IsTestStruct, int_part-prints, struct_part-prints}

-- The file lists `int` and the structure last under their names, and `malloc` has room for both at
-- any time.
pub record IsDemo (ds : List TypeDesc) (malloc : Alloc) (room : Room) : Type 0 where
  pub int_id : ℕ
  pub int_desc : TypeDesc
  pub struct_id : ℕ
  pub struct_desc : TypeDesc
  pub int_named : names_of ds no_names (codes "int") ≡ some int_id
  pub int_listed : types_of ds no_types int_id ≡ some int_desc
  pub int_size : int_desc.size ≡ 4
  pub struct_named : names_of ds no_names (codes "struct_test_t") ≡ some struct_id
  pub struct_listed : types_of ds no_types struct_id ≡ some struct_desc
  pub struct_lem : IsTestStruct struct_desc
  pub int_room : (heap : Heap) → Gives malloc room int_desc heap
  pub struct_room : (heap : Heap) → Gives malloc room struct_desc heap
  pub keeps : KeepsRoom room

-- The literals are strings in memory.
pub record InMemory (mem : Memory) (lit : Literals) : Type 0 where
  pub int_text : text mem lit.int_name ≡ some (codes "int")
  pub struct_text : text mem lit.struct_name ≡ some (codes "struct_test_t")
  pub a_text : text mem lit.a_name ≡ some (codes "a")
  pub b_text : text mem lit.b_name ≡ some (codes "b")
  pub d_text : text mem lit.d_name ≡ some (codes "d")

InMemory-Extends :
    {mem mem' : Memory} {lit : Literals} → Extends mem mem' → InMemory mem lit → InMemory mem' lit
InMemory-Extends {lit} e h = record {
  int_text = text-Extends e lit.int_name h.int_text;
  struct_text = text-Extends e lit.struct_name h.struct_text;
  a_text = text-Extends e lit.a_name h.a_text;
  b_text = text-Extends e lit.b_name h.b_text;
  d_text = text-Extends e lit.d_name h.d_text;
}

abbrev pub demo_output : List ℕ
demo_output = 1337 ∷ 1 ∷ 1 ∷ 2 ∷ 3 ∷ []

module _ (ds : List TypeDesc) (malloc : Alloc) (free : Free) (room : Room) (lit : Literals)
    (demo : IsDemo ds malloc room) where
  both_parts-prints :
      (st st' : State) (heap : Heap) (cells : Cells)
      → ((k : Text) (i : ℕ) → names_of ds no_names k ≡ some i → i < not_found)
      → LoadedFile st ds st'
      → InMemory st.memory lit
      → both_parts malloc free room lit st' heap cells ≡ ok demo_output
  unfolding both_parts
  both_parts-prints st st' heap cells small (m, grown, done) literals =
      let here = InMemory-Extends grown literals in
      let ask_int =
        reflect_type_info_from_name-names lit.int_name (codes "int") m (small (codes "int"))
          here.int_text
        ∙ ap ok demo.int_named in
      let ask_struct =
        reflect_type_info_from_name-names lit.struct_name (codes "struct_test_t") m
          (small (codes "struct_test_t")) here.struct_text
        ∙ ap ok demo.struct_named in
      let (heap₁, cells₁, run) =
        int_part-prints m malloc free room lit demo.keeps demo.int_id demo.int_desc heap cells
          demo.int_listed demo.int_size ask_int (demo.int_room heap) in
      let (heap₂, cells₂, run') =
        struct_part-prints m malloc free room lit demo.keeps demo.struct_id demo.struct_desc
          demo.struct_lem heap₁ cells₁ demo.struct_listed ask_struct here.a_text here.b_text
          here.d_text (demo.struct_room heap₁) in
      rw (both_parts, run, run') refl

  -- Let reflection.dat be read whole, in a program that has not loaded yet, and be a well-
  -- formed file as a new block; let it list `int` with 4 bytes, and a structure of 12 bytes
  -- under `struct_test_t` with `a`, `b` and `d` at 0, 4 and 8, each last under its name; let
  -- the string literals be in memory, let `malloc` give a block with room for an object of both
  -- types at any time, and let writing a header change the extent of no block. Then `main` of
  -- sample.c returns 0 and prints 1337, the field `a` through its pointer, and the three
  -- fields: 1, and 1, 2 and 3; no `int` is stored or read outside of its object's block, or
  -- after the release.
  pub sample_main-prints :
      (outside : Outside) (size : ℕ) (st : State) (place : Text → ℕ) (heap : Heap) (cells : Cells)
      → IsRead outside size
      → st.is_init ≡ false
      → IsImage
          (file_in
            (record st { memory = st.memory ++ outside.read_bytes ∷ [] })
            (record { block = length st.memory; offset = 0 })
            place)
          ds
      → InMemory st.memory lit
      → sample_main malloc free room lit outside st heap cells ≡ ok (0, demo_output)
  unfolding sample_main
  sample_main-prints outside size st place heap cells read fresh image literals =
      let st₁ : State = record st { memory = st.memory ++ outside.read_bytes ∷ [] } in
      let ((loaded, st'), run, (is_loaded, file)) =
        load_reflection-LoadedFile outside size st place ds read fresh image in
      let small =
        id_small (record { block = length st.memory; offset = 0 }) place ds true st₁ fresh image in
      let prints =
        both_parts-prints st₁ st' heap cells small file
          (InMemory-Extends (Extends-append st.memory outside.read_bytes) literals) in
      rw (sample_main, run, is_loaded, prints) refl

  -- Let the linked data be a well-formed file in the memory of a program that has not loaded
  -- yet; let it list `int` with 4 bytes, and a structure of 12 bytes under `struct_test_t` with
  -- `a`, `b` and `d` at 0, 4 and 8, each last under its name; let the string literals be in
  -- memory, let `malloc` give a block with room for an object of both types at any time, and
  -- let writing a header change the extent of no block. Then `main` of inline.c, with the data
  -- in place, returns 0 and prints 1337, the field `a` through its pointer, and the three
  -- fields: 1, and 1, 2 and 3; no `int` is stored or read outside of its object's block, or
  -- after the release.
  pub inline_main-prints :
      (linked_data : CharPtr) (st : State) (place : Text → ℕ) (heap : Heap) (cells : Cells)
      → st.is_init ≡ false
      → IsImage (file_in st linked_data place) ds
      → InMemory st.memory lit
      → inline_main malloc free room lit linked_data st heap cells ≡ ok (0, demo_output)
  unfolding inline_main reflect_load
  inline_main-prints linked_data st place heap cells fresh image literals =
      let (st', run, file) =
        reflect_load_bytes-LoadedFile linked_data place ds false st fresh image in
      let small = id_small linked_data place ds false st fresh image in
      let prints = both_parts-prints st st' heap cells small file literals in
      rw (inline_main, run, prints) refl
