-- ===== src/Merge/File.antt =====
-- The file that `write_reflection_dat` writes on a 64-bit target, and a load of it.
use reflect_c.Base.{
  ℕ, ◌+◌, ◌*◌, ◌^◌, ◌≤◌, ◌<◌, ◌≡◌, refl, ap, ◌∙◌, Bool, false, some, List, [], ◌∷◌, ◌++◌,
  append_assoc, arith, length, drop, length-append, drop-append, get_or-append_self, IsIn, Returns,
}
use reflect_c.Memory.{bytes_at, add_ptr}
use reflect_c.Reader.Encoding.{little_endian, length-little_endian}
use reflect_c.Format.{Text, TypeDesc, encode_types}
use reflect_c.Types.{State}
use reflect_c.Load.{reflect_load_bytes}
use reflect_c.Load.Cursor as Cursor
use reflect_c.Load.Cursor.{Source, All}
use reflect_c.Load.File.{IsImage, file_in, LoadedFile, reflect_load_bytes-LoadedFile}
use reflect_c.Plugin.Int.{pos}
use reflect_c.Merge.{
  bin_writer, TypeData, TypeNameMap, Volume, number, pop_empty, write_table, write_reflection_dat,
}
use reflect_c.Merge.Writes.{Writes-then, write_arch_size-Writes}
use reflect_c.Merge.Fields.{name_place}
use reflect_c.Merge.Says.{IsDictionary, Says}
use reflect_c.Merge.Listed.{type_descs-Says}
use reflect_c.Merge.Table.{TypeFits, type_descs, length-type_descs, write_types-Writes}

-- The bytes of a file: where the strings are and where the table is, both, and the types.
abbrev pub file_bytes : (place : Text → ℕ) → List ℕ → List TypeDesc → List ℕ
file_bytes place strings ds =
    little_endian 8 16
    ++ (little_endian 8 (16 + length strings)
        ++ (strings ++ (little_endian 8 (length ds) ++ encode_types place ds [])))

module _ (type_name_map : TypeNameMap) (volume : Volume) (strings : List ℕ) where
  -- The types in the file.
  abbrev pub written_types : TypeNameMap
  written_types = pop_empty (number 1 type_name_map)

  abbrev pub descs : List TypeDesc
  descs = type_descs written_types volume written_types

  abbrev pub place : Text → ℕ
  place = name_place written_types volume

  -- Each number fits its type, and there is room.
  pub record IsWritable : Type 0 where
    pub types : (t : TypeData) → IsIn t written_types → TypeFits written_types volume t
    pub count_lt : length written_types < 2 ^ 57
    pub strings_lt : 16 + length strings < 2 ^ 63
    pub room : 8 + length (encode_types place descs []) ≤ 10000000

  -- x
  pub write_reflection_dat-file_bytes :
      IsWritable
      → write_reflection_dat 8 type_name_map volume strings ≡ some (file_bytes place strings descs)
  unfolding write_reflection_dat write_table
  write_reflection_dat-file_bytes h =
      let coded = length-little_endian 8 16 in
      let coded' = length-little_endian 8 (16 + length strings) in
      let coded'' = length-little_endian 8 (length written_types) in
      let total = length-append (little_endian 8 16) (little_endian 8 (16 + length strings)) in
      let total' =
        length-append (little_endian 8 (length written_types)) (encode_types place descs []) in
      let room = h.room in
      let head =
        (Writes-then (write_arch_size-Writes (pos 16) (omega arith))
            (write_arch_size-Writes (pos (16 + length strings)) h.strings_lt)).writes
          (bin_writer 16 8) refl (omega (arith, coded, coded', total)) in
      let table =
        (Writes-then
            (write_arch_size-Writes (pos (length written_types)) (omega (arith, h.count_lt)))
            (write_types-Writes written_types volume written_types h.types)).writes
          (bin_writer 10000000 8) refl (omega (arith, coded'', total')) in
      rw (write_reflection_dat, head, write_table, table)
        (ap some
          (rw (length-type_descs written_types volume written_types) (simp append_assoc refl)))

  bytes_at-file :
      (mem : List (List ℕ)) (bs : List ℕ)
      → bytes_at (mem ++ bs ∷ []) (record { block = length mem; offset = 0 }) ≡ bs
  bytes_at-file mem bs = get_or-append_self mem bs [] []

  bytes_at-table :
      (mem : List (List ℕ)) (xs ys : List ℕ) (k : ℕ)
      → length xs ≡ k
      → bytes_at (mem ++ (xs ++ ys) ∷ []) (add_ptr (record { block = length mem; offset = 0 }) k)
        ≡ ys
  bytes_at-table mem xs ys k e =
      ap (λ l. drop (0 + k) l) (get_or-append_self mem (xs ++ ys) [] [])
      ∙ ap (λ n. drop n (xs ++ ys)) (omega (arith, e))
      ∙ drop-append xs ys

  file_bytes-split :
      file_bytes place strings descs
      ≡ (little_endian 8 16 ++ (little_endian 8 (16 + length strings) ++ strings))
        ++ (little_endian 8 (length descs) ++ encode_types place descs [])
  file_bytes-split = simp append_assoc refl

  file_bytes-IsImage :
      (st : State) (mem : List (List ℕ))
      → st.memory ≡ mem ++ file_bytes place strings descs ∷ []
      → 0 < length written_types
      → (length written_types + 1) * 64 < 2 ^ 64
      → 64 + length strings + length (encode_types place descs []) < 2 ^ 64
      → All
          (file_in st (record { block = length mem; offset = 0 }) place)
          (Cursor.TypeFits
            (file_in st (record { block = length mem; offset = 0 }) place)
            (length descs + 1))
          descs
      → IsImage (file_in st (record { block = length mem; offset = 0 }) place) descs
  file_bytes-IsImage st mem at some_type few small types = record {
    volume = 16;
    table = 16 + length strings;
    strings = strings ++ (little_endian 8 (length descs) ++ encode_types place descs []);
    trailer = [];
    header =
        ap (λ m. bytes_at m (record { block = length mem; offset = 0 })) at ∙ bytes_at-file mem _;
    body =
        ap
          (λ m.
            bytes_at m (add_ptr (record { block = length mem; offset = 0 }) (16 + length strings)))
          at
        ∙ ap
            (λ bs.
              bytes_at (mem ++ bs ∷ [])
                (add_ptr (record { block = length mem; offset = 0 }) (16 + length strings)))
            file_bytes-split
        ∙ bytes_at-table mem _ _ (16 + length strings) head_length;
    inside =
        let e = ap (λ m. length m) at in
        let l = length-append mem (file_bytes place strings descs ∷ []) in omega (arith, e, l);
    volume_fits = omega arith;
    header_fits =
        let e = ap (λ l. length l) file_bytes-split in
        let l =
          length-append (little_endian 8 16 ++ (little_endian 8 (16 + length strings) ++ strings))
            (little_endian 8 (length descs) ++ encode_types place descs []) in
        omega (arith, e, l, head_length, table_length);
    body_fits = omega (arith, table_length);
    some_type = omega (arith, count);
    count_fits = omega (arith, count);
    types = types;
  }
    where
      head_length :
          length (little_endian 8 16 ++ (little_endian 8 (16 + length strings) ++ strings))
          ≡ 16 + length strings
      head_length =
          let a = length-little_endian 8 16 in
          let b = length-little_endian 8 (16 + length strings) in
          let c = length-append (little_endian 8 (16 + length strings)) strings in
          let d =
            length-append (little_endian 8 16) (little_endian 8 (16 + length strings) ++ strings) in
          omega (arith, a, b, c, d)

      table_length :
          length (little_endian 8 (length descs) ++ encode_types place descs [])
          ≡ 8 + length (encode_types place descs [])
      table_length =
          let a = length-little_endian 8 (length descs) in
          let b = length-append (little_endian 8 (length descs)) (encode_types place descs []) in
          omega (arith, a, b)

      count : length descs ≡ length written_types
      count = length-type_descs written_types volume written_types

  -- In a dictionary of types with different keys, let the numbers fit 64 bits signed, the
  -- pointer depths 32 bits unsigned and all of it the writer's room, let the volume have each
  -- name, and let there be a type. Then `write_reflection_dat` for a 64-bit target writes the
  -- file of the types that the dictionary says: its entries in their order but the one without
  -- a name, each with its place as id; of each the fields but those whose type is a record that
  -- has no entry, with the id of the field's type, or 0 where that has no entry; the
  -- enumerators and the aliases; and 0, no flag or no name for a key that is missing. Where
  -- these bytes are the last block of memory, the volume says where in the file each name
  -- stands, and each id is at most the number of types, `reflect_load_bytes` returns in either
  -- mode in a state that has not loaded yet, and the tables hold what the dictionary says.
  pub write_reflection_dat-load :
      (st : State) (mem : List (List ℕ)) (copy : Bool)
      → IsDictionary type_name_map
      → IsWritable
      → 0 < length written_types
      → length strings < 2 ^ 62
      → st.memory ≡ mem ++ file_bytes place strings descs ∷ []
      → st.is_init ≡ false
      → All
          (file_in st (record { block = length mem; offset = 0 }) place)
          (Cursor.TypeFits
            (file_in st (record { block = length mem; offset = 0 }) place)
            (length descs + 1))
          descs
      → Says type_name_map descs
        × (write_reflection_dat 8 type_name_map volume strings
            ≡ some (file_bytes place strings descs))
        × Returns
            (reflect_load_bytes (record { block = length mem; offset = 0 }) copy st)
            (LoadedFile st descs)
  write_reflection_dat-load st mem copy keys h some_type strings_lt at fresh types =
      let room = h.room in
      (
        type_descs-Says type_name_map volume keys,
        write_reflection_dat-file_bytes h,
        reflect_load_bytes-LoadedFile (record { block = length mem; offset = 0 }) place descs copy
            st fresh
            (file_bytes-IsImage st mem at some_type (omega (arith, h.count_lt)) (omega arith)
              types),
      )
