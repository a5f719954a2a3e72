-- ===== src/Query/Loaded.antt =====
-- A load, and the queries that a program then asks by name.
use reflect_c.Base.{
  ℕ, suc, ◌+◌, ◌≤◌, ◌<◌, ◌≡◌, ◌∙◌, Bool, false, some, List, arith, length, get_elem?, drop, Returns,
  ok,
}
use reflect_c.Memory.{CharPtr}
use reflect_c.Memory.Strings.{text, text-Extends}
use reflect_c.Hashtable.{not_found}
use reflect_c.Format.{Text, FieldDesc, Enumerator, fields, enumerators, composite, TypeDesc}
use reflect_c.Format.Names.{names_of, types_of}
use reflect_c.Types.{TypePtr, State, get_internal_from_type_info}
use reflect_c.Types.Describes.{FieldMatches, Describes}
use reflect_c.Load.{reflect_load_bytes}
use reflect_c.Load.File.{no_types, no_names, IsImage, file_in, reflect_load_bytes-LoadedFile}
use reflect_c.Query.{
  load_field, reflect_type_info_from_name, reflect_get_field_type, reflect_get_enum_value,
}
use reflect_c.Format.Lookup.{IsFreeId, IsFreeName, types_of-get_elem?, names_of-get_elem?}
use reflect_c.Query.Entries.{get_internal-Describes}
use reflect_c.Query.Names.{names_of-lt, reflect_type_info_from_name-names}
use reflect_c.Query.Fields.{member, reflect_get_field_type-load_field}
use reflect_c.Query.Enums.{reflect_get_enum_value-value}

module _ (start : CharPtr) (place : Text → ℕ) (ds : List TypeDesc) (copy : Bool) (st : State)
    (first : st.is_init ≡ false) (im : IsImage (file_in st start place) ds) where
  -- The id of a listed name is no answer "not found".
  pub id_small : (k : Text) (i : ℕ) → names_of ds no_names k ≡ some i → i < not_found
  id_small k i h =
      let inside =
        names_of-lt (file_in st start place) (length ds + 1) ds no_names im.types
          (λ q i h. absurd (cc h)) k i h in
      omega (arith, im.count_fits)

  -- In a state that has not loaded yet and where a well-formed file lies in memory,
  -- `reflect_load_bytes` returns in either mode, and `reflect_type_info_from_name` then gives,
  -- for any string that was in memory before, the type that the file last lists under that name
  -- or alias, and NULL for a string that is neither in the file.
  pub load-type_info_from_name :
      (name : CharPtr) (k : Text)
      → text st.memory name ≡ some k
      → Returns
          (reflect_load_bytes start copy st)
          (λ st'. reflect_type_info_from_name st' name ≡ ok (names_of ds no_names k))
  load-type_info_from_name name k named =
      let (st', run, (m, x, kept)) =
        reflect_load_bytes-LoadedFile start place ds copy st first im in
      (
        st',
        run,
        reflect_type_info_from_name-names name k m (id_small k) (text-Extends x name named),
      )

  -- In a state that has not loaded yet, let a well-formed file lie in memory, and let no type
  -- behind type number `i` of the file have its id, or its name as name or alias. Then
  -- `reflect_load_bytes` returns in either mode, `reflect_type_info_from_name` of a string that
  -- was in memory before and is the name of type `i` gives that type, and its entry in the type
  -- table has the name, the id, the size, the variant and the members that the file gives.
  pub load-listed_type :
      (i : ℕ) (d : TypeDesc) (name : CharPtr)
      → get_elem? ds i ≡ some d
      → IsFreeId (drop (suc i) ds) d.id
      → IsFreeName (drop (suc i) ds) d.name
      → text st.memory name ≡ some d.name
      → Returns (reflect_load_bytes start copy st) (λ st'.
        (reflect_type_info_from_name st' name ≡ ok (some d.id))
        × Returns (get_internal_from_type_info st' d.id) (λ e. Describes st'.memory e d))
  load-listed_type i d name at free_id free_name named =
      let (st', run, (m, x, kept)) =
        reflect_load_bytes-LoadedFile start place ds copy st first im in
      (
        st',
        run,
        (
          reflect_type_info_from_name-names name d.name m (id_small d.name)
                (text-Extends x name named)
              ∙ rw (names_of-get_elem? ds no_names i d at free_name),
          get_internal-Describes m d.id d (types_of-get_elem? ds no_types i d at free_id),
        ),
      )

  module _ (t : TypePtr) (d : TypeDesc) (listed : types_of ds no_types t ≡ some d) where
    -- In a state that has not loaded yet, let a well-formed file lie in memory, and let the
    -- type `t` be the struct or union that the file last lists under that id. Then
    -- `reflect_load_bytes` returns in either mode, and for a string that was in memory before
    -- and is the name of the type's field number `i` (of fewer than 2^64 - 1 fields),
    -- `reflect_get_field_type` returns a pointer to field number `j`, where `i ≤ j` and that
    -- field has the same name; behind the pointer is what the file gives for field `j`: its
    -- name, its flag, its three numbers and its type.
    pub load-get_field_type :
        (u : Bool) (fs : List FieldDesc) (aliases : List Text) (i : ℕ) (f : FieldDesc)
        (name : CharPtr)
        → d.body ≡ composite (fields u fs) aliases
        → get_elem? fs i ≡ some f
        → length fs < not_found
        → text st.memory name ≡ some f.name
        → Returns (reflect_load_bytes start copy st) (λ st'.
          (j : ℕ) × (g : FieldDesc) × (i ≤ j)
          × (get_elem? fs j ≡ some g)
          × (g.name ≡ f.name)
          × (reflect_get_field_type st' (some t) name ≡ ok (some (member t j)))
          × Returns (load_field st' (member t j)) (λ info. FieldMatches st'.memory info g))
    load-get_field_type u fs aliases i f name is at few named =
        let (st', run, (m, x, kept)) =
          reflect_load_bytes-LoadedFile start place ds copy st first im in
        let (p, found_at, (j, g, p_is, later, at', same, read)) =
          reflect_get_field_type-load_field m t d u fs aliases listed is i f name at few
            (text-Extends x name named) in
        (st', run, (j, g, later, at', same, rw p_is at found_at, read))

    -- In a state that has not loaded yet, let a well-formed file lie in memory, and let the
    -- type `t` be the enum that the file last lists under that id. Then `reflect_load_bytes`
    -- returns in either mode, and for a string that was in memory before and is the name of the
    -- enum's enumerator number `i` (of fewer than 2^64 - 1), `reflect_get_enum_value` gives the
    -- value of enumerator number `j`, where `i ≤ j` and that enumerator has the same name.
    pub load-get_enum_value :
        (es : List Enumerator) (aliases : List Text) (i : ℕ) (v : Enumerator) (name : CharPtr)
        → d.body ≡ composite (enumerators es) aliases
        → get_elem? es i ≡ some v
        → length es < not_found
        → text st.memory name ≡ some v.name
        → Returns (reflect_load_bytes start copy st) (λ st'.
          (j : ℕ) × (w : Enumerator) × (i ≤ j)
          × (get_elem? es j ≡ some w)
          × (w.name ≡ v.name)
          × (reflect_get_enum_value st' (some t) name ≡ ok (some w.value)))
    load-get_enum_value es aliases i v name is at few named =
        let (st', run, (m, x, kept)) =
          reflect_load_bytes-LoadedFile start place ds copy st first im in
        (
          st',
          run,
          reflect_get_enum_value-value m t d listed es aliases is i v name at few
              (text-Extends x name named),
        )
