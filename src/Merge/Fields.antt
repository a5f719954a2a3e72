-- ===== src/Merge/Fields.antt =====
-- The fields and the enumerators that are written.
use reflect_c.Base.{
  ℕ, ◌^◌, ◌<◌, ◌≡◌, refl, Bool, true, false, some, List, [], ◌∷◌, append_assoc, append-nil, arith,
  if◌then◌else◌,
}
use reflect_c.Reader.Encoding.{little_endian}
use reflect_c.Reader.Cursor.{bool_byte}
use reflect_c.Format.{Text, FieldDesc, Enumerator, encode_field, encode_enumerators}
use reflect_c.Plugin.Int.{pos}
use reflect_c.Merge.{
  write_uint32, FieldData, get_default, TypeNameMap, Volume, write_name, is_skipped, ref_id,
  write_field, write_enumerator,
}
use reflect_c.Merge.Writes.{
  Writes, bits, FitsInt64, write_arch_size-Writes, write_uint32-Writes, write_uint8-Writes,
  write_name-Writes, Writes-then, Writes-≡,
}

module _ (types : TypeNameMap) (volume : Volume) where
  -- What the dictionaries say, in the terms of the format.
  abbrev pub field_desc : FieldData → FieldDesc
  field_desc f = record {
    name = get_default f.name [];
    is_const = get_default f.const false;
    ptr_depth = bits (get_default f.pdepth (pos 0));
    offset = bits (get_default f.offset (pos 0));
    arr_size = bits (get_default f.arrsize (pos 0));
    type_id = ref_id types volume f;
  }

  unfoldable pub field_descs : List FieldData → List FieldDesc
  field_descs [] = []
  field_descs (f ∷ fs) =
      let rest = field_descs fs in if is_skipped types volume f then rest else field_desc f ∷ rest

  unfoldable pub enumerator_descs : List FieldData → List Enumerator
  enumerator_descs [] = []
  enumerator_descs (f ∷ fs) =
      record { name = get_default f.name []; value = bits (get_default f.value (pos 0)) }
      ∷ enumerator_descs fs

  -- Where the file has a name.
  abbrev pub name_place : Text → ℕ
  name_place name = get_default (volume name) 0

  abbrev pub NameFits : Text → Type 0
  NameFits name = (o : ℕ) × (volume name ≡ some o) × (o < 2 ^ 63)

  pub write_place :
      (name : Text)
      → NameFits name
      → Writes (write_name types volume name) (little_endian 8 (name_place name))
  write_place name (o, at, small) = rw at (write_name-Writes types volume name o at small)

  pub record FieldFits (f : FieldData) : Type 0 where
    pub name_fits : NameFits (get_default f.name [])
    pub depth : ℕ
    pub depth_lem : get_default f.pdepth (pos 0) ≡ pos depth
    pub depth_lt : depth < 2 ^ 32
    pub offset_fits : FitsInt64 (get_default f.offset (pos 0))
    pub size_fits : FitsInt64 (get_default f.arrsize (pos 0))
    pub id_lt : ref_id types volume f < 2 ^ 63

  bool_byte-lt : (b : Bool) → bool_byte b < 256
  bool_byte-lt true = omega arith
  bool_byte-lt false = omega arith

  pub write_field-Writes :
      (f : FieldData)
      → FieldFits f
      → Writes (write_field types volume f) (encode_field name_place (field_desc f) [])
  unfolding write_field
  write_field-Writes f h =
      let depth : Writes (write_uint32 (get_default f.pdepth (pos 0)))
          (little_endian 4 (bits (get_default f.pdepth (pos 0)))) =
        rw h.depth_lem (write_uint32-Writes h.depth h.depth_lt) in
      Writes-≡ (simp (append_assoc, append-nil) refl) (
        Writes-then
          (Writes-then
            (Writes-then
              (Writes-then
                (Writes-then (write_place (get_default f.name []) h.name_fits)
                  (write_uint8-Writes (bool_byte (get_default f.const false)) (bool_byte-lt _)))
                depth)
              (write_arch_size-Writes (get_default f.offset (pos 0)) h.offset_fits))
            (write_arch_size-Writes (get_default f.arrsize (pos 0)) h.size_fits))
          (write_arch_size-Writes (pos (ref_id types volume f)) h.id_lt))

  pub record EnumeratorFits (f : FieldData) : Type 0 where
    pub name_fits : NameFits (get_default f.name [])
    pub value_fits : FitsInt64 (get_default f.value (pos 0))

  pub write_enumerator-Writes :
      (f : FieldData)
      → EnumeratorFits f
      → Writes
          (write_enumerator types volume f)
          (encode_enumerators name_place (enumerator_descs (f ∷ [])) [])
  unfolding write_enumerator enumerator_descs
  write_enumerator-Writes f h = Writes-≡ (simp append-nil refl) (
      Writes-then (write_place (get_default f.name []) h.name_fits)
        (write_arch_size-Writes (get_default f.value (pos 0)) h.value_fits))
