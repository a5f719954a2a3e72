-- ===== src/Merge/Table.antt =====
-- The table that `write_reflection_dat` writes on a 64-bit target is the one that the format describes.
use reflect_c.Base.{
  ℕ, suc, ◌^◌, ◌<◌, ◌≡◌, refl, ap, Bool, true, false, List, [], ◌∷◌, ◌++◌, append_assoc, arith,
  length, IsIn, first, later,
}
use reflect_c.Reader.Encoding.{little_endian}
use reflect_c.Format.{
  Text, FieldDesc, Enumerator, Content, Body, TypeDesc, fields, enumerators, composite,
  encode_field, encode_fields, encode_enumerators, encode_aliases, encode_content, encode_body,
  encode_type, encode_types, content_code, body_code,
}
use reflect_c.Format as Format
use reflect_c.Plugin.Int.{pos}
use reflect_c.Plugin.Types.{TypeVariant, base, struct, union, enum}
use reflect_c.Merge.{
  FieldData, TypeData, get_default, TypeNameMap, Volume, object_type, write_aliases, write_members,
  write_rest, write_type, write_types,
}
use reflect_c.Merge.Writes.{
  Writes, bits, FitsInt64, write_arch_size-Writes, write_uint8-Writes, Writes-nil, Writes-then,
  Writes-≡,
}
use reflect_c.Merge.Encode.{encode_fields-rest, encode_enumerators-rest, encode_type-rest}
use reflect_c.Merge.Fields.{
  field_descs, enumerator_descs, name_place, NameFits, FieldFits, EnumeratorFits, write_place,
}
use reflect_c.Merge.Counts.{
  Counts, write_fields-Counts, write_enumerators-Counts, write_counted-Writes,
}

module _ (types : TypeNameMap) (volume : Volume) where
  unfoldable pub body_desc : TypeVariant → TypeData → Body
  body_desc base t = Format.base
  body_desc struct t =
      composite (fields false (field_descs types volume (get_default t.fields [])))
        (get_default t.aliases [])
  body_desc union t =
      composite (fields true (field_descs types volume (get_default t.fields [])))
        (get_default t.aliases [])
  body_desc enum t =
      composite (enumerators (enumerator_descs types volume (get_default t.fields [])))
        (get_default t.aliases [])

  abbrev pub type_desc : TypeData → TypeDesc
  type_desc t = record {
    id = t.id;
    name = t.name;
    size = bits (get_default t.size (pos 0));
    body = body_desc t.type t;
  }

  unfoldable pub AliasesFit : List Text → Type 0
  AliasesFit names = (a : Text) → IsIn a names → NameFits types volume a

  write_aliases-Writes :
      (names : List Text)
      → AliasesFit names
      → Writes
          (write_aliases types volume names)
          (encode_aliases (name_place types volume) names [])
  unfolding write_aliases AliasesFit
  write_aliases-Writes [] h = Writes-nil
  write_aliases-Writes (a ∷ names) h =
      Writes-then (write_place types volume a (h a first))
        (write_aliases-Writes names (λ b isin. h b (later isin)))

  unfoldable pub MembersFit : TypeVariant → List FieldData → Type 0
  MembersFit base fs = Unit
  MembersFit struct fs = (f : FieldData) → IsIn f fs → FieldFits types volume f
  MembersFit union fs = (f : FieldData) → IsIn f fs → FieldFits types volume f
  MembersFit enum fs = (f : FieldData) → IsIn f fs → EnumeratorFits types volume f

  pub record TypeFits (t : TypeData) : Type 0 where
    pub id_lt : t.id < 2 ^ 63
    pub name_fits : NameFits types volume t.name
    pub size_fits : FitsInt64 (get_default t.size (pos 0))
    pub members_fit : MembersFit t.type (get_default t.fields [])
    pub aliases_fit : AliasesFit (get_default t.aliases [])
    pub aliases_lt : length (get_default t.aliases []) < 2 ^ 63

  write_members-Writes :
      (e : Bool) (t : TypeData) (k : ℕ) (bs : List ℕ)
      → Counts types volume e (get_default t.fields []) bs k
      → TypeFits t
      → Writes (write_members types volume e t) (
          little_endian 8 k
          ++ (bs
              ++ (little_endian 8 (length (get_default t.aliases []))
                  ++ encode_aliases (name_place types volume) (get_default t.aliases []) [])))
  unfolding write_members
  write_members-Writes e t k bs counted h =
      let aliases = get_default t.aliases [] in
      Writes-≡ (simp append_assoc refl) (
        Writes-then
          (Writes-then (write_counted-Writes types volume e (get_default t.fields []) bs k counted)
            (write_arch_size-Writes (pos (length aliases)) h.aliases_lt))
          (write_aliases-Writes aliases h.aliases_fit))

  write_fields_of :
      (t : TypeData) (u : Bool)
      → TypeFits t
      → ((f : FieldData) → IsIn f (get_default t.fields []) → FieldFits types volume f)
      → Writes (write_members types volume false t) (
          encode_body
            (name_place types volume)
            (composite
              (fields u (field_descs types volume (get_default t.fields [])))
              (get_default t.aliases []))
            [])
  write_fields_of t u h fits =
      let fs = get_default t.fields [] in
      Writes-≡
        (ap (λ l. little_endian 8 (length (field_descs types volume fs)) ++ l)
          (encode_fields-rest (name_place types volume) (field_descs types volume fs) _))
        (write_members-Writes false t (length (field_descs types volume fs)) _
          (write_fields-Counts types volume fs fits) h)

  write_rest-Writes :
      (v : TypeVariant) (t : TypeData)
      → TypeFits t
      → MembersFit v (get_default t.fields [])
      → Writes
          (write_rest types volume v t)
          (encode_body (name_place types volume) (body_desc v t) [])
  unfolding write_rest MembersFit body_desc
  write_rest-Writes base t h fits = Writes-nil
  write_rest-Writes struct t h fits = write_fields_of t false h fits
  write_rest-Writes union t h fits = write_fields_of t true h fits
  write_rest-Writes enum t h fits =
      let fs = get_default t.fields [] in
      Writes-≡
        (ap (λ l. little_endian 8 (length (enumerator_descs types volume fs)) ++ l)
          (encode_enumerators-rest (name_place types volume) (enumerator_descs types volume fs) _))
        (write_members-Writes true t (length (enumerator_descs types volume fs)) _
          (write_enumerators-Counts types volume fs fits) h)

  object_type-body_code :
      (v : TypeVariant) (t : TypeData) → body_code (body_desc v t) ≡ object_type v
  unfolding body_desc
  object_type-body_code base t = refl
  object_type-body_code struct t = refl
  object_type-body_code union t = refl
  object_type-body_code enum t = refl

  object_type-lt : (v : TypeVariant) → object_type v < 256
  object_type-lt base = omega arith
  object_type-lt struct = omega arith
  object_type-lt union = omega arith
  object_type-lt enum = omega arith

  write_type-Writes :
      (t : TypeData)
      → TypeFits t
      → Writes (write_type types volume t) (encode_type (name_place types volume) (type_desc t) [])
  unfolding write_type
  write_type-Writes t h = Writes-≡ (simp (append_assoc, object_type-body_code t.type t) refl) (
      Writes-then
        (Writes-then
          (Writes-then
            (Writes-then (write_arch_size-Writes (pos t.id) h.id_lt)
              (write_uint8-Writes (object_type t.type) (object_type-lt t.type)))
            (write_place types volume t.name h.name_fits))
          (write_arch_size-Writes (get_default t.size (pos 0)) h.size_fits))
        (write_rest-Writes t.type t h h.members_fit))

  unfoldable pub type_descs : List TypeData → List TypeDesc
  type_descs [] = []
  type_descs (t ∷ ts) = type_desc t ∷ type_descs ts

  pub length-type_descs : (ts : List TypeData) → length (type_descs ts) ≡ length ts
  unfolding type_descs
  length-type_descs [] = refl
  length-type_descs (t ∷ ts) = ap suc (length-type_descs ts)

  pub write_types-Writes :
      (ts : List TypeData)
      → ((t : TypeData) → IsIn t ts → TypeFits t)
      → Writes
          (write_types types volume ts)
          (encode_types (name_place types volume) (type_descs ts) [])
  unfolding write_types type_descs
  write_types-Writes [] h = Writes-nil
  write_types-Writes (t ∷ ts) h =
      Writes-≡ (encode_type-rest (name_place types volume) (type_desc t) _) (
        Writes-then (write_type-Writes t (h t first))
          (write_types-Writes ts (λ u isin. h u (later isin))))
