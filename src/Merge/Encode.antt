-- ===== src/Merge/Encode.antt =====
-- The encoder with something behind.
use reflect_c.Base.{
  ℕ, ◌≡◌, refl, sym, ap, ◌∙◌, List, [], ◌∷◌, ◌++◌, append_assoc, append-nil, length,
}
use reflect_c.Reader.Encoding.{little_endian}
use reflect_c.Format.{
  Text, FieldDesc, Enumerator, Content, Body, TypeDesc, fields, enumerators, composite,
  encode_field, encode_fields, encode_enumerators, encode_aliases, encode_content, encode_body,
  encode_type, encode_types, content_code, body_code,
}
use reflect_c.Format as Format

module _ (place : Text → ℕ) where
  pub encode_field-rest :
      (f : FieldDesc) (rest : List ℕ) → encode_field place f [] ++ rest ≡ encode_field place f rest
  encode_field-rest f rest = simp (append_assoc, append-nil) refl

  pub encode_fields-rest :
      (fs : List FieldDesc) (rest : List ℕ)
      → encode_fields place fs [] ++ rest ≡ encode_fields place fs rest
  encode_fields-rest [] rest = refl
  encode_fields-rest (f ∷ fs) rest =
      ap (λ l. l ++ rest) (sym (encode_field-rest f (encode_fields place fs [])))
      ∙ append_assoc (encode_field place f []) (encode_fields place fs []) rest
      ∙ ap (λ l. encode_field place f [] ++ l) (encode_fields-rest fs rest)
      ∙ encode_field-rest f (encode_fields place fs rest)

  pub encode_enumerators-rest :
      (es : List Enumerator) (rest : List ℕ)
      → encode_enumerators place es [] ++ rest ≡ encode_enumerators place es rest
  encode_enumerators-rest [] rest = refl
  encode_enumerators-rest (e ∷ es) rest = simp (append_assoc, encode_enumerators-rest es rest) refl

  pub encode_aliases-rest :
      (names : List Text) (rest : List ℕ)
      → encode_aliases place names [] ++ rest ≡ encode_aliases place names rest
  encode_aliases-rest [] rest = refl
  encode_aliases-rest (a ∷ names) rest = simp (append_assoc, encode_aliases-rest names rest) refl

  pub encode_content-rest :
      (c : Content) (mid rest : List ℕ)
      → encode_content place c mid ++ rest ≡ encode_content place c (mid ++ rest)
  encode_content-rest (fields u fs) mid rest =
      append_assoc (little_endian 8 (length fs)) _ rest
      ∙ ap (λ l. little_endian 8 (length fs) ++ l)
          (ap (λ l. l ++ rest) (sym (encode_fields-rest fs mid))
            ∙ append_assoc (encode_fields place fs []) mid rest
            ∙ encode_fields-rest fs (mid ++ rest))
  encode_content-rest (enumerators es) mid rest =
      append_assoc (little_endian 8 (length es)) _ rest
      ∙ ap (λ l. little_endian 8 (length es) ++ l)
          (ap (λ l. l ++ rest) (sym (encode_enumerators-rest es mid))
            ∙ append_assoc (encode_enumerators place es []) mid rest
            ∙ encode_enumerators-rest es (mid ++ rest))

  pub encode_body-rest :
      (b : Body) (rest : List ℕ) → encode_body place b [] ++ rest ≡ encode_body place b rest
  encode_body-rest Format.base rest = refl
  encode_body-rest (composite c aliases) rest =
      encode_content-rest c _ rest
      ∙ ap (encode_content place c) (
          append_assoc (little_endian 8 (length aliases)) _ rest
          ∙ ap (λ l. little_endian 8 (length aliases) ++ l) (encode_aliases-rest aliases rest))

  pub encode_type-rest :
      (d : TypeDesc) (rest : List ℕ) → encode_type place d [] ++ rest ≡ encode_type place d rest
  encode_type-rest d rest = simp (append_assoc, encode_body-rest d.body rest) refl
