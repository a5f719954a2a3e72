-- ===== src/Merge/Listed.antt =====
-- The types that `write_reflection_dat` lists are those that the dictionary says.
use mathlib.Core.Option
use reflect_c.Base.{
  ℕ, ◌+◌, ◌≡◌, ◌≢◌, refl, sym, ◌∙◌, subst, inl, inr, false, Option, none, some, List, [], ◌∷◌, IsIn,
  first, later, arith, Bool-cases, Option-cases, ◌===◌, ===_refl, eq-of_===,
}
use reflect_c.Format.{Text}
use reflect_c.Plugin.Int.{pos}
use reflect_c.Plugin.Types.{TypeVariant, base, struct, union, enum}
use reflect_c.Merge.{
  FieldData, TypeData, TypeNameMap, Volume, get_default, find_type, is_skipped, ref_id, number,
  pop_empty,
}
use reflect_c.Merge.Fields.{field_desc, field_descs, enumerator_descs}
use reflect_c.Merge.Table.{body_desc, type_descs}
use reflect_c.Merge.Says.{
  Reads, present, missing, IsDictionary, new_key, Numbered, no_entries, left_out, numbered, Finds,
  nowhere, here, there, Refers, known_type, unknown_type, FieldSays, FieldsSay, no_fields,
  unknown_record, known_record, no_record, EnumeratorsSay, no_enumerators, enumerator, BodySays,
  base_body, struct_body, union_body, enum_body, TypesSay, no_types, next_type, Says,
}

get_default-Reads :
    {A : Type 0} (o : Option A) (default : A) → Reads o default (get_default o default)
get_default-Reads none default = missing
get_default-Reads (some a) default = present

differs : (s t : Text) → (s === t) ≡ false → s ≢ t
differs s t other e =
    let yes_ = ===_refl t in let no = subst (λ x. (x === t) ≡ false) e other in cc (yes_, no)

find_type-Finds :
    (name : Text) (us : TypeNameMap)
    → Finds us name (Option.map (λ (t : TypeData). t.id) (find_type name us))
unfolding find_type
find_type-Finds name [] = nowhere
find_type-Finds name (t ∷ us) = elim (Bool-cases (t.name === name)) [
  | inl e ↦ rw (find_type, e) (here (eq-of_=== t.name name e))
  | inr e ↦ rw (find_type, e) (there (differs t.name name e) (find_type-Finds name us))
]

find_type-Finds_of :
    {name : Text} {o : Option TypeData} (us : TypeNameMap)
    → find_type name us ≡ o
    → Finds us name (Option.map (λ (t : TypeData). t.id) o)
find_type-Finds_of {name} us e =
    subst (λ q. Finds us name (Option.map (λ (t : TypeData). t.id) q)) e (find_type-Finds name us)

module _ (us : TypeNameMap) (volume : Volume) where
  ref_id-Refers : (f : FieldData) → Refers us (get_default f.type []) (ref_id us volume f)
  unfolding ref_id
  ref_id-Refers f = elim (Option-cases (find_type (get_default f.type []) us)) [
    | inl e ↦ rw (ref_id, e) (unknown_type (find_type-Finds_of us e))
    | inr (t, e) ↦ rw (ref_id, e) (known_type (find_type-Finds_of us e))
  ]

  field_desc-FieldSays : (f : FieldData) → FieldSays us f (field_desc us volume f)
  field_desc-FieldSays f = record {
    name = get_default-Reads f.name [];
    const = get_default-Reads f.const false;
    depth = (get_default f.pdepth (pos 0), get_default-Reads f.pdepth (pos 0), refl);
    offset = (get_default f.offset (pos 0), get_default-Reads f.offset (pos 0), refl);
    size = (get_default f.arrsize (pos 0), get_default-Reads f.arrsize (pos 0), refl);
    type = get_default f.type [];
    type_lem = get_default-Reads f.type [];
    refers = ref_id-Refers f;
  }

  field_descs-FieldsSay : (fs : List FieldData) → FieldsSay us fs (field_descs us volume fs)
  unfolding field_descs is_skipped
  field_descs-FieldsSay [] = no_fields
  field_descs-FieldsSay (f ∷ fs) =
      let says = field_desc-FieldSays f in
      let rest = field_descs-FieldsSay fs in
      let named = get_default-Reads f.type [] in
      let flag = get_default-Reads f.struct false in
      elim (Bool-cases (get_default f.struct false)) [
        | inr plain ↦
            rw (field_descs, is_skipped, plain)
              (no_record (subst (Reads f.struct false) plain flag) says rest)
        | inl a_record ↦ elim (Option-cases (find_type (get_default f.type []) us)) [
          | inl e ↦
              rw (field_descs, is_skipped, a_record, e)
                (unknown_record (subst (Reads f.struct false) a_record flag) named
                  (find_type-Finds_of us e) rest)
          | inr (t, e) ↦
              rw (field_descs, is_skipped, a_record, e)
                (known_record named (find_type-Finds_of us e) says rest)
        ]
      ]

  enumerator_descs-EnumeratorsSay :
      (fs : List FieldData) → EnumeratorsSay us fs (enumerator_descs us volume fs)
  unfolding enumerator_descs
  enumerator_descs-EnumeratorsSay [] = no_enumerators
  enumerator_descs-EnumeratorsSay (f ∷ fs) =
      enumerator (get_default-Reads f.name [])
        (get_default f.value (pos 0), get_default-Reads f.value (pos 0), refl)
        (enumerator_descs-EnumeratorsSay fs)

  body_desc-BodySays :
      (v : TypeVariant) (t : TypeData) → t.type ≡ v → BodySays us t (body_desc us volume v t)
  unfolding body_desc
  body_desc-BodySays base t e = base_body e
  body_desc-BodySays struct t e =
      struct_body e (get_default-Reads t.fields []) (get_default-Reads t.aliases [])
        (field_descs-FieldsSay (get_default t.fields []))
  body_desc-BodySays union t e =
      union_body e (get_default-Reads t.fields []) (get_default-Reads t.aliases [])
        (field_descs-FieldsSay (get_default t.fields []))
  body_desc-BodySays enum t e =
      enum_body e (get_default-Reads t.fields []) (get_default-Reads t.aliases [])
        (enumerator_descs-EnumeratorsSay (get_default t.fields []))

  type_descs-TypesSay : (ts : List TypeData) → TypesSay us ts (type_descs us volume ts)
  unfolding type_descs
  type_descs-TypesSay [] = no_types
  type_descs-TypesSay (t ∷ ts) =
      next_type
        (record {
          id = refl;
          name = refl;
          size = (get_default t.size (pos 0), get_default-Reads t.size (pos 0), refl);
          body = body_desc-BodySays t.type t refl;
        })
        (type_descs-TypesSay ts)

-- Where no entry is without a name, all are numbered.
number-Numbered :
    (k : ℕ) (ts : TypeNameMap)
    → ((t : TypeData) → IsIn t ts → t.name ≢ [])
    → Numbered k ts (number k ts)
unfolding number
number-Numbered k [] h = no_entries
number-Numbered k (t ∷ ts) h = numbered (h t first) (
    subst (λ i. Numbered i ts (number (k + 1) ts)) (omega arith)
      (number-Numbered (k + 1) ts (λ u isin. h u (later isin))))

pop_empty-Numbered :
    (k : ℕ) (ts : TypeNameMap) → IsDictionary ts → Numbered k ts (pop_empty (number k ts))
unfolding number pop_empty
pop_empty-Numbered k [] h = no_entries
pop_empty-Numbered k (t ∷ ts) (new_key new rest) = elim (Bool-cases (t.name === [])) [
  | inl e ↦
      let unnamed = eq-of_=== t.name [] e in
      rw (number, pop_empty, e)
        (left_out unnamed (
          subst (λ i. Numbered i ts (number (k + 1) ts)) (omega arith)
            (number-Numbered (k + 1) ts (λ u isin empty. new u isin (empty ∙ sym unnamed)))))
  | inr e ↦
      rw (number, pop_empty, e)
        (numbered (differs t.name [] e) (
          subst (λ i. Numbered i ts (pop_empty (number (k + 1) ts))) (omega arith)
            (pop_empty-Numbered (k + 1) ts rest)))
]

pub type_descs-Says :
    (dictionary : TypeNameMap) (volume : Volume)
    → IsDictionary dictionary
    → Says dictionary
        (type_descs (pop_empty (number 1 dictionary)) volume (pop_empty (number 1 dictionary)))
type_descs-Says dictionary volume h = record {
  entries = pop_empty (number 1 dictionary);
  ids = pop_empty-Numbered 1 dictionary h;
  types = type_descs-TypesSay (pop_empty (number 1 dictionary)) volume _;
}
