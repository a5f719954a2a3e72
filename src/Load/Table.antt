-- ===== src/Load/Table.antt =====
-- The loop over the types of a file.
use reflect_c.Base.{
  ℕ, ◌^◌, ◌≤◌, ◌<◌, ◌≡◌, refl, ◌∙◌, true, false, Option, some, List, [], ◌∷◌, ◌++◌, arith, length,
  Returns, ok,
}
use reflect_c.Memory.{Memory, CharPtr}
use reflect_c.Memory.Strings.{text, Extends, Extends-refl, Extends-trans}
use reflect_c.Reader.{Reader}
use reflect_c.Hashtable.{Hashtable}
use reflect_c.Hashtable.Insert.{update}
use reflect_c.Format.{
  Text, Content, fields, enumerators, Body, base, composite, TypeDesc, body_code, encode_content,
  encode_body, encode_type, encode_types,
}
use reflect_c.Format.Names.{aliases_of, add_names, add_aliases, names_of, types_of}
use reflect_c.Types.{State, TypeInfoInternal, put_entry, variant_of}
use reflect_c.Types.Describes.{
  HasHeader, HasHeader-Extends, HasContent-Extends, HasBody, body_variant, content_variant,
}
use reflect_c.Types.Register.{Names, Names-Extends, with_names, add_base_type_info-Names}
use reflect_c.Types.Models.{Models, Models-put_entry, add_type}
use reflect_c.Load.{load_composite, load_body, load_type, load_types}
use reflect_c.Reader.{advance}
use reflect_c.Reader.Encoding.{little_endian}
use reflect_c.Format.{encode_aliases}
use reflect_c.Load.Monad.{Frame, size_t}
use reflect_c.Load.Cursor.{ContentFits}
use reflect_c.Load.Cursor.{
  Source, BodyFits, TypeFits, Cursor, All, frame, with_memory, size_t-Cursor, byte-Cursor,
  string-Cursor,
}
use reflect_c.Load.Composite.{content_count, encode_members, load_members-Composed}
use reflect_c.Load.Aliases.{load_aliases-Renamed}

-- The byte of a variant is read back as that variant, which is below 256.
variant_of-body_code : (b : Body) → variant_of (body_code b) ≡ some (body_variant b)
variant_of-body_code base = refl
variant_of-body_code (composite (fields true fs) aliases) = refl
variant_of-body_code (composite (fields false fs) aliases) = refl
variant_of-body_code (composite (enumerators es) aliases) = refl

body_code-lt : (b : Body) → body_code b < 256
body_code-lt base = omega arith
body_code-lt (composite (fields true fs) aliases) = omega arith
body_code-lt (composite (fields false fs) aliases) = omega arith
body_code-lt (composite (enumerators es) aliases) = omega arith

-- Any variant but `base` is read as a composite.
load_body_composite :
    (c : Content) (name : CharPtr) (id size : ℕ)
    → load_body (some (content_variant c)) name id size
      ≡ load_composite (some (content_variant c)) name id size
unfolding load_body
load_body_composite (fields true fs) name id size = refl
load_body_composite (fields false fs) name id size = refl
load_body_composite (enumerators es) name id size = refl

module _ (src : Source) where
  open src use {place}

  -- One type was read: its entry is in the table, and its names are registered.
  abbrev pub Entered :
      Memory
      → State
      → (Text → Option ℕ)
      → Text
      → (id size : ℕ) → Body
      → List ℕ
      → Unit {0} × Frame
      → Type 0
  Entered mem st f n id size b rest (_, fr) =
      (r' : Reader) × (mem' : Memory) × (ht : Hashtable) × (e : TypeInfoInternal) × (fr
        ≡ frame r' mem' (put_entry (with_names st ht) id e))
      × Extends mem mem'
      × Cursor src r' mem' rest
      × Names mem' ht (add_aliases (aliases_of b) id (update f n id))
      × HasHeader mem' e id n size (body_variant b)
      × HasBody mem' e b

  module _ {r : Reader} {mem : Memory} (st : State) (f : Text → Option ℕ) (name : CharPtr)
      (n : Text) (id size : ℕ) (rest : List ℕ) (inside : id < length st.type_table)
      (named : text mem name ≡ some n) (names : Names mem st.type_hash_table f) where
    load_composite-Entered :
        (c : Content) (aliases : List Text)
        → BodyFits src (composite c aliases)
        → Cursor src r mem (encode_body place (composite c aliases) rest)
        → Returns
            (load_composite (some (content_variant c)) name id size (frame r mem st))
            (Entered mem st f n id size (composite c aliases) rest)
    unfolding load_composite
    load_composite-Entered c aliases (fit, fits, few) cur =
        let behind = little_endian 8 (length aliases) ++ encode_aliases place aliases rest in
        let (run₁, c₁) = count-Cursor c behind fit cur in
        let (_, run₂, (r₂, mem₂, ht₂, e, is₂, x₂, c₂, names₂, header, content)) =
          load_members-Composed src {mem = mem} st f name n id size behind inside named names c fit
            c₁ in
        let st₂ = put_entry (with_names st ht₂) id e in
        let (run₃, c₃) =
          size_t-Cursor src st₂ (encode_aliases place aliases rest) (length aliases) few c₂ in
        let (out, run₄, (r₄, mem₄, ht₄, is₄, x₄, c₄, names₄)) =
          load_aliases-Renamed src id st₂ aliases (update f n id) rest fits c₃
            (Names-Extends x₂ ht₂ (update f n id) names₂) in
        (
          out,
          rw (run₁, run₂, is₂, run₃) run₄,
          (
            r₄,
            mem₄,
            ht₄,
            e,
            is₄,
            Extends-trans x₂ x₄,
            c₄,
            names₄,
            HasHeader-Extends x₄ header,
            HasContent-Extends x₄ c 0 content,
          ),
        )
      where
        count-Cursor :
            (c : Content) (behind : List ℕ)
            → ContentFits src c
            → Cursor src r mem (encode_content place c behind)
            → (size_t (frame r mem st) ≡ ok (content_count c, frame (advance r 8) mem st))
              × Cursor src (advance r 8) mem (encode_members src c behind)
        count-Cursor (fields u fs) behind (fits, few) cur =
            size_t-Cursor src st _ (length fs) (omega arith) cur
        count-Cursor (enumerators es) behind (fits, few) cur =
            size_t-Cursor src st _ (length es) (omega arith) cur

    load_body-Entered :
        (b : Body)
        → BodyFits src b
        → Cursor src r mem (encode_body place b rest)
        → Returns
            (load_body (some (body_variant b)) name id size (frame r mem st))
            (Entered mem st f n id size b rest)
    load_body-Entered base fits cur =
        let ((t, st'), run, (is_id, (ht, e, is, names', header, no_members, no_count))) =
          add_base_type_info-Names name n id size (with_memory st mem) f inside named names in
        (
          (tt, frame r mem (put_entry (with_names st ht) id e)),
          unfold load_body in rw (run, is),
          (r, mem, ht, e, refl, Extends-refl mem, cur, names', header, (no_members, no_count)),
        )
    load_body-Entered (composite c aliases) fits cur =
        rw (load_body_composite c name id size) (load_composite-Entered c aliases fits cur)

  -- The state after a number of rounds: the cursor stands behind what was read, and the tables
  -- are what the descriptions say.
  abbrev pub Loaded :
      State → (ℕ → Option TypeDesc) → (Text → Option ℕ) → ℕ → List ℕ → Unit {0} × Frame → Type 0
  Loaded st types names n rest (_, fr) =
      (r' : Reader) × (st' : State) × (fr ≡ record { reader = r'; state = st' })
      × Cursor src r' st'.memory rest
      × Models st' types names n
      × (st'.is_init ≡ st.is_init)

  module _ (n : ℕ) where
    load_type-Loaded :
        {r : Reader} (st : State) (types : ℕ → Option TypeDesc) (names : Text → Option ℕ)
        (d : TypeDesc) (rest : List ℕ)
        → n ≤ 2 ^ 64
        → TypeFits src n d
        → Models st types names n
        → Cursor src r st.memory (encode_type place d rest)
        → Returns
            (load_type (record { reader = r; state = st }))
            (Loaded st (add_type d types) (add_names d names) n rest)
    unfolding load_type
    load_type-Loaded {r} st types names d rest small fit m c =
        let (run₁, c₁) = size_t-Cursor src st _ d.id (omega (arith, fit.id)) c in
        let (run₂, c₂) = byte-Cursor src st _ (body_code d.body) (body_code-lt d.body) c₁ in
        let (p, r₃, mem₃, run₃, named, x, c₃) = string-Cursor src st _ d.name fit.name c₂ in
        let (run₄, c₄) = size_t-Cursor src st _ d.size fit.size c₃ in
        let (out, run₅, (r₅, mem₅, ht, e, is, x₅, c₅, names₅, header, body)) =
          load_body-Entered {mem = mem₃} st names p d.name d.id d.size rest
            (omega (arith, fit.id, m.width)) named
            (Names-Extends x st.type_hash_table names m.names_lem) d.body fit.body c₄ in
        (
          out,
          rw (run₁, run₂, run₃, run₄, variant_of-body_code d.body) run₅,
          (
            r₅,
            put_entry (record (with_names st ht) { memory = mem₅ }) d.id e,
            is,
            c₅,
            Models-put_entry (add_names d names) mem₅ ht e d m (Extends-trans x x₅) fit.id
                (record { header = header; body = body }) names₅,
            refl,
          ),
        )

    pub load_types-Loaded :
        {r : Reader} (st : State) (types : ℕ → Option TypeDesc) (names : Text → Option ℕ)
        (ds : List TypeDesc) (rest : List ℕ)
        → n ≤ 2 ^ 64
        → All src (TypeFits src n) ds
        → Models st types names n
        → Cursor src r st.memory (encode_types place ds rest)
        → Returns
            (load_types (length ds) (record { reader = r; state = st }))
            (Loaded st (types_of ds types) (names_of ds names) n rest)
    unfolding load_types
    load_types-Loaded {r} st types names [] rest small fits m c =
        ((tt, record { reader = r; state = st }), refl, (r, st, refl, c, m, refl))
    load_types-Loaded st types names (d ∷ ds) rest small (fit, fits) m c =
        let (_, run, (r₁, st₁, is, c₁, m₁, kept)) =
          load_type-Loaded st types names d (encode_types place ds rest) small fit m c in
        let (out, run', (r₂, st₂, is₂, c₂, m₂, kept₂)) =
          load_types-Loaded {r = r₁} st₁ (add_type d types) (add_names d names) ds rest small fits
            m₁ c₁ in
        (out, rw (run, is) run', (r₂, st₂, is₂, c₂, m₂, kept₂ ∙ kept))
