-- ===== src/Plugin/Visit/Paths/Loops.antt =====
-- The loops over the fields, and the record that `VisitRecordDecl` appends.
use reflect_c.Base.{
  ℕ, zero, suc, ◌+◌, ◌%◌, ◌^◌, ◌≡◌, refl, sym, ap, ◌∙◌, subst, some, List, [], ◌∷◌, ◌++◌, arith,
  get_elem?, IsIn, IsIn-append_left, After, After-bind, After-map, reached, stopped,
}
use reflect_c.Format.{Text}
use reflect_c.Plugin.Clang.{Clang}
use reflect_c.Plugin.Types.{FieldInfo, RecordInfo}
use reflect_c.Plugin.Visitor.{Visitor}
use reflect_c.Plugin.Visit.{
  byte_offset, nested_loop, reflect_nested_fields, field_loop, register_field,
}
use reflect_c.Plugin.Visit.Register.{
  Keeps, Extends, Extends-refl, Extends-trans, register_field-Extends, Registers, Registers-Keeps,
  register_field-Registers,
}
use reflect_c.Plugin.Visit.Paths.{Adds}
use reflect_c.Plugin.Visit.Paths.Nested.{Created, create_field_info-Created, Adds-nil}
use reflect_c.Plugin.Visit.Paths.Rounds.{rounds-Adds}

module _ (C : Clang) where
  pub nested_loop-Adds :
      (fuel : ℕ) (rd : C.RecordDecl) (fields : List C.FieldDecl) (index : ℕ) (prefix : Text)
      (base : ℕ) (r : RecordInfo)
      → After
          (Adds C rd index fields prefix base r)
          (nested_loop C fuel rd fields index prefix base r)
  unfolding nested_loop
  nested_loop-Adds fuel rd [] index prefix base r = reached (Adds-nil C rd index prefix base r)
  nested_loop-Adds zero rd (f ∷ fields) index prefix base r = stopped
  nested_loop-Adds (suc fuel) rd (f ∷ fields) index prefix base r =
      After-bind
        (create_field_info-Created C fuel f (C.get_type f)
          ((base + byte_offset C rd index) % 2 ^ 64))
        λ info created.
          After-bind
            (rounds-Adds C rd index f fields prefix base _
              (record info { name = prefix ++ C.get_field_name f }) refl (created.0) (omega arith) r
              _ (λ nested is. nested_loop-Adds fuel nested (C.fields nested) 0 _ _ _))
            λ inner (isin, then_).
              After-map then_ (nested_loop-Adds (suc fuel) rd fields (index + 1) prefix base inner)

  -- A field of the record stands for a field of the declaration, and the names of its types are known.
  pub Known : (rd : C.RecordDecl) (index : ℕ) → C.FieldDecl → RecordInfo → Visitor → Type 0
  Known rd index field r v =
      (fi : FieldInfo) × IsIn fi r.fields
      × (fi.name ≡ C.get_field_name field)
      × (fi.offset ≡ byte_offset C rd index)
      × Registers fi v

  pub record Fielded (rd : C.RecordDecl) (index : ℕ) (fields : List C.FieldDecl) (r : RecordInfo)
      (v : Visitor) (found : RecordInfo × Visitor) : Type 0 where
    pub adds : Adds C rd index fields [] 0 r found.0
    pub extends : Extends v found.1
    pub known :
        (place : ℕ) (field : C.FieldDecl)
        → get_elem? fields place ≡ some field
        → Known rd (index + place) field found.0 found.1

  Fielded-cons :
      (rd : C.RecordDecl) (index : ℕ) (f : C.FieldDecl) (fields : List C.FieldDecl)
      (r inner : RecordInfo) (v : Visitor) (info : FieldInfo) (found : RecordInfo × Visitor)
      → Created C f (byte_offset C rd index) info
      → IsIn info inner.fields
      → ((r' : RecordInfo)
          → Adds C rd (index + 1) fields [] 0 inner r'
          → Adds C rd index (f ∷ fields) [] 0 r r')
      → Fielded rd (index + 1) fields inner (register_field info v) found
      → Fielded rd index (f ∷ fields) r v found
  unfolding Known
  Fielded-cons rd index f fields r inner v info found created isin then_ h = record {
    adds = then_ found.0 h.adds;
    extends = Extends-trans (register_field-Extends info v) h.extends;
    known = known_of;
  }
    where
      known_of :
          (place : ℕ) (field : C.FieldDecl)
          → get_elem? (f ∷ fields) place ≡ some field
          → Known rd (index + place) field found.0 found.1
      known_of zero field at =
          let same : f ≡ field = cc in
          subst (λ g. Known rd (index + 0) g found.0 found.1) same
            (
              info,
              subst (λ (x : RecordInfo). IsIn info x.fields) (sym h.adds.grown)
                  (IsIn-append_left inner.fields h.adds.added isin),
              created.1,
              created.0 ∙ ap (byte_offset C rd) (omega arith),
              Registers-Keeps info (register_field info v) found.1 h.extends.kept
                  (register_field-Registers info v),
            )
      known_of (suc place) field at =
          subst (λ i. Known rd i field found.0 found.1) (omega arith) (h.known place field at)

  pub field_loop-Fielded :
      (fuel : ℕ) (rd : C.RecordDecl) (fields : List C.FieldDecl) (index : ℕ) (r : RecordInfo)
      (v : Visitor)
      → After (Fielded rd index fields r v) (field_loop C fuel rd fields index r v)
  unfolding field_loop reflect_nested_fields
  field_loop-Fielded fuel rd [] index r v = reached (record {
    adds = Adds-nil C rd index [] 0 r;
    extends = Extends-refl v;
    known = λ place field at. cc at;
  })
  field_loop-Fielded fuel rd (f ∷ fields) index r v =
      After-bind (create_field_info-Created C fuel f (C.get_type f) (byte_offset C rd index))
        λ info created.
          After-bind
            (rounds-Adds C rd index f fields [] 0 (byte_offset C rd index) info (created.1)
              (created.0 ∙ omega arith) (omega arith) r _
              (λ nested is. nested_loop-Adds fuel nested (C.fields nested) 0 _ _ _))
            λ inner (isin, then_).
              After-map
                (λ found h.
                  Fielded-cons rd index f fields r inner v info found created isin then_ h)
                (field_loop-Fielded fuel rd fields (index + 1) inner (register_field info v))

  pub Known-Keeps :
      (rd : C.RecordDecl) (index : ℕ) (field : C.FieldDecl) (r : RecordInfo) (v v' : Visitor)
      → Keeps v v'
      → Known rd index field r v
      → Known rd index field r v'
  unfolding Known
  Known-Keeps rd index field r v v' keeps (fi, isin, named, placed, known) =
      (fi, isin, named, placed, Registers-Keeps fi v v' keeps known)
