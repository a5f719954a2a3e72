-- ===== src/Load/Members.antt =====
-- The loops over fields, enumerators and aliases.
use reflect_c.Base.{
  ℕ, suc, ◌+◌, ◌^◌, ◌<◌, ◌≡◌, refl, ap, ◌∙◌, Bool, some, List, [], ◌∷◌, ◌++◌, append_assoc,
  append-nil, arith, length, length-append, Run, Returns,
}
use reflect_c.Memory.{Memory, CharPtr}
use reflect_c.Memory.Strings.{text, Extends, Extends-refl, Extends-trans}
use reflect_c.Reader.{Reader}
use reflect_c.Format.{
  FieldDesc, Enumerator, Content, fields, enumerators, encode_field, encode_fields,
  encode_enumerators,
}
use reflect_c.Format.Names.{length-field_names, length-enumerator_names}
use reflect_c.Types.{
  TypePtr, State, TypeInfoInternal, add_struct_field_type, add_enum_field_type, put_entry,
}
use reflect_c.Types.Add.{add_struct_field_type-HasContent, add_enum_field_type-HasContent}
use reflect_c.Types.Describes.{
  HasContent, HasContent-Extends, SameHeader, SameHeader-refl, SameHeader-trans,
}
use reflect_c.Load.{load_struct_field, load_struct_fields, load_enum_field, load_enum_fields}
use reflect_c.Load.Monad.{Frame, acting}
use reflect_c.Load.Cursor.{
  Source, All, FieldFits, EnumeratorFits, Cursor, frame, with_memory, size_t-Cursor,
  uint32_t-Cursor, bool-Cursor, string-Cursor,
}

module _ (src : Source) where
  open src use {place}

  -- A step that reads a name and more, and ends in a call that is given the name.
  abbrev Calls :
      Reader
      → Memory
      → State
      → List ℕ
      → List ℕ
      → Run (Unit {0} × Frame)
      → (CharPtr → State → Run (Unit {0} × State))
      → Type 0
  Calls r mem st n rest run act =
      (p : CharPtr) × (r' : Reader) × (mem' : Memory) × (run ≡ acting (act p) (frame r' mem' st))
      × (text mem' p ≡ some n)
      × Extends mem mem'
      × Cursor src r' mem' rest

  load_struct_field-Calls :
      {r : Reader} {mem : Memory} (st : State) (t : TypePtr) (f : FieldDesc) (rest : List ℕ)
      → FieldFits src f
      → Cursor src r mem (encode_field place f rest)
      → Calls r mem st f.name rest
          (load_struct_field t (frame r mem st))
          (λ p. add_struct_field_type t p f.type_id f.arr_size f.offset f.ptr_depth f.is_const)
  unfolding load_struct_field
  load_struct_field-Calls st t f rest h c =
      let (p, r₁, mem', run₁, named, x, c₁) = string-Cursor src st _ f.name h.name c in
      let (run₂, c₂) = bool-Cursor src st _ f.is_const c₁ in
      let (run₃, c₃) = uint32_t-Cursor src st _ f.ptr_depth h.ptr_depth c₂ in
      let (run₄, c₄) = size_t-Cursor src st _ f.offset h.offset c₃ in
      let (run₅, c₅) = size_t-Cursor src st _ f.arr_size h.arr_size c₄ in
      let (run₆, c₆) = size_t-Cursor src st _ f.type_id h.type_id c₅ in
      (p, _, mem', rw (run₁, run₂, run₃, run₄, run₅, run₆), named, x, c₆)

  load_enum_field-Calls :
      {r : Reader} {mem : Memory} (st : State) (t : TypePtr) (e : Enumerator) (rest : List ℕ)
      → EnumeratorFits src e
      → Cursor src r mem (encode_enumerators place (e ∷ []) rest)
      → Calls r mem st e.name rest
          (load_enum_field t (frame r mem st))
          (λ p. add_enum_field_type t p e.value)
  unfolding load_enum_field
  load_enum_field-Calls st t e rest h c =
      let (p, r₁, mem', run₁, named, x, c₁) = string-Cursor src st _ e.name h.name c in
      let (run₂, c₂) = size_t-Cursor src st _ e.value h.value c₁ in
      (p, _, mem', rw (run₁, run₂), named, x, c₂)

  module _ (st : State) (t : TypePtr) (inside : t < length st.type_table) where
    -- A loop over members has run: the cursor stands behind them, and the entry has them.
    abbrev pub Filled : Memory → TypeInfoInternal → List ℕ → Content → ℕ → Unit {0} × Frame → Type 0
    Filled mem e rest c k (_, f) =
        (r' : Reader) × (mem' : Memory) × (e' : TypeInfoInternal) × (f
          ≡ frame r' mem' (put_entry st t e'))
        × Extends mem mem'
        × Cursor src r' mem' rest
        × HasContent mem' e' c k
        × SameHeader e e'

    load_struct_field-Filled :
        {r : Reader} {mem : Memory} (e : TypeInfoInternal) (f : FieldDesc) (u : Bool)
        (fs : List FieldDesc) (k : ℕ) (rest : List ℕ)
        → FieldFits src f
        → length fs + 1 < 2 ^ 64
        → Cursor src r mem (encode_field place f rest)
        → HasContent mem e (fields u fs) (suc k)
        → Returns
            (load_struct_field t (frame r mem (put_entry st t e)))
            (Filled mem e rest (fields u (fs ++ f ∷ [])) k)
    load_struct_field-Filled e f u fs k rest fits few c h =
        let (p, r', mem', run, named, x, c') =
          load_struct_field-Calls (put_entry st t e) t f rest fits c in
        let ((_, st'), run', (e', written, h', same)) =
          add_struct_field_type-HasContent (with_memory st mem') t e p f u fs k inside named
            (HasContent-Extends x (fields u fs) (suc k) h) (rw length-field_names few) in
        (
          (tt, record { reader = r'; state = st' }),
          run ∙ rw run',
          (r', mem', e', ap (λ s. record { reader = r'; state = s }) written, x, c', h', same),
        )

    -- The loop over the fields reads them all, whatever fields were read before.
    pub load_struct_fields-Filled :
        {r : Reader} {mem : Memory} (e : TypeInfoInternal) (u : Bool) (done fs : List FieldDesc)
        (rest : List ℕ)
        → All src (FieldFits src) fs
        → length done + length fs < 2 ^ 64
        → Cursor src r mem (encode_fields place fs rest)
        → HasContent mem e (fields u done) (length fs)
        → Returns
            (load_struct_fields (length fs) t (frame r mem (put_entry st t e)))
            (Filled mem e rest (fields u (done ++ fs)) 0)
    unfolding load_struct_fields
    load_struct_fields-Filled {r} {mem} e u done [] rest fits few c h = (
      (tt, frame r mem (put_entry st t e)),
      refl,
      (r, mem, e, refl, Extends-refl mem, c, rw append-nil h, SameHeader-refl e),
    )
    load_struct_fields-Filled e u done (f ∷ fs) rest (fit, fits) few c h =
        let (_, run, (r₁, mem₁, e₁, is, x, c₁, h₁, same)) =
          load_struct_field-Filled e f u done (length fs) (encode_fields place fs rest) fit
            (omega arith) c h in
        let (out, run', (r₂, mem₂, e₂, is', x', c₂, h₂, same')) =
          load_struct_fields-Filled {r = r₁} {mem = mem₁} e₁ u (done ++ f ∷ []) fs rest fits
            (omega (arith, length-append done (f ∷ []))) c₁ h₁ in
        (
          out,
          rw (run, is) run',
          (
            r₂,
            mem₂,
            e₂,
            is',
            Extends-trans x x',
            c₂,
            rw append_assoc at h₂,
            SameHeader-trans same same',
          ),
        )

    load_enum_field-Filled :
        {r : Reader} {mem : Memory} (e : TypeInfoInternal) (v : Enumerator) (es : List Enumerator)
        (k : ℕ) (rest : List ℕ)
        → EnumeratorFits src v
        → length es + 1 < 2 ^ 64
        → Cursor src r mem (encode_enumerators place (v ∷ []) rest)
        → HasContent mem e (enumerators es) (suc k)
        → Returns
            (load_enum_field t (frame r mem (put_entry st t e)))
            (Filled mem e rest (enumerators (es ++ v ∷ [])) k)
    load_enum_field-Filled e v es k rest fits few c h =
        let (p, r', mem', run, named, x, c') =
          load_enum_field-Calls (put_entry st t e) t v rest fits c in
        let ((_, st'), run', (e', written, h', same)) =
          add_enum_field_type-HasContent (with_memory st mem') t e p v es k inside named
            (HasContent-Extends x (enumerators es) (suc k) h) (rw length-enumerator_names few) in
        (
          (tt, record { reader = r'; state = st' }),
          run ∙ rw run',
          (r', mem', e', ap (λ s. record { reader = r'; state = s }) written, x, c', h', same),
        )

    pub load_enum_fields-Filled :
        {r : Reader} {mem : Memory} (e : TypeInfoInternal) (done es : List Enumerator)
        (rest : List ℕ)
        → All src (EnumeratorFits src) es
        → length done + length es < 2 ^ 64
        → Cursor src r mem (encode_enumerators place es rest)
        → HasContent mem e (enumerators done) (length es)
        → Returns
            (load_enum_fields (length es) t (frame r mem (put_entry st t e)))
            (Filled mem e rest (enumerators (done ++ es)) 0)
    unfolding load_enum_fields
    load_enum_fields-Filled {r} {mem} e done [] rest fits few c h = (
      (tt, frame r mem (put_entry st t e)),
      refl,
      (r, mem, e, refl, Extends-refl mem, c, rw append-nil h, SameHeader-refl e),
    )
    load_enum_fields-Filled e done (v ∷ es) rest (fit, fits) few c h =
        let (_, run, (r₁, mem₁, e₁, is, x, c₁, h₁, same)) =
          load_enum_field-Filled e v done (length es) (encode_enumerators place es rest) fit
            (omega arith) c h in
        let (out, run', (r₂, mem₂, e₂, is', x', c₂, h₂, same')) =
          load_enum_fields-Filled {r = r₁} {mem = mem₁} e₁ (done ++ v ∷ []) es rest fits
            (omega (arith, length-append done (v ∷ []))) c₁ h₁ in
        (
          out,
          rw (run, is) run',
          (
            r₂,
            mem₂,
            e₂,
            is',
            Extends-trans x x',
            c₂,
            rw append_assoc at h₂,
            SameHeader-trans same same',
          ),
        )
