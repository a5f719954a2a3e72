-- ===== src/Object/Fields.antt =====
-- The fields of an object.
use reflect_c.Base.{
  ℕ, ◌+◌, ◌%◌, ◌^◌, ◌≤◌, ◌<◌, ◌≡◌, refl, subst, ◌≢◌, inl, inr, Bool, false, Option, none, some,
  List, arith, ◌==◌, Option-cases, length, get_elem?, ok,
}
use reflect_c.Memory.{CharPtr}
use reflect_c.Memory.Strings.{text}
use reflect_c.Hashtable.{not_found}
use reflect_c.Format.{Text, FieldDesc, fields, composite, TypeDesc}
use reflect_c.Format.Names.{
  member_index, last_index-some, last_index-le, field_names, length-field_names,
  get_elem?-field_names, field_names-get_elem?,
}
use reflect_c.Types.{TypePtr, State}
use reflect_c.Types.Models.{Models}
use reflect_c.Query.Entries.{member_id-member_index}
use reflect_c.Query.Fields.{load_field-FieldMatches}
use reflect_c.Object.{
  Heap, reflect_get_type_info, field_address, reflect_get_field_manual, reflect_get_field,
}
use reflect_c.Object.Laws.{IsObject, reflect_get_type_info-IsObject}

module _ {st : State} {types : ℕ → Option TypeDesc} {names : Text → Option ℕ} {n : ℕ}
    (m : Models st types names n) (t : TypePtr) (d : TypeDesc) (u : Bool) (fs : List FieldDesc)
    (aliases : List Text) (listed : types t ≡ some d)
    (is : d.body ≡ composite (fields u fs) aliases) (name : CharPtr) where
  address_at :
      (ptr : ℕ) (k : Text) (j : ℕ) (g : FieldDesc)
      → text st.memory name ≡ some k
      → length fs < not_found
      → member_index (fields u fs) k ≡ some j
      → get_elem? fs j ≡ some g
      → field_address st ptr name t ≡ ok (some ((ptr + g.offset) % 2 ^ 64))
  unfolding field_address
  address_at ptr k j g named few found_at at =
      let (j', same, there, inside) = last_index-some 0 (field_names fs) k j found_at in
      let (info, run', matches) = load_field-FieldMatches m t d u fs aliases listed is j g at in
      let count = length-field_names fs in
      let id_run =
        member_id-member_index m t d (fields u fs) aliases listed is name k named (omega arith) in
      let small : (j == not_found) ≡ false = ground arith in
      rw (id_run, found_at) (rw (small, run', matches.offset))

  -- In tables that model a list of types, for an object of a listed struct or union and a
  -- string that is the name of its field number `i` (of fewer than 2^64 - 1 fields),
  -- `reflect_get_field`, and `reflect_get_field_manual` with that type, return the object's
  -- address plus the offset of field number `j`, wrapped to 64 bits, where `i ≤ j` and that
  -- field has the same name.
  pub reflect_get_field-offset :
      (heap : Heap) (ptr i : ℕ) (f : FieldDesc)
      → IsObject heap ptr t
      → get_elem? fs i ≡ some f
      → length fs < not_found
      → text st.memory name ≡ some f.name
      → (j : ℕ) × (g : FieldDesc) × (i ≤ j)
        × (get_elem? fs j ≡ some g)
        × (g.name ≡ f.name)
        × (reflect_get_field st heap (some ptr) name ≡ ok (some ((ptr + g.offset) % 2 ^ 64)))
        × (reflect_get_field_manual st (some ptr) name (some t)
            ≡ ok (some ((ptr + g.offset) % 2 ^ 64)))
  unfolding reflect_get_field reflect_get_field_manual field_address
  reflect_get_field-offset heap ptr i f object at few named =
      let (j, found_at, later) =
        last_index-le 0 (field_names fs) f.name i (field_names-get_elem? fs i f at) in
      let (j', same, at', inside) = last_index-some 0 (field_names fs) f.name j found_at in
      let there : get_elem? (field_names fs) j ≡ some f.name =
        subst (λ k. get_elem? (field_names fs) k ≡ some f.name) (omega arith) at' in
      let (g, at_g, named_g) = get_elem?-field_names fs j f.name there in
      let address = address_at ptr f.name j g named few found_at at_g in
      (
        j,
        g,
        omega arith,
        at_g,
        named_g,
        rw (reflect_get_type_info-IsObject object) address,
        address,
      )

  -- In tables that model a list of types, for an object of a listed struct or union with one or
  -- more fields, `reflect_get_field` of a string that is the name of none of them returns NULL.
  pub reflect_get_field_absent :
      (heap : Heap) (ptr : ℕ) (k : Text)
      → IsObject heap ptr t
      → text st.memory name ≡ some k
      → 0 < length fs
      → ((i : ℕ) → get_elem? (field_names fs) i ≢ some k)
      → reflect_get_field st heap (some ptr) name ≡ ok none
  unfolding reflect_get_field field_address
  reflect_get_field_absent heap ptr k object named some_field none_such =
      let count = length-field_names fs in
      let id_run =
        member_id-member_index m t d (fields u fs) aliases listed is name k named (omega arith) in
      rw (reflect_get_type_info-IsObject object) (rw (id_run, absent_index) refl)
    where
      absent_index : member_index (fields u fs) k ≡ none
      absent_index = elim (Option-cases (member_index (fields u fs) k)) [
        | inl e ↦ e
        | inr (j, e) ↦
            let (j', same, at, inside) = last_index-some 0 (field_names fs) k j e in
            absurd (none_such j' at)
      ]

-- Where `reflect_get_type_info` of a pointer returns, `reflect_get_field` of the pointer and
-- any name is the same as `reflect_get_field_manual` with the type that it returned, or with
-- NULL if it returned NULL.
pub reflect_get_field-manual :
    (st : State) (heap : Heap) (ptr : Option ℕ) (name : CharPtr) (type : Option TypePtr)
    → reflect_get_type_info heap ptr ≡ ok type
    → reflect_get_field st heap ptr name ≡ reflect_get_field_manual st ptr name type
unfolding reflect_get_field reflect_get_field_manual field_address
reflect_get_field-manual st heap none name type h = refl
reflect_get_field-manual st heap (some ptr) name none h = rw h refl
reflect_get_field-manual st heap (some ptr) name (some t) h = rw h refl
