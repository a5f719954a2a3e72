-- ===== src/Plugin/Visit/Paths/Nested.antt =====
-- The fields that one field leads to, with their names and offsets.
use reflect_c.Base.{
  ℕ, suc, ◌+◌, ◌%◌, ◌^◌, ◌≡◌, refl, sym, ap, ◌∙◌, subst, true, inl, inr, some, List, [], ◌∷◌, ◌++◌,
  append_assoc, append-nil, arith, Bool-cases, Option-cases, ◌===◌, After, After-bind, After-any,
  codes, reached,
}
use reflect_c.Format.{Text}
use reflect_c.Plugin.Clang.{Clang}
use reflect_c.Plugin.Types.{FieldInfo, RecordInfo}
use reflect_c.Plugin.Field.{create_field_info, described, name_type, peel, alias_name}
use reflect_c.Plugin.Visit.{nested_record, byte_offset, next_prefix}
use reflect_c.Plugin.Visit.Paths.{Enters, joined, FieldPath, inside, Stands, Adds}

module _ (C : Clang) where
  -- `nested_record` finds the record that a field leads into.
  pub nested_record-Enters :
      (f : C.FieldDecl) (nested : C.RecordDecl)
      → nested_record C f ≡ some nested
      → Enters C f nested
  unfolding nested_record
  nested_record-Enters f nested h = elim (Option-cases (C.get_as_record_type (C.get_type f))) [
    | inl e ↦ let t = rw (nested_record, e) at h in cc t
    | inr (n, e) ↦ elim (Bool-cases (C.is_complete_definition n)) [
      | inl full ↦
          let t : some n ≡ some nested = rw (nested_record, e, full) at h in
          let same : n ≡ nested = cc in
          (e ∙ t, subst (λ r. C.is_complete_definition r ≡ true) same full)
      | inr no_def ↦ let t = rw (nested_record, e, no_def) at h in cc t
    ]
  ]

  pub Enters-nested_record :
      (f : C.FieldDecl) (nested : C.RecordDecl)
      → Enters C f nested
      → nested_record C f ≡ some nested
  unfolding nested_record
  Enters-nested_record f nested (typed, full) = rw (nested_record, typed, full) refl

  name_type-offset :
      (t : C.QualType) (info : FieldInfo)
      → ((name_type C t info).offset ≡ info.offset) × ((name_type C t info).name ≡ info.name)
  unfolding name_type
  name_type-offset t info = elim (Bool-cases (C.is_record_type t)) [
    | inr other ↦ (rw (name_type, other) refl, rw (name_type, other) refl)
    | inl is ↦ elim (Option-cases (C.get_as_record_type t)) [
      | inl e ↦ (rw (name_type, is, e) refl, rw (name_type, is, e) refl)
      | inr (rd, e) ↦ (rw (name_type, is, e) refl, rw (name_type, is, e) refl)
    ]
  ]

  abbrev pub Created : C.FieldDecl → ℕ → FieldInfo → Type 0
  Created field offset fi = (fi.offset ≡ offset) × (fi.name ≡ C.get_field_name field)

  pub create_field_info-Created :
      (fuel : ℕ) (field : C.FieldDecl) (t : C.QualType) (offset : ℕ)
      → After (Created field offset) (create_field_info C fuel field t offset)
  unfolding create_field_info
  create_field_info-Created fuel field t offset =
      After-bind (After-any (alias_name C fuel (C.get_type_loc field))) λ alias u.
        After-bind (After-any (peel C fuel (C.get_desugared_type t)))
          λ peeled u'. reached (name_type-offset _ (described C field offset alias peeled))

  -- Nothing to add, and what is added after something else.
  pub Adds-nil :
      (rd : C.RecordDecl) (index : ℕ) (prefix : Text) (base : ℕ) (r : RecordInfo)
      → Adds C rd index [] prefix base r r
  Adds-nil rd index prefix base r = record {
    added = [];
    grown = ap (λ fs. record r { fields = fs }) (sym (append-nil r.fields));
    sound = λ fi h. elim h [ ];
    complete = λ place field name offset target at path. cc at;
  }

  pub Stands-later :
      {rd : C.RecordDecl} {index : ℕ} {f : C.FieldDecl} {fields : List C.FieldDecl} {prefix : Text}
      {base : ℕ} {fi : FieldInfo}
      → Stands C rd (index + 1) fields prefix base fi
      → Stands C rd index (f ∷ fields) prefix base fi
  Stands-later {rd} {index} h = record {
    place = suc h.place;
    field = h.field;
    at = h.at;
    name = h.name;
    offset = h.offset;
    target = h.target;
    path = subst (λ i. FieldPath C rd i h.field h.name h.offset h.target) (omega arith) h.path;
    named = h.named;
    offset_lem = h.offset_lem;
  }

  -- The names and the offsets of what is inside a field.
  pub joined-next_prefix :
      (prefix name s : Text) → next_prefix prefix name ++ s ≡ prefix ++ joined name s
  joined-next_prefix prefix name s = elim (Bool-cases (name === [])) [
    | inl anonymous ↦ rw anonymous refl
    | inr named ↦ rw named (
        append_assoc (prefix ++ name) (codes ".") s
        ∙ append_assoc prefix name (codes "." ++ s)
        ∙ ap (λ q. prefix ++ q) (sym (append_assoc name (codes ".") s)))
  ]

  -- What is added from inside field `f`.
  pub Stands-inside :
      {rd nested : C.RecordDecl} {index : ℕ} {f : C.FieldDecl} {fields : List C.FieldDecl}
      {prefix : Text} {base offset : ℕ} {fi : FieldInfo}
      → nested_record C f ≡ some nested
      → offset % 2 ^ 64 ≡ (base + byte_offset C rd index) % 2 ^ 64
      → Stands C nested 0 (C.fields nested) (next_prefix prefix (C.get_field_name f)) offset fi
      → Stands C rd index (f ∷ fields) prefix base fi
  Stands-inside {rd} {nested} {index} {f} {prefix} is at_base h = record {
    place = 0;
    field = f;
    at = refl;
    name = joined (C.get_field_name f) h.name;
    offset = byte_offset C rd index + h.offset;
    target = h.target;
    path =
        subst
          (λ i.
            FieldPath C rd i f (joined (C.get_field_name f) h.name)
              (byte_offset C rd index + h.offset) h.target)
          (omega arith)
          (inside (nested_record-Enters f nested is) h.at (
            subst (λ i. FieldPath C nested i h.field h.name h.offset h.target) (omega arith)
              h.path));
    named = h.named ∙ joined-next_prefix prefix (C.get_field_name f) h.name;
    offset_lem = omega (arith, h.offset_lem, at_base);
  }
