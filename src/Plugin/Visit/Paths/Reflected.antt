-- ===== src/Plugin/Visit/Paths/Reflected.antt =====
-- The record that `VisitRecordDecl` appends to the results.
use reflect_c.Base.{
  ℕ, ◌<◌, ◌≡◌, refl, sym, ap, ◌∙◌, subst, ◌≢◌, inl, inr, Bool, true, false, Bool-cases, ◌===◌, some,
  List, [], ◌∷◌, ◌++◌, arith, Option-cases, get_elem?, IsIn, After, After-bind, Settles,
  Settles-After, reached,
}
use reflect_c.Format.{Text}
use reflect_c.Plugin.Clang.{Clang, IsFinite}
use reflect_c.Plugin.Types.{
  TypeVariant, struct, union, BaseType, FieldInfo, RecordInfo, record_info,
}
use reflect_c.Plugin.Visitor.{
  PendingAliases, Visitor, merge_pending_aliases_for, merge_aliases, find_pending,
}
use reflect_c.Plugin.Visit.{
  start_record, push_record, variant_of, visit_named_record, visit_record_decl, name_of_record,
}
use reflect_c.Plugin.Visit.Register.{Keeps, find-emplace_kept}
use reflect_c.Plugin.Visit.Ends.{visit_record_decl-Terminates}
use reflect_c.Plugin.Visit.Paths.{Stands, Found, FieldPath}
use reflect_c.Plugin.Visit.Paths.Loops.{Known, Known-Keeps, Fielded, field_loop-Fielded}

-- Only the aliases change.
merged_base :
    (pending : PendingAliases) (tag : ℕ) (t : BaseType)
    → (aliases : List Text) × ((merge_pending_aliases_for pending tag t).0
        ≡ record t { aliases = aliases })
unfolding merge_pending_aliases_for
merged_base pending tag t = elim (Option-cases (find_pending tag pending)) [
  | inl e ↦ (t.aliases, rw (merge_pending_aliases_for, e) refl)
  | inr (new, e) ↦ (merge_aliases new t.aliases, rw (merge_pending_aliases_for, e) refl)
]

push_record-Keeps : (r : RecordInfo) (v : Visitor) → Keeps v (push_record r v)
push_record-Keeps r v name t h = find-emplace_kept name r.base.name r.base t v.base_types h

-- Whether the declaration is a struct, or else a union.
pub data VariantIs : Bool → TypeVariant → Type 0 where
  struct_variant : VariantIs true struct
  union_variant : VariantIs false union

module _ (C : Clang) where
  -- The name of a declaration: its own, or that of the typedef that names it.
  pub data IsNameOf (rd : C.RecordDecl) (name : Text) : Type 0 where
    own_name : C.get_name rd ≡ name → name ≢ [] → IsNameOf rd name
    typedef_name :
        C.get_name rd ≡ [] → C.get_typedef_name_for_anon_decl rd ≡ some name → IsNameOf rd name

  IsNameOf-name_of_record :
      (rd : C.RecordDecl) (name : Text) → IsNameOf rd name → name_of_record C rd ≡ some name
  unfolding name_of_record ◌===◌
  IsNameOf-name_of_record rd name (typedef_name e named) = rw (name_of_record, e) named
  IsNameOf-name_of_record rd [] (own_name e some_char) = absurd (some_char refl)
  IsNameOf-name_of_record rd (c ∷ s) (own_name e some_char) = rw (name_of_record, e) refl

  variant_of-VariantIs : (rd : C.RecordDecl) → VariantIs (C.is_struct rd) (variant_of C rd)
  variant_of-VariantIs rd = elim (Bool-cases (C.is_struct rd)) [
    | inl e ↦ rw e struct_variant
    | inr e ↦ rw e union_variant
  ]

  -- What a visit to the record `rd` adds: its name, size, fields and those inside them.
  pub record Reflected (rd : C.RecordDecl) (name : Text) (v v' : Visitor) : Type 0 where
    pub r : RecordInfo
    pub appended : v'.results ≡ v.results ++ r ∷ []
    pub named : r.base.name ≡ name
    pub variant : VariantIs (C.is_struct rd) r.base.variant
    pub size : r.base.size ≡ C.get_size rd
    pub base_lem : r.base ≡ (start_record C rd name v).0.base
    pub pending : v'.pending_aliases ≡ (start_record C rd name v).1.pending_aliases
    pub decl : r.rd ≡ some (C.get_canonical_decl rd)
    pub id : r.base.type_id ≡ v.next_type_id
    pub id_lt : r.base.type_id < v'.next_type_id
    pub sound : (fi : FieldInfo) → IsIn fi r.fields → Stands C rd 0 (C.fields rd) [] 0 fi
    pub complete :
        (place : ℕ) (field : C.FieldDecl) (s : Text) (offset : ℕ) (target : C.FieldDecl)
        → get_elem? (C.fields rd) place ≡ some field
        → FieldPath C rd place field s offset target
        → Found r.fields s offset
    pub known :
        (place : ℕ) (field : C.FieldDecl)
        → get_elem? (C.fields rd) place ≡ some field
        → Known C rd place field r v'

  Fielded-Reflected :
      (rd : C.RecordDecl) (name : Text) (v : Visitor) (found : RecordInfo × Visitor)
      → Fielded C rd 0 (C.fields rd) (start_record C rd name v).0 (start_record C rd name v).1 found
      → Reflected rd name v (push_record found.0 found.1)
  Fielded-Reflected rd name v (r, v') h = record {
    r = r;
    appended = ap (λ rs. rs ++ r ∷ []) h.extends.results;
    named =
        ap (λ (x : RecordInfo). x.base.name) h.adds.grown ∙ ap (λ (t : BaseType). t.name) base.1;
    variant =
        subst (VariantIs (C.is_struct rd))
          (sym (
            ap (λ (x : RecordInfo). x.base.variant) h.adds.grown
            ∙ ap (λ (t : BaseType). t.variant) base.1))
          (variant_of-VariantIs rd);
    size = ap (λ (x : RecordInfo). x.base.size) h.adds.grown ∙ ap (λ (t : BaseType). t.size) base.1;
    base_lem = ap (λ (x : RecordInfo). x.base) h.adds.grown;
    pending = h.extends.pending_aliases;
    decl = ap (λ (x : RecordInfo). x.rd) h.adds.grown;
    id = id;
    id_lt = let le = h.extends.next_le in omega (arith, id);
    sound =
        λ fi isin. h.adds.sound fi (subst (λ (x : RecordInfo). IsIn fi x.fields) h.adds.grown isin);
    complete = λ place field s offset target at path.
        let (fi, isin, e, e') =
          h.adds.complete place field s offset target at
            (subst (λ i. FieldPath C rd i field s offset target) (omega arith) path) in
        (
          fi,
          subst (λ (x : RecordInfo). IsIn fi x.fields) (sym h.adds.grown) isin,
          e,
          e' ∙ omega arith,
        );
    known = λ place field at.
        Known-Keeps C rd place field r v' (push_record r v') (push_record-Keeps r v')
          (subst (λ i. Known C rd i field r v') (omega arith) (h.known place field at));
  }
    where
      base :
          (aliases : List Text) × ((start_record C rd name v).0.base
            ≡ record (record_info (variant_of C rd) name (C.get_size rd) v.next_type_id).base {
              aliases = aliases;
            })
      base =
          merged_base v.pending_aliases (C.get_canonical_decl rd)
            (record_info (variant_of C rd) name (C.get_size rd) v.next_type_id).base

      id : r.base.type_id ≡ v.next_type_id
      id =
          ap (λ (x : RecordInfo). x.base.type_id) h.adds.grown
          ∙ ap (λ (t : BaseType). t.type_id) base.1

  pub visit_named_record-Reflected :
      (fuel : ℕ) (rd : C.RecordDecl) (name : Text) (v : Visitor)
      → After (Reflected rd name v) (visit_named_record C fuel rd name v)
  unfolding visit_named_record
  visit_named_record-Reflected fuel rd name v =
      After-bind
        (field_loop-Fielded C fuel rd (C.fields rd) 0 (start_record C rd name v).0
          (start_record C rd name v).1)
        λ found h. reached (Fielded-Reflected rd name v found h)

  -- Where Clang's trees are finite, a visit to a complete record that has a name, its own or
  -- its typedef's, ends with one more record in the results: it has the name, the size and the
  -- address of the declaration, is a struct or a union as the declaration is, and has the id
  -- that was next; each of its fields stands for a path from a field of the declaration into
  -- the complete records that are the types of fields, with the dotted name of the path and the
  -- sum of Clang's offsets in bytes, modulo 2^64, and each such path has its field; and for
  -- each field of the declaration itself the name of its type, and of its typedef, is a key of
  -- the base types if the type is no record.
  pub visit_record_decl-Reflected :
      (rd : C.RecordDecl) (name : Text) (v : Visitor)
      → IsFinite C
      → C.is_complete_definition rd ≡ true
      → IsNameOf rd name
      → Settles (λ fuel. visit_record_decl C fuel rd v) (Reflected rd name v)
  unfolding visit_record_decl
  visit_record_decl-Reflected rd name v finite full named =
      Settles-After (visit_record_decl-Terminates C finite rd v) after
    where
      after : (fuel : ℕ) → After (Reflected rd name v) (visit_record_decl C fuel rd v)
      after fuel =
          rw (visit_record_decl, full, IsNameOf-name_of_record rd name named)
            (visit_named_record-Reflected fuel rd name v)
