-- ===== src/Plugin/Visit.antt =====
-- The `Visit` methods of plugin/ReflectVisitor.cpp, and the fields of nested records. A loop over the
-- fields is recursion on their list, and a nested record takes a unit of fuel.
pub mod Ends
pub mod Register
pub mod Paths
use reflect_c.Base.{
  ℕ, zero, suc, ◌+◌, ◌-◌, ◌*◌, ◌/◌, ◌%◌, ◌^◌, ◌≤◌, ◌<◌, bit_xor, ◌≡◌, refl, sym, ap, ◌∙◌, fun_ext,
  subst, ◌≢◌, ◌↔◌, ◌⊎◌, inl, inr, Bool, true, false, ◌&&◌, ◌||◌, not, Option, none, some, List, [],
  ◌∷◌, ◌++◌, map, append_assoc, append-nil, arith, ltb, ◌==◌, if◌then◌else◌, ==_refl, eq-of_==,
  Bool-cases, Option-cases, ◌===◌, ===_refl, eq-of_===, ===_iff, lt_cases, lt→ltb, length,
  get_elem?, get_or, set, take, drop, replicate, length-append, length-set, length-replicate,
  length-drop, get_elem?-set, get_elem?-get_or, get_or-set, get_or-replicate, get_or-append,
  drop-nil, drop-drop, drop-append, set-append_length, get_or-append_self, set-set, IsIn,
  IsIn-append_left, IsIn-append_right, IsIn-append_cases, Fault, Run, or_fault, Returns, ◌>>=◌,
  Terminates, Terminates-ok, Terminates-bind, Terminates-suc, Terminates-pred, After, After-bind,
  After-if, After-any, After-ok, After-map, Settles, Settles-After, codes, starts_with, decimal, ok,
  fault, out_of_bounds, uninitialised, null_pointer, division_by_zero, wrong_member, trap_value,
  out_of_fuel, reached, stopped, first, later,
}
use reflect_c.Format.{Text}
use reflect_c.Plugin.Int.{ℤ}
use reflect_c.Plugin.Clang.{Clang}
use reflect_c.Plugin.Types.{
  TypeVariant, base, struct, union, BaseType, base_type, FieldInfo, RecordInfo, record_info,
  add_field, EnumInfo, enum_info, add_enumerator,
}
use reflect_c.Plugin.Field.{create_field_info}
use reflect_c.Plugin.Visitor.{
  BaseTypes, PendingAliases, Visitor, find, emplace, push_pending, merge_pending_aliases_for,
  register_base_type,
}

-- A field whose type is not that of a record, and its typedef, become base types.
abbrev size_of : Option BaseType → ℕ
size_of none = 0
size_of (some t) = t.size

unfoldable pub register_type : FieldInfo → Visitor → Visitor
register_type fi v = elim (find fi.type v.base_types) [
  | some _ ↦ v
  | none ↦ register_base_type fi.type 0 v
]

unfoldable pub register_alias : FieldInfo → Visitor → Visitor
register_alias fi v =
    if not (fi.alias === []) && not (fi.alias === fi.type)
    then elim (find fi.alias v.base_types) [
      | some _ ↦ v
      | none ↦ register_base_type fi.alias (size_of (find fi.type v.base_types)) v
    ]
    else v

unfoldable pub register_field : FieldInfo → Visitor → Visitor
unfolding register_type register_alias
register_field fi v = if fi.is_struct_or_union then v else register_alias fi (register_type fi v)

-- The prefix of what is inside a field: an anonymous field adds nothing.
abbrev pub next_prefix : Text → Text → Text
next_prefix prefix name = if name === [] then prefix else prefix ++ name ++ codes "."

abbrev pub or_skip {ℓ κ} : {A : Type ℓ} {B : Type κ} → Option A → B → (A → B) → B
or_skip none b f = b
or_skip (some a) b f = f a

-- `Results.push_back(record)` and the `emplace` after it.
abbrev pub push_record : RecordInfo → Visitor → Visitor
push_record r v = record v {
  results = v.results ++ r ∷ [];
  base_types = emplace r.base.name r.base v.base_types;
}

module _ (C : Clang) where
  -- The complete record that is the type of a field.
  unfoldable pub nested_record : C.FieldDecl → Option C.RecordDecl
  nested_record field = elim (C.get_as_record_type (C.get_type field)) [
    | none ↦ none
    | some rd ↦ if C.is_complete_definition rd then some rd else none
  ]

  -- `getFieldOffset(index) / 8`; the offset is a `uint64_t`.
  abbrev pub byte_offset : C.RecordDecl → ℕ → ℕ
  byte_offset rd index = C.get_field_offset rd index % 2 ^ 64 / 8

  -- The loop of `ReflectNestedFields` from the field `index` on.
  unfoldable pub nested_loop :
      ℕ → C.RecordDecl → List C.FieldDecl → ℕ → Text → ℕ → RecordInfo → Run RecordInfo
  nested_loop fuel nested_rd [] index prefix base_offset r = ok r
  nested_loop zero nested_rd (field ∷ fields) index prefix base_offset r = fault out_of_fuel
  nested_loop (suc fuel) nested_rd (field ∷ fields) index prefix base_offset r = do
    let offset = (base_offset + byte_offset nested_rd index) % 2 ^ 64
    let name = C.get_field_name field
    info ← create_field_info C fuel field (C.get_type field) offset
    let added = add_field r (record info { name = prefix ++ name })
    inner ←
        or_skip (nested_record field) (ok added)
          λ rd. nested_loop fuel rd (C.fields rd) 0 (next_prefix prefix name) offset added
    nested_loop (suc fuel) nested_rd fields (index + 1) prefix base_offset inner

  unfoldable pub reflect_nested_fields : ℕ → C.RecordDecl → Text → RecordInfo → ℕ → Run RecordInfo
  reflect_nested_fields fuel nested_rd prefix r base_offset =
      nested_loop fuel nested_rd (C.fields nested_rd) 0 prefix base_offset r

  -- The loop of `VisitRecordDecl` from the field `index` on.
  unfoldable pub field_loop :
      ℕ → C.RecordDecl → List C.FieldDecl → ℕ → RecordInfo → Visitor → Run (RecordInfo × Visitor)
  field_loop fuel rd [] index r v = ok (r, v)
  field_loop fuel rd (field ∷ fields) index r v = do
    let offset = byte_offset rd index
    fi ← create_field_info C fuel field (C.get_type field) offset
    inner ← or_skip (nested_record field) (ok (add_field r fi)) λ nested_rd.
        reflect_nested_fields fuel nested_rd (next_prefix [] (C.get_field_name field))
          (add_field r fi) offset
    field_loop fuel rd fields (index + 1) inner (register_field fi v)

  -- The name of a declaration, or of the typedef that names it.
  unfoldable pub name_of_record : C.RecordDecl → Option Text
  name_of_record rd =
      if C.get_name rd === [] then C.get_typedef_name_for_anon_decl rd else some (C.get_name rd)

  abbrev pub variant_of : C.RecordDecl → TypeVariant
  variant_of rd = if C.is_struct rd then struct else union

  -- The record before its fields, with the aliases that were pending, and the visitor then.
  abbrev pub start_record : C.RecordDecl → Text → Visitor → RecordInfo × Visitor
  start_record rd name v =
      let fresh = record_info (variant_of rd) name (C.get_size rd) v.next_type_id in
      let (merged, pending) =
        merge_pending_aliases_for v.pending_aliases (C.get_canonical_decl rd) fresh.base in
      (
        record { base = merged; fields = []; rd = some (C.get_canonical_decl rd) },
        record v { next_type_id = v.next_type_id + 1; pending_aliases = pending },
      )

  unfoldable pub visit_named_record : ℕ → C.RecordDecl → Text → Visitor → Run Visitor
  visit_named_record fuel rd name v =
      let (fresh, started) = start_record rd name v in
      field_loop fuel rd (C.fields rd) 0 fresh started >>= λ (r, v'). ok (push_record r v')

  unfoldable pub visit_record_decl : ℕ → C.RecordDecl → Visitor → Run Visitor
  visit_record_decl fuel rd v =
      if C.is_complete_definition rd
      then or_skip (name_of_record rd) (ok v) (λ name. visit_named_record fuel rd name v)
      else ok v

  abbrev pub name_of_enum : C.EnumDecl → Text
  name_of_enum ed =
      if C.get_enum_name ed === []
      then or_skip (C.get_typedef_name_for_anon_enum ed) [] (λ name. name)
      else C.get_enum_name ed

  abbrev add_enumerators : List (Text × ℤ) → EnumInfo → EnumInfo
  add_enumerators [] en = en
  add_enumerators ((name, value) ∷ es) en = add_enumerators es (add_enumerator en name value)

  abbrev visit_named_enum : C.EnumDecl → Text → Visitor → Visitor
  visit_named_enum ed name v =
      let canonical = C.get_canonical_enum ed in
      let fresh = enum_info canonical name (C.get_type_size_in_chars ed) v.next_type_id in
      let (merged, pending) = merge_pending_aliases_for v.pending_aliases canonical fresh.base in
      let en = add_enumerators (C.enumerators ed) (record fresh { base = merged }) in
      record v {
        next_type_id = v.next_type_id + 1;
        pending_aliases = pending;
        enum_results = v.enum_results ++ en ∷ [];
        base_types = emplace name en.base v.base_types;
      }

  unfoldable pub visit_enum_decl : C.EnumDecl → Visitor → Visitor
  visit_enum_decl ed v =
      if C.enum_is_complete_definition ed && not (name_of_enum ed === [])
      then visit_named_enum ed (name_of_enum ed) v
      else v

  unfoldable pub visit_typedef_decl : C.TypedefDecl → Visitor → Visitor
  visit_typedef_decl td v =
      let canon = C.get_canonical_type (C.get_underlying_type td) in
      elim (C.get_as_tag_type canon) [
        | some tag ↦ record v {
          pending_aliases = push_pending tag (C.get_typedef_name td) v.pending_aliases;
        }
        | none ↦ v
      ]
