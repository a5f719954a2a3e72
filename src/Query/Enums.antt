-- ===== src/Query/Enums.antt =====
-- Enumerators of a loaded enum, and the guards that keep other types out.
use reflect_c.Base.{
  ◌*◌, ltb, fault, out_of_bounds, ℕ, ◌≤◌, ◌<◌, ◌≡◌, refl, ap, ◌∙◌, subst, Bool, true, false, Option,
  none, some, List, arith, ◌==◌, length, get_elem?, ◌>>=◌, Returns, ok,
}
use reflect_c.Memory.{CharPtr}
use reflect_c.Memory.Strings.{text}
use reflect_c.Hashtable.{not_found}
use reflect_c.Format.{Text, Enumerator, fields, enumerators, Body, base, composite, TypeDesc}
use reflect_c.Format.Names.{
  member_index, last_index-some, last_index-le, enumerator_names, length-enumerator_names,
  get_elem?-enumerator_names, enumerator_names-get_elem?,
}
use reflect_c.Types.{
  TypePtr, Members, enum_fields, EnumFieldInfo, State, get_internal_from_type_info,
}
use reflect_c.Types.Describes.{EnumMatches, length-Matches, filled, body_variant}
use reflect_c.Types.Add.{length-filled}
use reflect_c.Types.Models.{Models}
use reflect_c.Query.{
  reflect_field_info_iter_end, is_enum, enumerator_at, load_enumerator, get_enum_value,
  reflect_get_enum_value, reflect_enum_info_iter_begin, reflect_enum_info_iter_end,
}
use reflect_c.Query.Entries.{
  get_internal-Describes, get_internal-HasContent, member_id-member_index,
}
use reflect_c.Query.Fields.{member, Matches-get_elem?, get_elem?-filled}

enumerator_at-filled :
    {members : Members} (infos : List EnumFieldInfo) (i : ℕ) (info : EnumFieldInfo)
    → members ≡ enum_fields (filled infos 0)
    → get_elem? infos i ≡ some info
    → enumerator_at members i ≡ ok info
enumerator_at-filled infos i info held at = rw held (rw (get_elem?-filled infos i info at))

abbrev pub is_enum_body : Body → Bool
is_enum_body base = false
is_enum_body (composite (fields u fs) aliases) = false
is_enum_body (composite (enumerators es) aliases) = true

is_enum-body_variant : (b : Body) → is_enum (body_variant b) ≡ is_enum_body b
is_enum-body_variant base = refl
is_enum-body_variant (composite (fields true fs) aliases) = refl
is_enum-body_variant (composite (fields false fs) aliases) = refl
is_enum-body_variant (composite (enumerators es) aliases) = refl

module _ {st : State} {types : ℕ → Option TypeDesc} {names : Text → Option ℕ} {n : ℕ}
    (m : Models st types names n) (t : TypePtr) (d : TypeDesc) (listed : types t ≡ some d) where
  -- In tables that model a list of types, on a listed type that is no enum
  -- `reflect_get_enum_value`, `reflect_enum_info_iter_begin` and `reflect_enum_info_iter_end`
  -- all return NULL, for any name.
  pub enum_queries_guarded :
      (name : CharPtr)
      → is_enum_body d.body ≡ false
      → (reflect_get_enum_value st (some t) name ≡ ok none)
        × (reflect_enum_info_iter_begin st (some t) ≡ ok none)
        × (reflect_enum_info_iter_end st (some t) ≡ ok none)
  unfolding reflect_get_enum_value reflect_enum_info_iter_begin reflect_enum_info_iter_end
  enum_queries_guarded name other =
      let (e, run, h) = get_internal-Describes m t d listed in
      let no_enum : is_enum e.type.variant ≡ false =
        ap is_enum h.header.variant_lem ∙ is_enum-body_variant d.body ∙ other in
      (rw (run, ◌>>=◌) (rw no_enum), rw (run, ◌>>=◌) (rw no_enum), rw (run, ◌>>=◌) (rw no_enum))

  module _ (es : List Enumerator) (aliases : List Text)
      (is : d.body ≡ composite (enumerators es) aliases) where
    -- In tables that model a list of types, on a listed enum with one or more enumerators,
    -- `reflect_field_info_iter_end` steps 40 bytes for each over an array of 16 bytes for each,
    -- and so out of the array; `reflect_enum_info_iter_end` points right behind the last
    -- enumerator.
    pub iter_end-out_of_bounds :
        0 < length es
        → (reflect_field_info_iter_end st (some t) ≡ fault out_of_bounds)
          × (reflect_enum_info_iter_end st (some t) ≡ ok (some (member t (length es))))
    unfolding reflect_field_info_iter_end reflect_enum_info_iter_end
    iter_end-out_of_bounds some_enumerator =
        let (e, run, (described, h)) =
          get_internal-HasContent m t d (enumerators es) aliases listed is in
        let (infos, held, match) = h.members in
        let wide = length-filled infos 0 in
        let many = length-Matches match in
        let count = h.count ∙ length-enumerator_names es in
        let past : ltb (16 * length (filled infos 0)) (40 * e.type.field_count) ≡ true =
          ground arith in
        let an_enum : is_enum e.type.variant ≡ true =
          ap is_enum described.header.variant_lem
          ∙ is_enum-body_variant d.body
          ∙ ap is_enum_body is in
        (
          rw (run, ◌>>=◌, held, past) refl,
          rw (run, ◌>>=◌, an_enum, held) (ap (λ k. ok (some (member t k))) count),
        )

    -- In tables that model a list of types, reading through a pointer to enumerator number `i`
    -- of a listed enum, where it has one, gives the name and the value that the file lists
    -- there.
    pub load_enumerator-EnumMatches :
        (i : ℕ) (v : Enumerator)
        → get_elem? es i ≡ some v
        → Returns (load_enumerator st (member t i)) (λ info. EnumMatches st.memory info v)
    unfolding load_enumerator
    load_enumerator-EnumMatches i v at =
        let (e, run, (described, h)) =
          get_internal-HasContent m t d (enumerators es) aliases listed is in
        let (infos, held, match) = h.members in
        let (info, at', matches) = Matches-get_elem? i v match at in
        (info, rw run (enumerator_at-filled infos i info held at'), matches)

    enum_entry : Returns (get_internal_from_type_info st t) (λ e. is_enum e.type.variant ≡ true)
    enum_entry =
        let (e, run, h) = get_internal-Describes m t d listed in
        (e, run, ap is_enum h.header.variant_lem ∙ is_enum-body_variant d.body ∙ ap is_enum_body is)

    value_at :
        (name : CharPtr) (k : Text) (j : ℕ) (v : Enumerator)
        → text st.memory name ≡ some k
        → length es < not_found
        → member_index (enumerators es) k ≡ some j
        → get_elem? es j ≡ some v
        → get_enum_value st t name ≡ ok (some v.value)
    unfolding get_enum_value
    value_at name k j v named few found_at at =
        let (j', same, there, inside) = last_index-some 0 (enumerator_names es) k j found_at in
        let (info, run', matches) = load_enumerator-EnumMatches j v at in
        let count = length-enumerator_names es in
        let id_run =
          member_id-member_index m t d (enumerators es) aliases listed is name k named
            (omega arith) in
        let small : (j == not_found) ≡ false = ground arith in
        rw (id_run, found_at) (rw (small, run', matches.value))

    -- The name of an enumerator leads to its value, or to that of a later one of the same name.
    pub reflect_get_enum_value-value :
        (i : ℕ) (v : Enumerator) (name : CharPtr)
        → get_elem? es i ≡ some v
        → length es < not_found
        → text st.memory name ≡ some v.name
        → (j : ℕ) × (w : Enumerator) × (i ≤ j)
          × (get_elem? es j ≡ some w)
          × (w.name ≡ v.name)
          × (reflect_get_enum_value st (some t) name ≡ ok (some w.value))
    unfolding reflect_get_enum_value
    reflect_get_enum_value-value i v name at few named =
        let (e, run, yes_enum) = enum_entry in
        let (j, found_at, later) =
          last_index-le 0 (enumerator_names es) v.name i (enumerator_names-get_elem? es i v at) in
        let (j', same, at', inside) = last_index-some 0 (enumerator_names es) v.name j found_at in
        let there : get_elem? (enumerator_names es) j ≡ some v.name =
          subst (λ k. get_elem? (enumerator_names es) k ≡ some v.name) (omega arith) at' in
        let (w, at_w, named_w) = get_elem?-enumerator_names es j v.name there in
        (
          j,
          w,
          omega arith,
          at_w,
          named_w,
          rw (run, ◌>>=◌) (rw yes_enum (value_at name v.name j w named few found_at at_w)),
        )
