-- ===== src/Types/Add.antt =====
-- `add_struct_field_type` and `add_enum_field_type` on an entry with members left to read.
use mathlib.Core.List.{map-append}
use mathlib.Core.Path.{ap₂}
use reflect_c.Base.{
  ℕ, suc, ◌+◌, ◌%◌, ◌^◌, ◌<◌, ◌≡◌, refl, sym, ap, ◌∙◌, inl, inr, Bool, none, some, List, [], ◌∷◌,
  ◌++◌, map, arith, ==_refl, lt→ltb, length, replicate, length-append, length-replicate,
  get_elem?-set, set-append_length, set-set, ◌>>=◌, Returns, ok,
}
use reflect_c.Memory.{CharPtr}
use reflect_c.Memory.Strings.{text}
use reflect_c.Hashtable.{HashT, Hashtable}
use reflect_c.Hashtable.Insert.{hashtable_insert-update}
use reflect_c.Format.{Text, FieldDesc, Enumerator, Content, fields, enumerators}
use reflect_c.Format.Names.{
  member_names, last_index-snoc, field_names, field_names-snoc, length-field_names,
  enumerator_names, enumerator_names-snoc, length-enumerator_names,
}
use reflect_c.Types.{
  FieldInfo, EnumFieldInfo, Members, struct_fields, enum_fields, TypeInfoInternal, State, TypePtr,
  put_entry, get_internal_from_type_info, write_slot, count_member, add_struct_field_type,
  add_enum_field_type, write_struct_field, write_enum_field,
}
use reflect_c.Types.Describes.{
  FieldMatches, EnumMatches, Matches-snoc, length-Matches, filled, IsIndex, IsFilled, HasContent,
  SameHeader,
}

pub get_internal-put_entry :
    (st : State) (t : TypePtr) (entry : TypeInfoInternal)
    → t < length st.type_table
    → get_internal_from_type_info (put_entry st t entry) t ≡ ok entry
unfolding get_internal_from_type_info
get_internal-put_entry st t entry h =
    rw (get_elem?-set st.type_table t t (some entry) h) (rw ==_refl)

pub put_entry-put_entry :
    (st : State) (t : TypePtr) (e e' : TypeInfoInternal)
    → put_entry (put_entry st t e) t e' ≡ put_entry st t e'
put_entry-put_entry st t e e' =
    ap (λ table. record st { type_table = table }) (set-set st.type_table t (some e) (some e'))

add_zero : (n : ℕ) → 0 + n ≡ n
add_zero n = omega arith

module _ {A : Type 0} where
  length-map-some : (infos : List A) → length (map some infos) ≡ length infos
  length-map-some [] = refl
  length-map-some (i ∷ infos) = ap suc (length-map-some infos)

  pub length-filled : (infos : List A) (k : ℕ) → length (filled infos k) ≡ length infos + k
  length-filled infos k =
      length-append (map some infos) (replicate k none)
      ∙ ap₂ (λ a b. a + b) (length-map-some infos) (length-replicate k none)

  -- The next member goes to the first empty slot, which is inside the array.
  write_slot-filled :
      (infos : List A) (k : ℕ) (a : A)
      → write_slot (filled infos (suc k)) (length infos) a ≡ ok (filled (infos ++ a ∷ []) k)
  write_slot-filled infos k a =
      let inside : length infos < length (filled infos (suc k)) =
        omega (arith, length-filled infos (suc k)) in
      rw (
        lt→ltb _ _ inside,
        ← length-map-some infos,
        set-append_length (map some infos) (replicate k none) none (some a),
        map-append,
      )

module _ {members : Members} {i : ℕ} (k : ℕ) where
  write_struct_field-filled :
      (infos : List FieldInfo) (info : FieldInfo)
      → members ≡ struct_fields (filled infos (suc k))
      → i ≡ length infos
      → write_struct_field members i info ≡ ok (struct_fields (filled (infos ++ info ∷ []) k))
  unfolding write_struct_field
  write_struct_field-filled infos info e n = rw (e, n, write_slot-filled infos k info)

  write_enum_field-filled :
      (infos : List EnumFieldInfo) (info : EnumFieldInfo)
      → members ≡ enum_fields (filled infos (suc k))
      → i ≡ length infos
      → write_enum_field members i info ≡ ok (enum_fields (filled (infos ++ info ∷ []) k))
  unfolding write_enum_field
  write_enum_field-filled infos info e n = rw (e, n, write_slot-filled infos k info)

-- An entry after one more member: only the members, the table and the count have changed.
abbrev extended : TypeInfoInternal → Members → Hashtable → TypeInfoInternal
extended entry members table = record {
  members = members;
  field_table = some table;
  type = record entry.type { field_count = entry.type.field_count + 1 };
}

module _ (st : State) (t : TypePtr) (entry : TypeInfoInternal) where
  -- The state after a member was added: only the entry has changed, and not its header.
  abbrev pub Extended : Content → ℕ → Unit {0} × State → Type 0
  Extended c k (_, st') =
      (entry' : TypeInfoInternal) × (st' ≡ put_entry st t entry')
      × HasContent st.memory entry' c k
      × SameHeader entry entry'

  count_member-IsIndex :
      (members : Members) (name : CharPtr) (n : Text) (names : List Text) (k : ℕ)
      → text st.memory name ≡ some n
      → IsIndex st.memory entry.field_table names (length names + suc k)
      → entry.type.field_count ≡ length names
      → length names + 1 < 2 ^ 64
      → Returns (count_member (put_entry st t entry) t entry members name) (λ (_, st').
        (table : Hashtable) × (st'
          ≡ put_entry (put_entry st t entry) t (extended entry members table))
        × IsIndex st.memory (some table) (names ++ n ∷ []) (length (names ++ n ∷ []) + k))
  count_member-IsIndex members name n names k named (ht, e, inl (none_left, _)) count fits =
      absurd (omega arith)
  count_member-IsIndex members name n names k named (ht, e, inr (pos, valid, reads)) count fits =
      let value : HashT = record { name = some name; id = entry.type.field_count } in
      let (table, run, (valid', kept, reads')) =
        hashtable_insert-update st.memory value n named ht valid in
      let small : (entry.type.field_count + 1) % 2 ^ 64 ≡ entry.type.field_count + 1 =
        omega arith in
      (
        (tt, put_entry (put_entry st t entry) t (extended entry members table)),
        rw (e, ◌>>=◌) (rw (run, small)),
        (
          table,
          refl,
          (
            table,
            refl,
            inr (
              omega (arith, length-append names (n ∷ [])),
              valid',
              λ q.
                  rw (last_index-snoc 0 names n q)
                    (reads' q ∙ rw (reads q, count, add_zero (length names))),
            ),
          ),
        ),
      )

  -- What the two functions share: the next member is counted and its name indexed.
  count_member-HasContent :
      (members' : Members) (name : CharPtr) (n : Text) (c c' : Content) (k : ℕ)
      → text st.memory name ≡ some n
      → HasContent st.memory entry c (suc k)
      → member_names c' ≡ member_names c ++ n ∷ []
      → IsFilled st.memory members' c' k
      → length (member_names c) + 1 < 2 ^ 64
      → Returns (count_member (put_entry st t entry) t entry members' name) (Extended c' k)
  count_member-HasContent members' name n c c' k named h snoc filled' fits =
      let ((_, st'), run, (table, written, index)) =
        count_member-IsIndex members' name n (member_names c) k named h.index h.count fits in
      (
        (tt, st'),
        run,
        (
          extended entry members' table,
          written ∙ put_entry-put_entry st t entry (extended entry members' table),
          record {
            members = filled';
            index = rw snoc index;
            count = rw snoc (omega (arith, h.count, length-append (member_names c) (n ∷ [])));
          },
          record { name = refl; id = refl; size = refl; variant = refl },
        ),
      )

  -- If the entry at an index of the type table has the fields `fs` and waits for one or more
  -- others (their number fits 64 bits), `add_struct_field_type` with the name and the data of a
  -- field returns a state in which that entry alone has changed: it has the fields `fs` and
  -- then the new one, its table of names leads to the last field of each name, its count is one
  -- higher, and it keeps name, id, size and variant.
  pub add_struct_field_type-HasContent :
      (name : CharPtr) (f : FieldDesc) (u : Bool) (fs : List FieldDesc) (k : ℕ)
      → t < length st.type_table
      → text st.memory name ≡ some f.name
      → HasContent st.memory entry (fields u fs) (suc k)
      → length (field_names fs) + 1 < 2 ^ 64
      → Returns
          (add_struct_field_type t name f.type_id f.arr_size f.offset f.ptr_depth f.is_const
            (put_entry st t entry))
          (Extended (fields u (fs ++ f ∷ [])) k)
  unfolding add_struct_field_type
  add_struct_field_type-HasContent name f u fs k inside named h fits =
      let (infos, e, m) = h.members in
      let info : FieldInfo = record {
        name = name;
        type_ptr = f.type_id;
        arr_size = f.arr_size;
        offset = f.offset;
        ptr_depth = f.ptr_depth;
        is_const = f.is_const;
      } in
      let match : FieldMatches st.memory info f = record {
        name = named;
        is_const = refl;
        ptr_depth = refl;
        offset = refl;
        arr_size = refl;
        type_ptr = refl;
      } in
      let (out, run, grown) =
        count_member-HasContent (struct_fields (filled (infos ++ info ∷ []) k)) name f.name
          (fields u fs) (fields u (fs ++ f ∷ [])) k named h (field_names-snoc fs f)
          (infos ++ info ∷ [], refl, Matches-snoc m match) fits in
      let written =
        write_struct_field-filled k infos info e
          (h.count ∙ length-field_names fs ∙ sym (length-Matches m)) in
      (out, rw (get_internal-put_entry st t entry inside, written) run, grown)

  -- If the entry at an index of the type table has the enumerators `es` and waits for one or
  -- more others (their number fits 64 bits), `add_enum_field_type` with a name and a value
  -- returns a state in which that entry alone has changed: it has the enumerators `es` and then
  -- the new one, its table of names leads to the last one of each name, its count is one
  -- higher, and it keeps name, id, size and variant.
  pub add_enum_field_type-HasContent :
      (name : CharPtr) (e : Enumerator) (es : List Enumerator) (k : ℕ)
      → t < length st.type_table
      → text st.memory name ≡ some e.name
      → HasContent st.memory entry (enumerators es) (suc k)
      → length (enumerator_names es) + 1 < 2 ^ 64
      → Returns
          (add_enum_field_type t name e.value (put_entry st t entry))
          (Extended (enumerators (es ++ e ∷ [])) k)
  unfolding add_enum_field_type
  add_enum_field_type-HasContent name e es k inside named h fits =
      let (infos, held, m) = h.members in
      let info : EnumFieldInfo = record { name = name; value = e.value } in
      let match : EnumMatches st.memory info e = record { name = named; value = refl } in
      let (out, run, grown) =
        count_member-HasContent (enum_fields (filled (infos ++ info ∷ []) k)) name e.name
          (enumerators es) (enumerators (es ++ e ∷ [])) k named h (enumerator_names-snoc es e)
          (infos ++ info ∷ [], refl, Matches-snoc m match) fits in
      let written =
        write_enum_field-filled k infos info held
          (h.count ∙ length-enumerator_names es ∙ sym (length-Matches m)) in
      (out, rw (get_internal-put_entry st t entry inside, written) run, grown)
