-- ===== src/Owned/Types.antt =====
-- The functions that fill the type table, on tables and names that are owned.
use reflect_c.Base.{
  ℕ, ◌*◌, ◌/◌, ◌%◌, ◌^◌, ◌≤◌, Bool, Option, none, some, ltb, length, get_or, get_or-replicate,
  or_fault, After, After-bind, After-if, uninitialised, reached, stopped,
}
use reflect_c.Memory.{CharPtr}
use reflect_c.Hashtable.{HashT, Hashtable, hashtable_create}
use reflect_c.Types.{
  ReflectObjType, enum, base, FieldInfo, EnumFieldInfo, Members, null, struct_fields, enum_fields,
  TypePtr, State, TypeInfoInternal, malloc_array, get_internal_from_type_info, old_field_table,
  new_type, add_base_type_info, add_type_info, add_struct_type_info, add_enum_type_info,
  write_struct_field, write_enum_field, count_member, add_struct_field_type, add_enum_field_type,
  add_type_alias,
}
use reflect_c.Owned.{
  TableOwned, FieldOwned, EnumeratorOwned, MembersOwned, IndexOwned, EntryOwned, SlotOwned,
  StateOwned,
}
use reflect_c.Owned.Tables.{
  get_or-set_lem, get_elem?-get_or_lem, hashtable_insert-TableOwned, hashtable_create-TableOwned,
  put_entry-StateOwned, insert_type_name-StateOwned,
}

module _ (lo : ℕ) where
  or_fault-SlotOwned :
      (slot : Option TypeInfoInternal)
      → SlotOwned lo slot
      → After (EntryOwned lo) (or_fault uninitialised slot)
  or_fault-SlotOwned none h = stopped
  or_fault-SlotOwned (some e) h = reached h

  get_internal-EntryOwned :
      (st : State) (t : TypePtr)
      → StateOwned lo st
      → After (EntryOwned lo) (get_internal_from_type_info st t)
  unfolding get_internal_from_type_info
  get_internal-EntryOwned st t h =
      After-bind (get_elem?-get_or_lem lo (SlotOwned lo) st.type_table t none h.entries)
        λ slot hs. or_fault-SlotOwned slot hs

  old_field_table-IndexOwned :
      (slot : Option TypeInfoInternal) → SlotOwned lo slot → IndexOwned lo (old_field_table slot)
  old_field_table-IndexOwned none h = tt
  old_field_table-IndexOwned (some e) h = h.index

  or_fault-IndexOwned :
      (table : Option Hashtable)
      → IndexOwned lo table
      → After (TableOwned lo) (or_fault uninitialised table)
  or_fault-IndexOwned none h = stopped
  or_fault-IndexOwned (some ht) h = reached h

  abbrev pub ResultOwned {ℓ} : {A : Type ℓ} → A × State → Type 0
  ResultOwned (a, st) = StateOwned lo st

  malloc_array-FieldOwned :
      (size count i : ℕ) → FieldOwned lo (get_or (malloc_array size count) i none)
  malloc_array-FieldOwned size count i =
      rw (get_or-replicate {A = Option FieldInfo} (size * count % 2 ^ 64 / size) i none) tt

  malloc_array-EnumeratorOwned :
      (size count i : ℕ) → EnumeratorOwned lo (get_or (malloc_array size count) i none)
  malloc_array-EnumeratorOwned size count i =
      rw (get_or-replicate {A = Option EnumFieldInfo} (size * count % 2 ^ 64 / size) i none) tt

  module _ (name : CharPtr) (owned : lo ≤ name.block) where
    pub add_base_type_info-StateOwned :
        (id size : ℕ) (st : State)
        → StateOwned lo st
        → After ResultOwned (add_base_type_info name id size st)
    unfolding add_base_type_info
    add_base_type_info-StateOwned id size st h =
        After-bind (get_elem?-get_or_lem lo (SlotOwned lo) st.type_table id none h.entries)
          λ old ho.
            let entry : TypeInfoInternal = record {
              members = null;
              field_table = old_field_table old;
              type = new_type name id size base;
            } in
            let entry_owned : EntryOwned lo entry = record {
              name = owned;
              members = tt;
              index = old_field_table-IndexOwned old ho;
            } in
            After-bind
              (insert_type_name-StateOwned lo name id _ owned
                (put_entry-StateOwned lo st id entry h entry_owned))
              λ st' h'. reached h'

    add_type_info-StateOwned :
        (id size : ℕ) (variant : ReflectObjType) (count : ℕ) (members : Members) (st : State)
        → MembersOwned lo members
        → StateOwned lo st
        → After ResultOwned (add_type_info name id size variant count members st)
    add_type_info-StateOwned id size variant count members st hm h =
        After-bind (get_elem?-get_or_lem lo (SlotOwned lo) st.type_table id none h.entries)
          λ old ho.
            let entry : TypeInfoInternal = record {
              members = members;
              field_table = some (hashtable_create (count * 2 % 2 ^ 64));
              type = new_type name id size variant;
            } in
            let entry_owned : EntryOwned lo entry = record {
              name = owned;
              members = hm;
              index = hashtable_create-TableOwned lo (count * 2 % 2 ^ 64);
            } in
            After-bind
              (insert_type_name-StateOwned lo name id _ owned
                (put_entry-StateOwned lo st id entry h entry_owned))
              λ st' h'. reached h'

    pub add_struct_type_info-StateOwned :
        (id size : ℕ) (variant : ReflectObjType) (count : ℕ) (st : State)
        → StateOwned lo st
        → After ResultOwned (add_struct_type_info name id size variant count st)
    unfolding add_struct_type_info
    add_struct_type_info-StateOwned id size variant count st h =
        add_type_info-StateOwned id size variant count (struct_fields (malloc_array 40 count)) st
          (malloc_array-FieldOwned 40 count) h

    pub add_enum_type_info-StateOwned :
        (id size count : ℕ) (st : State)
        → StateOwned lo st
        → After ResultOwned (add_enum_type_info name id size count st)
    unfolding add_enum_type_info
    add_enum_type_info-StateOwned id size count st h =
        add_type_info-StateOwned id size enum count (enum_fields (malloc_array 16 count)) st
          (malloc_array-EnumeratorOwned 16 count) h

    pub add_type_alias-StateOwned :
        (id : ℕ) (st : State) → StateOwned lo st → After ResultOwned (add_type_alias id name st)
    unfolding add_type_alias
    add_type_alias-StateOwned id st h =
        After-bind (insert_type_name-StateOwned lo name id st owned h) λ st' h'. reached h'

    count_member-StateOwned :
        (st : State) (t : TypePtr) (entry : TypeInfoInternal) (members : Members)
        → StateOwned lo st
        → EntryOwned lo entry
        → MembersOwned lo members
        → After ResultOwned (count_member st t entry members name)
    count_member-StateOwned st t entry members h he hm =
        let value : HashT = record { name = some name; id = entry.type.field_count } in
        After-bind (or_fault-IndexOwned entry.field_table he.index) λ table ht.
          After-bind (hashtable_insert-TableOwned lo st.memory value owned table ht) λ table' ht'.
            reached (
              put_entry-StateOwned lo st t _ h
                (record { name = he.name; members = hm; index = ht' }))

    write_struct_field-MembersOwned :
        (members : Members) (i : ℕ) (info : FieldInfo)
        → lo ≤ info.name.block
        → MembersOwned lo members
        → After (MembersOwned lo) (write_struct_field members i info)
    unfolding write_struct_field
    write_struct_field-MembersOwned null i info ho h = stopped
    write_struct_field-MembersOwned (enum_fields slots) i info ho h = stopped
    write_struct_field-MembersOwned (struct_fields slots) i info ho h =
        After-bind
          (After-if (ltb i (length slots))
            (reached (get_or-set_lem lo (FieldOwned lo) slots i (some info) none h ho)) stopped)
          λ slots' hs. reached hs

    write_enum_field-MembersOwned :
        (members : Members) (i : ℕ) (info : EnumFieldInfo)
        → lo ≤ info.name.block
        → MembersOwned lo members
        → After (MembersOwned lo) (write_enum_field members i info)
    unfolding write_enum_field
    write_enum_field-MembersOwned null i info ho h = stopped
    write_enum_field-MembersOwned (struct_fields slots) i info ho h = stopped
    write_enum_field-MembersOwned (enum_fields slots) i info ho h =
        After-bind
          (After-if (ltb i (length slots))
            (reached (get_or-set_lem lo (EnumeratorOwned lo) slots i (some info) none h ho))
            stopped)
          λ slots' hs. reached hs

    pub add_struct_field_type-StateOwned :
        (t : TypePtr) (field_type size offset ptr_depth : ℕ) (is_const : Bool) (st : State)
        → StateOwned lo st
        → After ResultOwned
            (add_struct_field_type t name field_type size offset ptr_depth is_const st)
    unfolding add_struct_field_type
    add_struct_field_type-StateOwned t field_type size offset ptr_depth is_const st h =
        After-bind (get_internal-EntryOwned st t h) λ entry he.
          After-bind
            (write_struct_field-MembersOwned entry.members entry.type.field_count _ owned
              he.members)
            λ members hm. count_member-StateOwned st t entry members h he hm

    pub add_enum_field_type-StateOwned :
        (t : TypePtr) (value : ℕ) (st : State)
        → StateOwned lo st
        → After ResultOwned (add_enum_field_type t name value st)
    unfolding add_enum_field_type
    add_enum_field_type-StateOwned t value st h =
        After-bind (get_internal-EntryOwned st t h) λ entry he.
          After-bind
            (write_enum_field-MembersOwned entry.members entry.type.field_count _ owned he.members)
            λ members hm. count_member-StateOwned st t entry members h he hm
