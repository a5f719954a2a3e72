-- ===== src/Owned/Steps.antt =====
-- The steps and the loops of the loader, and the whole load, in copy mode.
use reflect_c.Base.{
  ℕ, zero, suc, ◌+◌, ◌*◌, ◌/◌, ◌%◌, ◌^◌, ◌≤◌, refl, true, Option, none, some, arith, length,
  get_or-replicate, Run, After, After-map, ok, fault, reached, stopped,
}
use reflect_c.Memory.{Memory, CharPtr}
use reflect_c.Types.{
  ReflectObjType, base, struct, union, enum, variant_of, TypePtr, State, initial, TypeInfoInternal,
}
use reflect_c.Load.{
  load_struct_field, load_struct_fields, load_enum_field, load_enum_fields, load_aliases,
  load_members, load_composite, load_body, load_type, load_types, create_tables, load_file,
  start_frame, end_state, reflect_load_bytes,
}
use reflect_c.Load.Monad.{Frame}
use reflect_c.Owned.{StateOwned, FrameOwned}
use reflect_c.Owned.Tables.{hashtable_create-TableOwned}
use reflect_c.Owned.Types.{
  ResultOwned, add_base_type_info-StateOwned, add_struct_type_info-StateOwned,
  add_enum_type_info-StateOwned, add_type_alias-StateOwned, add_struct_field_type-StateOwned,
  add_enum_field_type-StateOwned,
}
use reflect_c.Owned.Load.{
  Keeps, Any, bind-Keeps, pure-Keeps, byte-Keeps, bool-Keeps, uint32_t-Keeps, size_t-Keeps,
  string-Keeps, acting-Keeps, seek-Keeps,
}

module _ (lo : ℕ) where
  load_struct_fields-Keeps : (n : ℕ) (t : TypePtr) → Keeps lo (Any lo) (load_struct_fields n t)
  unfolding load_struct_fields load_struct_field
  load_struct_fields-Keeps zero t = pure-Keeps lo
  load_struct_fields-Keeps (suc n) t =
      bind-Keeps lo
        (bind-Keeps lo (string-Keeps lo) λ name owned. bind-Keeps lo (bool-Keeps lo) λ is_const u₁.
          bind-Keeps lo (uint32_t-Keeps lo) λ ptr_depth u₂.
            bind-Keeps lo (size_t-Keeps lo) λ offset u₃.
              bind-Keeps lo (size_t-Keeps lo) λ field_size u₄.
                bind-Keeps lo (size_t-Keeps lo) λ field_type u₅. acting-Keeps lo (
                  add_struct_field_type-StateOwned lo name owned t field_type field_size offset
                    ptr_depth is_const))
        λ done u. load_struct_fields-Keeps n t

  load_enum_fields-Keeps : (n : ℕ) (t : TypePtr) → Keeps lo (Any lo) (load_enum_fields n t)
  unfolding load_enum_fields load_enum_field
  load_enum_fields-Keeps zero t = pure-Keeps lo
  load_enum_fields-Keeps (suc n) t =
      bind-Keeps lo
        (bind-Keeps lo (string-Keeps lo) λ name owned.
          bind-Keeps lo (size_t-Keeps lo)
            λ value u. acting-Keeps lo (add_enum_field_type-StateOwned lo name owned t value))
        λ done u. load_enum_fields-Keeps n t

  load_aliases-Keeps : (n id : ℕ) → Keeps lo (Any lo) (load_aliases n id)
  unfolding load_aliases
  load_aliases-Keeps zero id = pure-Keeps lo
  load_aliases-Keeps (suc n) id = bind-Keeps lo (string-Keeps lo) λ name owned.
      bind-Keeps lo (acting-Keeps lo (add_type_alias-StateOwned lo name owned id))
        λ done u. load_aliases-Keeps n id

  load_members-Keeps :
      (variant : Option ReflectObjType) (name : CharPtr) (id size count : ℕ)
      → lo ≤ name.block
      → Keeps lo (Any lo) (load_members variant name id size count)
  unfolding load_members
  load_members-Keeps none name id size count owned = pure-Keeps lo
  load_members-Keeps (some base) name id size count owned = pure-Keeps lo
  load_members-Keeps (some struct) name id size count owned =
      bind-Keeps lo
        (acting-Keeps lo (add_struct_type_info-StateOwned lo name owned id size struct count))
        λ t u. load_struct_fields-Keeps count t
  load_members-Keeps (some union) name id size count owned =
      bind-Keeps lo
        (acting-Keeps lo (add_struct_type_info-StateOwned lo name owned id size union count))
        λ t u. load_struct_fields-Keeps count t
  load_members-Keeps (some enum) name id size count owned =
      bind-Keeps lo (acting-Keeps lo (add_enum_type_info-StateOwned lo name owned id size count))
        λ t u. load_enum_fields-Keeps count t

  load_composite-Keeps :
      (variant : Option ReflectObjType) (name : CharPtr) (id size : ℕ)
      → lo ≤ name.block
      → Keeps lo (Any lo) (load_composite variant name id size)
  unfolding load_composite
  load_composite-Keeps variant name id size owned = bind-Keeps lo (size_t-Keeps lo) λ count u₁.
      bind-Keeps lo (load_members-Keeps variant name id size count owned) λ done u₂.
        bind-Keeps lo (size_t-Keeps lo) λ alias_count u₃. load_aliases-Keeps alias_count id

  load_body-Keeps :
      (variant : Option ReflectObjType) (name : CharPtr) (id size : ℕ)
      → lo ≤ name.block
      → Keeps lo (Any lo) (load_body variant name id size)
  unfolding load_body
  load_body-Keeps none name id size owned = load_composite-Keeps none name id size owned
  load_body-Keeps (some base) name id size owned =
      bind-Keeps lo (acting-Keeps lo (add_base_type_info-StateOwned lo name owned id size))
        λ t u. pure-Keeps lo
  load_body-Keeps (some struct) name id size owned =
      load_composite-Keeps (some struct) name id size owned
  load_body-Keeps (some union) name id size owned =
      load_composite-Keeps (some union) name id size owned
  load_body-Keeps (some enum) name id size owned =
      load_composite-Keeps (some enum) name id size owned

  load_types-Keeps : (n : ℕ) → Keeps lo (Any lo) (load_types n)
  unfolding load_types load_type
  load_types-Keeps zero = pure-Keeps lo
  load_types-Keeps (suc n) =
      bind-Keeps lo
        (bind-Keeps lo (size_t-Keeps lo) λ id u₁. bind-Keeps lo (byte-Keeps lo) λ variant u₂.
          bind-Keeps lo (string-Keeps lo) λ name owned.
            bind-Keeps lo (size_t-Keeps lo)
              λ size u₃. load_body-Keeps (variant_of variant) name id size owned)
        λ done u. load_types-Keeps n

  create_tables-StateOwned :
      (n : ℕ) (st : State) → StateOwned lo st → After (ResultOwned lo) (create_tables n st)
  unfolding create_tables
  create_tables-StateOwned n st h = reached (record {
    entries = λ i.
        rw
          (get_or-replicate {A = Option TypeInfoInternal} (64 * ((n + 1) % 2 ^ 64) % 2 ^ 64 / 64) i
            none)
          tt;
    names = hashtable_create-TableOwned lo (n * 2 % 2 ^ 64);
    grown = h.grown;
  })

  load_file-Keeps : Keeps lo (Any lo) load_file
  unfolding load_file
  load_file-Keeps = bind-Keeps lo (size_t-Keeps lo) λ volume u₁.
      bind-Keeps lo (size_t-Keeps lo) λ table u₂. bind-Keeps lo (seek-Keeps lo table) λ done₁ u₃.
        bind-Keeps lo (size_t-Keeps lo) λ count u₄.
          bind-Keeps lo (acting-Keeps lo (create_tables-StateOwned count))
            λ done₂ u₅. load_types-Keeps count

end_state-After :
    {P : State → Type 0} (r : Run (Unit {0} × Frame))
    → After (λ (a, f). P f.state) r
    → After P (end_state r)
end_state-After (ok (a, f)) (reached h) = reached h
end_state-After (fault e) stopped = stopped

-- After a first load in copy mode the tables point at no block that memory had before.
pub reflect_load_bytes-StateOwned :
    (mem : Memory) (start : CharPtr)
    → After (StateOwned (length mem)) (reflect_load_bytes start true (initial mem))
unfolding reflect_load_bytes
reflect_load_bytes-StateOwned mem start =
    let owned : FrameOwned (length mem) (start_frame start true (initial mem)) = record {
      state = record { entries = λ i. tt; names = λ i. (tt, tt); grown = omega arith };
      copy = refl;
    } in
    end_state-After (load_file (start_frame start true (initial mem))) (
      After-map (λ (a, f) (u, h). h.state)
        ((load_file-Keeps (length mem)).after (start_frame start true (initial mem)) owned))
