-- ===== src/Types/Register.antt =====
-- `add_base_type_info`, `add_struct_type_info`, `add_enum_type_info` and `add_type_alias`: a new
-- entry in the type table, and its name in the hash table of types.
use reflect_c.Base.{
  ℕ, ◌+◌, ◌*◌, ◌/◌, ◌%◌, ◌^◌, ◌<◌, ◌≡◌, refl, ◌∙◌, inl, inr, Bool, Option, none, some, [], arith,
  lt_cases, length, get_or, get_elem?-get_or, Returns,
}
use reflect_c.Memory.{Memory, CharPtr}
use reflect_c.Memory.Strings.{text, Extends}
use reflect_c.Hashtable.{HashT, Hashtable, hashtable_create}
use reflect_c.Hashtable.View
use reflect_c.Hashtable.View.{
  view, view-Extends, IsValid-Extends, hashtable_create-IsValid, view-hashtable_create,
}
use reflect_c.Hashtable.Insert.{update, hashtable_insert-update}
use reflect_c.Format.{Text, Content, fields, enumerators}
use reflect_c.Format.Names.{member_names, last_index}
use reflect_c.Types.{
  base, Members, null, struct_fields, enum_fields, TypeInfoInternal, State, TypePtr, put_entry,
  insert_type_name, malloc_array, new_type, old_field_table, add_type_info, add_base_type_info,
  add_struct_type_info, add_enum_type_info, add_type_alias,
}
use reflect_c.Types.Describes.{
  nil, IsIndex, IsFilled, HasContent, HasHeader, content_variant, field_variant,
}

-- A hash table that stands for a map.
abbrev pub Names : Memory → Hashtable → (Text → Option ℕ) → Type 0
Names mem ht f = View.IsValid mem ht × ((q : Text) → view mem ht q ≡ f q)

pub Names-Extends :
    {mem mem' : Memory}
    → Extends mem mem'
    → (ht : Hashtable) (f : Text → Option ℕ) → Names mem ht f
    → Names mem' ht f
Names-Extends x ht f (valid, reads) =
    (IsValid-Extends x valid, λ q. view-Extends x ht q valid ∙ reads q)

abbrev pub with_names : State → Hashtable → State
with_names st ht = record st { type_hash_table = ht }

-- A name is registered: nothing but the hash table of types changes.
pub insert_type_name-Names :
    (name : CharPtr) (n : Text) (id : ℕ) (st : State) (f : Text → Option ℕ)
    → text st.memory name ≡ some n
    → Names st.memory st.type_hash_table f
    → Returns
        (insert_type_name name id st)
        (λ st'. (ht : Hashtable) × (st' ≡ with_names st ht) × Names st.memory ht (update f n id))
insert_type_name-Names name n id st f named (valid, reads) =
    let value : HashT = record { name = some name; id = id } in
    let (ht, run, (valid', kept, reads')) =
      hashtable_insert-update st.memory value n named st.type_hash_table valid in
    (with_names st ht, rw run, (ht, refl, (valid', λ q. reads' q ∙ rw (reads q))))

-- For an alias that is a string in memory, `add_type_alias` changes the map of names at that
-- alias alone, to the id of its type, and changes nothing else.
pub add_type_alias-Names :
    (name : CharPtr) (n : Text) (id : ℕ) (st : State) (f : Text → Option ℕ)
    → text st.memory name ≡ some n
    → Names st.memory st.type_hash_table f
    → Returns (add_type_alias id name st) (λ (_, st').
      (ht : Hashtable) × (st' ≡ with_names st ht) × Names st.memory ht (update f n id))
unfolding add_type_alias
add_type_alias-Names name n id st f named names =
    let (st', run, kept) = insert_type_name-Names name n id st f named names in
    ((tt, st'), rw run, kept)

-- The arrays and the table of `n` members fit into memory.
abbrev pub CountFits : ℕ → Type 0
CountFits n = n * 48 < 2 ^ 64

new-IsIndex :
    (mem : Memory) (n : ℕ)
    → CountFits n
    → IsIndex mem (some (hashtable_create (n * 2 % 2 ^ 64))) [] n
unfolding hashtable_create last_index
new-IsIndex mem n fits =
    let e : n * 2 % 2 ^ 64 ≡ n * 2 = omega arith in
    elim (lt_cases 0 n) [
      | inr empty ↦ (hashtable_create (n * 2 % 2 ^ 64), refl, inl (omega arith, omega arith))
      | inl some_left ↦ (
        hashtable_create (n * 2 % 2 ^ 64),
        refl,
        rw e (
            inr (
              some_left,
              hashtable_create-IsValid mem (n * 2) (omega arith) (omega arith),
              λ q. view-hashtable_create mem (n * 2) q (omega arith),
            )),
      )
    ]

-- The state after a type was added that waits for its members.
abbrev pub Registered :
    State → (Text → Option ℕ) → Text → (id size : ℕ) → Content → ℕ → TypePtr × State → Type 0
Registered st f n id size c k (t, st') =
    (t ≡ id)
    × ((ht : Hashtable) × (entry : TypeInfoInternal) × (st' ≡ put_entry (with_names st ht) id entry)
        × Names st.memory ht (update f n id)
        × HasHeader st.memory entry id n size (content_variant c)
        × HasContent st.memory entry c k)

module _ (name : CharPtr) (n : Text) (id size : ℕ) (st : State) (f : Text → Option ℕ)
    (inside : id < length st.type_table) (named : text st.memory name ≡ some n)
    (names : Names st.memory st.type_hash_table f) where
  add_type_info-Registered :
      (c : Content) (members : Members) (k : ℕ)
      → member_names c ≡ []
      → IsFilled st.memory members c k
      → CountFits k
      → Returns
          (add_type_info name id size (content_variant c) k members st)
          (Registered st f n id size c k)
  add_type_info-Registered c members k empty filled' fits =
      let entry : TypeInfoInternal = record {
        members = members;
        field_table = some (hashtable_create (k * 2 % 2 ^ 64));
        type = new_type name id size (content_variant c);
      } in
      let none_yet : 0 + k ≡ k = omega arith in
      let (st', run, (ht, e, names')) =
        insert_type_name-Names name n id (put_entry st id entry) f named names in
      (
        (id, st'),
        rw (get_elem?-get_or st.type_table id none inside, run),
        (
          refl,
          (
            ht,
            entry,
            e,
            names',
            record { named = named; id_lem = refl; size_lem = refl; variant_lem = refl },
            record {
              members = filled';
              index = rw (empty, none_yet) (new-IsIndex st.memory k fits);
              count = rw empty;
            },
          ),
        ),
      )

  struct_array : (k : ℕ) → CountFits k → 40 * k % 2 ^ 64 / 40 ≡ k
  struct_array k fits = omega arith

  enum_array : (k : ℕ) → CountFits k → 16 * k % 2 ^ 64 / 16 ≡ k
  enum_array k fits = omega arith

  -- For an id inside the type table, a name that is a string in memory, and a number of fields
  -- whose arrays fit 64 bits, `add_struct_type_info` of a struct or union returns the pointer
  -- to that entry; the entry has the name, id, size and variant, no field yet and room for all;
  -- no other entry changes, and the map of names changes at that name alone, to the id.
  pub add_struct_type_info-Registered :
      (u : Bool) (k : ℕ)
      → CountFits k
      → Returns
          (add_struct_type_info name id size (field_variant u) k st)
          (Registered st f n id size (fields u []) k)
  unfolding add_struct_type_info
  add_struct_type_info-Registered u k fits =
      add_type_info-Registered (fields u []) (struct_fields (malloc_array 40 k)) k refl
        ([], rw (struct_array k fits), nil) fits

  -- For an id inside the type table, a name that is a string in memory, and a number of
  -- enumerators whose arrays fit 64 bits, `add_enum_type_info` returns the pointer to that
  -- entry; the entry has the name, id and size and is an enum, with no enumerator yet and room
  -- for all; no other entry changes, and the map of names changes at that name alone, to the
  -- id.
  pub add_enum_type_info-Registered :
      (k : ℕ)
      → CountFits k
      → Returns
          (add_enum_type_info name id size k st)
          (Registered st f n id size (enumerators []) k)
  unfolding add_enum_type_info
  add_enum_type_info-Registered k fits =
      add_type_info-Registered (enumerators []) (enum_fields (malloc_array 16 k)) k refl
        ([], rw (enum_array k fits), nil) fits

  -- For an id inside the type table and a name that is a string in memory, `add_base_type_info`
  -- returns the pointer to that entry; the entry has the name, id and size, is a base type, and
  -- has no members; no other entry changes, and the map of names changes at that name alone, to
  -- the id.
  pub add_base_type_info-Names : Returns (add_base_type_info name id size st) (λ (t, st').
      (t ≡ id)
      × ((ht : Hashtable) × (entry : TypeInfoInternal) × (st'
            ≡ put_entry (with_names st ht) id entry)
          × Names st.memory ht (update f n id)
          × HasHeader st.memory entry id n size base
          × (entry.members ≡ null)
          × (entry.type.field_count ≡ 0)))
  unfolding add_base_type_info
  add_base_type_info-Names =
      let entry : TypeInfoInternal = record {
        members = null;
        field_table = old_field_table (get_or st.type_table id none);
        type = new_type name id size base;
      } in
      let (st', run, (ht, e, names')) =
        insert_type_name-Names name n id (put_entry st id entry) f named names in
      (
        (id, st'),
        rw (get_elem?-get_or st.type_table id none inside, run),
        (
          refl,
          (
            ht,
            entry,
            e,
            names',
            record { named = named; id_lem = refl; size_lem = refl; variant_lem = refl },
            refl,
            refl,
          ),
        ),
      )
