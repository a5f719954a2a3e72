-- ===== src/Owned/Tables.antt =====
-- The operations on hash tables and on the type table, with owned pointers.
use reflect_c.Base.{
  ℕ, zero, suc, ◌*◌, ◌^◌, ◌≤◌, inl, inr, none, some, List, [], ◌∷◌, ltb, Bool-cases, Option-cases,
  get_elem?, get_or, set, get_or-replicate, or_fault, After, After-bind, After-if, After-any,
  out_of_bounds, reached, stopped,
}
use reflect_c.Memory.{Memory, CharPtr}
use reflect_c.Hashtable.{
  HashT, HashBucket, Hashtable, empty_bucket, name_equal, hash_key, insert_loop, insert_bucket,
  hashtable_insert, hashtable_create,
}
use reflect_c.Hashtable.View.{chain}
use reflect_c.Types.{State, TypeInfoInternal, put_entry, insert_type_name}
use reflect_c.Owned.{IsOwned, AllOwned, TableOwned, EntryOwned, SlotOwned, StateOwned}

module _ (lo : ℕ) where
  pub get_or-set_lem :
      {A : Type 0} (P : A → Type 0) (xs : List A) (i : ℕ) (a d : A)
      → ((j : ℕ) → P (get_or xs j d))
      → P a
      → (j : ℕ) → P (get_or (set xs i a) j d)
  get_or-set_lem P [] i a d all here j = all j
  get_or-set_lem P (x ∷ xs) zero a d all here zero = here
  get_or-set_lem P (x ∷ xs) zero a d all here (suc j) = all (suc j)
  get_or-set_lem P (x ∷ xs) (suc i) a d all here zero = all zero
  get_or-set_lem P (x ∷ xs) (suc i) a d all here (suc j) =
      get_or-set_lem P xs i a d (λ k. all (suc k)) here j

  pub get_elem?-get_or_lem :
      {A : Type 0} (P : A → Type 0) (xs : List A) (i : ℕ) (d : A)
      → ((j : ℕ) → P (get_or xs j d))
      → After P (or_fault out_of_bounds (get_elem? xs i))
  get_elem?-get_or_lem P [] i d all = stopped
  get_elem?-get_or_lem P (x ∷ xs) zero d all = reached (all 0)
  get_elem?-get_or_lem P (x ∷ xs) (suc i) d all = get_elem?-get_or_lem P xs i d (λ j. all (suc j))

  module _ (mem : Memory) (value : HashT) (owned : IsOwned lo value.name) where
    insert_loop-AllOwned :
        (e : HashT) (es : List HashT)
        → AllOwned lo (e ∷ es)
        → After (λ b. AllOwned lo (chain b)) (insert_loop mem value e es)
    unfolding insert_loop
    insert_loop-AllOwned e [] (h, hs) =
        After-bind (After-any (name_equal mem e.name value.name))
          λ same u. After-if same (reached (owned, tt)) (reached (h, (owned, tt)))
    insert_loop-AllOwned e (n ∷ es) (h, hs) =
        let rest = insert_loop-AllOwned n es hs in
        After-bind (After-any (name_equal mem e.name value.name)) λ same u.
          After-if same (reached (owned, hs)) (After-bind rest λ b owned_b. reached (h, owned_b))

    insert_bucket-AllOwned :
        (b : HashBucket)
        → AllOwned lo (chain b)
        → After (λ b'. AllOwned lo (chain b')) (insert_bucket mem value b)
    unfolding insert_bucket
    insert_bucket-AllOwned b h = elim (Option-cases b.entry.name) [
      | inl absent ↦ rw absent (reached (owned, tt))
      | inr (p, present) ↦ rw (present, insert_bucket) (insert_loop-AllOwned b.entry b.next h)
    ]

    pub hashtable_insert-TableOwned :
        (ht : Hashtable) → TableOwned lo ht → After (TableOwned lo) (hashtable_insert mem ht value)
    unfolding hashtable_insert
    hashtable_insert-TableOwned ht h = After-bind (After-any (hash_key mem ht value.name)) λ slot u.
        After-bind
          (get_elem?-get_or_lem (λ b. AllOwned lo (chain b)) ht.buckets slot empty_bucket h)
          λ b hb. After-bind (insert_bucket-AllOwned b hb) λ b' hb'.
            reached
              (get_or-set_lem (λ c. AllOwned lo (chain c)) ht.buckets slot b' empty_bucket h hb')

  pub hashtable_create-TableOwned : (capacity : ℕ) → TableOwned lo (hashtable_create capacity)
  unfolding hashtable_create
  hashtable_create-TableOwned capacity i = elim (Bool-cases (ltb (capacity * 24) (2 ^ 64))) [
    | inl room ↦ rw (room, get_or-replicate capacity i empty_bucket) (tt, tt)
    | inr none_left ↦ rw none_left (tt, tt)
  ]

  pub put_entry-StateOwned :
      (st : State) (id : ℕ) (e : TypeInfoInternal)
      → StateOwned lo st
      → EntryOwned lo e
      → StateOwned lo (put_entry st id e)
  put_entry-StateOwned st id e h he = record {
    entries = get_or-set_lem (SlotOwned lo) st.type_table id (some e) none h.entries he;
    names = h.names;
    grown = h.grown;
  }

  pub insert_type_name-StateOwned :
      (name : CharPtr) (id : ℕ) (st : State)
      → lo ≤ name.block
      → StateOwned lo st
      → After (StateOwned lo) (insert_type_name name id st)
  insert_type_name-StateOwned name id st owned h =
      let value : HashT = record { name = some name; id = id } in
      After-bind (hashtable_insert-TableOwned st.memory value owned st.type_hash_table h.names)
        λ ht hh. reached (record { entries = h.entries; names = hh; grown = h.grown })
