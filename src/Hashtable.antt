-- ===== src/Hashtable.antt =====
-- src/hashtable.c: a fixed array of buckets with chained overflow nodes.
-- `malloc` and `calloc` of nodes and bucket arrays succeed, as the code takes for granted; a
-- `calloc` whose size overflows returns NULL, which is the array with no element.
pub mod Fnv
pub mod View
pub mod Insert
pub mod RoundTrip
use reflect_c.Base.{
  ℕ, zero, suc, ◌+◌, ◌-◌, ◌*◌, ◌/◌, ◌%◌, ◌^◌, ◌≤◌, ◌<◌, bit_xor, ◌≡◌, refl, sym, ap, ◌∙◌, fun_ext,
  subst, ◌≢◌, ◌↔◌, ◌⊎◌, inl, inr, Bool, true, false, ◌&&◌, ◌||◌, not, Option, none, some, List, [],
  ◌∷◌, ◌++◌, map, append_assoc, append-nil, arith, ltb, ◌==◌, if◌then◌else◌, ==_refl, eq-of_==,
  Bool-cases, Option-cases, ◌===◌, ===_refl, eq-of_===, ===_iff, lt_cases, lt→ltb, length,
  get_elem?, get_or, set, take, drop, replicate, length-append, length-set, length-replicate,
  length-drop, get_elem?-set, get_elem?-get_or, get_or-set, get_or-replicate, get_or-append,
  drop-nil, drop-drop, drop-append, set-append_length, get_or-append_self, Fault, Run, ◌>>=◌,
  or_fault, Returns, ok, fault, out_of_bounds, uninitialised, null_pointer, division_by_zero,
  wrong_member, trap_value,
}
use reflect_c.Memory.{Memory, CharPtr, read_at, strcmp_zero}

-- `SIZE_MAX`, the value of `return -1`
abbrev pub not_found : ℕ
not_found = 2 ^ 64 - 1

pub record HashT : Type 0 where
  pub name : Option CharPtr
  pub id : ℕ

-- The node that stands in the array, and the `malloc`ed nodes that its `next` leads through.
pub record HashBucket : Type 0 where
  pub entry : HashT
  pub next : List HashT

pub record Hashtable : Type 0 where
  pub buckets : List HashBucket
  pub capacity : ℕ

-- What `calloc` leaves in a bucket.
abbrev pub empty_bucket : HashBucket
empty_bucket = record { entry = record { name = none; id = 0 }; next = [] }

-- `hash ^= (uint8_t)key[i]; hash *= 16777619u`
unfoldable pub fnv_step : ℕ → ℕ → ℕ
fnv_step hash c = bit_xor hash (c % 2 ^ 8) * 16777619 % 2 ^ 32

unfoldable pub fnv_loop : ℕ → List ℕ → Run ℕ
fnv_loop hash [] = fault out_of_bounds
fnv_loop hash (c ∷ key) = if c == 0 then ok hash else fnv_loop (fnv_step hash c) key

unfoldable pub hash_fnv1a : Memory → Option CharPtr → Run ℕ
hash_fnv1a mem key = read_at mem key >>= fnv_loop 2166136261

-- The cast to `uint32_t` of `hash % ht->capacity`.
unfoldable pub hash_key : Memory → Hashtable → Option CharPtr → Run ℕ
hash_key mem ht key = do
  hash ← hash_fnv1a mem key
  if ht.capacity == 0 then fault division_by_zero else ok (hash % ht.capacity % 2 ^ 32)

unfoldable pub hashtable_create : ℕ → Hashtable
hashtable_create capacity = record {
  buckets = if ltb (capacity * 24) (2 ^ 64) then replicate capacity empty_bucket else [];
  capacity = capacity;
}

unfoldable pub name_equal : Memory → Option CharPtr → Option CharPtr → Run Bool
name_equal mem p q = do s ← read_at mem p; t ← read_at mem q; strcmp_zero s t

unfoldable pub get_loop : Memory → Option CharPtr → List HashT → Run ℕ
get_loop mem key [] = ok not_found
get_loop mem key (bucket ∷ next) =
    let rest = get_loop mem key next in
    elim bucket.name [
      | none ↦ ok not_found
      | some name ↦ do same ← name_equal mem (some name) key; if same then ok bucket.id else rest
    ]

unfoldable pub hashtable_get : Memory → Hashtable → Option CharPtr → Run ℕ
hashtable_get mem ht key = do
  slot ← hash_key mem ht key
  bucket ← or_fault out_of_bounds (get_elem? ht.buckets slot)
  get_loop mem key (bucket.entry ∷ bucket.next)

-- The walk from the node `entry`, before the nodes `next`: the chain after the write.
unfoldable pub insert_loop : Memory → HashT → HashT → List HashT → Run HashBucket
insert_loop mem value entry [] = do
  same ← name_equal mem entry.name value.name
  if same
      then ok (record { entry = value; next = [] })
      else ok (record { entry = entry; next = value ∷ [] })
insert_loop mem value entry (n ∷ next) = do
  same ← name_equal mem entry.name value.name
  if same then ok (record { entry = value; next = n ∷ next }) else do
    rest ← insert_loop mem value n next
    ok (record { entry = entry; next = rest.entry ∷ rest.next })

unfoldable pub insert_bucket : Memory → HashT → HashBucket → Run HashBucket
insert_bucket mem value bucket = elim bucket.entry.name [
  | none ↦ ok (record { entry = value; next = [] })
  | some _ ↦ insert_loop mem value bucket.entry bucket.next
]

unfoldable pub hashtable_insert : Memory → Hashtable → HashT → Run Hashtable
hashtable_insert mem ht value = do
  slot ← hash_key mem ht value.name
  bucket ← or_fault out_of_bounds (get_elem? ht.buckets slot)
  bucket' ← insert_bucket mem value bucket
  ok (record ht { buckets = set ht.buckets slot bucket' })
