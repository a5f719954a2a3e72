-- ===== src/Hashtable/View.antt =====
-- A hash table in memory as a map from strings to ids, and `hashtable_get` as a lookup in it.
use reflect_c.Base.{
  ℕ, ◌*◌, ◌^◌, ◌<◌, ◌≡◌, refl, ◌∙◌, ◌⊎◌, inl, inr, Bool, false, Option, none, some, List, [], ◌∷◌,
  arith, if◌then◌else◌, Option-cases, ◌===◌, lt→ltb, length, get_or, length-replicate,
  get_elem?-get_or, get_or-replicate, ok,
}
use reflect_c.Memory.{Memory, CharPtr}
use reflect_c.Memory.Strings.{name_of, strcmp_zero-===, Extends, name_of-Extends}
use reflect_c.Hashtable.{
  HashT, HashBucket, Hashtable, empty_bucket, not_found, name_equal, get_loop, hashtable_create,
  hashtable_get,
}
use reflect_c.Hashtable.Fnv.{home, hash_key-home}

-- The id that a lookup answers with.
abbrev pub found : Option ℕ → ℕ
found none = not_found
found (some id) = id

abbrev pub is_name : Option (List ℕ) → List ℕ → Bool
is_name none k = false
is_name (some s) k = s === k

-- The first node with the name decides.
unfoldable pub lookup : Memory → List ℕ → List HashT → Option ℕ
lookup mem k [] = none
lookup mem k (e ∷ es) = if is_name (name_of mem e.name) k then some e.id else lookup mem k es

abbrev pub chain : HashBucket → List HashT
chain b = b.entry ∷ b.next

abbrev pub bucket_at : Hashtable → ℕ → HashBucket
bucket_at ht i = get_or ht.buckets i empty_bucket

unfoldable pub view : Memory → Hashtable → List ℕ → Option ℕ
view mem ht k = lookup mem k (chain (bucket_at ht (home ht k)))

-- Every node of a chain has a name that is a string in memory, and that no node behind it has.
abbrev pub Named : Memory → List HashT → Type 0
Named mem [] = Unit {0}
Named mem (e ∷ es) =
    ((s : List ℕ) × (name_of mem e.name ≡ some s) × (lookup mem s es ≡ none)) × Named mem es

-- A bucket is as `calloc` left it, or its nodes have names.
abbrev pub IsBucket : Memory → HashBucket → Type 0
IsBucket mem b = (b ≡ empty_bucket) ⊎ Named mem (chain b)

pub record IsValid (mem : Memory) (ht : Hashtable) : Type 0 where
  pub capacity_pos : 0 < ht.capacity
  pub width : length ht.buckets ≡ ht.capacity
  pub named : (i : ℕ) → IsBucket mem (bucket_at ht i)

pub home-lt : (ht : Hashtable) (k : List ℕ) → 0 < ht.capacity → home ht k < ht.capacity
home-lt ht k h = omega arith

pub name_equal-=== :
    (mem : Memory) (p q : Option CharPtr) (s t : List ℕ)
    → name_of mem p ≡ some s
    → name_of mem q ≡ some t
    → name_equal mem p q ≡ ok (s === t)
unfolding name_equal
name_equal-=== mem none q s t hp hq = cc
name_equal-=== mem (some p) none s t hp hq = cc
name_equal-=== mem (some p) (some q) s t hp hq = strcmp_zero-=== _ _ s t hp hq

get_loop-lookup :
    (mem : Memory) (key : Option CharPtr) (k : List ℕ) (es : List HashT)
    → name_of mem key ≡ some k
    → Named mem es
    → get_loop mem key es ≡ ok (found (lookup mem k es))
unfolding get_loop lookup
get_loop-lookup mem key k [] h named = refl
get_loop-lookup mem key k (e ∷ es) h ((s, hs, fresh), named) = elim (Option-cases e.name) [
  | inl absent ↦ let t = rw absent at hs in cc t
  | inr (p, present) ↦
      let same = name_equal-=== mem (some p) key s k (rw present at hs) h in
      ground (arith, same, get_loop-lookup mem key k es h named)
]

get_chain-lookup :
    (mem : Memory) (key : Option CharPtr) (k : List ℕ) (b : HashBucket)
    → name_of mem key ≡ some k
    → IsBucket mem b
    → get_loop mem key (chain b) ≡ ok (found (lookup mem k (chain b)))
unfolding get_loop lookup
get_chain-lookup mem key k b h (inl fresh) = rw fresh
get_chain-lookup mem key k b h (inr named) = get_loop-lookup mem key k (chain b) h named

-- On a valid hash table, `hashtable_get` of a key that is a string in memory returns the id
-- that the table's map has for the string, or `SIZE_MAX` if it has none.
pub hashtable_get-view :
    (mem : Memory) (ht : Hashtable) (key : Option CharPtr) (k : List ℕ)
    → IsValid mem ht
    → name_of mem key ≡ some k
    → hashtable_get mem ht key ≡ ok (found (view mem ht k))
unfolding hashtable_get view
hashtable_get-view mem ht key k v h =
    rw
      (
        hash_key-home mem ht key k v.capacity_pos h,
        get_elem?-get_or ht.buckets (home ht k) empty_bucket
            (rw v.width (home-lt ht k v.capacity_pos)),
      )
      (get_chain-lookup mem key k _ h (v.named (home ht k)))

-- A new table is valid and empty, if it has room and its size does not overflow.
pub hashtable_create-IsValid :
    (mem : Memory) (capacity : ℕ)
    → 0 < capacity
    → capacity * 24 < 2 ^ 64
    → IsValid mem (hashtable_create capacity)
unfolding hashtable_create
hashtable_create-IsValid mem capacity pos fits =
    let e = lt→ltb _ _ fits in
    record {
      capacity_pos = pos;
      width = rw e (length-replicate capacity empty_bucket);
      named = λ i. inl (rw e (get_or-replicate capacity i empty_bucket));
    }

pub view-hashtable_create :
    (mem : Memory) (capacity : ℕ) (k : List ℕ)
    → capacity * 24 < 2 ^ 64
    → view mem (hashtable_create capacity) k ≡ none
unfolding view lookup hashtable_create
view-hashtable_create mem capacity k fits =
    rw (lt→ltb _ _ fits, get_or-replicate capacity _ empty_bucket)

-- Growing memory changes no lookup.
lookup-Extends :
    {mem mem' : Memory}
    → Extends mem mem'
    → (k : List ℕ) (es : List HashT) → Named mem es
    → lookup mem' k es ≡ lookup mem k es
unfolding lookup
lookup-Extends x k [] named = refl
lookup-Extends x k (e ∷ es) ((s, hs, fresh), named) =
    rw (hs, name_of-Extends x e.name hs, lookup-Extends x k es named)

Named-Extends :
    {mem mem' : Memory} → Extends mem mem' → (es : List HashT) → Named mem es → Named mem' es
Named-Extends x [] named = tt
Named-Extends x (e ∷ es) ((s, hs, fresh), named) = (
  (s, name_of-Extends x e.name hs, lookup-Extends x s es named ∙ fresh),
  Named-Extends x es named,
)

IsBucket-Extends :
    {mem mem' : Memory} → Extends mem mem' → (b : HashBucket) → IsBucket mem b → IsBucket mem' b
IsBucket-Extends x b (inl fresh) = inl fresh
IsBucket-Extends x b (inr named) = inr (Named-Extends x (chain b) named)

pub IsValid-Extends :
    {mem mem' : Memory} → Extends mem mem' → {ht : Hashtable} → IsValid mem ht → IsValid mem' ht
IsValid-Extends x {ht} v = record {
  capacity_pos = v.capacity_pos;
  width = v.width;
  named = λ i. IsBucket-Extends x (bucket_at ht i) (v.named i);
}

lookup_bucket-Extends :
    {mem mem' : Memory}
    → Extends mem mem'
    → (k : List ℕ) (b : HashBucket) → IsBucket mem b
    → lookup mem' k (chain b) ≡ lookup mem k (chain b)
unfolding lookup
lookup_bucket-Extends x k b (inl fresh) = rw fresh
lookup_bucket-Extends x k b (inr named) = lookup-Extends x k (chain b) named

pub view-Extends :
    {mem mem' : Memory}
    → Extends mem mem'
    → (ht : Hashtable) (k : List ℕ) → IsValid mem ht
    → view mem' ht k ≡ view mem ht k
unfolding view
view-Extends x ht k v = lookup_bucket-Extends x k (bucket_at ht (home ht k)) (v.named (home ht k))
