-- ===== src/Hashtable/Insert.antt =====
-- `hashtable_insert` as an update of the map that a table stands for.
use reflect_c.Base.{
  ℕ, ◌<◌, ◌≡◌, refl, ap, ◌∙◌, subst, inl, inr, false, Option, none, some, List, [], ◌∷◌, arith,
  ◌==◌, if◌then◌else◌, eq-of_==, Bool-cases, Option-cases, ◌===◌, ===_refl, eq-of_===, length,
  get_or, set, length-set, get_elem?-get_or, get_or-set, Returns,
}
use reflect_c.Memory.{Memory}
use reflect_c.Memory.Strings.{name_of}
use reflect_c.Hashtable.{
  HashT, HashBucket, Hashtable, empty_bucket, insert_loop, insert_bucket, hashtable_insert,
}
use reflect_c.Hashtable.Fnv.{home, hash_key-home}
use reflect_c.Hashtable.View.{
  lookup, chain, bucket_at, view, Named, IsBucket, IsValid, home-lt, name_equal-===,
}

-- The map that sends `s` to `id`, and else agrees with `f`.
abbrev pub update : (List ℕ → Option ℕ) → List ℕ → ℕ → List ℕ → Option ℕ
update f s id q = if s === q then some id else f q

-- A chain that holds `value`, named `s`, on top of what it held.
record Puts (mem : Memory) (s : List ℕ) (id : ℕ) (es fs : List HashT) : Type 0 where
  named : Named mem fs
  reads : (q : List ℕ) → lookup mem q fs ≡ update (λ k. lookup mem k es) s id q

module _ (mem : Memory) (value : HashT) (s : List ℕ) (hs : name_of mem value.name ≡ some s) where
  put_here :
      (e : HashT) (es : List HashT)
      → name_of mem e.name ≡ some s
      → lookup mem s es ≡ none
      → Named mem es
      → Puts mem s value.id (e ∷ es) (value ∷ es)
  unfolding lookup
  put_here e es he fresh named = record {
    named = ((s, hs, fresh), named);
    reads = λ q. rw (hs, he) (ground arith);
  }

  put_after :
      (e : HashT) (t : List ℕ) (es fs : List HashT)
      → name_of mem e.name ≡ some t
      → (t === s) ≡ false
      → lookup mem t es ≡ none
      → Puts mem s value.id es fs
      → Puts mem s value.id (e ∷ es) (e ∷ fs)
  unfolding lookup
  put_after e t es fs he ne fresh p = record {
    named = ((t, he, p.reads t ∙ ground (arith, fresh, eq-of_=== s t, ===_refl s)), p.named);
    reads = λ q. rw (he, p.reads q) (ground (arith, eq-of_=== t q, eq-of_=== s q, ===_refl s));
  }

  insert_loop-Puts :
      (e : HashT) (es : List HashT)
      → Named mem (e ∷ es)
      → Returns (insert_loop mem value e es) (λ b. Puts mem s value.id (e ∷ es) (chain b))
  unfolding insert_loop lookup
  insert_loop-Puts e [] ((t, he, fresh), named) = elim (Bool-cases (t === s)) [
    | inl same ↦ (
      record { entry = value; next = [] },
      rw (name_equal-=== mem e.name value.name t s he hs, same),
      put_here e [] (rw (eq-of_=== t s same) at he) refl named,
    )
    | inr ne ↦ (
      record { entry = e; next = value ∷ [] },
      rw (name_equal-=== mem e.name value.name t s he hs, ne),
      put_after e t [] (value ∷ []) he ne refl
          (record { named = ((s, hs, refl), tt); reads = λ q. rw hs (ground arith) }),
    )
  ]
  insert_loop-Puts e (n ∷ es) ((t, he, fresh), named) = elim (Bool-cases (t === s)) [
    | inl same ↦ (
      record { entry = value; next = n ∷ es },
      rw (name_equal-=== mem e.name value.name t s he hs, same),
      put_here e (n ∷ es) (rw (eq-of_=== t s same) at he)
          (subst (λ q. lookup mem q (n ∷ es) ≡ none) (eq-of_=== t s same) fresh) named,
    )
    | inr ne ↦
        let (b, run, p) = insert_loop-Puts n es named in
        (
          record { entry = e; next = chain b },
          rw (name_equal-=== mem e.name value.name t s he hs, ne, run),
          put_after e t (n ∷ es) (chain b) he ne fresh p,
        )
  ]

  insert_bucket-Puts :
      (b : HashBucket)
      → IsBucket mem b
      → Returns (insert_bucket mem value b) (λ b'. Puts mem s value.id (chain b) (chain b'))
  unfolding insert_bucket lookup
  insert_bucket-Puts b (inl fresh) = (
    record { entry = value; next = [] },
    rw fresh,
    record { named = ((s, hs, refl), tt); reads = λ q. rw (fresh, hs) },
  )
  insert_bucket-Puts b (inr ((t, he, distinct), named)) = elim (Option-cases b.entry.name) [
    | inl absent ↦ let e = rw absent at he in cc e
    | inr (p, present) ↦
        let (b', run, puts) = insert_loop-Puts b.entry b.next ((t, he, distinct), named) in
        (b', rw (present, insert_bucket) run, puts)
  ]

  IsBucket-set :
      (ht : Hashtable) (i j : ℕ) (b : HashBucket)
      → i < length ht.buckets
      → IsValid mem ht
      → Named mem (chain b)
      → IsBucket mem (get_or (set ht.buckets i b) j empty_bucket)
  IsBucket-set ht i j b inside v named = elim (Bool-cases (j == i)) [
    | inl same ↦ rw (get_or-set ht.buckets i j b empty_bucket inside, same) (inr named)
    | inr other ↦ rw (get_or-set ht.buckets i j b empty_bucket inside, other) (v.named j)
  ]

  view-set :
      (ht : Hashtable) (b : HashBucket) (q : List ℕ)
      → home ht s < length ht.buckets
      → Puts mem s value.id (chain (bucket_at ht (home ht s))) (chain b)
      → view mem (record ht { buckets = set ht.buckets (home ht s) b }) q
        ≡ update (view mem ht) s value.id q
  unfolding view
  view-set ht b q inside puts = elim (Bool-cases (home ht q == home ht s)) [
    | inl same ↦
        rw (get_or-set ht.buckets (home ht s) (home ht q) b empty_bucket inside, same)
          (rw (eq-of_== _ _ same) (puts.reads q))
    | inr other ↦
        let differ : (s === q) ≡ false = apart other in
        rw (get_or-set ht.buckets (home ht s) (home ht q) b empty_bucket inside, other, differ)
  ]
    where
      apart : (home ht q == home ht s) ≡ false → (s === q) ≡ false
      apart other = elim (Bool-cases (s === q)) [
        | inr ne ↦ ne
        | inl e ↦ ground (arith, other, ap (home ht) (eq-of_=== s q e))
      ]

  -- For a value whose name is a string in memory, inserting into a valid hash table returns a
  -- valid table of the same capacity, where again each node has a name that no other node of
  -- its chain has, and the map that the table stands for changes to the value's id at that
  -- string and is the same at every other string.
  pub hashtable_insert-update :
      (ht : Hashtable)
      → IsValid mem ht
      → Returns (hashtable_insert mem ht value) (λ ht'.
        IsValid mem ht'
        × (ht'.capacity ≡ ht.capacity)
        × ((q : List ℕ) → view mem ht' q ≡ update (view mem ht) s value.id q))
  unfolding hashtable_insert view
  hashtable_insert-update ht v =
      let i = home ht s in
      let inside : i < length ht.buckets = rw v.width (home-lt ht s v.capacity_pos) in
      let (b', run, puts) = insert_bucket-Puts (bucket_at ht i) (v.named i) in
      (
        record ht { buckets = set ht.buckets i b' },
        rw
            (
              hash_key-home mem ht value.name s v.capacity_pos hs,
              get_elem?-get_or ht.buckets i empty_bucket inside,
            )
            (rw run),
        (
          record {
            capacity_pos = v.capacity_pos;
            width = length-set ht.buckets i b' ∙ v.width;
            named = λ j. IsBucket-set ht i j b' inside v puts.named;
          },
          refl,
          λ q. view-set ht b' q inside puts,
        ),
      )
