-- ===== src/Format/Lookup.antt =====
-- Types of a file that no later type hides.
use reflect_c.Base.{
  ℕ, zero, suc, ◌≡◌, refl, ap, ◌∙◌, ◌≢◌, inl, inr, true, false, Option, some, List, [], ◌∷◌, arith,
  ◌==◌, ==_refl, Bool-cases, ◌===◌, ===_refl, eq-of_===, get_elem?, drop,
}
use reflect_c.Hashtable.Insert.{update}
use reflect_c.Format.{Text, TypeDesc}
use reflect_c.Format.Names.{add_aliases, aliases_of, add_names, names_of, types_of}

-- The strings that lead to a type.
abbrev pub names_in : TypeDesc → List Text
names_in d = d.name ∷ aliases_of d.body

-- No type has the id, or the string.
abbrev pub IsFreeId : List TypeDesc → ℕ → Type 0
IsFreeId ds id = (j : ℕ) (d : TypeDesc) → get_elem? ds j ≡ some d → d.id ≢ id

abbrev pub IsFreeName : List TypeDesc → Text → Type 0
IsFreeName ds q =
    (j k : ℕ) (d : TypeDesc) → get_elem? ds j ≡ some d → get_elem? (names_in d) k ≢ some q

types_of-IsFreeId :
    (ds : List TypeDesc) (f : ℕ → Option TypeDesc) (id : ℕ)
    → IsFreeId ds id
    → types_of ds f id ≡ f id
types_of-IsFreeId [] f id free = refl
types_of-IsFreeId (d ∷ ds) f id free =
    let other = free 0 d refl in
    let differ : (id == d.id) ≡ false = ground arith in
    types_of-IsFreeId ds _ id (λ j d' at. free (suc j) d' at) ∙ rw differ

add_aliases-other :
    (aliases : List Text) (id : ℕ) (f : Text → Option ℕ) (q : Text)
    → ((k : ℕ) → get_elem? aliases k ≢ some q)
    → add_aliases aliases id f q ≡ f q
add_aliases-other [] id f q free = refl
add_aliases-other (a ∷ aliases) id f q free =
    add_aliases-other aliases id (update f a id) q (λ k. free (suc k))
    ∙ elim (Bool-cases (a === q)) [
      | inl same ↦ absurd (free 0 (ap some (eq-of_=== a q same)))
      | inr other ↦ rw other
    ]

-- Aliases of a type that has the name already change nothing.
add_aliases-own :
    (aliases : List Text) (id : ℕ) (f : Text → Option ℕ) (q : Text)
    → f q ≡ some id
    → add_aliases aliases id f q ≡ some id
add_aliases-own [] id f q own = own
add_aliases-own (a ∷ aliases) id f q own =
    add_aliases-own aliases id (update f a id) q
      (elim (Bool-cases (a === q)) [ inl same ↦ rw same | inr other ↦ rw other own ])

names_of-IsFreeName :
    (ds : List TypeDesc) (f : Text → Option ℕ) (q : Text) → IsFreeName ds q → names_of ds f q ≡ f q
names_of-IsFreeName [] f q free = refl
names_of-IsFreeName (d ∷ ds) f q free =
    names_of-IsFreeName ds (add_names d f) q (λ j k d' at. free (suc j) k d' at)
    ∙ add_aliases-other (aliases_of d.body) d.id (update f d.name d.id) q
        (λ k. free 0 (suc k) d refl)
    ∙ elim (Bool-cases (d.name === q)) [
      | inl same ↦ absurd (free 0 0 d refl (ap some (eq-of_=== d.name q same)))
      | inr other ↦ rw other
    ]

pub types_of-get_elem? :
    (ds : List TypeDesc) (f : ℕ → Option TypeDesc) (i : ℕ) (d : TypeDesc)
    → get_elem? ds i ≡ some d
    → IsFreeId (drop (suc i) ds) d.id
    → types_of ds f d.id ≡ some d
types_of-get_elem? [] f i d at free = cc
types_of-get_elem? (c ∷ ds) f zero d at free =
    let same : c ≡ d = cc in
    let own : (d.id == c.id) ≡ true = rw same (==_refl d.id) in
    types_of-IsFreeId ds _ d.id free ∙ rw own (ap some same)
types_of-get_elem? (c ∷ ds) f (suc i) d at free = types_of-get_elem? ds _ i d at free

pub names_of-get_elem? :
    (ds : List TypeDesc) (f : Text → Option ℕ) (i : ℕ) (d : TypeDesc)
    → get_elem? ds i ≡ some d
    → IsFreeName (drop (suc i) ds) d.name
    → names_of ds f d.name ≡ some d.id
names_of-get_elem? [] f i d at free = cc
names_of-get_elem? (c ∷ ds) f zero d at free =
    let same : c ≡ d = cc in
    let own : (c.name === d.name) ≡ true = rw same (===_refl d.name) in
    names_of-IsFreeName ds (add_names c f) d.name free
    ∙ add_aliases-own (aliases_of c.body) c.id (update f c.name c.id) d.name (rw own)
    ∙ ap (λ (x : TypeDesc). some x.id) same
names_of-get_elem? (c ∷ ds) f (suc i) d at free = names_of-get_elem? ds (add_names c f) i d at free
