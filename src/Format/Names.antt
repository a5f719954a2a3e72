-- ===== src/Format/Names.antt =====
-- What the names in a description stand for.
use reflect_c.Base.{
  ℕ, zero, suc, ◌+◌, ◌≤◌, ◌<◌, ◌≡◌, refl, ap, inl, inr, true, Option, none, some, List, [], ◌∷◌,
  ◌++◌, arith, ◌==◌, if◌then◌else◌, Bool-cases, Option-cases, ◌===◌, eq-of_===, ===_iff, length,
  get_elem?,
}
use reflect_c.Format.{
  Text, FieldDesc, Enumerator, Content, fields, enumerators, Body, base, composite, TypeDesc,
}
use reflect_c.Hashtable.Insert.{update}

-- The last position at which a name stands, counted from `i`.
unfoldable pub last_index : ℕ → List Text → Text → Option ℕ
last_index i [] q = none
last_index i (n ∷ names) q = elim (last_index (i + 1) names q) [
  | some j ↦ some j
  | none ↦ if n === q then some i else none
]

pub last_index-snoc :
    (i : ℕ) (names : List Text) (n q : Text)
    → last_index i (names ++ n ∷ []) q
      ≡ (if n === q then some (i + length names) else last_index i names q)
unfolding last_index
last_index-snoc i [] n q = let e : i + 0 ≡ i = omega arith in rw e (ground arith)
last_index-snoc i (m ∷ names) n q =
    let e : i + 1 + length names ≡ i + suc (length names) = omega arith in
    rw (last_index-snoc (i + 1) names n q, e) (ground arith)

abbrev pub field_names : List FieldDesc → List Text
field_names [] = []
field_names (f ∷ fs) = f.name ∷ field_names fs

abbrev pub enumerator_names : List Enumerator → List Text
enumerator_names [] = []
enumerator_names (e ∷ es) = e.name ∷ enumerator_names es

pub field_names-snoc :
    (fs : List FieldDesc) (f : FieldDesc)
    → field_names (fs ++ f ∷ []) ≡ field_names fs ++ f.name ∷ []
field_names-snoc [] f = refl
field_names-snoc (g ∷ fs) f = ap (λ names. g.name ∷ names) (field_names-snoc fs f)

pub enumerator_names-snoc :
    (es : List Enumerator) (e : Enumerator)
    → enumerator_names (es ++ e ∷ []) ≡ enumerator_names es ++ e.name ∷ []
enumerator_names-snoc [] e = refl
enumerator_names-snoc (d ∷ es) e = ap (λ names. d.name ∷ names) (enumerator_names-snoc es e)

pub length-field_names : (fs : List FieldDesc) → length (field_names fs) ≡ length fs
length-field_names [] = refl
length-field_names (f ∷ fs) = ap suc (length-field_names fs)

pub length-enumerator_names : (es : List Enumerator) → length (enumerator_names es) ≡ length es
length-enumerator_names [] = refl
length-enumerator_names (e ∷ es) = ap suc (length-enumerator_names es)

abbrev pub member_names : Content → List Text
member_names (fields u fs) = field_names fs
member_names (enumerators es) = enumerator_names es

abbrev pub member_index : Content → Text → Option ℕ
member_index c = last_index 0 (member_names c)

-- The map from names to ids, after aliases of one type, after one type, after a list of types:
-- what stands later in the file wins.
abbrev pub add_aliases : List Text → ℕ → (Text → Option ℕ) → Text → Option ℕ
add_aliases [] id f = f
add_aliases (a ∷ names) id f = add_aliases names id (update f a id)

abbrev pub aliases_of : Body → List Text
aliases_of base = []
aliases_of (composite c aliases) = aliases

abbrev pub add_names : TypeDesc → (Text → Option ℕ) → Text → Option ℕ
add_names d f = add_aliases (aliases_of d.body) d.id (update f d.name d.id)

abbrev pub names_of : List TypeDesc → (Text → Option ℕ) → Text → Option ℕ
names_of [] f = f
names_of (d ∷ ds) f = names_of ds (add_names d f)

-- The map from ids to types.
abbrev pub types_of : List TypeDesc → (ℕ → Option TypeDesc) → ℕ → Option TypeDesc
types_of [] f = f
types_of (d ∷ ds) f = types_of ds (λ i. if i == d.id then some d else f i)

-- The name does stand at its last index.
pub last_index-some :
    (i : ℕ) (names : List Text) (q : Text) (j : ℕ)
    → last_index i names q ≡ some j
    → (m : ℕ) × (j ≡ i + m) × (get_elem? names m ≡ some q) × (m < length names)
unfolding last_index
last_index-some i [] q j h = cc
last_index-some i (n ∷ names) q j h = elim (Option-cases (last_index (i + 1) names q)) [
  | inr (j', e) ↦
      let (m, is, at, inside) = last_index-some (i + 1) names q j' e in
      let same : j' ≡ j = ground arith in (suc m, omega arith, at, omega arith)
  | inl e ↦ elim (Bool-cases (n === q)) [
    | inl here ↦ (0, ground arith, ap some (eq-of_=== n q here), omega arith)
    | inr other ↦ let t = rw (e, other) at h in cc t
  ]
]

-- Every occurrence of a name is found, or a later one.
pub last_index-le :
    (i : ℕ) (names : List Text) (q : Text) (m : ℕ)
    → get_elem? names m ≡ some q
    → (j : ℕ) × (last_index i names q ≡ some j) × (i + m ≤ j)
unfolding last_index
last_index-le i [] q m h = cc
last_index-le i (n ∷ names) q zero h = elim (Option-cases (last_index (i + 1) names q)) [
  | inr (j, e) ↦
      let (m, is, at, inside) = last_index-some (i + 1) names q j e in (j, rw e, omega arith)
  | inl e ↦
      let same : (n === q) ≡ true = (===_iff n q).1 (ground arith) in (i, rw (e, same), omega arith)
]
last_index-le i (n ∷ names) q (suc m) h =
    let (j, e, later) = last_index-le (i + 1) names q m h in (j, rw e, omega arith)

pub get_elem?-field_names :
    (fs : List FieldDesc) (i : ℕ) (q : Text)
    → get_elem? (field_names fs) i ≡ some q
    → (f : FieldDesc) × (get_elem? fs i ≡ some f) × (f.name ≡ q)
get_elem?-field_names [] i q h = cc
get_elem?-field_names (f ∷ fs) zero q h = let e : f.name ≡ q = cc in (f, refl, e)
get_elem?-field_names (f ∷ fs) (suc i) q h = get_elem?-field_names fs i q h

pub field_names-get_elem? :
    (fs : List FieldDesc) (i : ℕ) (f : FieldDesc)
    → get_elem? fs i ≡ some f
    → get_elem? (field_names fs) i ≡ some f.name
field_names-get_elem? [] i f h = cc
field_names-get_elem? (g ∷ fs) zero f h =
    let e : g ≡ f = cc in ap (λ (x : FieldDesc). some x.name) e
field_names-get_elem? (g ∷ fs) (suc i) f h = field_names-get_elem? fs i f h

pub get_elem?-enumerator_names :
    (es : List Enumerator) (i : ℕ) (q : Text)
    → get_elem? (enumerator_names es) i ≡ some q
    → (e : Enumerator) × (get_elem? es i ≡ some e) × (e.name ≡ q)
get_elem?-enumerator_names [] i q h = cc
get_elem?-enumerator_names (e ∷ es) zero q h = let s : e.name ≡ q = cc in (e, refl, s)
get_elem?-enumerator_names (e ∷ es) (suc i) q h = get_elem?-enumerator_names es i q h

pub enumerator_names-get_elem? :
    (es : List Enumerator) (i : ℕ) (e : Enumerator)
    → get_elem? es i ≡ some e
    → get_elem? (enumerator_names es) i ≡ some e.name
enumerator_names-get_elem? [] i e h = cc
enumerator_names-get_elem? (d ∷ es) zero e h =
    let s : d ≡ e = cc in ap (λ (x : Enumerator). some x.name) s
enumerator_names-get_elem? (d ∷ es) (suc i) e h = enumerator_names-get_elem? es i e h
