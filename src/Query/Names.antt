-- ===== src/Query/Names.antt =====
-- `reflect_type_info_from_name` on loaded tables, and before any load.
use reflect_c.Base.{
  ℕ, ◌<◌, ◌≡◌, refl, inl, inr, Option, none, some, List, [], ◌∷◌, arith, ◌==◌, if◌then◌else◌,
  Bool-cases, ◌===◌, ok, fault, division_by_zero,
}
use reflect_c.Memory.{Memory, CharPtr}
use reflect_c.Memory.Strings.{text}
use reflect_c.Hashtable.{not_found}
use reflect_c.Hashtable.View.{found, hashtable_get-view}
use reflect_c.Hashtable.Fnv.{hashtable_get-no_capacity}
use reflect_c.Hashtable.Insert.{update}
use reflect_c.Format.{Text, TypeDesc}
use reflect_c.Format.Names.{add_aliases, aliases_of, names_of}
use reflect_c.Types.{State, initial}
use reflect_c.Types.Models.{Models}
use reflect_c.Load.Cursor.{Source, TypeFits, All}
use reflect_c.Query.{reflect_type_info_from_name}

-- An id that is no `size_t` maximum is told from the answer "not found".
found-cases :
    (o : Option ℕ)
    → ((i : ℕ) → o ≡ some i → i < not_found)
    → (if found o == not_found then ok none else ok (some (found o))) ≡ ok o
found-cases none small = refl
found-cases (some i) small = let h : i < not_found = small i refl in ground arith

-- The function is the map from names to types: NULL exactly for a name that the map lacks.
pub reflect_type_info_from_name-names :
    {st : State} {types : ℕ → Option TypeDesc} {names : Text → Option ℕ} {n : ℕ} (name : CharPtr)
    (k : Text)
    → Models st types names n
    → ((i : ℕ) → names k ≡ some i → i < not_found)
    → text st.memory name ≡ some k
    → reflect_type_info_from_name st name ≡ ok (names k)
unfolding reflect_type_info_from_name
reflect_type_info_from_name-names {st} {names} name k m small named =
    let (valid, reads) = m.names_lem in
    rw (hashtable_get-view st.memory st.type_hash_table (some name) k valid named, reads k)
      (found-cases (names k) small)

-- Before any load, `reflect_type_info_from_name` divides by zero, for any string in memory as
-- the name.
pub reflect_type_info_from_name-initial :
    (mem : Memory) (name : CharPtr) (k : Text)
    → text mem name ≡ some k
    → reflect_type_info_from_name (initial mem) name ≡ fault division_by_zero
unfolding reflect_type_info_from_name
reflect_type_info_from_name-initial mem name k named =
    rw (hashtable_get-no_capacity mem (initial mem).type_hash_table (some name) k refl named)

-- Every id that a loaded name leads to is an index in the table.
update-lt :
    (f : Text → Option ℕ) (s : Text) (id n : ℕ)
    → id < n
    → ((q : Text) (i : ℕ) → f q ≡ some i → i < n)
    → (q : Text) (i : ℕ) → update f s id q ≡ some i
    → i < n
update-lt f s id n inside small q i h = elim (Bool-cases (s === q)) [
  | inl same ↦ let t = rw same at h in ground arith
  | inr other ↦ small q i (rw other at h)
]

add_aliases-lt :
    (aliases : List Text) (f : Text → Option ℕ) (id n : ℕ)
    → id < n
    → ((q : Text) (i : ℕ) → f q ≡ some i → i < n)
    → (q : Text) (i : ℕ) → add_aliases aliases id f q ≡ some i
    → i < n
add_aliases-lt [] f id n inside small q i h = small q i h
add_aliases-lt (a ∷ aliases) f id n inside small q i h =
    add_aliases-lt aliases (update f a id) id n inside (update-lt f a id n inside small) q i h

pub names_of-lt :
    (src : Source) (n : ℕ) (ds : List TypeDesc) (f : Text → Option ℕ)
    → All src (TypeFits src n) ds
    → ((q : Text) (i : ℕ) → f q ≡ some i → i < n)
    → (q : Text) (i : ℕ) → names_of ds f q ≡ some i
    → i < n
names_of-lt src n [] f fits small q i h = small q i h
names_of-lt src n (d ∷ ds) f (fit, fits) small q i h =
    names_of-lt src n ds _ fits
      (add_aliases-lt (aliases_of d.body) (update f d.name d.id) d.id n fit.id
        (update-lt f d.name d.id n fit.id small))
      q i h
