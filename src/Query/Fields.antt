-- ===== src/Query/Fields.antt =====
-- Members of a loaded type: lookup by name, and iteration.
use mathlib.Core.Option
use native.Mathlib.Nat.{lt_trans}
use reflect_c.Base.{
  ℕ, zero, suc, ◌≤◌, ◌<◌, ◌≡◌, refl, ap, ◌∙◌, subst, ◌≢◌, inl, inr, Bool, Option, none, some, List,
  [], ◌∷◌, arith, ◌==◌, if◌then◌else◌, Option-cases, length, get_elem?, ◌>>=◌, Returns, ok, fault,
  division_by_zero,
}
use reflect_c.Memory.{CharPtr}
use reflect_c.Memory.Strings.{text}
use reflect_c.Hashtable.{not_found}
use reflect_c.Hashtable.View.{found}
use reflect_c.Format.{Text, FieldDesc, Content, fields, composite, TypeDesc}
use reflect_c.Format.Names.{
  member_names, member_index, last_index-some, last_index-le, field_names, length-field_names,
  get_elem?-field_names, field_names-get_elem?,
}
use reflect_c.Types.{TypePtr, Members, struct_fields, FieldInfo, State}
use reflect_c.Types.Describes.{Matches, nil, cons, FieldMatches, filled}
use reflect_c.Types.Models.{Models}
use reflect_c.Query.{
  MemberPtr, member_at, load_field, field_at, reflect_get_field_type, get_field_type,
  reflect_field_info_iter_begin, reflect_field_info_iter_end,
}
use reflect_c.Query.Entries.{get_internal-HasContent, member_id-member_index, member_id-no_members}

pub Matches-get_elem? :
    {A B : Type 0} {R : A → B → Type 0} {xs : List A} {ys : List B} (i : ℕ) (b : B)
    → Matches R xs ys
    → get_elem? ys i ≡ some b
    → (a : A) × (get_elem? xs i ≡ some a) × R a b
Matches-get_elem? i b nil h = cc
Matches-get_elem? {R} zero b (cons {a} {b = c} r m) h =
    let same : c ≡ b = cc in (a, refl, subst (λ x. R a x) same r)
Matches-get_elem? (suc i) b (cons r m) h = Matches-get_elem? i b m h

pub get_elem?-filled :
    {A : Type 0} (infos : List A) (i : ℕ) (a : A)
    → get_elem? infos i ≡ some a
    → get_elem? (filled infos 0) i ≡ some (some a)
get_elem?-filled [] i a h = cc
get_elem?-filled (x ∷ infos) zero a h = ap some h
get_elem?-filled (x ∷ infos) (suc i) a h = get_elem?-filled infos i a h

pub get_elem?-lt :
    {A : Type 0} (xs : List A) (i : ℕ) (a : A) → get_elem? xs i ≡ some a → i < length xs
get_elem?-lt [] i a h = cc
get_elem?-lt (x ∷ xs) zero a h = omega arith
get_elem?-lt (x ∷ xs) (suc i) a h = let below = get_elem?-lt xs i a h in omega arith

abbrev pub member : TypePtr → ℕ → MemberPtr
member t i = record { owner = t; index = i }

module _ {st : State} {types : ℕ → Option TypeDesc} {names : Text → Option ℕ} {n : ℕ}
    (m : Models st types names n) (t : TypePtr) (d : TypeDesc) (u : Bool) (fs : List FieldDesc)
    (aliases : List Text) (listed : types t ≡ some d)
    (is : d.body ≡ composite (fields u fs) aliases) where
  member_at-member : (i : ℕ) → member_at st t i ≡ ok (some (member t i))
  member_at-member i =
      let (e, run, (described, h)) =
        get_internal-HasContent m t d (fields u fs) aliases listed is in
      rw (run, h.members.1) refl

  member_index-lt : (k : Text) (i : ℕ) → member_index (fields u fs) k ≡ some i → i < length fs
  member_index-lt k i h =
      let (j, same, at, inside) = last_index-some 0 (field_names fs) k i h in
      let count = length-field_names fs in omega arith

  point_at :
      (o : Option ℕ)
      → ((i : ℕ) → o ≡ some i → i < not_found)
      → (if found o == not_found then ok none else member_at st t (found o))
        ≡ ok (Option.map (member t) o)
  point_at none small = refl
  point_at (some i) small =
      let h : i < not_found = small i refl in rw (member_at-member i) (ground arith)

  -- A pointer to the field that the name last stands for, or NULL.
  pub reflect_get_field_type-member_index :
      (name : CharPtr) (k : Text)
      → text st.memory name ≡ some k
      → 0 < length fs
      → length fs < not_found
      → reflect_get_field_type st (some t) name
        ≡ ok (Option.map (member t) (member_index (fields u fs) k))
  unfolding reflect_get_field_type get_field_type
  reflect_get_field_type-member_index name k named some_member few =
      let count = length-field_names fs in
      rw (member_id-member_index m t d (fields u fs) aliases listed is name k named (omega arith))
        (point_at (member_index (fields u fs) k) (λ i h. lt_trans (member_index-lt k i h) few))

field_at-filled :
    {members : Members} (infos : List FieldInfo) (i : ℕ) (info : FieldInfo)
    → members ≡ struct_fields (filled infos 0)
    → get_elem? infos i ≡ some info
    → field_at members i ≡ ok info
field_at-filled infos i info held at = rw held (rw (get_elem?-filled infos i info at))

-- In tables that model a list of types, reading through a pointer to field number `i` of a
-- listed struct or union, where it has one, gives the field that the file lists there: its
-- name, its flag, its three numbers and its type.
pub load_field-FieldMatches :
    {st : State} {types : ℕ → Option TypeDesc} {names : Text → Option ℕ} {n : ℕ}
    (m : Models st types names n) (t : TypePtr) (d : TypeDesc) (u : Bool) (fs : List FieldDesc)
    (aliases : List Text) (listed : types t ≡ some d)
    (is : d.body ≡ composite (fields u fs) aliases) (i : ℕ) (f : FieldDesc)
    → get_elem? fs i ≡ some f
    → Returns (load_field st (member t i)) (λ info. FieldMatches st.memory info f)
unfolding load_field
load_field-FieldMatches m t d u fs aliases listed is i f at =
    let (e, run, (described, h)) = get_internal-HasContent m t d (fields u fs) aliases listed is in
    let (infos, held, match) = h.members in
    let (info, at', matches) = Matches-get_elem? i f match at in
    (info, rw run (field_at-filled infos i info held at'), matches)

-- In tables that model a list of types, for field number `i` of a listed struct or union,
-- `reflect_field_info_iter_begin` points at field number 0 and `reflect_field_info_iter_end` as
-- many fields further as the file lists, of which `i` is one: behind the pointer that is `i`
-- fields from the begin is the field that the file lists there, with its name, its flag, its
-- three numbers and its type.
pub iter_begin-iter_end :
    {st : State} {types : ℕ → Option TypeDesc} {names : Text → Option ℕ} {n : ℕ}
    (m : Models st types names n) (t : TypePtr) (d : TypeDesc) (u : Bool) (fs : List FieldDesc)
    (aliases : List Text) (listed : types t ≡ some d)
    (is : d.body ≡ composite (fields u fs) aliases) (i : ℕ) (f : FieldDesc)
    → get_elem? fs i ≡ some f
    → (reflect_field_info_iter_begin st (some t) ≡ ok (some (member t 0)))
      × (reflect_field_info_iter_end st (some t) ≡ ok (some (member t (length fs))))
      × (i < length fs)
      × Returns (load_field st (member t i)) (λ info. FieldMatches st.memory info f)
unfolding reflect_field_info_iter_begin reflect_field_info_iter_end
iter_begin-iter_end m t d u fs aliases listed is i f at =
    let (e, run, (described, h)) = get_internal-HasContent m t d (fields u fs) aliases listed is in
    (
      member_at-member m t d u fs aliases listed is 0,
      rw (run, ◌>>=◌, h.members.1)
          (ap (λ k. ok (some (member t k))) (h.count ∙ length-field_names fs)),
      get_elem?-lt fs i f at,
      load_field-FieldMatches m t d u fs aliases listed is i f at,
    )

-- A field's name leads to that field, or to a later one of the same name, and behind the pointer
-- is what the file says.
pub reflect_get_field_type-load_field :
    {st : State} {types : ℕ → Option TypeDesc} {names : Text → Option ℕ} {n : ℕ}
    (m : Models st types names n) (t : TypePtr) (d : TypeDesc) (u : Bool) (fs : List FieldDesc)
    (aliases : List Text) (listed : types t ≡ some d)
    (is : d.body ≡ composite (fields u fs) aliases) (i : ℕ) (f : FieldDesc) (name : CharPtr)
    → get_elem? fs i ≡ some f
    → length fs < not_found
    → text st.memory name ≡ some f.name
    → Returns (reflect_get_field_type st (some t) name) (λ p.
      (j : ℕ) × (g : FieldDesc) × (p ≡ some (member t j))
      × (i ≤ j)
      × (get_elem? fs j ≡ some g)
      × (g.name ≡ f.name)
      × Returns (load_field st (member t j)) (λ info. FieldMatches st.memory info g))
reflect_get_field_type-load_field m t d u fs aliases listed is i f name at few named =
    let e = length-field_names fs in
    let (j, found_at, later) =
      last_index-le 0 (field_names fs) f.name i (field_names-get_elem? fs i f at) in
    let (j', same, at', inside) = last_index-some 0 (field_names fs) f.name j found_at in
    let there : get_elem? (field_names fs) j ≡ some f.name =
      subst (λ k. get_elem? (field_names fs) k ≡ some f.name) (omega arith) at' in
    let (g, at_g, named_g) = get_elem?-field_names fs j f.name there in
    (
      some (member t j),
      reflect_get_field_type-member_index m t d u fs aliases listed is name f.name named
            (omega arith) (omega arith)
          ∙ rw found_at,
      (
        j,
        g,
        refl,
        omega arith,
        at_g,
        named_g,
        load_field-FieldMatches m t d u fs aliases listed is j g at_g,
      ),
    )

-- In tables that model a list of types, for a listed type with one or more members (fewer than
-- 2^64 - 1), `reflect_get_field_type` of a string that is the name of none of them returns
-- NULL.
pub reflect_get_field_type_absent :
    {st : State} {types : ℕ → Option TypeDesc} {names : Text → Option ℕ} {n : ℕ}
    (m : Models st types names n) (t : TypePtr) (d : TypeDesc) (c : Content) (aliases : List Text)
    (listed : types t ≡ some d) (is : d.body ≡ composite c aliases) (name : CharPtr) (k : Text)
    → text st.memory name ≡ some k
    → 0 < length (member_names c)
    → length (member_names c) < not_found
    → ((i : ℕ) → get_elem? (member_names c) i ≢ some k)
    → reflect_get_field_type st (some t) name ≡ ok none
unfolding reflect_get_field_type get_field_type
reflect_get_field_type_absent m t d c aliases listed is name k named some_member few none_such =
    rw (member_id-member_index m t d c aliases listed is name k named some_member, absent_index)
      refl
  where
    absent_index : member_index c k ≡ none
    absent_index = elim (Option-cases (member_index c k)) [
      | inl e ↦ e
      | inr (j, e) ↦
          let (j', same, at, inside) = last_index-some 0 (member_names c) k j e in
          absurd (none_such j' at)
    ]

-- In tables that model a list of types, `reflect_get_field_type` on a listed struct, union or
-- enum without members divides by zero, for any string in memory as the name.
pub reflect_get_field_type-no_members :
    {st : State} {types : ℕ → Option TypeDesc} {names : Text → Option ℕ} {n : ℕ}
    (m : Models st types names n) (t : TypePtr) (d : TypeDesc) (c : Content) (aliases : List Text)
    (listed : types t ≡ some d) (is : d.body ≡ composite c aliases) (name : CharPtr) (k : Text)
    → text st.memory name ≡ some k
    → length (member_names c) ≡ 0
    → reflect_get_field_type st (some t) name ≡ fault division_by_zero
unfolding reflect_get_field_type get_field_type
reflect_get_field_type-no_members m t d c aliases listed is name k named empty =
    rw (member_id-no_members m t d c aliases listed is name k named empty)
