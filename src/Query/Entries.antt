-- ===== src/Query/Entries.antt =====
-- The entry behind a `const type_info_t*`, in tables that were loaded.
use reflect_c.Base.{
  ℕ, zero, suc, ◌<◌, ◌≡◌, ap, ◌∙◌, subst, inl, inr, Option, none, some, List, [], ◌∷◌, arith,
  length, get_elem?, get_or, ◌>>=◌, Returns, ok, fault, division_by_zero,
}
use reflect_c.Memory.{CharPtr}
use reflect_c.Memory.Strings.{text}
use reflect_c.Hashtable.View.{found, hashtable_get-view}
use reflect_c.Hashtable.Fnv.{hashtable_get-no_capacity}
use reflect_c.Format.{Text, Content, composite, TypeDesc}
use reflect_c.Format.Names.{member_names, member_index}
use reflect_c.Types.{TypePtr, State, get_internal_from_type_info}
use reflect_c.Types.Describes.{Describes, HasContent, HasBody}
use reflect_c.Types.Models.{Models, Holds}
use reflect_c.Query.{member_id}

get_elem?-get_or-some :
    {A : Type 0} (xs : List (Option A)) (i : ℕ) (a : A)
    → get_or xs i none ≡ some a
    → get_elem? xs i ≡ some (some a)
get_elem?-get_or-some [] i a h = cc
get_elem?-get_or-some (x ∷ xs) zero a h = ap some h
get_elem?-get_or-some (x ∷ xs) (suc i) a h = get_elem?-get_or-some xs i a h

module _ {st : State} {types : ℕ → Option TypeDesc} {names : Text → Option ℕ} {n : ℕ} where
  -- In tables that model a list of types, the entry of a listed type is there, and has the
  -- name, the id, the size, the variant and the members that the list gives.
  pub get_internal-Describes :
      (m : Models st types names n) (t : TypePtr) (d : TypeDesc)
      → types t ≡ some d
      → Returns (get_internal_from_type_info st t) (λ e. Describes st.memory e d)
  unfolding get_internal_from_type_info
  get_internal-Describes m t d h =
      let (e, slot, described) =
        subst (λ o. Holds st.memory (get_or st.type_table t none) o) h (m.entries t) in
      (e, rw (get_elem?-get_or-some st.type_table t e slot), described)

  pub get_internal-HasContent :
      (m : Models st types names n) (t : TypePtr) (d : TypeDesc) (c : Content) (aliases : List Text)
      → types t ≡ some d
      → d.body ≡ composite c aliases
      → Returns
          (get_internal_from_type_info st t)
          (λ e. Describes st.memory e d × HasContent st.memory e c 0)
  get_internal-HasContent m t d c aliases h is =
      let (e, run, described) = get_internal-Describes m t d h in
      (e, run, (described, subst (λ b. HasBody st.memory e b) is described.body))

  module _ (m : Models st types names n) (t : TypePtr) (d : TypeDesc) (c : Content)
      (aliases : List Text) (listed : types t ≡ some d) (is : d.body ≡ composite c aliases)
      (name : CharPtr) (k : Text) (named : text st.memory name ≡ some k) where
    -- A member's name is looked up in the table of its type.
    pub member_id-member_index :
        0 < length (member_names c) → member_id st t name ≡ ok (found (member_index c k))
    unfolding member_id
    member_id-member_index some_member =
        let (e, run, (described, h)) = get_internal-HasContent m t d c aliases listed is in
        let (ht, held, index) = h.index in
        elim index [
          | inl (empty, no_room) ↦ absurd (omega arith)
          | inr (pos, valid, reads) ↦
              rw (run, held, ◌>>=◌)
                (hashtable_get-view st.memory ht (some name) k valid named ∙ rw (reads k))
        ]

    -- A type without members has a table without buckets: the code divides by zero.
    pub member_id-no_members :
        length (member_names c) ≡ 0 → member_id st t name ≡ fault division_by_zero
    unfolding member_id
    member_id-no_members none_left =
        let (e, run, (described, h)) = get_internal-HasContent m t d c aliases listed is in
        let (ht, held, index) = h.index in
        elim index [
          | inl (empty, no_room) ↦
              rw (run, held, ◌>>=◌)
                (hashtable_get-no_capacity st.memory ht (some name) k no_room named)
          | inr (pos, valid, reads) ↦ absurd (omega arith)
        ]
