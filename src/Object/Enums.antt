-- ===== src/Object/Enums.antt =====
-- What becomes of a field that is asked for in an object of an enum type.
use reflect_c.Base.{
  ℕ, ◌<◌, ◌≡◌, refl, false, Option, some, List, arith, ◌==◌, length, get_elem?, fault, wrong_member,
}
use reflect_c.Memory.{CharPtr}
use reflect_c.Memory.Strings.{text}
use reflect_c.Hashtable.{not_found}
use reflect_c.Format.{Text, Enumerator, enumerators, composite, TypeDesc}
use reflect_c.Format.Names.{
  last_index-some, last_index-le, enumerator_names, length-enumerator_names,
  enumerator_names-get_elem?,
}
use reflect_c.Types.{TypePtr, State}
use reflect_c.Types.Models.{Models}
use reflect_c.Query.{load_field}
use reflect_c.Query.Entries.{member_id-member_index, get_internal-HasContent}
use reflect_c.Query.Fields.{member}
use reflect_c.Object.{Heap, reflect_get_field, field_address}
use reflect_c.Object.Laws.{IsObject, reflect_get_type_info-IsObject}

module _ {st : State} {types : ℕ → Option TypeDesc} {names : Text → Option ℕ} {n : ℕ}
    (m : Models st types names n) (t : TypePtr) (d : TypeDesc) (es : List Enumerator)
    (aliases : List Text) (listed : types t ≡ some d)
    (is : d.body ≡ composite (enumerators es) aliases) where
  load_field-wrong_member : (i : ℕ) → load_field st (member t i) ≡ fault wrong_member
  unfolding load_field
  load_field-wrong_member i =
      let (e, run, (described, h)) = get_internal-HasContent m t d _ aliases listed is in
      let (infos, held, match) = h.members in rw (run, held) refl

  -- In tables that model a list of types, for an object of a listed enum and a string that is
  -- the name of one of its enumerators (of fewer than 2^64 - 1), `reflect_get_field` reads the
  -- array of enumerators as one of fields.
  pub reflect_get_field-wrong_member :
      (heap : Heap) (ptr i : ℕ) (v : Enumerator) (name : CharPtr)
      → IsObject heap ptr t
      → get_elem? es i ≡ some v
      → length es < not_found
      → text st.memory name ≡ some v.name
      → reflect_get_field st heap (some ptr) name ≡ fault wrong_member
  unfolding reflect_get_field field_address
  reflect_get_field-wrong_member heap ptr i v name object at few named =
      let (j, found_at, later) =
        last_index-le 0 (enumerator_names es) v.name i (enumerator_names-get_elem? es i v at) in
      let (j', same, there, inside) = last_index-some 0 (enumerator_names es) v.name j found_at in
      let count = length-enumerator_names es in
      let id_run =
        member_id-member_index m t d (enumerators es) aliases listed is name v.name named
          (omega arith) in
      let small : (j == not_found) ≡ false = ground arith in
      rw (reflect_get_type_info-IsObject object)
        (rw (id_run, found_at) (rw (small, load_field-wrong_member j) refl))
