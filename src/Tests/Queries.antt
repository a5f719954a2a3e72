-- ===== src/Tests/Queries.antt =====
-- The queries on the loaded file.
use reflect_c.Base.{
  ℕ, zero, suc, ◌≤◌, ◌<◌, ◌≡◌, refl, ap, ◌∙◌, ◌≢◌, true, false, none, some, List, [], ◌∷◌, arith,
  ◌===◌, ===_iff, get_elem?, Returns, ok, fault, out_of_bounds, division_by_zero,
}
use reflect_c.Memory.Strings.{c_string}
use reflect_c.Format.{FieldDesc, Enumerator}
use reflect_c.Format.Names.{names_of, last_index, last_index-le}
use reflect_c.Types.{get_internal_from_type_info}
use reflect_c.Types.Describes.{FieldMatches}
use reflect_c.Load.{reflect_load_bytes}
use reflect_c.Load.File.{no_names, LoadedFile, reflect_load_bytes-LoadedFile}
use reflect_c.Query.{
  load_field, reflect_type_info_from_name, reflect_get_field_type, reflect_get_enum_value,
  reflect_field_info_iter_begin, reflect_field_info_iter_end, reflect_enum_info_iter_begin,
  reflect_enum_info_iter_end,
}
use reflect_c.Query.Names.{reflect_type_info_from_name-initial}
use reflect_c.Query.Fields.{
  member, iter_begin-iter_end, reflect_get_field_type_absent, reflect_get_field_type-no_members,
}
use reflect_c.Query.Enums.{enum_queries_guarded, iter_end-out_of_bounds}
use reflect_c.Query.Loaded.{load-type_info_from_name, load-get_field_type, load-get_enum_value}
use reflect_c.Query.Loaded.{load-listed_type}
use reflect_c.Load.Short.{reflect_load_bytes-short}
use reflect_c.Types.Describes.{Describes}
use reflect_c.Format.{Text, TypeDesc}
use reflect_c.Format.Lookup.{names_in, IsFreeId, IsFreeName}
use reflect_c.Tests.Image.{p_name, u_name, e_name}
use reflect_c.Tests.Loaded.{loaded, loaded-Models, loaded-text}
use reflect_c.Tests.Image.{
  x_name, y_name, p_name, q_name, a_name, x_field, y_field, a_enumerator, p_type, e_type, u_type,
  listed, place, memory, start, program_string, before, image,
}

reflect_load_bytes-LoadedFile_example :
    Returns (reflect_load_bytes start true before) (LoadedFile before listed)
reflect_load_bytes-LoadedFile_example =
    reflect_load_bytes-LoadedFile start place listed true before refl image

load-type_info_from_name_example : Returns (reflect_load_bytes start false before) (λ st'.
    reflect_type_info_from_name st' (program_string 0) ≡ ok (names_of listed no_names p_name))
unfolding c_string
load-type_info_from_name_example =
    load-type_info_from_name start place listed false before refl image (program_string 0) p_name
      refl

load-get_field_type_example : Returns (reflect_load_bytes start true before) (λ st'.
    (j : ℕ) × (g : FieldDesc) × (1 ≤ j)
    × (get_elem? (x_field ∷ y_field ∷ []) j ≡ some g)
    × (g.name ≡ y_name)
    × (reflect_get_field_type st' (some 2) (program_string 2) ≡ ok (some (member 2 j)))
    × Returns (load_field st' (member 2 j)) (λ info. FieldMatches st'.memory info g))
unfolding c_string
load-get_field_type_example =
    load-get_field_type start place listed true before refl image 2 p_type refl false
      (x_field ∷ y_field ∷ []) (q_name ∷ []) 1 y_field (program_string 2) refl refl (omega arith)
      refl

load-get_enum_value_example : Returns (reflect_load_bytes start false before) (λ st'.
    (j : ℕ) × (w : Enumerator) × (0 ≤ j)
    × (get_elem? (a_enumerator ∷ []) j ≡ some w)
    × (w.name ≡ a_name)
    × (reflect_get_enum_value st' (some 3) (program_string 4) ≡ ok (some w.value)))
unfolding c_string
load-get_enum_value_example =
    load-get_enum_value start place listed false before refl image 3 e_type refl (a_enumerator ∷ [])
      [] 0 a_enumerator (program_string 4) refl refl (omega arith) refl

enum_queries_guarded_example :
    (reflect_get_enum_value (loaded false) (some 2) (program_string 4) ≡ ok none)
    × (reflect_enum_info_iter_begin (loaded false) (some 2) ≡ ok none)
    × (reflect_enum_info_iter_end (loaded false) (some 2) ≡ ok none)
enum_queries_guarded_example =
    enum_queries_guarded (loaded-Models false) 2 p_type refl (program_string 4) refl

iter_begin-iter_end_example :
    (reflect_field_info_iter_begin (loaded true) (some 2) ≡ ok (some (member 2 0)))
    × (reflect_field_info_iter_end (loaded true) (some 2) ≡ ok (some (member 2 2)))
    × (1 < 2)
    × Returns
        (load_field (loaded true) (member 2 1))
        (λ info. FieldMatches (loaded true).memory info y_field)
iter_begin-iter_end_example =
    iter_begin-iter_end (loaded-Models true) 2 p_type false (x_field ∷ y_field ∷ []) (q_name ∷ [])
      refl refl 1 y_field refl

iter_end-out_of_bounds_example :
    (reflect_field_info_iter_end (loaded true) (some 3) ≡ fault out_of_bounds)
    × (reflect_enum_info_iter_end (loaded true) (some 3) ≡ ok (some (member 3 1)))
iter_end-out_of_bounds_example =
    iter_end-out_of_bounds (loaded-Models true) 3 e_type refl (a_enumerator ∷ []) [] refl
      (omega arith)

pub no_a_field : (i : ℕ) → get_elem? (x_name ∷ y_name ∷ []) i ≢ some a_name
unfolding last_index ◌===◌
no_a_field i h =
    let (j, e, later) = last_index-le 0 (x_name ∷ y_name ∷ []) a_name i h in
    let nothing : none ≡ some j = e in cc nothing

reflect_get_field_type_absent_example :
    reflect_get_field_type (loaded true) (some 2) (program_string 4) ≡ ok none
unfolding c_string
reflect_get_field_type_absent_example =
    reflect_get_field_type_absent (loaded-Models true) 2 p_type _ (q_name ∷ []) refl refl
      (program_string 4) a_name (loaded-text true (program_string 4) refl) (omega arith)
      (omega arith) no_a_field

reflect_get_field_type-no_members_example :
    reflect_get_field_type (loaded false) (some 4) (program_string 4) ≡ fault division_by_zero
unfolding c_string
reflect_get_field_type-no_members_example =
    reflect_get_field_type-no_members (loaded-Models false) 4 u_type _ [] refl refl
      (program_string 4) a_name (loaded-text false (program_string 4) refl) refl

reflect_type_info_from_name-initial_example :
    reflect_type_info_from_name before (program_string 0) ≡ fault division_by_zero
unfolding c_string
reflect_type_info_from_name-initial_example =
    reflect_type_info_from_name-initial memory (program_string 0) p_name refl

IsFreeId-cons :
    (c : TypeDesc) (ds : List TypeDesc) (id : ℕ) → c.id ≢ id → IsFreeId ds id → IsFreeId (c ∷ ds) id
IsFreeId-cons c ds id other free zero d at h =
    let same : c ≡ d = cc in other (ap (λ (x : TypeDesc). x.id) same ∙ h)
IsFreeId-cons c ds id other free (suc j) d at h = free j d at h

no_single : (a q : Text) → (a === q) ≡ false → (k : ℕ) → get_elem? (a ∷ []) k ≢ some q
no_single a q other zero h = let same = (===_iff a q).1 (ground arith) in ground arith
no_single a q other (suc k) h = cc

IsFreeName-cons :
    (c : TypeDesc) (ds : List TypeDesc) (q : Text)
    → ((k : ℕ) → get_elem? (names_in c) k ≢ some q)
    → IsFreeName ds q
    → IsFreeName (c ∷ ds) q
IsFreeName-cons c ds q other free zero k d at h =
    let same : c ≡ d = cc in other k (ap (λ (x : TypeDesc). get_elem? (names_in x) k) same ∙ h)
IsFreeName-cons c ds q other free (suc j) k d at h = free j k d at h

p_id_free : IsFreeId (e_type ∷ u_type ∷ []) 2
p_id_free =
    IsFreeId-cons e_type (u_type ∷ []) 2 (λ h. absurd (omega arith))
      (IsFreeId-cons u_type [] 2 (λ h. absurd (omega arith)) (λ j d at h. cc at))

p_name_free : IsFreeName (e_type ∷ u_type ∷ []) p_name
unfolding ◌===◌
p_name_free =
    IsFreeName-cons e_type (u_type ∷ []) p_name (no_single e_name p_name refl)
      (IsFreeName-cons u_type [] p_name (no_single u_name p_name refl) (λ j k d at h. cc at))

load-listed_type_example : Returns (reflect_load_bytes start true before) (λ st'.
    (reflect_type_info_from_name st' (program_string 0) ≡ ok (some 2))
    × Returns (get_internal_from_type_info st' 2) (λ e. Describes st'.memory e p_type))
unfolding c_string
load-listed_type_example =
    load-listed_type start place listed true before refl image 1 p_type (program_string 0) refl
      p_id_free p_name_free refl

reflect_load_bytes-short_example :
    reflect_load_bytes (program_string 0) true before ≡ fault out_of_bounds
reflect_load_bytes-short_example =
    reflect_load_bytes-short (program_string 0) true before refl (omega arith)
