-- ===== src/Format.antt =====
-- The contents of a reflection.dat file, described apart from the C code: what types it lists, and
-- the bytes that `write_reflection_dat` of merge/merge.py lays out for them on a 64-bit target.
-- An encoder is given the bytes that follow.
pub mod Names
pub mod Lookup
use reflect_c.Base.{
  ℕ, zero, suc, ◌+◌, ◌-◌, ◌*◌, ◌/◌, ◌%◌, ◌^◌, ◌≤◌, ◌<◌, bit_xor, ◌≡◌, refl, sym, ap, ◌∙◌, fun_ext,
  subst, ◌≢◌, ◌↔◌, ◌⊎◌, inl, inr, Bool, true, false, ◌&&◌, ◌||◌, not, Option, none, some, List, [],
  ◌∷◌, ◌++◌, map, append_assoc, append-nil, arith, ltb, ◌==◌, if◌then◌else◌, ==_refl, eq-of_==,
  Bool-cases, Option-cases, ◌===◌, ===_refl, eq-of_===, ===_iff, lt_cases, lt→ltb, length,
  get_elem?, get_or, set, take, drop, replicate, length-append, length-set, length-replicate,
  length-drop, get_elem?-set, get_elem?-get_or, get_or-set, get_or-replicate, get_or-append,
  drop-nil, drop-drop, drop-append, set-append_length, get_or-append_self, Fault, Run, ◌>>=◌,
  or_fault, Returns, ok, fault, out_of_bounds, uninitialised, null_pointer, division_by_zero,
  wrong_member, trap_value,
}
use reflect_c.Reader.Encoding.{little_endian}
use reflect_c.Reader.Cursor.{bool_byte}

abbrev pub Text : Type 0
Text = List ℕ

pub record FieldDesc : Type 0 where
  pub name : Text
  pub is_const : Bool
  pub ptr_depth : ℕ
  pub offset : ℕ
  pub arr_size : ℕ
  pub type_id : ℕ

pub record Enumerator : Type 0 where
  pub name : Text
  pub value : ℕ

-- The members of a struct, a union (if the flag is set) or an enum.
pub data Content : Type 0 where
  fields : Bool → List FieldDesc → Content
  enumerators : List Enumerator → Content

-- A base type, or members with the aliases of the type.
pub data Body : Type 0 where
  base : Body
  composite : Content → List Text → Body

pub record TypeDesc : Type 0 where
  pub id : ℕ
  pub name : Text
  pub size : ℕ
  pub body : Body

-- The byte of the variant, as in `object_types`.
abbrev pub content_code : Content → ℕ
content_code (fields false fs) = 2
content_code (fields true fs) = 3
content_code (enumerators es) = 4

abbrev pub body_code : Body → ℕ
body_code base = 1
body_code (composite c aliases) = content_code c

-- `place` is where the file has the characters of a name.
module _ (place : Text → ℕ) where
  abbrev pub encode_field : FieldDesc → List ℕ → List ℕ
  encode_field f rest =
      little_endian 8 (place f.name)
      ++ bool_byte f.is_const
        ∷ (little_endian 4 f.ptr_depth
            ++ (little_endian 8 f.offset
                ++ (little_endian 8 f.arr_size ++ (little_endian 8 f.type_id ++ rest))))

  abbrev pub encode_fields : List FieldDesc → List ℕ → List ℕ
  encode_fields [] rest = rest
  encode_fields (f ∷ fs) rest = encode_field f (encode_fields fs rest)

  abbrev pub encode_enumerators : List Enumerator → List ℕ → List ℕ
  encode_enumerators [] rest = rest
  encode_enumerators (e ∷ es) rest =
      little_endian 8 (place e.name) ++ (little_endian 8 e.value ++ encode_enumerators es rest)

  abbrev pub encode_aliases : List Text → List ℕ → List ℕ
  encode_aliases [] rest = rest
  encode_aliases (a ∷ names) rest = little_endian 8 (place a) ++ encode_aliases names rest

  abbrev pub encode_content : Content → List ℕ → List ℕ
  encode_content (fields u fs) rest = little_endian 8 (length fs) ++ encode_fields fs rest
  encode_content (enumerators es) rest = little_endian 8 (length es) ++ encode_enumerators es rest

  abbrev pub encode_body : Body → List ℕ → List ℕ
  encode_body base rest = rest
  encode_body (composite c aliases) rest =
      encode_content c (little_endian 8 (length aliases) ++ encode_aliases aliases rest)

  abbrev pub encode_type : TypeDesc → List ℕ → List ℕ
  encode_type d rest =
      little_endian 8 d.id
      ++ body_code d.body
        ∷ (little_endian 8 (place d.name) ++ (little_endian 8 d.size ++ encode_body d.body rest))

  abbrev pub encode_types : List TypeDesc → List ℕ → List ℕ
  encode_types [] rest = rest
  encode_types (d ∷ ds) rest = encode_type d (encode_types ds rest)
