-- ===== src/Plugin/Visit/Paths.antt =====
-- The fields of a record and of the records inside it, with their dotted names and byte offsets.
pub mod Nested
pub mod Rounds
pub mod Loops
pub mod Reflected
use reflect_c.Base.{
  ℕ, zero, suc, ◌+◌, ◌-◌, ◌*◌, ◌/◌, ◌%◌, ◌^◌, ◌≤◌, ◌<◌, bit_xor, ◌≡◌, refl, sym, ap, ◌∙◌, fun_ext,
  subst, ◌≢◌, ◌↔◌, ◌⊎◌, inl, inr, Bool, true, false, ◌&&◌, ◌||◌, not, Option, none, some, List, [],
  ◌∷◌, ◌++◌, map, append_assoc, append-nil, arith, ltb, ◌==◌, if◌then◌else◌, ==_refl, eq-of_==,
  Bool-cases, Option-cases, ◌===◌, ===_refl, eq-of_===, ===_iff, lt_cases, lt→ltb, length,
  get_elem?, get_or, set, take, drop, replicate, length-append, length-set, length-replicate,
  length-drop, get_elem?-set, get_elem?-get_or, get_or-set, get_or-replicate, get_or-append,
  drop-nil, drop-drop, drop-append, set-append_length, get_or-append_self, set-set, IsIn,
  IsIn-append_left, IsIn-append_right, IsIn-append_cases, Fault, Run, or_fault, Returns, ◌>>=◌,
  Terminates, Terminates-ok, Terminates-bind, Terminates-suc, Terminates-pred, After, After-bind,
  After-if, After-any, After-ok, After-map, Settles, Settles-After, codes, starts_with, decimal, ok,
  fault, out_of_bounds, uninitialised, null_pointer, division_by_zero, wrong_member, trap_value,
  out_of_fuel, reached, stopped, first, later,
}
use reflect_c.Format.{Text}
use reflect_c.Plugin.Clang.{Clang}
use reflect_c.Plugin.Types.{FieldInfo, field_info, RecordInfo, add_field}

-- What is inside an anonymous field has no prefix.
abbrev pub joined : Text → Text → Text
joined name inner = if name === [] then inner else name ++ codes "." ++ inner

-- One of the fields has this name, and this offset modulo 2^64.
abbrev pub Found : List FieldInfo → Text → ℕ → Type 0
Found infos name offset =
    (fi : FieldInfo) × IsIn fi infos × (fi.name ≡ name) × (fi.offset ≡ offset % 2 ^ 64)

module _ (C : Clang) where
  -- The complete record `nested` is the type of the field.
  abbrev pub Enters : C.FieldDecl → C.RecordDecl → Type 0
  Enters f nested =
      (C.get_as_record_type (C.get_type f) ≡ some nested) × (C.is_complete_definition nested ≡ true)

  -- Clang's offset of a field in bits, a `uint64_t`, in bytes.
  abbrev pub bytes_before : C.RecordDecl → ℕ → ℕ
  bytes_before rd i = C.get_field_offset rd i % 2 ^ 64 / 8

  -- From field `f`, number `i` of `rd`: a name, an offset in bytes, and the field that they lead to.
  pub data FieldPath : C.RecordDecl → ℕ → C.FieldDecl → Text → ℕ → C.FieldDecl → Type 0 where
    itself :
        {rd : C.RecordDecl} {i : ℕ} {f : C.FieldDecl}
        → FieldPath rd i f (C.get_field_name f) (bytes_before rd i) f
    inside :
        {rd nested : C.RecordDecl} {i k : ℕ} {f h g : C.FieldDecl} {s : Text} {offset : ℕ}
        → Enters f nested
        → get_elem? (C.fields nested) k ≡ some h
        → FieldPath nested k h s offset g
        → FieldPath rd i f (joined (C.get_field_name f) s) (bytes_before rd i + offset) g

  -- Field `fi` stands for a path from one of `fields`, the first of which is number `index`.
  pub record Stands (rd : C.RecordDecl) (index : ℕ) (fields : List C.FieldDecl) (prefix : Text)
      (base : ℕ) (fi : FieldInfo) : Type 0 where
    pub place : ℕ
    pub field : C.FieldDecl
    pub at : get_elem? fields place ≡ some field
    pub name : Text
    pub offset : ℕ
    pub target : C.FieldDecl
    pub path : FieldPath rd (index + place) field name offset target
    pub named : fi.name ≡ prefix ++ name
    pub offset_lem : fi.offset ≡ (base + offset) % 2 ^ 64

  -- A record gains a field for each path, and no others.
  pub record Adds (rd : C.RecordDecl) (index : ℕ) (fields : List C.FieldDecl) (prefix : Text)
      (base : ℕ) (r r' : RecordInfo) : Type 0 where
    pub added : List FieldInfo
    pub grown : r' ≡ record r { fields = r.fields ++ added }
    pub sound : (fi : FieldInfo) → IsIn fi added → Stands rd index fields prefix base fi
    pub complete :
        (place : ℕ) (field : C.FieldDecl) (name : Text) (offset : ℕ) (target : C.FieldDecl)
        → get_elem? fields place ≡ some field
        → FieldPath rd (index + place) field name offset target
        → Found added (prefix ++ name) (base + offset)
