-- ===== src/Tests/Unit.antt =====
-- A translation unit with two structs, an enum and a typedef, as Clang would give it:
--   typedef struct outer outer_t; struct inner { num_t x; };
--   struct outer { char *names[2][3]; struct inner in; }; enum color { red, none = -1 };
use reflect_c.Base.{
  ℕ, zero, suc, ◌<◌, ◌≡◌, subst, Bool, true, false, Option, none, some, List, [], ◌∷◌, arith,
  get_elem?, codes,
}
use reflect_c.Format.{Text}
use reflect_c.Plugin.Int.{pos, negsuc}
use reflect_c.Plugin.Clang.{Clang, IsFinite}

pub data Rec : Type 0 where
  outer : Rec
  inner : Rec

pub data Fld : Type 0 where
  names_field : Fld
  in_field : Fld
  x_field : Fld

pub data Enm : Type 0 where
  color : Enm

pub data Tdf : Type 0 where
  outer_t : Tdf

pub data Typ : Type 0 where
  names_type : Typ
  row_type : Typ
  string_type : Typ
  char_type : Typ
  int_type : Typ
  inner_type : Typ
  outer_type : Typ

pub data Loc : Type 0 where
  elaborated : Loc
  num_loc : Loc

abbrev rec_name : Rec → Text
rec_name outer = codes "outer"
rec_name inner = codes "inner"

abbrev rec_tag : Rec → ℕ
rec_tag outer = 100
rec_tag inner = 101

abbrev rec_fields : Rec → List Fld
rec_fields outer = names_field ∷ in_field ∷ []
rec_fields inner = x_field ∷ []

abbrev rec_size : Rec → ℕ
rec_size outer = 56
rec_size inner = 4

-- In bits.
abbrev rec_offset : Rec → ℕ → ℕ
rec_offset outer zero = 0
rec_offset outer (suc i) = 384
rec_offset inner i = 0

abbrev fld_name : Fld → Text
fld_name names_field = codes "names"
fld_name in_field = codes "in"
fld_name x_field = codes "x"

abbrev fld_type : Fld → Typ
fld_type names_field = names_type
fld_type in_field = inner_type
fld_type x_field = int_type

abbrev fld_loc : Fld → Option Loc
fld_loc names_field = none
fld_loc in_field = none
fld_loc x_field = some elaborated

abbrev loc_typedef : Loc → Option Text
loc_typedef elaborated = none
loc_typedef num_loc = some (codes "num_t")

abbrev loc_named : Loc → Option Loc
loc_named elaborated = some num_loc
loc_named num_loc = none

abbrev typ_array : Typ → Option (ℕ × Typ)
typ_array names_type = some (2, row_type)
typ_array row_type = some (3, string_type)
typ_array string_type = none
typ_array char_type = none
typ_array int_type = none
typ_array inner_type = none
typ_array outer_type = none

abbrev typ_pointer : Typ → Option Typ
typ_pointer names_type = none
typ_pointer row_type = none
typ_pointer string_type = some char_type
typ_pointer char_type = none
typ_pointer int_type = none
typ_pointer inner_type = none
typ_pointer outer_type = none

abbrev typ_record : Typ → Option Rec
typ_record names_type = none
typ_record row_type = none
typ_record string_type = none
typ_record char_type = none
typ_record int_type = none
typ_record inner_type = some inner
typ_record outer_type = some outer

abbrev typ_is_record : Typ → Bool
typ_is_record t = elim (typ_record t) [ none ↦ false | some r ↦ true ]

abbrev typ_tag : Typ → Option ℕ
typ_tag t = elim (typ_record t) [ none ↦ none | some r ↦ some (rec_tag r) ]

abbrev typ_name : Typ → Text
typ_name names_type = codes "char *[2][3]"
typ_name row_type = codes "char *[3]"
typ_name string_type = codes "char *"
typ_name char_type = codes "char"
typ_name int_type = codes "int"
typ_name inner_type = codes "struct inner"
typ_name outer_type = codes "struct outer"

abbrev pub clang : Clang
clang = record {
  RecordDecl = Rec;
  FieldDecl = Fld;
  EnumDecl = Enm;
  TypedefDecl = Tdf;
  QualType = Typ;
  TypeLoc = Loc;
  is_complete_definition = λ rd. true;
  is_struct = λ rd. true;
  get_name = rec_name;
  get_typedef_name_for_anon_decl = λ rd. none;
  get_canonical_decl = rec_tag;
  fields = rec_fields;
  get_size = rec_size;
  get_field_offset = rec_offset;
  get_field_name = fld_name;
  get_type = fld_type;
  get_type_loc = fld_loc;
  as_typedef_type_loc = loc_typedef;
  as_elaborated_type_loc = loc_named;
  get_desugared_type = λ t. t;
  get_as_constant_array_type = typ_array;
  get_as_pointer_type = typ_pointer;
  get_as_record_type = typ_record;
  get_canonical_type = λ t. t;
  get_unqualified_type = λ t. t;
  is_const_qualified = λ t. false;
  is_record_type = typ_is_record;
  get_as_string = typ_name;
  enum_is_complete_definition = λ ed. true;
  get_enum_name = λ ed. codes "color";
  get_typedef_name_for_anon_enum = λ ed. none;
  get_canonical_enum = λ ed. 102;
  get_type_size_in_chars = λ ed. 4;
  enumerators = λ ed. (codes "red", pos 0) ∷ (codes "none", negsuc 0) ∷ [];
  get_typedef_name = λ td. codes "outer_t";
  get_underlying_type = λ td. outer_type;
  get_as_tag_type = typ_tag;
  get_pointer_width = 64;
}

abbrev typ_rank : Typ → ℕ
typ_rank names_type = 3
typ_rank row_type = 2
typ_rank string_type = 1
typ_rank char_type = 0
typ_rank int_type = 0
typ_rank inner_type = 0
typ_rank outer_type = 0

abbrev loc_rank_of : Loc → ℕ
loc_rank_of elaborated = 1
loc_rank_of num_loc = 0

abbrev rec_rank : Rec → ℕ
rec_rank outer = 1
rec_rank inner = 0

typ_array-lt : (t e : Typ) (n : ℕ) → typ_array t ≡ some (n, e) → typ_rank e < typ_rank t
typ_array-lt names_type e n h =
    let same : row_type ≡ e = cc in subst (λ t. typ_rank t < 3) same (omega arith)
typ_array-lt row_type e n h =
    let same : string_type ≡ e = cc in subst (λ t. typ_rank t < 2) same (omega arith)
typ_array-lt string_type e n h = cc h
typ_array-lt char_type e n h = cc h
typ_array-lt int_type e n h = cc h
typ_array-lt inner_type e n h = cc h
typ_array-lt outer_type e n h = cc h

typ_pointer-lt : (t p : Typ) → typ_pointer t ≡ some p → typ_rank p < typ_rank t
typ_pointer-lt string_type p h =
    let same : char_type ≡ p = cc in subst (λ t. typ_rank t < 1) same (omega arith)
typ_pointer-lt names_type p h = cc h
typ_pointer-lt row_type p h = cc h
typ_pointer-lt char_type p h = cc h
typ_pointer-lt int_type p h = cc h
typ_pointer-lt inner_type p h = cc h
typ_pointer-lt outer_type p h = cc h

loc_named-lt : (l m : Loc) → loc_named l ≡ some m → loc_rank_of m < loc_rank_of l
loc_named-lt elaborated m h =
    let same : num_loc ≡ m = cc in subst (λ l. loc_rank_of l < 1) same (omega arith)
loc_named-lt num_loc m h = cc h

nested-lt :
    (rd nested : Rec) (i : ℕ) (f : Fld)
    → get_elem? (rec_fields rd) i ≡ some f
    → typ_record (fld_type f) ≡ some nested
    → rec_rank nested < rec_rank rd
nested-lt outer nested i in_field at typed =
    let same : inner ≡ nested = cc in subst (λ r. rec_rank r < 1) same (omega arith)
nested-lt inner nested zero in_field at typed = cc at
nested-lt inner nested (suc i) in_field at typed = cc at
nested-lt rd nested i names_field at typed = cc typed
nested-lt rd nested i x_field at typed = cc typed

pub clang-IsFinite : IsFinite clang
clang-IsFinite = record {
  type_rank = typ_rank;
  loc_rank = loc_rank_of;
  record_rank = rec_rank;
  element_lt = typ_array-lt;
  pointee_lt = typ_pointer-lt;
  named_lt = loc_named-lt;
  nested_lt = λ rd nested i f at typed complete. nested-lt rd nested i f at typed;
}
