-- ===== src/Tests/Visits.antt =====
-- The plugin on that translation unit, and the text of a small file.
use reflect_c.Base.{
  ◌≡◌, refl, sym, subst, true, some, List, [], ◌∷◌, ◌===◌, IsIn, IsIn-one, Terminates, Settles,
  codes, first, later,
}
use reflect_c.Format.{Text}
use reflect_c.Plugin.Int.{ℤ, negsuc}
use reflect_c.Plugin.Types.{
  base, struct, BaseType, base_type, field_info, RecordInfo, EnumInfo, record_info, enum_info,
  FieldInfo,
}
use reflect_c.Plugin.Field.Describes.{Describes}
use reflect_c.Plugin.Visitor.{visitor}
use reflect_c.Plugin.Visitor.Merge.{HasAlias}
use reflect_c.Plugin.Visit.{visit_record_decl, name_of_record}
use reflect_c.Plugin.Visit.Paths.Reflected.{own_name, Reflected, visit_record_decl-Reflected}
use reflect_c.Plugin.Serializer.{serialize}
use reflect_c.Plugin.Serializer.Commands.{read_text, file_commands}
use reflect_c.Plugin.Serializer.Lines.{one_line}
use reflect_c.Plugin.Serializer.RoundTrip.{TypeIsLines, FieldIsLines, IsLines, read_text-serialize}
use reflect_c.Plugin.Consumer.{
  Decl, record_decl, enum_decl, typedef_decl, collect, handle_translation_unit,
}
use reflect_c.Plugin.Consumer.Ends.{handle_translation_unit-Terminates}
use reflect_c.Plugin.Consumer.Aliases.{Apart, AllApart}
use reflect_c.Plugin.Consumer.Typedefs.{collect-HasAlias}
use reflect_c.Tests.Unit.{clang, clang-IsFinite, outer, inner, color, outer_t}

visit_record_decl-Reflected_example :
    Settles
      (λ fuel. visit_record_decl clang fuel outer (visitor clang))
      (Reflected clang outer (codes "outer") (visitor clang))
unfolding name_of_record ◌===◌
visit_record_decl-Reflected_example =
    visit_record_decl-Reflected clang outer (codes "outer") (visitor clang) clang-IsFinite refl
      (own_name refl (λ e. cc e))

-- The typedef stands before the declarations.
abbrev decls : List (Decl clang)
decls = typedef_decl outer_t ∷ enum_decl color ∷ record_decl inner ∷ record_decl outer ∷ []

handle_translation_unit-Terminates_example :
    Terminates (λ fuel. handle_translation_unit clang (λ m. m) (λ m. m) fuel true decls)
handle_translation_unit-Terminates_example =
    handle_translation_unit-Terminates clang clang-IsFinite (λ m. m) (λ m. m) true decls

decls-AllApart : AllApart clang 100 decls
unfolding Apart
decls-AllApart d first = tt
decls-AllApart d (later first) = refl
decls-AllApart d (later (later first)) = tt
decls-AllApart d (later (later (later first))) = tt
decls-AllApart d (later (later (later (later h)))) = elim h [ ]

collect-HasAlias_example :
    Settles
      (λ fuel. collect clang (λ m. m) fuel decls)
      (λ v. HasAlias 100 (codes "outer_t") v.results)
unfolding name_of_record ◌===◌
collect-HasAlias_example =
    collect-HasAlias clang clang-IsFinite (λ m. m) decls outer_t outer (codes "outer")
      (λ entry m h. h) first (later (later (later first))) refl refl refl decls-AllApart

abbrev pub int_base : BaseType
int_base = base_type base (codes "int") 4 3

abbrev pub inner_record : RecordInfo
inner_record = record (record_info struct (codes "inner") 4 17) {
  fields = field_info (codes "x") (codes "int") 0 ∷ [];
}

abbrev pub color_enum : EnumInfo
color_enum = record (enum_info 102 (codes "color") 4 18) {
  enumerators = (codes "none", negsuc 0) ∷ [];
}

int_base-TypeIsLines : TypeIsLines int_base
unfolding TypeIsLines one_line
int_base-TypeIsLines = (refl, λ a h. elim h [ ])

inner_record-IsLines :
    TypeIsLines inner_record.base
    × ((fi : FieldInfo) → IsIn fi inner_record.fields → FieldIsLines fi)
unfolding TypeIsLines FieldIsLines one_line
inner_record-IsLines =
    ((refl, λ a h. elim h [ ]), λ fi h. subst FieldIsLines (sym (IsIn-one _ _ h)) (refl, refl))

color_enum-IsLines :
    TypeIsLines color_enum.base
    × ((key : Text) (value : ℤ) → IsIn (key, value) color_enum.enumerators → one_line key ≡ true)
unfolding TypeIsLines one_line
color_enum-IsLines = (
  (refl, λ a h. elim h [ ]),
  λ key value h. subst (λ (e : Text × ℤ). one_line e.0 ≡ true) (sym (IsIn-one _ _ h)) refl,
)

small_file-IsLines : IsLines ((codes "int", int_base) ∷ []) (inner_record ∷ []) (color_enum ∷ [])
small_file-IsLines = record {
  base_lem = λ key t h.
      subst (λ (e : Text × BaseType). TypeIsLines e.1) (sym (IsIn-one _ _ h)) int_base-TypeIsLines;
  record_lem = λ r h.
      subst
        (λ (q : RecordInfo).
          TypeIsLines q.base × ((fi : FieldInfo) → IsIn fi q.fields → FieldIsLines fi))
        (sym (IsIn-one _ _ h)) inner_record-IsLines;
  enum_lem = λ en h.
      subst
        (λ (q : EnumInfo).
          TypeIsLines q.base
          × ((key : Text) (value : ℤ) → IsIn (key, value) q.enumerators → one_line key ≡ true))
        (sym (IsIn-one _ _ h)) color_enum-IsLines;
}

read_text-serialize_example :
    (text : Text) × (serialize true
        ((codes "int", int_base) ∷ [])
        (inner_record ∷ [])
        (color_enum ∷ [])
        8
      ≡ some text)
    × (read_text text
        ≡ some
            (file_commands ((codes "int", int_base) ∷ []) (inner_record ∷ []) (color_enum ∷ []) 8))
read_text-serialize_example =
    read_text-serialize ((codes "int", int_base) ∷ []) (inner_record ∷ []) (color_enum ∷ []) 8
      small_file-IsLines
