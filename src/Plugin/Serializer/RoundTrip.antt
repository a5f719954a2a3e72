-- ===== src/Plugin/Serializer/RoundTrip.antt =====
-- What `serialize` writes, read line by line.
use reflect_c.Base.{
  ℕ, ◌≡◌, refl, inl, inr, true, some, List, [], ◌∷◌, Bool-cases, ◌===◌, IsIn, first, later,
}
use reflect_c.Format.{Text}
use reflect_c.Plugin.Int.{ℤ}
use reflect_c.Plugin.Types.{
  TypeVariant, base, struct, union, enum, BaseType, FieldInfo, RecordInfo, EnumInfo,
}
use reflect_c.Plugin.Visitor.{BaseTypes}
use reflect_c.Plugin.Serializer.{
  alias_lines, type_lines, base_lines, one_field, field_lines, record_word, record_lines,
  enumerator_lines, enum_lines, serialize,
}
use reflect_c.Plugin.Serializer.Commands as Commands
use reflect_c.Plugin.Serializer.Commands.{
  Command, read_text, read_lines, alias_commands, type_commands, tag_of, field_commands,
  enumerator_commands, base_commands, record_commands, enum_commands, file_commands,
  struct_or_union,
}
use reflect_c.Plugin.Serializer.Lines.{
  OneLine, Reads, read_text-Reads, Reads-nil, Reads-append, Reads-name, Reads-alias, Reads-type,
  Reads-ek, Reads-arch, Reads-size, Reads-offset, Reads-pdepth, Reads-arrsize, Reads-ev,
  Reads-const, Reads-isstruct, Reads-base, Reads-struct, Reads-union, Reads-enum, Reads-field,
  Reads-enumerator,
}

-- No name has a line break.
abbrev AliasesAreLines : List Text → Type 0
AliasesAreLines aliases = (a : Text) → IsIn a aliases → OneLine a

unfoldable pub TypeIsLines : BaseType → Type 0
TypeIsLines t = OneLine t.name × AliasesAreLines t.aliases

unfoldable pub FieldIsLines : FieldInfo → Type 0
FieldIsLines fi = OneLine fi.name × OneLine (tag_of fi)

pub record IsLines (base_types : BaseTypes) (records : List RecordInfo) (enums : List EnumInfo)
    : Type 0 where
  pub base_lem : (key : Text) (t : BaseType) → IsIn (key, t) base_types → TypeIsLines t
  pub record_lem :
      (r : RecordInfo)
      → IsIn r records
      → TypeIsLines r.base × ((fi : FieldInfo) → IsIn fi r.fields → FieldIsLines fi)
  pub enum_lem :
      (en : EnumInfo)
      → IsIn en enums
      → TypeIsLines en.base
        × ((key : Text) (value : ℤ) → IsIn (key, value) en.enumerators → OneLine key)

alias_lines-Reads :
    (own : Text) (aliases : List Text)
    → AliasesAreLines aliases
    → Reads (alias_lines own aliases) (alias_commands own aliases)
unfolding alias_lines alias_commands
alias_lines-Reads own [] h = Reads-nil
alias_lines-Reads own (a ∷ aliases) h =
    let rest = alias_lines-Reads own aliases (λ b isin. h b (later isin)) in
    elim (Bool-cases (a === own)) [
      | inl e ↦ rw e rest
      | inr e ↦ rw e (Reads-append (Reads-alias a (h a first)) rest)
    ]

type_lines-Reads : (t : BaseType) → TypeIsLines t → Reads (type_lines t) (type_commands t)
unfolding TypeIsLines
type_lines-Reads t (named, aliased) =
    Reads-append
      (Reads-append (Reads-name t.name named) (alias_lines-Reads t.name t.aliases aliased))
      (Reads-size t.size)

base_lines-Reads_cons :
    (v : TypeVariant) (key : Text) (t : BaseType) (base_types : BaseTypes)
    → t.variant ≡ v
    → TypeIsLines t
    → Reads (base_lines base_types) (base_commands base_types)
    → Reads (base_lines ((key, t) ∷ base_types)) (base_commands ((key, t) ∷ base_types))
unfolding base_lines base_commands
base_lines-Reads_cons base key t base_types e typed rest =
    rw e (Reads-append (Reads-append Reads-base (type_lines-Reads t typed)) rest)
base_lines-Reads_cons struct key t base_types e typed rest = rw e rest
base_lines-Reads_cons union key t base_types e typed rest = rw e rest
base_lines-Reads_cons enum key t base_types e typed rest = rw e rest

base_lines-Reads :
    (base_types : BaseTypes)
    → ((key : Text) (t : BaseType) → IsIn (key, t) base_types → TypeIsLines t)
    → Reads (base_lines base_types) (base_commands base_types)
unfolding base_lines base_commands
base_lines-Reads [] h = Reads-nil
base_lines-Reads ((key, t) ∷ base_types) h =
    base_lines-Reads_cons t.variant key t base_types refl (h key t first)
      (base_lines-Reads base_types (λ k u isin. h k u (later isin)))

one_field-Reads :
    (fi : FieldInfo) → FieldIsLines fi → Reads (one_field fi) (field_commands (fi ∷ []))
unfolding FieldIsLines field_commands
one_field-Reads fi (named, typed) =
    Reads-append
      (Reads-append
        (Reads-append
          (Reads-append
            (Reads-append
              (Reads-append (Reads-append Reads-field (Reads-name fi.name named))
                (Reads-type (tag_of fi) typed))
              (Reads-offset fi.offset))
            (Reads-pdepth fi.pointer_depth))
          (Reads-arrsize fi.array_size))
        (Reads-const fi.is_const))
      (Reads-isstruct fi.is_struct_or_union)

field_lines-Reads :
    (fields : List FieldInfo)
    → ((fi : FieldInfo) → IsIn fi fields → FieldIsLines fi)
    → Reads (field_lines fields) (field_commands fields)
unfolding field_lines field_commands
field_lines-Reads [] h = Reads-nil
field_lines-Reads (fi ∷ fields) h =
    Reads-append (one_field-Reads fi (h fi first))
      (field_lines-Reads fields (λ g isin. h g (later isin)))

record_word-Reads :
    (v : TypeVariant) → Reads (record_word v) (Commands.begin (struct_or_union v) ∷ [])
record_word-Reads base = Reads-union
record_word-Reads struct = Reads-struct
record_word-Reads union = Reads-union
record_word-Reads enum = Reads-union

record_lines-Reads :
    (records : List RecordInfo)
    → ((r : RecordInfo)
        → IsIn r records
        → TypeIsLines r.base × ((fi : FieldInfo) → IsIn fi r.fields → FieldIsLines fi))
    → Reads (record_lines records) (record_commands records)
unfolding record_lines record_commands
record_lines-Reads [] h = Reads-nil
record_lines-Reads (r ∷ records) h =
    let (typed, fielded) = h r first in
    Reads-append
      (Reads-append
        (Reads-append (record_word-Reads r.base.variant) (type_lines-Reads r.base typed))
        (field_lines-Reads r.fields fielded))
      (record_lines-Reads records (λ q isin. h q (later isin)))

enumerator_lines-Reads :
    (enumerators : List (Text × ℤ))
    → ((key : Text) (value : ℤ) → IsIn (key, value) enumerators → OneLine key)
    → Reads (enumerator_lines enumerators) (enumerator_commands enumerators)
unfolding enumerator_lines enumerator_commands
enumerator_lines-Reads [] h = Reads-nil
enumerator_lines-Reads ((key, value) ∷ es) h =
    Reads-append
      (Reads-append (Reads-append Reads-enumerator (Reads-ek key (h key value first)))
        (Reads-ev value))
      (enumerator_lines-Reads es (λ k v isin. h k v (later isin)))

enum_lines-Reads :
    (enums : List EnumInfo)
    → ((en : EnumInfo)
        → IsIn en enums
        → TypeIsLines en.base
          × ((key : Text) (value : ℤ) → IsIn (key, value) en.enumerators → OneLine key))
    → Reads (enum_lines enums) (enum_commands enums)
unfolding enum_lines enum_commands
enum_lines-Reads [] h = Reads-nil
enum_lines-Reads (en ∷ enums) h =
    let (typed, keyed) = h en first in
    Reads-append
      (Reads-append (Reads-append Reads-enum (type_lines-Reads en.base typed))
        (enumerator_lines-Reads en.enumerators keyed))
      (enum_lines-Reads enums (λ q isin. h q (later isin)))

-- Where the file opens, and no name, alias, type name or key has a line break, `serialize`
-- writes a text that, read line by line, a word and what follows it, is the list of what there
-- is to say of the base types, the records with their fields and the enums with their
-- enumerators, in this order: each name, each alias that is not the name, each number and each
-- flag.
pub read_text-serialize :
    (base_types : BaseTypes) (records : List RecordInfo) (enums : List EnumInfo) (arch_size : ℕ)
    → IsLines base_types records enums
    → (text : Text) × (serialize true base_types records enums arch_size ≡ some text)
      × (read_text text ≡ some (file_commands base_types records enums arch_size))
unfolding serialize
read_text-serialize base_types records enums arch_size h =
    let parts =
      Reads-append
        (Reads-append (Reads-append (Reads-arch arch_size) (base_lines-Reads base_types h.base_lem))
          (record_lines-Reads records h.record_lem))
        (enum_lines-Reads enums h.enum_lem) in
    (_, refl, read_text-Reads _ _ parts)
