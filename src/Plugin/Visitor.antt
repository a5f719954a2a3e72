-- ===== src/Plugin/Visitor.antt =====
-- plugin/ReflectVisitor.hpp and plugin/ReflectVisitor.cpp. The warnings on `llvm::errs()` are left
-- out, and so is the result of a `Visit` method, which is `true` always.
pub mod Aliases
pub mod Merge
use reflect_c.Base.{
  ℕ, zero, suc, ◌+◌, ◌-◌, ◌*◌, ◌/◌, ◌%◌, ◌^◌, ◌≤◌, ◌<◌, bit_xor, ◌≡◌, refl, sym, ap, ◌∙◌, fun_ext,
  subst, ◌≢◌, ◌↔◌, ◌⊎◌, inl, inr, Bool, true, false, ◌&&◌, ◌||◌, not, Option, none, some, List, [],
  ◌∷◌, ◌++◌, map, append_assoc, append-nil, arith, ltb, ◌==◌, if◌then◌else◌, ==_refl, eq-of_==,
  Bool-cases, Option-cases, ◌===◌, ===_refl, eq-of_===, ===_iff, lt_cases, lt→ltb, length,
  get_elem?, get_or, set, take, drop, replicate, length-append, length-set, length-replicate,
  length-drop, get_elem?-set, get_elem?-get_or, get_or-set, get_or-replicate, get_or-append,
  drop-nil, drop-drop, drop-append, set-append_length, get_or-append_self, set-set, Fault, Run,
  or_fault, Returns, ◌>>=◌, Terminates, Terminates-ok, Terminates-bind, codes, starts_with, decimal,
  ok, fault, out_of_bounds, uninitialised, null_pointer, division_by_zero, wrong_member, trap_value,
  out_of_fuel,
}
use reflect_c.Format.{Text}
use reflect_c.Plugin.Int.{ℤ}
use reflect_c.Plugin.Clang.{Clang}
use reflect_c.Plugin.Types.{
  TypeVariant, base, struct, union, BaseType, base_type, FieldInfo, RecordInfo, record_info,
  add_field, EnumInfo, enum_info, add_enumerator,
}
use reflect_c.Plugin.Field.{create_field_info, or_else}

-- `std::unordered_map<std::string, BaseType>`, in the order of insertion.
abbrev pub BaseTypes : Type 0
BaseTypes = List (Text × BaseType)

-- `std::unordered_map<const TagDecl*, std::vector<std::string>>`
abbrev pub PendingAliases : Type 0
PendingAliases = List (ℕ × List Text)

-- `base_types` and the others are members; the context is the parameter `C`.
pub record Visitor : Type 0 where
  pub results : List RecordInfo
  pub enum_results : List EnumInfo
  pub next_type_id : ℕ
  pub base_types : BaseTypes
  pub pending_aliases : PendingAliases

-- `BaseTypes.find(name)`
unfoldable pub find : Text → BaseTypes → Option BaseType
find name [] = none
find name ((key, t) ∷ m) = if key === name then some t else find name m

-- `BaseTypes.emplace(name, t)` leaves a name that is there.
abbrev pub emplace : Text → BaseType → BaseTypes → BaseTypes
emplace name t m = elim (find name m) [ some _ ↦ m | none ↦ m ++ (name, t) ∷ [] ]

unfoldable pub find_pending : ℕ → PendingAliases → Option (List Text)
find_pending tag [] = none
find_pending tag ((key, aliases) ∷ m) = if key == tag then some aliases else find_pending tag m

unfoldable pub erase_pending : ℕ → PendingAliases → PendingAliases
erase_pending tag [] = []
erase_pending tag ((key, aliases) ∷ m) =
    let rest = erase_pending tag m in if key == tag then m else (key, aliases) ∷ rest

-- `PendingAliases[tag].push_back(name)`
unfoldable pub push_pending : ℕ → Text → PendingAliases → PendingAliases
push_pending tag name [] = (tag, name ∷ []) ∷ []
push_pending tag name ((key, aliases) ∷ m) =
    let rest = push_pending tag name m in
    if key == tag then (key, aliases ++ name ∷ []) ∷ m else (key, aliases) ∷ rest

unfoldable pub contains : Text → List Text → Bool
contains name [] = false
contains name (a ∷ aliases) = a === name || contains name aliases

-- The inner loop of both merges: each alias that the target lacks goes to its end.
unfoldable pub merge_aliases : List Text → List Text → List Text
merge_aliases [] target = target
merge_aliases (a ∷ aliases) target =
    merge_aliases aliases (if contains a target then target else target ++ a ∷ [])

-- `MergePendingAliasesFor`: the aliases of the target, and what is left pending.
unfoldable pub merge_pending_aliases_for : PendingAliases → ℕ → BaseType → BaseType × PendingAliases
merge_pending_aliases_for pending canon_td target = elim (find_pending canon_td pending) [
  | some aliases ↦ (
    record target { aliases = merge_aliases aliases target.aliases },
    erase_pending canon_td pending,
  )
  | none ↦ (target, pending)
]

-- `record.RD == static_cast<const void*>(canonTD)`
abbrev pub same_rd : Option ℕ → ℕ → Bool
same_rd none tag = false
same_rd (some rd) tag = rd == tag

abbrev pub merge_record : ℕ → List Text → RecordInfo → RecordInfo
merge_record tag aliases r =
    if same_rd r.rd tag
    then record r { base = record r.base { aliases = merge_aliases aliases r.base.aliases } }
    else r

abbrev pub merge_enum : ℕ → List Text → EnumInfo → EnumInfo
merge_enum tag aliases en =
    if en.ed == tag
    then record en { base = record en.base { aliases = merge_aliases aliases en.base.aliases } }
    else en

-- The loop over the pending aliases, in whichever order the map yields them.
unfoldable pub merge_loop :
    PendingAliases → List RecordInfo × List EnumInfo → List RecordInfo × List EnumInfo
merge_loop [] found = found
merge_loop ((tag, aliases) ∷ pending) (results, enum_results) =
    merge_loop pending
      (map (merge_record tag aliases) results, map (merge_enum tag aliases) enum_results)

-- `order` is the order in which the map is walked.
unfoldable pub merge_pending_aliases : (order : PendingAliases → PendingAliases) → Visitor → Visitor
unfolding merge_loop
merge_pending_aliases order v =
    let merged = merge_loop (order v.pending_aliases) (v.results, v.enum_results) in
    record v { results = merged.0; enum_results = merged.1; pending_aliases = [] }

unfoldable pub register_base_type : Text → ℕ → Visitor → Visitor
register_base_type name size v = record v {
  base_types = emplace name (base_type base name size v.next_type_id) v.base_types;
  next_type_id = v.next_type_id + 1;
}

-- `getPointerWidth(LangAS::Default) / 8`
abbrev pub arch_size : Clang → ℕ
arch_size C = C.get_pointer_width / 8

unfoldable pub register_base_types : Clang → Visitor → Visitor
unfolding register_base_type
register_base_types C v₀ =
    let v₁ = register_base_type (codes "size_t") (arch_size C) v₀ in
    let v₂ = register_base_type (codes "void") 0 v₁ in
    let v₃ = register_base_type (codes "int") 4 v₂ in
    let v₄ = register_base_type (codes "unsigned int") 4 v₃ in
    let v₅ = register_base_type (codes "float") 4 v₄ in
    let v₆ = register_base_type (codes "double") 8 v₅ in
    let v₇ = register_base_type (codes "char") 1 v₆ in
    let v₈ = register_base_type (codes "unsigned char") 1 v₇ in
    let v₉ = register_base_type (codes "short") 2 v₈ in
    let v₁₀ = register_base_type (codes "unsigned short") 2 v₉ in
    let v₁₁ = register_base_type (codes "long") 4 v₁₀ in
    let v₁₂ = register_base_type (codes "unsigned long") 4 v₁₁ in
    let v₁₃ = register_base_type (codes "_Bool") 1 v₁₂ in
    let v₁₄ = register_base_type (codes "bool") 1 v₁₃ in
    let v₁₅ = register_base_type (codes "unsigned long long") 8 v₁₄ in
    register_base_type (codes "long long") 8 v₁₅

-- The constructor of `ReflectClangVisitor`.
unfoldable pub visitor : Clang → Visitor
unfolding register_base_types
visitor C = register_base_types C (record {
  results = [];
  enum_results = [];
  next_type_id = 1;
  base_types = [];
  pending_aliases = [];
})
