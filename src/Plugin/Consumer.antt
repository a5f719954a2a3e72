-- ===== src/Plugin/Consumer.antt =====
-- plugin/ReflectConsumer.cpp: a translation unit, from its declarations to the text of the file. The
-- declarations are those that Clang's `TraverseDecl` visits, in its order.
pub mod Ends
pub mod Aliases
pub mod Typedefs
use reflect_c.Base.{
  ℕ, zero, suc, ◌+◌, ◌-◌, ◌*◌, ◌/◌, ◌%◌, ◌^◌, ◌≤◌, ◌<◌, bit_xor, ◌≡◌, refl, sym, ap, ◌∙◌, fun_ext,
  subst, ◌≢◌, ◌↔◌, ◌⊎◌, inl, inr, Bool, true, false, ◌&&◌, ◌||◌, not, Option, none, some, List, [],
  ◌∷◌, ◌++◌, map, append_assoc, append-nil, arith, ltb, ◌==◌, if◌then◌else◌, ==_refl, eq-of_==,
  Bool-cases, Option-cases, ◌===◌, ===_refl, eq-of_===, ===_iff, lt_cases, lt→ltb, length,
  get_elem?, get_or, set, take, drop, replicate, length-append, length-set, length-replicate,
  length-drop, get_elem?-set, get_elem?-get_or, get_or-set, get_or-replicate, get_or-append,
  drop-nil, drop-drop, drop-append, set-append_length, get_or-append_self, set-set, IsIn,
  IsIn-append_left, IsIn-append_right, IsIn-append_cases, IsIn-one, Fault, Run, or_fault, Returns,
  ◌>>=◌, Terminates, Terminates-ok, Terminates-bind, Terminates-suc, Terminates-pred, After,
  After-bind, After-if, After-any, After-ok, After-map, Settles, Settles-After, codes, starts_with,
  decimal_from, decimal, ok, fault, out_of_bounds, uninitialised, null_pointer, division_by_zero,
  wrong_member, trap_value, out_of_fuel, reached, stopped, first, later,
}
use reflect_c.Format.{Text}
use reflect_c.Plugin.Clang.{Clang}
use reflect_c.Plugin.Visitor.{
  BaseTypes, PendingAliases, Visitor, visitor, arch_size, merge_pending_aliases,
}
use reflect_c.Plugin.Visit.{visit_record_decl, visit_enum_decl, visit_typedef_decl}
use reflect_c.Plugin.Serializer.{serialize}

module _ (C : Clang) where
  pub data Decl : Type 0 where
    record_decl : C.RecordDecl → Decl
    enum_decl : C.EnumDecl → Decl
    typedef_decl : C.TypedefDecl → Decl

  unfoldable pub visit : ℕ → Decl → Visitor → Run Visitor
  visit fuel (record_decl rd) v = visit_record_decl C fuel rd v
  visit fuel (enum_decl ed) v = ok (visit_enum_decl C ed v)
  visit fuel (typedef_decl td) v = ok (visit_typedef_decl C td v)

  unfoldable pub traverse_decl : ℕ → List Decl → Visitor → Run Visitor
  traverse_decl fuel [] v = ok v
  traverse_decl fuel (d ∷ decls) v = visit fuel d v >>= λ v'. traverse_decl fuel decls v'

  -- The visitor at the end of `HandleTranslationUnit`; `order` is the order of the pending aliases.
  unfoldable pub collect : (order : PendingAliases → PendingAliases) → ℕ → List Decl → Run Visitor
  collect order fuel decls =
      traverse_decl fuel decls (visitor C) >>= λ v. ok (merge_pending_aliases order v)

  -- `walk` is the order of the base types.
  unfoldable pub handle_translation_unit :
      (order : PendingAliases → PendingAliases) (walk : BaseTypes → BaseTypes)
      → ℕ
      → (is_open : Bool) → List Decl
      → Run (Option Text)
  handle_translation_unit order walk fuel is_open decls = collect order fuel decls >>= λ v.
      ok (serialize is_open (walk v.base_types) v.results v.enum_results (arch_size C))
