-- ===== src/Plugin/Consumer/Ends.antt =====
-- A translation unit whose trees are finite.
use reflect_c.Base.{Bool, List, [], ◌∷◌, Terminates, Terminates-ok, Terminates-bind}
use reflect_c.Plugin.Clang.{Clang, IsFinite}
use reflect_c.Plugin.Visitor.{BaseTypes, PendingAliases, Visitor, visitor}
use reflect_c.Plugin.Visit.Ends.{visit_record_decl-Terminates}
use reflect_c.Plugin.Consumer.{
  Decl, record_decl, enum_decl, typedef_decl, visit, traverse_decl, collect,
  handle_translation_unit,
}

module _ (C : Clang) (finite : IsFinite C) where
  visit-Terminates : (d : Decl C) (v : Visitor) → Terminates (λ fuel. visit C fuel d v)
  unfolding visit
  visit-Terminates (record_decl rd) v = visit_record_decl-Terminates C finite rd v
  visit-Terminates (enum_decl ed) v = Terminates-ok _
  visit-Terminates (typedef_decl td) v = Terminates-ok _

  traverse_decl-Terminates :
      (decls : List (Decl C)) (v : Visitor) → Terminates (λ fuel. traverse_decl C fuel decls v)
  unfolding traverse_decl
  traverse_decl-Terminates [] v = Terminates-ok v
  traverse_decl-Terminates (d ∷ decls) v =
      Terminates-bind (visit-Terminates d v) λ v'. traverse_decl-Terminates decls v'

  pub collect-Terminates :
      (order : PendingAliases → PendingAliases) (decls : List (Decl C))
      → Terminates (λ fuel. collect C order fuel decls)
  unfolding collect
  collect-Terminates order decls =
      Terminates-bind (traverse_decl-Terminates decls (visitor C)) λ v. Terminates-ok _

  -- Where Clang's trees are finite, `HandleTranslationUnit` ends on every list of declarations:
  -- with enough fuel for the nesting of records and the depth of types, each larger amount
  -- gives the same result, whether the file opens or not.
  pub handle_translation_unit-Terminates :
      (order : PendingAliases → PendingAliases) (walk : BaseTypes → BaseTypes) (is_open : Bool)
      (decls : List (Decl C))
      → Terminates (λ fuel. handle_translation_unit C order walk fuel is_open decls)
  unfolding handle_translation_unit
  handle_translation_unit-Terminates order walk is_open decls =
      Terminates-bind (collect-Terminates order decls) λ v. Terminates-ok _
