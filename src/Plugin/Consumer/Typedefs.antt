-- ===== src/Plugin/Consumer/Typedefs.antt =====
-- A typedef of a record, before its declaration or after it.
use reflect_c.Base.{
  ℕ, ◌≡◌, sym, subst, inl, true, Option, some, List, [], ◌∷◌, IsIn, IsIn-append_right, After,
  After-bind, After-map, After-both, Settles, Settles-After, reached, first,
}
use reflect_c.Format.{Text}
use reflect_c.Plugin.Clang.{Clang, IsFinite}
use reflect_c.Plugin.Visitor.{PendingAliases, Visitor, visitor}
use reflect_c.Plugin.Visitor.Aliases.{Pending-push}
use reflect_c.Plugin.Visitor.Merge.{HasAlias, IsRecorded, IsNamed, merge_pending_aliases-HasAlias}
use reflect_c.Plugin.Visit.{visit_record_decl, visit_typedef_decl, name_of_record}
use reflect_c.Plugin.Visit.Paths.Reflected.{visit_named_record-Reflected}
use reflect_c.Plugin.Consumer.{Decl, record_decl, typedef_decl, visit, collect}
use reflect_c.Plugin.Consumer.Ends.{collect-Terminates}
use reflect_c.Plugin.Consumer.Aliases.{AllApart, traverse_decl-brings}

module _ (C : Clang) where
  -- The tag that a typedef names, if it names one.
  abbrev pub tag_of_typedef : C.TypedefDecl → Option ℕ
  tag_of_typedef td = C.get_as_tag_type (C.get_canonical_type (C.get_underlying_type td))

  visit_typedef_decl-IsNamed :
      (fuel tag : ℕ) (td : C.TypedefDecl) (v : Visitor)
      → tag_of_typedef td ≡ some tag
      → After (IsNamed tag (C.get_typedef_name td)) (visit C fuel (typedef_decl td) v)
  unfolding visit visit_typedef_decl
  visit_typedef_decl-IsNamed fuel tag td v e = reached (
      rw (visit_typedef_decl, e) (inl (Pending-push tag (C.get_typedef_name td) v.pending_aliases)))

  visit_record_decl-IsRecorded :
      (fuel : ℕ) (rd : C.RecordDecl) (name : Text) (v : Visitor)
      → C.is_complete_definition rd ≡ true
      → name_of_record C rd ≡ some name
      → After
          (λ v'. IsRecorded (C.get_canonical_decl rd) v'.results)
          (visit C fuel (record_decl rd) v)
  unfolding visit visit_record_decl
  visit_record_decl-IsRecorded fuel rd name v full e =
      rw (visit_record_decl, full, e)
        (After-map
          (λ v' h. (
            h.r,
            subst (λ rs. IsIn h.r rs) (sym h.appended)
                (IsIn-append_right v.results (h.r ∷ []) first),
            h.decl,
          ))
          (visit_named_record-Reflected C fuel rd name v))

  -- Where Clang's trees are finite, let a typedef of a complete record that has a name be
  -- visited before or after the record, in a translation unit where no enum has the record's
  -- address. Then the traversal and the merge that follows end, and a record of that address in
  -- the results has the typedef's name as an alias, in whichever order the map of pending
  -- aliases is walked.
  pub collect-HasAlias :
      (finite : IsFinite C) (order : PendingAliases → PendingAliases) (decls : List (Decl C))
      (td : C.TypedefDecl) (rd : C.RecordDecl) (name : Text)
      → ((entry : ℕ × List Text) (m : PendingAliases) → IsIn entry m → IsIn entry (order m))
      → IsIn (typedef_decl td) decls
      → IsIn (record_decl rd) decls
      → tag_of_typedef td ≡ some (C.get_canonical_decl rd)
      → C.is_complete_definition rd ≡ true
      → name_of_record C rd ≡ some name
      → AllApart C (C.get_canonical_decl rd) decls
      → Settles
          (λ fuel. collect C order fuel decls)
          (λ v. HasAlias (C.get_canonical_decl rd) (C.get_typedef_name td) v.results)
  unfolding collect
  collect-HasAlias finite order decls td rd name all typedef_in record_in tagged full named apart =
      Settles-After (collect-Terminates C finite order decls) λ fuel.
        After-bind
          (After-both
            (traverse_decl-brings C {P = λ v. IsNamed tag (C.get_typedef_name td) v} tag fuel
              (typedef_decl td) decls (visitor C) apart (λ u w c. c.named (C.get_typedef_name td))
              (λ u. visit_typedef_decl-IsNamed fuel tag td u tagged) typedef_in)
            (traverse_decl-brings C {P = λ v. IsRecorded tag v.results} tag fuel (record_decl rd)
              decls (visitor C) apart (λ u w c. c.recorded)
              (λ u. visit_record_decl-IsRecorded fuel rd name u full named) record_in))
          λ v (n, r). reached (merge_pending_aliases-HasAlias order tag _ v all r n)
    where
      tag : ℕ
      tag = C.get_canonical_decl rd
