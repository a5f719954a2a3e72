-- ===== src/Plugin/Consumer/Aliases.antt =====
-- The aliases in a translation unit, whatever the order of its declarations.
use reflect_c.Base.{
  ℕ, ◌≡◌, sym, ap, ◌∙◌, subst, inl, inr, false, ◌&&◌, not, some, List, [], ◌∷◌, ◌++◌, ◌==◌,
  eq-of_==, Bool-cases, Option-cases, ◌===◌, IsIn, IsIn-append_left, IsIn-append_right, After,
  After-bind, After-any, After-map, reached, first, later,
}
use reflect_c.Format.{Text}
use reflect_c.Plugin.Clang.{Clang}
use reflect_c.Plugin.Types.{BaseType, RecordInfo}
use reflect_c.Plugin.Visitor.{Visitor}
use reflect_c.Plugin.Visitor.Aliases.{
  Pending, Pending-push_kept, Pending-merge_other, Pending-merge_same,
}
use reflect_c.Plugin.Visitor.Merge.{HasAlias, IsRecorded, IsNamed}
use reflect_c.Plugin.Visit.{
  visit_record_decl, visit_enum_decl, visit_typedef_decl, name_of_record, name_of_enum,
}
use reflect_c.Plugin.Visit.Paths.Reflected.{Reflected, visit_named_record-Reflected}
use reflect_c.Plugin.Consumer.{Decl, record_decl, enum_decl, typedef_decl, visit, traverse_decl}

module _ (C : Clang) where
  -- What a visit carries on for a tag.
  pub record Carries (tag : ℕ) (v v' : Visitor) : Type 0 where
    pub named : (name : Text) → IsNamed tag name v → IsNamed tag name v'
    pub recorded : IsRecorded tag v.results → IsRecorded tag v'.results

  Carries-refl : (tag : ℕ) (v : Visitor) → Carries tag v v
  Carries-refl tag v = record { named = λ name h. h; recorded = λ h. h }

  Carries-trans : (tag : ℕ) (u v w : Visitor) → Carries tag u v → Carries tag v w → Carries tag u w
  Carries-trans tag u v w h k = record {
    named = λ name n. k.named name (h.named name n);
    recorded = λ r. k.recorded (h.recorded r);
  }

  IsRecorded-append :
      (tag : ℕ) (rs : List RecordInfo) (r : RecordInfo)
      → IsRecorded tag rs
      → IsRecorded tag (rs ++ r ∷ [])
  IsRecorded-append tag rs r (q, isin, e) = (q, IsIn-append_left rs (r ∷ []) isin, e)

  HasAlias-append :
      (tag : ℕ) (name : Text) (rs : List RecordInfo) (r : RecordInfo)
      → HasAlias tag name rs
      → HasAlias tag name (rs ++ r ∷ [])
  HasAlias-append tag name rs r (q, isin, e, h) = (q, IsIn-append_left rs (r ∷ []) isin, e, h)

  Reflected-Carries :
      (tag : ℕ) (rd : C.RecordDecl) (name : Text) (v v' : Visitor)
      → Reflected C rd name v v'
      → Carries tag v v'
  Reflected-Carries tag rd name v v' h = record {
    named = λ other n. named other n;
    recorded = λ r. subst (IsRecorded tag) (sym h.appended) (IsRecorded-append tag v.results h.r r);
  }
    where
      named : (other : Text) → IsNamed tag other v → IsNamed tag other v'
      named other (inr n) =
          inr (
            subst (HasAlias tag other) (sym h.appended) (HasAlias-append tag other v.results h.r n))
      named other (inl n) = elim (Bool-cases (C.get_canonical_decl rd == tag)) [
        | inl own ↦ inr (
          h.r,
          subst (λ rs. IsIn h.r rs) (sym h.appended) (IsIn-append_right v.results (h.r ∷ []) first),
          h.decl ∙ ap some (eq-of_== _ _ own),
          subst (λ (t : BaseType). IsIn other t.aliases) (sym h.base_lem)
              (Pending-merge_same (C.get_canonical_decl rd) other v.pending_aliases _
                (subst (λ t. Pending t other v.pending_aliases) (sym (eq-of_== _ _ own)) n)),
        )
        | inr apart ↦ inl (
            subst (Pending tag other) (sym h.pending)
              (Pending-merge_other tag (C.get_canonical_decl rd) other v.pending_aliases _ apart n))
      ]

  -- The declaration is no enum of this tag.
  unfoldable pub Apart : ℕ → Decl C → Type 0
  Apart tag (record_decl rd) = Unit
  Apart tag (enum_decl ed) = (C.get_canonical_enum ed == tag) ≡ false
  Apart tag (typedef_decl td) = Unit

  visit_record_decl-Carries :
      (tag fuel : ℕ) (rd : C.RecordDecl) (v : Visitor)
      → After (Carries tag v) (visit_record_decl C fuel rd v)
  unfolding visit_record_decl
  visit_record_decl-Carries tag fuel rd v = elim (Bool-cases (C.is_complete_definition rd)) [
    | inr no_def ↦ rw (visit_record_decl, no_def) (reached (Carries-refl tag v))
    | inl full ↦ elim (Option-cases (name_of_record C rd)) [
      | inl e ↦ rw (visit_record_decl, full, e) (reached (Carries-refl tag v))
      | inr (name, e) ↦
          rw (visit_record_decl, full, e)
            (After-map (λ v' h. Reflected-Carries tag rd name v v' h)
              (visit_named_record-Reflected C fuel rd name v))
    ]
  ]

  visit_enum_decl-Carries :
      (tag : ℕ) (ed : C.EnumDecl) (v : Visitor)
      → (C.get_canonical_enum ed == tag) ≡ false
      → Carries tag v (visit_enum_decl C ed v)
  unfolding visit_enum_decl
  visit_enum_decl-Carries tag ed v apart =
      elim (Bool-cases (C.enum_is_complete_definition ed && not (name_of_enum C ed === []))) [
        | inr skip ↦ rw (visit_enum_decl, skip) (Carries-refl tag v)
        | inl done ↦
            rw (visit_enum_decl, done)
              (record {
                named = λ name n. elim n [
                  | inl p ↦ inl (
                      Pending-merge_other tag (C.get_canonical_enum ed) name v.pending_aliases _
                        apart p)
                  | inr r ↦ inr r
                ];
                recorded = λ r. r;
              })
      ]

  visit_typedef_decl-Carries :
      (tag : ℕ) (td : C.TypedefDecl) (v : Visitor) → Carries tag v (visit_typedef_decl C td v)
  unfolding visit_typedef_decl
  visit_typedef_decl-Carries tag td v =
      elim (Option-cases (C.get_as_tag_type (C.get_canonical_type (C.get_underlying_type td)))) [
        | inl e ↦ rw (visit_typedef_decl, e) (Carries-refl tag v)
        | inr (t, e) ↦
            rw (visit_typedef_decl, e)
              (record {
                named = λ name n. elim n [
                  | inl p ↦
                      inl (Pending-push_kept tag t name (C.get_typedef_name td) v.pending_aliases p)
                  | inr r ↦ inr r
                ];
                recorded = λ r. r;
              })
      ]

  visit-Carries :
      (tag : ℕ) (fuel : ℕ) (d : Decl C) (v : Visitor)
      → Apart tag d
      → After (Carries tag v) (visit C fuel d v)
  unfolding Apart visit
  visit-Carries tag fuel (record_decl rd) v h = visit_record_decl-Carries tag fuel rd v
  visit-Carries tag fuel (enum_decl ed) v h = reached (visit_enum_decl-Carries tag ed v h)
  visit-Carries tag fuel (typedef_decl td) v h = reached (visit_typedef_decl-Carries tag td v)

  abbrev pub AllApart : ℕ → List (Decl C) → Type 0
  AllApart tag decls = (d : Decl C) → IsIn d decls → Apart tag d

  traverse_decl-Carries :
      (tag fuel : ℕ) (decls : List (Decl C)) (v : Visitor)
      → AllApart tag decls
      → After (Carries tag v) (traverse_decl C fuel decls v)
  unfolding traverse_decl
  traverse_decl-Carries tag fuel [] v h = reached (Carries-refl tag v)
  traverse_decl-Carries tag fuel (d ∷ decls) v h =
      After-bind (visit-Carries tag fuel d v (h d first)) λ v' c.
        After-map (λ w c'. Carries-trans tag v v' w c c')
          (traverse_decl-Carries tag fuel decls v' (λ e isin. h e (later isin)))

  -- What one declaration brings about holds at the end.
  pub traverse_decl-brings :
      {P : Visitor → Type 0} (tag fuel : ℕ) (d : Decl C) (decls : List (Decl C)) (v : Visitor)
      → AllApart tag decls
      → ((u w : Visitor) → Carries tag u w → P u → P w)
      → ((u : Visitor) → After P (visit C fuel d u))
      → IsIn d decls
      → After P (traverse_decl C fuel decls v)
  unfolding traverse_decl
  traverse_decl-brings tag fuel d [] v h carry brings isin = elim isin [ ]
  traverse_decl-brings tag fuel d (_ ∷ decls) v h carry brings first = After-bind (brings v) λ v' p.
      After-map (λ w c. carry v' w c p)
        (traverse_decl-Carries tag fuel decls v' (λ e isin. h e (later isin)))
  traverse_decl-brings tag fuel d (e ∷ decls) v h carry brings (later isin) =
      After-bind (After-any (visit C fuel e v)) λ v' u.
        traverse_decl-brings tag fuel d decls v' (λ g isin'. h g (later isin')) carry brings isin
