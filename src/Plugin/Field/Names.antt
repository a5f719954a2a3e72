-- ===== src/Plugin/Field/Names.antt =====
-- The names that the last steps of `CreateFieldInfo` give to a type: `clean_name` and `tag_name`.
use reflect_c.Base.{
  ◌≡◌, refl, sym, ap, ◌∙◌, ◌≢◌, inl, inr, true, false, none, some, [], ◌∷◌, ◌++◌, ◌==◌, ==_refl,
  eq-of_==, Bool-cases, Option-cases, ◌===◌, ===_refl, eq-of_===, length, drop, codes, starts_with,
  subst,
}
use reflect_c.Format.{Text}
use reflect_c.Plugin.Clang.{Clang}
use reflect_c.Plugin.Field.{clean_name, tag_name}

starts_with-append : (prefix s : Text) → starts_with (prefix ++ s) prefix ≡ true
unfolding starts_with
starts_with-append [] s = refl
starts_with-append (p ∷ prefix) s = rw (==_refl p, starts_with-append prefix s) refl

starts_with-drop :
    (s prefix : Text) → starts_with s prefix ≡ true → s ≡ prefix ++ drop (length prefix) s
unfolding starts_with
starts_with-drop s [] h = refl
starts_with-drop [] (p ∷ prefix) h = cc h
starts_with-drop (c ∷ s) (p ∷ prefix) h = elim (Bool-cases (c == p)) [
  | inl e ↦
      let same = eq-of_== c p e in
      let rest : starts_with s prefix ≡ true = rw e at h in
      ap (λ x. x ∷ s) same ∙ ap (λ l. p ∷ l) (starts_with-drop s prefix rest)
  | inr e ↦ let no = rw e at h in cc no
]

starts_with-other : (name prefix s : Text) → starts_with name prefix ≡ false → name ≢ prefix ++ s
starts_with-other name prefix s h e =
    let yes_ = subst (λ n. starts_with n prefix ≡ true) (sym e) (starts_with-append prefix s) in
    cc (yes_, h)

-- The name without the word `struct`, `union` or `enum` before it.
pub data CleanName (name s : Text) : Type 0 where
  struct_word : name ≡ codes "struct " ++ s → CleanName name s
  union_word : name ≡ codes "union " ++ s → CleanName name s
  enum_word : name ≡ codes "enum " ++ s → CleanName name s
  no_word :
      s ≡ name
      → ((r : Text) → name ≢ codes "struct " ++ r)
      → ((r : Text) → name ≢ codes "union " ++ r)
      → ((r : Text) → name ≢ codes "enum " ++ r)
      → CleanName name s

pub clean_name-CleanName : (name : Text) → CleanName name (clean_name name)
unfolding clean_name
clean_name-CleanName name = elim (Bool-cases (starts_with name (codes "struct "))) [
  | inl e ↦ rw (clean_name, e) (struct_word (starts_with-drop name (codes "struct ") e))
  | inr no_struct ↦ elim (Bool-cases (starts_with name (codes "union "))) [
    | inl e ↦ rw (clean_name, no_struct, e) (union_word (starts_with-drop name (codes "union ") e))
    | inr no_union ↦ elim (Bool-cases (starts_with name (codes "enum "))) [
      | inl e ↦
          rw (clean_name, no_struct, no_union, e)
            (enum_word (starts_with-drop name (codes "enum ") e))
      | inr no_enum ↦
          rw (clean_name, no_struct, no_union, no_enum)
            (no_word refl (λ r. starts_with-other name (codes "struct ") r no_struct)
              (λ r. starts_with-other name (codes "union ") r no_union)
              (λ r. starts_with-other name (codes "enum ") r no_enum))
    ]
  ]
]

module _ (C : Clang) where
  -- The name of a record, or else of the typedef that names it, or else none.
  pub data TagName (rd : C.RecordDecl) (s : Text) : Type 0 where
    own_tag : C.get_name rd ≡ s → s ≢ [] → TagName rd s
    typedef_tag : C.get_name rd ≡ [] → C.get_typedef_name_for_anon_decl rd ≡ some s → TagName rd s
    no_tag : C.get_name rd ≡ [] → C.get_typedef_name_for_anon_decl rd ≡ none → s ≡ [] → TagName rd s

  pub tag_name-TagName : (rd : C.RecordDecl) → TagName rd (tag_name C rd)
  unfolding tag_name
  tag_name-TagName rd = elim (Bool-cases (C.get_name rd === [])) [
    | inr own ↦
        rw (tag_name, own)
          (own_tag refl λ e.
            let yes_ = ===_refl [] in
            let no = subst (λ n. (n === []) ≡ false) e own in cc (yes_, no))
    | inl anonymous ↦
        let e = eq-of_=== (C.get_name rd) [] anonymous in
        elim (Option-cases (C.get_typedef_name_for_anon_decl rd)) [
          | inl none_ ↦ rw (tag_name, anonymous, none_) (no_tag e none_ refl)
          | inr (s, named) ↦ rw (tag_name, anonymous, named) (typedef_tag e named)
        ]
  ]
