-- ===== src/Plugin/Visit/Register.antt =====
-- What `VisitRecordDecl` registers for a field.
use reflect_c.Base.{
  ℕ, ◌≤◌, ◌≡◌, refl, ap, ◌∙◌, ◌≢◌, inl, inr, false, ◌&&◌, not, none, some, [], ◌∷◌, ◌++◌, arith,
  if◌then◌else◌, Bool-cases, Option-cases, ◌===◌, ===_refl, eq-of_===,
}
use reflect_c.Format.{Text}
use reflect_c.Plugin.Types.{BaseType, base, base_type, FieldInfo}
use reflect_c.Plugin.Visitor.{Visitor, BaseTypes, find, emplace, register_base_type}
use reflect_c.Plugin.Visit.{register_type, register_alias, register_field, size_of}

-- A registration leaves the rest of the visitor as it is, and the names that it has.
pub record Extends (v v' : Visitor) : Type 0 where
  pub results : v'.results ≡ v.results
  pub enum_results : v'.enum_results ≡ v.enum_results
  pub pending_aliases : v'.pending_aliases ≡ v.pending_aliases
  pub kept :
      (name : Text) (t : BaseType)
      → find name v.base_types ≡ some t
      → find name v'.base_types ≡ some t
  pub next_le : v.next_type_id ≤ v'.next_type_id

pub Extends-refl : (v : Visitor) → Extends v v
Extends-refl v = record {
  results = refl;
  enum_results = refl;
  pending_aliases = refl;
  kept = λ name t h. h;
  next_le = omega arith;
}

pub Extends-trans : {u v w : Visitor} → Extends u v → Extends v w → Extends u w
Extends-trans h k = record {
  results = k.results ∙ h.results;
  enum_results = k.enum_results ∙ h.enum_results;
  pending_aliases = k.pending_aliases ∙ h.pending_aliases;
  kept = λ name t e. k.kept name t (h.kept name t e);
  next_le = let a = h.next_le in let b = k.next_le in omega arith;
}

-- Lookups after an insertion.
pub find-append :
    (name key : Text) (t : BaseType) (m : BaseTypes)
    → find name (m ++ (key, t) ∷ [])
      ≡ elim (find name m) [ some u ↦ some u | none ↦ if key === name then some t else none ]
unfolding find
find-append name key t [] = refl
find-append name key t ((k, u) ∷ m) = elim (Bool-cases (k === name)) [
  | inl e ↦ rw e refl
  | inr ne ↦ rw ne (find-append name key t m)
]

pub find-emplace_same :
    (name : Text) (t : BaseType) (m : BaseTypes)
    → find name (emplace name t m) ≡ elim (find name m) [ some u ↦ some u | none ↦ some t ]
find-emplace_same name t m = elim (Option-cases (find name m)) [
  | inl e ↦ rw (emplace, e, find-append, e, ===_refl) refl
  | inr (u, e) ↦ rw (emplace, e, e) refl
]

pub find-emplace_kept :
    (name key : Text) (t u : BaseType) (m : BaseTypes)
    → find name m ≡ some u
    → find name (emplace key t m) ≡ some u
find-emplace_kept name key t u m h = elim (Option-cases (find key m)) [
  | inl e ↦ rw (emplace, e, find-append, h) refl
  | inr (w, e) ↦ rw (emplace, e, h) refl
]

register_base_type-Extends :
    (name : Text) (size : ℕ) (v : Visitor) → Extends v (register_base_type name size v)
unfolding register_base_type
register_base_type-Extends name size v = record {
  results = refl;
  enum_results = refl;
  pending_aliases = refl;
  kept = λ key u h. find-emplace_kept key name _ u v.base_types h;
  next_le = omega arith;
}

register_type-Extends : (fi : FieldInfo) (v : Visitor) → Extends v (register_type fi v)
unfolding register_type
register_type-Extends fi v = elim (Option-cases (find fi.type v.base_types)) [
  | inl e ↦ rw (register_type, e) (register_base_type-Extends fi.type 0 v)
  | inr (t, e) ↦ rw (register_type, e) (Extends-refl v)
]

register_alias-Extends : (fi : FieldInfo) (v : Visitor) → Extends v (register_alias fi v)
unfolding register_alias
register_alias-Extends fi v =
    elim (Bool-cases (not (fi.alias === []) && not (fi.alias === fi.type))) [
      | inl named ↦ elim (Option-cases (find fi.alias v.base_types)) [
        | inl e ↦ rw (named, e) (register_base_type-Extends _ _ v)
        | inr (t, e) ↦ rw (named, e) (Extends-refl v)
      ]
      | inr unnamed ↦ rw unnamed (Extends-refl v)
    ]

pub register_field-Extends : (fi : FieldInfo) (v : Visitor) → Extends v (register_field fi v)
unfolding register_field
register_field-Extends fi v = elim (Bool-cases fi.is_struct_or_union) [
  | inl is ↦ rw is (Extends-refl v)
  | inr other ↦
      rw other (
        Extends-trans (register_type-Extends fi v) (register_alias-Extends fi (register_type fi v)))
]

-- The names of a field whose type is not that of a record.
pub Registers : FieldInfo → Visitor → Type 0
Registers fi v =
    fi.is_struct_or_union ≡ false
    → ((t : BaseType) × (find fi.type v.base_types ≡ some t))
      × (fi.alias ≢ [] → (t : BaseType) × (find fi.alias v.base_types ≡ some t))

register_type-found :
    (fi : FieldInfo) (v : Visitor)
    → (t : BaseType) × (find fi.type (register_type fi v).base_types ≡ some t)
unfolding register_type register_base_type
register_type-found fi v = elim (Option-cases (find fi.type v.base_types)) [
  | inl e ↦ (
    base_type base fi.type 0 v.next_type_id,
    rw (register_type, e) (find-emplace_same fi.type _ v.base_types ∙ rw e refl),
  )
  | inr (t, e) ↦ (t, rw (register_type, e) e)
]

register_alias-found :
    (fi : FieldInfo) (v : Visitor)
    → fi.alias ≢ []
    → (t : BaseType) × (find fi.type v.base_types ≡ some t)
    → (t : BaseType) × (find fi.alias (register_alias fi v).base_types ≡ some t)
unfolding register_alias register_base_type
register_alias-found fi v named (t, typed) = elim (Bool-cases (fi.alias === [])) [
  | inl e ↦ absurd (named (eq-of_=== _ _ e))
  | inr ne ↦ elim (Bool-cases (fi.alias === fi.type)) [
    | inl same ↦ (
      t,
      rw (register_alias, ne, same) (ap (λ n. find n v.base_types) (eq-of_=== _ _ same) ∙ typed),
    )
    | inr other ↦ elim (Option-cases (find fi.alias v.base_types)) [
      | inl e ↦ (
        base_type base fi.alias (size_of (find fi.type v.base_types)) v.next_type_id,
        rw (register_alias, ne, other, e) (find-emplace_same fi.alias _ v.base_types ∙ rw e refl),
      )
      | inr (u, e) ↦ (u, rw (register_alias, ne, other, e) e)
    ]
  ]
]

pub register_field-Registers : (fi : FieldInfo) (v : Visitor) → Registers fi (register_field fi v)
unfolding Registers register_field
register_field-Registers fi v other =
    let (t, typed) = register_type-found fi v in
    let kept = (register_alias-Extends fi (register_type fi v)).kept fi.type t typed in
    rw (register_field, other)
      ((t, kept), λ named. register_alias-found fi (register_type fi v) named (t, typed))

-- The names that a visitor has.
abbrev pub Keeps : Visitor → Visitor → Type 0
Keeps v v' =
    (name : Text) (t : BaseType)
    → find name v.base_types ≡ some t
    → find name v'.base_types ≡ some t

pub Registers-Keeps :
    (fi : FieldInfo) (v v' : Visitor) → Keeps v v' → Registers fi v → Registers fi v'
unfolding Registers
Registers-Keeps fi v v' keeps h other =
    let ((t, typed), aliased) = h other in
    ((t, keeps fi.type t typed), λ named. let (u, e) = aliased named in (u, keeps fi.alias u e))
